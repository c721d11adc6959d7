-- ===== src/Examples/ToySockets.antt =====
-- A machine whose only free descriptor is 3, on the epoll of ToyKernel; and a C library in which the
-- orders of bytes agree.
use user_center.Base.{
  ℕ, ◌≡◌, ◌≢◌, ◌∙◌, refl, sym, ap, List, [], ◌∷◌, Option, none, some, some_eq, Bool, true, false,
  not, arith, if◌then◌else◌, if_true, if_false, ◌==◌, ◌&&◌,
}
use user_center.Net.Acceptor.{Sockets, open_acceptor, accept_failed}
use user_center.Net.Acceptor.Opening.{SocketLaws, Clean, open_acceptor-Clean}
use user_center.Examples.ToyKernel.{
  ToyWorld, toy_kernel, toy_epoll, contains, settled, controlled, quiet,
}

abbrev pub remove : ℕ → List ℕ → List ℕ
remove k [] = []
remove k (j ∷ rest) = let kept = remove k rest in if k == j then kept else j ∷ kept

abbrev pub is_none : {A : Type 0} → Option A → Bool
is_none none = true
is_none (some a) = false

contains-remove_self : (k : ℕ) (s : List ℕ) → contains k (remove k s) ≡ false
contains-remove_self k [] = refl
contains-remove_self k (j ∷ rest) = ground (arith, contains-remove_self k rest)

contains-remove_other : (k i : ℕ) (s : List ℕ) → i ≢ k → contains i (remove k s) ≡ contains i s
contains-remove_other k i [] h = refl
contains-remove_other k i (j ∷ rest) h = ground (arith, contains-remove_other k i rest h)

abbrev pub is_free : ToyWorld → Bool
is_free w = contains 3 w.closed && is_none (w.interests 3)

abbrev pub takes_one : Bool → ToyWorld → Option ℕ × ToyWorld
takes_one true w = (some 3, record w { closed = remove 3 w.closed })
takes_one false w = (none, w)

abbrev pub toy_sockets : Sockets ToyWorld
toy_sockets = record {
  socket = λ w. takes_one (is_free w) w;
  reuse_addr = λ fd w. (true, w);
  reuse_port = λ fd w. (false, w);
  bind_addr = λ fd w. (true, w);
  listen = λ fd w. (true, record w { listens = fd ∷ w.listens });
  fcntl = λ op fd w. (some 0, w);
  accept = λ fd w. (accept_failed 11, w);
  close = toy_kernel.close;
  epoll_ctl = toy_kernel.epoll_ctl;
}

abbrev pub opened_in : ToyWorld → ℕ → Bool
opened_in w fd = not (contains fd w.closed)

same_closed :
    (fd : ℕ) (w v : ToyWorld) (o : Option (Option ℕ))
    → settled fd w o ≡ some v
    → opened_in v ≡ opened_in w
same_closed fd w v none e = cc
same_closed fd w v (some i) e = ap opened_in (sym (some_eq e))

same_listens :
    (fd : ℕ) (w v : ToyWorld) (o : Option (Option ℕ))
    → settled fd w o ≡ some v
    → (j : ℕ) → contains j v.listens ≡ contains j w.listens
same_listens fd w v none e j = cc
same_listens fd w v (some i) e j = ap (λ u. contains j u.listens) (sym (some_eq e))

none_left :
    (b : Bool) (w : ToyWorld) → (takes_one b w).0 ≡ none → opened_in (takes_one b w).1 ≡ opened_in w
none_left true w e = cc
none_left false w e = refl

no_interest : (o : Option ℕ) → is_none o ≡ true → o ≡ none
no_interest none h = refl
no_interest (some n) h = cc

fresh_at :
    (b : Bool) (fd : ℕ) (w : ToyWorld)
    → is_free w ≡ b
    → (takes_one b w).0 ≡ some fd
    → (opened_in w fd ≡ false)
      × (opened_in (takes_one b w).1 fd ≡ true)
      × ((takes_one b w).1.interests fd ≡ none)
      × ((j : ℕ) → j ≢ fd → opened_in (takes_one b w).1 j ≡ opened_in w j)
fresh_at false fd w h e = cc
fresh_at true fd w h e =
    let at : fd ≡ 3 = some_eq (sym e) in
    (
      ap (opened_in w) at ∙ ground (arith),
      ap (λ k. not (contains k (remove 3 w.closed))) at ∙ ap not (contains-remove_self 3 w.closed),
      ap w.interests at ∙ no_interest (w.interests 3) (ground (arith)),
      λ j other. ap not (contains-remove_other 3 j w.closed (λ x. other (x ∙ sym at))),
    )

closed_once :
    (fd : ℕ) (closed : List ℕ)
    → (not (contains fd (fd ∷ closed)) ≡ false)
      × ((j : ℕ) → j ≢ fd → not (contains j (fd ∷ closed)) ≡ not (contains j closed))
closed_once fd closed = (
  ap not (if_true {b = fd == fd} true _ (ground arith)),
  λ j other. ap not (if_false {b = j == fd} true _ (ground (arith, other))),
)

pub toy_socket_laws : SocketLaws toy_sockets toy_epoll
toy_socket_laws = record {
  is_open = opened_in;
  is_listening = λ w fd. contains fd w.listens;
  socket_law = λ fd w e. fresh_at (is_free w) fd w refl e;
  no_socket_law = λ w e. none_left (is_free w) w e;
  reuse_addr_law = λ fd w. record { opens = refl; epoll_table = refl; listens = λ j x. x };
  reuse_port_law = λ fd w. record { opens = refl; epoll_table = refl; listens = λ j x. x };
  bind_law = λ fd w. record { opens = refl; epoll_table = refl; listens = λ j x. x };
  listen_law = λ fd w. (
    record { opens = refl; epoll_table = refl; listens = λ j x. ground (arith, x) },
    λ _. if_true {b = fd == fd} true _ (ground arith),
  );
  fcntl_law = λ op fd w. record { opens = refl; epoll_table = refl; listens = λ j x. x };
  close_law = λ fd w. closed_once fd w.closed;
  ctl_law = λ op fd ev w v e. (
    same_closed fd w v (controlled op ev (w.interests fd)) e,
    λ j x. same_listens fd w v (controlled op ev (w.interests fd)) e j ∙ x,
  );
}

-- Descriptor 3 is free.
abbrev pub free_three : ToyWorld
free_three = record (quiet []) { closed = 3 ∷ [] }

open_acceptor-Clean_example :
    Clean toy_sockets toy_epoll toy_socket_laws free_three
      (open_acceptor toy_sockets true free_three)
open_acceptor-Clean_example =
    open_acceptor-Clean toy_sockets toy_epoll toy_socket_laws true free_three

-- ===== src/Examples/ToyKernel.antt =====
-- A kernel for the network: epoll holds a table of interests, write takes at most three bytes at a
-- time, and read takes what has come in.
use user_center.Base.{
  ℕ, ◌≤◌, ◌≡◌, ◌≢◌, refl, ap, List, [], ◌∷◌, ◌++◌, Option, none, some, Bool, true, false, not, inr,
  Bool-cases, Bytes, arith, length, take, drop, if◌then◌else◌, if_true, if_false, ◌==◌, inl, ltb,
}
use user_center.Buffer.{read_ok, write_ok, write_failed}
use user_center.Net.Channel.{CtlOp, ctl_add, ctl_mod, ctl_del}
use user_center.Net.Channel.Masks.{EpollLaws}
use user_center.Net.Connection.{Kernel}
use user_center.Net.Connection.Writing.{WriteLaws}
use user_center.Net.Server.Table.{CloseLaws}
use user_center.Net.Reactor.Laws.{EventLaws}

pub record ToyWorld : Type 0 where
  pub interests : ℕ → Option ℕ
  pub sent : ℕ → Bytes
  pub incoming : Bytes
  pub closed : List ℕ
  pub listens : List ℕ

abbrev pub set {ℓ} : {A : Type ℓ} → ℕ → A → (ℕ → A) → ℕ → A
set k x f j = if j == k then x else f j

pub set_at {ℓ} : {A : Type ℓ} (k : ℕ) (x : A) (f : ℕ → A) → set k x f k ≡ x
set_at k x f = if_true {b = k == k} x (f k) (ground arith)

pub set_other {ℓ} : {A : Type ℓ} (k j : ℕ) (x : A) (f : ℕ → A) → j ≢ k → set k x f j ≡ f j
set_other k j x f other = if_false {b = j == k} x (f j) (ground arith)

-- The interest that a call leaves, when the kernel does not refuse it.
abbrev pub controlled : CtlOp → ℕ → Option ℕ → Option (Option ℕ)
controlled ctl_add ev none = some (some ev)
controlled ctl_mod ev (some _) = some (some ev)
controlled ctl_del ev (some _) = some none
controlled _ _ _ = none

abbrev pub settled : ℕ → ToyWorld → Option (Option ℕ) → Option ToyWorld
settled fd w none = none
settled fd w (some i) = some (record w { interests = set fd i w.interests })

abbrev portion : Bytes → ℕ
portion s = if ltb 3 (length s) then 3 else length s

pub portion_le : (s : Bytes) → portion s ≤ length s
portion_le s = ground arith

abbrev pub toy_kernel : Kernel ToyWorld
toy_kernel = record {
  epoll_ctl = λ op fd ev w. settled fd w (controlled op ev (w.interests fd));
  readv =
      λ fd room w. (read_ok (take room w.incoming), record w { incoming = drop room w.incoming });
  write = λ fd s w.
      (write_ok (portion s), record w { sent = set fd (w.sent fd ++ take (portion s) s) w.sent });
  shutdown_write = λ fd w. w;
  close = λ fd w. record w { closed = fd ∷ w.closed };
  clock = λ w. 0;
}

abbrev pub toy_epoll : EpollLaws toy_kernel.epoll_ctl
toy_epoll = record {
  registered = λ w. w.interests;
  written = λ w. w.sent;
  add_law = λ fd ev w e. (
    record w { interests = set fd (some ev) w.interests },
    ap (λ i. settled fd w (controlled ctl_add ev i)) e,
    set_at fd (some ev) w.interests,
    refl,
    λ j other. set_other fd j (some ev) w.interests other,
  );
  mod_law = λ fd ev old w e. (
    record w { interests = set fd (some ev) w.interests },
    ap (λ i. settled fd w (controlled ctl_mod ev i)) e,
    set_at fd (some ev) w.interests,
    refl,
    λ j other. set_other fd j (some ev) w.interests other,
  );
  del_law = λ fd ev old w e. (
    record w { interests = set fd none w.interests },
    ap (λ i. settled fd w (controlled ctl_del ev i)) e,
    set_at fd none w.interests,
    refl,
    λ j other. set_other fd j none w.interests other,
  );
}

abbrev pub toy_writes : WriteLaws toy_kernel toy_epoll
toy_writes = record {
  write_law = λ fd s w. (
    record w { sent = set fd (w.sent fd ++ take (portion s) s) w.sent },
    inl (portion s, portion_le s, refl, set_at fd (w.sent fd ++ take (portion s) s) w.sent),
    refl,
  );
}

-- Nothing registered, nothing sent, and these bytes to read.
abbrev pub quiet : Bytes → ToyWorld
quiet s = record {
  interests = λ fd. none;
  sent = λ fd. [];
  incoming = s;
  closed = [];
  listens = [];
}

abbrev pub toy_closes : CloseLaws toy_kernel toy_epoll
toy_closes = record { close_law = λ fd w gone. refl }

abbrev pub contains : ℕ → List ℕ → Bool
contains k [] = false
contains k (j ∷ rest) = let later = contains k rest in if k == j then true else later

-- The same kernel, where a write to a closed descriptor fails with EBADF.
abbrev pub strict_kernel : Kernel ToyWorld
strict_kernel = record toy_kernel {
  write = λ fd s w. if contains fd w.closed then (write_failed 9, w) else toy_kernel.write fd s w;
}

pub strict_write :
    (fd : ℕ) (s : Bytes) (w : ToyWorld)
    → ((strict_kernel.write fd s w).1.interests ≡ w.interests)
      × ((strict_kernel.write fd s w).1.closed ≡ w.closed)
strict_write fd s w = elim (Bool-cases (contains fd w.closed)) [
  | inl gone ↦ rw gone (refl, refl)
  | inr fine ↦ rw fine (refl, refl)
]

pub strict_closed :
    (fd : ℕ) (s : Bytes) (w : ToyWorld)
    → not (contains fd w.closed) ≡ false
    → (strict_kernel.write fd s w).0 ≡ write_failed 9
strict_closed fd s w h = elim (Bool-cases (contains fd w.closed)) [
  | inl gone ↦ rw gone refl
  | inr fine ↦ ground arith
]

pub just_closed : (fd : ℕ) (closed : List ℕ) → contains fd (fd ∷ closed) ≡ true
just_closed fd closed = if_true {b = fd == fd} true _ (ground arith)

abbrev pub strict_closes : CloseLaws strict_kernel toy_epoll
strict_closes = record { close_law = λ fd w gone. refl }

abbrev pub strict_events : EventLaws strict_kernel toy_epoll
strict_events = record {
  is_open = λ w fd. not (contains fd w.closed);
  read_law = λ fd room w. (refl, refl);
  write_law = λ fd s w. let e = strict_write fd s w in (e.0, ap (λ c fd. not (contains fd c)) e.1);
  shutdown_law = λ fd w. (refl, refl);
  closed_law = λ fd s w h. (9, strict_closed fd s w h, refl);
  close_law = λ fd w. ap not (just_closed fd w.closed);
}

-- ===== src/Examples/StartUp.antt =====
-- The acceptor's loop and the set-up of main, at concrete inputs.
use user_center.Base.{
  ℕ, zero, suc, ◌⊎◌, ◌≡◌, refl, [], ◌∷◌, some, Bool, true, false, arith, inl, inr,
}
use user_center.Http.Request.{HttpRequest}
use user_center.Net.Acceptor.{
  Sockets, AcceptAnswer, accept_failed, accepted, handle_read, returned, open_acceptor,
}
use user_center.Net.Acceptor.Loop.{BacklogLaws, handle_read-returns}
use user_center.Net.Server.{start}
use user_center.Net.EventLoop.{EventFd, create}
use user_center.Main.SetUp.{
  main_pool, main_tasks, main_workers, new_server, Program, set_up, with_server,
}
use user_center.Examples.ToySockets.{toy_sockets, free_three}
use user_center.Examples.ToyKernel.{set, strict_kernel, ToyWorld}

-- A kernel that knows only how many connections wait.
abbrev accept_next : ℕ → AcceptAnswer × ℕ
accept_next zero = (accept_failed 11, zero)
accept_next (suc n) = (accepted n, n)

abbrev counting : Sockets ℕ
counting = record {
  socket = λ w. (some 3, w);
  reuse_addr = λ fd w. (true, w);
  reuse_port = λ fd w. (true, w);
  bind_addr = λ fd w. (true, w);
  listen = λ fd w. (true, w);
  fcntl = λ op fd w. (some 0, w);
  accept = λ fd w. accept_next w;
  close = λ fd w. w;
  epoll_ctl = λ op fd ev w. some w;
}

accept_next_lem :
    (w : ℕ)
    → (v : ℕ) × (((e : ℕ) × (accept_next w ≡ (accept_failed e, v)))
        ⊎ ((c : ℕ) × (accept_next w ≡ (accepted c, v)) × (suc v ≡ w)))
accept_next_lem zero = (zero, inl (11, refl))
accept_next_lem (suc n) = (n, inr (n, refl, refl))

abbrev counting_laws : BacklogLaws counting
counting_laws = record {
  backlog = λ w. w;
  accept_law = λ fd w. accept_next_lem w;
  fcntl_law = λ op fd w. refl;
  close_law = λ fd w. refl;
}

handle_read-returns_example : (v : ℕ) × (handle_read counting (λ c w. some w) 4 3 2 ≡ returned v)
handle_read-returns_example =
    handle_read-returns counting counting_laws (λ c w. some w) 4 3 2 (λ c u. (u, refl, refl))
      (omega arith)

-- An eventfd that remembers whether it was written to.
abbrev flag : EventFd Bool
flag = record { write = λ b. true; read = λ b. false }

-- The program after its set-up, with descriptor 3 for the acceptor.
abbrev running_program : Program ℕ ℕ Bool HttpRequest ToyWorld
running_program = record {
  pool = main_pool (λ i. some i);
  loop = create flag false;
  tasks = main_tasks;
  workers = main_workers 4;
  acceptor = record {
    channel = record { fd = 3; events = 0x2003; revents = 0; in_epoll = true };
    listening = true;
  };
  server = start strict_kernel (
      new_server (record free_three {
        closed = [];
        listens = 3 ∷ [];
        interests = set 3 (some 0x2003) free_three.interests;
      }));
}

started :
    set_up strict_kernel toy_sockets flag (λ i. some i) 4 false free_three ≡ some running_program
unfolding set_up with_server open_acceptor
started = refl

-- ===== src/Net/Acceptor/Loop.antt =====
-- src/net/Acceptor.cpp: the loop of handleRead against the connections that wait.
use Prim.Native.Nat.{bit_or}
use user_center.Base.{
  ℕ, zero, suc, ◌<◌, ◌≡◌, ◌∙◌, ◌⊎◌, inl, inr, refl, ap, Option, none, some, Bool, true, false,
  arith,
}
use user_center.Net.Acceptor.{
  Sockets, accept_failed, accepted, FcntlOp, get_fl, get_fd, set_fl, set_fd, nonblock, cloexec,
  set_non_block_and_close_on_exec, set_close_on_exec, after_fcntl, welcome, next_turn, after_accept,
  handle_read, returned,
}

-- The connections that wait on a listening socket: accept(2) takes one of them, or fails and there is
-- none or it stays; the other calls take none. None comes while the loop runs.
pub record BacklogLaws {W : Type 0} (sockets : Sockets W) : Type 0 where
  pub backlog : W → ℕ
  pub accept_law :
      (fd : ℕ) (w : W)
      → (v : W) × (((e : ℕ) × (sockets.accept fd w ≡ (accept_failed e, v)))
          ⊎ ((c : ℕ) × (sockets.accept fd w ≡ (accepted c, v)) × (suc (backlog v) ≡ backlog w)))
  pub fcntl_law : (op : FcntlOp) (fd : ℕ) (w : W) → backlog (sockets.fcntl op fd w).1 ≡ backlog w
  pub close_law : (fd : ℕ) (w : W) → backlog (sockets.close fd w) ≡ backlog w

module _ {W : Type 0} (sockets : Sockets W) (laws : BacklogLaws sockets)
    (callback : ℕ → W → Option W) where
  open laws use {backlog}

  after_fcntl-backlog :
      (r : Option ℕ × W) (next : ℕ → W → Bool × W)
      → ((n : ℕ) (v : W) → backlog (next n v).1 ≡ backlog v)
      → backlog (after_fcntl sockets r next).1 ≡ backlog r.1
  unfolding after_fcntl
  after_fcntl-backlog (none, w) next h = refl
  after_fcntl-backlog (some n, w) next h = h n w

  fcntl-backlog :
      (op : FcntlOp) (fd : ℕ) (w : W) (next : ℕ → W → Bool × W)
      → ((n : ℕ) (v : W) → backlog (next n v).1 ≡ backlog v)
      → backlog (after_fcntl sockets (sockets.fcntl op fd w) next).1 ≡ backlog w
  fcntl-backlog op fd w next h =
      after_fcntl-backlog (sockets.fcntl op fd w) next h ∙ laws.fcntl_law op fd w

  close_on_exec-backlog : (fd : ℕ) (w : W) → backlog (set_close_on_exec sockets fd w).1 ≡ backlog w
  unfolding set_close_on_exec
  close_on_exec-backlog fd w =
      fcntl-backlog get_fd fd w
        (λ flags v.
          after_fcntl sockets (sockets.fcntl (set_fd (bit_or flags cloexec)) fd v)
            (λ _ u. (true, u)))
        (λ flags v.
          fcntl-backlog (set_fd (bit_or flags cloexec)) fd v (λ _ u. (true, u)) (λ _ u. refl))

  flags-backlog :
      (fd : ℕ) (w : W) → backlog (set_non_block_and_close_on_exec sockets fd w).1 ≡ backlog w
  unfolding set_non_block_and_close_on_exec
  flags-backlog fd w =
      fcntl-backlog get_fl fd w
        (λ flags v.
          after_fcntl sockets (sockets.fcntl (set_fl (bit_or flags nonblock)) fd v)
            (λ _ u. set_close_on_exec sockets fd u))
        (λ flags v.
          fcntl-backlog (set_fl (bit_or flags nonblock)) fd v
            (λ _ u. set_close_on_exec sockets fd u) (λ _ u. close_on_exec-backlog fd u))

  welcome-goes :
      (c : ℕ) (r : Bool × W)
      → ((d : ℕ) (u : W) → (v : W) × (callback d u ≡ some v) × (backlog v ≡ backlog u))
      → (u : W) × (welcome sockets callback c r ≡ some u) × (backlog u ≡ backlog r.1)
  unfolding welcome
  welcome-goes c (true, x) calm = calm c x
  welcome-goes c (false, x) calm = (sockets.close c x, refl, laws.close_law c x)

  -- While no client connects in between, and the callback neither aborts nor takes connections itself:
  -- with more fuel than connections that wait, the loop returns.
  pub handle_read-returns :
      (fuel fd : ℕ) (w : W)
      → ((c : ℕ) (u : W) → (v : W) × (callback c u ≡ some v) × (backlog v ≡ backlog u))
      → backlog w < fuel
      → (v : W) × (handle_read sockets callback fuel fd w ≡ returned v)
  unfolding handle_read after_accept
  handle_read-returns zero fd w calm h = absurd (omega arith)
  handle_read-returns (suc fuel) fd w calm h =
      let (v, how) = laws.accept_law fd w in
      elim how [
        | inl (e, failed) ↦ (
          v,
          ap (λ r. after_accept sockets callback r (handle_read sockets callback fuel fd)) failed,
        )
        | inr (c, taken, fewer) ↦
            let (u, welcomed, same) =
              welcome-goes c (set_non_block_and_close_on_exec sockets c v) calm in
            let less = flags-backlog c v in
            let (z, done) = handle_read-returns fuel fd u calm (omega arith) in
            (
              z,
              ap (λ r. after_accept sockets callback r (handle_read sockets callback fuel fd)) taken
                  ∙ ap (λ o. next_turn sockets callback o (handle_read sockets callback fuel fd))
                      welcomed
                  ∙ done,
            )
      ]

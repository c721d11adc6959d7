-- ===== src/Net/Acceptor/Opening.antt =====
-- src/net/Acceptor.cpp: the constructor listens, or leaves no descriptor behind.
use Prim.Native.Nat.{bit_or}
use user_center.Base.{
  ℕ, ◌≡◌, ◌≢◌, ◌∙◌, refl, ap, sym, inl, inr, Option, none, some, Bool, true, false, if◌then◌else◌,
  ◌==◌, arith, Bool-cases,
}
use user_center.Net.Channel.{
  CtlOp, ctl_add, new_channel, enable_reading, update_channel, update, marked, is_none_event,
}
use user_center.Net.Channel.Masks.{EpollLaws}
use user_center.Net.Channel.Interest.{Watches}
use user_center.Net.Acceptor.{
  FcntlOp, get_fl, get_fd, set_fl, set_fd, nonblock, cloexec, Sockets, Opened, opened, aborted,
  after_fcntl, set_close_on_exec, set_non_block_and_close_on_exec, or_abort, begin_reading,
  listen_on, after_socket, open_acceptor,
}

module _ {W : Type 0} (sockets : Sockets W) (epoll : EpollLaws sockets.epoll_ctl) where
  open sockets use {socket, reuse_addr, reuse_port, bind_addr, listen, fcntl, close, epoll_ctl}
  open epoll use {registered}

  -- The call leaves the open descriptors and epoll alone, and no socket stops to listen.
  pub record Quiet (is_open is_listening : W → ℕ → Bool) (w v : W) : Type 0 where
    pub opens : is_open v ≡ is_open w
    pub epoll_table : registered v ≡ registered w
    pub listens : (j : ℕ) → is_listening w j ≡ true → is_listening v j ≡ true

  -- What socket(2), close(2) and the others document about the descriptors that are open. A new
  -- descriptor was not open, and epoll does not hold it.
  pub record SocketLaws : Type 0 where
    pub is_open : W → ℕ → Bool
    pub is_listening : W → ℕ → Bool
    pub socket_law :
        (fd : ℕ) (w : W)
        → (socket w).0 ≡ some fd
        → (is_open w fd ≡ false)
          × (is_open (socket w).1 fd ≡ true)
          × (registered (socket w).1 fd ≡ none)
          × ((j : ℕ) → j ≢ fd → is_open (socket w).1 j ≡ is_open w j)
    pub no_socket_law : (w : W) → (socket w).0 ≡ none → is_open (socket w).1 ≡ is_open w
    pub reuse_addr_law : (fd : ℕ) (w : W) → Quiet is_open is_listening w (reuse_addr fd w).1
    pub reuse_port_law : (fd : ℕ) (w : W) → Quiet is_open is_listening w (reuse_port fd w).1
    pub bind_law : (fd : ℕ) (w : W) → Quiet is_open is_listening w (bind_addr fd w).1
    pub listen_law :
        (fd : ℕ) (w : W)
        → Quiet is_open is_listening w (listen fd w).1
          × ((listen fd w).0 ≡ true → is_listening (listen fd w).1 fd ≡ true)
    pub fcntl_law : (op : FcntlOp) (fd : ℕ) (w : W) → Quiet is_open is_listening w (fcntl op fd w).1
    pub close_law :
        (fd : ℕ) (w : W)
        → (is_open (close fd w) fd ≡ false)
          × ((j : ℕ) → j ≢ fd → is_open (close fd w) j ≡ is_open w j)
    pub ctl_law :
        (operation : CtlOp) (fd ev : ℕ) (w v : W)
        → epoll_ctl operation fd ev w ≡ some v
        → (is_open v ≡ is_open w) × ((j : ℕ) → is_listening w j ≡ true → is_listening v j ≡ true)

  module _ (laws : SocketLaws) where
    open laws use {is_open, is_listening}

    -- A listening socket on a descriptor of its own, that epoll waits for; or nothing new.
    abbrev pub Clean : W → Opened W → Type 0
    Clean w (opened a v) =
        (fd : ℕ) × Watches epoll_ctl epoll fd true false a.channel v
        × (a.listening ≡ true)
        × (is_listening v fd ≡ true)
        × (is_open w fd ≡ false)
        × (is_open v fd ≡ true)
        × ((j : ℕ) → j ≢ fd → is_open v j ≡ is_open w j)
    Clean w (aborted v) = (j : ℕ) → is_open v j ≡ is_open w j

    -- The one new descriptor, while the socket is set up.
    record Holding (fd : ℕ) (w v : W) : Type 0 where
      new_one : is_open w fd ≡ false
      held : is_open v fd ≡ true
      unknown : registered v fd ≡ none
      others : (j : ℕ) → j ≢ fd → is_open v j ≡ is_open w j

    still_Holding :
        (fd : ℕ) (w v u : W) → Holding fd w v → Quiet is_open is_listening v u → Holding fd w u
    still_Holding fd w v u h q = record {
      new_one = h.new_one;
      held = ap (λ f. f fd) q.opens ∙ h.held;
      unknown = ap (λ f. f fd) q.epoll_table ∙ h.unknown;
      others = λ j other. ap (λ f. f j) q.opens ∙ h.others j other;
    }

    then_Quiet :
        (w v u : W)
        → Quiet is_open is_listening w v
        → Quiet is_open is_listening v u
        → Quiet is_open is_listening w u
    then_Quiet w v u a b = record {
      opens = b.opens ∙ a.opens;
      epoll_table = b.epoll_table ∙ a.epoll_table;
      listens = λ j x. b.listens j (a.listens j x);
    }

    -- The socket that is closed before an abort.
    closed_Clean : (fd : ℕ) (w v : W) → Holding fd w v → Clean w (aborted (close fd v))
    closed_Clean fd w v h j = elim (Bool-cases (j == fd)) [
      | inl same ↦
          let at : j ≡ fd = ground (arith) in
          ap (is_open (close fd v)) at
          ∙ (laws.close_law fd v).0
          ∙ sym h.new_one
          ∙ ap (is_open w) (sym at)
      | inr differs ↦
          let other : j ≢ fd = λ x. ground (arith, x) in
          (laws.close_law fd v).1 j other ∙ h.others j other
    ]

    or_abort-Clean :
        (fd : ℕ) (w : W) (r : Bool × W) (next : W → Opened W)
        → Holding fd w r.1
        → ((v : W) → r ≡ (true, v) → Holding fd w v → Clean w (next v))
        → Clean w (or_abort sockets fd r next)
    unfolding or_abort
    or_abort-Clean fd w (true, v) next h go = go v refl h
    or_abort-Clean fd w (false, v) next h go = closed_Clean fd w v h

    after_fcntl-Quiet :
        (w : W) (r : Option ℕ × W) (next : ℕ → W → Bool × W)
        → Quiet is_open is_listening w r.1
        → ((n : ℕ) (v : W) → Quiet is_open is_listening v (next n v).1)
        → Quiet is_open is_listening w (after_fcntl sockets r next).1
    unfolding after_fcntl
    after_fcntl-Quiet w (none, v) next q go = q
    after_fcntl-Quiet w (some n, v) next q go = then_Quiet w v _ q (go n v)

    close_on_exec-Quiet :
        (fd : ℕ) (w : W) → Quiet is_open is_listening w (set_close_on_exec sockets fd w).1
    unfolding set_close_on_exec
    close_on_exec-Quiet fd w =
        after_fcntl-Quiet w (fcntl get_fd fd w)
          (λ flags v.
            after_fcntl sockets (fcntl (set_fd (bit_or flags cloexec)) fd v) (λ _ u. (true, u)))
          (laws.fcntl_law get_fd fd w)
          (λ flags v.
            after_fcntl-Quiet v (fcntl (set_fd (bit_or flags cloexec)) fd v) (λ _ u. (true, u))
              (laws.fcntl_law (set_fd (bit_or flags cloexec)) fd v)
              (λ _ u. record { opens = refl; epoll_table = refl; listens = λ j x. x }))

    flags-Quiet :
        (fd : ℕ) (w : W)
        → Quiet is_open is_listening w (set_non_block_and_close_on_exec sockets fd w).1
    unfolding set_non_block_and_close_on_exec
    flags-Quiet fd w =
        after_fcntl-Quiet w (fcntl get_fl fd w)
          (λ flags v.
            after_fcntl sockets (fcntl (set_fl (bit_or flags nonblock)) fd v)
              (λ _ u. set_close_on_exec sockets fd u))
          (laws.fcntl_law get_fl fd w)
          (λ flags v.
            after_fcntl-Quiet v (fcntl (set_fl (bit_or flags nonblock)) fd v)
              (λ _ u. set_close_on_exec sockets fd u)
              (laws.fcntl_law (set_fl (bit_or flags nonblock)) fd v)
              (λ _ u. close_on_exec-Quiet fd u))

    begin_reading-Clean :
        (fd : ℕ) (w v : W)
        → Holding fd w v
        → is_listening v fd ≡ true
        → Clean w (begin_reading sockets fd v)
    unfolding begin_reading enable_reading new_channel update_channel update marked is_none_event
    begin_reading-Clean fd w v h hears =
        let (u, told, there, _, _) = epoll.add_law fd 0x2003 v h.unknown in
        let (same, still) = laws.ctl_law ctl_add fd 0x2003 v u told in
        rw (told, begin_reading)
          (
            fd,
            record { same_fd = refl; events = refl; in_epoll = refl; kernel = there },
            refl,
            still fd hears,
            h.new_one,
            ap (λ f. f fd) same ∙ h.held,
            λ j other. ap (λ f. f j) same ∙ h.others j other,
          )

    -- SO_REUSEPORT, when it is asked for.
    port-Quiet :
        (b : Bool) (fd : ℕ) (w : W)
        → Quiet is_open is_listening w (if b then (reuse_port fd w).1 else w)
    port-Quiet true fd w = laws.reuse_port_law fd w
    port-Quiet false fd w = record { opens = refl; epoll_table = refl; listens = λ j x. x }

    listen_on-Clean :
        (b : Bool) (fd : ℕ) (w v : W) → Holding fd w v → Clean w (listen_on sockets b fd v)
    unfolding listen_on
    listen_on-Clean b fd w v h =
        or_abort-Clean fd w (reuse_addr fd v) _
          (still_Holding fd w v _ h (laws.reuse_addr_law fd v))
          (λ w1 _ h1.
            let w2 = if b then (reuse_port fd w1).1 else w1 in
            or_abort-Clean fd w (bind_addr fd w2) _
              (still_Holding fd w w2 _ (still_Holding fd w w1 w2 h1 (port-Quiet b fd w1))
                (laws.bind_law fd w2))
              (λ w3 _ h3.
                or_abort-Clean fd w (listen fd w3) _
                  (still_Holding fd w w3 _ h3 (laws.listen_law fd w3).0)
                  (λ w4 e4 h4.
                    let hears =
                      ap (λ u. is_listening u fd) (sym (ap (λ r. r.1) e4))
                      ∙ (laws.listen_law fd w3).1 (ap (λ r. r.0) e4) in
                    or_abort-Clean fd w (set_non_block_and_close_on_exec sockets fd w4) _
                      (still_Holding fd w w4 _ h4 (flags-Quiet fd w4))
                      (λ w5 e5 h5. begin_reading-Clean fd w w5 h5 (
                        ap (λ u. is_listening u fd) (sym (ap (λ r. r.1) e5))
                        ∙ (flags-Quiet fd w4).listens fd hears)))))

    after_socket-Clean :
        (b : Bool) (w : W) (o : Option ℕ) (v : W)
        → (socket w).0 ≡ o
        → (socket w).1 ≡ v
        → Clean w (after_socket sockets b (o, v))
    unfolding after_socket
    after_socket-Clean b w none v e f =
        λ j. ap (λ u. is_open u j) (sym f) ∙ ap (λ g. g j) (laws.no_socket_law w e)
    after_socket-Clean b w (some fd) v e f =
        let (free, taken, unknown, others) = laws.socket_law fd w e in
        listen_on-Clean b fd w v (record {
          new_one = free;
          held = ap (λ u. is_open u fd) (sym f) ∙ taken;
          unknown = ap (λ u. registered u fd) (sym f) ∙ unknown;
          others = λ j other. ap (λ u. is_open u j) (sym f) ∙ others j other;
        })

    -- While the system calls treat the descriptors as documented: the constructor has a socket that
    -- listens, by a listen(2) that went through, on a descriptor that was not open, which is open now and which epoll watches for reads,
    -- and no other descriptor was opened or closed; or it aborts, with the descriptors open that were.
    pub open_acceptor-Clean :
        (reuses_port : Bool) (w : W) → Clean w (open_acceptor sockets reuses_port w)
    unfolding open_acceptor
    open_acceptor-Clean reuses_port w =
        after_socket-Clean reuses_port w (socket w).0 (socket w).1 refl refl

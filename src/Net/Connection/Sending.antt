-- ===== src/Net/Connection/Sending.antt =====
-- src/net/Connection.cpp: sends and write events, one at a time and in any order.
use user_center.Base.{
  ℕ, ◌≡◌, ◌∙◌, ◌++◌, inl, inr, refl, sym, ap, subst, List, [], ◌∷◌, Option, some, Bool, true, false,
  Bytes, arith, length, length-append, append_assoc, append-nil, if_true, if_false, ◌==◌,
  Bool-cases,
}
use user_center.Buffer.{contents, readable_bytes, append, WriteAnswer, write_failed, write_ok}
use user_center.Buffer.Memory.{IsValid, length-contents}
use user_center.Buffer.Effects.{append-IsValid, contents-append}
use user_center.Net.Channel.{is_writing}
use user_center.Net.Channel.Masks.{EpollLaws, is_writing-mask}
use user_center.Net.Channel.Interest.{Watches}
use user_center.Net.Connection.Writing.{
  WriteLaws, is_pending, Talks, Failed, Spoke, Between, Wrote, start-Talks, stop-Talks, keep-Talks,
  write-Wrote, true_ne_false,
}
use user_center.Net.Connection.{
  bind, Kernel, Link, eagain, drop_sent, write_output, after_send, send_in_loop, after_write,
  handle_write,
}

module _ {W : Type 0} (kernel : Kernel W) (epoll : EpollLaws kernel.epoll_ctl)
    (laws : WriteLaws kernel epoll) where
  open epoll use {registered, written}

  module _ (close_callback : Link W → Option (Link W)) (fd : ℕ) (said : Bytes) where
    after_send-Spoke :
        (r : WriteAnswer × Link W)
        → Wrote kernel epoll laws fd said false r
        → is_pending r.1 ≡ true
        → Spoke kernel epoll laws fd said close_callback (after_send kernel close_callback r)
    unfolding after_send
    after_send-Spoke (write_failed e, l) (h, failed) p = elim (Bool-cases (e == eagain)) [
      | inl again ↦
          let (v, started, talks) = start-Talks kernel epoll laws fd said false l h p in
          inl (v, if_true _ _ again ∙ started, talks)
      | inr hard ↦ inr (l, if_false _ _ hard, h.complete, (e, failed, hard))
    ]
    after_send-Spoke (write_ok n, l) h p =
        let rest = drop_sent kernel n l in
        elim (Bool-cases (is_pending rest)) [
          | inl more ↦
              let (v, started, talks) = start-Talks kernel epoll laws fd said false rest h more in
              inl (v, if_true _ _ more ∙ started, talks)
          | inr done ↦
              inl (rest, if_false _ _ done, keep-Talks kernel epoll laws fd said false rest h done)
        ]

    after_write-Spoke :
        (r : WriteAnswer × Link W)
        → Wrote kernel epoll laws fd said true r
        → is_pending r.1 ≡ true
        → Spoke kernel epoll laws fd said close_callback (after_write kernel close_callback r)
    unfolding after_write
    after_write-Spoke (write_failed e, l) (h, failed) p = elim (Bool-cases (e == eagain)) [
      | inl again ↦ inl (l, if_true _ _ again, keep-Talks kernel epoll laws fd said true l h p)
      | inr hard ↦ inr (l, if_false _ _ hard, h.complete, (e, failed, hard))
    ]
    after_write-Spoke (write_ok n, l) h p =
        let rest = drop_sent kernel n l in
        elim (Bool-cases (readable_bytes rest.conn.output == 0)) [
          | inl done ↦
              let (v, stopped, talks) =
                stop-Talks kernel epoll laws fd said true rest h (ground arith) in
              inl (v, if_true _ _ done ∙ stopped, talks)
          | inr more ↦ inl (
            rest,
            if_false _ _ more,
            keep-Talks kernel epoll laws fd said true rest h (ground arith),
          )
        ]

    -- The write event writes on, or finds nothing to write and stops waiting.
    pub handle_write-Spoke :
        (l : Link W)
        → Talks kernel epoll laws fd said l
        → Spoke kernel epoll laws fd said close_callback (handle_write kernel close_callback l)
    unfolding handle_write write_output
    handle_write-Spoke l h = elim (Bool-cases (readable_bytes l.conn.output == 0)) [
      | inl empty ↦
          let (v, stopped, talks) =
            stop-Talks kernel epoll laws fd said (is_pending l) l
              (record { valid = h.valid; complete = h.complete; watched = h.watched })
              (ground arith) in
          inl (v, if_true _ _ empty ∙ stopped, talks)
      | inr some_left ↦
          let pending : is_pending l ≡ true = ground arith in
          subst (Spoke kernel epoll laws fd said close_callback) (sym (if_false _ _ some_left)) (
            after_write-Spoke (write_output kernel l)
              (write-Wrote kernel epoll laws fd said true l (record {
                valid = h.valid;
                complete = h.complete;
                watched =
                    subst (λ b. Watches kernel.epoll_ctl epoll fd true b l.conn.channel l.world)
                      pending h.watched;
              }))
              pending)
    ]

  abbrev appended : Bytes → Link W → Link W
  appended message l = record l { conn = record (l.conn) { output = append message l.conn.output } }

  appended-pending :
      (c : ℕ) (s : Bytes) (l : Link W)
      → IsValid l.conn.output
      → is_pending (appended (c ∷ s) l) ≡ true
  appended-pending c s l v =
      let size =
        length-contents (append (c ∷ s) l.conn.output) (append-IsValid (c ∷ s) l.conn.output v) in
      let longer = ap length (contents-append (c ∷ s) l.conn.output v) in
      let sum = length-append (contents l.conn.output) (c ∷ s) in ground (arith, size, longer, sum)

  appended-Between :
      (fd : ℕ) (said message : Bytes) (b : Bool) (l : Link W)
      → Talks kernel epoll laws fd said l
      → is_pending l ≡ b
      → Between kernel epoll laws fd (said ++ message) b (appended message l)
  appended-Between fd said message b l h p = record {
    valid = append-IsValid message l.conn.output h.valid;
    complete =
        ap (λ t. written l.world fd ++ t) (contents-append message l.conn.output h.valid)
        ∙ sym (append_assoc (written l.world fd) (contents l.conn.output) message)
        ∙ ap (λ t. t ++ message) h.complete;
    watched =
        subst (λ q. Watches kernel.epoll_ctl epoll fd true q l.conn.channel l.world) p h.watched;
  }

  -- A message that is sent joins what was said.
  pub send-Spoke :
      (close_callback : Link W → Option (Link W)) (fd : ℕ) (said : Bytes) (c : ℕ) (s : Bytes)
      (l : Link W)
      → Talks kernel epoll laws fd said l
      → Spoke kernel epoll laws fd
          (said ++ c ∷ s)
          close_callback
          (send_in_loop kernel close_callback (c ∷ s) l)
  unfolding send_in_loop write_output
  send-Spoke close_callback fd said c s l h =
      let m = appended (c ∷ s) l in
      let wants : is_writing l.conn.channel ≡ is_pending l =
        is_writing-mask l.conn.channel true (is_pending l) h.watched.events in
      let more = appended-pending c s l h.valid in
      elim (Bool-cases (is_pending l)) [
        | inl waits ↦ inl (
          m,
          if_true _ _ (wants ∙ waits),
          keep-Talks kernel epoll laws fd (said ++ c ∷ s) true m
              (appended-Between fd said (c ∷ s) true l h waits) more,
        )
        | inr free ↦
            subst (Spoke kernel epoll laws fd (said ++ c ∷ s) close_callback)
              (sym (if_false _ _ (wants ∙ free)))
              (after_send-Spoke close_callback fd (said ++ c ∷ s) (write_output kernel m)
                (write-Wrote kernel epoll laws fd (said ++ c ∷ s) false m
                  (appended-Between fd said (c ∷ s) false l h free))
                more)
      ]

-- What happens to the output of a connection: a message is sent, or the descriptor is writable.
pub data Act : Type 0 where
  sends : ℕ → Bytes → Act
  writable : Act

abbrev pub said_by : List Act → Bytes
said_by [] = []
said_by (sends c s ∷ rest) = (c ∷ s) ++ said_by rest
said_by (writable ∷ rest) = said_by rest

module _ {W : Type 0} (kernel : Kernel W) (close_callback : Link W → Option (Link W)) where
  unfoldable pub act : Act → Link W → Option (Link W)
  act (sends c s) = send_in_loop kernel close_callback (c ∷ s)
  act writable = handle_write kernel close_callback

  unfoldable pub acts : List Act → Link W → Option (Link W)
  unfolding act
  acts [] l = some l
  acts (a ∷ rest) l = bind (act a l) (acts rest)

module _ {W : Type 0} (kernel : Kernel W) (epoll : EpollLaws kernel.epoll_ctl)
    (laws : WriteLaws kernel epoll) (close_callback : Link W → Option (Link W))
    (calm : (e : ℕ) → Failed kernel epoll laws e → (e == eagain) ≡ true) where
  goes_on :
      (fd : ℕ) (said : Bytes) (o : Option (Link W))
      → Spoke kernel epoll laws fd said close_callback o
      → (v : Link W) × (o ≡ some v) × Talks kernel epoll laws fd said v
  goes_on fd said o (inl r) = r
  goes_on fd said o (inr (v, e, kept, (n, failed, hard))) =
      absurd (true_ne_false (sym (calm n failed) ∙ hard))

  -- While the system calls work as documented and no write fails but for want of room: after any
  -- messages and write events, in any order, what went out through the descriptor followed by what
  -- waits in the output buffer is all that was sent, in order; the write event is awaited exactly while
  -- bytes wait, so that none is stuck; and no call aborts.
  pub acts-Talks :
      (done_acts : List Act) (fd : ℕ) (said : Bytes) (l : Link W)
      → Talks kernel epoll laws fd said l
      → (v : Link W) × (acts kernel close_callback done_acts l ≡ some v)
        × Talks kernel epoll laws fd (said ++ said_by done_acts) v
  unfolding acts act
  acts-Talks [] fd said l h =
      (l, refl, subst (λ s. Talks kernel epoll laws fd s l) (sym (append-nil said)) h)
  acts-Talks (sends c s ∷ rest) fd said l h =
      let (m, e, talks) =
        goes_on fd (said ++ c ∷ s) (send_in_loop kernel close_callback (c ∷ s) l)
          (send-Spoke kernel epoll laws close_callback fd said c s l h) in
      let (v, e', talks') = acts-Talks rest fd (said ++ c ∷ s) m talks in
      (
        v,
        ap (λ o. bind o (acts kernel close_callback rest)) e ∙ e',
        subst (λ t. Talks kernel epoll laws fd t v) (append_assoc said (c ∷ s) (said_by rest))
            talks',
      )
  acts-Talks (writable ∷ rest) fd said l h =
      let (m, e, talks) =
        goes_on fd said (handle_write kernel close_callback l)
          (handle_write-Spoke kernel epoll laws close_callback fd said l h) in
      let (v, e', talks') = acts-Talks rest fd said m talks in
      (v, ap (λ o. bind o (acts kernel close_callback rest)) e ∙ e', talks')

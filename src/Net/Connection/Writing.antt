-- ===== src/Net/Connection/Writing.antt =====
-- src/net/Connection.cpp: what is sent goes out in order and complete, and a connection with bytes
-- left waits for the write event.
use user_center.Base.{
  ℕ, ◌≤◌, ◌≡◌, ◌≢◌, ◌∙◌, ◌++◌, ◌⊎◌, inl, inr, sym, ap, subst, Option, some, Bool, true, false,
  Bytes, arith, length, take, drop, take-append-drop, append_assoc, ◌==◌, ltb,
}
use user_center.Buffer.{contents, readable_bytes, retrieve, WriteAnswer, write_failed, write_ok}
use user_center.Buffer.Memory.{IsValid, length-contents, retrieve-IsValid, contents-retrieve}
use user_center.Net.Channel.{Channel}
use user_center.Net.Channel.Masks.{EpollLaws}
use user_center.Net.Channel.Interest.{Watches, enable_writing-Updated, disable_writing-Updated}
use user_center.Net.Connection.{
  Kernel, Link, eagain, relinked, start_writing, stop_writing, drop_sent, write_output,
  update_active_time,
}

-- What write(2) documents: some of the bytes go out through the descriptor, or none with an error;
-- nothing else changes.
pub record WriteLaws {W : Type 0} (kernel : Kernel W) (epoll : EpollLaws kernel.epoll_ctl)
    : Type 0 where
  pub write_law :
      (fd : ℕ) (bytes : Bytes) (w : W)
      → (v : W) × (((n : ℕ) × (n ≤ length bytes)
            × (kernel.write fd bytes w ≡ (write_ok n, v))
            × (epoll.written v fd ≡ epoll.written w fd ++ take n bytes))
          ⊎ ((e : ℕ) × (kernel.write fd bytes w ≡ (write_failed e, v))
              × (epoll.written v fd ≡ epoll.written w fd)))
        × (epoll.registered v ≡ epoll.registered w)

pub true_ne_false : true ≢ false
true_ne_false e = cc

-- Bytes wait in the output buffer.
abbrev pub is_pending : {W : Type 0} → Link W → Bool
is_pending l = ltb 0 (readable_bytes l.conn.output)

module _ {W : Type 0} (kernel : Kernel W) (epoll : EpollLaws kernel.epoll_ctl)
    (laws : WriteLaws kernel epoll) where
  open epoll use {registered, written}

  -- All that was said went out or waits in the buffer, in order.
  abbrev pub HasSaid : ℕ → Bytes → Link W → Type 0
  HasSaid fd said l = written l.world fd ++ contents l.conn.output ≡ said

  -- The write event is awaited exactly while bytes wait.
  pub record Talks (fd : ℕ) (said : Bytes) (l : Link W) : Type 0 where
    pub valid : IsValid l.conn.output
    pub complete : HasSaid fd said l
    pub watched : Watches kernel.epoll_ctl epoll fd true (is_pending l) l.conn.channel l.world

  -- A write answered with an error.
  abbrev pub Failed : ℕ → Type 0
  Failed e = (f : ℕ) × (bytes : Bytes) × (w v : W) × (kernel.write f bytes w ≡ (write_failed e, v))

  -- A call went on, with these bytes said; or a write failed for good, and the close callback was
  -- called on a link that still has all of them, written or in the buffer.
  abbrev pub Spoke : ℕ → Bytes → (Link W → Option (Link W)) → Option (Link W) → Type 0
  Spoke fd said close_callback o =
      ((v : Link W) × (o ≡ some v) × Talks fd said v)
      ⊎ ((v : Link W) × (o ≡ close_callback v)
          × HasSaid fd said v
          × ((e : ℕ) × Failed e × ((e == eagain) ≡ false)))

  -- A link whose channel may be awaiting another event than it should.
  pub record Between (fd : ℕ) (said : Bytes) (b : Bool) (l : Link W) : Type 0 where
    pub valid : IsValid l.conn.output
    pub complete : HasSaid fd said l
    pub watched : Watches kernel.epoll_ctl epoll fd true b l.conn.channel l.world

  pub start-Talks :
      (fd : ℕ) (said : Bytes) (b : Bool) (l : Link W)
      → Between fd said b l
      → is_pending l ≡ true
      → (v : Link W) × (start_writing kernel l ≡ some v) × Talks fd said v
  unfolding start_writing relinked
  start-Talks fd said b l h p =
      let (c, w, e, watches, apart) =
        enable_writing-Updated kernel.epoll_ctl epoll fd true b l.conn.channel l.world h.watched in
      (
        record { conn = record (l.conn) { channel = c }; world = w },
        ap (relinked kernel l) e,
        record {
          valid = h.valid;
          complete = ap (λ f. f fd ++ contents l.conn.output) apart.silent ∙ h.complete;
          watched = subst (λ q. Watches kernel.epoll_ctl epoll fd true q c w) (sym p) watches;
        },
      )

  pub stop-Talks :
      (fd : ℕ) (said : Bytes) (b : Bool) (l : Link W)
      → Between fd said b l
      → is_pending l ≡ false
      → (v : Link W) × (stop_writing kernel l ≡ some v) × Talks fd said v
  unfolding stop_writing relinked
  stop-Talks fd said b l h p =
      let (c, w, e, watches, apart) =
        disable_writing-Updated kernel.epoll_ctl epoll fd true b l.conn.channel l.world h.watched in
      (
        record { conn = record (l.conn) { channel = c }; world = w },
        ap (relinked kernel l) e,
        record {
          valid = h.valid;
          complete = ap (λ f. f fd ++ contents l.conn.output) apart.silent ∙ h.complete;
          watched = subst (λ q. Watches kernel.epoll_ctl epoll fd true q c w) (sym p) watches;
        },
      )

  pub keep-Talks :
      (fd : ℕ) (said : Bytes) (b : Bool) (l : Link W)
      → Between fd said b l
      → is_pending l ≡ b
      → Talks fd said l
  keep-Talks fd said b l h p = record {
    valid = h.valid;
    complete = h.complete;
    watched =
        subst (λ q. Watches kernel.epoll_ctl epoll fd true q l.conn.channel l.world) (sym p)
          h.watched;
  }

  -- The kernel's answer to a write of the whole output.
  abbrev pub Wrote : ℕ → Bytes → Bool → WriteAnswer × Link W → Type 0
  Wrote fd said b (write_ok n, l) = Between fd said b (drop_sent kernel n l)
  Wrote fd said b (write_failed e, l) = Between fd said b l × Failed e

  moved :
      (fd : ℕ) (b : Bool) (c : Channel) (w v : W)
      → registered v ≡ registered w
      → Watches kernel.epoll_ctl epoll fd true b c w
      → Watches kernel.epoll_ctl epoll fd true b c v
  moved fd b c w v same h = record {
    same_fd = h.same_fd;
    events = h.events;
    in_epoll = h.in_epoll;
    kernel = ap (λ f. f fd) same ∙ h.kernel;
  }

  sent-Between :
      (fd : ℕ) (said : Bytes) (b : Bool) (l : Link W) (n : ℕ) (v : W)
      → Between fd said b l
      → n ≤ length (contents l.conn.output)
      → written v fd ≡ written l.world fd ++ take n (contents l.conn.output)
      → registered v ≡ registered l.world
      → Between fd said b (drop_sent kernel n (record l { world = v }))
  unfolding drop_sent update_active_time
  sent-Between fd said b l n v h few out same =
      let fits : n ≤ readable_bytes l.conn.output =
        omega (arith, few, length-contents l.conn.output h.valid) in
      let bytes = contents l.conn.output in
      record {
        valid = retrieve-IsValid n l.conn.output h.valid;
        complete =
            ap (λ s. s ++ contents (retrieve n l.conn.output)) out
            ∙ ap (λ s. (written l.world fd ++ take n bytes) ++ s)
                (contents-retrieve n l.conn.output h.valid fits)
            ∙ append_assoc (written l.world fd) (take n bytes) (drop n bytes)
            ∙ ap (λ s. written l.world fd ++ s) (take-append-drop n bytes)
            ∙ h.complete;
        watched = moved fd b l.conn.channel l.world v same h.watched;
      }

  pub write-Wrote :
      (fd : ℕ) (said : Bytes) (b : Bool) (l : Link W)
      → Between fd said b l
      → Wrote fd said b (write_output kernel l)
  unfolding write_output
  write-Wrote fd said b l h =
      let f = l.conn.channel.fd in
      let bytes = contents l.conn.output in
      let (v, how, same) = laws.write_law f bytes l.world in
      elim how [
        | inl (n, few, e, out) ↦
            subst (λ (r : WriteAnswer × W). Wrote fd said b (r.0, record l { world = r.1 })) (sym e)
              (sent-Between fd said b l n v h few
                (subst (λ j. written v j ≡ written l.world j ++ take n bytes) h.watched.same_fd out)
                same)
        | inr (e, failed, out) ↦
            subst (λ (r : WriteAnswer × W). Wrote fd said b (r.0, record l { world = r.1 }))
              (sym failed)
              (
                record {
                  valid = h.valid;
                  complete =
                      ap (λ s. s ++ bytes)
                        (subst (λ j. written v j ≡ written l.world j) h.watched.same_fd out)
                      ∙ h.complete;
                  watched = moved fd b l.conn.channel l.world v same h.watched;
                },
                (f, bytes, l.world, v, failed),
              )
      ]

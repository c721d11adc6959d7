-- ===== src/Net/Reactor/Calls.antt =====
-- src/net/Connection.cpp: each callback of a connection of the server goes on, and leaves the connection in
-- the table or closed.
use user_center.Base.{
  ℕ, ◌≡◌, ◌∙◌, ◌⊎◌, inl, inr, refl, sym, ap, subst, Option, some, Bool, true, false, Bytes, ◌==◌,
  arith, if_true, if_false, Bool-cases, ltb,
}
use user_center.Buffer.{readable_bytes, append, contents, WriteAnswer, write_failed, write_ok}
use user_center.Buffer.Memory.{IsValid}
use user_center.Net.Channel.{is_writing}
use user_center.Net.Channel.Masks.{EpollLaws}
use user_center.Net.Channel.Interest.{Watches}
use user_center.Net.Connection.{
  bind, Kernel, Connection, Link, eagain, remove_connection, drop_sent, update_active_time,
  write_output, after_send, send_in_loop, after_write, handle_write,
}
use user_center.Net.Server.{TcpServer, find, erase, delist, on_connection_closed}
use user_center.Net.Server.Table.{
  CloseLaws, find-erase_self, find-erase_other, store_self, store_other,
}
use user_center.Net.Server.Serving.{removed}
use user_center.Net.Reactor.{served_kernel, released, put_back, close_callback}
use user_center.Net.Reactor.Laws.{EventLaws}
use user_center.Net.Reactor.Links.{Going, Lives, Continues, stir, start-Continues, stop-Continues}

module _ {W : Type 0} (kernel : Kernel W) (epoll : EpollLaws kernel.epoll_ctl)
    (events : EventLaws kernel epoll) (closing : CloseLaws kernel epoll) where
  open epoll use {registered}
  open events use {is_open}

  module _ (s : TcpServer W) (fd p : ℕ) where
    closes :
        (a b : Bool) (l : Link (TcpServer W))
        → Lives kernel epoll events s fd p l
        → Watches kernel.epoll_ctl epoll fd a b l.conn.channel l.world.world
        → Continues kernel epoll events s fd p (close_callback kernel p l)
    unfolding close_callback on_connection_closed put_back released delist
    closes a b l h watched =
        let s1 = put_back p l in
        let here : s1.objects p ≡ l.conn = store_self p l.conn l.world.objects in
        let (m, e, idle, others, (v, closed_at), same_input) =
          removed kernel epoll closing fd a b (record { conn = l.conn; world = l.world.world })
            watched in
        let t = delist kernel p s1 m in
        let back : t.objects p ≡ m.conn = store_self p m.conn s1.objects in
        let table : t.connections ≡ erase fd l.world.connections =
          ap (λ c. erase c.channel.fd l.world.connections) here
          ∙ ap (λ k. erase k l.world.connections) watched.same_fd in
        (
          released p t,
          ap
                (λ c.
                  bind
                    (bind (remove_connection kernel (record { conn = c; world = l.world.world }))
                      (λ k. some (delist kernel p s1 k)))
                    (λ k. some (released p k)))
                here
              ∙ ap
                  (λ o. bind (bind o (λ k. some (delist kernel p s1 k))) (λ k. some (released p k)))
                  e,
          record {
            valid =
                subst (λ c. IsValid c.input) (sym back) (subst IsValid (sym same_input) h.valid);
            keeps = record {
              table = λ j other.
                  ap (find j) table
                  ∙ find-erase_other fd j l.world.connections other
                  ∙ h.keeps.table j other;
              epoll_table = λ j other. others j other ∙ h.keeps.epoll_table j other;
              objects = λ q other.
                  store_other p q m.conn s1.objects other
                  ∙ store_other p q l.conn l.world.objects other
                  ∙ h.keeps.objects q other;
              created = h.keeps.created;
            };
            is = inr (record {
              forgotten = ap (find fd) table ∙ find-erase_self fd l.world.connections;
              ended =
                  subst (λ c. Watches kernel.epoll_ctl epoll fd false false c.channel m.world)
                    (sym back) idle;
              shut = ap (λ w. is_open w fd) closed_at ∙ events.close_law fd v;
            });
            holds = λ x. ((h.holds x).0, (h.holds x).0);
          },
        )

    -- The close callback, also when the connection is closed already.
    pub close-Continues :
        (l : Link (TcpServer W))
        → Lives kernel epoll events s fd p l
        → Continues kernel epoll events s fd p (close_callback kernel p l)
    close-Continues l h = elim h.is [
      | inl g ↦ closes true g.writing l h g.watched
      | inr g ↦ closes false false l h g.ended
    ]

    -- The callback and the calls, made from the server.
    abbrev closing_back : Link (TcpServer W) → Option (Link (TcpServer W))
    closing_back = close_callback kernel p

    abbrev On : Option (Link (TcpServer W)) → Type 0
    On o = Continues kernel epoll events s fd p o

    -- A write that failed, and not for want of room.
    abbrev Hard : WriteAnswer → Type 0
    Hard a = (e : ℕ) × (a ≡ write_failed e) × ((e == eagain) ≡ false)

    -- An answer of a write: on a connection of the table anything, on one that is closed a failure.
    abbrev Answered : WriteAnswer × Link (TcpServer W) → Type 0
    Answered r =
        Lives kernel epoll events s fd p r.1 × (Going kernel epoll events fd p r.1 ⊎ Hard r.0)

    write-Answered :
        (l : Link (TcpServer W))
        → Lives kernel epoll events s fd p l
        → Answered (write_output (served_kernel kernel) l)
    unfolding write_output
    write-Answered l h =
        let n = l.conn.channel.fd in
        let bytes = contents l.conn.output in
        let (epoll_same, open_same) = events.write_law n bytes l.world.world in
        let next =
          stir kernel epoll events s fd p l l.conn (kernel.write n bytes l.world.world).1 h refl
            refl h.valid epoll_same open_same in
        (
          next,
          elim h.is [
            | inl g ↦ inl (record {
              found = g.found;
              alive = g.alive;
              writing = g.writing;
              watched = record {
                same_fd = g.watched.same_fd;
                events = g.watched.events;
                in_epoll = g.watched.in_epoll;
                kernel = ap (λ f. f fd) epoll_same ∙ g.watched.kernel;
              };
            })
            | inr g ↦ inr (
                events.closed_law n bytes l.world.world
                  (ap (is_open l.world.world) g.ended.same_fd ∙ g.shut))
          ],
        )

    sent-Lives :
        (n : ℕ) (l : Link (TcpServer W))
        → Lives kernel epoll events s fd p l
        → Lives kernel epoll events s fd p (drop_sent (served_kernel kernel) n l)
    unfolding drop_sent update_active_time
    sent-Lives n l h =
        stir kernel epoll events s fd p l (drop_sent (served_kernel kernel) n l).conn l.world.world
          h refl refl h.valid refl refl

    sent-Going :
        (n : ℕ) (l : Link (TcpServer W))
        → Going kernel epoll events fd p l
        → Going kernel epoll events fd p (drop_sent (served_kernel kernel) n l)
    unfolding drop_sent update_active_time
    sent-Going n l g = record {
      found = g.found;
      alive = g.alive;
      writing = g.writing;
      watched = g.watched;
    }

    after_send-Continues :
        (r : WriteAnswer × Link (TcpServer W))
        → Answered r
        → On (after_send (served_kernel kernel) closing_back r)
    unfolding after_send
    after_send-Continues (write_failed e, l) (h, inl g) = elim (Bool-cases (e == eagain)) [
      | inl again ↦
          subst On (sym (if_true _ _ again)) (start-Continues kernel epoll events s fd p l h g)
      | inr hard ↦ subst On (sym (if_false _ _ hard)) (close-Continues l h)
    ]
    after_send-Continues (write_failed e, l) (h, inr (f, same, hard)) =
        let not_again : (e == eagain) ≡ false = ground (arith) in
        subst On (sym (if_false _ _ not_again)) (close-Continues l h)
    after_send-Continues (write_ok n, l) (h, inl g) =
        let rest = drop_sent (served_kernel kernel) n l in
        elim (Bool-cases (ltb 0 (readable_bytes rest.conn.output))) [
          | inl more ↦ subst On (sym (if_true _ _ more)) (
              start-Continues kernel epoll events s fd p rest (sent-Lives n l h) (sent-Going n l g))
          | inr done ↦ subst On (sym (if_false _ _ done)) (rest, refl, sent-Lives n l h)
        ]
    after_send-Continues (write_ok n, l) (h, inr (f, same, hard)) = cc

    after_write-Continues :
        (r : WriteAnswer × Link (TcpServer W))
        → Lives kernel epoll events s fd p r.1
        → On (after_write (served_kernel kernel) closing_back r)
    unfolding after_write
    after_write-Continues (write_failed e, l) h = elim (Bool-cases (e == eagain)) [
      | inl again ↦ subst On (sym (if_true _ _ again)) (l, refl, h)
      | inr hard ↦ subst On (sym (if_false _ _ hard)) (close-Continues l h)
    ]
    after_write-Continues (write_ok n, l) h =
        let rest = drop_sent (served_kernel kernel) n l in
        elim (Bool-cases (readable_bytes rest.conn.output == 0)) [
          | inl done ↦
              subst On (sym (if_true _ _ done))
                (stop-Continues kernel epoll events s fd p rest (sent-Lives n l h))
          | inr more ↦ subst On (sym (if_false _ _ more)) (rest, refl, sent-Lives n l h)
        ]

    -- A message that is sent, at any time.
    pub send-Continues :
        (message : Bytes) (l : Link (TcpServer W))
        → Lives kernel epoll events s fd p l
        → Continues kernel epoll events s fd p
            (send_in_loop (served_kernel kernel) (close_callback kernel p) message l)
    unfolding send_in_loop
    send-Continues message l h =
        let c : Connection = record (l.conn) { output = append message l.conn.output } in
        let m : Link (TcpServer W) = record l { conn = c } in
        let h' : Lives kernel epoll events s fd p m =
          stir kernel epoll events s fd p l c l.world.world h refl refl h.valid refl refl in
        elim (Bool-cases (is_writing l.conn.channel)) [
          | inl waits ↦ subst On (sym (if_true _ _ waits)) (m, refl, h')
          | inr free ↦
              subst On (sym (if_false _ _ free))
                (after_send-Continues (write_output (served_kernel kernel) m) (write-Answered m h'))
        ]

    pub write-Continues :
        (l : Link (TcpServer W))
        → Lives kernel epoll events s fd p l
        → Continues kernel epoll events s fd p
            (handle_write (served_kernel kernel) (close_callback kernel p) l)
    unfolding handle_write
    write-Continues l h = elim (Bool-cases (readable_bytes l.conn.output == 0)) [
      | inl empty ↦
          subst On (sym (if_true _ _ empty)) (stop-Continues kernel epoll events s fd p l h)
      | inr waits ↦
          subst On (sym (if_false _ _ waits))
            (after_write-Continues (write_output (served_kernel kernel) l) (write-Answered l h).0)
    ]

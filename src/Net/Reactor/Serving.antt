-- ===== src/Net/Reactor/Serving.antt =====
-- src/net/TcpServer.cpp, src/net/Connection.cpp and src/net/Channel.cpp: any event on any connection of the
-- server, and any sequence of new connections, events and idle checks.
use user_center.Base.{
  Bytes, refl, ℕ, ◌<◌, ◌≡◌, ◌≢◌, ◌∙◌, ◌⊎◌, inl, inr, refl, sym, ap, subst, Option, none, some, true,
  false, ◌==◌, arith, Bool-cases, some_eq,
}
use user_center.Buffer.Memory.{IsValid}
use user_center.Http.Request.{HttpRequest}
use user_center.Net.Channel.Masks.{EpollLaws}
use user_center.Net.Channel.Interest.{Watches}
use user_center.Net.Connection.{shutdown, bind, Kernel, Link}
use user_center.Net.Server.{TcpServer, find}
use user_center.Net.Server.Table.{
  CloseLaws, IsServed, Serves, store_self, store_other, apart_objects, still-IsServed,
}
use user_center.Net.Reactor.{
  served_kernel, send_on, shutdown_on, held_link, put_back, with_revents, ready,
}
use user_center.Net.Reactor.Laws.{EventLaws}
use user_center.Net.Reactor.Links.{Continues, stir, Keeps, Going, Lives}
use user_center.Net.Reactor.Calls.{send-Continues}
use user_center.Net.Reactor.Events.{GoesOn, Closes, event-On}
use user_center.Net.Reactor.Callbacks.{for_reads}

module _ {W : Type 0} (kernel : Kernel W) (epoll : EpollLaws kernel.epoll_ctl)
    (events : EventLaws kernel epoll) (closing : CloseLaws kernel epoll) where
  open epoll use {registered}
  open events use {is_open}

  -- The connection is still in the table, or closed.
  abbrev pub Outcome : ℕ → ℕ → TcpServer W → Type 0
  Outcome fd p t =
      (find fd t.connections ≡ some p)
      ⊎ ((find fd t.connections ≡ none)
          × (registered t.world fd ≡ none)
          × (is_open t.world fd ≡ false))

  starts :
      (fd p : ℕ) (s : TcpServer W)
      → find fd s.connections ≡ some p
      → IsServed kernel epoll fd p s
      → Lives kernel epoll events s fd p (held_link p s)
  unfolding held_link
  starts fd p s found a = record {
    valid = a.valid;
    keeps = record {
      table = λ j other. refl;
      epoll_table = λ j other. refl;
      objects = λ q other. refl;
      created = refl;
    };
    is = inl (record {
      found = found;
      alive = a.alive;
      writing = a.writing;
      watched = record {
        same_fd = a.watched.same_fd;
        events = a.watched.events;
        in_epoll = a.watched.in_epoll;
        kernel = a.watched.kernel;
      };
    });
    holds = λ x. (x, a.alive);
  }

  -- Putting the object back touches no other.
  back-Keeps :
      (fd p : ℕ) (s : TcpServer W) (m : Link (TcpServer W))
      → Keeps kernel epoll events fd p s m.world
      → Keeps kernel epoll events fd p s (put_back p m)
  unfolding put_back
  back-Keeps fd p s m k = record {
    table = k.table;
    epoll_table = k.epoll_table;
    objects = λ q other. store_other p q m.conn m.world.objects other ∙ k.objects q other;
    created = k.created;
  }

  -- The connection of the event, when it is still in the table.
  same-IsServed :
      (fd p : ℕ) (s : TcpServer W) (m : Link (TcpServer W))
      → p < s.created
      → Lives kernel epoll events s fd p m
      → Going kernel epoll events fd p m
      → IsServed kernel epoll fd p (put_back p m)
  unfolding put_back
  same-IsServed fd p s m made h g =
      let here : m.conn ≡ (put_back p m).objects p = sym (store_self p m.conn m.world.objects) in
      record {
        made = let c = h.keeps.created in omega (arith, c);
        writing = g.writing;
        watched =
            subst (λ c. Watches kernel.epoll_ctl epoll fd true g.writing c.channel m.world.world)
              here g.watched;
        valid = subst (λ c. IsValid c.input) here h.valid;
        alive = ap (λ c. c.alive) (sym here) ∙ g.alive;
      }

  back-Serves :
      (fd p : ℕ) (s : TcpServer W) (m : Link (TcpServer W))
      → Serves kernel epoll s
      → IsServed kernel epoll fd p s
      → Lives kernel epoll events s fd p m
      → Serves kernel epoll (put_back p m)
  unfolding put_back
  back-Serves fd p s m serves a h =
      let t = put_back p m in
      let k = back-Keeps fd p s m h.keeps in
      record {
        each = λ j q there. elim (Bool-cases (j == fd)) [
          | inl at ↦
              let eq : j ≡ fd = ground (arith) in
              elim h.is [
                | inl g ↦
                    let mine : p ≡ q =
                      some_eq
                        (sym g.found ∙ ap (λ i. find i m.world.connections) (sym eq) ∙ there) in
                    subst (λ i. IsServed kernel epoll i q t) (sym eq)
                      (subst (λ x. IsServed kernel epoll fd x t) mine
                        (same-IsServed fd p s m a.made h g))
                | inr g ↦
                    absurd (
                      let f = g.forgotten in
                      let was = ap (λ i. find i m.world.connections) eq in cc)
              ]
          | inr differs ↦
              let other : j ≢ fd = λ x. ground (arith, x) in
              let b = serves.each j q (sym (k.table j other) ∙ there) in
              let c = k.created in
              still-IsServed kernel epoll fd j p q s t (omega (arith, c))
                (k.objects q (apart_objects kernel epoll fd j p q s a b other)) k.epoll_table other
                b
        ];
      }

  outcome :
      (fd p : ℕ) (s : TcpServer W) (m : Link (TcpServer W))
      → Lives kernel epoll events s fd p m
      → Outcome fd p (put_back p m)
  unfolding put_back
  outcome fd p s m h = elim h.is [
    | inl g ↦ inl g.found
    | inr g ↦ inr (g.forgotten, g.ended.kernel, g.shut)
  ]

  -- The events that epoll reports change nothing of what the channel waits for.
  reported :
      (fd p revents : ℕ) (s : TcpServer W) (l : Link (TcpServer W))
      → Lives kernel epoll events s fd p l
      → Lives kernel epoll events s fd p (with_revents revents l)
  unfolding with_revents
  reported fd p revents s l h = record {
    valid = h.valid;
    keeps = h.keeps;
    is = elim h.is [
      | inl g ↦ inl (record {
        found = g.found;
        alive = g.alive;
        writing = g.writing;
        watched = record {
          same_fd = g.watched.same_fd;
          events = g.watched.events;
          in_epoll = g.watched.in_epoll;
          kernel = g.watched.kernel;
        };
      })
      | inr g ↦ inr (record {
        forgotten = g.forgotten;
        ended = record {
          same_fd = g.ended.same_fd;
          events = g.ended.events;
          in_epoll = g.ended.in_epoll;
          kernel = g.ended.kernel;
        };
        shut = g.shut;
      })
    ];
    holds = h.holds;
  }

  -- What a call on a connection of the table leaves.
  abbrev pub Settles : ℕ → ℕ → TcpServer W → Option (TcpServer W) → Type 0
  Settles fd p s o =
      (t : TcpServer W) × (o ≡ some t)
      × Serves kernel epoll t
      × Outcome fd p t
      × Keeps kernel epoll events fd p s t

  settles :
      (fd p : ℕ) (s : TcpServer W) (o : Option (Link (TcpServer W)))
      → Serves kernel epoll s
      → IsServed kernel epoll fd p s
      → Continues kernel epoll events s fd p o
      → Settles fd p s (bind o (λ l. some (put_back p l)))
  settles fd p s o serves a (m, e, h) = (
    put_back p m,
    ap (λ r. bind r (λ l. some (put_back p l))) e,
    back-Serves fd p s m serves a h,
    outcome fd p s m h,
    back-Keeps fd p s m h.keeps,
  )

  -- A message of a worker to a connection of the table.
  pub send_on-Serves :
      (fd p : ℕ) (message : Bytes) (s : TcpServer W)
      → Serves kernel epoll s
      → find fd s.connections ≡ some p
      → Settles fd p s (send_on kernel p message s)
  unfolding send_on
  send_on-Serves fd p message s serves found =
      let a = serves.each fd p found in
      settles fd p s _ serves a (
        send-Continues kernel epoll events closing s fd p message (held_link p s)
          (starts fd p s found a))

  -- A worker's shutdown of a connection of the table.
  pub shutdown_on-Serves :
      (fd p : ℕ) (s : TcpServer W)
      → Serves kernel epoll s
      → find fd s.connections ≡ some p
      → Settles fd p s (shutdown_on kernel p s)
  unfolding shutdown_on shutdown
  shutdown_on-Serves fd p s serves found =
      let a = serves.each fd p found in
      let l = held_link p s in
      let h = starts fd p s found a in
      let n = l.conn.channel.fd in
      let (epoll_same, open_same) = events.shutdown_law n l.world.world in
      settles fd p s (some (shutdown (served_kernel kernel) l)) serves a (
        shutdown (served_kernel kernel) l,
        refl,
        stir kernel epoll events s fd p l l.conn (kernel.shutdown_write n l.world.world) h refl refl
            h.valid epoll_same open_same,
      )

  module _
      (request_callback : ℕ → HttpRequest → Link (TcpServer W) → Option (Link (TcpServer W))) where
    -- The callbacks of an event use the object that the read callback has had destroyed.
    abbrev pub Undefined : ℕ → ℕ → ℕ → TcpServer W → Type 0
    Undefined fd p revents s =
        (ready kernel request_callback p revents s ≡ none)
        × (s.held p ≡ false)
        × (for_reads revents ≡ true)
        × Closes kernel epoll events closing request_callback fd p
            (with_revents revents (held_link p s))

    pub ready-Serves :
        (fd p revents : ℕ) (s : TcpServer W)
        → GoesOn kernel epoll events closing request_callback
        → Serves kernel epoll s
        → find fd s.connections ≡ some p
        → Settles fd p s (ready kernel request_callback p revents s) ⊎ Undefined fd p revents s
    unfolding ready with_revents held_link
    ready-Serves fd p revents s answers serves found =
        let a = serves.each fd p found in
        let l = with_revents revents (held_link p s) in
        elim (event-On kernel epoll events closing request_callback answers s fd p l
          (reported fd p revents s (held_link p s) (starts fd p s found a))) [
            | inl goes ↦ inl (settles fd p s _ serves a goes)
            | inr (undefined, free, read, gone) ↦
                inr (ap (λ o. bind o (λ m. some (put_back p m))) undefined, free, read, gone)
          ]

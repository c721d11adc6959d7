-- ===== src/Net/Server/Serving.antt =====
-- src/net/TcpServer.cpp: a connection that comes is served, one that is closed leaves nothing behind,
-- and no other connection is touched.
use user_center.Base.{
  ℕ, ◌+◌, ◌≡◌, ◌≢◌, ◌∙◌, inl, inr, refl, sym, ap, subst, Option, none, some, some_eq, Bool, true,
  false, arith, ◌==◌, Bool-cases,
}
use user_center.Buffer.{init, initial_size}
use user_center.Buffer.Memory.{IsValid, init-IsValid}
use user_center.Http.Context.{reset}
use user_center.Net.Channel.{
  Channel, end_channel, disable_all, update_channel, is_none_event, remove, new_channel,
}
use user_center.Net.Channel.Masks.{EpollLaws}
use user_center.Net.Channel.Interest.{Watches, Apart, enable_reading-Updated, end_channel-Updated}
use user_center.Net.Connection.{bind, Kernel, Link, create, remove_connection, relinked}
use user_center.Net.Server.{
  TcpServer, find, erase, put, store, enlist, delist, on_new_connection, on_connection_closed,
}
use user_center.Net.Server.Table.{
  find-erase_self, find-erase_other, find-put_self, find-put_other, store_self, store_other,
  CloseLaws, IsServed, Serves, apart_objects, still-IsServed,
}

module _ {W : Type 0} (kernel : Kernel W) (epoll : EpollLaws kernel.epoll_ctl) where
  open epoll use {registered}

  -- The constructor of Connection.
  created :
      (fd : ℕ) (w : W)
      → registered w fd ≡ none
      → (l : Link W) × (create kernel fd w ≡ some l)
        × Watches kernel.epoll_ctl epoll fd true false l.conn.channel l.world
        × Apart kernel.epoll_ctl epoll fd w l.world
        × IsValid l.conn.input
        × (l.conn.alive ≡ true)
  unfolding create relinked new_channel
  created fd w h =
      let (c, v, e, watches, apart) =
        enable_reading-Updated kernel.epoll_ctl epoll {a = false} {b = false} fd false false
          (new_channel fd) w
          (record { same_fd = refl; events = refl; in_epoll = refl; kernel = h }) in
      let l : Link W = record {
        conn = record {
          channel = new_channel fd;
          input = init initial_size;
          output = init initial_size;
          context = reset;
          last_active = kernel.clock w;
          alive = true;
        };
        world = w;
      } in
      (_, ap (relinked kernel l) e, watches, apart, init-IsValid initial_size, refl)

  -- What a call leaves alone: the table at other descriptors.
  pub record Aside (fd : ℕ) (s t : TcpServer W) : Type 0 where
    pub table : (j : ℕ) → j ≢ fd → find j t.connections ≡ find j s.connections
    pub epoll_table : (j : ℕ) → j ≢ fd → registered t.world j ≡ registered s.world j

  -- A descriptor that accept returned, and that epoll does not hold, is from then on a connection of
  -- the table that waits for reads; the others are served as before.
  pub on_new_connection-Serves :
      (fd : ℕ) (s : TcpServer W)
      → Serves kernel epoll s
      → registered s.world fd ≡ none
      → (t : TcpServer W) × (on_new_connection kernel fd s ≡ some t)
        × Serves kernel epoll t
        × (find fd t.connections ≡ some s.created)
        × Aside fd s t
  unfolding on_new_connection enlist
  on_new_connection-Serves fd s h unknown =
      let (l, e, watches, apart, valid, lives) = created fd s.world unknown in
      let t : TcpServer W = record s {
        connections = put fd s.created s.connections;
        objects = store s.created l.conn s.objects;
        created = s.created + 1;
        world = l.world;
      } in
      let here : t.objects s.created ≡ l.conn = store_self s.created l.conn s.objects in
      let new_one : IsServed kernel epoll fd s.created t = record {
        made = omega arith;
        writing = false;
        watched =
            subst (λ c. Watches kernel.epoll_ctl epoll fd true false c.channel l.world) (sym here)
              watches;
        valid = subst (λ c. IsValid c.input) (sym here) valid;
        alive = ap (λ c. c.alive) here ∙ lives;
      } in
      (
        t,
        ap (λ o. bind o (λ m. some (enlist kernel fd s m))) e,
        record {
          each = λ j q found. elim (Bool-cases (j == fd)) [
            | inl same ↦
                let at : j ≡ fd = ground (arith) in
                let mine : s.created ≡ q = some_eq (
                  sym (find-put_self fd s.created s.connections)
                  ∙ ap (λ i. find i t.connections) (sym at)
                  ∙ found) in
                subst (λ i. IsServed kernel epoll i q t) (sym at)
                  (subst (λ i. IsServed kernel epoll fd i t) mine new_one)
            | inr differs ↦
                let other : j ≢ fd = λ x. ground (arith, x) in
                let b =
                  h.each j q (sym (find-put_other fd s.created j s.connections other) ∙ found) in
                still-IsServed kernel epoll fd j s.created q s t (omega arith)
                  (store_other s.created q l.conn s.objects
                    (λ x. let m = b.made in omega (arith, x, m)))
                  apart.others other b
          ];
        },
        find-put_self fd s.created s.connections,
        record {
          table = λ j other. find-put_other fd s.created j s.connections other;
          epoll_table = apart.others;
        },
      )

module _ {W : Type 0} (kernel : Kernel W) (epoll : EpollLaws kernel.epoll_ctl)
    (closing : CloseLaws kernel epoll) where
  open epoll use {registered}

  pub removed :
      (fd : ℕ) (a b : Bool) (l : Link W)
      → Watches kernel.epoll_ctl epoll fd a b l.conn.channel l.world
      → (m : Link W) × (remove_connection kernel l ≡ some m)
        × Watches kernel.epoll_ctl epoll fd false false m.conn.channel m.world
        × ((j : ℕ) → j ≢ fd → registered m.world j ≡ registered l.world j)
        × ((v : W) × (m.world ≡ kernel.close fd v))
        × (m.conn.input ≡ l.conn.input)
  unfolding remove_connection relinked
  removed fd a b l h =
      let (c, v, e, idle, apart) =
        end_channel-Updated kernel.epoll_ctl epoll fd a b l.conn.channel l.world h in
      let m : Link W = record { conn = record (l.conn) { channel = c }; world = v } in
      let gone : registered v c.fd ≡ none = ap (registered v) idle.same_fd ∙ idle.kernel in
      let closed = closing.close_law c.fd v gone in
      (
        record m { world = kernel.close c.fd v },
        ap
            (λ o.
              bind (relinked kernel l o)
                (λ k. some (record k { world = kernel.close k.conn.channel.fd k.world })))
            e,
        record {
          same_fd = idle.same_fd;
          events = idle.events;
          in_epoll = idle.in_epoll;
          kernel = ap (λ f. f fd) closed ∙ idle.kernel;
        },
        λ j other. ap (λ f. f j) closed ∙ apart.others j other,
        (v, ap (λ i. kernel.close i v) idle.same_fd),
        refl,
      )

  -- A connection of the table that is closed leaves the table and epoll, and the process goes on; the
  -- others are served as before.
  pub on_connection_closed-Serves :
      (fd p : ℕ) (s : TcpServer W)
      → Serves kernel epoll s
      → find fd s.connections ≡ some p
      → (t : TcpServer W) × (on_connection_closed kernel p s ≡ some t)
        × Serves kernel epoll t
        × (find fd t.connections ≡ none)
        × (registered t.world fd ≡ none)
        × Aside kernel epoll fd s t
  unfolding on_connection_closed delist
  on_connection_closed-Serves fd p s h found =
      let a = h.each fd p found in
      let (l, e, idle, others, _, _) =
        removed fd true a.writing (record { conn = s.objects p; world = s.world }) a.watched in
      let t = delist kernel p s l in
      let table : t.connections ≡ erase fd s.connections =
        ap (λ k. erase k s.connections) a.watched.same_fd in
      let same : (j : ℕ) → j ≢ fd → find j t.connections ≡ find j s.connections =
        λ j other. ap (find j) table ∙ find-erase_other fd j s.connections other in
      let forgotten : find fd t.connections ≡ none =
        ap (find fd) table ∙ find-erase_self fd s.connections in
      (
        t,
        ap (λ o. bind o (λ m. some (delist kernel p s m))) e,
        record {
          each = λ j q there. elim (Bool-cases (j == fd)) [
            | inl at ↦ absurd (
                let eq : j ≡ fd = ground (arith) in
                let was = ap (λ i. find i t.connections) eq in cc)
            | inr differs ↦
                let other : j ≢ fd = λ x. ground (arith, x) in
                let b = h.each j q (sym (same j other) ∙ there) in
                still-IsServed kernel epoll fd j p q s t (omega arith)
                  (store_other p q l.conn s.objects
                    (apart_objects kernel epoll fd j p q s a b other))
                  others other b
          ];
        },
        forgotten,
        idle.kernel,
        record { table = same; epoll_table = others },
      )

-- A channel that has been ended.
abbrev pub ended : ℕ → ℕ → Channel
ended fd revents = record { fd = fd; events = 0; revents = revents; in_epoll = false }

module _ {W : Type 0} (kernel : Kernel W) where
  abbrev closes_channel : Link W → Channel → Option (Link W)
  closes_channel l c =
      bind (relinked kernel l (end_channel kernel.epoll_ctl c l.world))
        (λ m. some (record m { world = kernel.close m.conn.channel.fd m.world }))

  -- A connection that is closed a second time, when its descriptor has been given to a new connection,
  -- takes the new one out of the table and closes its descriptor, while the new connection still waits
  -- for its events.
  pub closed_again :
      (fd revents p q : ℕ) (s : TcpServer W)
      → (s.objects p).channel ≡ ended fd revents
      → find fd s.connections ≡ some q
      → q ≢ p
      → (t : TcpServer W) × (on_connection_closed kernel p s ≡ some t)
        × (find fd t.connections ≡ none)
        × (t.world ≡ kernel.close fd s.world)
        × (t.objects q ≡ s.objects q)
  unfolding on_connection_closed delist remove_connection end_channel disable_all update_channel
      is_none_event remove relinked
  closed_again fd revents p q s old found other =
      let l : Link W = record { conn = s.objects p; world = s.world } in
      let m : Link W = record {
        conn = record (s.objects p) { channel = ended fd revents };
        world = kernel.close fd s.world;
      } in
      (
        delist kernel p s m,
        ap (λ c. bind (closes_channel l c) (λ k. some (delist kernel p s k))) old,
        ap (λ c. find fd (erase c.fd s.connections)) old ∙ find-erase_self fd s.connections,
        refl,
        store_other p q m.conn s.objects other,
      )

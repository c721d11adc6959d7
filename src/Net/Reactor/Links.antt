-- ===== src/Net/Reactor/Links.antt =====
-- src/net/TcpServer.cpp and src/net/Connection.cpp: a connection while its callbacks run, in the table or
-- closed, and the server around it.
use user_center.Base.{
  ℕ, ◌≡◌, ◌≢◌, ◌∙◌, ◌⊎◌, inl, inr, refl, sym, ap, subst, Option, none, some, Bool, true, false,
  Bool-cases, if_true, if_false,
}
use user_center.Buffer.Memory.{IsValid}
use user_center.Net.Channel.{Channel}
use user_center.Net.Channel.Masks.{EpollLaws}
use user_center.Net.Channel.Interest.{Watches, enable_writing-Updated, disable_writing-Updated}
use user_center.Net.Connection.{
  bind, while_alive, Kernel, Connection, Link, relinked, start_writing, stop_writing,
}
use user_center.Net.Server.{TcpServer, find}
use user_center.Net.Reactor.{served_kernel}
use user_center.Net.Reactor.Laws.{
  EventLaws, lifted, enable_writing-lifted, disable_writing-lifted, disable_writing-ended,
}

module _ {W : Type 0} (kernel : Kernel W) (epoll : EpollLaws kernel.epoll_ctl)
    (events : EventLaws kernel epoll) where
  open epoll use {registered}
  open events use {is_open}

  -- Nothing of another descriptor, nor of another object, has changed.
  pub record Keeps (fd p : ℕ) (s t : TcpServer W) : Type 0 where
    pub table : (j : ℕ) → j ≢ fd → find j t.connections ≡ find j s.connections
    pub epoll_table : (j : ℕ) → j ≢ fd → registered t.world j ≡ registered s.world j
    pub objects : (q : ℕ) → q ≢ p → t.objects q ≡ s.objects q
    pub created : t.created ≡ s.created

  -- The connection is in the table and waits for reads.
  pub record Going (fd p : ℕ) (l : Link (TcpServer W)) : Type 0 where
    pub found : find fd l.world.connections ≡ some p
    pub alive : l.conn.alive ≡ true
    pub writing : Bool
    pub watched : Watches kernel.epoll_ctl epoll fd true writing l.conn.channel l.world.world

  -- The connection is closed: out of the table, out of epoll, its descriptor given back.
  pub record Gone (fd p : ℕ) (l : Link (TcpServer W)) : Type 0 where
    pub forgotten : find fd l.world.connections ≡ none
    pub ended : Watches kernel.epoll_ctl epoll fd false false l.conn.channel l.world.world
    pub shut : is_open l.world.world fd ≡ false

  pub record Lives (s : TcpServer W) (fd p : ℕ) (l : Link (TcpServer W)) : Type 0 where
    pub valid : IsValid l.conn.input
    pub keeps : Keeps fd p s l.world
    pub is : Going fd p l ⊎ Gone fd p l
    -- An object that something besides the table holds stays so, and is not destroyed.
    pub holds : s.held p ≡ true → (l.world.held p ≡ true) × (l.conn.alive ≡ true)

  -- The call goes on, with such a connection.
  abbrev pub Continues : TcpServer W → ℕ → ℕ → Option (Link (TcpServer W)) → Type 0
  Continues s fd p o = (m : Link (TcpServer W)) × (o ≡ some m) × Lives s fd p m

  pub bind-Continues :
      (s : TcpServer W) (fd p : ℕ) (o : Option (Link (TcpServer W)))
      (f : Link (TcpServer W) → Option (Link (TcpServer W)))
      → Continues s fd p o
      → ((m : Link (TcpServer W)) → Lives s fd p m → Continues s fd p (f m))
      → Continues s fd p (bind o f)
  bind-Continues s fd p o f (m, e, h) next =
      let (k, e', h') = next m h in (k, ap (λ q. bind q f) e ∙ e', h')

  -- The call goes on; or it uses an object that it has had destroyed, which nothing besides the table
  -- held.
  abbrev pub Runs : TcpServer W → ℕ → ℕ → Option (Link (TcpServer W)) → Type 0
  Runs s fd p o = Continues s fd p o ⊎ ((o ≡ none) × (s.held p ≡ false))

  pub bind-Runs :
      (s : TcpServer W) (fd p : ℕ) (o : Option (Link (TcpServer W)))
      (f : Link (TcpServer W) → Option (Link (TcpServer W)))
      → Runs s fd p o
      → ((m : Link (TcpServer W)) → Lives s fd p m → Runs s fd p (f m))
      → Runs s fd p (bind o f)
  bind-Runs s fd p o f (inl (m, e, h)) next = elim (next m h) [
    | inl (k, e', h') ↦ inl (k, ap (λ q. bind q f) e ∙ e', h')
    | inr (e', free) ↦ inr (ap (λ q. bind q f) e ∙ e', free)
  ]
  bind-Runs s fd p o f (inr (e, free)) next = inr (ap (λ q. bind q f) e, free)

  -- A use of the object.
  pub alive-Runs :
      (s : TcpServer W) (fd p : ℕ) (f : Link (TcpServer W) → Option (Link (TcpServer W)))
      (l : Link (TcpServer W))
      → Lives s fd p l
      → Runs s fd p (f l)
      → Runs s fd p (while_alive f l)
  alive-Runs s fd p f l h go = elim (Bool-cases l.conn.alive) [
    | inl lives ↦ subst (Runs s fd p) (sym (if_true (f l) none lives)) go
    | inr dead ↦ inr (
      if_false (f l) none dead,
      elim (Bool-cases (s.held p)) [
        | inl kept ↦ absurd (let (_, lives) = h.holds kept in cc)
        | inr free ↦ free
      ],
    )
  ]

  -- The world has moved on, for this descriptor only.
  moved :
      (fd p : ℕ) (s t : TcpServer W) (w : W)
      → Keeps fd p s t
      → ((j : ℕ) → j ≢ fd → registered w j ≡ registered t.world j)
      → Keeps fd p s (record t { world = w })
  moved fd p s t w h others = record {
    table = h.table;
    epoll_table = λ j other. others j other ∙ h.epoll_table j other;
    objects = h.objects;
    created = h.created;
  }

  same_watch :
      (fd : ℕ) (a b : Bool) (c : Channel) (w v : W)
      → registered v ≡ registered w
      → Watches kernel.epoll_ctl epoll fd a b c w
      → Watches kernel.epoll_ctl epoll fd a b c v
  same_watch fd a b c w v same h = record {
    same_fd = h.same_fd;
    events = h.events;
    in_epoll = h.in_epoll;
    kernel = ap (λ f. f fd) same ∙ h.kernel;
  }

  -- A read or a write, and new buffers, leave the connection as it is.
  pub stir :
      (s : TcpServer W) (fd p : ℕ) (l : Link (TcpServer W)) (c : Connection) (w : W)
      → Lives s fd p l
      → c.channel ≡ l.conn.channel
      → c.alive ≡ l.conn.alive
      → IsValid c.input
      → registered w ≡ registered l.world.world
      → is_open w ≡ is_open l.world.world
      → Lives s fd p (record { conn = c; world = record (l.world) { world = w } })
  stir s fd p l c w h same life valid epoll_same open_same = record {
    valid = valid;
    keeps = moved fd p s l.world w h.keeps (λ j other. ap (λ f. f j) epoll_same);
    is = elim h.is [
      | inl g ↦ inl (record {
        found = g.found;
        alive = life ∙ g.alive;
        writing = g.writing;
        watched =
            subst (λ d. Watches kernel.epoll_ctl epoll fd true g.writing d w) (sym same)
              (same_watch fd true g.writing l.conn.channel l.world.world w epoll_same g.watched);
      })
      | inr g ↦ inr (record {
        forgotten = g.forgotten;
        ended =
            subst (λ d. Watches kernel.epoll_ctl epoll fd false false d w) (sym same)
              (same_watch fd false false l.conn.channel l.world.world w epoll_same g.ended);
        shut = ap (λ f. f fd) open_same ∙ g.shut;
      })
    ];
    holds = λ x. ((h.holds x).0, life ∙ (h.holds x).1);
  }

  pub start-Continues :
      (s : TcpServer W) (fd p : ℕ) (l : Link (TcpServer W))
      → Lives s fd p l
      → Going fd p l
      → Continues s fd p (start_writing (served_kernel kernel) l)
  unfolding start_writing relinked
  start-Continues s fd p l h g =
      let (c, v, e, watches, apart) =
        enable_writing-Updated kernel.epoll_ctl epoll fd true g.writing l.conn.channel l.world.world
          g.watched in
      (
        record { conn = record (l.conn) { channel = c }; world = record (l.world) { world = v } },
        ap (relinked (served_kernel kernel) l)
            (enable_writing-lifted kernel l.world l.conn.channel ∙ ap (lifted kernel l.world) e),
        record {
          valid = h.valid;
          keeps = moved fd p s l.world v h.keeps apart.others;
          is = inl (record { found = g.found; alive = g.alive; writing = true; watched = watches });
          holds = h.holds;
        },
      )

  pub stop-Continues :
      (s : TcpServer W) (fd p : ℕ) (l : Link (TcpServer W))
      → Lives s fd p l
      → Continues s fd p (stop_writing (served_kernel kernel) l)
  unfolding stop_writing relinked
  stop-Continues s fd p l h = elim h.is [
    | inl g ↦
        let (c, v, e, watches, apart) =
          disable_writing-Updated kernel.epoll_ctl epoll fd true g.writing l.conn.channel
            l.world.world g.watched in
        (
          record { conn = record (l.conn) { channel = c }; world = record (l.world) { world = v } },
          ap (relinked (served_kernel kernel) l)
              (disable_writing-lifted kernel l.world l.conn.channel ∙ ap (lifted kernel l.world) e),
          record {
            valid = h.valid;
            keeps = moved fd p s l.world v h.keeps apart.others;
            is =
                inl
                  (record { found = g.found; alive = g.alive; writing = false; watched = watches });
            holds = h.holds;
          },
        )
    | inr g ↦ (
      record l { conn = record (l.conn) { channel = record (l.conn.channel) { events = 0 } } },
      ap (relinked (served_kernel kernel) l) (
          disable_writing-ended (served_kernel kernel).epoll_ctl l.conn.channel l.world
            g.ended.events g.ended.in_epoll),
      record {
        valid = h.valid;
        keeps = h.keeps;
        is = inr (record {
          forgotten = g.forgotten;
          ended = record {
            same_fd = g.ended.same_fd;
            events = refl;
            in_epoll = g.ended.in_epoll;
            kernel = g.ended.kernel;
          };
          shut = g.shut;
        });
        holds = h.holds;
      },
    )
  ]

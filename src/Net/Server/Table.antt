-- ===== src/Net/Server/Table.antt =====
-- src/net/TcpServer.cpp: the table of connections and epoll, as connections come and go.
use user_center.Base.{
  ℕ, ◌<◌, ◌≤◌, ◌≡◌, ◌≢◌, ◌∙◌, inl, inr, refl, sym, ap, List, [], ◌∷◌, none, some, Bool, true, false,
  subst, arith, if◌then◌else◌, if_true, if_false, ◌==◌, Bool-cases,
}
use user_center.Buffer.Memory.{IsValid}
use user_center.Net.Channel.Masks.{EpollLaws}
use user_center.Net.Channel.Interest.{Watches}
use user_center.Net.Connection.{Kernel, Connection}
use user_center.Net.Server.{TcpServer, find, erase, put, store}

pub find-erase_self : (fd : ℕ) (t : List (ℕ × ℕ)) → find fd (erase fd t) ≡ none
unfolding find erase
find-erase_self fd [] = refl
find-erase_self fd ((k, p) ∷ rest) = elim (Bool-cases (fd == k)) [
  | inl same ↦ ap (find fd) (if_true (erase fd rest) _ same) ∙ find-erase_self fd rest
  | inr other ↦
      ap (find fd) (if_false (erase fd rest) ((k, p) ∷ erase fd rest) other)
      ∙ if_false (some p) _ other
      ∙ find-erase_self fd rest
]

pub find-erase_other : (fd j : ℕ) (t : List (ℕ × ℕ)) → j ≢ fd → find j (erase fd t) ≡ find j t
unfolding find erase
find-erase_other fd j [] h = refl
find-erase_other fd j ((k, p) ∷ rest) h = elim (Bool-cases (fd == k)) [
  | inl same ↦
      let other : (j == k) ≡ false = ground (arith, h) in
      ap (find j) (if_true (erase fd rest) _ same)
      ∙ find-erase_other fd j rest h
      ∙ sym (if_false (some p) (find j rest) other)
  | inr other ↦
      ap (find j) (if_false (erase fd rest) ((k, p) ∷ erase fd rest) other)
      ∙ ap (λ o. if j == k then some p else o) (find-erase_other fd j rest h)
]

pub find-put_self : (fd p : ℕ) (t : List (ℕ × ℕ)) → find fd (put fd p t) ≡ some p
unfolding find put
find-put_self fd p t = if_true {b = fd == fd} (some p) _ (ground arith)

pub find-put_other : (fd p j : ℕ) (t : List (ℕ × ℕ)) → j ≢ fd → find j (put fd p t) ≡ find j t
unfolding find put
find-put_other fd p j t h =
    if_false {b = j == fd} (some p) _ (ground (arith, h)) ∙ find-erase_other fd j t h

pub store_self : (p : ℕ) (c : Connection) (f : ℕ → Connection) → store p c f p ≡ c
unfolding store
store_self p c f = if_true {b = p == p} c _ (ground arith)

pub store_other : (p q : ℕ) (c : Connection) (f : ℕ → Connection) → q ≢ p → store p c f q ≡ f q
unfolding store
store_other p q c f h = if_false {b = q == p} c _ (ground (arith, h))

-- What close(2) documents for a descriptor that is not in epoll: the registrations stay.
pub record CloseLaws {W : Type 0} (kernel : Kernel W) (epoll : EpollLaws kernel.epoll_ctl)
    : Type 0 where
  pub close_law :
      (fd : ℕ) (w : W)
      → epoll.registered w fd ≡ none
      → epoll.registered (kernel.close fd w) ≡ epoll.registered w

module _ {W : Type 0} (kernel : Kernel W) (epoll : EpollLaws kernel.epoll_ctl) where
  open epoll use {registered}

  -- A connection of the table: made, on its descriptor, and waiting for reads in epoll.
  pub record IsServed (fd p : ℕ) (s : TcpServer W) : Type 0 where
    pub made : p < s.created
    pub writing : Bool
    pub watched : Watches kernel.epoll_ctl epoll fd true writing (s.objects p).channel s.world
    pub valid : IsValid (s.objects p).input
    pub alive : (s.objects p).alive ≡ true

  pub record Serves (s : TcpServer W) : Type 0 where
    pub each : (fd p : ℕ) → find fd s.connections ≡ some p → IsServed fd p s

  -- The objects of two descriptors are two objects.
  pub apart_objects :
      (fd j p q : ℕ) (s : TcpServer W) → IsServed fd p s → IsServed j q s → j ≢ fd → q ≢ p
  apart_objects fd j p q s a b other same =
      other (sym b.watched.same_fd ∙ ap (λ r. (s.objects r).channel.fd) same ∙ a.watched.same_fd)

  -- A served connection is still served when another descriptor, and another object, have changed.
  pub still-IsServed :
      (fd j p q : ℕ) (s t : TcpServer W)
      → s.created ≤ t.created
      → t.objects q ≡ s.objects q
      → ((i : ℕ) → i ≢ fd → registered t.world i ≡ registered s.world i)
      → j ≢ fd
      → IsServed j q s
      → IsServed j q t
  still-IsServed fd j p q s t more same apart other b = record {
    made = let m = b.made in omega arith;
    writing = b.writing;
    watched = record {
      same_fd = ap (λ c. c.channel.fd) same ∙ b.watched.same_fd;
      events = ap (λ c. c.channel.events) same ∙ b.watched.events;
      in_epoll = ap (λ c. c.channel.in_epoll) same ∙ b.watched.in_epoll;
      kernel = apart j other ∙ b.watched.kernel;
    };
    valid = subst (λ c. IsValid c.input) (sym same) b.valid;
    alive = ap (λ c. c.alive) same ∙ b.alive;
  }

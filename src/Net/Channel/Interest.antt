-- ===== src/Net/Channel/Interest.antt =====
-- src/net/Channel.cpp and src/net/EpollPoller.cpp: a channel and epoll agree on what the descriptor
-- waits for, and no call of epoll_ctl is one that the kernel refuses.
use Prim.Native.Nat.{bit_and, bit_or}
use user_center.Base.{
  ℕ, ◌≡◌, ◌≢◌, ◌∙◌, refl, sym, ap, subst, Option, some, Bool, true, false, ◌||◌, inl, inr, ◌==◌,
  if_true, if_false,
}
use user_center.Net.Channel.{
  Channel, read_event, write_event, complement, CtlOp, ctl_add, ctl_mod, ctl_del, update, marked,
  remove_channel, update_channel, enable_reading, disable_reading, enable_writing, disable_writing,
  disable_all, remove, end_channel, is_none_event,
}
use user_center.Net.Channel.Masks.{
  EpollLaws, mask, held, or_read, or_write, and_read, and_write, held-cases,
}

module _ {W : Type 0} (epoll_ctl : CtlOp → ℕ → ℕ → W → Option W) (laws : EpollLaws epoll_ctl) where
  open laws use {registered, written}

  -- The mask of the channel of `fd` has `r` and `w`, and what the flag says and epoll holds is `a` and `b`.
  pub record Stands (fd : ℕ) (r w a b : Bool) (c : Channel) (k : W) : Type 0 where
    pub same_fd : c.fd ≡ fd
    pub events : c.events ≡ mask r w
    pub in_epoll : c.in_epoll ≡ (a || b)
    pub kernel : registered k fd ≡ held a b

  -- The channel of `fd` waits for reading or writing, and epoll holds the same.
  abbrev pub Watches : ℕ → Bool → Bool → Channel → W → Type 0
  Watches fd r w c k = Stands fd r w r w c k

  -- Nothing but `fd` has changed.
  pub record Apart (fd : ℕ) (k v : W) : Type 0 where
    pub silent : written v ≡ written k
    pub others : (j : ℕ) → j ≢ fd → registered v j ≡ registered k j

  abbrev pub Updated : ℕ → Bool → Bool → W → Option (Channel × W) → Type 0
  Updated fd r w k o =
      (c : Channel) × (v : W) × (o ≡ some (c, v)) × Watches fd r w c v × Apart fd k v

  -- What update_channel does in its four cases.
  module _ (c : Channel) (k : W) where
    adds :
        (v : W)
        → (c.events == 0) ≡ false
        → c.in_epoll ≡ false
        → epoll_ctl ctl_add c.fd c.events k ≡ some v
        → update_channel epoll_ctl c k ≡ some (record c { in_epoll = true }, v)
    unfolding update_channel update marked is_none_event
    adds v e out told = if_false _ _ e ∙ if_false _ _ out ∙ ap (marked epoll_ctl true c) told

    changes :
        (v : W)
        → (c.events == 0) ≡ false
        → c.in_epoll ≡ true
        → epoll_ctl ctl_mod c.fd c.events k ≡ some v
        → update_channel epoll_ctl c k ≡ some (c, v)
    unfolding update_channel update marked is_none_event
    changes v e there told =
        if_false _ _ e ∙ if_true _ _ there ∙ ap (marked epoll_ctl c.in_epoll c) told

    removes :
        (v : W)
        → (c.events == 0) ≡ true
        → c.in_epoll ≡ true
        → epoll_ctl ctl_del c.fd c.events k ≡ some v
        → update_channel epoll_ctl c k ≡ some (record c { in_epoll = false }, v)
    unfolding update_channel remove_channel update marked is_none_event
    removes v e there told =
        if_true _ _ e ∙ if_true _ _ there ∙ if_true _ _ there ∙ ap (marked epoll_ctl false c) told

    leaves :
        (c.events == 0) ≡ true → c.in_epoll ≡ false → update_channel epoll_ctl c k ≡ some (c, k)
    unfolding update_channel is_none_event
    leaves e out = if_true _ _ e ∙ if_false _ _ out

  -- One update from an old interest to a new one: epoll is told to add, change or remove the
  -- descriptor, or nothing, and never what it would refuse.
  update_lem :
      (fd ev rev : ℕ) (b : Bool) (r w r' w' : Bool) (k : W)
      → ev ≡ mask r' w'
      → b ≡ (r || w)
      → registered k fd ≡ held r w
      → Updated fd r' w' k (
          update_channel epoll_ctl (record { fd = fd; events = ev; revents = rev; in_epoll = b }) k)
  unfolding update_channel remove_channel update marked is_none_event
  update_lem fd ev rev b r w r' w' k e eb h = elim (held-cases r w) [
    | inl (was, nothing, _) ↦ elim (held-cases r' w') [
      | inl (now, idle, zero_mask) ↦ (
        record { fd = fd; events = ev; revents = rev; in_epoll = b },
        k,
        leaves _ k (rw (e, zero_mask) refl) (eb ∙ was),
        record {
          same_fd = refl;
          events = e;
          in_epoll = eb ∙ was ∙ sym now;
          kernel = h ∙ nothing ∙ sym idle;
        },
        record { silent = refl; others = λ j other. refl },
      )
      | inr (now, watched, some_mask) ↦
          let (v, told, there, silent, others) = laws.add_law fd ev k (h ∙ nothing) in
          (
            record { fd = fd; events = ev; revents = rev; in_epoll = true },
            v,
            adds _ k v (rw e some_mask) (eb ∙ was) told,
            record {
              same_fd = refl;
              events = e;
              in_epoll = sym now;
              kernel = there ∙ ap (λ m. some m) e ∙ sym watched;
            },
            record { silent = silent; others = others },
          )
    ]
    | inr (was, something, _) ↦ elim (held-cases r' w') [
      | inl (now, idle, zero_mask) ↦
          let (v, told, there, silent, others) = laws.del_law fd ev (mask r w) k (h ∙ something) in
          (
            record { fd = fd; events = ev; revents = rev; in_epoll = false },
            v,
            removes _ k v (rw (e, zero_mask) refl) (eb ∙ was) told,
            record { same_fd = refl; events = e; in_epoll = sym now; kernel = there ∙ sym idle },
            record { silent = silent; others = others },
          )
      | inr (now, watched, some_mask) ↦
          let (v, told, there, silent, others) = laws.mod_law fd ev (mask r w) k (h ∙ something) in
          (
            record { fd = fd; events = ev; revents = rev; in_epoll = b },
            v,
            changes _ k v (rw e some_mask) (eb ∙ was) told,
            record {
              same_fd = refl;
              events = e;
              in_epoll = eb ∙ was ∙ sym now;
              kernel = there ∙ ap (λ m. some m) e ∙ sym watched;
            },
            record { silent = silent; others = others },
          )
    ]
  ]

  -- Each call takes a watched channel to the interest that it says, and epoll with it.
  module _ {a b : Bool} (fd : ℕ) (r w : Bool) (c : Channel) (k : W)
      (h : Stands fd r w a b c k) where
    updated :
        (ev : ℕ) (r' w' : Bool)
        → ev ≡ mask r' w'
        → Updated fd r' w' k (update_channel epoll_ctl (record c { events = ev }) k)
    updated ev r' w' e =
        subst (λ n. Updated n r' w' k (update_channel epoll_ctl (record c { events = ev }) k))
          h.same_fd
          (update_lem c.fd ev c.revents c.in_epoll a b r' w' k e h.in_epoll
            (ap (λ n. registered k n) h.same_fd ∙ h.kernel))

    pub enable_reading-Updated : Updated fd true w k (enable_reading epoll_ctl c k)
    unfolding enable_reading
    enable_reading-Updated = updated _ true w (ap (λ n. bit_or n read_event) h.events ∙ or_read r w)

    pub disable_reading-Updated : Updated fd false w k (disable_reading epoll_ctl c k)
    unfolding disable_reading
    disable_reading-Updated =
        updated _ false w (ap (λ n. bit_and n (complement read_event)) h.events ∙ and_read r w)

    pub enable_writing-Updated : Updated fd r true k (enable_writing epoll_ctl c k)
    unfolding enable_writing
    enable_writing-Updated =
        updated _ r true (ap (λ n. bit_or n write_event) h.events ∙ or_write r w)

    pub disable_writing-Updated : Updated fd r false k (disable_writing epoll_ctl c k)
    unfolding disable_writing
    disable_writing-Updated =
        updated _ r false (ap (λ n. bit_and n (complement write_event)) h.events ∙ and_write r w)

    -- The flag and epoll forget the descriptor, the mask stays.
    pub remove-Stands :
        (d : Channel) × (v : W) × (remove epoll_ctl c k ≡ some (d, v))
        × Stands fd r w false false d v
        × Apart fd k v
    unfolding remove remove_channel update marked
    remove-Stands = elim (held-cases a b) [
      | inl (was, nothing, _) ↦ (
        c,
        k,
        if_false _ _ (h.in_epoll ∙ was),
        record {
          same_fd = h.same_fd;
          events = h.events;
          in_epoll = h.in_epoll ∙ was;
          kernel = h.kernel ∙ nothing;
        },
        record { silent = refl; others = λ j other. refl },
      )
      | inr (was, something, _) ↦
          let at : registered k c.fd ≡ registered k fd = ap (registered k) h.same_fd in
          let (v, told, there, silent, others) =
            laws.del_law c.fd c.events (mask a b) k (at ∙ h.kernel ∙ something) in
          (
            record c { in_epoll = false },
            v,
            if_true _ _ (h.in_epoll ∙ was)
                ∙ if_true _ _ (h.in_epoll ∙ was)
                ∙ ap (marked epoll_ctl false c) told,
            record {
              same_fd = h.same_fd;
              events = h.events;
              in_epoll = refl;
              kernel = ap (registered v) (sym h.same_fd) ∙ there;
            },
            record { silent = silent; others = λ j other. others j (λ x. other (x ∙ h.same_fd)) },
          )
    ]

    pub disable_all-Updated : Updated fd false false k (disable_all epoll_ctl c k)
    unfolding disable_all
    disable_all-Updated = updated 0 false false refl

    -- Nothing is left to remove after disableAll.
    pub end_channel-Updated : Updated fd false false k (end_channel epoll_ctl c k)
    unfolding end_channel remove
    end_channel-Updated =
        let (d, v, e, idle, apart) = disable_all-Updated in
        (d, v, rw (end_channel, e, remove, idle.in_epoll) refl, idle, apart)

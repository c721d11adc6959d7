-- ===== src/Net/Channel/Masks.antt =====
-- include/net/Channel.h: the event masks, and what epoll documents of the descriptors that it holds.
use Prim.Native.Nat.{bit_and, bit_or}
use user_center.Base.{
  Bytes, ℕ, ◌≡◌, ◌≢◌, refl, Option, none, some, Bool, true, false, ◌||◌, ◌⊎◌, inl, inr, ◌==◌,
}
use user_center.Net.Channel.{
  Channel, read_event, write_event, complement, CtlOp, ctl_add, ctl_mod, ctl_del, is_writing,
}

-- What epoll documents: a descriptor is added once, and only one that is there is changed or removed.
-- `written` is what went out through each descriptor, which epoll does not touch.
pub record EpollLaws {W : Type 0} (epoll_ctl : CtlOp → ℕ → ℕ → W → Option W) : Type 0 where
  pub registered : W → ℕ → Option ℕ
  pub written : W → ℕ → Bytes
  pub add_law :
      (fd ev : ℕ) (w : W)
      → registered w fd ≡ none
      → (v : W) × (epoll_ctl ctl_add fd ev w ≡ some v)
        × (registered v fd ≡ some ev)
        × (written v ≡ written w)
        × ((j : ℕ) → j ≢ fd → registered v j ≡ registered w j)
  pub mod_law :
      (fd ev old : ℕ) (w : W)
      → registered w fd ≡ some old
      → (v : W) × (epoll_ctl ctl_mod fd ev w ≡ some v)
        × (registered v fd ≡ some ev)
        × (written v ≡ written w)
        × ((j : ℕ) → j ≢ fd → registered v j ≡ registered w j)
  pub del_law :
      (fd ev old : ℕ) (w : W)
      → registered w fd ≡ some old
      → (v : W) × (epoll_ctl ctl_del fd ev w ≡ some v)
        × (registered v fd ≡ none)
        × (written v ≡ written w)
        × ((j : ℕ) → j ≢ fd → registered v j ≡ registered w j)

-- The event mask of an interest in reading and in writing, and what epoll holds for it.
abbrev pub mask : Bool → Bool → ℕ
mask true true = 0x2007
mask true false = 0x2003
mask false true = 0x4
mask false false = 0

abbrev pub held : Bool → Bool → Option ℕ
held false false = none
held r w = some (mask r w)

pub or_read : (r w : Bool) → bit_or (mask r w) read_event ≡ mask true w
or_read true true = refl
or_read true false = refl
or_read false true = refl
or_read false false = refl

pub or_write : (r w : Bool) → bit_or (mask r w) write_event ≡ mask r true
or_write true true = refl
or_write true false = refl
or_write false true = refl
or_write false false = refl

pub and_read : (r w : Bool) → bit_and (mask r w) (complement read_event) ≡ mask false w
and_read true true = refl
and_read true false = refl
and_read false true = refl
and_read false false = refl

pub and_write : (r w : Bool) → bit_and (mask r w) (complement write_event) ≡ mask r false
and_write true true = refl
and_write true false = refl
and_write false true = refl
and_write false false = refl

pub is_writing-mask : (c : Channel) (r w : Bool) → c.events ≡ mask r w → is_writing c ≡ w
unfolding is_writing
is_writing-mask c true true e = rw e
is_writing-mask c true false e = rw e
is_writing-mask c false true e = rw e
is_writing-mask c false false e = rw e

-- Nothing is waited for, or something is.
pub held-cases :
    (r w : Bool)
    → (((r || w) ≡ false) × (held r w ≡ none) × (mask r w ≡ 0))
      ⊎ (((r || w) ≡ true) × (held r w ≡ some (mask r w)) × ((mask r w == 0) ≡ false))
held-cases true true = inr (refl, refl, refl)
held-cases true false = inr (refl, refl, refl)
held-cases false true = inr (refl, refl, refl)
held-cases false false = inl (refl, refl, refl)

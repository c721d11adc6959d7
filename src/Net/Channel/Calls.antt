-- ===== src/Net/Channel/Calls.antt =====
-- src/net/Channel.cpp: any sequence of calls on one channel.
use user_center.Base.{ℕ, ◌≡◌, ◌∙◌, refl, List, [], ◌∷◌, Option, none, some, Bool, true, false}
use user_center.Net.Channel.{
  Channel, CtlOp, enable_reading, disable_reading, enable_writing, disable_writing, disable_all,
  remove, end_channel,
}
use user_center.Net.Channel.Masks.{EpollLaws}
use user_center.Net.Channel.Interest.{
  Stands, Apart, remove-Stands, enable_reading-Updated, disable_reading-Updated,
  enable_writing-Updated, disable_writing-Updated, disable_all-Updated, end_channel-Updated,
}

pub data Call : Type 0 where
  reading_on reading_off writing_on writing_off all_off removes ends : Call

-- What the channel is to wait for, reads and writes, and what epoll is to hold of it.
pub record Interest : Type 0 where
  pub wanted : Bool × Bool
  pub told : Bool × Bool

abbrev both : Bool × Bool → Interest
both i = record { wanted = i; told = i }

-- The interest after a call: epoll is told of all of it, but `remove` alone makes it forget the
-- descriptor while the mask stays.
abbrev pub next_interest : Call → Interest → Interest
next_interest reading_on i = both (true, i.wanted.1)
next_interest reading_off i = both (false, i.wanted.1)
next_interest writing_on i = both (i.wanted.0, true)
next_interest writing_off i = both (i.wanted.0, false)
next_interest all_off i = both (false, false)
next_interest removes i = record { wanted = i.wanted; told = (false, false) }
next_interest ends i = both (false, false)

abbrev pub interest : List Call → Interest → Interest
interest [] i = i
interest (x ∷ xs) i = interest xs (next_interest x i)

module _ {W : Type 0} (epoll_ctl : CtlOp → ℕ → ℕ → W → Option W) where
  unfoldable pub call : Call → Channel → W → Option (Channel × W)
  call reading_on = enable_reading epoll_ctl
  call reading_off = disable_reading epoll_ctl
  call writing_on = enable_writing epoll_ctl
  call writing_off = disable_writing epoll_ctl
  call all_off = disable_all epoll_ctl
  call removes = remove epoll_ctl
  call ends = end_channel epoll_ctl

  unfoldable pub calls : List Call → Channel → W → Option (Channel × W)
  unfolding call
  calls [] c k = some (c, k)
  calls (x ∷ xs) c k = elim (call x c k) [ none ↦ none | some (d, v) ↦ calls xs d v ]

module _ {W : Type 0} (epoll_ctl : CtlOp → ℕ → ℕ → W → Option W) (laws : EpollLaws epoll_ctl) where
  abbrev pub Follows : ℕ → Interest → Channel → W → Type 0
  Follows fd i c k = Stands epoll_ctl laws fd i.wanted.0 i.wanted.1 i.told.0 i.told.1 c k

  -- A call goes through, and leaves the interest that it says.
  abbrev pub Leaves : ℕ → Interest → W → Option (Channel × W) → Type 0
  Leaves fd i k o =
      (c : Channel) × (v : W) × (o ≡ some (c, v)) × Follows fd i c v × Apart epoll_ctl laws fd k v

  call-Leaves :
      (x : Call) (fd : ℕ) (i : Interest) (c : Channel) (k : W)
      → Follows fd i c k
      → Leaves fd (next_interest x i) k (call epoll_ctl x c k)
  unfolding call
  call-Leaves reading_on fd i c k h =
      enable_reading-Updated epoll_ctl laws fd i.wanted.0 i.wanted.1 c k h
  call-Leaves reading_off fd i c k h =
      disable_reading-Updated epoll_ctl laws fd i.wanted.0 i.wanted.1 c k h
  call-Leaves writing_on fd i c k h =
      enable_writing-Updated epoll_ctl laws fd i.wanted.0 i.wanted.1 c k h
  call-Leaves writing_off fd i c k h =
      disable_writing-Updated epoll_ctl laws fd i.wanted.0 i.wanted.1 c k h
  call-Leaves all_off fd i c k h = disable_all-Updated epoll_ctl laws fd i.wanted.0 i.wanted.1 c k h
  call-Leaves removes fd i c k h = remove-Stands epoll_ctl laws fd i.wanted.0 i.wanted.1 c k h
  call-Leaves ends fd i c k h = end_channel-Updated epoll_ctl laws fd i.wanted.0 i.wanted.1 c k h

  -- While epoll works as documented: any sequence of calls on a channel, remove on its own among them,
  -- goes through, so that the process is never aborted by an epoll_ctl that fails; afterwards the event
  -- mask of the channel, its flag and what epoll holds for the descriptor all stand for the interest
  -- that the calls left, and nothing is written or changes for other descriptors.
  pub calls-Updated :
      (xs : List Call) (fd : ℕ) (i : Interest) (c : Channel) (k : W)
      → Follows fd i c k
      → Leaves fd (interest xs i) k (calls epoll_ctl xs c k)
  unfolding calls
  calls-Updated [] fd i c k h = (c, k, refl, h, record { silent = refl; others = λ j other. refl })
  calls-Updated (x ∷ xs) fd i c k h =
      let (d, v, e, watched, apart) = call-Leaves x fd i c k h in
      let (d', v', e', watched', apart') = calls-Updated xs fd (next_interest x i) d v watched in
      (
        d',
        v',
        rw (calls, e) e',
        watched',
        record {
          silent = apart'.silent ∙ apart.silent;
          others = λ j other. apart'.others j other ∙ apart.others j other;
        },
      )

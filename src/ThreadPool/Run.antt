-- ===== src/ThreadPool/Run.antt =====
-- src/threadpool/ThreadPool.cpp: what happens to the tasks over any interleaving of submissions,
-- workers and the start of the cleanup.
use user_center.Base.{
  ℕ, ◌≡◌, ◌≤◌, ◌<◌, List, [], ◌∷◌, ◌++◌, Bool, true, false, length, length-append, append-nil,
  append_assoc, if◌then◌else◌, refl, ap, sym, ◌∙◌, subst, ◌⊎◌, inl, inr, arith,
}
use user_center.ThreadPool.{
  TaskPool, Submitted, stopped, queue_full, queued, is_full, submit, Turn, waits, exits, runs,
  next_task, worker_turn, begin_cleanup, end_cleanup,
}

-- A history: the pool, the tasks that were accepted and the tasks that workers took, each in order.
pub data History {T : Type 0} (limit : ℕ) : TaskPool T → List T → List T → Type 0 where
  start : History limit (record { tasks = []; stop = false; max_queue_size = limit }) [] []
  accept :
      (task : T) (p q : TaskPool T) (accepted taken : List T)
      → History limit p accepted taken
      → submit task p ≡ queued q
      → History limit q (accepted ++ (task ∷ [])) taken
  take_task :
      (task : T) (p q : TaskPool T) (accepted taken : List T)
      → History limit p accepted taken
      → worker_turn p ≡ runs task q
      → History limit q accepted (taken ++ (task ∷ []))
  cleanup :
      (p : TaskPool T) (accepted taken : List T)
      → History limit p accepted taken
      → History limit (begin_cleanup p) accepted taken

-- Where the tasks are, and how many may wait.
abbrev pub IsFifo : {T : Type 0} → ℕ → TaskPool T → List T → List T → Type 0
IsFifo limit p accepted taken =
    (accepted ≡ taken ++ p.tasks)
    × (p.max_queue_size ≡ limit)
    × ((limit ≡ 0) ⊎ (length p.tasks ≤ limit))

abbrev After : {T : Type 0} → ℕ → T → List T → List T → Submitted T → Type 0
After limit task accepted taken stopped = Unit {0}
After limit task accepted taken queue_full = Unit {0}
After limit task accepted taken (queued q) = IsFifo limit q (accepted ++ (task ∷ [])) taken

guards-After :
    {T : Type 0} (limit : ℕ) (task : T) (q : TaskPool T) (accepted taken : List T) (s f : Bool)
    → (f ≡ false → IsFifo limit q (accepted ++ (task ∷ [])) taken)
    → After limit task accepted taken (if s then stopped else if f then queue_full else queued q)
guards-After limit task q accepted taken true f h = tt
guards-After limit task q accepted taken false true h = tt
guards-After limit task q accepted taken false false h = h refl

room :
    {T : Type 0} (p : TaskPool T) (limit : ℕ)
    → p.max_queue_size ≡ limit
    → is_full p ≡ false
    → (limit ≡ 0) ⊎ (length p.tasks < limit)
unfolding is_full
room p limit same e = ground (arith, same)

room_after :
    {T : Type 0} (ts : List T) (task : T) (limit : ℕ)
    → (limit ≡ 0) ⊎ (length ts < limit)
    → (limit ≡ 0) ⊎ (length (ts ++ (task ∷ [])) ≤ limit)
room_after ts task limit (inl free) = inl free
room_after ts task limit (inr h) = inr (omega (arith, length-append ts (task ∷ [])))

room_before :
    {T : Type 0} (ts : List T) (task : T) (rest : List T) (limit : ℕ)
    → ts ≡ task ∷ rest
    → (limit ≡ 0) ⊎ (length ts ≤ limit)
    → (limit ≡ 0) ⊎ (length rest ≤ limit)
room_before ts task rest limit e (inl free) = inl free
room_before ts task rest limit e (inr h) = inr (omega (arith, ap length e))

submit-After :
    {T : Type 0} (limit : ℕ) (task : T) (p : TaskPool T) (accepted taken : List T)
    → IsFifo limit p accepted taken
    → After limit task accepted taken (submit task p)
unfolding submit
submit-After limit task p accepted taken (order, same, bound) =
    guards-After limit task _ accepted taken p.stop (is_full p) (λ e. (
      ap (λ ts. ts ++ (task ∷ [])) order ∙ append_assoc taken p.tasks (task ∷ []),
      same,
      room_after p.tasks task limit (room p limit same e),
    ))

-- What a worker's turn leaves: the next task in order, or nothing to do; it exits only when stopped.
abbrev Turned : {T : Type 0} → ℕ → TaskPool T → List T → List T → Turn T → Type 0
Turned limit p accepted taken waits = (p.tasks ≡ []) × (p.stop ≡ false)
Turned limit p accepted taken exits = (p.tasks ≡ []) × (p.stop ≡ true)
Turned limit p accepted taken (runs task q) = IsFifo limit q accepted (taken ++ (task ∷ []))

idle-Turned :
    {T : Type 0} (limit : ℕ) (p : TaskPool T) (accepted taken : List T) (s : Bool)
    → p.tasks ≡ []
    → p.stop ≡ s
    → Turned limit p accepted taken (if s then exits else waits)
idle-Turned limit p accepted taken true e h = (e, h)
idle-Turned limit p accepted taken false e h = (e, h)

next-Turned :
    {T : Type 0} (limit : ℕ) (p : TaskPool T) (accepted taken ts : List T)
    → p.tasks ≡ ts
    → IsFifo limit p accepted taken
    → Turned limit p accepted taken (next_task ts p)
unfolding next_task
next-Turned limit p accepted taken [] e v = idle-Turned limit p accepted taken p.stop e refl
next-Turned limit p accepted taken (task ∷ rest) e (order, same, bound) = (
  order ∙ ap (λ ts. taken ++ ts) e ∙ sym (append_assoc taken (task ∷ []) rest),
  same,
  room_before p.tasks task rest limit e bound,
)

-- Whatever the interleaving: the tasks that workers took, followed by those that wait, are the
-- accepted ones in the order of their submission, and no more wait than the queue's limit allows.
pub History-IsFifo :
    {T : Type 0} (limit : ℕ) (p : TaskPool T) (accepted taken : List T)
    → History limit p accepted taken
    → IsFifo limit p accepted taken
unfolding worker_turn next_task begin_cleanup
History-IsFifo limit _ _ _ start = (refl, refl, inr (omega arith))
History-IsFifo limit _ _ _ (accept task p q accepted taken h e) =
    subst (After limit task accepted taken) e
      (submit-After limit task p accepted taken (History-IsFifo limit p accepted taken h))
History-IsFifo limit _ _ _ (take_task task p q accepted taken h e) =
    subst (Turned limit p accepted taken) e
      (next-Turned limit p accepted taken p.tasks refl (History-IsFifo limit p accepted taken h))
History-IsFifo limit _ _ _ (cleanup p accepted taken h) = History-IsFifo limit p accepted taken h

-- A worker leaves its loop only after the cleanup began and when every accepted task was taken, so
-- that the cleanup finds no task to drop; and from then on `Submit` refuses.
pub exit-all_taken :
    {T : Type 0} (limit : ℕ) (p : TaskPool T) (accepted taken : List T) (task : T)
    → History limit p accepted taken
    → worker_turn p ≡ exits
    → (accepted ≡ taken) × (end_cleanup p ≡ p) × (submit task p ≡ stopped)
unfolding submit end_cleanup worker_turn
exit-all_taken limit p accepted taken task h e =
    let v = History-IsFifo limit p accepted taken h in
    let (order, same, bound) = v in
    let (none_left, done) =
      subst (Turned limit p accepted taken) e (next-Turned limit p accepted taken p.tasks refl v) in
    (
      order ∙ ap (λ ts. taken ++ ts) none_left ∙ append-nil taken,
      ap (λ ts. record p { tasks = ts }) (sym none_left),
      ap
          (λ b.
            if b
            then stopped
            else if is_full p
            then queue_full
            else queued (record p { tasks = p.tasks ++ (task ∷ []) }))
          done,
    )

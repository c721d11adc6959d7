-- ===== src/ThreadPool.antt =====
-- include/threadpool/ThreadPool.h and src/threadpool/ThreadPool.cpp: the queue of tasks, what `Submit`
-- puts there, what a worker takes under the mutex, and the end. A task is a value of `T`; running it
-- happens outside the mutex and is the client's affair.
pub mod Run
use user_center.Base.{
  ℕ, ◌==◌, List, [], ◌∷◌, ◌++◌, Bool, true, false, ltb, leb, length, if◌then◌else◌, ◌&&◌,
}

pub record TaskPool (T : Type 0) : Type 0 where
  pub tasks : List T
  pub stop : Bool
  pub max_queue_size : ℕ

-- `config_.thread_count` of the constructor; `cores` is `hardware_concurrency()`, 0 if unknown.
unfoldable pub thread_count : ℕ → ℕ → ℕ
thread_count configured cores =
    if configured == 0 then if cores == 0 then 1 else cores else configured

-- The two exceptions of `Submit`, or the pool with the task queued.
pub data Submitted (T : Type 0) : Type 0 where
  stopped : Submitted T
  queue_full : Submitted T
  queued : TaskPool T → Submitted T

-- `max_queue_size > 0 && tasks_.size() >= max_queue_size`
unfoldable pub is_full : {T : Type 0} → TaskPool T → Bool
is_full p = ltb 0 p.max_queue_size && leb p.max_queue_size (length p.tasks)

unfoldable pub submit : {T : Type 0} → T → TaskPool T → Submitted T
unfolding is_full
submit task p =
    if p.stop
    then stopped
    else if is_full p
    then queue_full
    else queued (record p { tasks = p.tasks ++ (task ∷ []) })

-- One locked section of `WorkerLoop`: the worker waits, leaves the loop, or has a task to run.
pub data Turn (T : Type 0) : Type 0 where
  waits : Turn T
  exits : Turn T
  runs : T → TaskPool T → Turn T

unfoldable pub next_task : {T : Type 0} → List T → TaskPool T → Turn T
next_task [] p = if p.stop then exits else waits
next_task (task ∷ rest) p = runs task (record p { tasks = rest })

unfoldable pub worker_turn : {T : Type 0} → TaskPool T → Turn T
unfolding next_task
worker_turn p = next_task p.tasks p

-- The first part of `Cleanup`; the second, after all workers are joined.
unfoldable pub begin_cleanup : {T : Type 0} → TaskPool T → TaskPool T
begin_cleanup p = record p { stop = true }

unfoldable pub end_cleanup : {T : Type 0} → TaskPool T → TaskPool T
end_cleanup p = record p { tasks = [] }

-- ===== src/Web/Thread/Worker.antt =====
-- web_server/thread/SafeQueue.hpp and WorkThread.hpp: a bounded queue between a thread that posts tasks
-- and a worker that handles them. The locks make each operation one step; a condition that is waited
-- for is a condition of the step.
use multi_process_server.Base.{
  ℕ, suc, ◌+◌, ◌≤◌, ◌<◌, ◌≡◌, arith, ltb, if◌then◌else◌, Bool, true, false, Option, none, some,
  List, [], ◌∷◌, ◌++◌, length,
}
pub mod Order
pub mod Stops

module _ (Task : Type 0) (is_terminate_task : Task → Bool) where
  -- `m_queue`, the tasks that `HandlerTask` has had, and whether `Run` is in its loop.
  pub record Worker : Type 0 where
    pub queue : List Task
    pub handled : List Task
    pub running : Bool

  abbrev pub started : Worker
  started = record { queue = []; handled = []; running = true }

  -- `PushBack`, where there is room.
  abbrev pub push_back : Task → Worker → Worker
  push_back t w = record w { queue = w.queue ++ t ∷ [] }

  -- `PopFront`, where there is a task.
  abbrev pub pop_front : List Task → Option (Task × List Task)
  pop_front [] = none
  pop_front (t ∷ ts) = some (t, ts)

  -- What the loop of `Run` does with the task that it pops.
  abbrev pub receive : Task → List Task → Worker → Worker
  receive t ts w =
      if is_terminate_task t
      then record w { queue = ts; running = false }
      else record w { queue = ts; handled = w.handled ++ t ∷ [] }

  -- One turn of the loop of `Run`; without a task it waits.
  unfoldable pub turn : Worker → Option Worker
  turn w =
      if w.running
      then elim (pop_front w.queue) [ none ↦ none | some (t, ts) ↦ some (receive t ts w) ]
      else none

  -- The states that the two threads reach step by step, of a queue of at most `max_size` tasks, with the
  -- tasks that have been posted, in order.
  pub data Reach (max_size : ℕ) : List Task → Worker → Type 0 where
    start : Reach max_size [] started
    posted :
        (ts : List Task) (t : Task) (w : Worker)
        → Reach max_size ts w
        → length w.queue < max_size
        → Reach max_size (ts ++ t ∷ []) (push_back t w)
    worked :
        (ts : List Task) (w w' : Worker)
        → Reach max_size ts w
        → turn w ≡ some w'
        → Reach max_size ts w'

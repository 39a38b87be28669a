-- ===== src/Web/Thread/Worker/Stops.antt =====
-- WorkThread.hpp: `Stop` ends the worker, behind the tasks that wait.
use multi_process_server.Base.{
  ℕ, suc, zero, ◌≡◌, sym, ap, ◌∙◌, if_then, if_else, ◌>>=◌, Bool, true, false, Option, some, List,
  [], ◌∷◌, ◌++◌, append_assoc, append-nil, length,
}
use multi_process_server.Web.Thread.Worker.{Worker, push_back, turn}
use multi_process_server.Web.Thread.Worker.Order.{NoneStop}

module _ (Task : Type 0) (is_terminate_task : Task → Bool) where
  -- So many turns of the loop one after another.
  abbrev pub turns : ℕ → Worker Task is_terminate_task → Option (Worker Task is_terminate_task)
  turns zero w = some w
  turns (suc n) w = turn Task is_terminate_task w >>= turns n

  abbrev loop : List Task → List Task → Worker Task is_terminate_task
  loop queue handled = record { queue = queue; handled = handled; running = true }

  turns-queue :
      (ts : List Task) (t : Task) (handled : List Task)
      → NoneStop Task is_terminate_task ts
      → is_terminate_task t ≡ true
      → turns (suc (length ts)) (loop (ts ++ t ∷ []) handled)
        ≡ some (record { queue = []; handled = handled ++ ts; running = false })
  unfolding turn
  turns-queue [] t handled go stop =
      ap some (if_then (is_terminate_task t) _ _ stop)
      ∙ ap (λ ts. some (record { queue = []; handled = ts; running = false }))
          (sym (append-nil handled))
  turns-queue (s ∷ ts) t handled (goes, go) stop =
      ap (turns (suc (length ts))) (if_else (is_terminate_task s) _ _ goes)
      ∙ turns-queue ts t (handled ++ s ∷ []) go stop
      ∙ ap (λ ts. some (record { queue = []; handled = ts; running = false }))
          (append_assoc handled (s ∷ []) ts)

  -- A worker in its loop, before which no task to stop waits, and to which one is posted: after as many
  -- turns as there are tasks then, all those that waited have been handled, in order, and it has left
  -- its loop.
  pub turns-stop :
      (w : Worker Task is_terminate_task) (t : Task)
      → w.running ≡ true
      → NoneStop Task is_terminate_task w.queue
      → is_terminate_task t ≡ true
      → turns (suc (length w.queue)) (push_back Task is_terminate_task t w)
        ≡ some (record { queue = []; handled = w.handled ++ w.queue; running = false })
  turns-stop w t running go stop =
      ap
        (λ r.
          turns (suc (length w.queue))
            (record { queue = w.queue ++ t ∷ []; handled = w.handled; running = r }))
        running
      ∙ turns-queue w.queue t w.handled go stop

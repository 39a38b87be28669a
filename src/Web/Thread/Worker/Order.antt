-- ===== src/Web/Thread/Worker/Order.antt =====
-- WorkThread.hpp: the tasks are handled in the order in which they are posted.
use multi_process_server.Base.{
  ℕ, suc, ◌≤◌, ◌≡◌, refl, sym, ap, subst, ◌∙◌, arith, if_elim, Bool, true, false, some, List, [],
  ◌∷◌, ◌++◌, append_assoc, length, length-append,
}
use mathlib.Core.Option.{some-injective}
use multi_process_server.Web.Thread.Worker.{
  Worker, push_back, receive, turn, Reach, start, posted, worked,
}

module _ (Task : Type 0) (is_terminate_task : Task → Bool) where
  -- None of the tasks stops the worker.
  abbrev pub NoneStop : List Task → Type 0
  NoneStop [] = Unit {0}
  NoneStop (t ∷ ts) = (is_terminate_task t ≡ false) × NoneStop ts

  -- A worker in its loop has handled the tasks in front of those that wait; one that has left it has
  -- handled those in front of the task that stopped it.
  pub data Ordered (all : List Task) (w : Worker Task is_terminate_task) : Type 0 where
    runs : w.running ≡ true → all ≡ w.handled ++ w.queue → NoneStop w.handled → Ordered all w
    stopped :
        (t : Task)
        → w.running ≡ false
        → is_terminate_task t ≡ true
        → all ≡ w.handled ++ t ∷ w.queue
        → NoneStop w.handled
        → Ordered all w

  last-NoneStop :
      (ts : List Task) (t : Task)
      → NoneStop ts
      → is_terminate_task t ≡ false
      → NoneStop (ts ++ t ∷ [])
  last-NoneStop [] t all e = (e, tt)
  last-NoneStop (s ∷ ts) t (f, all) e = (f, last-NoneStop ts t all e)

  push-Ordered :
      (all : List Task) (t : Task) (w : Worker Task is_terminate_task)
      → Ordered all w
      → Ordered (all ++ t ∷ []) (push_back Task is_terminate_task t w)
  push-Ordered all t w (runs r e n) =
      runs r (ap (λ xs. xs ++ t ∷ []) e ∙ append_assoc w.handled w.queue (t ∷ [])) n
  push-Ordered all t w (stopped s r k e n) =
      stopped s r k (ap (λ xs. xs ++ t ∷ []) e ∙ append_assoc w.handled (s ∷ w.queue) (t ∷ [])) n

  receive-Ordered :
      (all : List Task) (t : Task) (ts : List Task) (w : Worker Task is_terminate_task)
      → w.running ≡ true
      → all ≡ w.handled ++ t ∷ ts
      → NoneStop w.handled
      → Ordered all (receive Task is_terminate_task t ts w)
  receive-Ordered all t ts w r e n =
      if_elim (Ordered all) (is_terminate_task t) (λ k. stopped t refl k e n)
        (λ k. runs r (e ∙ sym (append_assoc w.handled (t ∷ []) ts)) (last-NoneStop w.handled t n k))

  turn-Ordered :
      (all : List Task) (queue handled : List Task) (running : Bool)
      (w' : Worker Task is_terminate_task)
      → Ordered all (record { queue = queue; handled = handled; running = running })
      → turn Task is_terminate_task (record { queue = queue; handled = handled; running = running })
        ≡ some w'
      → Ordered all w'
  unfolding turn
  turn-Ordered all queue handled false w' o e = absurd cc
  turn-Ordered all [] handled true w' o e = absurd cc
  turn-Ordered all (t ∷ ts) handled true w' (runs r same n) e =
      subst (Ordered all) (some-injective _ _ e) (
        receive-Ordered all t ts (record { queue = t ∷ ts; handled = handled; running = true }) refl
          same n)
  turn-Ordered all (t ∷ ts) handled true w' (stopped s r k same n) e = absurd cc

  -- In every state that the two threads reach, the tasks posted so far are those handled, behind them
  -- the one that stopped the worker if it has stopped, and those that wait, in this order; none of the
  -- handled ones stops a worker.
  pub Reach-Ordered :
      (max_size : ℕ) (all : List Task) (w : Worker Task is_terminate_task)
      → Reach Task is_terminate_task max_size all w
      → Ordered all w
  Reach-Ordered max_size _ _ start = runs refl refl tt
  Reach-Ordered max_size _ _ (posted ts t w r h) =
      push-Ordered ts t w (Reach-Ordered max_size ts w r)
  Reach-Ordered max_size _ _ (worked ts w w' r e) =
      turn-Ordered ts w.queue w.handled w.running w' (Reach-Ordered max_size ts w r) e

  turn-shorter :
      (queue handled : List Task) (running : Bool) (w' : Worker Task is_terminate_task)
      → turn Task is_terminate_task (record { queue = queue; handled = handled; running = running })
        ≡ some w'
      → length w'.queue ≤ length queue
  unfolding turn
  turn-shorter queue handled false w' e = absurd cc
  turn-shorter [] handled true w' e = absurd cc
  turn-shorter (t ∷ ts) handled true w' e =
      let P : Worker Task is_terminate_task → Type 0 = λ w. length w.queue ≤ suc (length ts) in
      subst P (some-injective _ _ e)
        (if_elim P (is_terminate_task t) (λ _. omega arith) (λ _. omega arith))

  -- The queue never has more tasks than its bound.
  pub Reach-bounded :
      (max_size : ℕ) (all : List Task) (w : Worker Task is_terminate_task)
      → Reach Task is_terminate_task max_size all w
      → length w.queue ≤ max_size
  Reach-bounded max_size _ _ start = omega arith
  Reach-bounded max_size _ _ (posted ts t w r h) = omega (arith, length-append w.queue (t ∷ []))
  Reach-bounded max_size _ _ (worked ts w w' r e) =
      let shorter = turn-shorter w.queue w.handled w.running w' e in
      let before = Reach-bounded max_size ts w r in omega (arith, shorter, before)

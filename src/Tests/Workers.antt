-- ===== src/Tests/Workers.antt =====
-- A worker of web_server/thread on numbers, of which 0 stops it.
use multi_process_server.Base.{ℕ, ◌≡◌, ◌==◌, refl, arith, Bool, true, false, some, [], ◌∷◌}
use multi_process_server.Web.Thread.Worker.{
  Worker, started, push_back, turn, Reach, start, posted, worked,
}
use multi_process_server.Web.Thread.Worker.Order.{Ordered, Reach-Ordered}
use multi_process_server.Web.Thread.Worker.Stops.{turns, turns-stop}

abbrev is_zero : ℕ → Bool
is_zero n = n == 0

abbrev one_waits : Worker ℕ is_zero
one_waits = record { queue = 6 ∷ []; handled = 5 ∷ []; running = true }

-- 5 and 6 are posted, and one is handled.
reached : Reach ℕ is_zero 3 (5 ∷ 6 ∷ []) one_waits
unfolding turn
reached =
    worked (5 ∷ 6 ∷ []) (record { queue = 5 ∷ 6 ∷ []; handled = []; running = true }) one_waits
      (posted (5 ∷ []) 6 (record { queue = 5 ∷ []; handled = []; running = true })
        (posted [] 5 (started ℕ is_zero) start (omega arith)) (omega arith))
      refl

Reach-Ordered_example : Ordered ℕ is_zero (5 ∷ 6 ∷ []) one_waits
Reach-Ordered_example = Reach-Ordered ℕ is_zero 3 (5 ∷ 6 ∷ []) one_waits reached

turns-stop_example :
    turns ℕ is_zero 2 (push_back ℕ is_zero 0 one_waits)
    ≡ some (record { queue = []; handled = 5 ∷ 6 ∷ []; running = false })
turns-stop_example = turns-stop ℕ is_zero one_waits 0 refl (refl, tt) refl

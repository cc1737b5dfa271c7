-- ===== src/Tasks/Runs.antt =====
-- The loop over the queue runs the tasks that the queue holds, oldest first, and empties it.
use netcwmp_xo.Base.{ℕ, ◌+◌, Bool, true, false, Option, none, some, List, [], ◌∷◌}
use netcwmp_xo.Queue.{Queue}
use netcwmp_xo.Event.{EventState}
use netcwmp_xo.Tasks.{Payload, World, Run, done, fault, do_task}

-- The tasks in order, from number `n` on; `none` if one faults.
unfoldable pub run_all : (ℕ → World) → ℕ → List (ℕ × Payload) → EventState → Option EventState
run_all w n [] s = some s
run_all w n ((tag, d) ∷ xs) s = elim (do_task (w n) tag d s) [
  | none ↦ none
  | some s' ↦ run_all w (n + 1) xs s'
]

-- How a run leaves, given the queue that is left and what the tasks made of the events
abbrev pub outcome : Bool → Queue Payload → Option EventState → Run
outcome ok q none = fault
outcome ok q (some s) = done ok (record { queue = q; ev = s })

abbrev pub any_of : List (ℕ × Payload) → Bool
any_of [] = false
any_of (x ∷ xs) = true

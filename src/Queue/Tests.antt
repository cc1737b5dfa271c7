-- ===== src/Queue/Tests.antt =====
-- Runs of the queue at concrete inputs, and the theorems at inputs that meet their hypotheses.
use netcwmp_xo.Base.{ℕ, ◌≡◌, refl, none, some, List, [], ◌∷◌}
use netcwmp_xo.Base.Int.{pos, negsuc}
use netcwmp_xo.Queue.{Item, Heap, Queue, push, pop, write}
use netcwmp_xo.Queue.Linked.{Cells, IsQueue}
use netcwmp_xo.Queue.Refine.{Op, put, get, run, fifo, Fresh, run-fifo}

abbrev no_nodes : Heap ℕ
no_nodes a = none

abbrev task : ℕ → ℕ → Item ℕ
task d prio = record { payload = d; arg1 = none; arg2 = none; datatype = 1; priority = prio }

-- A download task at address 5, then one at address 9.
abbrev two_tasks : Queue ℕ
two_tasks = record {
  size = 2;
  first = some 5;
  last = some 9;
  heap =
      write (write no_nodes 9 (some (record { item = task 70 0; next = none }))) 5
        (some (record { item = task 60 1; next = some 9 }));
}

abbrev two_cells : Cells ℕ
two_cells = (5, task 60 1) ∷ (9, task 70 0) ∷ []

two_tasks-IsQueue : IsQueue two_tasks two_cells
two_tasks-IsQueue = record {
  first_is = refl;
  last_is = refl;
  size_is = refl;
  linked = (refl, refl, (refl, refl, tt));
}

-- The address of the node that was popped is handed out again.
abbrev fresh_script : List (Op ℕ)
fresh_script = get ∷ put 5 80 3 ∷ put 2 90 4 ∷ get ∷ get ∷ get ∷ get ∷ []

run_script :
    run two_tasks fresh_script
    ≡ some (
        (pos 1, some 60)
        ∷ (pos 1, some 70)
        ∷ (pos 3, some 80)
        ∷ (pos 4, some 90)
        ∷ (negsuc 0, none)
        ∷ [])
unfolding run push pop
run_script = refl

run-fifo_example : run two_tasks fresh_script ≡ some (fifo ((1, 60) ∷ (1, 70) ∷ []) fresh_script)
unfolding Fresh push pop
run-fifo_example = run-fifo fresh_script two_tasks two_cells two_tasks-IsQueue (refl, (refl, tt))

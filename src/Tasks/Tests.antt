-- ===== src/Tasks/Tests.antt =====
-- The task loop at concrete queues, and the theorems at inputs that meet their hypotheses.
use netcwmp_xo.Base.{ℕ, ◌+◌, true, none, some, [], ◌∷◌, codes}
use netcwmp_xo.Base.Int.{pos}
use netcwmp_xo.Queue.{Item, Queue, write}
use netcwmp_xo.Queue.Linked.{Cells}
use netcwmp_xo.Event.Inform
use netcwmp_xo.Event.{EventState, zeroed, zeroed_global}
use netcwmp_xo.Tasks.{Payload, World}

abbrev world : ℕ → World
world n = record {
  exchange = record {
    socket_rc = pos 0;
    connect_rc = pos 0;
    opened = true;
    request_rc = pos 180;
    response_rc = pos 200;
  };
  starttime = 100 + n;
  endtime = 200 + n;
  writable = true;
}

abbrev image : Payload
image = some (record {
  cmdkey = none;
  filetype = some (codes "1 Vendor Configuration File");
  url = some (codes "http://h/f");
})

abbrev task : ℕ → Item Payload
task tag = record { payload = image; arg1 = none; arg2 = none; datatype = tag; priority = 1 }

abbrev two_transfers : Queue Payload
two_transfers = record {
  size = 2;
  first = some 5;
  last = some 9;
  heap =
      write (write (λ a. none) 9 (some (record { item = task 2; next = none }))) 5
        (some (record { item = task 1; next = some 9 }));
}

abbrev two_cells : Cells Payload
two_cells = (5, task 1) ∷ (9, task 2) ∷ []

abbrev quiet : EventState
quiet = record {
  el = record { events = zeroed ∷ zeroed ∷ []; count = 0; size = 2 };
  global = zeroed_global;
  file = none;
}

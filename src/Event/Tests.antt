-- ===== src/Event/Tests.antt =====
-- Runs of the event list at concrete inputs, and the theorems at inputs that meet their hypotheses.
use netcwmp_xo.Base.{◌≡◌, refl, true, Option, none, some, [], ◌∷◌, arith}
use netcwmp_xo.Base.Int.{pos}
use netcwmp_xo.Event.{
  EventList, EventGlobal, EventState, inform_code, zeroed, set_value, clear_active,
}
use netcwmp_xo.Event.Clear.{Noted, clear_active-Noted}
use netcwmp_xo.Event.Slots.{IsValid, waits, set_value-waits}

-- A list of three slots, one of which waits to report a boot
abbrev one_event : EventList
one_event = record {
  events = record zeroed { event = 1; ref = pos 1 } ∷ zeroed ∷ zeroed ∷ [];
  count = 1;
  size = 3;
}

one_event-IsValid : IsValid one_event
one_event-IsValid = ground arith

-- The state of a device that was started for the first time
abbrev first_start : EventState
first_start = record {
  el = record one_event {
    events = record zeroed { event = 0; ref = pos 1 } ∷ zeroed ∷ zeroed ∷ [];
  };
  global = record { event_flag = 1; event_key = []; fault_code = pos 0; start = 0; end = 0 };
  file = none;
}

codes_table : inform_code 7 ≡ "7 TRANSFER COMPLETE"
unfolding inform_code
codes_table = refl

set_twice : (set_value (pos 1) (pos 2) none (pos 0) 0 0 one_event).1.count ≡ 2
unfolding set_value
set_twice = refl

set_value-waits_example : waits 7 (set_value (pos 7) (pos 1) none (pos 9001) 5 6 one_event).1 ≡ true
set_value-waits_example =
    set_value-waits (pos 1) none (pos 9001) 5 6 7 7 one_event one_event-IsValid (omega arith)
      (omega arith) refl

clear_active-Noted_example :
    Noted 1 first_start.el.events first_start (clear_active true first_start)
clear_active-Noted_example = clear_active-Noted true first_start (omega arith)

-- After a reboot that an ACS has asked for
abbrev rebooted : Option EventGlobal
rebooted = some (record { event_flag = 2; event_key = []; fault_code = pos 0; start = 0; end = 0 })

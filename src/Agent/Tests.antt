-- ===== src/Agent/Tests.antt =====
-- Sessions at a concrete outside, and the theorems at inputs that meet their hypotheses.
use netcwmp_xo.Base.{◌≡◌, refl, true, false, ◌||◌, ◌&&◌, none, some, List, [], ◌∷◌, ◌==◌, arith}
use netcwmp_xo.Base.Int.{pos}
use netcwmp_xo.Queue.{Queue}
use netcwmp_xo.Tasks.{Payload}
use netcwmp_xo.Event.Inform as EventType
use netcwmp_xo.Event.{EventState, zeroed, zeroed_global}
use netcwmp_xo.Event.Slots.{waits, IsValid}
use netcwmp_xo.Agent.{
  Agent, World, empty, st_start, st_inform, st_retry, st_end, st_recv, inform, st_exit,
  get_active_event, step_at, run, session_create, rpc_of, download,
}
use netcwmp_xo.Agent.Inform.{names, is_idle, get_active_event-names}
use netcwmp_xo.Agent.Reach.{
  Step, round, Reach, start, next, IsSound, Reach-IsSound, Reach-ends, Step-IsSound,
}
use netcwmp_xo.Agent.Unsent.{unsent_forgets}
use netcwmp_xo.Agent.Retry.{unreachable_gives_up}

-- The queue of a new agent, and the events of a device that has come back from a reboot
abbrev no_tasks : Queue Payload
no_tasks = record { size = 0; first = none; last = none; heap = λ a. none }

abbrev booted : EventState
booted = record {
  el = record {
    events = record zeroed { event = 1; ref = pos 1 } ∷ zeroed ∷ [];
    count = 1;
    size = 2;
  };
  global = zeroed_global;
  file = none;
}

-- The same with a completed transfer on record
abbrev with_report : EventState
with_report = record booted {
  global = record zeroed_global { event_flag = 6; event_key = 75 ∷ [] };
}

abbrev refusing : World
refusing = record {
  connected = false;
  sent = true;
  received = true;
  answer = empty;
  built = true;
  report_built = true;
  garbage_ok = false;
  malloc = λ h. some 3;
  writable = true;
}

abbrev down : List World
down =
    refusing ∷ refusing ∷ refusing ∷ refusing ∷ refusing ∷ refusing ∷ refusing ∷ refusing ∷ refusing
    ∷ refusing ∷ refusing ∷ []

abbrev new_agent : Agent
new_agent = record {
  status = st_start;
  retry_count = 0;
  newdata = false;
  reconnect = false;
  closed = false;
  writers = [];
  ev = booted;
  queue = no_tasks;
}

download_method : rpc_of (some "cwmp:Download") ≡ download
unfolding rpc_of
download_method = refl

get_active_event-names_example :
    names 1 (get_active_event booted.el)
    ≡ (waits 1 booted.el || (is_idle booted.el.count booted.el.events && 1 == EventType.boot))
get_active_event-names_example = get_active_event-names booted.el 1

unreachable_gives_up_example :
    run down new_agent
    ≡ some (record new_agent { status = st_exit; retry_count = 0; closed = true })
unreachable_gives_up_example =
    unreachable_gives_up new_agent down refl refl refl refl
      (refl, (refl, (refl, (refl, (refl, (refl, (refl, (refl, (refl, (refl, (refl, tt)))))))))))
      (omega arith)

new_Step :
    Step
      (session_create booted no_tasks)
      (record (session_create booted no_tasks) { status = st_retry })
unfolding session_create step_at
new_Step =
    round refusing (session_create booted no_tasks)
      (record (session_create booted no_tasks) { status = st_retry }) refl refl

abbrev retrying : Agent
retrying = record (session_create booted no_tasks) { status = st_retry }

Step-IsSound_example : IsSound retrying
unfolding session_create
Step-IsSound_example = Step-IsSound new_Step (ground arith)

Reach-IsSound_example : IsSound retrying
Reach-IsSound_example =
    Reach-IsSound booted no_tasks (next (session_create booted no_tasks) retrying start new_Step)

-- The connection is made, and no answer comes.
abbrev silent : World
silent = record refusing { connected = true; received = false }

abbrev connected : Agent
connected = record (session_create booted no_tasks) { status = st_inform }

abbrev told : Agent
told = inform silent connected

abbrev waiting : Agent
waiting = record told { newdata = false; status = st_recv }

abbrev unanswered : Agent
unanswered = record waiting { status = st_end }

unanswered-Reach : Reach (session_create booted no_tasks) unanswered
unfolding session_create step_at inform
unanswered-Reach =
    next waiting unanswered
      (next told waiting
        (next connected told
          (next (session_create booted no_tasks) connected start
            (round silent (session_create booted no_tasks) connected refl refl))
          (round silent connected told refl refl))
        (round silent told waiting refl refl))
      (round silent waiting unanswered refl refl)

Reach-ends_example :
    run (silent ∷ refusing ∷ down) unanswered
    ≡ some (record unanswered { status = st_exit; closed = true })
unfolding session_create inform
Reach-ends_example =
    Reach-ends booted no_tasks unanswered silent refusing down unanswered-Reach refl refl

abbrev about_to_inform : Agent
about_to_inform = record new_agent { status = st_inform }

abbrev cut_off : World
cut_off = record refusing { sent = false }

booted-IsValid : IsValid booted.el
booted-IsValid = ground arith

unsent_forgets_example :
    (b : Agent) × (run (refusing ∷ cut_off ∷ refusing ∷ []) about_to_inform ≡ some b)
    × (b.closed ≡ true)
    × (waits 1 b.ev.el ≡ false)
unsent_forgets_example =
    unsent_forgets about_to_inform refusing cut_off refusing [] 1 refl refl refl refl booted-IsValid

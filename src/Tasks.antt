-- ===== src/Tasks.antt =====
-- The tasks that an ACS has asked for: the `TASK_` tags of netcwmp_xo/libcwmp/include/cwmp/event.h
-- and the loop `cwmp_agent_run_tasks` of netcwmp_xo/cwmpd/src/agent.c.
pub mod Runs
pub mod Reports
pub mod Tests
use netcwmp_xo.Base.{ℕ, zero, suc, ◌+◌, Bool, true, false, Option, none, some, ◌==◌, if◌then◌else◌}
use netcwmp_xo.Base.Int.{ℤ, pos, negsuc}
use netcwmp_xo.Queue.{Queue, pop}
use netcwmp_xo.Event.Inform
use netcwmp_xo.Event.{EventState, clear_active, raise, raise_plain}
use netcwmp_xo.Transfer.{TransferArg, Exchange, download_file, upload_file}

abbrev pub task_download : ℕ
task_download = 1

abbrev pub task_upload : ℕ
task_upload = 2

abbrev pub task_reboot : ℕ
task_reboot = 3

abbrev pub task_factoryreset : ℕ
task_factoryreset = 4

-- The `data` of a task: the argument of a transfer, or NULL
abbrev pub Payload : Type 0
Payload = Option TransferArg

-- What the outside answers while one task runs: the network, the two readings of the clock, and
-- whether the event file can be written.
pub record World : Type 0 where
  pub exchange : Exchange
  pub starttime : ℕ
  pub endtime : ℕ
  pub writable : Bool

abbrev pub transferred : World → TransferArg → ℤ → EventState → EventState
transferred w arg fault s = raise Inform.transfercomplete arg.cmdkey fault w.starttime w.endtime s

unfoldable pub do_download : World → Payload → EventState → Option EventState
do_download w none s = none
do_download w (some arg) s = elim (download_file w.exchange arg) [
  | none ↦ none
  | some fault ↦ some (transferred w arg fault s)
]

unfoldable pub do_upload : World → Payload → EventState → Option EventState
do_upload w none s = none
do_upload w (some arg) s = elim (upload_file w.exchange arg) [
  | none ↦ none
  | some fault ↦ some (transferred w arg fault s)
]

-- The `switch` on the tag of a task; `none` is a fault of the program.
unfoldable pub do_task : World → ℕ → Payload → EventState → Option EventState
unfolding do_download do_upload
do_task w tag d s =
    if tag == task_download
    then do_download w d s
    else if tag == task_upload
    then do_upload w d s
    else if tag == task_reboot
    then some (clear_active w.writable (raise_plain Inform.mreboot s))
    else if tag == task_factoryreset
    then some (clear_active w.writable s)
    else some s

-- The part of `cwmp_t` that the tasks work on
pub record TaskState : Type 0 where
  pub queue : Queue Payload
  pub ev : EventState

-- How the loop leaves: with `ok` and the state, at a fault, or at the end of the fuel.
pub data Run : Type 0 where
  done : Bool → TaskState → Run
  fault : Run
  out_of_fuel : Run

-- `cwmp_agent_run_tasks`, at its task number `n`
unfoldable pub run_tasks : (ℕ → World) → ℕ → ℕ → Bool → TaskState → Run
run_tasks w zero n ok a = out_of_fuel
run_tasks w (suc fuel) n ok a = elim (pop (a.queue)) [
  | none ↦ fault
  | some (negsuc k, d, q) ↦ done ok (record a { queue = q })
  | some (pos tag, none, q) ↦ fault
  | some (pos tag, some d, q) ↦ elim (do_task (w n) tag d a.ev) [
    | none ↦ fault
    | some s ↦ run_tasks w fuel (n + 1) true (record { queue = q; ev = s })
  ]
]

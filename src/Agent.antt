-- ===== src/Agent.antt =====
-- The agent, netcwmp_xo/cwmpd/src/agent.c: one session with the ACS as a state machine, with the
-- handlers of netcwmp_xo/libcwmp/src/session.c that queue a task. `none` is a fault of the program.
pub mod Inform
pub mod Reach
pub mod Retry
pub mod Reply
pub mod Unsent
pub mod Tests
use Prim.Native.Nat.{bit_and}
use Prim.Native.String.{String}
use text.Mathlib.Text.{◌==◌ as str_eq}
use netcwmp_xo.Base.{
  ℕ, zero, suc, ◌+◌, Bool, true, false, not, ◌||◌, ◌&&◌, Option, none, some, List, [], ◌∷◌, ◌++◌,
  ltb, ◌==◌, if◌then◌else◌, Rc, cwmp_ok, cwmp_error, cwmp_timeout,
}
use netcwmp_xo.Base.Int.{ℤ, pos, is_positive}
use netcwmp_xo.Queue.{Queue, Malloc, push}
use netcwmp_xo.Event.Flag
use netcwmp_xo.Event.Inform as EventType
use netcwmp_xo.Event.{
  Bytes, EventCode, EventList, EventState, inform_code, zeroed, has_flag, clear_active,
}
use netcwmp_xo.Tasks.{Payload, task_download, task_upload, task_reboot, task_factoryreset}
use netcwmp_xo.Transfer.{TransferArg}

-- `MAX_SESSION_RETRY`
abbrev pub max_session_retry : ℕ
max_session_retry = 3

-- `CWMP_ST_START` and the others; `st_resend` is `CWMP_ST_RESEMD`.
pub data Status : Type 0 where
  st_start st_inform st_send st_resend st_recv st_analyse st_retry st_end st_exit : Status

-- The methods that `cwmp_agent_analyse_session` tells apart
pub data Rpc : Type 0 where
  get_rpc_methods inform_response get_parameter_names get_parameter_values : Rpc
  set_parameter_values download upload transfer_complete_response reboot : Rpc
  add_object delete_object factory_reset other_method : Rpc

-- The comparisons of the method's name; NULL is equal to none.
unfoldable pub rpc_of : Option String → Rpc
rpc_of none = other_method
rpc_of (some m) =
    if str_eq m "cwmp:GetRPCMethods"
    then get_rpc_methods
    else if str_eq m "cwmp:InformResponse"
    then inform_response
    else if str_eq m "cwmp:GetParameterNames"
    then get_parameter_names
    else if str_eq m "cwmp:GetParameterValues"
    then get_parameter_values
    else if str_eq m "cwmp:SetParameterValues"
    then set_parameter_values
    else if str_eq m "cwmp:Download"
    then download
    else if str_eq m "cwmp:Upload"
    then upload
    else if str_eq m "cwmp:TransferCompleteResponse"
    then transfer_complete_response
    else if str_eq m "cwmp:Reboot"
    then reboot
    else if str_eq m "cwmp:AddObject"
    then add_object
    else if str_eq m "cwmp:DeleteObject"
    then delete_object
    else if str_eq m "cwmp:FactoryReset"
    then factory_reset
    else other_method

-- The documents that stand in `session->writers`, by what they are made from
pub data Message : Type 0 where
  inform_message : List EventCode → ℕ → Message
  response : Rpc → Message
  transfer_complete : Bytes → ℤ → ℕ → ℕ → Message
  fault_text : Message

-- What an ACS answers: nothing, a text that is no XML, or a message with the name of its method
-- and the argument of a transfer as the handler has cloned it, NULL if it could not.
pub data Answer : Type 0 where
  empty unparsable : Answer
  message : Option String → Payload → Answer

-- What the outside does in one round of the loop: whether the connection is made, the request
-- written and a response with code 200 read; the answer; whether a response and whether a
-- TransferComplete could be built; whether the indeterminate value of `rc` happens to be `CWMP_OK`;
-- the allocator; the event file.
pub record World : Type 0 where
  pub connected : Bool
  pub sent : Bool
  pub received : Bool
  pub answer : Answer
  pub built : Bool
  pub report_built : Bool
  pub garbage_ok : Bool
  pub malloc : Malloc Payload
  pub writable : Bool

-- `cwmp_session_t` and the parts of `cwmp_t` that a session works on; `closed` is `session_close`.
pub record Agent : Type 0 where
  pub status : Status
  pub retry_count : ℕ
  pub newdata : Bool
  pub reconnect : Bool
  pub closed : Bool
  pub writers : List Message
  pub ev : EventState
  pub queue : Queue Payload

-- `cwmp_agent_retry_session`, without its pause
unfoldable pub retry_session : ℕ → Rc × ℕ
retry_session n = if ltb max_session_retry n then (cwmp_timeout, 0) else (cwmp_ok, n + 1)

-- The event of an Inform that is made from a slot of the list
unfoldable pub informed : EventCode → EventCode
informed ec = record zeroed {
  event = ec.event;
  code = ec.code;
  command_key =
      if ec.event == EventType.mreboot || ec.event == EventType.bootstrap
      then ec.command_key
      else [];
}

-- The loop of `cwmp_agent_get_active_event` over the first `count` slots
unfoldable pub active_events : ℕ → List EventCode → List EventCode
unfolding informed
active_events zero es = []
active_events (suc n) [] = []
active_events (suc n) (ec ∷ es) =
    if is_positive ec.ref then informed ec ∷ active_events n es else active_events n es

unfoldable pub boot_if_none : List EventCode → List EventCode
boot_if_none [] = record zeroed { event = EventType.boot; code = some "1 BOOT" } ∷ []
boot_if_none (ec ∷ es) = ec ∷ es

-- `cwmp_agent_get_active_event`
unfoldable pub get_active_event : EventList → List EventCode
unfolding active_events boot_if_none
get_active_event el = boot_if_none (active_events el.count el.events)

-- The task that the handler of a method queues, with its tag: those of `Download` and `Upload` do so
-- if the argument could be cloned.
unfoldable pub task_of : Rpc → Payload → Option (Payload × ℕ)
task_of download none = none
task_of download (some arg) = some (some arg, task_download)
task_of upload none = none
task_of upload (some arg) = some (some arg, task_upload)
task_of reboot arg = some (none, task_reboot)
task_of factory_reset arg = some (none, task_factoryreset)
task_of _ arg = none

unfoldable pub queue_task :
    Malloc Payload → Option (Payload × ℕ) → Queue Payload → Option (Queue Payload)
queue_task malloc none q = some q
queue_task malloc (some (d, tag)) q = push malloc d tag q

-- Whether the method has a handler that makes a response
unfoldable pub has_response : Rpc → Bool
has_response inform_response = false
has_response transfer_complete_response = false
has_response other_method = false
has_response _ = true

abbrev pub clear_transfer : EventState → EventState
clear_transfer s = record s {
  global = record (s.global) { event_flag = bit_and s.global.event_flag 0xfffffffb };
}

abbrev pub transfer_document : EventState → Message
transfer_document s =
    transfer_complete s.global.event_key s.global.fault_code s.global.start s.global.end

-- The code from `eventcheck` on, where no document has been made: a completed transfer is reported
-- once. `replied` is `msglength != 0`.
unfoldable pub event_check : World → Bool → Agent → Bool × Agent
unfolding has_flag
event_check w replied a =
    if has_flag a.ev.global.event_flag Flag.transfercomplete
    then if w.report_built
      then (
        true,
        record a {
          ev = clear_transfer a.ev;
          newdata = true;
          writers = a.writers ++ transfer_document a.ev ∷ [];
        },
      )
      else (replied, record a { ev = clear_transfer a.ev; newdata = replied || a.newdata })
    else (replied, record a { newdata = replied || a.newdata })

-- The part of `cwmp_agent_analyse_session` behind the dispatch, for a message
unfoldable pub reply_to : World → Rpc → Agent → Bool × Agent
unfolding event_check has_response
reply_to w rpc a =
    if has_response rpc && w.built
    then (true, record a { newdata = true; writers = a.writers ++ response rpc ∷ [] })
    else event_check w true a

-- The analysis of a message once its handler has worked on the queue
unfoldable pub dispatched : World → Rpc → Agent → Option (Queue Payload) → Option (Bool × Agent)
dispatched w rpc a none = none
dispatched w rpc a (some q) = some (reply_to w rpc (record a { queue = q; writers = [] }))

unfoldable pub analyse_answer : Answer → World → Agent → Option (Bool × Agent)
analyse_answer empty w a = some (event_check w false (record a { newdata = false }))
analyse_answer unparsable w a =
    some (w.garbage_ok, record a { writers = a.writers ++ fault_text ∷ [] })
analyse_answer (message method arg) w a =
    dispatched w (rpc_of method) a (queue_task w.malloc (task_of (rpc_of method) arg) a.queue)

-- `cwmp_agent_analyse_session`: whether it returns `CWMP_OK`, and the state
abbrev pub analyse_session : World → Agent → Option (Bool × Agent)
analyse_session w a = analyse_answer w.answer w a

-- The end of `case CWMP_ST_ANSLYSE`
unfoldable pub resumed : Option (Bool × Agent) → Option Agent
resumed none = none
resumed (some (ok, a)) = some (record a { status = if ok then st_send else st_end })

-- `case CWMP_ST_INFORM`
unfoldable pub inform : World → Agent → Agent
inform w a = record a {
  status = st_send;
  ev = clear_active w.writable a.ev;
  writers = a.writers ++ inform_message (get_active_event a.ev.el) a.retry_count ∷ [];
}

unfoldable pub retried : Rc × ℕ → Agent → Agent
retried (cwmp_timeout, n) a = record a { status = st_exit; retry_count = n }
retried (cwmp_ok, n) a = record a { status = st_start; retry_count = n }
retried (cwmp_error, n) a = record a { status = st_start; retry_count = n }

-- `case CWMP_ST_RETRY`
unfoldable pub retry : Agent → Agent
retry a = retried (retry_session a.retry_count) a

-- `case CWMP_ST_EXIT`
unfoldable pub exit : Agent → Agent
exit a =
    if a.reconnect
    then record a { reconnect = false; status = st_start }
    else record a { closed = true }

-- The `switch` of `cwmp_agent_start_session`
unfoldable pub step_at : Status → World → Agent → Option Agent
unfolding inform retry exit
step_at st_start w a = some (record a { status = if w.connected then st_inform else st_retry })
step_at st_inform w a = some (inform w a)
step_at st_send w a =
    some (record a { newdata = false; status = if w.sent then st_recv else st_exit })
step_at st_resend w a = some a
step_at st_recv w a = some (record a { status = if w.received then st_analyse else st_end })
step_at st_analyse w a = resumed (analyse_session w a)
step_at st_retry w a = some (retry a)
step_at st_end w a = some (record a { status = if a.newdata then st_send else st_exit })
step_at st_exit w a = some (exit a)

abbrev pub step : World → Agent → Option Agent
step w a = step_at a.status w a

-- The loop `while (!session_close)`, for as many rounds as the outside is given for
unfoldable pub run : List World → Agent → Option Agent
run [] a = some a
run (w ∷ ws) a = if a.closed then some a else elim (step w a) [ none ↦ none | some a' ↦ run ws a' ]

-- `cwmp_session_create` and `cwmp_session_open`, within an agent
unfoldable pub session_create : EventState → Queue Payload → Agent
session_create ev q = record {
  status = st_start;
  retry_count = 0;
  newdata = false;
  reconnect = false;
  closed = false;
  writers = [];
  ev = ev;
  queue = q;
}

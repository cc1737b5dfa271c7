-- ===== src/Agent/Reply.antt =====
-- What a session sends after the Inform, by what the ACS answers.
use netcwmp_xo.Base.{
  ◌<◌, ◌≡◌, refl, ap, ◌∙◌, Bool, true, false, ◌||◌, none, some, List, [], ◌∷◌, ◌++◌,
}
use netcwmp_xo.Event.{EventState, has_flag, clear_active}
use netcwmp_xo.Event.Flag
use netcwmp_xo.Event.Flags.{flag_laws}
use netcwmp_xo.Queue.{Queue}
use netcwmp_xo.Tasks.{Payload}
use netcwmp_xo.Agent.Reach.{run-next}
use netcwmp_xo.Agent.{
  Agent, World, Answer, empty, message, Status, st_exit, Message, analyse_session, analyse_answer,
  event_check, clear_transfer, transfer_document, run, step_at, inform, exit, resumed, dispatched,
  reply_to, has_response, get_active_event, inform_message, st_analyse, st_send, st_end, queue_task,
  task_of, rpc_of, session_create,
}

-- A round in which the connection holds, a document can be built, and the ACS answers `ans`
abbrev pub answering : World → Answer → World
answering w ans = record w {
  connected = true;
  sent = true;
  received = true;
  built = true;
  report_built = true;
  answer = ans;
}

abbrev pub transfer_flag : EventState → Bool
transfer_flag s = has_flag s.global.event_flag Flag.transfercomplete

event_check-quiet :
    (w : World) (replied : Bool) (a : Agent)
    → transfer_flag a.ev ≡ false
    → event_check w replied a ≡ (replied, record a { newdata = replied || a.newdata })
unfolding event_check
event_check-quiet w replied a h = rw h refl

event_check-transfer :
    (w : World) (replied : Bool) (a : Agent)
    → transfer_flag a.ev ≡ true
    → w.report_built ≡ true
    → event_check w replied a ≡ (
      true,
      record a {
        ev = clear_transfer a.ev;
        newdata = true;
        writers = a.writers ++ transfer_document a.ev ∷ [];
      },
    )
unfolding event_check
event_check-transfer w replied a h b = rw (h, b) refl

clear_transfer-quiet :
    (s : EventState) → s.global.event_flag < 128 → transfer_flag (clear_transfer s) ≡ false
clear_transfer-quiet s h = (flag_laws s.global.event_flag h).without_4

-- The state after a TransferComplete has been made
abbrev pub reported : Agent → Agent
reported a = record a {
  ev = clear_transfer a.ev;
  newdata = true;
  writers = a.writers ++ transfer_document a.ev ∷ [];
}

-- When the ACS has nothing to say and a completed transfer is on record, the device reports it, once:
-- the next empty answer makes no document and the session ends. The TransferComplete is written
-- behind what the writers held: on this way they are not cleared of the document sent before.
transfer_reported_once :
    (a : Agent) (w v : World)
    → a.ev.global.event_flag < 128
    → transfer_flag a.ev ≡ true
    → (analyse_session (answering w empty) a ≡ some (true, reported a))
      × (analyse_session (answering v empty) (reported a)
          ≡ some (false, record (reported a) { newdata = false }))
unfolding analyse_answer
transfer_reported_once a w v h t = (
  ap some (event_check-transfer (answering w empty) false (record a { newdata = false }) t refl),
  ap some (
      event_check-quiet (answering v empty) false (record (reported a) { newdata = false })
        (clear_transfer-quiet a.ev h)),
)

-- The answer to the Inform, when no transfer is on record
inform_response-quiet :
    (w : World) (a : Agent)
    → transfer_flag a.ev ≡ false
    → analyse_answer (message (some "cwmp:InformResponse") none) w a
      ≡ some (true, record a { newdata = true; writers = [] })
unfolding analyse_answer dispatched queue_task task_of rpc_of reply_to has_response
inform_response-quiet w a h = ap some (event_check-quiet w true (record a { writers = [] }) h)

empty-quiet :
    (w : World) (a : Agent)
    → transfer_flag a.ev ≡ false
    → analyse_answer empty w a ≡ some (false, record a { newdata = false })
unfolding analyse_answer
empty-quiet w a h = ap some (event_check-quiet w false (record a { newdata = false }) h)

module _ (ev : EventState) (q : Queue Payload) (w : World) where
  abbrev ok : World
  ok = answering w (message (some "cwmp:InformResponse") none)

  abbrev done : World
  done = answering w empty

  -- A session after its Inform, with what is left to write
  abbrev session_at : Status → Bool → List Message → Agent
  session_at st new ms = record (session_create (clear_active w.writable ev) q) {
    status = st;
    newdata = new;
    writers = ms;
  }

  abbrev inform_sent : List Message
  inform_sent = inform_message (get_active_event ev.el) 0 ∷ []

  inform_rounds :
      (ws : List World)
      → run (ok ∷ ok ∷ ok ∷ ok ∷ ws) (session_create ev q)
        ≡ run ws (session_at st_analyse false inform_sent)
  unfolding run step_at session_create inform
  inform_rounds ws = refl

  send_rounds :
      (ws : List World)
      → run (done ∷ done ∷ ws) (session_at st_send true [])
        ≡ run ws (session_at st_analyse false [])
  unfolding run step_at session_create
  send_rounds ws = refl

  end_rounds :
      run (done ∷ done ∷ []) (session_at st_end false [])
      ≡ some (record (session_at st_exit false []) { closed = true })
  unfolding run step_at session_create exit
  end_rounds = refl

  -- The rounds of a session with an ACS that only answers the Inform
  abbrev pub quiet_rounds : List World
  quiet_rounds = ok ∷ ok ∷ ok ∷ ok ∷ ok ∷ done ∷ done ∷ done ∷ done ∷ done ∷ []

  -- When no transfer is on record after the Inform, a session with an ACS that answers the Inform
  -- and then nothing is left after ten rounds with nothing more written, and what it has changed is
  -- that the waiting events are cleared.
  quiet_session :
      transfer_flag (clear_active w.writable ev) ≡ false
      → run quiet_rounds (session_create ev q)
        ≡ some (record (session_create (clear_active w.writable ev) q) {
          status = st_exit;
          closed = true;
        })
  unfolding session_create step_at resumed
  quiet_session h =
      let a = session_at st_analyse false inform_sent in
      let b = session_at st_analyse false [] in
      inform_rounds (ok ∷ done ∷ done ∷ done ∷ done ∷ done ∷ [])
      ∙ run-next ok _ a (session_at st_send true []) refl
          (ap resumed (inform_response-quiet ok a h))
      ∙ send_rounds (done ∷ done ∷ done ∷ [])
      ∙ run-next done _ b (session_at st_end false []) refl (ap resumed (empty-quiet done b h))
      ∙ end_rounds

-- ===== src/Agent/Reach.antt =====
-- The states that a session can be in: the rounds of the loop as a relation, and what all of its
-- states have in common.
use netcwmp_xo.Base.{
  ◌+◌, ◌≤◌, ◌≡◌, refl, sym, ap, ◌∙◌, Bool, true, false, not, ◌||◌, ◌&&◌, Option, none, some, List,
  [], ◌∷◌, arith, Bool-cases, inl, inr,
}
use netcwmp_xo.Event.{EventState}
use netcwmp_xo.Queue.{Queue}
use netcwmp_xo.Tasks.{Payload}
use netcwmp_xo.Agent.{
  Agent, World, Status, st_start, st_inform, st_send, st_resend, st_recv, st_analyse, st_retry,
  st_end, st_exit, Rpc, Answer, empty, unparsable, message, step, step_at, run, inform, retry,
  retried, retry_session, exit, analyse_answer, dispatched, resumed, event_check, reply_to,
  has_response, rpc_of, session_create, max_session_retry,
}

-- One round of the loop, for some behaviour of the outside
pub data Step : Agent → Agent → Type 0 where
  round : (w : World) (a b : Agent) → a.closed ≡ false → step w a ≡ some b → Step a b

-- The states of a session that starts in `a`
pub data Reach (a : Agent) : Agent → Type 0 where
  start : Reach a a
  next : (b c : Agent) → Reach a b → Step b c → Reach a c

-- What holds of the flag for new data in each status. `CWMP_ST_RESEMD` is never entered, and no
-- data is new between the sending of a request and the analysis of its answer, nor at the end.
abbrev pub phase_ok : Status → Bool → Bool
phase_ok st_resend new = false
phase_ok st_recv new = not new
phase_ok st_analyse new = not new
phase_ok st_end new = not new
phase_ok _ new = true

pub record IsSound (a : Agent) : Type 0 where
  pub phase : phase_ok a.status a.newdata ≡ true
  pub retries : a.retry_count ≤ max_session_retry + 1
  pub single : a.reconnect ≡ false

-- What the analysis of an answer keeps, and that it fails only without new data
pub record Analysed (a : Agent) (ok : Bool) (b : Agent) : Type 0 where
  pub failed : (ok || not b.newdata) ≡ true
  pub same_retries : b.retry_count ≡ a.retry_count
  pub same_reconnect : b.reconnect ≡ a.reconnect

event_check-Analysed :
    (w : World) (replied : Bool) (a : Agent)
    → (replied || not a.newdata) ≡ true
    → Analysed a (event_check w replied a).0 (event_check w replied a).1
unfolding event_check
event_check-Analysed w replied a h = ground arith

reply_to-Analysed :
    (w : World) (rpc : Rpc) (a : Agent) → Analysed a (reply_to w rpc a).0 (reply_to w rpc a).1
unfolding reply_to
reply_to-Analysed w rpc a = elim (Bool-cases (has_response rpc && w.built)) [
  | inl made ↦ rw made (ground arith)
  | inr not_made ↦ rw not_made (event_check-Analysed w true a refl)
]

dispatched-Analysed :
    (w : World) (rpc : Rpc) (a : Agent) (q : Option (Queue Payload)) (ok : Bool) (b : Agent)
    → dispatched w rpc a q ≡ some (ok, b)
    → Analysed a ok b
unfolding dispatched
dispatched-Analysed w rpc a none ok b h = cc
dispatched-Analysed w rpc a (some q) ok b h =
    let r = reply_to-Analysed w rpc (record a { queue = q; writers = [] }) in ground (arith, r)

analyse_answer-Analysed :
    (ans : Answer) (w : World) (a : Agent) (ok : Bool) (b : Agent)
    → a.newdata ≡ false
    → analyse_answer ans w a ≡ some (ok, b)
    → Analysed a ok b
unfolding analyse_answer
analyse_answer-Analysed empty w a ok b n h =
    let r = event_check-Analysed w false (record a { newdata = false }) refl in ground (arith, r)
analyse_answer-Analysed unparsable w a ok b n h = ground arith
analyse_answer-Analysed (message method arg) w a ok b n h =
    dispatched-Analysed w (rpc_of method) a _ ok b h

resumed-IsSound :
    (o : Option (Bool × Agent)) (a b : Agent)
    → ((ok : Bool) (c : Agent) → o ≡ some (ok, c) → Analysed a ok c)
    → IsSound a
    → resumed o ≡ some b
    → IsSound b
unfolding resumed
resumed-IsSound none a b f s h = cc
resumed-IsSound (some (true, c)) a b f s h = let r = f true c refl in ground (arith, r, s)
resumed-IsSound (some (false, c)) a b f s h = let r = f false c refl in ground (arith, r, s)

retry-IsSound : (a : Agent) → IsSound a → IsSound (retry a)
unfolding retry retried retry_session
retry-IsSound a s = ground (arith, s)

step_at-IsSound :
    (st : Status) (w : World) (a b : Agent)
    → a.status ≡ st
    → IsSound a
    → step_at st w a ≡ some b
    → IsSound b
unfolding step_at inform exit
step_at-IsSound st_start w a b e s h = ground (arith, s)
step_at-IsSound st_inform w a b e s h = ground (arith, s)
step_at-IsSound st_send w a b e s h = ground (arith, s)
step_at-IsSound st_resend w a b e s h = absurd (ground (arith, s.phase))
step_at-IsSound st_recv w a b e s h = ground (arith, s)
step_at-IsSound st_analyse w a b e s h =
    let n : a.newdata ≡ false = ground (arith, s.phase) in
    resumed-IsSound (analyse_answer w.answer w a) a b
      (λ ok c g. analyse_answer-Analysed w.answer w a ok c n g) s h
step_at-IsSound st_retry w a b e s h = let r = retry-IsSound a s in ground (arith, r)
step_at-IsSound st_end w a b e s h = ground (arith, s)
step_at-IsSound st_exit w a b e s h = ground (arith, s)

-- Every round of the loop keeps a session sound: it never enters the status that the `switch` does
-- not know, where it would loop for ever, retries at most four times, is never to reconnect, and
-- has no new data while it waits for an answer, analyses one or ends.
pub Step-IsSound : {a b : Agent} → Step a b → IsSound a → IsSound b
Step-IsSound (round w a b still h) s = step_at-IsSound a.status w a b refl s h

session_create-IsSound : (ev : EventState) (q : Queue Payload) → IsSound (session_create ev q)
unfolding session_create
session_create-IsSound ev q = ground arith

-- Every state that a new session can come to is sound.
pub Reach-IsSound :
    (ev : EventState) (q : Queue Payload) {b : Agent} → Reach (session_create ev q) b → IsSound b
Reach-IsSound ev q start = session_create-IsSound ev q
Reach-IsSound ev q (next b c r t) = Step-IsSound t (Reach-IsSound ev q r)

pub run-closed : (ws : List World) (a : Agent) → a.closed ≡ true → run ws a ≡ some a
unfolding run
run-closed [] a c = refl
run-closed (w ∷ ws) a c = rw c refl

pub run-next :
    (w : World) (ws : List World) (a b : Agent)
    → a.closed ≡ false
    → step w a ≡ some b
    → run (w ∷ ws) a ≡ run ws b
unfolding run
run-next w ws a b c h = rw (h, c) refl

-- A session that is about to end without new data
abbrev ending : Agent → Agent
ending b = record b { status = st_end; newdata = false; reconnect = false; closed = false }

abbrev left : Agent → Agent
left a = record a { status = st_exit; closed = true }

ending-run :
    (b : Agent) (v w : World) (ws : List World)
    → run (v ∷ w ∷ ws) (ending b) ≡ some (record (ending b) { status = st_exit; closed = true })
unfolding run step_at exit
ending-run b v w ws = run-closed ws (record (ending b) { status = st_exit; closed = true }) refl

ending-eq :
    (b : Agent)
    → b.status ≡ st_end
    → b.newdata ≡ false
    → b.reconnect ≡ false
    → b.closed ≡ false
    → b ≡ ending b
ending-eq b e n r c = λ i. record b { status = e i; newdata = n i; reconnect = r i; closed = c i }

-- A session that comes to `CWMP_ST_END` leaves the loop in two rounds, whatever the outside does:
-- the way from there back to `CWMP_ST_SEND` is never taken. Nothing else changes.
pub Reach-ends :
    (ev : EventState) (q : Queue Payload) (b : Agent) (v w : World) (ws : List World)
    → Reach (session_create ev q) b
    → b.status ≡ st_end
    → b.closed ≡ false
    → run (v ∷ w ∷ ws) b ≡ some (record b { status = st_exit; closed = true })
Reach-ends ev q b v w ws r e c =
    let s = Reach-IsSound ev q r in
    let n : b.newdata ≡ false = ground (arith, s.phase) in
    let same = ending-eq b e n s.single c in
    ap (run (v ∷ w ∷ ws)) same ∙ ending-run b v w ws ∙ ap (λ (a : Agent). some (left a)) (sym same)

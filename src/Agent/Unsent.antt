-- ===== src/Agent/Unsent.antt =====
-- What becomes of the events when the Inform that names them does not reach the ACS.
use netcwmp_xo.Base.{ℕ, ◌≡◌, refl, ap, ◌∙◌, true, false, some, List, ◌∷◌}
use netcwmp_xo.Event.{EventList, clear_active}
use netcwmp_xo.Event.Slots.{IsValid, waits}
use netcwmp_xo.Event.Clear.{clear_active-IsValid}
use netcwmp_xo.Agent.{Agent, World, st_inform, st_exit, inform, exit, run, step_at}
use netcwmp_xo.Agent.Reach.{run-closed}

-- A session that is about to send its Inform
abbrev informing : Agent → Agent
informing a = record a { status = st_inform; reconnect = false; closed = false }

-- The session when the Inform could not be sent
abbrev pub given_up : World → Agent → Agent
given_up w a = record (inform w a) { status = st_exit; newdata = false; closed = true }

informing-eq :
    (a : Agent) → a.status ≡ st_inform → a.reconnect ≡ false → a.closed ≡ false → a ≡ informing a
informing-eq a e r c = λ i. record a { status = e i; reconnect = r i; closed = c i }

informing-run :
    (a : Agent) (w v x : World) (ws : List World)
    → v.sent ≡ false
    → run (w ∷ v ∷ x ∷ ws) (informing a) ≡ some (given_up w (informing a))
unfolding run step_at exit inform
informing-run a w v x ws u = rw u (run-closed ws (given_up w (informing a)) refl)

no_waits : (j : ℕ) (el : EventList) → el.count ≡ 0 → waits j el ≡ false
no_waits j el h = rw h refl

-- When the Inform of a session cannot be sent, the session is over after the round and the two
-- that follow, and no event of the list waits any longer: the next Inform will not name them.
pub unsent_forgets :
    (a : Agent) (w v x : World) (ws : List World) (j : ℕ)
    → a.status ≡ st_inform
    → a.reconnect ≡ false
    → a.closed ≡ false
    → v.sent ≡ false
    → IsValid a.ev.el
    → (b : Agent) × (run (w ∷ v ∷ x ∷ ws) a ≡ some b)
      × (b.closed ≡ true)
      × (waits j b.ev.el ≡ false)
unfolding inform
unsent_forgets a w v x ws j e r c u h =
    let same = informing-eq a e r c in
    (
      given_up w (informing a),
      ap (run (w ∷ v ∷ x ∷ ws)) same ∙ informing-run a w v x ws u,
      refl,
      no_waits j (clear_active w.writable a.ev).el (clear_active-IsValid w.writable a.ev h).1,
    )

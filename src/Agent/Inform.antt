-- ===== src/Agent/Inform.antt =====
-- `cwmp_agent_get_active_event`: the events that an Inform names.
use netcwmp_xo.Base.{
  ℕ, zero, suc, ◌+◌, ◌≤◌, ◌≡◌, refl, Bool, true, false, not, ◌||◌, ◌&&◌, List, [], ◌∷◌, arith, ◌==◌,
  Bool-cases, inl, inr, length,
}
use netcwmp_xo.Base.Int.{is_positive}
use netcwmp_xo.Event.Inform as EventType
use netcwmp_xo.Event.{EventCode, EventList}
use netcwmp_xo.Event.Slots.{pending, waits}
use netcwmp_xo.Agent.{active_events, boot_if_none, get_active_event, informed}

-- Whether a list of events names the event `j`
abbrev pub names : ℕ → List EventCode → Bool
names j [] = false
names j (ec ∷ es) = ec.event == j || names j es

abbrev pub is_none : List EventCode → Bool
is_none [] = true
is_none (ec ∷ es) = false

names-active_events :
    (j n : ℕ) (es : List EventCode) → names j (active_events n es) ≡ pending j n es
unfolding active_events informed
names-active_events j zero es = refl
names-active_events j (suc n) [] = refl
names-active_events j (suc n) (ec ∷ es) = elim (Bool-cases (is_positive ec.ref)) [
  | inl waiting ↦ rw (waiting, names-active_events j n es) (ground arith)
  | inr idle ↦ rw (idle, names-active_events j n es) (ground arith)
]

names-boot_if_none :
    (j : ℕ) (es : List EventCode)
    → names j (boot_if_none es) ≡ (names j es || (is_none es && j == EventType.boot))
unfolding boot_if_none
names-boot_if_none j [] = ground arith
names-boot_if_none j (ec ∷ es) = ground arith

length-active_events : (n : ℕ) (es : List EventCode) → length (active_events n es) ≤ n
unfolding active_events
length-active_events zero es = omega arith
length-active_events (suc n) [] = omega arith
length-active_events (suc n) (ec ∷ es) = elim (Bool-cases (is_positive ec.ref)) [
  | inl waiting ↦ rw waiting (ground (arith, length-active_events n es))
  | inr idle ↦ rw idle (ground (arith, length-active_events n es))
]

-- Whether none of the first `n` slots waits
abbrev pub is_idle : ℕ → List EventCode → Bool
is_idle zero es = true
is_idle (suc n) [] = true
is_idle (suc n) (ec ∷ es) = not (is_positive ec.ref) && is_idle n es

is_none-active_events : (n : ℕ) (es : List EventCode) → is_none (active_events n es) ≡ is_idle n es
unfolding active_events
is_none-active_events zero es = refl
is_none-active_events (suc n) [] = refl
is_none-active_events (suc n) (ec ∷ es) = elim (Bool-cases (is_positive ec.ref)) [
  | inl waiting ↦ rw waiting refl
  | inr idle ↦ rw idle (is_none-active_events n es)
]

-- An Inform names the events that wait in the list and no other, but for BOOT when none waits.
pub get_active_event-names :
    (el : EventList) (j : ℕ)
    → names j (get_active_event el)
      ≡ (waits j el || (is_idle el.count el.events && j == EventType.boot))
unfolding get_active_event
get_active_event-names el j =
    rw
      (
        names-boot_if_none j (active_events el.count el.events),
        names-active_events j el.count el.events,
        is_none-active_events el.count el.events,
      )
      refl

boot_if_none-length :
    (n : ℕ) (es : List EventCode)
    → length es ≤ n
    → (1 ≤ length (boot_if_none es)) × (length (boot_if_none es) ≤ n + 1)
unfolding boot_if_none
boot_if_none-length n [] h = omega arith
boot_if_none-length n (ec ∷ es) h = ground arith

-- An Inform names at least one event, and at most one for each slot in use, or one.
get_active_event-length :
    (el : EventList)
    → (1 ≤ length (get_active_event el)) × (length (get_active_event el) ≤ el.count + 1)
unfolding get_active_event
get_active_event-length el =
    boot_if_none-length el.count (active_events el.count el.events)
      (length-active_events el.count el.events)

-- ===== src/Event/Slots.antt =====
-- The slots of the event list: what `cwmp_event_set_value` writes, and what it keeps.
use native.Mathlib.Decide.{dec_lt}
use native.Mathlib.Numerals.{add-one}
use netcwmp_xo.Base.{
  ℕ, zero, suc, ◌+◌, ◌≤◌, ◌<◌, ◌≡◌, refl, ◌∙◌, Bool, true, false, ◌&&◌, ◌||◌, Option, Bool-cases,
  inl, inr, List, [], ◌∷◌, arith, ◌==◌, if◌then◌else◌, length, length-set, set, cwmp_ok, cwmp_error,
}
use netcwmp_xo.Base.Int.{ℤ, pos, negsuc, is_positive}
use netcwmp_xo.Event.Inform
use netcwmp_xo.Event.{Bytes, EventCode, EventList, find_slot, filled, set_value}

-- The slots from index `n` on wait for nothing.
abbrev pub IdleFrom : ℕ → List EventCode → Type 0
IdleFrom n [] = Unit {0}
IdleFrom zero (ec ∷ es) = (is_positive ec.ref ≡ false) × IdleFrom zero es
IdleFrom (suc n) (ec ∷ es) = IdleFrom n es

-- What holds between the calls: the slots are those that were allocated, `count` of them are in
-- use, and those behind wait for nothing.
pub record IsValid (el : EventList) : Type 0 where
  pub allocated : length el.events ≡ el.size
  pub in_use : el.count ≤ el.size
  pub idle : IdleFrom el.count el.events

-- Whether one of the first `n` slots waits to report the event `e`.
abbrev pub pending : ℕ → ℕ → List EventCode → Bool
pending e zero es = false
pending e (suc n) [] = false
pending e (suc n) (ec ∷ es) = (ec.event == e && is_positive ec.ref) || pending e n es

abbrev pub waits : ℕ → EventList → Bool
waits e el = pending e el.count el.events

pub find_slot-le : (n : ℕ) (es : List EventCode) (e : ℕ) → find_slot n es e ≤ n
unfolding find_slot
find_slot-le zero es e = omega arith
find_slot-le (suc n) [] e = omega arith
find_slot-le (suc n) (ec ∷ es) e = ground (arith, find_slot-le n es e)

-- The slot that is used next waits for nothing, so counting it in reports nothing.
pub pending-suc :
    (e n : ℕ) (es : List EventCode) → IdleFrom n es → pending e (suc n) es ≡ pending e n es
pending-suc e zero [] i = refl
pending-suc e zero (ec ∷ es) i = ground arith
pending-suc e (suc n) [] i = refl
pending-suc e (suc n) (ec ∷ es) i = ground (arith, pending-suc e n es i)

IdleFrom-suc : (n : ℕ) (es : List EventCode) → IdleFrom n es → IdleFrom (suc n) es
IdleFrom-suc zero [] i = tt
IdleFrom-suc (suc n) [] i = tt
IdleFrom-suc zero (ec ∷ []) i = tt
IdleFrom-suc zero (ec ∷ d ∷ es) i = i.1
IdleFrom-suc (suc n) (ec ∷ es) i = IdleFrom-suc n es i

IdleFrom-set :
    (n : ℕ) (es : List EventCode) (e : ℕ) (f : EventCode)
    → IdleFrom n es
    → IdleFrom (suc n) (set es (find_slot n es e) f)
unfolding find_slot
IdleFrom-set zero [] e f i = tt
IdleFrom-set (suc n) [] e f i = tt
IdleFrom-set zero (ec ∷ []) e f i = tt
IdleFrom-set zero (ec ∷ d ∷ es) e f i = i.1
IdleFrom-set (suc n) (ec ∷ es) e f i = elim (Bool-cases (ec.event == e)) [
  | inl same ↦ rw same (IdleFrom-suc n es i)
  | inr other ↦ rw other (IdleFrom-set n es e f i)
]

pub pending-set :
    (j n : ℕ) (es : List EventCode) (e : ℕ) (f : EventCode)
    → n < length es
    → IdleFrom n es
    → f.event ≡ e
    → is_positive f.ref ≡ true
    → pending j (suc n) (set es (find_slot n es e) f) ≡ (if j == e then true else pending j n es)
unfolding find_slot
pending-set j zero [] e f h i ev p = absurd (omega arith)
pending-set j (suc n) [] e f h i ev p = absurd (omega arith)
pending-set j zero (ec ∷ es) e f h i ev p = ground arith
pending-set j (suc n) (ec ∷ es) e f h i ev p =
    ground (arith, pending-suc j n es i, pending-set j n es e f (omega arith) i ev p)

module _ (value : ℤ) (key : Option Bytes) (fault : ℤ) (start end : ℕ) where
  -- The list after a call that takes a slot
  abbrev pub stored : ℕ → EventList → EventList
  stored e el = record el {
    events = set el.events (find_slot el.count el.events e) (filled e value key fault start end);
    count = el.count + 1;
  }

  pub set_value-stored :
      (e : ℕ) (el : EventList)
      → e < Inform.max
      → el.count < el.size
      → set_value (pos e) value key fault start end el ≡ (cwmp_ok, stored e el)
  unfolding set_value
  set_value-stored e el h k = ground arith

  set_value-unknown :
      (e : ℕ) (el : EventList)
      → Inform.max ≤ e
      → set_value (pos e) value key fault start end el ≡ (cwmp_error, el)
  unfolding set_value
  set_value-unknown e el h = ground arith

  pub set_value-refused :
      (e : ℤ) (el : EventList)
      → el.size ≤ el.count
      → set_value e value key fault start end el ≡ (cwmp_error, el)
  unfolding set_value
  set_value-refused (negsuc e) el h = refl
  set_value-refused (pos e) el h = ground arith

  stored-IsValid :
      (e : ℕ) (el : EventList) → IsValid el → el.count < el.size → IsValid (stored e el)
  stored-IsValid e el v h = record {
    allocated = length-set el.events (find_slot el.count el.events e) _ ∙ v.allocated;
    in_use = omega arith;
    idle = rw add-one (IdleFrom-set el.count el.events e _ v.idle);
  }

  -- `cwmp_event_set_value` keeps the list well formed, for any event and on every branch.
  pub set_value-IsValid :
      (e : ℤ) (el : EventList) → IsValid el → IsValid (set_value e value key fault start end el).1
  unfolding set_value
  set_value-IsValid (negsuc e) el v = v
  set_value-IsValid (pos e) el v = elim (dec_lt e Inform.max) [
    | yes h ↦ elim (dec_lt el.count el.size) [
      | yes k ↦ rw (set_value-stored e el h k) (stored-IsValid e el v k)
      | no k ↦ rw (set_value-refused (pos e) el (omega arith)) v
    ]
    | no h ↦ rw (set_value-unknown e el (omega arith)) v
  ]

  -- `cwmp_event_set_value` with a positive value, an event of the table and a slot left makes the
  -- event wait to be reported, and changes for no other event whether it waits.
  pub set_value-waits :
      (e j : ℕ) (el : EventList)
      → IsValid el
      → e < Inform.max
      → el.count < el.size
      → is_positive value ≡ true
      → waits j (set_value (pos e) value key fault start end el).1
        ≡ (if j == e then true else waits j el)
  unfolding filled
  set_value-waits e j el v h k p =
      rw (set_value-stored e el h k, add-one)
        (pending-set j el.count el.events e (filled e value key fault start end)
          (omega (arith, v.allocated)) v.idle refl p)

  -- The list after `n` such calls for one event
  abbrev pub again : ℕ → ℕ → EventList → EventList
  again zero e el = el
  again (suc n) e el = again n e (set_value (pos e) value key fault start end el).1

  again-count :
      (n e : ℕ) (el : EventList)
      → e < Inform.max
      → el.count + n ≤ el.size
      → ((again n e el).count ≡ el.count + n) × ((again n e el).size ≡ el.size)
  again-count zero e el h k = omega arith
  again-count (suc n) e el h k =
      rw (set_value-stored e el h (omega arith), again)
        (omega (arith, again-count n e (stored e el) h (omega arith)))

  -- Setting one event as often as there are slots left uses all of them up, although the event
  -- needs one: after that `cwmp_event_set_value` refuses every event.
  again_fills :
      (n e : ℕ) (el : EventList) (j : ℤ)
      → e < Inform.max
      → el.count + n ≡ el.size
      → set_value j value key fault start end (again n e el) ≡ (cwmp_error, again n e el)
  again_fills n e el j h k =
      set_value-refused j (again n e el) (omega (arith, again-count n e el h (omega arith)))

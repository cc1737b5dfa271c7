-- ===== src/Event/Clear.antt =====
-- `cwmp_event_clear_active`: what an Inform leaves behind in the list, the flags and the file.
use netcwmp_xo.Base.{
  ℕ, zero, suc, ◌<◌, ◌≡◌, refl, ap, ◌∙◌, Bool, true, ◌||◌, some, List, [], ◌∷◌, arith,
  if◌then◌else◌, length, ◌⊎◌, inl, inr, Bool-cases,
}
use netcwmp_xo.Base.Int.{is_positive}
use netcwmp_xo.Event.Inform
use netcwmp_xo.Event.{
  EventCode, EventState, has_flag, file_save, note_sent, clear_slots, clear_active,
}
use netcwmp_xo.Event.Flags.{flag_laws, other_flags}
use netcwmp_xo.Event.Slots.{IdleFrom, IsValid, pending}

-- The flags of a state after what `n` slots report has been sent.
pub record Noted (n : ℕ) (es : List EventCode) (s s' : EventState) : Type 0 where
  pub small : s'.global.event_flag < 128
  pub bootstrap_kept : has_flag s'.global.event_flag 1 ≡ has_flag s.global.event_flag 1
  pub others_kept : other_flags s'.global.event_flag ≡ other_flags s.global.event_flag
  pub acs_noted : has_flag s'.global.event_flag 2 ≡ (
      has_flag s.global.event_flag 2
      || (pending Inform.bootstrap n es || pending Inform.mreboot n es))
  pub transfer_noted :
      has_flag s'.global.event_flag 4
      ≡ (has_flag s.global.event_flag 4 || pending Inform.transfercomplete n es)

note_sent-Noted :
    (w : Bool) (ec : EventCode) (s : EventState)
    → s.global.event_flag < 128
    → is_positive ec.ref ≡ true
    → Noted 1 (ec ∷ []) s (note_sent w ec s)
unfolding note_sent file_save
note_sent-Noted w ec s h p = ground (arith, flag_laws s.global.event_flag h)

module _ (w : Bool) where
  -- What the loop does for one slot
  abbrev sent : EventCode → EventState → EventState
  sent ec s = if is_positive ec.ref then note_sent w ec s else s

  sent-Noted :
      (ec : EventCode) (s : EventState)
      → s.global.event_flag < 128
      → Noted 1 (ec ∷ []) s (sent ec s)
  sent-Noted ec s h = elim (Bool-cases (is_positive ec.ref)) [
    | inl p ↦ rw p (note_sent-Noted w ec s h p)
    | inr n ↦ rw n (ground arith)
  ]

  clear_slots-Noted :
      (n : ℕ) (es : List EventCode) (s : EventState)
      → s.global.event_flag < 128
      → Noted n es s (clear_slots w n es s).1
  unfolding clear_slots
  clear_slots-Noted zero es s h = ground arith
  clear_slots-Noted (suc n) [] s h = ground arith
  clear_slots-Noted (suc n) (ec ∷ es) s h =
      let a = sent-Noted ec s h in
      let b = clear_slots-Noted n es (sent ec s) a.small in ground (arith, a, b)

  clear_slots-idle :
      (n : ℕ) (es : List EventCode) (s : EventState)
      → IdleFrom n es
      → IdleFrom 0 (clear_slots w n es s).0
  unfolding clear_slots
  clear_slots-idle zero es s i = i
  clear_slots-idle (suc n) [] s i = tt
  clear_slots-idle (suc n) (ec ∷ es) s i = (ground arith, clear_slots-idle n es _ i)

  clear_slots-length :
      (n : ℕ) (es : List EventCode) (s : EventState) → length (clear_slots w n es s).0 ≡ length es
  unfolding clear_slots
  clear_slots-length zero es s = refl
  clear_slots-length (suc n) [] s = refl
  clear_slots-length (suc n) (ec ∷ es) s = ap suc (clear_slots-length n es _)

  -- `cwmp_event_clear_active` keeps the list well formed and leaves no event waiting.
  pub clear_active-IsValid :
      (s : EventState)
      → IsValid s.el
      → IsValid (clear_active w s).el × ((clear_active w s).el.count ≡ 0)
  unfolding clear_active
  clear_active-IsValid s v = (
    record {
      allocated = clear_slots-length s.el.count s.el.events s ∙ v.allocated;
      in_use = omega arith;
      idle = clear_slots-idle s.el.count s.el.events s v.idle;
    },
    refl,
  )

  -- It notes in the flags that an ACS has been told, exactly when a BOOTSTRAP or an M Reboot waited,
  -- and that a transfer is complete, exactly when a TRANSFER COMPLETE waited, or the
  -- flag was set before; the other flags stay.
  pub clear_active-Noted :
      (s : EventState)
      → s.global.event_flag < 128
      → Noted s.el.count s.el.events s (clear_active w s)
  unfolding clear_active
  clear_active-Noted s h = ground (arith, clear_slots-Noted s.el.count s.el.events s h)

-- The events that `cwmp_event_clear_active` keeps a record of
abbrev pub recorded : ℕ → List EventCode → Bool
recorded n es =
    pending Inform.bootstrap n es
    || pending Inform.mreboot n es
    || pending Inform.transfercomplete n es

-- A slot that is recorded brings the file up to date, and any other leaves it as it is.
sent-file :
    (n : ℕ) (ec : EventCode) (es : List EventCode) (s : EventState)
    → (s.file ≡ some s.global) ⊎ (recorded (suc n) (ec ∷ es) ≡ true)
    → ((sent true ec s).file ≡ some (sent true ec s).global) ⊎ (recorded n es ≡ true)
unfolding note_sent file_save
sent-file n ec es s h = elim (Bool-cases (recorded n es)) [
  | inl later ↦ inr later
  | inr last ↦ inl (ground arith)
]

clear_slots-file :
    (n : ℕ) (es : List EventCode) (s : EventState)
    → (s.file ≡ some s.global) ⊎ (recorded n es ≡ true)
    → (clear_slots true n es s).1.file ≡ some (clear_slots true n es s).1.global
unfolding clear_slots
clear_slots-file zero es s h = ground arith
clear_slots-file (suc n) [] s h = ground arith
clear_slots-file (suc n) (ec ∷ es) s h =
    clear_slots-file n es (sent true ec s) (sent-file n ec es s h)

-- When the event file can be written, it holds the record in memory after
-- `cwmp_event_clear_active` if it did before, or if an event that the record tells of has waited.
pub clear_active-file :
    (s : EventState)
    → (s.file ≡ some s.global) ⊎ (recorded s.el.count s.el.events ≡ true)
    → (clear_active true s).file ≡ some (clear_active true s).global
unfolding clear_active
clear_active-file s h = clear_slots-file s.el.count s.el.events s h

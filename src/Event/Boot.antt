-- ===== src/Event/Boot.antt =====
-- `cwmp_event_init`: what the device reports after a start, by the record in the event file.
use netcwmp_xo.Base.{
  ℕ, ◌<◌, ◌≡◌, ◌∙◌, Bool, true, false, not, ◌&&◌, ◌||◌, Option, none, some, arith, ◌==◌,
  if◌then◌else◌, inr,
}
use netcwmp_xo.Event.Inform
use netcwmp_xo.Event.{
  EventGlobal, EventState, has_flag, init, global_init, find_slot, filled, clear_active,
}
use netcwmp_xo.Event.Clear.{recorded, clear_active-file, clear_active-Noted}
use netcwmp_xo.Event.Slots.{IsValid, waits}

-- A record that has no flag, or that has the bootstrap flag, counts as that of a first start.
abbrev pub is_first : EventGlobal → Bool
is_first g = g.event_flag == 0 || has_flag g.event_flag 1

-- The events that wait after a start
abbrev pub started : EventGlobal → ℕ → Bool
started g j =
    if j == Inform.bootstrap
    then is_first g
    else if j == Inform.boot
    then not (is_first g)
    else if j == Inform.mreboot
    then not (is_first g) && has_flag g.event_flag 2
    else if j == Inform.mdownload || j == Inform.transfercomplete
    then not (is_first g) && has_flag g.event_flag 4
    else false

-- After `cwmp_event_init` exactly these events wait: BOOTSTRAP after a first start; otherwise BOOT,
-- with M Reboot if an ACS has been told, and with M Download and TRANSFER COMPLETE if a transfer
-- is complete. A missing file counts as a zeroed record.
init-waits :
    (file : Option EventGlobal) (j : ℕ) → waits j (init file).el ≡ started (global_init file) j
unfolding init find_slot filled
init-waits none j = ground arith
init-waits (some g) j = ground arith

started_first :
    (g : EventGlobal)
    → has_flag g.event_flag 1 ≡ true
    → (started (global_init (some g)) Inform.bootstrap ≡ true)
      × (started (global_init (some g)) Inform.boot ≡ false)
      × (started (global_init (some g)) Inform.transfercomplete ≡ false)
unfolding global_init
started_first g b = ground arith

-- The list that `cwmp_event_init` builds is well formed.
init-IsValid : (file : Option EventGlobal) → IsValid (init file).el
unfolding init find_slot filled
init-IsValid none = ground arith
init-IsValid (some g) = ground arith

-- Once a record has the bootstrap flag, no Inform takes it away: what `cwmp_event_clear_active`
-- writes makes the next start a first start again, which reports BOOTSTRAP, and neither BOOT nor a
-- completed transfer.
bootstrap_again :
    (s : EventState)
    → s.global.event_flag < 128
    → has_flag s.global.event_flag 1 ≡ true
    → recorded s.el.count s.el.events ≡ true
    → (waits Inform.bootstrap (init (clear_active true s).file).el ≡ true)
      × (waits Inform.boot (init (clear_active true s).file).el ≡ false)
      × (waits Inform.transfercomplete (init (clear_active true s).file).el ≡ false)
bootstrap_again s h b r =
    let g = (clear_active true s).global in
    let t = started_first g ((clear_active-Noted true s h).bootstrap_kept ∙ b) in
    rw (clear_active-file s (inr r)) (
      init-waits (some g) Inform.bootstrap ∙ t.0,
      init-waits (some g) Inform.boot ∙ t.1,
      init-waits (some g) Inform.transfercomplete ∙ t.2,
    )

-- ===== src/Tasks/Reports.antt =====
-- What the next Inform tells of the tasks that were run.
use netcwmp_xo.Base.{
  ℕ, ◌+◌, ◌≤◌, ◌≡◌, true, none, some, List, [], ◌∷◌, ◌==◌, if◌then◌else◌, length, ◌⊎◌,
}
use netcwmp_xo.Event.Inform
use netcwmp_xo.Event.{Bytes, EventState}
use netcwmp_xo.Event.Slots.{IsValid, waits}
use netcwmp_xo.Tasks.{Payload, task_download, task_upload}
use netcwmp_xo.Transfer.{creates_dest, copied_type}

-- A transfer task that can be run: it has its argument with a URL whose parts fit, and that of an upload
-- has a file type with room for the one that is copied over it.
abbrev pub IsTransfer : ℕ × Payload → Type 0
IsTransfer (tag, none) = ⊥
IsTransfer (tag, some arg) =
    (creates_dest arg.url ≡ true)
    × ((tag ≡ task_download)
        ⊎ ((tag ≡ task_upload)
            × ((f : Bytes) × (arg.filetype ≡ some f) × (copied_type ≤ length f))))

abbrev pub AreTransfers : List (ℕ × Payload) → Type 0
AreTransfers [] = Unit {0}
AreTransfers (x ∷ xs) = IsTransfer x × AreTransfers xs

-- One transfer makes TRANSFER COMPLETE wait, whatever its result.
record Reported (s s' : EventState) : Type 0 where
  valid : IsValid s'.el
  counted : s'.el.count ≡ s.el.count + 1
  sized : s'.el.size ≡ s.el.size
  reported : (j : ℕ) → waits j s'.el ≡ (if j == Inform.transfercomplete then true else waits j s.el)

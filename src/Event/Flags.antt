-- ===== src/Event/Flags.antt =====
-- The flags of `event_global_t`, for values below 128: every value that is made of the flags of
-- event.h. The laws are checked at each of the 128 values.
use Prim.Native.Nat.{bit_and, bit_or}
use netcwmp_xo.Base.{
  ℕ, zero, suc, ◌<◌, ◌≡◌, refl, Bool, true, false, not, ◌&&◌, ◌==◌, arith, if◌then◌else◌, ltb,
}
use netcwmp_xo.Event.Flag
use netcwmp_xo.Event.{has_flag}

every_below : ℕ → (ℕ → Bool) → Bool
every_below zero p = true
every_below (suc n) p = p n && every_below n p

every_below-holds : (n : ℕ) (p : ℕ → Bool) (x : ℕ) → every_below n p ≡ true → x < n → p x ≡ true
unfolding every_below
every_below-holds zero p x h k = absurd (omega arith)
every_below-holds (suc n) p x h k = ground (arith, every_below-holds n p x)

abbrev same : Bool → Bool → Bool
same a b = if a then b else not b

same-eq : (a b : Bool) → same a b ≡ true → a ≡ b
same-eq true true h = refl
same-eq true false h = cc
same-eq false true h = cc
same-eq false false h = refl

-- `EVENT_REBOOT_ACS_FLAG` set in `f`, `EVENT_REBOOT_TRANSFERCOMPLETE_FLAG` set, and the latter
-- cleared in a 32-bit word
abbrev pub with_acs : ℕ → ℕ
with_acs f = bit_or f Flag.acs

abbrev pub with_transfer : ℕ → ℕ
with_transfer f = bit_or f Flag.transfercomplete

abbrev pub without_transfer : ℕ → ℕ
without_transfer f = bit_and f 0xfffffffb

-- The flags besides the three of a reboot, and the bits that no flag uses
unfoldable pub other_flags : ℕ → ℕ
other_flags f = bit_and f 0xfffffff8

abbrev laws : ℕ → Bool
laws f =
    ltb (with_acs f) 128
    && ltb (with_transfer f) 128
    && ltb (without_transfer f) 128
    && same (has_flag (with_acs f) 1) (has_flag f 1)
    && has_flag (with_acs f) 2
    && same (has_flag (with_acs f) 4) (has_flag f 4)
    && same (has_flag (with_transfer f) 1) (has_flag f 1)
    && same (has_flag (with_transfer f) 2) (has_flag f 2)
    && has_flag (with_transfer f) 4
    && same (has_flag (without_transfer f) 1) (has_flag f 1)
    && same (has_flag (without_transfer f) 2) (has_flag f 2)
    && not (has_flag (without_transfer f) 4)
    && other_flags (with_acs f) == other_flags f
    && other_flags (with_transfer f) == other_flags f
    && other_flags (without_transfer f) == other_flags f

laws_hold : every_below 128 laws ≡ true
unfolding every_below has_flag other_flags
laws_hold = refl

pub record FlagLaws (f : ℕ) : Type 0 where
  pub acs_small : with_acs f < 128
  pub transfer_small : with_transfer f < 128
  pub without_small : without_transfer f < 128
  pub acs_1 : has_flag (with_acs f) 1 ≡ has_flag f 1
  pub acs_2 : has_flag (with_acs f) 2 ≡ true
  pub acs_4 : has_flag (with_acs f) 4 ≡ has_flag f 4
  pub transfer_1 : has_flag (with_transfer f) 1 ≡ has_flag f 1
  pub transfer_2 : has_flag (with_transfer f) 2 ≡ has_flag f 2
  pub transfer_4 : has_flag (with_transfer f) 4 ≡ true
  pub without_1 : has_flag (without_transfer f) 1 ≡ has_flag f 1
  pub without_2 : has_flag (without_transfer f) 2 ≡ has_flag f 2
  pub without_4 : has_flag (without_transfer f) 4 ≡ false
  pub acs_others : other_flags (with_acs f) ≡ other_flags f
  pub transfer_others : other_flags (with_transfer f) ≡ other_flags f
  pub without_others : other_flags (without_transfer f) ≡ other_flags f

laws-FlagLaws : (f : ℕ) → laws f ≡ true → FlagLaws f
laws-FlagLaws f h = ground arith

pub flag_laws : (f : ℕ) → f < 128 → FlagLaws f
flag_laws f h = laws-FlagLaws f (every_below-holds 128 laws f laws_hold h)

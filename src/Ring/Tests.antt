-- ===== src/Ring/Tests.antt =====
-- A ring of four bytes, and the theorems at inputs that meet their hypotheses.
use netcwmp_xo.Base.{◌≡◌, refl, [], ◌∷◌, arith}
use netcwmp_xo.Ring.{Ring, len, room, copied_at, put, get}
use netcwmp_xo.Ring.Length.{IsRing}

abbrev ring : Ring
ring = record { buffer = 7 ∷ 8 ∷ 9 ∷ 6 ∷ []; size = 4; in_pos = 3; out_pos = 2 }

-- Two bytes stand at the end and at the start, and come back in their order with the one before.
around :
    get 3 ((put (1 ∷ 2 ∷ []) ring).1)
    ≡ (9 ∷ 1 ∷ 2 ∷ [], record { buffer = 2 ∷ 8 ∷ 9 ∷ 1 ∷ []; size = 4; in_pos = 0; out_pos = 0 })
unfolding get put len room copied_at
around = refl

ring-IsRing : IsRing ring
ring-IsRing = record {
  is_power = refl;
  small = omega arith;
  full_length = refl;
  in_ok = omega arith;
  out_ok = omega arith;
}

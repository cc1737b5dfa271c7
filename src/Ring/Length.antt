-- ===== src/Ring/Length.antt =====
-- How many bytes a ring of netcwmp_xo/libcwmp/src/ring_buffer.c holds.
use native.Mathlib.Nat.{mod-eq_of_lt, mod-eq-sub-mod}
use netcwmp_xo.Base.{
  ℕ, ◌+◌, ◌-◌, ◌%◌, ◌^◌, ◌≤◌, ◌<◌, ◌≡◌, refl, sym, ap, ◌∙◌, ◌⊎◌, true, false, inl, inr, Bool-cases,
  ltb, leb, if◌then◌else◌, length, arith,
}
use netcwmp_xo.Ring.{Bytes, Ring, is_power_of_two, sum32, len, room, first_part, written, put}

-- A ring as `ring_buffer_init` makes it, with both positions in it
pub record IsRing (r : Ring) : Type 0 where
  pub is_power : is_power_of_two r.size ≡ true
  pub small : r.size ≤ 2 ^ 31
  pub full_length : length r.buffer ≡ r.size
  pub in_ok : r.in_pos < r.size
  pub out_ok : r.out_pos < r.size

-- A position and a number of bytes that is at most the size, with and without the way round
sum32_small : (a b size : ℕ) → a < size → b ≤ size → size ≤ 2 ^ 31 → sum32 a b ≡ a + b
sum32_small a b size h k l = mod-eq_of_lt (omega arith)

next-below : (a b size : ℕ) → a + b < size → size ≤ 2 ^ 31 → sum32 a b % size ≡ a + b
next-below a b size h l =
    ap (λ z. z % size) (sum32_small a b size (omega arith) (omega arith) l) ∙ mod-eq_of_lt h

next-around :
    (a b size : ℕ)
    → a < size
    → b ≤ size
    → size ≤ a + b
    → size ≤ 2 ^ 31
    → sum32 a b % size ≡ a + b - size
next-around a b size h k m l =
    ap (λ z. z % size) (sum32_small a b size h k l) ∙ mod-eq-sub-mod m ∙ mod-eq_of_lt (omega arith)

put-fits :
    (bytes : Bytes) (r : Ring)
    → length bytes ≤ room r
    → put bytes r ≡ (
      length bytes,
      record r {
        buffer = written r bytes (first_part r (r.in_pos) (length bytes));
        in_pos = sum32 (r.in_pos) (length bytes) % r.size;
      },
    )
unfolding put
put-fits bytes r h = let e : ltb (room r) (length bytes) ≡ false = ground arith in rw e refl

-- Length and room make up the size.
len-room : (r : Ring) → IsRing r → len r + room r ≡ r.size
unfolding len room
len-room r v = elim (Bool-cases (leb (r.out_pos) (r.in_pos))) [
  | inl one ↦ rw one (
      ground (
        arith,
        v.in_ok,
        v.out_ok,
        v.small,
        sum32_small (r.out_pos) (r.size - r.in_pos) (r.size) (v.out_ok) (omega arith) (v.small),
      ))
  | inr two ↦ rw two (
      ground (
        arith,
        v.in_ok,
        v.out_ok,
        v.small,
        sum32_small (r.in_pos) (r.size) (r.size) (v.in_ok) (omega arith) (v.small),
      ))
]

-- The next position, with or without the way round
next-cases :
    (a b size : ℕ)
    → a < size
    → b ≤ size
    → size ≤ 2 ^ 31
    → ((sum32 a b % size ≡ a + b) × (a + b < size)) ⊎ ((sum32 a b % size) + size ≡ a + b)
next-cases a b size h k l = elim (Bool-cases (ltb (a + b) size)) [
  | inl below ↦ inl (next-below a b size (ground arith) l, ground arith)
  | inr around ↦ inr (omega (arith, next-around a b size h k (ground arith) l, wide around))
]
  where
    wide : ltb (a + b) size ≡ false → size ≤ a + b
    wide e = ground arith

-- The length from the positions
abbrev distance : ℕ → ℕ → ℕ → ℕ
distance size in_pos out_pos =
    if leb out_pos in_pos then in_pos - out_pos else size + in_pos - out_pos

len-distance :
    (r : Ring)
    → r.in_pos < r.size
    → r.size ≤ 2 ^ 31
    → len r ≡ distance (r.size) (r.in_pos) (r.out_pos)
unfolding len
len-distance r h l = elim (Bool-cases (leb (r.out_pos) (r.in_pos))) [
  | inl one ↦ rw one refl
  | inr two ↦ rw two (ap (λ z. z - r.out_pos) (mod-eq_of_lt (omega arith)))
]

distance-next :
    (size a b n m : ℕ)
    → a < size
    → b < size
    → distance size a b + n < size
    → ((m ≡ a + n) × (a + n < size)) ⊎ (m + size ≡ a + n)
    → distance size m b ≡ distance size a b + n
distance-next size a b n m h k l (inl (e, f)) = ground (arith, e)
distance-next size a b n m h k l (inr e) = ground (arith, e)

distance-full :
    (size a b n m : ℕ)
    → a < size
    → b < size
    → distance size a b + n ≡ size
    → ((m ≡ a + n) × (a + n < size)) ⊎ (m + size ≡ a + n)
    → distance size m b ≡ 0
distance-full size a b n m h k l (inl (e, f)) = ground (arith, e)
distance-full size a b n m h k l (inr e) = ground (arith, e)

module _ (bytes : Bytes) (r : Ring) (v : IsRing r) where
  -- What `ring_buffer_put` leaves where there is room
  abbrev after_put : Ring
  after_put = record r {
    buffer = written r bytes (first_part r (r.in_pos) (length bytes));
    in_pos = sum32 (r.in_pos) (length bytes) % r.size;
  }

  room_size : room r ≤ r.size
  room_size = omega (arith, len-room r v)

  moved :
      length bytes ≤ room r
      → ((after_put.in_pos ≡ r.in_pos + length bytes) × (r.in_pos + length bytes < r.size))
        ⊎ (after_put.in_pos + r.size ≡ r.in_pos + length bytes)
  moved h =
      next-cases (r.in_pos) (length bytes) (r.size) (v.in_ok) (omega (arith, room_size)) (v.small)

  after_put-in_ok :
      ((after_put.in_pos ≡ r.in_pos + length bytes) × (r.in_pos + length bytes < r.size))
        ⊎ (after_put.in_pos + r.size ≡ r.in_pos + length bytes)
      → length bytes ≤ room r
      → after_put.in_pos < r.size
  after_put-in_ok (inl (e, f)) h = omega arith
  after_put-in_ok (inr e) h = omega (arith, room_size, v.in_ok)

  -- `ring_buffer_put` of fewer bytes than there is room for puts all of them, and the ring holds so many
  -- more.
  put-len :
      length bytes < room r
      → ((put bytes r).0 ≡ length bytes) × (len ((put bytes r).1) ≡ len r + length bytes)
  put-len h =
      let e = put-fits bytes r (omega arith) in
      let m = moved (omega arith) in
      let before = len-distance r (v.in_ok) (v.small) in
      let more =
        distance-next (r.size) (r.in_pos) (r.out_pos) (length bytes) (after_put.in_pos) (v.in_ok)
          (v.out_ok) (omega (arith, len-room r v, before)) m in
      (
        ap (λ z. z.0) e,
        ap (λ z. len z.1) e
            ∙ len-distance after_put (after_put-in_ok m (omega arith)) (v.small)
            ∙ more
            ∙ ap (λ z. z + length bytes) (sym before),
      )

  -- `ring_buffer_put` of as many bytes as there is room for reports that all of them were put, but the ring
  -- looks empty then.
  put-fills : length bytes ≡ room r → ((put bytes r).0 ≡ length bytes) × (len ((put bytes r).1) ≡ 0)
  put-fills h =
      let e = put-fits bytes r (omega arith) in
      let m = moved (omega arith) in
      let before = len-distance r (v.in_ok) (v.small) in
      (
        ap (λ z. z.0) e,
        ap (λ z. len z.1) e
            ∙ len-distance after_put (after_put-in_ok m (omega arith)) (v.small)
            ∙ distance-full (r.size) (r.in_pos) (r.out_pos) (length bytes) (after_put.in_pos)
                (v.in_ok) (v.out_ok) (omega (arith, len-room r v, before)) m,
      )

-- ===== src/Ring.antt =====
-- netcwmp_xo/libcwmp/src/ring_buffer.c: a ring of bytes. The lock is held over each operation, so an
-- operation is one step. The allocation in `ring_buffer_init` succeeds.
pub mod Length
pub mod Tests
use Prim.Native.Nat.{bit_and}
use netcwmp_xo.Base.{
  ℕ, ◌+◌, ◌-◌, ◌%◌, ◌^◌, Bool, true, false, not, ◌&&◌, Option, none, some, List, [], ◌++◌, ltb, leb,
  ◌==◌, if◌then◌else◌, length, take, drop,
}

abbrev pub Bytes : Type 0
Bytes = List ℕ

-- `struct ring_buffer`
pub record Ring : Type 0 where
  pub buffer : Bytes
  pub size : ℕ
  pub in_pos : ℕ
  pub out_pos : ℕ

abbrev pub is_power_of_two : ℕ → Bool
is_power_of_two x = not (x == 0) && (bit_and x (x - 1) == 0)

-- `ring_buffer_init`
unfoldable pub init : Bytes → ℕ → Option Ring
init buffer size =
    if is_power_of_two size
    then some (record { buffer = buffer; size = size; in_pos = 0; out_pos = 0 })
    else none

-- A sum of 32 bits
abbrev pub sum32 : ℕ → ℕ → ℕ
sum32 a b = (a + b) % 2 ^ 32

-- `__ring_buffer_len`
unfoldable pub len : Ring → ℕ
len r = if leb r.out_pos r.in_pos then r.in_pos - r.out_pos else sum32 r.size r.in_pos - r.out_pos

-- The room that `__ring_buffer_put` finds
unfoldable pub room : Ring → ℕ
room r =
    if leb r.out_pos r.in_pos then sum32 (r.size - r.in_pos) r.out_pos else r.out_pos - r.in_pos

abbrev pub min : ℕ → ℕ → ℕ
min a b = if ltb a b then a else b

-- Where a position stands in the buffer
abbrev pub masked : Ring → ℕ → ℕ
masked r pos = bit_and pos (r.size - 1)

-- `memcpy` of `data` into `buffer` at an offset
unfoldable pub copied_at : ℕ → Bytes → Bytes → Bytes
copied_at offset bytes buffer = take offset buffer ++ bytes ++ drop (offset + length bytes) buffer

-- How many bytes fit up to the end of the buffer
abbrev pub first_part : Ring → ℕ → ℕ → ℕ
first_part r pos n = min n (r.size - masked r pos)

abbrev pub written : Ring → Bytes → ℕ → Bytes
written r bytes n =
    copied_at 0 (drop n bytes) (copied_at (masked r r.in_pos) (take n bytes) r.buffer)

-- `__ring_buffer_put`, for the `size` first bytes of its argument: the number of bytes put
unfoldable pub put : Bytes → Ring → ℕ × Ring
put bytes r = if ltb (room r) (length bytes) then (0, r) else (
  length bytes,
  record r {
    buffer = written r bytes (first_part r r.in_pos (length bytes));
    in_pos = sum32 r.in_pos (length bytes) % r.size;
  },
)

abbrev pub read : Ring → ℕ → ℕ → Bytes
read r size n = take n (drop (masked r r.out_pos) r.buffer) ++ take (size - n) r.buffer

-- Both positions at the start when nothing is left
abbrev pub reset : Ring → Ring
reset r = if r.in_pos == r.out_pos then record r { in_pos = 0; out_pos = 0 } else r

-- `ring_buffer_get`: the bytes, nothing where there are fewer, and the ring afterwards
unfoldable pub get : ℕ → Ring → Bytes × Ring
get size r = if ltb (len r) size then ([], reset r) else (
  read r size (first_part r r.out_pos size),
  reset (record r { out_pos = sum32 r.out_pos size % r.size }),
)

-- ===== src/Chunk.antt =====
-- Buffers and chunks, netcwmp_xo/libcwmp/src/buffer.c: the chains of blocks that the requests and
-- the answers of a session stand in.
pub mod Write
pub mod Copy
pub mod Bytes
pub mod Tests
use netcwmp_xo.Base.{
  ℕ, zero, suc, ◌+◌, ◌-◌, Bool, true, false, ◌&&◌, Option, none, some, List, [], ◌∷◌, ◌++◌, ltb,
  leb, ◌==◌, if◌then◌else◌, length, take, drop, Rc, cwmp_ok, cwmp_error,
}

-- `DEFAULT_BUFFER_SIZE`
abbrev pub default_buffer_size : ℕ
default_buffer_size = 1024

-- `cwmp_buffer_t`: `string` holds the bytes that have been written, so `writed` is their number and
-- `offset` points behind them. `next` is the order in the chunk.
pub record Buffer : Type 0 where
  pub string : List ℕ
  pub readed : ℕ
  pub size : ℕ

abbrev pub writed : Buffer → ℕ
writed b = length b.string

-- `cwmp_buffer_create`, `cwmp_buffer_init` and `cwmp_buffer_clear`
abbrev pub fresh : Buffer
fresh = record { string = []; readed = 0; size = default_buffer_size }

-- `cwmp_buffer_length` of a buffer
abbrev pub buffer_length : Buffer → ℕ
buffer_length b = writed b - b.readed

-- `cwmp_buffer_remain`; NULL has no room.
abbrev pub buffer_remain : Option Buffer → ℕ
buffer_remain none = 0
buffer_remain (some b) = b.size - writed b

-- `cwmp_buffer_write_bytes`
unfoldable pub write_bytes : List ℕ → Buffer → Buffer
write_bytes val b =
    if ltb (b.size - writed b) (length val) then b else record b { string = b.string ++ val }

-- `cwmp_buffer_read_bytes`: what is read, with the buffer, or `none` for `CWMP_ERROR`
unfoldable pub read_bytes : ℕ → Buffer → Option (List ℕ × Buffer)
read_bytes len b =
    if ltb (buffer_length b) len
    then none
    else some (take len (drop b.readed b.string), record b { readed = b.readed + len })

-- `cwmp_chunk_t`: the chain from `buffer` on, cut at `current`, and `bytes`. Nothing sets `used` and
-- `count` to anything but 0.
pub record Chunk : Type 0 where
  pub before : List Buffer
  pub current : Option Buffer
  pub after : List Buffer
  pub bytes : ℕ

-- `cwmp_chunk_create`, `cwmp_chunk_init` and `cwmp_chunk_clear`
unfoldable pub chunk_clear : Chunk → Chunk
chunk_clear c = record { before = []; current = none; after = []; bytes = 0 }

-- The chain that starts at `buffer`
abbrev pub chain : List Buffer → Option Buffer → List Buffer → List Buffer
chain bs none cs = bs ++ cs
chain bs (some b) cs = bs ++ b ∷ cs

-- A new buffer at the end, where the pool has one
unfoldable pub extend : Bool → List Buffer → Chunk → Option Chunk
extend true bs c = some (record c { before = bs; current = some fresh; after = [] })
extend false bs c = none

-- The move of `cwmp_chunk_write_string` to a buffer with room: to the next one, which is cleared and
-- so loses those behind it, else to a new one.
unfoldable pub advance : Bool → Option Buffer → List Buffer → Chunk → Option Chunk
unfolding extend
advance got none cs c = extend got c.before c
advance got (some b) [] c = extend got (c.before ++ b ∷ []) c
advance got (some b) (n ∷ ns) c =
    some (record c { before = c.before ++ b ∷ []; current = some fresh; after = [] })

unfoldable pub with_room : (Chunk → Bool) → Chunk → Option Chunk
unfolding advance
with_room pool c =
    if buffer_remain c.current == 0 then advance (pool c) c.current c.after c else some c

-- `leftbytes > len ? len : leftbytes`
abbrev pub smaller : ℕ → ℕ → ℕ
smaller left len = if ltb len left then len else left

abbrev pub put : ℕ → List ℕ → Option Buffer → Option Buffer
put n s none = none
put n s (some b) = some (write_bytes (take n s) b)

-- The copying in one round of the loop
unfoldable pub write_some : List ℕ → Chunk → Chunk
write_some s c =
    let n = smaller (length s) (buffer_remain c.current) in
    record c { current = put n s c.current; bytes = c.bytes + n }

-- How the loop leaves: with the number of bytes written, where no buffer could be made, or at the
-- end of the fuel.
pub data Written : Type 0 where
  wrote : ℕ → Chunk → Written
  no_buffer : Chunk → Written
  out_of_fuel : Written

-- `cwmp_chunk_write_string`, where `n` bytes have been written
unfoldable pub write_string : (Chunk → Bool) → ℕ → List ℕ → ℕ → Chunk → Written
unfolding with_room write_some
write_string pool fuel [] n c = wrote n c
write_string pool zero (x ∷ s) n c = out_of_fuel
write_string pool (suc fuel) (x ∷ s) n c = elim (with_room pool c) [
  | none ↦ no_buffer c
  | some r ↦
      write_string pool fuel (drop (smaller (length (x ∷ s)) (buffer_remain r.current)) (x ∷ s))
        (n + smaller (length (x ∷ s)) (buffer_remain r.current)) (write_some (x ∷ s) r)
]

unfoldable pub nuls : ℕ → List ℕ
nuls zero = []
nuls (suc n) = 0 ∷ nuls n

-- The C library's `strncpy`, which fills up with NUL behind the end of the string
unfoldable pub strncpy : ℕ → List ℕ → List ℕ
unfolding nuls
strncpy zero s = []
strncpy (suc n) [] = nuls (suc n)
strncpy (suc n) (x ∷ s) = if x == 0 then nuls (suc n) else x ∷ strncpy n s

-- The loop of `cwmp_chunk_copy`: what it writes, with `left` bytes to come and `room` of `max_length`
-- left, which `destwrited` never exceeds
unfoldable pub copy_loop : List Buffer → ℕ → ℕ → List ℕ
unfolding strncpy
copy_loop [] left room = []
copy_loop (b ∷ bs) left room =
    let n = smaller (smaller left (buffer_length b)) room in
    let rest = copy_loop bs (left - n) (room - n) in
    if ltb 0 left then strncpy n b.string ++ rest else []

-- `cwmp_chunk_copy`
unfoldable pub copy : Chunk → ℕ → List ℕ
unfolding copy_loop
copy c max_length = copy_loop (chain c.before c.current c.after) c.bytes max_length

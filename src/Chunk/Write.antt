-- ===== src/Chunk/Write.antt =====
-- `cwmp_chunk_write_string`: it appends to the text of a chunk.
use netcwmp_xo.Base.{
  ℕ, zero, suc, ◌+◌, ◌-◌, ◌≤◌, ◌<◌, ◌≡◌, refl, sym, ap, ◌∙◌, Bool, true, Option, none, some, List,
  [], subst, ◌∷◌, ◌++◌, append-nil, append_assoc, arith, ◌==◌, Bool-cases, inl, inr, length,
  length-append, length-take, take, drop, take-append-drop, length-drop,
}
use netcwmp_xo.Chunk.{
  Buffer, default_buffer_size, fresh, Chunk, buffer_remain, write_bytes, advance, extend, with_room,
  smaller, put, write_some, write_string, wrote,
}

-- A buffer of a chunk, from which nothing has been read
pub record IsBuffer (b : Buffer) : Type 0 where
  pub full_size : b.size ≡ default_buffer_size
  pub fits : length b.string ≤ default_buffer_size
  pub unread : b.readed ≡ 0

abbrev pub AreBuffers : List Buffer → Type 0
AreBuffers [] = Unit {0}
AreBuffers (b ∷ bs) = IsBuffer b × AreBuffers bs

abbrev pub IsCurrent : Option Buffer → Type 0
IsCurrent none = Unit {0}
IsCurrent (some b) = IsBuffer b

abbrev pub texts : List Buffer → List ℕ
texts [] = []
texts (b ∷ bs) = b.string ++ texts bs

abbrev pub current_text : Option Buffer → List ℕ
current_text none = []
current_text (some b) = b.string

-- The bytes that a chunk stands for
abbrev pub text : Chunk → List ℕ
text c = texts c.before ++ current_text c.current

-- What holds between the calls: the buffers are well formed up to the current one, and `bytes`
-- counts the text.
pub record IsChunk (c : Chunk) : Type 0 where
  pub before_ok : AreBuffers c.before
  pub current_ok : IsCurrent c.current
  pub bytes_is : c.bytes ≡ length (text c)

pub texts-snoc : (bs : List Buffer) (b : Buffer) → texts (bs ++ b ∷ []) ≡ texts bs ++ b.string
texts-snoc [] b = append-nil b.string
texts-snoc (a ∷ bs) b = rw (texts-snoc bs b) (sym (append_assoc a.string (texts bs) b.string))

pub AreBuffers-snoc :
    (bs : List Buffer) (b : Buffer) → AreBuffers bs → IsBuffer b → AreBuffers (bs ++ b ∷ [])
AreBuffers-snoc [] b h k = (k, tt)
AreBuffers-snoc (a ∷ bs) b h k = (h.0, AreBuffers-snoc bs b h.1 k)

fresh-IsBuffer : IsBuffer fresh
fresh-IsBuffer = ground arith

-- A chunk with the same text whose current buffer has room
record Ready (c r : Chunk) : Type 0 where
  is_chunk : IsChunk r
  same_text : text r ≡ text c
  room : 0 < buffer_remain r.current

abbrev extended : List Buffer → Chunk → Chunk
extended bs c = record c { before = bs; current = some fresh; after = [] }

extended-Ready :
    (bs : List Buffer) (c : Chunk)
    → AreBuffers bs
    → texts bs ≡ text c
    → c.bytes ≡ length (text c)
    → Ready c (extended bs c)
extended-Ready bs c h t n =
    let same : text (extended bs c) ≡ text c = append-nil (texts bs) ∙ t in
    record {
      is_chunk = record {
        before_ok = h;
        current_ok = fresh-IsBuffer;
        bytes_is = n ∙ ap length (sym same);
      };
      same_text = same;
      room = omega arith;
    }

snoc-Ready :
    (b : Buffer) (c : Chunk)
    → some b ≡ c.current
    → IsChunk c
    → Ready c (extended (c.before ++ b ∷ []) c)
snoc-Ready b c e v =
    let t : texts (c.before ++ b ∷ []) ≡ text c = rw (sym e) (texts-snoc c.before b) in
    let h : IsBuffer b = subst IsCurrent (sym e) v.current_ok in
    extended-Ready (c.before ++ b ∷ []) c (AreBuffers-snoc c.before b v.before_ok h) t v.bytes_is

advance-Ready :
    (cur : Option Buffer) (cs : List Buffer) (c : Chunk)
    → cur ≡ c.current
    → IsChunk c
    → (r : Chunk) × (advance true cur cs c ≡ some r) × Ready c r
unfolding advance extend
advance-Ready none cs c e v =
    let t : texts c.before ≡ text c = rw (sym e) (sym (append-nil (texts c.before))) in
    (extended c.before c, refl, extended-Ready c.before c v.before_ok t v.bytes_is)
advance-Ready (some b) [] c e v = (extended (c.before ++ b ∷ []) c, refl, snoc-Ready b c e v)
advance-Ready (some b) (n ∷ ns) c e v = (extended (c.before ++ b ∷ []) c, refl, snoc-Ready b c e v)

with_room-Ready :
    (pool : Chunk → Bool) (c : Chunk)
    → pool c ≡ true
    → IsChunk c
    → (r : Chunk) × (with_room pool c ≡ some r) × Ready c r
unfolding with_room
with_room-Ready pool c p v = elim (Bool-cases (buffer_remain c.current == 0)) [
  | inl full ↦ rw (full, p) (advance-Ready c.current c.after c refl v)
  | inr some_room ↦
      rw some_room (c, refl, record { is_chunk = v; same_text = refl; room = ground arith })
]

-- One round of the copying, into a buffer that has room for `n` more bytes
write_bytes-room :
    (s : List ℕ) (b : Buffer)
    → length s ≤ b.size - length b.string
    → write_bytes s b ≡ record b { string = b.string ++ s }
unfolding write_bytes
write_bytes-room s b h = ground arith

smaller-le : (a b : ℕ) → (smaller a b ≤ a) × (smaller a b ≤ b)
smaller-le a b = ground arith

put-written :
    (cur : Option Buffer) (s : List ℕ) (n : ℕ)
    → n ≤ buffer_remain cur
    → n ≤ length s
    → IsCurrent cur
    → IsCurrent (put n s cur) × (current_text (put n s cur) ≡ current_text cur ++ take n s)
put-written none s n h k v = let z : n ≡ 0 = omega arith in (tt, rw z refl)
put-written (some b) s n h k v =
    let l = length-take n s k in
    let w = write_bytes-room (take n s) b (omega arith) in
    rw w (
      record {
        full_size = v.full_size;
        fits = rw (length-append b.string (take n s)) (omega (arith, l, v.full_size, v.fits));
        unread = v.unread;
      },
      refl,
    )

record Wrote (s : List ℕ) (c d : Chunk) : Type 0 where
  is_chunk : IsChunk d
  appended : text d ≡ text c ++ s

write_some-Wrote :
    (s : List ℕ) (c : Chunk)
    → IsChunk c
    → Wrote (take (smaller (length s) (buffer_remain c.current)) s) c (write_some s c)
unfolding write_some
write_some-Wrote s c v =
    let n = smaller (length s) (buffer_remain c.current) in
    let le = smaller-le (length s) (buffer_remain c.current) in
    let w = put-written c.current s n le.1 le.0 v.current_ok in
    let t : text (write_some s c) ≡ text c ++ take n s =
      ap (◌++◌ (texts c.before)) w.1
      ∙ sym (append_assoc (texts c.before) (current_text c.current) (take n s)) in
    record {
      is_chunk = record {
        before_ok = v.before_ok;
        current_ok = w.0;
        bytes_is = rw (t, length-append (text c) (take n s), length-take n s le.0, v.bytes_is) refl;
      };
      appended = t;
    }

smaller-pos : (a b : ℕ) → 0 < a → 0 < b → 0 < smaller a b
smaller-pos a b h k = ground arith

write_string-next :
    (pool : Chunk → Bool) (fuel x : ℕ) (s : List ℕ) (n : ℕ) (c r : Chunk)
    → with_room pool c ≡ some r
    → write_string pool (suc fuel) (x ∷ s) n c
      ≡ write_string pool fuel
          (drop (smaller (length (x ∷ s)) (buffer_remain r.current)) (x ∷ s))
          (n + smaller (length (x ∷ s)) (buffer_remain r.current))
          (write_some (x ∷ s) r)
unfolding write_string
write_string-next pool fuel x s n c r e = rw (write_string, e) refl

-- When the pool always has memory, `cwmp_chunk_write_string` of `s` returns, with fuel for one round
-- per byte, the length of `s`; the chunk then stands for its former text followed by `s`, and is
-- well formed again.
pub write_string-appends :
    (pool : Chunk → Bool) (fuel : ℕ) (s : List ℕ) (n : ℕ) (c : Chunk)
    → ((d : Chunk) → pool d ≡ true)
    → IsChunk c
    → length s ≤ fuel
    → (d : Chunk) × (write_string pool fuel s n c ≡ wrote (n + length s) d)
      × IsChunk d
      × (text d ≡ text c ++ s)
unfolding write_string
write_string-appends pool fuel [] n c p v h =
    (c, ap (λ m. wrote m c) (omega arith), v, sym (append-nil (text c)))
write_string-appends pool zero (x ∷ s) n c p v h = absurd (omega arith)
write_string-appends pool (suc fuel) (x ∷ s) n c p v h =
    let (r, e, ready) = with_room-Ready pool c (p c) v in
    let k = smaller (length (x ∷ s)) (buffer_remain r.current) in
    let w = write_some-Wrote (x ∷ s) r ready.is_chunk in
    let pos = smaller-pos (length (x ∷ s)) (buffer_remain r.current) (omega arith) ready.room in
    let le = smaller-le (length (x ∷ s)) (buffer_remain r.current) in
    let l = length-drop k (x ∷ s) in
    let (d, run, ok, t) =
      write_string-appends pool fuel (drop k (x ∷ s)) (n + k) (write_some (x ∷ s) r) p w.is_chunk
        (omega (arith, l, pos)) in
    (
      d,
      write_string-next pool fuel x s n c r e ∙ run ∙ ap (λ m. wrote m d) (omega (arith, l, le.0)),
      ok,
      rw
          (
            t,
            w.appended,
            append_assoc (text r) (take k (x ∷ s)) (drop k (x ∷ s)),
            take-append-drop k (x ∷ s),
            ready.same_text,
          )
          refl,
    )

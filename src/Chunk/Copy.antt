-- ===== src/Chunk/Copy.antt =====
-- `cwmp_chunk_copy`: it gives the text of a chunk back.
use netcwmp_xo.Base.{
  ℕ, zero, suc, ◌+◌, ◌-◌, ◌≤◌, ◌≡◌, refl, sym, ap, ◌∙◌, Bool, true, false, Option, none, some, List,
  [], ◌∷◌, ◌++◌, append-nil, append_assoc, arith, ltb, ◌==◌, if◌then◌else◌, Bool-cases, inl, inr,
  length, length-append, take, take-all, subst,
}
use netcwmp_xo.Chunk.{
  Buffer, Chunk, chain, smaller, strncpy, copy_loop, copy, wrote, write_string, chunk_clear,
}
use netcwmp_xo.Chunk.Write.{
  IsBuffer, AreBuffers, IsCurrent, IsChunk, texts, current_text, text, write_string-appends,
  texts-snoc, AreBuffers-snoc,
}

-- A text without NUL
abbrev pub HasNoNul : List ℕ → Type 0
HasNoNul [] = Unit {0}
HasNoNul (x ∷ s) = ((x == 0) ≡ false) × HasNoNul s

HasNoNul-append : (s t : List ℕ) → HasNoNul (s ++ t) → HasNoNul s × HasNoNul t
HasNoNul-append [] t h = (tt, h)
HasNoNul-append (x ∷ s) t h = let r = HasNoNul-append s t h.1 in ((h.0, r.0), r.1)

strncpy-take : (n : ℕ) (s : List ℕ) → HasNoNul s → n ≤ length s → strncpy n s ≡ take n s
unfolding strncpy
strncpy-take zero s h k = refl
strncpy-take (suc n) [] h k = absurd (omega arith)
strncpy-take (suc n) (x ∷ s) h k = rw (h.0, strncpy-take n s h.1 (omega arith)) refl

take-append : (n : ℕ) (s t : List ℕ) → take n (s ++ t) ≡ take n s ++ take (n - length s) t
take-append zero [] t = refl
take-append zero (x ∷ s) t = let z : 0 - length (x ∷ s) ≡ 0 = omega arith in rw z refl
take-append (suc n) [] t = let z : suc n - length {A = ℕ} [] ≡ suc n = omega arith in rw z refl
take-append (suc n) (x ∷ s) t =
    let z : suc n - length (x ∷ s) ≡ n - length s = omega arith in
    rw z (ap (◌∷◌ x) (take-append n s t))

take-empty : (n : ℕ) (s : List ℕ) → length s ≡ 0 → take n s ≡ []
take-empty zero s h = refl
take-empty (suc n) [] h = refl
take-empty (suc n) (x ∷ s) h = absurd (omega arith)

-- With nothing left to come, or no room, nothing is copied.
copy_loop-done : (bs : List Buffer) (room : ℕ) → copy_loop bs 0 room ≡ []
unfolding copy_loop
copy_loop-done [] room = refl
copy_loop-done (b ∷ bs) room = refl

smaller-zero : (a : ℕ) → smaller a 0 ≡ 0
smaller-zero a = ground arith

copy_loop-full : (bs : List Buffer) (left : ℕ) → copy_loop bs left 0 ≡ []
unfolding copy_loop strncpy
copy_loop-full [] left = refl
copy_loop-full (b ∷ bs) left =
    rw (smaller-zero (smaller left (length b.string - b.readed)), copy_loop-full bs (left - 0))
      (ground arith)

-- The number of bytes that one round copies, of `lb` in the buffer and `lt` behind it
smaller-round : (lb lt room : ℕ) → smaller (smaller (lb + lt) (lb - 0)) room ≡ smaller lb room
smaller-round lb lt room = ground arith

copy_loop-rest :
    (bs : List Buffer) (t : List ℕ) (lb room : ℕ)
    → ((k : ℕ) → copy_loop bs (length t) k ≡ take k t)
    → copy_loop bs (lb + length t - smaller lb room) (room - smaller lb room) ≡ take (room - lb) t
copy_loop-rest bs t lb room ih = elim (Bool-cases (ltb room lb)) [
  | inl short ↦
      let none_left : room - smaller lb room ≡ 0 = ground arith in
      let none_due : room - lb ≡ 0 = ground arith in
      rw (none_left, none_due) (copy_loop-full bs (lb + length t - smaller lb room))
  | inr long ↦
      let left : lb + length t - smaller lb room ≡ length t = ground arith in
      let room_left : room - smaller lb room ≡ room - lb = ground arith in
      rw (left, room_left) (ih (room - lb))
]

take-smaller : (s : List ℕ) (room : ℕ) → take (smaller (length s) room) s ≡ take room s
take-smaller s room = elim (Bool-cases (ltb room (length s))) [
  | inl short ↦ rw short refl
  | inr long ↦ rw long (take-all (length s) s (omega arith) ∙ sym (take-all room s (ground arith)))
]

if-take :
    (s t : List ℕ) (room k : ℕ)
    → (if ltb 0 (length s + length t) then take room s ++ take k t else [])
      ≡ take room s ++ take k t
if-take s t room k = elim (Bool-cases (ltb 0 (length s + length t))) [
  | inl some_left ↦ rw some_left refl
  | inr nothing ↦
      let a = take-empty room s (ground arith) in
      let b = take-empty k t (ground arith) in rw (nothing, a, b) refl
]

-- One round over a buffer with text `t` behind it in the chunk
copy_loop-buffer :
    (b : Buffer) (bs : List Buffer) (t : List ℕ) (room : ℕ)
    → IsBuffer b
    → HasNoNul b.string
    → ((k : ℕ) → copy_loop bs (length t) k ≡ take k t)
    → copy_loop (b ∷ bs) (length (b.string ++ t)) room ≡ take room (b.string ++ t)
unfolding copy_loop
copy_loop-buffer b bs t room v h ih =
    let lb = length b.string in
    let n = smaller lb room in
    let le : n ≤ lb = ground arith in
    let rest : copy_loop bs (lb + length t - n) (room - n) ≡ take (room - lb) t =
      copy_loop-rest bs t lb room ih in
    rw
      (
        v.unread,
        length-append b.string t,
        smaller-round lb (length t) room,
        rest,
        strncpy-take n b.string h le,
      )
      (rw (take-append room b.string t, take-smaller b.string room)
        (if-take b.string t room (room - lb)))

copy_loop-texts :
    (bs cs : List Buffer) (room : ℕ)
    → AreBuffers bs
    → HasNoNul (texts bs)
    → copy_loop (bs ++ cs) (length (texts bs)) room ≡ take room (texts bs)
copy_loop-texts [] cs room v h = copy_loop-done cs room ∙ sym (take-empty room [] refl)
copy_loop-texts (b ∷ bs) cs room v h =
    let n = HasNoNul-append b.string (texts bs) h in
    copy_loop-buffer b (bs ++ cs) (texts bs) room v.0 n.0 (λ k. copy_loop-texts bs cs k v.1 n.1)

chain-texts :
    (bs : List Buffer) (cur : Option Buffer) (cs : List Buffer)
    → AreBuffers bs
    → IsCurrent cur
    → (ds : List Buffer) × AreBuffers ds
      × (es : List Buffer) × (chain bs cur cs ≡ ds ++ es)
      × (texts ds ≡ texts bs ++ current_text cur)
chain-texts bs none cs h k = (bs, h, cs, refl, sym (append-nil (texts bs)))
chain-texts bs (some b) cs h k =
    (bs ++ b ∷ [], AreBuffers-snoc bs b h k, cs, sym (append_assoc bs (b ∷ []) cs), texts-snoc bs b)

-- `cwmp_chunk_copy` of a chunk whose text has no NUL gives the text, up to `max_length` bytes.
pub copy-text :
    (c : Chunk) (max_length : ℕ)
    → IsChunk c
    → HasNoNul (text c)
    → copy c max_length ≡ take max_length (text c)
unfolding copy
copy-text c m v h =
    let (ds, ok, es, e, t) = chain-texts c.before c.current c.after v.before_ok v.current_ok in
    let n : HasNoNul (texts ds) = subst HasNoNul (sym t) h in
    let b : c.bytes ≡ length (texts ds) = v.bytes_is ∙ ap length (sym t) in
    rw (e, b) (copy_loop-texts ds es m ok n) ∙ ap (take m) t

chunk_clear-IsChunk : (c : Chunk) → IsChunk (chunk_clear c)
unfolding chunk_clear
chunk_clear-IsChunk c = ground arith

-- A text without NUL that is written to a cleared chunk, on any pool with memory, is what
-- `cwmp_chunk_copy` gives back when it has room for it.
pub write_string-copy :
    (pool : Chunk → Bool) (s : List ℕ) (c : Chunk) (max_length : ℕ)
    → ((d : Chunk) → pool d ≡ true)
    → HasNoNul s
    → length s ≤ max_length
    → (d : Chunk) × (write_string pool (length s) s 0 (chunk_clear c) ≡ wrote (length s) d)
      × (copy d max_length ≡ s)
unfolding chunk_clear
write_string-copy pool s c m p h l =
    let (d, e, v, t) =
      write_string-appends pool (length s) s 0 (chunk_clear c) p (chunk_clear-IsChunk c)
        (omega arith) in
    (
      d,
      e ∙ ap (λ n. wrote n d) (omega arith),
      copy-text d m v (subst HasNoNul (sym t) h) ∙ ap (take m) t ∙ take-all m s l,
    )

-- ===== src/Chunk/Bytes.antt =====
-- A buffer as a queue of bytes: `cwmp_buffer_write_bytes` and `cwmp_buffer_read_bytes`.
use netcwmp_xo.Base.{
  ℕ, zero, suc, ◌+◌, ◌-◌, ◌≤◌, ◌≡◌, refl, sym, ◌∙◌, Option, none, some, List, [], ◌∷◌, ◌++◌, arith,
  ltb, if◌then◌else◌, Bool-cases, inl, inr, length, take, drop, length-drop,
}
use netcwmp_xo.Chunk.{Buffer, buffer_length, write_bytes, read_bytes}

-- The bytes that have been written and not read
abbrev pub unread : Buffer → List ℕ
unread b = drop b.readed b.string

drop-nil : (n : ℕ) → drop {A = ℕ} n [] ≡ []
drop-nil zero = refl
drop-nil (suc n) = refl

drop-drop : (m n : ℕ) (s : List ℕ) → drop (m + n) s ≡ drop n (drop m s)
drop-drop zero n s = let z : 0 + n ≡ n = omega arith in rw z refl
drop-drop (suc m) n [] = drop-nil (suc m + n) ∙ sym (drop-nil n)
drop-drop (suc m) n (x ∷ s) =
    let z : suc m + n ≡ suc (m + n) = omega arith in rw z (drop-drop m n s)

drop-append : (n : ℕ) (s t : List ℕ) → n ≤ length s → drop n (s ++ t) ≡ drop n s ++ t
drop-append zero s t h = refl
drop-append (suc n) [] t h = absurd (omega arith)
drop-append (suc n) (x ∷ s) t h = drop-append n s t (omega arith)

-- What a reader sees of a read: the bytes, and those that are left
abbrev pub seen : Option (List ℕ × Buffer) → Option (List ℕ × List ℕ)
seen none = none
seen (some (val, b)) = some (val, unread b)

-- The read of `len` bytes from a list
abbrev pub front : ℕ → List ℕ → Option (List ℕ × List ℕ)
front len s = if ltb (length s) len then none else some (take len s, drop len s)

-- `cwmp_buffer_read_bytes` gives the oldest bytes that have not been read and leaves those behind
-- them; when there are fewer than it is asked for, it fails.
read_bytes-unread :
    (len : ℕ) (b : Buffer)
    → b.readed ≤ length b.string
    → seen (read_bytes len b) ≡ front len (unread b)
unfolding read_bytes
read_bytes-unread len b h =
    rw (length-drop b.readed b.string) (elim (Bool-cases (ltb (buffer_length b) len)) [
      | inl short ↦ rw short refl
      | inr long ↦ rw (long, drop-drop b.readed len b.string) refl
    ])

write_bytes-fits :
    (val : List ℕ) (b : Buffer)
    → length val ≤ b.size - length b.string
    → write_bytes val b ≡ record b { string = b.string ++ val }
unfolding write_bytes
write_bytes-fits val b h = ground arith

-- `cwmp_buffer_write_bytes` appends to the bytes that have not been read, where there is room for all
-- of its argument.
write_bytes-unread :
    (val : List ℕ) (b : Buffer)
    → b.readed ≤ length b.string
    → length val ≤ b.size - length b.string
    → unread (write_bytes val b) ≡ unread b ++ val
write_bytes-unread val b h k = rw (write_bytes-fits val b k) (drop-append b.readed b.string val h)

-- ===== src/Escape/RoundTrip.antt =====
-- What is written with escapes, and that it can be read back.
use netcwmp_xo.Base.{
  ℕ, zero, suc, ◌≡◌, refl, sym, ap, ◌∙◌, Bool, true, false, ◌||◌, some, List, [], ◌∷◌, ◌++◌,
  append-nil, append_assoc, arith, ◌==◌, if◌then◌else◌, Bool-cases, inl, inr, length, get_or,
}
use netcwmp_xo.Chunk.{Chunk}
use netcwmp_xo.Chunk.Write.{IsChunk, text, write_string-appends}
use netcwmp_xo.Escape.{escaped, after_write, write_piece, copy_chars, copy_to_chunk_with_escape}

-- All the text that is written for `s`
abbrev pub escape : List ℕ → List ℕ
escape [] = []
escape (x ∷ s) = escaped x ++ escape s

write_piece-text :
    (pool : Chunk → Bool) (s : List ℕ) (c : Chunk)
    → ((d : Chunk) → pool d ≡ true)
    → IsChunk c
    → IsChunk (write_piece pool s c) × (text (write_piece pool s c) ≡ text c ++ s)
unfolding after_write
write_piece-text pool s c p v =
    let (d, e, w, t) = write_string-appends pool (length s) s 0 c p v (omega arith) in rw e (w, t)

copy_chars-text :
    (pool : Chunk → Bool) (s : List ℕ) (c : Chunk)
    → ((d : Chunk) → pool d ≡ true)
    → IsChunk c
    → IsChunk (copy_chars pool s c) × (text (copy_chars pool s c) ≡ text c ++ escape s)
unfolding copy_chars
copy_chars-text pool [] c p v = (v, sym (append-nil (text c)))
copy_chars-text pool (x ∷ s) c p v =
    let w = write_piece-text pool (escaped x) c p v in
    let r = copy_chars-text pool s (write_piece pool (escaped x) c) p w.0 in
    (r.0, r.1 ∙ ap (λ t. t ++ escape s) w.1 ∙ append_assoc (text c) (escaped x) (escape s))

-- When the pool always has memory, `cwmp_xml_copy_to_chunk_with_escape` appends the characters of its
-- argument, each as its escape, to the text of the chunk, which stays well formed.
copy_to_chunk_with_escape-text :
    (pool : Chunk → Bool) (s : List ℕ) (c : Chunk)
    → ((d : Chunk) → pool d ≡ true)
    → IsChunk c
    → IsChunk (copy_to_chunk_with_escape pool (some s) c)
      × (text (copy_to_chunk_with_escape pool (some s) c) ≡ text c ++ escape s)
unfolding copy_to_chunk_with_escape
copy_to_chunk_with_escape-text pool s c p v = copy_chars-text pool s c p v

-- The character of the reference whose text behind `&` is given, and the length of that text
abbrev entity : List ℕ → ℕ × ℕ
entity s =
    if get_or s 0 0 == b'l'
    then (b'<', 3)
    else if get_or s 0 0 == b'g'
    then (b'>', 3)
    else if get_or s 0 0 == b'q'
    then (34, 5)
    else if get_or s 1 0 == b'm'
    then (b'&', 4)
    else (39, 5)

-- A reader of text with references, which passes over the next `k` characters
abbrev pub unescape : ℕ → List ℕ → List ℕ
unescape k [] = []
unescape (suc k) (x ∷ s) = unescape k s
unescape zero (x ∷ s) =
    if x == b'&' then (entity s).0 ∷ unescape (entity s).1 s else x ∷ unescape zero s

test-eq : (x k : ℕ) → (x == k) ≡ true → k ≡ x
test-eq x k h = ground arith

unescape-piece : (x : ℕ) (r : List ℕ) → unescape 0 (escaped x ++ r) ≡ x ∷ unescape 0 r
unfolding escaped
unescape-piece x r = elim (Bool-cases (x == b'<')) [
  | inl lt ↦ rw lt (ap (λ n. n ∷ unescape 0 r) (test-eq x b'<' lt))
  | inr a ↦ elim (Bool-cases (x == b'>')) [
    | inl gt ↦ rw (a, gt) (ap (λ n. n ∷ unescape 0 r) (test-eq x b'>' gt))
    | inr b ↦ elim (Bool-cases (x == b'&')) [
      | inl amp ↦ rw (a, b, amp) (ap (λ n. n ∷ unescape 0 r) (test-eq x b'&' amp))
      | inr c ↦ elim (Bool-cases (x == 39)) [
        | inl apos ↦ rw (a, b, c, apos) (ap (λ n. n ∷ unescape 0 r) (test-eq x 39 apos))
        | inr d ↦ elim (Bool-cases (x == 34)) [
          | inl quot ↦ rw (a, b, c, d, quot) (ap (λ n. n ∷ unescape 0 r) (test-eq x 34 quot))
          | inr e ↦ rw (a, b, c, d, e) (rw c refl)
        ]
      ]
    ]
  ]
]

-- The references in what is written for a text stand for its characters: a reader of references
-- reads the text back.
unescape-escape : (s : List ℕ) → unescape 0 (escape s) ≡ s
unescape-escape [] = refl
unescape-escape (x ∷ s) = unescape-piece x (escape s) ∙ ap (◌∷◌ x) (unescape-escape s)

-- No character of markup
abbrev pub is_markup : ℕ → Bool
is_markup x = x == b'<' || x == b'>' || x == 39 || x == 34

abbrev pub HasNoMarkup : List ℕ → Type 0
HasNoMarkup [] = Unit {0}
HasNoMarkup (x ∷ s) = (is_markup x ≡ false) × HasNoMarkup s

escaped-HasNoMarkup : (x : ℕ) (r : List ℕ) → HasNoMarkup r → HasNoMarkup (escaped x ++ r)
unfolding escaped
escaped-HasNoMarkup x r h = elim (Bool-cases (x == b'<')) [
  | inl lt ↦ rw lt (refl, (refl, (refl, (refl, h))))
  | inr a ↦ elim (Bool-cases (x == b'>')) [
    | inl gt ↦ rw (a, gt) (refl, (refl, (refl, (refl, h))))
    | inr b ↦ elim (Bool-cases (x == b'&')) [
      | inl amp ↦ rw (a, b, amp) (refl, (refl, (refl, (refl, (refl, h)))))
      | inr c ↦ elim (Bool-cases (x == 39)) [
        | inl apos ↦ rw (a, b, c, apos) (refl, (refl, (refl, (refl, (refl, (refl, h))))))
        | inr d ↦ elim (Bool-cases (x == 34)) [
          | inl quot ↦ rw (a, b, c, d, quot) (refl, (refl, (refl, (refl, (refl, (refl, h))))))
          | inr e ↦ rw (a, b, c, d, e) (ground arith, h)
        ]
      ]
    ]
  ]
]

-- What is written for a text has no `<`, `>` or quote, so it cannot end an element or an attribute.
escape-HasNoMarkup : (s : List ℕ) → HasNoMarkup (escape s)
escape-HasNoMarkup [] = tt
escape-HasNoMarkup (x ∷ s) = escaped-HasNoMarkup x (escape s) (escape-HasNoMarkup s)

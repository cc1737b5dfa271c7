-- ===== src/Response/Read.antt =====
-- `http_read_header` and the head of `http_read_response`, netcwmp_xo/libcwmp/src/http.c, for a
-- well-formed header in front of other input.
use netcwmp_xo.Base.{
  ℕ, zero, suc, ◌+◌, ◌≤◌, ◌<◌, ◌≡◌, refl, sym, ap, subst, ◌∙◌, Bool, true, false, some, List, [],
  ◌∷◌, ◌++◌, append_assoc, length, All, arith,
}
use netcwmp_xo.Param.{Name}
use netcwmp_xo.Chunk.{Chunk, write_string}
use netcwmp_xo.Chunk.Write.{IsChunk, text, write_string-appends}
use netcwmp_xo.Chunk.Copy.{HasNoNul}
use netcwmp_xo.Response.{
  cr, lf, behind_cr, read_line, is_blank, HeaderRead, header, chunk_of, no_chunk, read_header,
}
use netcwmp_xo.Response.Split.{IsInLine, IsLine, rendered}

-- A line that fits the buffer of `http_read_header`
abbrev pub IsShortLine : Name → Type 0
IsShortLine l = IsLine l × (length l ≤ 1020)

read_line-line :
    (eof : Bool) (n : ℕ) (l rest : Name)
    → All IsInLine l
    → length l + 3 ≤ n
    → read_line eof n (l ++ cr ∷ lf ∷ rest) ≡ some (l ++ cr ∷ lf ∷ [], rest)
unfolding read_line behind_cr
read_line-line eof zero l rest h fits = absurd (omega arith)
read_line-line eof (suc n) [] rest h fits = ground arith
read_line-line eof (suc n) (c ∷ l) rest ((u, v, w), h) fits =
    rw (v, read_line-line eof n l rest h (omega arith)) refl

is_blank-line : (l : Name) → IsLine l → is_blank (l ++ cr ∷ lf ∷ []) ≡ false
is_blank-line [] (n, h) = absurd (omega arith)
is_blank-line (c ∷ []) (n, ((u, v, w), h)) = rw v refl
is_blank-line (c ∷ d ∷ l) (n, ((u, v, w), h)) = rw v refl

module _ (pool : Chunk → Bool) (memory : (c : Chunk) → pool c ≡ true) (eof : Bool) where
  -- A chunk that holds what another one held and `s` behind it
  abbrev Holds : Chunk → Name → Chunk → Type 0
  Holds c s d = IsChunk d × (text d ≡ text c ++ s)

  -- The chunk behind a line that was written to it
  behind : Chunk → Name → Chunk
  behind c line = chunk_of c (write_string pool (length line) line 0 c)

  behind-Holds : (c : Chunk) (line : Name) → IsChunk c → Holds c line (behind c line)
  unfolding behind
  behind-Holds c line v =
      let (d, e, w, t) = write_string-appends pool (length line) line 0 c memory v (omega arith) in
      subst (Holds c line) (sym (ap (chunk_of c) e)) (w, t)

  read_header-blank :
      (fuel : ℕ) (rest : Name) (c : Chunk)
      → read_header pool eof (suc fuel) (cr ∷ lf ∷ rest) c ≡ header (behind c (cr ∷ lf ∷ [])) rest
  unfolding read_header behind
  read_header-blank fuel rest c =
      rw (read_header, read_line-line eof 1023 [] rest tt (omega arith)) refl

  read_header-line :
      (fuel : ℕ) (l rest : Name) (c : Chunk)
      → IsShortLine l
      → read_header pool eof (suc fuel) (l ++ cr ∷ lf ∷ rest) c
        ≡ read_header pool eof fuel rest (behind c (l ++ cr ∷ lf ∷ []))
  unfolding read_header behind
  read_header-line fuel l rest c (h, short) =
      rw (read_header, read_line-line eof 1023 l rest h.1 (omega arith), is_blank-line l h) refl

  -- What the reading of a header leaves
  abbrev Reads : Chunk → Name → Name → HeaderRead → Type 0
  Reads c s rest r = (d : Chunk) × (r ≡ header d rest) × IsChunk d × (text d ≡ text c ++ s)

  pub read_header-rendered :
      (fuel : ℕ) (ls : List Name) (rest : Name) (c : Chunk)
      → All IsShortLine ls
      → length ls < fuel
      → IsChunk c
      → Reads c (rendered ls) rest (read_header pool eof fuel (rendered ls ++ rest) c)
  read_header-rendered zero ls rest c h fits v = absurd (omega arith)
  read_header-rendered (suc fuel) [] rest c h fits v =
      let (w, t) = behind-Holds c (cr ∷ lf ∷ []) v in
      (behind c (cr ∷ lf ∷ []), read_header-blank fuel rest c, w, t)
  read_header-rendered (suc fuel) (l ∷ ls) rest c (x, h) fits v =
      let line = l ++ cr ∷ lf ∷ [] in
      let (w, t) = behind-Holds c line v in
      let (d, e, k, q) = read_header-rendered fuel ls rest (behind c line) h (omega arith) w in
      (
        d,
        ap (λ z. read_header pool eof (suc fuel) z c) (append_assoc l (cr ∷ lf ∷ rendered ls) rest)
            ∙ read_header-line fuel l (rendered ls ++ rest) c x
            ∙ e,
        k,
        q
            ∙ ap (λ z. z ++ rendered ls) t
            ∙ append_assoc (text c) line (rendered ls)
            ∙ ap (λ z. text c ++ z) (append_assoc l (cr ∷ lf ∷ []) (rendered ls)),
      )

  line-HasNoNul : (l rest : Name) → All IsInLine l → HasNoNul rest → HasNoNul (l ++ rest)
  line-HasNoNul [] rest h k = k
  line-HasNoNul (c ∷ l) rest ((u, v, w), h) k = (u, line-HasNoNul l rest h k)

  pub rendered-HasNoNul : (ls : List Name) → All IsShortLine ls → HasNoNul (rendered ls)
  rendered-HasNoNul [] h = (refl, (refl, tt))
  rendered-HasNoNul (l ∷ ls) (x, h) =
      line-HasNoNul l (cr ∷ lf ∷ rendered ls) x.0.1 (refl, (refl, rendered-HasNoNul ls h))

  pub AreLines : (ls : List Name) → All IsShortLine ls → All IsLine ls
  AreLines [] h = tt
  AreLines (l ∷ ls) (x, h) = (x.0, AreLines ls h)

  pub no_chunk-IsChunk : IsChunk no_chunk
  no_chunk-IsChunk = ground arith

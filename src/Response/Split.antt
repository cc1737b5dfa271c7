-- ===== src/Response/Split.antt =====
-- `http_split_headers` and the status line of `http_read_response`, netcwmp_xo/libcwmp/src/http.c, for
-- the lines of a well-formed header.
use netcwmp_xo.Base.{
  ℕ, ◌-◌, ◌≤◌, ◌<◌, ◌≡◌, refl, ap, ◌∙◌, Bool, true, false, ◌&&◌, some, List, [], ◌∷◌, ◌++◌, ◌==◌,
  ltb, length, All, arith,
}
use netcwmp_xo.Param.{Name}
use netcwmp_xo.Header.{max_headers, skip_spaces}
use netcwmp_xo.Response.{
  cr, lf, line_text, starts_line, split_lines, split_headers, next_word, word, message_behind,
  code_behind, status_parts,
}

-- A character that stands in a line, and a line that is not empty
abbrev pub IsInLine : ℕ → Type 0
IsInLine c = ((c == 0) ≡ false) × ((c == cr) ≡ false) × ((c == lf) ≡ false)

abbrev pub IsLine : Name → Type 0
IsLine l = (0 < length l) × All IsInLine l

-- Lines with their ends, and the empty line behind them
abbrev pub rendered : List Name → Name
rendered [] = cr ∷ lf ∷ []
rendered (l ∷ ls) = l ++ cr ∷ lf ∷ rendered ls

line_text-append : (l rest : Name) → All IsInLine l → line_text (l ++ cr ∷ rest) ≡ l
unfolding line_text
line_text-append [] rest h = refl
line_text-append (c ∷ l) rest ((u, v, w), h) = rw (u, v, w, line_text-append l rest h) refl

abbrev others : ℕ → Name → Bool → List Name
others left rest b = elim b [ true ↦ split_lines (left - 1) rest rest | false ↦ [] ]

split_lines-line :
    (left : ℕ) (start l rest : Name)
    → All IsInLine l
    → split_lines left start (l ++ cr ∷ lf ∷ rest)
      ≡ line_text start ∷ others left rest (starts_line rest && ltb 1 left)
unfolding split_lines
split_lines-line left start [] rest h = refl
split_lines-line left start (c ∷ l) rest ((u, v, w), h) =
    rw (split_lines, w) (split_lines-line left start l rest h)

starts_line-rendered : (l : Name) (rest : Name) → IsLine l → starts_line (l ++ rest) ≡ true
starts_line-rendered [] rest (n, h) = absurd (omega arith)
starts_line-rendered (c ∷ l) rest (n, ((u, v, w), h)) = rw (w, v) refl

split_lines-rendered :
    (left : ℕ) (l : Name) (ls : List Name)
    → All IsLine (l ∷ ls)
    → length (l ∷ ls) ≤ left
    → split_lines left (rendered (l ∷ ls)) (rendered (l ∷ ls)) ≡ l ∷ ls
split_lines-rendered left l [] ((n, h), k) fits =
    split_lines-line left (rendered (l ∷ [])) l (cr ∷ lf ∷ []) h
    ∙ ap (λ z. z ∷ []) (line_text-append l (lf ∷ cr ∷ lf ∷ []) h)
split_lines-rendered left l (m ∷ ms) ((n, h), k) fits =
    let more : ltb 1 left ≡ true = ground arith in
    split_lines-line left (rendered (l ∷ m ∷ ms)) l (rendered (m ∷ ms)) h
    ∙ ap (λ z. z ∷ others left (rendered (m ∷ ms)) (starts_line (rendered (m ∷ ms)) && ltb 1 left))
        (line_text-append l (lf ∷ rendered (m ∷ ms)) h)
    ∙ rw (starts_line-rendered m (cr ∷ lf ∷ rendered ms) k.0, more)
        (ap (λ z. l ∷ z) (split_lines-rendered (left - 1) m ms k (omega arith)))

pub split_headers-rendered :
    (l : Name) (ls : List Name)
    → All IsLine (l ∷ ls)
    → length (l ∷ ls) ≤ 64
    → split_headers (rendered (l ∷ ls)) ≡ l ∷ ls
unfolding split_headers
split_headers-rendered l ls h fits = split_lines-rendered max_headers l ls h fits

pub line_text-rendered : (l : Name) (ls : List Name) → IsLine l → line_text (rendered (l ∷ ls)) ≡ l
line_text-rendered l ls (n, h) = line_text-append l (lf ∷ rendered ls) h

-- A word, and what can follow the space behind it
abbrev pub IsWord : Name → Type 0
IsWord w = All (λ c. (c == b' ') ≡ false) w

abbrev pub StartsWord : Name → Type 0
StartsWord [] = ⊥
StartsWord (c ∷ s) = (c == b' ') ≡ false

skip_spaces-word : (s : Name) → StartsWord s → skip_spaces s ≡ some s
unfolding skip_spaces
skip_spaces-word [] h = absurd h
skip_spaces-word (c ∷ s) h = rw h refl

pub next_word-append : (w s : Name) → IsWord w → StartsWord s → next_word (w ++ b' ' ∷ s) ≡ some s
unfolding next_word
next_word-append [] s h k = skip_spaces-word s k
next_word-append (c ∷ w) s (u, h) k = rw u (next_word-append w s h k)

pub word-append : (w s : Name) → IsWord w → word (w ++ b' ' ∷ s) ≡ w
unfolding word
word-append [] s h = refl
word-append (c ∷ w) s (u, h) = rw (u, word-append w s h) refl

pub starts_word : (w s : Name) → 0 < length w → IsWord w → StartsWord (w ++ s)
starts_word [] s n h = absurd (omega arith)
starts_word (c ∷ w) s n h = h.0

pub status_parts-append :
    (version code message : Name)
    → IsWord version
    → 0 < length code
    → IsWord code
    → StartsWord message
    → status_parts (version ++ b' ' ∷ (code ++ b' ' ∷ message)) ≡ some (code, message)
unfolding status_parts
status_parts-append version code message v n c m =
    ap code_behind
      (next_word-append version (code ++ b' ' ∷ message) v (starts_word code (b' ' ∷ message) n c))
    ∙ ap (message_behind (code ++ b' ' ∷ message)) (next_word-append code message c m)
    ∙ ap (λ z. some (z, message)) (word-append code message c)

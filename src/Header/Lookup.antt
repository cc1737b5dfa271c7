-- ===== src/Header/Lookup.antt =====
-- That the headers of a response are found by their names.
use netcwmp_xo.Base.{
  ◌+◌, ◌≤◌, ◌<◌, ◌≡◌, refl, sym, ap, ◌∙◌, Bool, true, false, Option, some, List, [], ◌∷◌, ◌++◌,
  append-nil, append_assoc, arith, ◌==◌, leb, Bool-cases, inl, inr, length, length-append,
}
use netcwmp_xo.Header.{
  max_headers, Name, Headers, same_header, get_variable, skip_spaces, value_of, parse_line,
  set_variable, set_parsed, parse_lines, parse_headers,
}

-- A name without a colon, and a value that starts with neither a space nor a colon
abbrev pub HasNoColon : Name → Type 0
HasNoColon [] = Unit {0}
HasNoColon (c ∷ s) = ((c == b':') ≡ false) × HasNoColon s

abbrev pub IsValue : Name → Type 0
IsValue [] = ⊥
IsValue (c ∷ s) = ((c == b':') ≡ false) × ((c == b' ') ≡ false)

abbrev pub ArePrintable : Headers → Type 0
ArePrintable [] = Unit {0}
ArePrintable ((n, v) ∷ hs) = HasNoColon n × IsValue v × ArePrintable hs

-- The lines `name: value`
abbrev pub print_line : Name → Name → Name
print_line n v = n ++ b':' ∷ b' ' ∷ v

abbrev pub print_lines : Headers → List Name
print_lines [] = []
print_lines ((n, v) ∷ hs) = print_line n v ∷ print_lines hs

value_of-space : (v : Name) → IsValue v → value_of (b' ' ∷ v) ≡ some v
unfolding value_of skip_spaces
value_of-space [] h = absurd h
value_of-space (c ∷ s) h = rw (h.1) refl

parse_line-print_line :
    (n v : Name) → HasNoColon n → IsValue v → parse_line (print_line n v) ≡ (n, some v)
unfolding parse_line
parse_line-print_line [] v h k = ap (λ (o : Option Name). ([], o)) (value_of-space v k)
parse_line-print_line (c ∷ n) v h k = rw (h.0, parse_line-print_line n v h.1 k) refl

module _ (has_memory : Headers → Bool) (pstrdup_lower : Name → Name) where
  -- The headers as they are stored
  abbrev pub stored : Headers → Headers
  stored [] = []
  stored ((n, v) ∷ hs) = (pstrdup_lower n, v) ∷ stored hs

  set_variable-room :
      (n v : Name) (hs : Headers)
      → has_memory hs ≡ true
      → length hs < max_headers
      → set_variable has_memory pstrdup_lower n v hs ≡ hs ++ (pstrdup_lower n, v) ∷ []
  unfolding set_variable
  set_variable-room n v hs m h = elim (Bool-cases (leb max_headers (length hs))) [
    | inl full ↦ absurd (ground arith)
    | inr room ↦ rw (m, room) refl
  ]

  parse_lines-print_lines :
      (hs acc : Headers)
      → ((ks : Headers) → has_memory ks ≡ true)
      → ArePrintable hs
      → length acc + length hs ≤ max_headers
      → parse_lines has_memory pstrdup_lower (print_lines hs) acc ≡ acc ++ stored hs
  unfolding parse_lines set_parsed
  parse_lines-print_lines [] acc m p l = sym (append-nil acc)
  parse_lines-print_lines ((n, v) ∷ hs) acc m p l =
      let k = length-append acc ((pstrdup_lower n, v) ∷ []) in
      let rest = print_lines hs in
      ap
        (λ (r : Name × Option Name).
          parse_lines has_memory pstrdup_lower rest (set_parsed has_memory pstrdup_lower r acc))
        (parse_line-print_line n v p.0 p.1)
      ∙ ap (parse_lines has_memory pstrdup_lower rest)
          (set_variable-room n v acc (m acc) (omega arith))
      ∙ parse_lines-print_lines hs (acc ++ (pstrdup_lower n, v) ∷ []) m p.2 (omega (arith, k))
      ∙ append_assoc acc ((pstrdup_lower n, v) ∷ []) (stored hs)

  get_variable-stored :
      (hs : Headers) (name : Name)
      → ((n k : Name) → same_header (pstrdup_lower n) k ≡ same_header n k)
      → get_variable (stored hs) name ≡ get_variable hs name
  unfolding get_variable
  get_variable-stored [] name e = refl
  get_variable-stored ((n, v) ∷ hs) name e = rw (e n name, get_variable-stored hs name e) refl

  pub get_variable-parse_headers :
      (status : Name) (hs : Headers) (name : Name)
      → ((ks : Headers) → has_memory ks ≡ true)
      → ((n k : Name) → same_header (pstrdup_lower n) k ≡ same_header n k)
      → ArePrintable hs
      → length hs ≤ max_headers
      → get_variable (parse_headers has_memory pstrdup_lower (status ∷ print_lines hs) []) name
        ≡ get_variable hs name
  unfolding parse_headers
  get_variable-parse_headers status hs name m e p l =
      rw (parse_lines-print_lines hs [] m p (omega arith)) (get_variable-stored hs name e)

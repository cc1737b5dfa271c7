-- ===== src/Digest/Parse.antt =====
-- The loop of `http_check_digest_auth` and `http_parse_digest_auth`, netcwmp_xo/libcwmp/src/http.c, over
-- one key and its value.
use netcwmp_xo.Base.{
  ℕ, zero, suc, ◌+◌, ◌-◌, ◌≤◌, ◌<◌, ◌≡◌, refl, sym, ap, ◌∙◌, Bool, true, false, some, List, [], ◌∷◌,
  ◌++◌, ◌==◌, length, length-append, All, append_assoc, arith,
}
use netcwmp_xo.Param.{Name}
use netcwmp_xo.Digest.{
  Fields, Key, put_field, span, quote, in_quotes, unquoted, stored, scan_value, parse_key_value,
  act, read_fields,
}

-- All characters of `v` are in the set, `v` is not empty, and it is shorter than the size of the key.
abbrev pub Fits : (ℕ → Bool) → Key → Name → Type 0
Fits ok k v = (0 < length v) × (length v < k.size) × All (λ c. ok c ≡ true) v

span-append :
    (ok : ℕ → Bool) (n : ℕ) (v : Name) (stop : ℕ) (rest : Name)
    → All (λ c. ok c ≡ true) v
    → length v ≤ n
    → ok stop ≡ false
    → span ok n (v ++ stop ∷ rest) ≡ v
unfolding span
span-append ok zero [] stop rest a l h = refl
span-append ok (suc n) [] stop rest a l h = rw h refl
span-append ok zero (c ∷ v) stop rest a l h = absurd (omega arith)
span-append ok (suc n) (c ∷ v) stop rest a l h =
    rw (a.0, span-append ok n v stop rest a.1 (omega arith) h) refl

read_fields-skip :
    (ks : List Key) (u rest : Name) (f : Fields)
    → read_fields ks (length u) (u ++ rest) f ≡ read_fields ks 0 rest f
unfolding read_fields
read_fields-skip ks [] rest f = refl
read_fields-skip ks (c ∷ u) rest f = read_fields-skip ks u rest f

read_fields-act :
    (ks : List Key) (c : ℕ) (u rest : Name) (n : ℕ) (f g : Fields)
    → act ks (c ∷ u ++ rest) f ≡ some (n, g)
    → n ≡ length u
    → read_fields ks 0 (c ∷ u ++ rest) f ≡ read_fields ks 0 rest g
unfolding read_fields
read_fields-act ks c u rest n f g h l = rw (read_fields, h, l) (read_fields-skip ks u rest g)

scan_value-append :
    (k : Key) (moved : ℕ) (ok : ℕ → Bool) (v : Name) (stop : ℕ) (rest : Name) (f : Fields)
    → Fits ok k v
    → ok stop ≡ false
    → scan_value k moved ok (v ++ stop ∷ rest) f ≡ some (moved + length v, put_field (k.field) v f)
unfolding scan_value
scan_value-append k moved ok [] stop rest f (l, m, a) h = absurd (omega arith)
scan_value-append k moved ok (c ∷ v) stop rest f (l, m, a) h =
    ap (λ x. stored k moved x f) (span-append ok (k.size - 1) (c ∷ v) stop rest a (omega arith) h)

parse_key_value-quoted :
    (k : Key) (v rest : Name) (f : Fields)
    → Fits in_quotes k v
    → parse_key_value k (quote ∷ v ++ quote ∷ rest) f
      ≡ some (length (k.text) + 1 + length v, put_field (k.field) v f)
unfolding parse_key_value
parse_key_value-quoted k [] rest f (l, m, a) = absurd (omega arith)
parse_key_value-quoted k (c ∷ v) rest f (l, m, a) =
    let e =
      scan_value-append k (length (k.text) + 1) in_quotes (c ∷ v) quote rest f (l, m, a) refl in
    rw (a.0) e

-- The value does not begin with a quote.
abbrev pub HasNoQuote : Name → Type 0
HasNoQuote [] = Unit {0}
HasNoQuote (c ∷ v) = (c == quote) ≡ false

parse_key_value-unquoted :
    (k : Key) (v rest : Name) (f : Fields)
    → Fits unquoted k v
    → HasNoQuote v
    → parse_key_value k (v ++ b',' ∷ rest) f
      ≡ some (length (k.text) + length v, put_field (k.field) v f)
unfolding parse_key_value
parse_key_value-unquoted k [] rest f (l, m, a) q = absurd (omega arith)
parse_key_value-unquoted k (c ∷ v) rest f (l, m, a) q =
    rw q (scan_value-append k (length (k.text)) unquoted (c ∷ v) b',' rest f (l, m, a) refl)

-- A key and a value in quotes at the start of what is left
pub read_fields-quoted :
    (ks : List Key) (k : Key) (c : ℕ) (t v rest : Name) (f : Fields)
    → k.text ≡ c ∷ t
    → act ks (c ∷ t ++ (quote ∷ v ++ quote ∷ rest)) f
      ≡ parse_key_value k (quote ∷ v ++ quote ∷ rest) f
    → Fits in_quotes k v
    → read_fields ks 0 (c ∷ t ++ (quote ∷ v ++ quote ∷ rest)) f
      ≡ read_fields ks 0 rest (put_field (k.field) v f)
read_fields-quoted ks k c t v rest f e h x =
    let value = quote ∷ v ++ quote ∷ [] in
    let whole : c ∷ (t ++ value) ++ rest ≡ c ∷ t ++ (quote ∷ v ++ quote ∷ rest) =
      ap (λ z. c ∷ z)
        (append_assoc t value rest
          ∙ ap (λ z. t ++ (quote ∷ z)) (append_assoc v (quote ∷ []) rest)) in
    let g = put_field (k.field) v f in
    let n = length (k.text) + 1 + length v in
    ap (λ z. read_fields ks 0 z f) (sym whole)
    ∙ read_fields-act ks c (t ++ value) rest n f g
        (ap (λ z. act ks z f) whole ∙ h ∙ parse_key_value-quoted k v rest f x)
        (omega (arith, ap length e, length-append t value, length-append v (quote ∷ [])))

-- A key and a value without quotes, with a comma behind it
pub read_fields-unquoted :
    (ks : List Key) (k : Key) (c : ℕ) (t v rest : Name) (f : Fields)
    → k.text ≡ c ∷ t
    → act ks (c ∷ t ++ (v ++ b',' ∷ rest)) f ≡ parse_key_value k (v ++ b',' ∷ rest) f
    → Fits unquoted k v
    → HasNoQuote v
    → read_fields ks 0 (c ∷ t ++ (v ++ b',' ∷ rest)) f
      ≡ read_fields ks 0 rest (put_field (k.field) v f)
read_fields-unquoted ks k c t v rest f e h x q =
    let value = v ++ b',' ∷ [] in
    let whole : c ∷ (t ++ value) ++ rest ≡ c ∷ t ++ (v ++ b',' ∷ rest) =
      ap (λ z. c ∷ z)
        (append_assoc t value rest ∙ ap (λ z. t ++ z) (append_assoc v (b',' ∷ []) rest)) in
    let g = put_field (k.field) v f in
    let n = length (k.text) + length v in
    ap (λ z. read_fields ks 0 z f) (sym whole)
    ∙ read_fields-act ks c (t ++ value) rest n f g
        (ap (λ z. act ks z f) whole ∙ h ∙ parse_key_value-unquoted k v rest f x q)
        (omega (arith, ap length e, length-append t value, length-append v (b',' ∷ [])))

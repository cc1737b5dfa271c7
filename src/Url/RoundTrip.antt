-- ===== src/Url/RoundTrip.antt =====
-- `urldecode` gives back what `urlencode` was given.
use netcwmp_xo.Base.{
  ◌≤◌, length, ℕ, ◌+◌, ◌*◌, ◌/◌, ◌%◌, ◌<◌, ◌≡◌, refl, ap, ap₂, ◌∙◌, true, false, List, [], ◌∷◌,
  ◌==◌, arith, Bool-cases, inl, inr,
}
use netcwmp_xo.Url.{hex_char, is_escaped, urlencode, is_xdigit, lower, digit, plain, urldecode}

abbrev pub AreBytes : List ℕ → Type 0
AreBytes [] = Unit {0}
AreBytes (c ∷ s) = (c < 256) × AreBytes s

hex_char-is_xdigit : (n : ℕ) → n < 16 → is_xdigit (hex_char n) ≡ true
unfolding is_xdigit hex_char
hex_char-is_xdigit n h = ground arith

digit-hex_char : (n : ℕ) → n < 16 → digit (hex_char n) ≡ n
unfolding digit lower hex_char
digit-hex_char n h = ground arith

urldecode-plain :
    (c : ℕ) (s : List ℕ) → (c == b'%') ≡ false → urldecode (c ∷ s) ≡ plain c ∷ urldecode s
unfolding urldecode
urldecode-plain c [] h = refl
urldecode-plain c (d ∷ []) h = refl
urldecode-plain c (d ∷ e ∷ s) h = rw (urldecode, h) refl

urldecode-escape :
    (d e : ℕ) (s : List ℕ)
    → is_xdigit d ≡ true
    → is_xdigit e ≡ true
    → urldecode (b'%' ∷ d ∷ e ∷ s) ≡ (digit d * 16 + digit e) ∷ urldecode s
unfolding urldecode
urldecode-escape d e s h k = rw (urldecode, h, k) refl

escaped-back :
    (c : ℕ) (s : List ℕ)
    → c < 256
    → urldecode (b'%' ∷ hex_char (c / 16) ∷ hex_char (c % 16) ∷ s) ≡ c ∷ urldecode s
escaped-back c s h =
    let hi : c / 16 < 16 = omega arith in
    let lo : c % 16 < 16 = omega arith in
    let v : digit (hex_char (c / 16)) * 16 + digit (hex_char (c % 16)) ≡ c =
      rw (digit-hex_char (c / 16) hi, digit-hex_char (c % 16) lo) (omega arith) in
    urldecode-escape (hex_char (c / 16)) (hex_char (c % 16)) s (hex_char-is_xdigit (c / 16) hi)
      (hex_char-is_xdigit (c % 16) lo)
    ∙ ap (λ n. n ∷ urldecode s) v

plain-back : (c : ℕ) → is_escaped c ≡ false → ((c == b'%') ≡ false) × (plain c ≡ c)
unfolding is_escaped plain
plain-back c h = ground arith

space_back : (c : ℕ) → (c == b' ') ≡ true → plain b'+' ≡ c
unfolding plain
space_back c h = ground arith

-- For every text of bytes, `urldecode` of what `urlencode` makes of it is the text again.
pub urldecode-urlencode : (s : List ℕ) → AreBytes s → urldecode (urlencode s) ≡ s
unfolding urlencode urldecode
urldecode-urlencode [] h = refl
urldecode-urlencode (c ∷ s) h =
    let ih = urldecode-urlencode s h.1 in
    elim (Bool-cases (c == b' ')) [
      | inl space ↦
          rw space
            (urldecode-plain b'+' (urlencode s) refl ∙ ap₂ (λ a b. a ∷ b) (space_back c space) ih)
      | inr other ↦ elim (Bool-cases (is_escaped c)) [
        | inl escaped ↦ rw (other, escaped) (escaped-back c (urlencode s) h.0 ∙ ap (◌∷◌ c) ih)
        | inr kept ↦
            let p = plain-back c kept in
            rw (other, kept) (urldecode-plain c (urlencode s) p.0 ∙ ap₂ (λ a b. a ∷ b) p.1 ih)
      ]
    ]

-- What `urlencode` makes fits into the memory that it asks for, with the NUL behind it.
urlencode-length : (s : List ℕ) → length (urlencode s) + 1 ≤ 3 * length s + 1
unfolding urlencode
urlencode-length [] = omega arith
urlencode-length (c ∷ s) = ground (arith, urlencode-length s)

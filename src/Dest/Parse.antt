-- ===== src/Dest/Parse.antt =====
-- `http_parse_url`, netcwmp_xo/libcwmp/src/http.c, for a URL with a host and a port.
use netcwmp_xo.Base.{
  ℕ, ◌+◌, ◌-◌, ◌*◌, ◌≤◌, ◌<◌, ◌^◌, ◌≡◌, refl, sym, ap, subst, ◌∙◌, ◌⊎◌, inl, inr, Bool, true, false,
  ◌||◌, [], ◌∷◌, ◌++◌, ◌==◌, leb, ltb, length, All, take, take-all, arith, codes,
}
use netcwmp_xo.Param.{Name}
use netcwmp_xo.Header.{same_header}
use netcwmp_xo.Objects.{is_digit_char, number_from}
use netcwmp_xo.Digest.{is_space}
use netcwmp_xo.Dest.{
  max_uri_len, Dest, port_is, no_dest, parsed, break_at, find_scheme, has_no_host, slash_or_at,
  slash_or_colon, starts_at, port_from, port_of, escape_spaces, document, with_document, with_port,
  parse_authority, parse_url,
}

-- Characters that stand in front of the first one that a test holds for
break_at-behind :
    (stop : ℕ → Bool) (w s : Name)
    → All (λ c. stop c ≡ false) w
    → (break_at stop (w ++ s)).1 ≡ (break_at stop s).1
unfolding break_at
break_at-behind stop [] s h = refl
break_at-behind stop (c ∷ w) s (u, h) = rw u (break_at-behind stop w s h)

break_at-append :
    (stop : ℕ → Bool) (w : Name) (c : ℕ) (s : Name)
    → All (λ d. stop d ≡ false) w
    → stop c ≡ true
    → break_at stop (w ++ c ∷ s) ≡ (w, c ∷ s)
unfolding break_at
break_at-append stop [] c s h k = rw k refl
break_at-append stop (d ∷ w) c s (u, h) k = rw (u, break_at-append stop w c s h k) refl

-- What can stand in a host: no slash, no colon and no `@`, and no dot at its start
abbrev pub IsHost : Name → Type 0
IsHost host =
    (length host ≤ 128)
    × (has_no_host host ≡ false)
    × All (λ c. slash_or_at c ≡ false) host
    × All (λ c. slash_or_colon c ≡ false) host

abbrev pub AreDigits : Name → Type 0
AreDigits digits = All (λ c. is_digit_char c ≡ true) digits

-- A path is empty or starts with a slash; it has no white space, and fits.
abbrev pub StartsPath : Name → Type 0
StartsPath [] = Unit {0}
StartsPath (c ∷ s) = (c == b'/') ≡ true

abbrev pub IsPath : Name → Type 0
IsPath path = StartsPath path × All (λ c. is_space c ≡ false) path × (length (document path) ≤ 512)

-- A digit is no slash and no `@`.
digit-slash : (c : ℕ) → is_digit_char c ≡ true → (c == b'/') ≡ false
digit-slash c h = ground arith

digit-other : (c : ℕ) → is_digit_char c ≡ true → slash_or_at c ≡ false
digit-other c h = ground arith

digits-other : (digits : Name) → AreDigits digits → All (λ c. slash_or_at c ≡ false) digits
digits-other [] h = tt
digits-other (c ∷ digits) (u, h) = (digit-other c u, digits-other digits h)

-- More digits do not make a number smaller.
number_from-le : (n : ℕ) (digits : Name) → n ≤ number_from n digits
unfolding number_from
number_from-le n [] = omega arith
number_from-le n (c ∷ digits) =
    let more = number_from-le (n * 10 + (c - b'0')) digits in omega (arith, more)

port_from-digits :
    (n : ℕ) (digits path : Name)
    → AreDigits digits
    → StartsPath path
    → number_from n digits < 2 ^ 31
    → port_from n (digits ++ path) ≡ port_is (number_from n digits) path
unfolding port_from number_from
port_from-digits n [] [] h k l = refl
port_from-digits n [] (c ∷ s) h k l = rw k refl
port_from-digits n (c ∷ digits) path (u, h) k l =
    let more = number_from-le (n * 10 + (c - b'0')) digits in
    let small : leb (2 ^ 31) (n * 10 + (c - b'0')) ≡ false = leb_false (omega (arith, more)) in
    rw (digit-slash c u, u, small) (port_from-digits (n * 10 + (c - b'0')) digits path h k l)
  where
    leb_false : {a b : ℕ} → b < a → leb a b ≡ false
    leb_false h = ground arith

no_at : (path : Name) → StartsPath path → starts_at ((break_at slash_or_at path).1) ≡ false
unfolding break_at
no_at [] h = refl
no_at (c ∷ s) h = ground arith

escape_spaces-none : (s : Name) → All (λ c. is_space c ≡ false) s → escape_spaces s ≡ s
unfolding escape_spaces
escape_spaces-none [] h = refl
escape_spaces-none (c ∷ s) (u, h) = rw (u, escape_spaces-none s h) refl

document-plain :
    (path : Name)
    → All (λ c. is_space c ≡ false) path
    → All (λ c. is_space c ≡ false) (document path)
document-plain [] h = (refl, tt)
document-plain (c ∷ s) h = h

-- The two schemes
abbrev pub IsScheme : Name → Type 0
IsScheme s = (s ≡ codes "http") ⊎ (s ≡ codes "https")

with_document-plain :
    (path : Name) (d : Dest)
    → (same_header (d.scheme) (codes "http") || same_header (d.scheme) (codes "https")) ≡ true
    → IsPath path
    → with_document path d ≡ parsed (record d { uri = document path })
unfolding with_document
with_document-plain path d h (start, plain, fits) =
    let e = escape_spaces-none (document path) (document-plain path plain) in
    let short : ltb max_uri_len (length (document path)) ≡ false = ground arith in
    rw (h, e, short) refl

no_host-append : (h s : Name) → has_no_host h ≡ false → has_no_host (h ++ s) ≡ false
no_host-append [] s k = cc
no_host-append (c ∷ h) s k = k

-- Behind the scheme: a host, a port and a path
abbrev pub authority : Name → Name → Name → Name
authority host digits path = host ++ b':' ∷ (digits ++ path)

no_at-authority :
    (host digits path : Name)
    → IsHost host
    → AreDigits digits
    → StartsPath path
    → starts_at ((break_at slash_or_at (authority host digits path)).1) ≡ false
no_at-authority host digits path (short, named, plain, whole) ds start =
    ap starts_at (
      break_at-behind slash_or_at host (b':' ∷ (digits ++ path)) plain
      ∙ break_at-behind slash_or_at (b':' ∷ digits) path (refl, digits-other digits ds))
    ∙ no_at path start

parse_authority-port :
    (url host digits path : Name) (d : Dest)
    → IsHost host
    → AreDigits digits
    → number_from 0 digits < 2 ^ 31
    → IsPath path
    → (same_header (d.scheme) (codes "http") || same_header (d.scheme) (codes "https")) ≡ true
    → parse_authority url (authority host digits path) d
      ≡ parsed (record d { host = host; port = number_from 0 digits; uri = document path })
unfolding parse_authority port_of
parse_authority-port url host digits path d (short, named, plain, whole) ds small p h =
    let x = authority host digits path in
    let e1 = no_host-append host (b':' ∷ (digits ++ path)) named in
    let e2 = no_at-authority host digits path (short, named, plain, whole) ds p.0 in
    let e3 = break_at-append slash_or_colon host b':' (digits ++ path) whole refl in
    let found = record d { host = take 128 host } in
    rw (e1, e2, e3)
      (ap (with_port found) (port_from-digits 0 digits path ds p.0 small)
        ∙ with_document-plain path (record found { port = number_from 0 digits }) h p
        ∙ ap (λ z. parsed (record d { host = z; port = number_from 0 digits; uri = document path }))
            (take-all 128 host short))

-- Of a URL of the scheme http or https with a host, a port in digits below 2^31 and a path without white
-- space, each of which fits, `http_parse_url` gives these parts for a new destination; the
-- document is a slash where there is no path.
pub parse_url-port :
    (scheme host digits path : Name)
    → IsScheme scheme
    → IsHost host
    → AreDigits digits
    → number_from 0 digits < 2 ^ 31
    → IsPath path
    → parse_url no_dest (scheme ++ (codes "://" ++ authority host digits path))
      ≡ parsed (record no_dest {
        scheme = scheme;
        host = host;
        port = number_from 0 digits;
        uri = document path;
      })
unfolding parse_url find_scheme same_header
parse_url-port scheme host digits path (inl e) h ds small p =
    subst
      (λ z.
        parse_url no_dest (z ++ (codes "://" ++ authority host digits path))
        ≡ parsed (record no_dest {
          scheme = z;
          host = host;
          port = number_from 0 digits;
          uri = document path;
        }))
      (sym e)
      (parse_authority-port (codes "http://" ++ authority host digits path) host digits path
        (record no_dest { scheme = codes "http" }) h ds small p refl)
parse_url-port scheme host digits path (inr e) h ds small p =
    subst
      (λ z.
        parse_url no_dest (z ++ (codes "://" ++ authority host digits path))
        ≡ parsed (record no_dest {
          scheme = z;
          host = host;
          port = number_from 0 digits;
          uri = document path;
        }))
      (sym e)
      (parse_authority-port (codes "https://" ++ authority host digits path) host digits path
        (record no_dest { scheme = codes "https" }) h ds small p refl)

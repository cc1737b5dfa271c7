-- ===== src/Request/Body.antt =====
-- The body that `http_read_body` hands on.
use netcwmp_xo.Base.{
  ℕ, ◌+◌, ◌≤◌, ◌<◌, ◌≡◌, refl, ap, ◌∙◌, Option, none, some, List, [], ◌∷◌, ◌++◌, append_assoc,
  arith, ltb, Bool-cases, inl, inr, ◌⊎◌, length, length-append,
}
use netcwmp_xo.Param.{Name}
use netcwmp_xo.Request.{read_body}

-- What the socket gives before an error or the end
abbrev pub body_of : List (Option Name) → Name
body_of [] = []
body_of (none ∷ rs) = []
body_of (some [] ∷ rs) = []
body_of (some (c ∷ s) ∷ rs) = (c ∷ s) ++ body_of rs

-- An error comes before `max` bytes are there; else the bytes are counted, and there are `max` of them or
-- nothing is left of what the socket gives.
abbrev pub IsCounted : ℕ → ℕ → Name → Name → Option ℕ → Type 0
IsCounted max bytes body left none = bytes + length body < max
IsCounted max bytes body left (some n) = (n ≡ bytes + length body) × ((max ≤ n) ⊎ (left ≡ []))

abbrev pub TakesFrom : ℕ → ℕ → Name → Name × Option ℕ → Type 0
TakesFrom max bytes given r =
    (left : Name) × (r.0 ++ left ≡ given) × IsCounted max bytes r.0 left r.1

IsCounted-shift :
    (max bytes : ℕ) (piece body left : Name) (o : Option ℕ)
    → IsCounted max (bytes + length piece) body left o
    → IsCounted max bytes (piece ++ body) left o
IsCounted-shift max bytes piece body left none h = omega (arith, length-append piece body)
IsCounted-shift max bytes piece body left (some n) (e, d) =
    (omega (arith, length-append piece body), d)

-- The callback is given a part of the front of what the socket gives before an error or the end; its
-- length is returned, at least `max` if there are as many bytes, and an error is returned only if fewer
-- came.
pub read_body-TakesFrom :
    (max bytes : ℕ) (rs : List (Option Name))
    → TakesFrom max bytes (body_of rs) (read_body max bytes rs)
unfolding read_body
read_body-TakesFrom max bytes [] = ([], refl, (omega arith, inr refl))
read_body-TakesFrom max bytes (none ∷ rs) = elim (Bool-cases (ltb bytes max)) [
  | inl more ↦ rw more ([], refl, ground arith)
  | inr enough ↦ rw enough ([], refl, (omega arith, inr refl))
]
read_body-TakesFrom max bytes (some [] ∷ rs) = ([], refl, (omega arith, inr refl))
read_body-TakesFrom max bytes (some (c ∷ s) ∷ rs) =
    let piece = c ∷ s in
    let (left, e, k) = read_body-TakesFrom max (bytes + length piece) rs in
    let rest = read_body max (bytes + length piece) rs in
    elim (Bool-cases (ltb bytes max)) [
      | inl more ↦
          rw (read_body, more)
            (
              left,
              append_assoc piece (rest.0) left ∙ ap (λ t. piece ++ t) e,
              IsCounted-shift max bytes piece (rest.0) left (rest.1) k,
            )
      | inr enough ↦
          rw (read_body, enough) (piece ++ body_of rs, refl, (omega arith, inl (ground arith)))
    ]

-- ===== src/Doc/Prefix.antt =====
-- The names of the envelope after `cwmp_set_envelope_ns`.
use netcwmp_xo.Base.{
  ℕ, zero, suc, ◌+◌, ◌-◌, ◌≤◌, ◌<◌, ◌≡◌, refl, sym, true, ◌&&◌, Option, some, [], ◌∷◌, ◌++◌, subst,
  ltb, arith, Bool-cases, inl, inr, length, take, codes, ◌⊎◌,
}
use netcwmp_xo.Param.{Name}
use netcwmp_xo.Header.{same_header}
use netcwmp_xo.Doc.{Ns, no_ns, name_max, or_default, qualified, names_of, set_envelope_ns}
use netcwmp_xo.Doc.Found.{IsDistinct}

-- Prefixes that leave room for what tells the names apart
abbrev pub prefix_room : ℕ
prefix_room = 29

same_header-prefix :
    (k n : ℕ) (e x y : Name)
    → n ≡ k + length e
    → same_header (take n (e ++ x)) (take n (e ++ y)) ≡ same_header (take k x) (take k y)
unfolding same_header
same_header-prefix k n [] x y h = let same : n ≡ k = omega arith in rw same refl
same_header-prefix k zero (c ∷ e) x y h = absurd (omega arith)
same_header-prefix k (suc n) (c ∷ e) x y h =
    let rest = same_header-prefix k n e x y (omega arith) in ground arith

-- The names of a prefix of at most 29 characters for the header and for the body differ.
pub names_of-IsDistinct :
    (envs encs : Name) → length envs ≤ prefix_room → IsDistinct (names_of envs encs)
unfolding qualified same_header
names_of-IsDistinct envs encs h =
    same_header-prefix (suc (suc (prefix_room - length envs))) 31 envs (b':' ∷ codes "Header")
      (b':' ∷ codes "Body") (omega arith)

-- No names yet, or those of two prefixes
abbrev pub IsNamed : Ns → Type 0
IsNamed ns =
    (ns ≡ no_ns)
    ⊎ ((envs : Name) × (encs : Name) × (length envs ≤ prefix_room) × (ns ≡ names_of envs encs))

abbrev pub prefix_of : Option Name → Name
prefix_of envstr = or_default (codes "SOAP-ENV") envstr

named-IsDistinct :
    (ns : Ns) (envs : Name)
    → IsNamed ns
    → 0 < length envs
    → same_header (ns.env) envs ≡ true
    → IsDistinct ns
unfolding same_header
named-IsDistinct ns [] named h same = absurd (omega arith)
named-IsDistinct ns (c ∷ envs) (inl new) h same = cc
named-IsDistinct ns (c ∷ envs) (inr (e, k, fits, is)) h same =
    subst IsDistinct (sym is) (names_of-IsDistinct e k fits)

-- A call with a prefix of 1 to 29 characters that is not refused leaves the names of two prefixes, and
-- the names of the header and of the body differ.
pub set_envelope_ns-IsDistinct :
    (envstr encstr : Option Name) (ns new : Ns)
    → IsNamed ns
    → 0 < length (prefix_of envstr)
    → length (prefix_of envstr) ≤ prefix_room
    → set_envelope_ns envstr encstr ns ≡ some new
    → IsNamed new × IsDistinct new
unfolding set_envelope_ns
set_envelope_ns-IsDistinct envstr encstr ns new named given fits h =
    let envs = prefix_of envstr in
    let encs = or_default (codes "SOAP-ENC") encstr in
    elim (Bool-cases (same_header (ns.env) envs)) [
      | inl same ↦
          let is : ns ≡ new = cc in
          subst (λ x. IsNamed x × IsDistinct x) is
            (named, named-IsDistinct ns envs named given same)
      | inr differs ↦ elim (Bool-cases (ltb (length envs) name_max && ltb (length encs) name_max)) [
        | inl room_left ↦
            let is : names_of envs encs ≡ new = cc in
            (
              inr (envs, encs, fits, sym is),
              subst IsDistinct is (names_of-IsDistinct envs encs fits),
            )
        | inr long ↦ cc
      ]
    ]

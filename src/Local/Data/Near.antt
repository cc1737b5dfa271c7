-- ===== src/Local/Data/Near.antt =====
-- The object that is asked for a value or told one, netcwmp_xo/libcwmp/src/cwmp_data.c, and what the call
-- that asks returns, netcwmp_xo/libcwmp/src/cwmp_com.c.
use netcwmp_xo.Base.{
  ℕ, zero, suc, ◌≤◌, ◌<◌, ◌≡◌, refl, sym, ◌∙◌, subst, inl, inr, leb, Bool-cases, true, false,
  Option, none, some, [], take, arith,
}
use netcwmp_xo.Base.Int.{ℤ, negsuc}
use netcwmp_xo.Param.{Name, Info, Node}
use netcwmp_xo.Local.{Json, Commands, com_get_parameter_values, list_if, parts_of, value_got}
use netcwmp_xo.Local.Data.{ends_in_dot, nearest}

-- The longest front of a name, of at most `r` characters, that ends in a dot and is found
abbrev pub IsNearest : (Name → Option (Info × Node)) → Name → ℕ → Info × Node → Type 0
IsNearest found name r n =
    (k : ℕ) × (k ≤ r)
    × (ends_in_dot (take k name) ≡ true)
    × (found (take k name) ≡ some n)
    × ((j : ℕ) → j ≤ r → k < j → ends_in_dot (take j name) ≡ true → found (take j name) ≡ none)

module _ (found : Name → Option (Info × Node)) (name : Name) where
  nearest-here :
      (r : ℕ) (n : Info × Node)
      → ends_in_dot (take (suc r) name) ≡ true
      → found (take (suc r) name) ≡ some n
      → nearest found name (suc r) ≡ some n
  unfolding nearest
  nearest-here r n h f = rw (nearest, h, f) refl

  nearest-unfound :
      (r : ℕ)
      → ends_in_dot (take (suc r) name) ≡ true
      → found (take (suc r) name) ≡ none
      → nearest found name (suc r) ≡ nearest found name r
  unfolding nearest
  nearest-unfound r h f = rw (nearest, h, f) refl

  nearest-undotted :
      (r : ℕ)
      → ends_in_dot (take (suc r) name) ≡ false
      → nearest found name (suc r) ≡ nearest found name r
  unfolding nearest
  nearest-undotted r h = rw (nearest, h) refl

  -- One character more, with which nothing is found
  beyond :
      (r : ℕ) (n : Info × Node)
      → IsNearest found name r n
      → (ends_in_dot (take (suc r) name) ≡ true → found (take (suc r) name) ≡ none)
      → IsNearest found name (suc r) n
  beyond r n (k, le, dotted, here, above) end = (
    k,
    omega arith,
    dotted,
    here,
    λ j j≤ k< e. elim (Bool-cases (leb j r)) [
      | inl t ↦ above j (ground arith) k< e
      | inr f ↦
          let last : suc r ≡ j = ground arith in
          subst (λ i. ends_in_dot (take i name) ≡ true → found (take i name) ≡ none) last end e
    ],
  )

  at_end :
      (r : ℕ) (n : Info × Node) (m : Option (Info × Node))
      → ends_in_dot (take (suc r) name) ≡ true
      → found (take (suc r) name) ≡ m
      → (nearest found name r ≡ some n → IsNearest found name r n)
      → nearest found name (suc r) ≡ some n
      → IsNearest found name (suc r) n
  at_end r n none h f ih out = beyond r n (ih (sym (nearest-unfound r h f) ∙ out)) (λ e. f)
  at_end r n (some m) h f ih out = (
    suc r,
    omega arith,
    h,
    f ∙ sym (nearest-here r m h f) ∙ out,
    λ j j≤ r< e. absurd (omega arith),
  )

  -- What the loop returns is found for the longest front of the name, of at most `r` characters, that
  -- ends in a dot and for which something is found.
  pub nearest-IsNearest :
      (r : ℕ) (n : Info × Node) → nearest found name r ≡ some n → IsNearest found name r n
  unfolding nearest
  nearest-IsNearest zero n h = cc
  nearest-IsNearest (suc r) n h = elim (Bool-cases (ends_in_dot (take (suc r) name))) [
    | inl dotted ↦ at_end r n (found (take (suc r) name)) dotted refl (nearest-IsNearest r n) h
    | inr undotted ↦
        beyond r n (nearest-IsNearest r n (sym (nearest-undotted r undotted) ∙ h)) (λ e. cc)
  ]

-- Whatever is received, the call that asks for a value returns -1.
abbrev pub Fails : Option (ℤ × Name) → Type 0
Fails none = Unit
Fails (some (code, v)) = code ≡ negsuc 0

module _ (cmds : Commands) where
  value_got-Fails : (len : ℕ) (o : Option (Option Json)) → Fails (value_got cmds len [] o)
  value_got-Fails len none = tt
  value_got-Fails len (some none) = refl
  value_got-Fails len (some (some list)) = refl

  pub com_get_parameter_values-Fails :
      (root : Option Json) (len : ℕ) → Fails (com_get_parameter_values cmds root len [])
  unfolding com_get_parameter_values
  com_get_parameter_values-Fails none len = refl
  com_get_parameter_values-Fails (some root) len =
      value_got-Fails len (list_if cmds (cmds.get_response) (parts_of cmds root))

-- ===== src/Model/Copy/Found.antt =====
-- A new instance of `cwmp_model_copy_parameter`, netcwmp_xo/libcwmp/src/model.c, and the search of
-- `cwmp_get_parameter_path_node`.
use netcwmp_xo.Base.{
  ℕ, ◌≤◌, ◌<◌, ◌≡◌, refl, sym, ap, subst, ◌∙◌, inl, inr, Bool, true, false, Option, none, some,
  Option-cases, List, [], ◌∷◌, ltb, if◌then◌else◌, length, arith,
}
use netcwmp_xo.Param.{Name, Info, Node, null, node, same_name, index_name, child, found, path_loop}
use netcwmp_xo.Param.Path.{
  ArePlain, IsEnding, join_to, pick, below, locate, path_loop-join_to, same_name_refl,
}
use netcwmp_xo.Model.{pstrdup}
use netcwmp_xo.Model.Copy.{copied_info, copy_below, append_sibling, instance_of, copy_parameter}

-- No name in the tree is empty.
abbrev pub AreNamed : Node → Type 0
AreNamed null = Unit {0}
AreNamed (node none i c s) = AreNamed c × AreNamed s
AreNamed (node (some k) i c s) = (0 < length k) × AreNamed c × AreNamed s

-- Every node of the chain has a name.
abbrev pub HaveNames : Node → Type 0
HaveNames null = Unit {0}
HaveNames (node none i c s) = ⊥
HaveNames (node (some k) i c s) = HaveNames s

abbrev copied : Option Node → Option Node
copied none = none
copied (some m) = some (copy_below m)

pstrdup_named : (k : Name) → 0 < length k → pstrdup (some k) ≡ some k
pstrdup_named [] h = absurd (omega arith)
pstrdup_named (c ∷ k) h = refl

copied-if :
    (b same : Bool) (m q : Node) (o : Option Node)
    → copy_below m ≡ q
    → (if b then copied o else if same then some q else copied o)
      ≡ copied (if b then o else if same then some m else o)
copied-if true same m q o h = refl
copied-if false true m q o h = ap some (sym h)
copied-if false false m q o h = refl

pick-copy_below : (s : Name) (n : Node) → AreNamed n → pick s (copy_below n) ≡ copied (pick s n)
unfolding copy_below
pick-copy_below s null h = refl
pick-copy_below s (node none i c r) h = refl
pick-copy_below s (node (some k) i c r) (l, hc, hr) =
    let e = pstrdup_named k l in
    let q = node (some k) (copied_info i) (copy_below c) (copy_below r) in
    rw (e, pick-copy_below s r hr)
      (copied-if (same_name k index_name) (same_name k s) (node (some k) i c r) q (pick s r)
        (ap (λ z. node z (copied_info i) (copy_below c) (copy_below r)) e))

child-copy_below : (n : Node) → child (copy_below n) ≡ copy_below (child n)
unfolding copy_below
child-copy_below null = refl
child-copy_below (node k i c s) = refl

-- The names below a node that is found
pick-AreNamed : (s : Name) (n m : Node) → AreNamed n → pick s n ≡ some m → AreNamed (child m)
pick-AreNamed s null m h p = cc
pick-AreNamed s (node none i c r) m h p = cc
pick-AreNamed s (node (some k) i c r) m (l, hc, hr) p =
    go (same_name k index_name) (same_name k s) (pick s r) (pick-AreNamed s r m hr) p
  where
    go :
        (b same : Bool) (o : Option Node)
        → (o ≡ some m → AreNamed (child m))
        → (if b then o else if same then some (node (some k) i c r) else o) ≡ some m
        → AreNamed (child m)
    go true same o ih q = ih q
    go false true o ih q =
        let e : node (some k) i c r ≡ m = cc in subst (λ z. AreNamed (child z)) e hc
    go false false o ih q = ih q

locate-copy_below :
    (s : Name) (ss : List Name) (n y : Node)
    → AreNamed n
    → locate s ss n ≡ some y
    → locate s ss (copy_below n) ≡ some (copy_below y)
locate-copy_below s [] n y h p = pick-copy_below s n h ∙ ap copied p
locate-copy_below s (t ∷ ss) n y h p = elim (Option-cases (pick s n)) [
  | inl missing ↦ let lost : none ≡ some y = sym (ap (below (locate t ss)) missing) ∙ p in cc
  | inr (m, picked) ↦
      ap (below (locate t ss)) (pick-copy_below s n h ∙ ap copied picked)
      ∙ ap (locate t ss) (child-copy_below m)
      ∙ locate-copy_below t ss (child m) y (pick-AreNamed s n m h picked)
          (sym (ap (below (locate t ss)) picked) ∙ p)
]

-- The new node is found behind siblings that have other names.
pick-append_sibling :
    (s : Name) (n new_node : Node)
    → HaveNames n
    → pick s n ≡ none
    → pick s (append_sibling n new_node) ≡ pick s new_node
unfolding append_sibling
pick-append_sibling s null new_node h p = refl
pick-append_sibling s (node none i c r) new_node h p = absurd h
pick-append_sibling s (node (some k) i c r) new_node h p =
    go (same_name k index_name) (same_name k s) (pick s r) (pick-append_sibling s r new_node h) p
  where
    go :
        (b same : Bool) (o : Option Node)
        → (o ≡ none → pick s (append_sibling r new_node) ≡ pick s new_node)
        → (if b then o else if same then some (node (some k) i c r) else o) ≡ none
        → (if b
            then pick s (append_sibling r new_node)
            else if same
            then some (node (some k) i c (append_sibling r new_node))
            else pick s (append_sibling r new_node))
          ≡ pick s new_node
    go true same o ih q = ih q
    go false true o ih q = cc
    go false false o ih q = ih q

pick-instance_of :
    (k : Name) (i : Info) (c : Node)
    → 0 < length k
    → same_name k index_name ≡ false
    → pick k (instance_of k i c) ≡ some (instance_of k i c)
pick-instance_of k i c l h = let e = pstrdup_named k l in rw e (rw (h, same_name_refl k) refl)

copy_parameter-child :
    (itoa : ℕ → Name) (name m : Option Name) (i j : Info) (d r s : Node) (k : ℕ)
    → 0 < k
    → child ((copy_parameter itoa (node name i (node m j d r) s) k).param)
      ≡ append_sibling (node m j d r) (instance_of (itoa k) j d)
unfolding copy_parameter append_sibling
copy_parameter-child itoa name m i j d r s k h =
    let positive : ltb 0 k ≡ true = ground arith in rw positive refl

-- After `cwmp_model_copy_parameter` with a positive number that no child of the parameter has for its
-- name, the names of a parameter in the first child lead, behind this number, to the copy of this
-- parameter, when the children have names, none in the first child is empty, and the text of the number is
-- a plain name and not `{i}`.
pub copy_parameter-found :
    (itoa : ℕ → Name) (name m : Option Name) (i j : Info) (d r s y up : Node) (k fuel : ℕ)
    (e t : Name) (ss : List Name)
    → 0 < k
    → same_name (itoa k) index_name ≡ false
    → HaveNames (node m j d r)
    → pick (itoa k) (node m j d r) ≡ none
    → AreNamed d
    → IsEnding e
    → ArePlain (itoa k ∷ t ∷ ss)
    → locate t ss d ≡ some y
    → length (join_to e (itoa k) (t ∷ ss)) ≤ fuel
    → path_loop fuel up
        (child ((copy_parameter itoa (node name i (node m j d r) s) k).param))
        (join_to e (itoa k) (t ∷ ss))
      ≡ found (copy_below y)
copy_parameter-found itoa name m i j d r s y up k fuel e t ss positive index names fresh named ends
      plain l long =
    let made = instance_of (itoa k) j d in
    let chain = copy_parameter-child itoa name m i j d r s k positive in
    let picked : pick (itoa k) (append_sibling (node m j d r) made) ≡ some made =
      pick-append_sibling (itoa k) (node m j d r) made names fresh
      ∙ pick-instance_of (itoa k) j d plain.0.0.0 index in
    rw chain (
      path_loop-join_to fuel up (append_sibling (node m j d r) made) (copy_below y) e (itoa k)
        (t ∷ ss) ends plain (ap (below (locate t ss)) picked ∙ locate-copy_below t ss d y named l)
        long)

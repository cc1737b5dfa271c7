-- ===== src/Model/Load.antt =====
-- What the model file defines is found in the tree that netcwmp_xo/libcwmp/src/model.c builds, by
-- `cwmp_get_parameter_path_node` of netcwmp_xo/libcwmp/src/cwmp.c.
use netcwmp_xo.Base.{
  ℕ, ◌≤◌, ◌≡◌, refl, sym, ap, subst, ◌∙◌, inl, inr, Bool, true, false, Option, none, some,
  Option-cases, List, [], ◌∷◌, if◌then◌else◌, length,
}
use netcwmp_xo.Param.{Name, Info, Node, node, same_name, index_name, child, found, path_loop}
use netcwmp_xo.Param.Path.{ArePlain, IsEnding, join_to, pick, below, locate, path_loop-join_to}
use netcwmp_xo.Names.{ends_with_dot}
use netcwmp_xo.Model.{
  pstrdup, ModelFunc, Attributes, Xml, no_element, element, init_parameter, linked,
  create_parameter,
}

-- The first of the sibling elements with a name; those called `{i}` are passed over, and none is found
-- behind an element without a name.
abbrev pub pick_element : Name → Xml → Option Xml
pick_element s no_element = none
pick_element s (element none a c x) = none
pick_element s (element (some m) a c x) =
    let rest = pick_element s x in
    if same_name m index_name
    then rest
    else if same_name m s
    then some (element (some m) a c x)
    else rest

abbrev pub below_element : (Xml → Option Xml) → Option Xml → Option Xml
below_element f none = none
below_element f (some no_element) = none
below_element f (some (element name a c x)) = f c

-- The element that a list of names leads to, each a child of the one before
abbrev pub locate_element : Name → List Name → Xml → Option Xml
locate_element s [] x = pick_element s x
locate_element s (t ∷ ss) x = below_element (locate_element t ss) (pick_element s x)

module _ (atoi : Name → ℕ) (conf : Option Name → Option Name) (func_list : List ModelFunc) where
  abbrev load : Xml → Option Node
  load = create_parameter atoi conf func_list

  abbrev info : Option Name → Attributes → Option Info
  info = init_parameter atoi conf func_list

  -- The parts of a node that was built
  abbrev Parts : Option Name → Option Info → Option Node → Option Node → Node → Type 0
  Parts name o p q n =
      (i : Info) × (c : Node) × (s : Node) × (o ≡ some i)
      × (p ≡ some c)
      × (q ≡ some s)
      × (node (pstrdup name) i c s ≡ n)

  linked-Parts :
      (name : Option Name) (o : Option Info) (p q : Option Node) (n : Node)
      → linked atoi conf func_list name o p q ≡ some n
      → Parts name o p q n
  linked-Parts name none p q n h = cc
  linked-Parts name (some i) none q n h = cc
  linked-Parts name (some i) (some c) none n h = cc
  linked-Parts name (some i) (some c) (some s) n h = (i, c, s, refl, refl, refl, cc)

  load-Parts :
      (name : Option Name) (a : Attributes) (c x : Xml) (n : Node)
      → load (element name a c x) ≡ some n
      → Parts name (info name a) (load c) (load x) n
  unfolding create_parameter
  load-Parts name a c x n h = linked-Parts name (info name a) (load c) (load x) n h

  -- The empty name is refused.
  info-nonempty :
      (m : Name) (a : Attributes) (i : Info) → info (some m) a ≡ some i → pstrdup (some m) ≡ some m
  unfolding init_parameter ends_with_dot
  info-nonempty [] a i h = cc
  info-nonempty (c ∷ m) a i h = refl

  -- A node that was built of an element
  abbrev pub IsBuilt : Xml → Option Node → Type 0
  IsBuilt y o = (m : Node) × (create_parameter atoi conf func_list y ≡ some m) × (o ≡ some m)

  -- A step of both searches
  step-IsBuilt :
      (b same : Bool) (e y : Xml) (n : Node) (rest : Option Xml) (o : Option Node)
      → load e ≡ some n
      → (rest ≡ some y → IsBuilt y o)
      → (if b then rest else if same then some e else rest) ≡ some y
      → IsBuilt y (if b then o else if same then some n else o)
  step-IsBuilt true same e y n rest o l ih h = ih h
  step-IsBuilt false true e y n rest o l ih h =
      let chosen : e ≡ y = cc in (n, subst (λ z. load z ≡ some n) chosen l, refl)
  step-IsBuilt false false e y n rest o l ih h = ih h

  pick-IsBuilt :
      (s : Name) (x y : Xml) (n : Node)
      → load x ≡ some n
      → pick_element s x ≡ some y
      → IsBuilt y (pick s n)
  pick-IsBuilt s no_element y n h p = cc
  pick-IsBuilt s (element none a c x) y n h p = cc
  pick-IsBuilt s (element (some m) a c x) y n h p =
      let (i, d, r, o, u, v, e) = load-Parts (some m) a c x n h in
      let named : node (some m) i d r ≡ n =
        ap (λ z. node z i d r) (sym (info-nonempty m a i o)) ∙ e in
      subst (λ z. IsBuilt y (pick s z)) named
        (step-IsBuilt (same_name m index_name) (same_name m s) (element (some m) a c x) y
          (node (some m) i d r) (pick_element s x) (pick s r) (h ∙ ap some (sym named))
          (pick-IsBuilt s x y r v) p)

  child-IsBuilt :
      (name : Option Name) (a : Attributes) (c x : Xml) (n : Node)
      → load (element name a c x) ≡ some n
      → load c ≡ some (child n)
  child-IsBuilt name a c x n h =
      let (i, d, r, o, u, v, e) = load-Parts name a c x n h in u ∙ ap (λ z. some (child z)) e

  -- From an element to what is found among its children
  below-IsBuilt :
      (f : Xml → Option Xml) (g : Node → Option Node)
      → ((x y : Xml) (n : Node) → load x ≡ some n → f x ≡ some y → IsBuilt y (g n))
      → (z y : Xml) (o : Option Node) → IsBuilt z o
      → below_element f (some z) ≡ some y
      → IsBuilt y (below g o)
  below-IsBuilt f g ih no_element y o b p = cc
  below-IsBuilt f g ih (element name a c x) y o (m, l, e) p =
      subst (λ z. IsBuilt y (below g z)) (sym e) (ih c y (child m) (child-IsBuilt name a c x m l) p)

  locate-IsBuilt :
      (s : Name) (ss : List Name) (x y : Xml) (n : Node)
      → load x ≡ some n
      → locate_element s ss x ≡ some y
      → IsBuilt y (locate s ss n)
  locate-IsBuilt s [] x y n h p = pick-IsBuilt s x y n h p
  locate-IsBuilt s (t ∷ ss) x y n h p = elim (Option-cases (pick_element s x)) [
    | inl missing ↦
        let lost : none ≡ some y = sym (ap (below_element (locate_element t ss)) missing) ∙ p in cc
    | inr (z, picked) ↦
        below-IsBuilt (locate_element t ss) (locate t ss) (locate-IsBuilt t ss) z y (pick s n)
          (pick-IsBuilt s x z n h picked)
          (sym (ap (below_element (locate_element t ss)) picked) ∙ p)
  ]

  -- Where plain names lead to an element of the model file, each to the first child of that name, the
  -- search for these names, with dots between them and perhaps one behind them, finds the node that was
  -- built of this element.
  pub path_loop-create_parameter :
      (fuel : ℕ) (up n : Node) (x y : Xml) (e s : Name) (ss : List Name)
      → IsEnding e
      → ArePlain (s ∷ ss)
      → load x ≡ some n
      → locate_element s ss x ≡ some y
      → length (join_to e s ss) ≤ fuel
      → (m : Node) × (load y ≡ some m) × (path_loop fuel up n (join_to e s ss) ≡ found m)
  path_loop-create_parameter fuel up n x y e s ss ends h l p k =
      let (m, built, q) = locate-IsBuilt s ss x y n l p in
      (m, built, path_loop-join_to fuel up n m e s ss ends h q k)

-- ===== src/Objects/Guards.antt =====
-- Which nodes `cwmp_parse_addobject_message` of netcwmp_xo/libcwmp/src/cwmp.c calls the add function of.
use netcwmp_xo.Base.{
  ℕ, ◌≤◌, ◌≡◌, refl, sym, ap, subst, ◌⊎◌, inl, inr, Bool, true, false, not, ◌||◌, Bool-cases,
  Option, none, some, ◌==◌, length,
}
use netcwmp_xo.Param.{
  Name, Info, type_object, Node, null, node, same_name, index_name, get_parameter_path_node,
}
use netcwmp_xo.Param.Path.{Ends, path_loop-Ends}
use netcwmp_xo.Objects.{
  Objects, Outcome, fault, refuse, added_by, add_with, add_below, add_at, add_found, add_object,
}

-- A node that an instance can be added to: a writable object whose first child is called `{i}`
abbrev pub IsExtensible : Info → Node → Type 0
IsExtensible i null = ⊥
IsExtensible i (node none j c r) = ⊥
IsExtensible i (node (some k) j c r) =
    ((i.type == type_object) ≡ true) × ((i.rw_flag == 1) ≡ true) × (same_name k index_name ≡ true)

module _ {S : Type 0} (d : Objects S) (stack : ℕ) (s : S) where
  -- The outcome of a call of the add function of an extensible node
  abbrev pub CallsAdd : Outcome S → Type 0
  CallsAdd o =
      (name : Option Name) × (i : Info) × (c : Node) × (r : Node) × (f : ℕ) × (i.add ≡ some f)
      × IsExtensible i c
      × (o ≡ added_by d stack (d.call_add f (node name i c r) s))

  abbrev pub IsGuarded : Outcome S → Type 0
  IsGuarded o = (o ≡ fault) ⊎ ((o ≡ refuse d stack s) ⊎ CallsAdd o)

  add_at-refused :
      (name : Option Name) (i : Info) (c r : Node)
      → (not (i.type == type_object) || not (i.rw_flag == 1)) ≡ true
      → add_at d stack (node name i c r) s ≡ refuse d stack s
  unfolding add_at
  add_at-refused name i c r h = rw h refl

  add_at-below :
      (name : Option Name) (i : Info) (c r : Node)
      → (i.type == type_object) ≡ true
      → (i.rw_flag == 1) ≡ true
      → add_at d stack (node name i c r) s ≡ add_below d stack (i.add) (node name i c r) c s
  unfolding add_at
  add_at-below name i c r u v = rw (u, v) refl

  add_below-index :
      (f : Option ℕ) (pn : Node) (k : Name) (j : Info) (c r : Node)
      → same_name k index_name ≡ true
      → add_below d stack f pn (node (some k) j c r) s ≡ add_with d stack f pn s
  unfolding add_below
  add_below-index f pn k j c r h = rw h refl

  add_below-other :
      (f : Option ℕ) (pn : Node) (k : Name) (j : Info) (c r : Node)
      → same_name k index_name ≡ false
      → add_below d stack f pn (node (some k) j c r) s ≡ refuse d stack s
  unfolding add_below
  add_below-other f pn k j c r h = rw h refl

  both_true : (a b : Bool) → (not a || not b) ≡ false → (a ≡ true) × (b ≡ true)
  both_true true true h = (refl, refl)
  both_true true false h = cc
  both_true false b h = cc

  add_with-IsGuarded :
      (name : Option Name) (i : Info) (c r : Node) (g : Option ℕ)
      → i.add ≡ g
      → IsExtensible i c
      → IsGuarded (add_with d stack g (node name i c r) s)
  add_with-IsGuarded name i c r none e x = inr (inl refl)
  add_with-IsGuarded name i c r (some f) e x = inr (inr (name, i, c, r, f, e, x, refl))

  add_below-IsGuarded :
      (name : Option Name) (i : Info) (c r : Node)
      → (i.type == type_object) ≡ true
      → (i.rw_flag == 1) ≡ true
      → IsGuarded (add_below d stack (i.add) (node name i c r) c s)
  unfolding add_below
  add_below-IsGuarded name i null r u v = inl refl
  add_below-IsGuarded name i (node none j b q) r u v = inr (inl refl)
  add_below-IsGuarded name i (node (some k) j b q) r u v =
      elim (Bool-cases (same_name k index_name)) [
        | inl index ↦
            subst IsGuarded
              (sym (add_below-index (i.add) (node name i (node (some k) j b q) r) k j b q index))
              (add_with-IsGuarded name i (node (some k) j b q) r (i.add) refl (u, v, index))
        | inr other ↦
            inr (inl (add_below-other (i.add) (node name i (node (some k) j b q) r) k j b q other))
      ]

  add_at-IsGuarded : (m : Node) → IsGuarded (add_at d stack m s)
  unfolding add_at
  add_at-IsGuarded null = inr (inl refl)
  add_at-IsGuarded (node name i c r) =
      elim (Bool-cases (not (i.type == type_object) || not (i.rw_flag == 1))) [
        | inl closed ↦ inr (inl (add_at-refused name i c r closed))
        | inr open_ ↦
            let (u, v) = both_true (i.type == type_object) (i.rw_flag == 1) open_ in
            subst IsGuarded (sym (add_at-below name i c r u v)) (add_below-IsGuarded name i c r u v)
      ]

  -- The search that the handler starts with, with fuel for every character
  get_parameter_path_node-Ends :
      (fuel : ℕ) (up root : Node) (path : Name)
      → length path ≤ fuel
      → Ends path (get_parameter_path_node fuel up root (some path))
  unfolding get_parameter_path_node
  get_parameter_path_node-Ends fuel up null path h = inl (null, refl)
  get_parameter_path_node-Ends fuel up (node name i c r) path h =
      path_loop-Ends fuel up (node name i c r) path h

  -- With fuel for every character of the name, AddObject ends with a fault of the program, with the fault
  -- 9005 and the device as it was, or with what came of a call of the add function of a writable object
  -- whose first child is called `{i}`.
  pub add_object-IsGuarded :
      (fuel : ℕ) (path : Name)
      → length path ≤ fuel
      → IsGuarded (add_object d stack fuel (some path) s)
  unfolding add_object
  add_object-IsGuarded fuel path h =
      elim (get_parameter_path_node-Ends fuel (d.top s) (d.root s) path h) [
        | inl (m, e) ↦
            subst IsGuarded (sym (ap (λ l. add_found d stack l s) e)) (add_at-IsGuarded m)
        | inr (unfit, e) ↦ subst IsGuarded (sym (ap (λ l. add_found d stack l s) e)) (inl refl)
      ]

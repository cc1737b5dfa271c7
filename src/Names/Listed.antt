-- ===== src/Names/Listed.antt =====
-- The names that GetParameterNames lists lead back to their nodes.
use netcwmp_xo.Base.{
  ◌≤◌, ◌≡◌, refl, sym, ap, ◌∙◌, Bool, true, false, not, Option, none, some, List, [], ◌∷◌, ◌++◌,
  append_assoc, append-nil, arith, ◌==◌, Bool-cases, inl, inr, ◌⊎◌, length, length-append, take-all,
  if◌then◌else◌, Either, Either-true, Either-false, subst,
}
use netcwmp_xo.Param.{
  Name, Info, type_object, Node, null, node, same_name, index_name, child, found, path_loop,
}
use netcwmp_xo.Param.Path.{
  IsPlain, ArePlain, IsEnding, join_to, pick, below, locate, path_loop-join_to,
}
use netcwmp_xo.Names.{
  Entry, is_index, entry, print_limit, child_path, names_below, all_parameter_names,
}

abbrev pub dot : Name
dot = b'.' ∷ []

abbrev pub IsNull : Node → Type 0
IsNull null = Unit {0}
IsNull (node name i c s) = ⊥

-- Nodes that can be listed under a path, of the chain `all`: those not called `{i}` have a name that
-- can stand in a path and is the first of that name, their name in the list fits the buffer, and only
-- objects have children, which can be listed as well.
abbrev pub Listable : Name → Node → Node → Type 0
Listable path all null = Unit {0}
Listable path all (node none i c s) = ⊥
Listable path all (node (some m) i c s) = Either (same_name m index_name) (Listable path all s) (
    IsPlain m
    × (pick m all ≡ some (node (some m) i c s))
    × (length (path ++ m ++ dot) ≤ print_limit)
    × ((i.type == type_object ≡ true) ⊎ IsNull c)
    × Listable (path ++ m ++ dot) c c
    × Listable path all s)

abbrev pub writable : Node → Bool
writable null = false
writable (node name i c s) = not (i.rw_flag == 0)

-- An entry names the node `m`, which the search finds from the chain `n`, and says whether it is
-- writable.
abbrev pub IsListed : Node → Node → Entry → Node → Type 0
IsListed up n e m = (path_loop (length e.name) up n e.name ≡ found m) × (e.writable ≡ writable m)

-- The entries name these nodes, one each, in their order.
abbrev pub AreListed : Node → Node → List Entry → List Node → Type 0
AreListed up n [] [] = Unit {0}
AreListed up n [] (m ∷ ms) = ⊥
AreListed up n (e ∷ es) [] = ⊥
AreListed up n (e ∷ es) (m ∷ ms) = IsListed up n e m × AreListed up n es ms

AreListed-append :
    (up n : Node) (es fs : List Entry) (ms ks : List Node)
    → AreListed up n es ms
    → AreListed up n fs ks
    → AreListed up n (es ++ fs) (ms ++ ks)
AreListed-append up n [] fs [] ks h k = k
AreListed-append up n [] fs (m ∷ ms) ks h k = absurd h
AreListed-append up n (e ∷ es) fs [] ks h k = absurd h
AreListed-append up n (e ∷ es) fs (m ∷ ms) ks h k = (h.0, AreListed-append up n es fs ms ks h.1 k)

-- The nodes of a chain and below it, each in front of those below it; those called `{i}` and what stands
-- below them are left out.
unfoldable pub nodes_below : Node → List Node
nodes_below null = []
nodes_below (node name i c s) =
    let rest = nodes_below s in
    let inner = nodes_below c in if is_index name then rest else node name i c s ∷ inner ++ rest

abbrev pub nodes_from : Node → List Node
nodes_from null = []
nodes_from (node name i c s) = node name i c s ∷ nodes_below c

nodes_below-null : (c : Node) → IsNull c → nodes_below c ≡ []
unfolding nodes_below
nodes_below-null null h = refl
nodes_below-null (node name i c s) h = absurd h

nodes_below-index :
    (k : Name) (i : Info) (c r : Node)
    → same_name k index_name ≡ true
    → nodes_below (node (some k) i c r) ≡ nodes_below r
unfolding nodes_below
nodes_below-index k i c r x = rw x refl

nodes_below-child :
    (k : Name) (i : Info) (c r : Node)
    → same_name k index_name ≡ false
    → nodes_below (node (some k) i c r) ≡ node (some k) i c r ∷ nodes_below c ++ nodes_below r
unfolding nodes_below
nodes_below-child k i c r x = rw x refl

below-below :
    (f g h : Node → Option Node)
    → ((n : Node) → f n ≡ below g (h n))
    → (o : Option Node) → below f o ≡ below g (below h o)
below-below f g h e none = refl
below-below f g h e (some m) = e (child m)

locate-snoc :
    (s k : Name) (ss : List Name) (n : Node)
    → locate s (ss ++ k ∷ []) n ≡ below (pick k) (locate s ss n)
locate-snoc s k [] n = refl
locate-snoc s k (t ∷ ss) n =
    below-below (locate t (ss ++ k ∷ [])) (pick k) (locate t ss) (locate-snoc t k ss) (pick s n)

join_to-snoc_right :
    (e s k : Name) (ss : List Name) → join_to e s (ss ++ k ∷ []) ≡ join_to dot s ss ++ (k ++ e)
join_to-snoc_right e s k [] = sym (append_assoc s dot (k ++ e))
join_to-snoc_right e s k (t ∷ ss) =
    rw (join_to-snoc_right e t k ss) (sym (append_assoc s (b'.' ∷ join_to dot t ss) (k ++ e)))

join_to-snoc :
    (e s k : Name) (ss : List Name) → join_to e s (ss ++ k ∷ []) ≡ join_to dot s ss ++ k ++ e
join_to-snoc e s k ss = join_to-snoc_right e s k ss ∙ sym (append_assoc (join_to dot s ss) k e)

ArePlain-snoc : (ss : List Name) (k : Name) → ArePlain ss → IsPlain k → ArePlain (ss ++ k ∷ [])
ArePlain-snoc [] k h p = (p, tt)
ArePlain-snoc (s ∷ ss) k h p = (h.0, ArePlain-snoc ss k h.1 p)

-- The name of a listed child, as a path with an ending
child_path-join_to :
    (s k : Name) (ss : List Name) (i : Info)
    → length (join_to dot s ss ++ k ++ dot) ≤ print_limit
    → (e : Name) × IsEnding e
      × (child_path (join_to dot s ss) (some k) i ≡ join_to e s (ss ++ k ∷ []))
      × ((i.type == type_object ≡ true) → e ≡ dot)
unfolding child_path
child_path-join_to s k ss i h =
    let p = join_to dot s ss ++ k in
    let long = length-append p dot in
    let fits : length (p ++ []) ≤ print_limit = rw (append-nil p) (omega (arith, long)) in
    elim (Bool-cases (i.type == type_object)) [
      | inl object ↦ rw object (
        dot,
        inr refl,
        take-all print_limit (p ++ dot) h ∙ sym (join_to-snoc dot s k ss),
        λ x. refl,
      )
      | inr leaf ↦ rw leaf (
        [],
        inl refl,
        take-all print_limit (p ++ []) fits ∙ sym (join_to-snoc [] s k ss),
        λ x. cc,
      )
    ]

names_below-index :
    (path k : Name) (i : Info) (c r : Node)
    → same_name k index_name ≡ true
    → names_below path (node (some k) i c r) ≡ names_below path r
unfolding names_below
names_below-index path k i c r x = rw x refl

names_below-child :
    (path k : Name) (i : Info) (c r : Node)
    → same_name k index_name ≡ false
    → names_below path (node (some k) i c r)
      ≡ entry (child_path path (some k) i) i ∷ names_below (child_path path (some k) i) c
        ++ names_below path r
unfolding names_below
names_below-child path k i c r x = rw x refl

names_below-null : (path : Name) (c : Node) → IsNull c → names_below path c ≡ []
unfolding names_below
names_below-null path null h = refl
names_below-null path (node name i c s) h = absurd h

module _ (up n : Node) where
  -- An entry for a node that is located by its names
  entry-IsListed :
      (e s : Name) (ss : List Name) (name : Option Name) (i : Info) (c r : Node)
      → IsEnding e
      → ArePlain (s ∷ ss)
      → locate s ss n ≡ some (node name i c r)
      → IsListed up n (entry (join_to e s ss) i) (node name i c r)
  entry-IsListed e s ss name i c r x p l = (
    path_loop-join_to (length (join_to e s ss)) up n (node name i c r) e s ss x p l (omega arith),
    refl,
  )

  names_below-IsListed :
      (s : Name) (ss : List Name) (m c : Node)
      → ArePlain (s ∷ ss)
      → locate s ss n ≡ some m
      → Listable (join_to dot s ss) (child m) c
      → AreListed up n (names_below (join_to dot s ss) c) (nodes_below c)
  unfolding nodes_below
  names_below-IsListed s ss m null p l h = rw (names_below-null (join_to dot s ss) null tt) tt
  names_below-IsListed s ss m (node none i c r) p l h = absurd h
  names_below-IsListed s ss m (node (some k) i c r) p l h =
      elim (Bool-cases (same_name k index_name)) [
        | inl index ↦
            rw (names_below-index (join_to dot s ss) k i c r index, nodes_below-index k i c r index)
              (names_below-IsListed s ss m r p l (Either-true _ _ (same_name k index_name) index h))
        | inr other ↦
            let (plain, picked, fits, objects, inner, rest) =
              Either-false _ _ (same_name k index_name) other h in
            let (e, x, path, dotted) = child_path-join_to s k ss i fits in
            let q : ArePlain (s ∷ ss ++ k ∷ []) = ArePlain-snoc (s ∷ ss) k p plain in
            let l' : locate s (ss ++ k ∷ []) n ≡ some (node (some k) i c r) =
              locate-snoc s k ss n ∙ ap (below (pick k)) l ∙ picked in
            rw
              (
                names_below-child (join_to dot s ss) k i c r other,
                nodes_below-child k i c r other,
                path,
              )
              (
                entry-IsListed e s (ss ++ k ∷ []) (some k) i c r x q l',
                AreListed-append up n (names_below (join_to e s (ss ++ k ∷ [])) c)
                    (names_below (join_to dot s ss) r) (nodes_below c) (nodes_below r)
                    (elim objects [
                      | inl object ↦
                          subst
                            (λ z.
                              AreListed up n (names_below (join_to z s (ss ++ k ∷ [])) c)
                                (nodes_below c))
                            (sym (dotted object))
                            (names_below-IsListed s (ss ++ k ∷ []) (node (some k) i c r) c q l'
                              (subst (λ z. Listable z c c) (sym (join_to-snoc dot s k ss)) inner))
                      | inr leaf ↦
                          rw
                            (
                              names_below-null (join_to e s (ss ++ k ∷ [])) c leaf,
                              nodes_below-null c leaf,
                            )
                            tt
                    ])
                    (names_below-IsListed s ss m r p l rest),
              )
      ]

-- For a node that plain names lead to from the chain `n`, below which the tree can be listed, the
-- entries of the list of all parameters under the path of these names and a dot name this node and those
-- below it, one each and in their order, without those called `{i}`: `cwmp_get_parameter_path_node`
-- finds each by its entry from `n`, and the entry says whether it is writable.
pub all_parameter_names-IsListed :
    (up n m : Node) (s : Name) (ss : List Name)
    → ArePlain (s ∷ ss)
    → locate s ss n ≡ some m
    → Listable (join_to dot s ss) (child m) (child m)
    → AreListed up n (all_parameter_names (join_to dot s ss) m) (nodes_from m)
unfolding all_parameter_names
all_parameter_names-IsListed up n null s ss p l h = tt
all_parameter_names-IsListed up n (node name i c r) s ss p l h = (
  entry-IsListed up n dot s ss name i c r (inr refl) p l,
  names_below-IsListed up n s ss (node name i c r) c p l h,
)

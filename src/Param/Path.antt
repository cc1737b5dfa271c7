-- ===== src/Param/Path.antt =====
-- `cwmp_get_parameter_path_node` against a search that goes from name to name.
use netcwmp_xo.Base.{
  append-nil, ℕ, zero, suc, ◌+◌, ◌-◌, leb, Bool-cases, ◌≤◌, ◌<◌, ◌≡◌, refl, sym, ap, subst, ◌∙◌,
  Bool, true, false, ◌||◌, Option, none, some, List, [], ◌∷◌, ◌++◌, arith, ◌==◌, if◌then◌else◌,
  Option-cases, inl, inr, ◌⊎◌, length, length-append,
}
use netcwmp_xo.Param.{
  Name, Node, null, node, same_name, index_name, get_parameter_nodename, is_end, is_null, child,
  Scan, at_node, at_null, at_parent, last_parent, scan, Lookup, found, too_long, name_size,
  path_loop,
}

-- A name without a dot, and one that can stand in a path: it is not empty and fits the buffer.
abbrev pub HasNoDot : Name → Type 0
HasNoDot [] = Unit {0}
HasNoDot (c ∷ s) = ((c == b'.') ≡ false) × HasNoDot s

abbrev pub IsPlain : Name → Type 0
IsPlain s = ((0 < length s) × (length s < name_size)) × HasNoDot s

abbrev pub ArePlain : List Name → Type 0
ArePlain [] = Unit {0}
ArePlain (s ∷ ss) = IsPlain s × ArePlain ss

plain_short : (s : Name) → IsPlain s → leb name_size (length s) ≡ false
plain_short s h = ground arith

pub same_name_refl : (k : Name) → same_name k k ≡ true
unfolding same_name
same_name_refl [] = refl
same_name_refl (c ∷ k) = ground (arith, same_name_refl k)

-- Names with dots between them
abbrev pub join : Name → List Name → Name
join s [] = s
join s (t ∷ ss) = s ++ b'.' ∷ join t ss

-- The first of the siblings that has the name; those called `{i}` are passed over, and none is found
-- behind a node without a name.
abbrev pub pick : Name → Node → Option Node
pick s null = none
pick s (node none i c n) = none
pick s (node (some m) i c n) =
    let rest = pick s n in
    if same_name m index_name
    then rest
    else if same_name m s
    then some (node (some m) i c n)
    else rest

abbrev pub below : (Node → Option Node) → Option Node → Option Node
below f none = none
below f (some m) = f (child m)

-- The node that a list of names leads to, each a child of the one before
abbrev pub locate : Name → List Name → Node → Option Node
locate s [] n = pick s n
locate s (t ∷ ss) n = below (locate t ss) (pick s n)

get_parameter_nodename-last : (s : Name) → HasNoDot s → get_parameter_nodename s ≡ (s, [])
unfolding get_parameter_nodename
get_parameter_nodename-last [] h = refl
get_parameter_nodename-last (c ∷ s) h = rw (h.0, get_parameter_nodename-last s h.1) refl

get_parameter_nodename-dot :
    (s p : Name) → HasNoDot s → get_parameter_nodename (s ++ b'.' ∷ p) ≡ (s, p)
unfolding get_parameter_nodename
get_parameter_nodename-dot [] p h = refl
get_parameter_nodename-dot (c ∷ s) p h = rw (h.0, get_parameter_nodename-dot s p h.1) refl

pub scan-pick :
    (s : Name) (last : Bool) (n m : Node) → pick s n ≡ some m → scan s last n ≡ at_node m
unfolding scan
scan-pick s last null m h = cc
scan-pick s last (node none i c n) m h = cc
scan-pick s last (node (some k) i c null) m h = ground arith
scan-pick s last (node (some k) i c (node k' i' c' n)) m h =
    ground (arith, scan-pick s last (node k' i' c' n) m)

module _ (up n m : Node) (s : Name) (picked : pick s n ≡ some m)
    (short : leb name_size (length s) ≡ false) where
  path_loop-stop :
      (fuel c : ℕ) (p rest : Name)
      → get_parameter_nodename (c ∷ p) ≡ (s, rest)
      → (is_end rest || is_null (child m)) ≡ true
      → path_loop (suc fuel) up n (c ∷ p) ≡ found m
  unfolding path_loop
  path_loop-stop fuel c p rest e stop =
      rw (path_loop, e, short, e, scan-pick s (is_end rest) n m picked, e, stop) refl

  path_loop-go :
      (fuel c : ℕ) (p rest : Name)
      → get_parameter_nodename (c ∷ p) ≡ (s, rest)
      → (is_end rest || is_null (child m)) ≡ false
      → path_loop (suc fuel) up n (c ∷ p) ≡ path_loop fuel m (child m) rest
  unfolding path_loop
  path_loop-go fuel c p rest e go =
      rw (path_loop, e, short, e, scan-pick s (is_end rest) n m picked, e, go)
        (ap (λ (r : Name × Name). path_loop fuel m (child m) r.1) e)

locate-null : (s : Name) (ss : List Name) → locate s ss null ≡ none
locate-null s [] = refl
locate-null s (t ∷ ss) = refl

pub locate-child :
    (s : Name) (ss : List Name) (n m : Node) → locate s ss n ≡ some m → is_null n ≡ false
locate-child s ss null m h = let z = locate-null s ss in cc
locate-child s ss (node k i c n) m h = refl

-- A path may end with a dot.
abbrev pub IsEnding : Name → Type 0
IsEnding e = (e ≡ []) ⊎ (e ≡ b'.' ∷ [])

-- Names with dots between them and an ending
abbrev pub join_to : Name → Name → List Name → Name
join_to e s [] = s ++ e
join_to e s (t ∷ ss) = s ++ b'.' ∷ join_to e t ss

join_to-nil : (s : Name) (ss : List Name) → join_to [] s ss ≡ join s ss
join_to-nil s [] = append-nil s
join_to-nil s (t ∷ ss) = ap (λ p. s ++ b'.' ∷ p) (join_to-nil t ss)

pub get_parameter_nodename-ending :
    (e s : Name) → IsEnding e → HasNoDot s → get_parameter_nodename (s ++ e) ≡ (s, [])
get_parameter_nodename-ending e s (inl h) d = rw (h, append-nil s) (get_parameter_nodename-last s d)
get_parameter_nodename-ending e s (inr h) d = rw h (get_parameter_nodename-dot s [] d)

pub join_to-cons :
    (e s t : Name) (ss : List Name)
    → IsPlain s
    → (c : ℕ) × (p : Name) × (join_to e s (t ∷ ss) ≡ c ∷ p)
      × (get_parameter_nodename (c ∷ p) ≡ (s, join_to e t ss))
join_to-cons e [] t ss h = absurd (omega arith)
join_to-cons e (c ∷ s) t ss h =
    (c, s ++ b'.' ∷ join_to e t ss, refl, get_parameter_nodename-dot (c ∷ s) (join_to e t ss) h.1)

pub join_to-is_end : (e s : Name) (ss : List Name) → IsPlain s → is_end (join_to e s ss) ≡ false
join_to-is_end e [] ss h = absurd (omega arith)
join_to-is_end e (c ∷ s) [] h = refl
join_to-is_end e (c ∷ s) (t ∷ ss) h = refl

pub join_to-length :
    (e s t : Name) (ss : List Name)
    → length (join_to e s (t ∷ ss)) ≡ length s + (length (join_to e t ss) + 1)
join_to-length e s t ss = rw (length-append s (b'.' ∷ join_to e t ss)) (omega arith)

pub located_none :
    (t : Name) (ss : List Name) (o : Option Node) (m : Node)
    → o ≡ none
    → below (locate t ss) o ≡ some m
    → ⊥
located_none t ss none m e q = cc
located_none t ss (some k) m e q = cc

or_true : (b : Bool) → (b || true) ≡ true
or_true true = refl
or_true false = refl

-- A last name
found_last :
    (fuel : ℕ) (up n m : Node) (e s : Name)
    → IsEnding e
    → IsPlain s
    → pick s n ≡ some m
    → length (s ++ e) ≤ fuel
    → path_loop fuel up n (s ++ e) ≡ found m
found_last zero up n m e [] x h k l = absurd (omega arith)
found_last zero up n m e (c ∷ s) x h k l = absurd (omega arith)
found_last (suc fuel) up n m e [] x h k l = absurd (omega arith)
found_last (suc fuel) up n m e (c ∷ s) x h k l =
    path_loop-stop up n m (c ∷ s) k (plain_short (c ∷ s) h) fuel c (s ++ e) []
      (get_parameter_nodename-ending e (c ∷ s) x h.1) refl

-- A name with others behind it
found_next :
    (fuel : ℕ) (up n m : Node) (e s t : Name) (ss : List Name)
    → IsPlain s
    → IsPlain t
    → pick s n ≡ some m
    → is_null (child m) ≡ false
    → path_loop (suc fuel) up n (join_to e s (t ∷ ss)) ≡ path_loop fuel m (child m) (join_to e t ss)
found_next fuel up n m e s t ss h k q g =
    let (c, p, same, d) = join_to-cons e s t ss h in
    rw same (
      path_loop-go up n m s q (plain_short s h) fuel c p (join_to e t ss) d
        (rw (join_to-is_end e t ss k, g) refl))

-- The search along a path that may end with a dot
pub path_loop-join_to :
    (fuel : ℕ) (up n m : Node) (e s : Name) (ss : List Name)
    → IsEnding e
    → ArePlain (s ∷ ss)
    → locate s ss n ≡ some m
    → length (join_to e s ss) ≤ fuel
    → path_loop fuel up n (join_to e s ss) ≡ found m
path_loop-join_to fuel up n m e s [] x h q l = found_last fuel up n m e s x h.0 q l
path_loop-join_to zero up n m e s (t ∷ ss) x h q l =
    let k = join_to-length e s t ss in absurd (omega arith)
path_loop-join_to (suc fuel) up n m e s (t ∷ ss) x h q l =
    let k = join_to-length e s t ss in
    elim (Option-cases (pick s n)) [
      | inl missing ↦ absurd (located_none t ss (pick s n) m missing q)
      | inr (m', picked) ↦
          let q' : locate t ss (child m') ≡ some m = sym (ap (below (locate t ss)) picked) ∙ q in
          found_next fuel up n m' e s t ss h.0 h.1.0 picked (locate-child t ss (child m') m q')
          ∙ path_loop-join_to fuel m' (child m') m e t ss x h.1 q' (omega (arith, k))
    ]

-- Where names of 1 to 255 characters without a dot lead to a node from the siblings `n`, each to the
-- first child of that name, `cwmp_get_parameter_path_node` finds this node by the names with dots
-- between them; one round of its loop per character of the path is enough.
pub path_loop-locate :
    (fuel : ℕ) (up n m : Node) (s : Name) (ss : List Name)
    → ArePlain (s ∷ ss)
    → locate s ss n ≡ some m
    → length (join s ss) ≤ fuel
    → path_loop fuel up n (join s ss) ≡ found m
path_loop-locate fuel up n m s ss h q l =
    let e = join_to-nil s ss in
    ap (path_loop fuel up n) (sym e) ∙ path_loop-join_to fuel up n m [] s ss (inl refl) h q (rw e l)

get_parameter_nodename-length : (p : Name) → length ((get_parameter_nodename p).1) ≤ length p
unfolding get_parameter_nodename
get_parameter_nodename-length [] = omega arith
get_parameter_nodename-length (c ∷ p) = ground (arith, get_parameter_nodename-length p)

get_parameter_nodename-shorter :
    (c : ℕ) (p : Name) → length ((get_parameter_nodename (c ∷ p)).1) ≤ length p
unfolding get_parameter_nodename
get_parameter_nodename-shorter c p = ground (arith, get_parameter_nodename-length p)

-- No part of the path between two dots is longer than 255 characters, and the first not than `room`.
unfoldable pub parts_fit : ℕ → Name → Bool
parts_fit room [] = true
parts_fit room (c ∷ p) =
    let next = parts_fit (name_size - 1) p in
    let on = parts_fit (room - 1) p in if c == b'.' then next else if room == 0 then false else on

parts_fit-nodename :
    (room : ℕ) (p : Name)
    → parts_fit room p ≡ true
    → (length (get_parameter_nodename p).0 ≤ room)
      × (parts_fit (name_size - 1) (get_parameter_nodename p).1 ≡ true)
unfolding parts_fit get_parameter_nodename
parts_fit-nodename room [] h = (omega arith, refl)
parts_fit-nodename room (c ∷ p) h = ground (arith, parts_fit-nodename (room - 1) p)

-- With a node, or with a part that does not fit if there is one
abbrev pub Ends : Name → Lookup → Type 0
Ends p r = ((m : Node) × (r ≡ found m)) ⊎ ((parts_fit 255 p ≡ false) × (r ≡ too_long))

no_fit : (p : Name) → (parts_fit 255 p ≡ true → ⊥) → parts_fit 255 p ≡ false
no_fit p h = elim (Bool-cases (parts_fit 255 p)) [ inl fit ↦ absurd (h fit) | inr unfit ↦ unfit ]

Ends-behind : (p : Name) (r : Lookup) → Ends ((get_parameter_nodename p).1) r → Ends p r
Ends-behind p r (inl e) = inl e
Ends-behind p r (inr (unfit, e)) =
    inr (no_fit p (λ h. let behind = (parts_fit-nodename 255 p h).1 in cc), e)

module _ (fuel : ℕ) (p rest : Name) (same : (get_parameter_nodename p).1 ≡ rest)
    (ends : (m : Node) → Ends rest (path_loop fuel m (child m) rest)) where
  at_node-Ends :
      (m : Node) (stop : Bool)
      → Ends rest (elim stop [ true ↦ found m | false ↦ path_loop fuel m (child m) rest ])
  at_node-Ends m true = inl (m, refl)
  at_node-Ends m false = ends m

  scan-Ends :
      (up n : Node) (r : Scan)
      → Ends rest (elim r [
        | at_null ↦ found null
        | at_parent ↦ found (last_parent up n)
        | at_node m ↦ elim (is_end rest || is_null (child m)) [
          | true ↦ found m
          | false ↦ path_loop fuel m (child m) rest
        ]
      ])
  scan-Ends up n at_null = inl (null, refl)
  scan-Ends up n at_parent = inl (last_parent up n, refl)
  scan-Ends up n (at_node m) = at_node-Ends m (is_end rest || is_null (child m))

  part-Ends :
      (up n : Node) (r : Scan) (long : Bool)
      → leb name_size (length (get_parameter_nodename p).0) ≡ long
      → Ends p (elim long [
        | true ↦ too_long
        | false ↦ elim r [
          | at_null ↦ found null
          | at_parent ↦ found (last_parent up n)
          | at_node m ↦ elim (is_end rest || is_null (child m)) [
            | true ↦ found m
            | false ↦ path_loop fuel m (child m) rest
          ]
        ]
      ])
  part-Ends up n r true h =
      inr (no_fit p (λ f. let short = (parts_fit-nodename 255 p f).0 in ground arith), refl)
  part-Ends up n r false h =
      Ends-behind p
        (elim r as (λ s. Lookup) [
          | at_null ↦ found null
          | at_parent ↦ found (last_parent up n)
          | at_node m ↦ elim (is_end rest || is_null (child m)) as (λ b. Lookup) [
            | true ↦ found m
            | false ↦ path_loop fuel m (child m) rest
          ]
        ])
        (subst
          (λ z. Ends z (elim r as (λ s. Lookup) [
            | at_null ↦ found null
            | at_parent ↦ found (last_parent up n)
            | at_node m ↦ elim (is_end rest || is_null (child m)) as (λ b. Lookup) [
              | true ↦ found m
              | false ↦ path_loop fuel m (child m) rest
            ]
          ]))
          (sym same) (scan-Ends up n r))

-- With a round of its loop for every character of the path, `cwmp_get_parameter_path_node` comes to a
-- node, or to a part of the path that does not fit.
pub path_loop-Ends :
    (fuel : ℕ) (up n : Node) (p : Name) → length p ≤ fuel → Ends p (path_loop fuel up n p)
unfolding path_loop
path_loop-Ends fuel up n [] h = inl (n, refl)
path_loop-Ends zero up n (c ∷ p) h = absurd (omega arith)
path_loop-Ends (suc fuel) up n (c ∷ p) h =
    part-Ends fuel (c ∷ p) ((get_parameter_nodename (c ∷ p)).1) refl
      (λ m.
        path_loop-Ends fuel m (child m) ((get_parameter_nodename (c ∷ p)).1)
          (omega (arith, get_parameter_nodename-shorter c p)))
      up n (scan (get_parameter_nodename (c ∷ p)).0 (is_end (get_parameter_nodename (c ∷ p)).1) n)
      (leb name_size (length (get_parameter_nodename (c ∷ p)).0)) refl

-- With a round of its loop for every character of the path, `cwmp_get_parameter_path_node` ends, whatever
-- the tree is, for a path without a part of 256 or more characters.
pub path_loop-ends :
    (fuel : ℕ) (up n : Node) (p : Name)
    → parts_fit 255 p ≡ true
    → length p ≤ fuel
    → (m : Node) × (path_loop fuel up n p ≡ found m)
path_loop-ends fuel up n p f h = elim (path_loop-Ends fuel up n p h) [
  | inl e ↦ e
  | inr (unfit, e) ↦ absurd (both f unfit)
]
  where
    both : {b : Bool} → b ≡ true → b ≡ false → ⊥
    both x y = cc

-- ===== src/Objects/Parent.antt =====
-- The calls of AddObject and DeleteObject for a node that plain names lead to,
-- `cwmp_parse_addobject_message` and `cwmp_parse_deleteobject_message` of
-- netcwmp_xo/libcwmp/src/cwmp.c.
use netcwmp_xo.Base.{
  ℕ, ◌≤◌, ◌<◌, ◌^◌, leb, ◌≡◌, refl, ap, ◌∙◌, inr, true, false, Option, none, some, List, [], ◌∷◌,
  ◌++◌, ◌==◌, length, arith,
}
use netcwmp_xo.Param.{
  Name, Info, type_object, Node, null, node, same_name, index_name, found, get_parameter_path_node,
}
use netcwmp_xo.Param.Path.{ArePlain, IsEnding, join_to, locate, locate-child, path_loop-join_to}
use netcwmp_xo.Names.{ends_with_dot}
use netcwmp_xo.Objects.{
  Objects, fault, deleted_by, is_digit, number_from, del_of, del_guarded, del_named, del_at,
  del_found, delete_object, added_by, add_below, add_at, add_found, add_object,
}

ends-behind : (s x : Name) → ends_with_dot x ≡ some true → ends_with_dot (s ++ x) ≡ some true
unfolding ends_with_dot
ends-behind [] x h = h
ends-behind (a ∷ []) [] h = cc
ends-behind (a ∷ []) (c ∷ x) h = h
ends-behind (a ∷ b ∷ s) x h = ends-behind (b ∷ s) x h

abbrev pub dot : Name
dot = b'.' ∷ []

joined-dot : (s : Name) (ss : List Name) → ends_with_dot (join_to dot s ss) ≡ some true
unfolding ends_with_dot
joined-dot s [] = ends-behind s dot refl
joined-dot s (t ∷ ss) =
    ends-behind s (b'.' ∷ join_to dot t ss) (ends-behind dot (join_to dot t ss) (joined-dot t ss))

search-located :
    (fuel : ℕ) (up n m : Node) (e s : Name) (ss : List Name)
    → IsEnding e
    → ArePlain (s ∷ ss)
    → locate s ss n ≡ some m
    → length (join_to e s ss) ≤ fuel
    → get_parameter_path_node fuel up n (some (join_to e s ss)) ≡ found m
unfolding get_parameter_path_node
search-located fuel up null m e s ss x h q l = absurd (no_tree (locate-child s ss null m q))
  where
    no_tree : true ≡ false → ⊥
    no_tree e = cc
search-located fuel up (node k i c r) m e s ss x h q l =
    path_loop-join_to fuel up (node k i c r) m e s ss x h q l

module _ {S : Type 0} (d : Objects S) (stack : ℕ) (st : S) where
  -- For a writable object that plain names lead to, with a first child `{i}`, AddObject calls its add
  -- function, and answers with the instance number and the status that `status` holds, if the function
  -- returns no fault, and with 9005 otherwise.
  add_object-calls :
      (fuel : ℕ) (e s : Name) (ss : List Name) (name : Option Name) (i j : Info) (c q r : Node)
      (f : ℕ)
      → IsEnding e
      → ArePlain (s ∷ ss)
      → locate s ss (d.root st) ≡ some (node name i (node (some index_name) j c q) r)
      → length (join_to e s ss) ≤ fuel
      → (i.type == type_object) ≡ true
      → (i.rw_flag == 1) ≡ true
      → i.add ≡ some f
      → add_object d stack fuel (some (join_to e s ss)) st
        ≡ added_by d stack (d.call_add f (node name i (node (some index_name) j c q) r) st)
  unfolding add_object add_at add_below same_name
  add_object-calls fuel e s ss name i j c q r f x h l k t w a =
      ap (λ y. add_found d stack y st)
        (search-located fuel (d.top st) (d.root st) (node name i (node (some index_name) j c q) r) e
          s ss x h l k)
      ∙ rw (t, w, a) refl

  delete_object-located :
      (fuel : ℕ) (s : Name) (ss : List Name) (k : Name) (i : Info) (c r : Node)
      → ArePlain (s ∷ ss)
      → locate s ss (d.root st) ≡ some (node (some k) i c r)
      → length (join_to dot s ss) ≤ fuel
      → (i.type == type_object) ≡ true
      → is_digit k ≡ true
      → delete_object d stack fuel (some (join_to dot s ss)) st
        ≡ del_guarded d stack
            (del_of (d.parent (join_to dot s ss) st))
            (i.del)
            (node (some k) i c r)
            k
            st
  unfolding delete_object del_at del_named
  delete_object-located fuel s ss k i c r h l n t digits =
      ap (λ y. del_found d stack (join_to dot s ss) (d.parent (join_to dot s ss) st) y st)
        (search-located fuel (d.top st) (d.root st) (node (some k) i c r) dot s ss (inr refl) h l n)
      ∙ rw (t, joined-dot s ss, digits) refl

  -- For an object with a number below 2^31 for its name that plain names lead to, DeleteObject of these
  -- names, with a dot behind them, calls its del function with the number if it and the node that its
  -- `parent` points to have one.
  pub delete_object-calls :
      (fuel : ℕ) (s : Name) (ss : List Name) (k : Name) (i : Info) (c r : Node) (g f : ℕ)
      → ArePlain (s ∷ ss)
      → locate s ss (d.root st) ≡ some (node (some k) i c r)
      → length (join_to dot s ss) ≤ fuel
      → (i.type == type_object) ≡ true
      → is_digit k ≡ true
      → del_of (d.parent (join_to dot s ss) st) ≡ some (some g)
      → i.del ≡ some f
      → number_from 0 k < 2 ^ 31
      → delete_object d stack fuel (some (join_to dot s ss)) st
        ≡ deleted_by d stack (d.call_del f (node (some k) i c r) (number_from 0 k) st)
  unfolding del_guarded
  delete_object-calls fuel s ss k i c r g f h l n t digits p o small =
      let fits : leb (2 ^ 31) (number_from 0 k) ≡ false = ground arith in
      delete_object-located fuel s ss k i c r h l n t digits ∙ rw (p, o, fits) refl

  -- When such an object has no del function but its parent has one, DeleteObject calls NULL.
  delete_object-unguarded :
      (fuel : ℕ) (s : Name) (ss : List Name) (k : Name) (i : Info) (c r : Node) (g : ℕ)
      → ArePlain (s ∷ ss)
      → locate s ss (d.root st) ≡ some (node (some k) i c r)
      → length (join_to dot s ss) ≤ fuel
      → (i.type == type_object) ≡ true
      → is_digit k ≡ true
      → del_of (d.parent (join_to dot s ss) st) ≡ some (some g)
      → i.del ≡ none
      → delete_object d stack fuel (some (join_to dot s ss)) st ≡ fault
  unfolding del_guarded
  delete_object-unguarded fuel s ss k i c r g h l n t digits p o =
      delete_object-located fuel s ss k i c r h l n t digits ∙ rw (p, o) refl

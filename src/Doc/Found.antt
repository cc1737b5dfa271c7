-- ===== src/Doc/Found.antt =====
-- What the readers find in the messages that are built.
use netcwmp_xo.Base.{◌≡◌, refl, ap, ◌∙◌, true, false, Option, none, some, List, [], ◌∷◌, arith}
use netcwmp_xo.Param.{Name}
use netcwmp_xo.Header.{same_header}
use netcwmp_xo.Doc.{
  Xml, no_node, element, Ns, sibling_with_name, node_name, first_child, get_header_node,
  get_body_node, get_rpc_method_node, get_rpc_method_name, wrapped,
}
use netcwmp_xo.Doc.Read.{Header}
use netcwmp_xo.Doc.Build.{
  append_child, branch, create_header_node, create_body_node, create_envelope_node, header_part,
  message,
}

pub same_header_self : (s : Name) → same_header s s ≡ true
unfolding same_header
same_header_self [] = refl
same_header_self (c ∷ s) = let rest = same_header_self s in ground arith

-- The first sibling has the name, or it has not.
pub sibling_with_name-hit :
    (s n : Name) (v : Option Name) (a : List (Name × Name)) (c m : Xml)
    → same_header n s ≡ true
    → sibling_with_name s (element n v a c m) ≡ element n v a c m
unfolding sibling_with_name
sibling_with_name-hit s n v a c m h = rw h refl

pub sibling_with_name-miss :
    (s n : Name) (v : Option Name) (a : List (Name × Name)) (c m : Xml)
    → same_header n s ≡ false
    → sibling_with_name s (element n v a c m) ≡ sibling_with_name s m
unfolding sibling_with_name
sibling_with_name-miss s n v a c m h = rw h refl

-- The names of the header and of the body differ.
abbrev pub IsDistinct : Ns → Type 0
IsDistinct ns = same_header (ns.header) (ns.body) ≡ false

module _ (ns : Ns) where
  pub first_child-message :
      (h : Option Header) (child : Xml)
      → first_child (message ns h child)
        ≡ append_child (header_part ns h) (create_body_node ns child)
  unfolding message create_envelope_node
  first_child-message h child = refl

  pub get_body_node-message :
      (h : Option Header) (child : Xml)
      → IsDistinct ns
      → get_body_node ns (wrapped (message ns h child)) ≡ create_body_node ns child
  unfolding message create_envelope_node append_child create_body_node create_header_node
  get_body_node-message none child d =
      sibling_with_name-hit ns.body ns.body none [] child no_node (same_header_self ns.body)
  get_body_node-message (some h) child d =
      sibling_with_name-miss ns.body ns.header none [] _ _ d
      ∙ sibling_with_name-hit ns.body ns.body none [] child no_node (same_header_self ns.body)

  pub get_header_node-message :
      (h : Header) (child : Xml)
      → get_header_node ns (wrapped (message ns (some h) child))
        ≡ append_child (create_header_node ns h) (create_body_node ns child)
  unfolding message create_envelope_node append_child create_body_node create_header_node
  get_header_node-message h child =
      sibling_with_name-hit ns.header ns.header none [] _ _ (same_header_self ns.header)

  pub get_rpc_method_node-message :
      (h : Option Header) (child : Xml)
      → IsDistinct ns
      → get_rpc_method_node ns (wrapped (message ns h child)) ≡ child
  unfolding create_body_node
  get_rpc_method_node-message h child d = ap first_child (get_body_node-message h child d)

  -- In a message, read as the agent reads those of the server, whose body starts with an element, the method is the name of that element, with or
  -- without a header, as long as the names of the header and of the body differ.
  pub get_rpc_method_name-message :
      (h : Option Header) (name : Name) (child : Xml)
      → IsDistinct ns
      → get_rpc_method_name ns (wrapped (message ns h (branch name child))) ≡ some name
  unfolding get_rpc_method_name
  get_rpc_method_name-message h name child d =
      ap node_name (get_rpc_method_node-message h (branch name child) d)

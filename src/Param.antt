-- ===== src/Param.antt =====
-- The tree of parameters: `cwmp_get_parameter_nodename` and `cwmp_get_parameter_path_node` of
-- netcwmp_xo/libcwmp/src/cwmp.c, over trees that are linked as
-- netcwmp_xo/libcwmp/src/model.c links them.
pub mod Path
pub mod Tests
use netcwmp_xo.Base.{
  ℕ, zero, suc, leb, length, Bool, true, false, ◌&&◌, ◌||◌, Option, none, some, List, [], ◌∷◌, ◌==◌,
  if◌then◌else◌,
}

-- The characters of a C string, without the terminating NUL.
abbrev pub Name : Type 0
Name = List ℕ

-- The members of `parameter_node_t` that say what a parameter is; `ininame` is its name in the
-- configuration. A pointer to a function is a number, with `none` for NULL.
pub record Info : Type 0 where
  pub rw_flag : ℕ
  pub type : ℕ
  pub value : Option Name
  pub ininame : Option Name
  pub get : Option ℕ
  pub set : Option ℕ
  pub notify : Option ℕ
  pub add : Option ℕ
  pub del : Option ℕ
  pub refresh : Option ℕ

-- `TYPE_OBJECT`
abbrev pub type_object : ℕ
type_object = 0

-- What `pool_pcalloc` leaves
abbrev pub zeroed_info : Info
zeroed_info = record {
  rw_flag = 0;
  type = 0;
  value = none;
  ininame = none;
  get = none;
  set = none;
  notify = none;
  add = none;
  del = none;
  refresh = none;
}

-- A `parameter_node_t *`: NULL, or a node with its name, its `child` and its `next_sibling`
pub data Node : Type 0 where
  null : Node
  node : Option Name → Info → Node → Node → Node

-- `TRstrcmp(a, b) == 0`
unfoldable pub same_name : Name → Name → Bool
same_name [] [] = true
same_name [] (d ∷ b) = false
same_name (c ∷ a) [] = false
same_name (c ∷ a) (d ∷ b) = c == d && same_name a b

-- `"{i}"`
abbrev pub index_name : Name
index_name = b'{' ∷ b'i' ∷ b'}' ∷ []

abbrev pub consed : ℕ → Name × Name → Name × Name
consed c (name, rest) = (c ∷ name, rest)

-- `cwmp_get_parameter_nodename`: what it copies, and what it returns
unfoldable pub get_parameter_nodename : Name → Name × Name
get_parameter_nodename [] = ([], [])
get_parameter_nodename (c ∷ p) =
    let below = get_parameter_nodename p in if c == b'.' then ([], p) else consed c below

abbrev pub is_end : Name → Bool
is_end [] = true
is_end (c ∷ p) = false

abbrev pub is_null : Node → Bool
is_null null = true
is_null (node name i c s) = false

abbrev pub child : Node → Node
child null = null
child (node name i c s) = c

-- The `parent` of the last node of a chain of siblings below `up`, as `cwmp_model_create_parameter` and
-- `cwmp_model_create_child_parameter` link it: of the first node it is the object, and of every other
-- node it is the first one.
abbrev pub last_parent : Node → Node → Node
last_parent up null = up
last_parent up (node name i c null) = up
last_parent up (node name i c (node k j b s)) = node name i c (node k j b s)

-- How the loop over the siblings ends: with a node, by `return NULL` or because there is none, or
-- by the return of the parent.
pub data Scan : Type 0 where
  at_node : Node → Scan
  at_null : Scan
  at_parent : Scan

-- The loop over the siblings for one name; `last` says that the path ends behind the name.
unfoldable pub scan : Name → Bool → Node → Scan
unfolding same_name
scan name last null = at_null
scan name last (node none i c s) = at_node (node none i c s)
scan name last (node (some m) i c s) =
    let rest = scan name last s in
    if same_name m index_name
    then rest
    else if same_name m name
    then at_node (node (some m) i c s)
    else if is_null s
    then (if last then at_parent else at_null)
    else rest

-- How a search ends: with a node, with a part of the path that does not fit its buffer, or at the end of
-- the fuel.
pub data Lookup : Type 0 where
  found : Node → Lookup
  too_long : Lookup
  out_of_fuel : Lookup

-- `sizeof(name)`
abbrev pub name_size : ℕ
name_size = 256

-- The loop of `cwmp_get_parameter_path_node` over the path, from the siblings `n` below `up`
unfoldable pub path_loop : ℕ → Node → Node → Name → Lookup
path_loop fuel up n [] = found n
path_loop zero up n (c ∷ p) = out_of_fuel
path_loop (suc fuel) up n (c ∷ p) =
    elim (leb name_size (length (get_parameter_nodename (c ∷ p)).0)) [
      | true ↦ too_long
      | false ↦
          elim (scan (get_parameter_nodename (c ∷ p)).0 (is_end (get_parameter_nodename (c ∷ p)).1)
            n) [
              | at_null ↦ found null
              | at_parent ↦ found (last_parent up n)
              | at_node m ↦ elim (is_end (get_parameter_nodename (c ∷ p)).1 || is_null (child m)) [
                | true ↦ found m
                | false ↦ path_loop fuel m (child m) (get_parameter_nodename (c ∷ p)).1
              ]
            ]
    ]

-- `cwmp_get_parameter_path_node`; `parent` is the first of its siblings, below `up`, and NULL stands for either argument
-- that is NULL.
unfoldable pub get_parameter_path_node : ℕ → Node → Node → Option Name → Lookup
get_parameter_path_node fuel up null path = found null
get_parameter_path_node fuel up (node name i c s) none = found null
get_parameter_path_node fuel up (node name i c s) (some path) =
    path_loop fuel up (node name i c s) path

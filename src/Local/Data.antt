-- ===== src/Local/Data.antt =====
-- Values of the agent that other programs of the device may keep, netcwmp_xo/libcwmp/src/cwmp_data.c
-- and `cwmp_get_parameter_node_value` and `cwmp_set_parameter_node_value` of
-- netcwmp_xo/libcwmp/src/cwmp.c. The pool has memory. `none` is a fault of the program, where it is not
-- said otherwise. A handler that fails leaves the value of its node.
pub mod Near
use netcwmp_xo.Base.{
  ℕ, zero, suc, Bool, true, false, Option, none, some, List, [], ◌∷◌, ◌==◌, if◌then◌else◌, take,
  length, codes,
}
use netcwmp_xo.Base.Int.{ℤ, pos, negsuc}
use netcwmp_xo.Param.{Name, Info, Node}
use netcwmp_xo.Doc.{get_type_string}
use netcwmp_xo.Values.{Device, Reading, Writing, fault_code_ok, get_parameter_node}
use netcwmp_xo.Local.{Json, Commands, com_get_parameter_values}

-- `FAULT_CODE_9000`
abbrev pub fault_code_9000 : ℕ
fault_code_9000 = 9000

-- The table of nodes, the value of a node that is replaced, and the program that
-- is asked for a value over the socket of a node or is told one
pub record Outside (S : Type 0) : Type 0 where
  pub search : S → Name → Option (Info × Node)
  pub keep_value : Node → Name → S → S
  pub ask : Node → Name → Name → S → Option Json
  pub tell : Node → Name → Name → Name → S → S

abbrev pub path_dot : ℕ
path_dot = 46

abbrev pub ends_in_dot : Name → Bool
ends_in_dot [] = false
ends_in_dot (c ∷ []) = c == path_dot
ends_in_dot (c ∷ d ∷ s) = ends_in_dot (d ∷ s)

-- The loop of `cwmp_data_get_parameter_value_ex` and of `cwmp_data_set_parameter_value_ex` over the
-- fronts of the name: the object that is found first
unfoldable pub nearest : (Name → Option (Info × Node)) → Name → ℕ → Option (Info × Node)
nearest found name zero = none
nearest found name (suc r) =
    let shorter = nearest found name r in
    if ends_in_dot (take (suc r) name)
    then elim (found (take (suc r) name)) [ none ↦ shorter | some n ↦ some n ]
    else shorter

-- `sizeof(valuetemp) - 1`, less the zero
abbrev pub value_room : ℕ
value_room = 510

-- The table first, then the tree
abbrev pub or_node : Option (Info × Node) → Option (Info × Node) → Option (Info × Node)
or_node none below = below
or_node (some n) below = some n

module _ {S : Type 0} (d : Device S) (l : Outside S) (cmds : Commands) where
  unfoldable pub search_node : S → Name → Option (Info × Node)
  search_node s name =
      or_node (l.search s name) (get_parameter_node (d.array s) (d.root s) (some name))

  unfoldable pub get_parameter_node_value : Info × Node → Name → S → Reading S
  get_parameter_node_value n name s = elim (n.0.get) [
    | none ↦ record { code = fault_code_9000; value = none; device = s }
    | some g ↦ d.call_get g n.1 (some name) s
  ]

  unfoldable pub set_parameter_node_value : Info × Node → Name → Name → S → Writing S
  set_parameter_node_value n name value s = elim (n.0.set) [
    | none ↦ record { code = 0; device = l.keep_value n.1 value s }
    | some f ↦ d.call_set f n.1 (some name) (some value) s
  ]

  -- What comes of a value that came: it is stored if the call returned 0 and it is not empty.
  abbrev pub stored_at : Option (Info × Node) → Name → Name → S → S
  stored_at none name value s = s
  stored_at (some n) name value s = (set_parameter_node_value n name value s).device

  abbrev pub kept_answer : Name → Option (ℤ × Name) → S → Option S
  kept_answer name none s = none
  kept_answer name (some (pos zero, [])) s = some s
  kept_answer name (some (pos zero, c ∷ value)) s =
      some (stored_at (search_node s name) name (c ∷ value) s)
  kept_answer name (some (pos (suc n), value)) s = some s
  kept_answer name (some (negsuc n, value)) s = some s

  abbrev pub asked_for : Name → Option (Info × Node) → S → Option S
  asked_for name none s = some s
  asked_for name (some n) s =
      kept_answer name
        (com_get_parameter_values cmds (l.ask n.1 name (get_type_string (n.0.type)) s) value_room
          [])
        s

  -- `cwmp_data_get_parameter_value_ex` for a name
  unfoldable pub get_parameter_value_ex : Name → S → Option S
  get_parameter_value_ex name s = asked_for name (nearest (search_node s) name (length name)) s

  abbrev pub value_if : ℕ → Option Name → Option Name → Option Name
  value_if zero read held = read
  value_if (suc code) read held = held

  abbrev pub value_at : Option (Info × Node) → Name → S → Option Name × S
  value_at none name s = (none, s)
  value_at (some n) name s =
      let r = get_parameter_node_value n name s in (value_if r.code r.value (n.0.value), r.device)

  abbrev pub value_then : Name → Option S → Option (Option Name × S)
  value_then name none = none
  value_then name (some s) = some (value_at (search_node s name) name s)

  -- `cwmp_data_get_parameter_value`
  unfoldable pub data_get_parameter_value : Name → S → Option (Option Name × S)
  data_get_parameter_value name s = value_then name (get_parameter_value_ex name s)

  abbrev pub told_at : Name → Name → Option (Info × Node) → S → S
  told_at name value none s = s
  told_at name value (some n) s = l.tell n.1 name (get_type_string (n.0.type)) value s

  -- `cwmp_data_set_parameter_value_ex`
  unfoldable pub set_parameter_value_ex : Name → Name → S → S
  set_parameter_value_ex name value s =
      told_at name value (nearest (search_node s) name (length name)) s

  abbrev pub set_at : Name → Name → Option (Info × Node) → S → Option ℕ × S
  set_at name value none s = (none, s)
  set_at name value (some n) s =
      let w = set_parameter_node_value n name value s in
      (some w.code, set_parameter_value_ex name value w.device)

  -- `cwmp_data_set_parameter_value`; the first is `none` for `CWMP_ERROR` without a node.
  unfoldable pub data_set_parameter_value : Name → Name → S → Option ℕ × S
  data_set_parameter_value name value s = set_at name value (search_node s name) s

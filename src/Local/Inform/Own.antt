-- ===== src/Local/Inform/Own.antt =====
-- What an Inform says of the parameters, netcwmp_xo/libcwmp/src/session.c.
use netcwmp_xo.Base.{
  ◌≡◌, refl, sym, ap, ◌∙◌, Option, none, some, List, [], ◌∷◌, ◌++◌, append_assoc, append-nil,
  length,
}
use netcwmp_xo.Base.Int.{ℤ, pos, negsuc}
use netcwmp_xo.Param.{Name, Info, Node}
use netcwmp_xo.Doc.{get_type_string}
use netcwmp_xo.Values.{Device, Parameter}
use netcwmp_xo.Local.{Commands, com_get_parameter_values}
use netcwmp_xo.Local.Data.{
  Outside, nearest, search_node, kept_answer, asked_for, value_room, value_at, value_then,
  get_parameter_value_ex, data_get_parameter_value,
}
use netcwmp_xo.Local.Data.Near.{Fails, com_get_parameter_values-Fails}
use netcwmp_xo.Local.Inform.{
  data_append_parameter_name, inform_names, inform_parameter, add_parameters,
  create_inform_parameters,
}

module _ {S : Type 0} (d : Device S) (l : Outside S) (cmds : Commands) where
  -- The programs that are asked give answers that can be read.
  abbrev pub IsUnderstood : Type 0
  IsUnderstood =
      (n : Node) (name type : Name) (s : S)
      → (v : ℤ × Name) × (com_get_parameter_values cmds (l.ask n name type s) value_room []
          ≡ some v)

  kept_answer-none :
      (name : Name) (r : Option (ℤ × Name)) (v : ℤ × Name) (s : S)
      → Fails r
      → r ≡ some v
      → kept_answer d l cmds name r s ≡ some s
  kept_answer-none name none v s f e = cc
  kept_answer-none name (some (pos n, w)) v s f e = cc
  kept_answer-none name (some (negsuc n, w)) v s f e = refl

  asked_for-none :
      (name : Name) (n : Option (Info × Node)) (s : S)
      → IsUnderstood
      → asked_for d l cmds name n s ≡ some s
  asked_for-none name none s read = refl
  asked_for-none name (some n) s read =
      let type = get_type_string (n.0.type) in
      let answer = l.ask n.1 name type s in
      let (v, e) = read (n.1) name type s in
      kept_answer-none name (com_get_parameter_values cmds answer value_room []) v s
        (com_get_parameter_values-Fails cmds answer value_room) e

  -- The values that the agent has itself, one after the other
  unfoldable pub own_values : List (List Name) → S → List Parameter × S
  own_values [] s = ([], s)
  own_values (parts ∷ more) s =
      let name = data_append_parameter_name parts in
      let v = value_at d l cmds (search_node d l cmds s name) name s in
      let rest = own_values more v.1 in (inform_parameter name v.0 ∷ rest.0, rest.1)

  get-own :
      (name : Name) (s : S)
      → IsUnderstood
      → data_get_parameter_value d l cmds name s
        ≡ some (value_at d l cmds (search_node d l cmds s name) name s)
  unfolding data_get_parameter_value get_parameter_value_ex
  get-own name s read =
      ap (value_then d l cmds name)
        (asked_for-none name (nearest (search_node d l cmds s) name (length name)) s read)

  add_parameters-own :
      (names : List (List Name)) (pl : List Parameter) (s : S)
      → IsUnderstood
      → add_parameters d l cmds names pl s
        ≡ some (pl ++ (own_values names s).0, (own_values names s).1)
  unfolding add_parameters own_values
  add_parameters-own [] pl s read = ap (λ ps. some (ps, s)) (sym (append-nil pl))
  add_parameters-own (parts ∷ more) pl s read =
      let name = data_append_parameter_name parts in
      let v = value_at d l cmds (search_node d l cmds s name) name s in
      let p = inform_parameter name v.0 in
      rw (add_parameters, get-own name s read)
        (add_parameters-own more (pl ++ p ∷ []) v.1 read
          ∙ ap (λ ps. some (ps, (own_values more v.1).1))
              (append_assoc pl (p ∷ []) (own_values more v.1).0))

  -- Where the programs that are asked give answers that can be read, an Inform has the parameters of
  -- its list in their order, each with the value that the agent has itself, whatever was answered.
  pub create_inform_parameters-own :
      (s : S)
      → IsUnderstood
      → create_inform_parameters d l cmds s ≡ some (own_values inform_names s)
  unfolding create_inform_parameters
  create_inform_parameters-own s read = add_parameters-own inform_names [] s read

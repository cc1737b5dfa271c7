-- ===== src/Objects/Kinds.antt =====
-- Which replies the handlers of AddObject and DeleteObject give.
use netcwmp_xo.Base.{
  ℕ, Bool, true, false, not, ◌||◌, Option, none, some, ◌==◌, if◌then◌else◌, ◌^◌, leb,
}
use netcwmp_xo.Param.{
  Name, Info, type_object, Node, null, node, same_name, index_name, Lookup, found, too_long,
  out_of_fuel, get_parameter_path_node,
}
use netcwmp_xo.Names.{ends_with_dot}
use netcwmp_xo.Values.{Writing, fault_code_ok}
use netcwmp_xo.Objects.{
  Objects, Adding, added, deleted, Outcome, replied, added_by, add_with, add_below, add_at,
  add_found, add_object, deleted_by, del_guarded, del_named, del_dotted, del_at, del_found,
  delete_object, is_digit, del_of, number_from,
}

-- An addition is replied to with a number or refused, a deletion with a status or refused.
abbrev pub IsAddition : {S : Type 0} → Outcome S → Type 0
IsAddition (replied (deleted status) s) = ⊥
IsAddition _ = Unit {0}

abbrev pub IsDeletion : {S : Type 0} → Outcome S → Type 0
IsDeletion (replied (added n status) s) = ⊥
IsDeletion _ = Unit {0}

either_way : {A : Type 0} (P : A → Type 0) (b : Bool) (x y : A) → P x → P y → P (if b then x else y)
either_way P true x y p q = p
either_way P false x y p q = q

module _ {S : Type 0} (d : Objects S) (stack : ℕ) where
  added_by-IsAddition : (r : Adding S) → IsAddition (added_by d stack r)
  unfolding added_by
  added_by-IsAddition r = either_way IsAddition (r.code == fault_code_ok) _ _ tt tt

  add_with-IsAddition : (f : Option ℕ) (pn : Node) (s : S) → IsAddition (add_with d stack f pn s)
  add_with-IsAddition none pn s = tt
  add_with-IsAddition (some f) pn s = added_by-IsAddition (d.call_add f pn s)

  add_below-IsAddition :
      (f : Option ℕ) (pn c : Node) (s : S) → IsAddition (add_below d stack f pn c s)
  unfolding add_below
  add_below-IsAddition f pn null s = tt
  add_below-IsAddition f pn (node none i c r) s = tt
  add_below-IsAddition f pn (node (some k) i c r) s =
      either_way IsAddition (same_name k index_name) _ _ (add_with-IsAddition f pn s) tt

  add_found-IsAddition : (l : Lookup) (s : S) → IsAddition (add_found d stack l s)
  unfolding add_at
  add_found-IsAddition (found null) s = tt
  add_found-IsAddition (found (node name i c r)) s =
      either_way IsAddition (not (i.type == type_object) || not (i.rw_flag == 1)) _ _ tt
        (add_below-IsAddition (i.add) (node name i c r) c s)
  add_found-IsAddition too_long s = tt
  add_found-IsAddition out_of_fuel s = tt

  pub add_object-IsAddition :
      (fuel : ℕ) (name : Option Name) (s : S) → IsAddition (add_object d stack fuel name s)
  unfolding add_object
  add_object-IsAddition fuel name s =
      add_found-IsAddition (get_parameter_path_node fuel (d.top s) (d.root s) name) s

  deleted_by-IsDeletion : (r : Writing S) → IsDeletion (deleted_by d stack r)
  unfolding deleted_by
  deleted_by-IsDeletion r = either_way IsDeletion (r.code == fault_code_ok) _ _ tt tt

  del_guarded-IsDeletion :
      (g : Option (Option ℕ)) (f : Option ℕ) (pn : Node) (k : Name) (s : S)
      → IsDeletion (del_guarded d stack g f pn k s)
  unfolding del_guarded
  del_guarded-IsDeletion none f pn k s = tt
  del_guarded-IsDeletion (some none) f pn k s = tt
  del_guarded-IsDeletion (some (some g)) none pn k s = tt
  del_guarded-IsDeletion (some (some g)) (some f) pn k s =
      let number = number_from 0 k in
      either_way IsDeletion (leb (2 ^ 31) number) _ _ tt
        (deleted_by-IsDeletion (d.call_del f pn number s))

  del_dotted-IsDeletion :
      (dot : Option Bool) (parent : Node) (name : Option Name) (i : Info) (pn : Node) (s : S)
      → IsDeletion (del_dotted d stack dot parent name i pn s)
  unfolding del_named
  del_dotted-IsDeletion none parent name i pn s = tt
  del_dotted-IsDeletion (some false) parent name i pn s = tt
  del_dotted-IsDeletion (some true) parent none i pn s = tt
  del_dotted-IsDeletion (some true) parent (some k) i pn s =
      either_way IsDeletion (is_digit k) _ _ (del_guarded-IsDeletion (del_of parent) (i.del) pn k s)
        tt

  del_found-IsDeletion :
      (path : Name) (parent : Node) (l : Lookup) (s : S)
      → IsDeletion (del_found d stack path parent l s)
  unfolding del_at
  del_found-IsDeletion path parent (found null) s = tt
  del_found-IsDeletion path parent (found (node name i c r)) s =
      either_way IsDeletion (i.type == type_object) _ _
        (del_dotted-IsDeletion (ends_with_dot path) parent name i (node name i c r) s) tt
  del_found-IsDeletion path parent too_long s = tt
  del_found-IsDeletion path parent out_of_fuel s = tt

  pub delete_object-IsDeletion :
      (fuel : ℕ) (name : Option Name) (s : S) → IsDeletion (delete_object d stack fuel name s)
  unfolding delete_object
  delete_object-IsDeletion fuel none s = tt
  delete_object-IsDeletion fuel (some path) s =
      del_found-IsDeletion path (d.parent path s)
        (get_parameter_path_node fuel (d.top s) (d.root s) (some path)) s

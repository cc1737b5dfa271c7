-- ===== src/Values/Tests.antt =====
-- A device with one parameter, and the theorems at inputs that meet their hypotheses.
use netcwmp_xo.Base.{
  ℕ, zero, suc, ◌≡◌, refl, Option, none, some, List, [], ◌∷◌, All, arith, ◌==◌, if◌then◌else◌,
}
use netcwmp_xo.Param.{Name, Info, zeroed_info, null, node, same_name}
use netcwmp_xo.Values.{
  Device, Assignment, faults, named_sibling, named_below, get_parameter_node, append, get_values,
  get_parameter_values, set_values, set_parameter_values,
}
use netcwmp_xo.Values.Get.{readings, names_of, IsPrefix, IsReadable, get_parameter_values-IsPrefix}
use netcwmp_xo.Values.Set.{settings, all_ok, reply_for, Among, set_parameter_values-replies}

abbrev v : Name
v = b'V' ∷ []

-- A parameter with the value `1`, which can be set
abbrev volume : Info
volume = record zeroed_info { rw_flag = 1; type = 3; value = some (b'1' ∷ []); set = some 0 }

-- A tree with this parameter below `D`, for an array that holds `array`. The state counts the writes,
-- and the second one is refused.
abbrev device : Name → Device ℕ
device array = record {
  root = λ s. node (some (b'D' ∷ [])) zeroed_info (node (some v) volume null null) null;
  array = λ s. array;
  call_get = λ f n name s. record { code = 0; value = none; device = s };
  call_set = λ f n name value s. record { code = if s == 0 then 0 else 9007; device = suc s };
}

-- Two assignments, of which the second is refused: the fault 9003 for both
second_refused :
    set_parameter_values
      (device v)
      (some (
        record { name = some v; value = none }
        ∷ record { name = none; value = none }
        ∷ record { name = some v; value = some v }
        ∷ []))
      0
    ≡ some (
      faults (some 9003) (
          record { name = some v; value = none; type = 3; fault_code = 0 }
          ∷ record { name = some v; value = some v; type = 3; fault_code = 9007 }
          ∷ []),
      2,
    )
unfolding set_parameter_values set_values get_parameter_node named_below named_sibling same_name
    append
second_refused = refl

-- Any name is answered with the value of the node that the array names.
any_name :
    get_parameter_values (device v) (some (some (b'X' ∷ []) ∷ [])) 0
    ≡ some (
      record { name = some (b'X' ∷ []); value = some (b'1' ∷ []); type = 3; fault_code = 0 } ∷ [],
      0,
    )
unfolding get_parameter_values get_values get_parameter_node named_below named_sibling same_name
    append
any_name = refl

get_parameter_values-IsPrefix_example :
    (get_parameter_values (device v) (some (some v ∷ none ∷ [])) 0
      ≡ some (readings (device v) (some v ∷ none ∷ []) 0))
    × IsPrefix (names_of (readings (device v) (some v ∷ none ∷ []) 0).0) (some v ∷ none ∷ [])
get_parameter_values-IsPrefix_example =
    get_parameter_values-IsPrefix (device v) (some v ∷ none ∷ []) 0 (omega arith)

abbrev repeated : ℕ → List (Option Name)
repeated zero = []
repeated (suc n) = some v ∷ repeated n

repeated-IsReadable : (n : ℕ) → All (IsReadable (device v)) (repeated n)
unfolding get_parameter_node named_below named_sibling same_name
repeated-IsReadable zero = tt
repeated-IsReadable (suc n) =
    (λ s. ((volume, node (some v) volume null null), refl, refl), repeated-IsReadable n)

abbrev assignments : List Assignment
assignments = record { name = some v; value = none } ∷ record { name = some v; value = some v } ∷ []

set_parameter_values-replies_example :
    (set_parameter_values (device v) (some assignments) 0
      ≡ some (
        reply_for
            (all_ok (settings (device v) assignments 0).0)
            (settings (device v) assignments 0).0,
        (settings (device v) assignments 0).1,
      ))
    × Among (settings (device v) assignments 0).0 assignments
set_parameter_values-replies_example =
    set_parameter_values-replies (device v) assignments 0 (omega arith)

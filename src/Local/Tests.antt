-- ===== src/Local/Tests.antt =====
-- Requests of the agent at concrete inputs, and the theorems at inputs that meet their hypotheses.
use netcwmp_xo.Base.{◌≡◌, refl, Option, none, some, [], if◌then◌else◌, codes}
use netcwmp_xo.Base.Int.{pos, negsuc}
use netcwmp_xo.Param.{Name, same_name, Info, Node, null, zeroed_info}
use netcwmp_xo.Values.{Device, get_parameter_node, named_below}
use netcwmp_xo.Local.Data.{
  Outside, nearest, search_node, set_parameter_value_ex, data_set_parameter_value,
  set_parameter_node_value,
}
use netcwmp_xo.Local.Inform.{inform_names, create_inform_parameters}
use netcwmp_xo.Local.Inform.Own.{own_values, create_inform_parameters-own}
use netcwmp_xo.Local.Data.Near.{IsNearest, nearest-IsNearest}
use netcwmp_xo.Header.{same_header}
use netcwmp_xo.Local.{
  Json, no_item, Commands, Store, find_named, command, list_entry, string_item, plain_object,
  get_object_item, set_request, com_get_parameter_values, com_set_parameter_values, set_entries,
  serve, parts_of, received_value, received_status, status_of,
}
use netcwmp_xo.Local.Exchange.{serve-set_request}
use netcwmp_xo.Local.Asked.{listed_names, listed_names-set_entries}

abbrev cmds : Commands
cmds = record {
  get = codes "Get";
  get_response = codes "GetResponse";
  set = codes "Set";
  set_response = codes "SetResponse";
}

-- A device with the one value `A`
abbrev values : Store Name
values = record {
  get_value = λ n s. (if same_name n (codes "A") then some s else none, s);
  set_value = λ n v s. (same_name n (codes "A"), if same_name n (codes "A") then v else s);
}

abbrev two : Json
two =
    list_entry (codes "A") (string_item (codes "value") (codes "7") no_item)
      (list_entry (codes "B") (string_item (codes "value") (codes "8") no_item) no_item)

abbrev set_two : Json
set_two =
    list_entry (codes "A") (string_item (codes "status") (codes "0") no_item)
      (list_entry (codes "B") (string_item (codes "status") (codes "-1") no_item) no_item)

two_set : set_entries cmds values two (codes "5") ≡ (some set_two, codes "7")
unfolding set_entries find_named same_name same_header
two_set = refl

-- Without a value nothing is sent, and what was set before stays set.
missing_set :
    set_entries cmds values
      (list_entry
        (codes "A")
        (string_item (codes "value") (codes "7") no_item)
        (list_entry (codes "B") (string_item (codes "type") (codes "x") no_item) no_item))
      (codes "5")
    ≡ (none, codes "7")
unfolding set_entries find_named same_name same_header
missing_set = refl

-- A document without `cwmp`
nothing_served : serve cmds values (some (plain_object no_item no_item)) (codes "5") ≡ none
unfolding serve parts_of get_object_item find_named
nothing_served = refl

-- The last status counts.
last_status :
    com_set_parameter_values cmds (some (command (codes "SetResponse") set_two)) ≡ some (negsuc 0)
unfolding com_set_parameter_values received_status status_of parts_of get_object_item find_named
    same_name same_header
last_status = refl

listed_names-set_entries_example : listed_names set_two ≡ listed_names two
unfolding set_entries find_named same_name same_header
listed_names-set_entries_example = listed_names-set_entries cmds values two (codes "5") set_two refl

serve-set_request_example :
    (reply : Json) × (serve cmds values
        (some (set_request cmds (codes "A") (codes "string") (codes "7")))
        (codes "5")
      ≡ some (record { sent = some reply; after = codes "7" }))
    × (com_set_parameter_values cmds (some reply) ≡ some (pos 0))
unfolding same_header same_name
serve-set_request_example =
    serve-set_request cmds values (codes "A") (codes "string") (codes "7") (codes "5") refl

-- A parameter with the value `1`, which is read and set by handlers, and an object above it
abbrev volume_info : Info
volume_info = record zeroed_info { type = 3; value = some (codes "1"); get = some 0; set = some 0 }

abbrev device : Device Name
device = record {
  root = λ s. null;
  array = λ s. [];
  call_get = λ f n name s. record { code = 0; value = some s; device = s };
  call_set = λ f n name value s. record { code = 0; device = codes "set" };
}

-- A table with the object `D.` and the parameter `D.V`, and a program that answers with `9`
abbrev table : Name → Option (Info × Node)
table name =
    if same_name name (codes "D.")
    then some (zeroed_info, null)
    else if same_name name (codes "D.V")
    then some (volume_info, null)
    else none

abbrev outside : Outside Name
outside = record {
  search = λ s name. table name;
  keep_value = λ n v s. v;
  ask = λ n name type s. some (
      command (codes "GetResponse")
        (list_entry name (string_item (codes "value") (codes "9") no_item) no_item));
  tell = λ n name type value s. value;
}

told_again :
    data_set_parameter_value device outside cmds (codes "D.V") (codes "7") (codes "5")
    ≡ (some 0, codes "7")
unfolding data_set_parameter_value set_parameter_value_ex set_parameter_node_value search_node
    nearest same_name get_parameter_node named_below
told_again = refl

nearest-IsNearest_example : IsNearest table (codes "D.x.V") 5 (zeroed_info, null)
unfolding nearest same_name
nearest-IsNearest_example = nearest-IsNearest table (codes "D.x.V") 5 (zeroed_info, null) refl

create_inform_parameters-own_example :
    create_inform_parameters device outside cmds (codes "5")
    ≡ some (own_values device outside cmds inform_names (codes "5"))
unfolding com_get_parameter_values parts_of get_object_item find_named received_value same_header
create_inform_parameters-own_example =
    create_inform_parameters-own device outside cmds (codes "5")
      (λ n name type s. ((negsuc 0, codes "9"), refl))

-- ===== src/Local.antt =====
-- The values that the programs of the device ask the agent for and that it asks them for, over local
-- sockets, netcwmp_xo/libcwmp/src/cwmp_com.c. Texts in JSON are what the library reads and prints; the
-- names of the commands are a parameter, since their header is not part of the repository. Memory is
-- had; `none` is a fault of the program, where it is not said otherwise.
pub mod Data
pub mod Inform
pub mod Exchange
pub mod Asked
pub mod Tests
use netcwmp_xo.Base.{
  ℕ, Bool, true, false, Option, none, some, List, [], ◌∷◌, if◌then◌else◌, take, codes,
}
use netcwmp_xo.Base.Int.{ℤ, pos, negsuc}
use netcwmp_xo.Param.{Name, same_name}
use netcwmp_xo.Header.{same_header}

-- A `cJSON *`: NULL, or an item with its `string`, its `valuestring`, its first child and the next item
pub data Json : Type 0 where
  no_item : Json
  item : Option Name → Option Name → Json → Json → Json

abbrev pub item_child : Json → Json
item_child no_item = no_item
item_child (item name value c next) = c

-- The test of `cJSON_GetObjectItem`
abbrev pub is_called : Option Name → Name → Bool
is_called none sought = false
is_called (some name) sought = same_header name sought

-- The first of the items that is called so
unfoldable pub find_named : Name → Json → Json
find_named sought no_item = no_item
find_named sought (item name value c next) =
    let rest = find_named sought next in
    if is_called name sought then item name value c next else rest

-- `cJSON_GetObjectItem`, which reads the object it is given
unfoldable pub get_object_item : Json → Name → Option Json
get_object_item no_item sought = none
get_object_item (item name value c next) sought = some (find_named sought c)

-- `objitem != NULL ? objitem->valuestring : NULL`
abbrev pub value_string : Json → Option Name
value_string no_item = none
value_string (item name value c next) = value

abbrev pub text_below : Name → Json → Option Name
text_below name c = value_string (find_named name c)

-- What `cJSON_CreateString` and `cJSON_CreateObject` or `cJSON_CreateArray` make, once it is added
-- under a name
abbrev pub string_item : Name → Name → Json → Json
string_item name value next = item (some name) (some value) no_item next

abbrev pub object_item : Name → Json → Json → Json
object_item name c next = item (some name) none c next

-- An object that stands alone or in an array
abbrev pub plain_object : Json → Json → Json
plain_object c next = item none none c next

-- `JSONCMD_GETPARAMETERVALUES` and the others
pub record Commands : Type 0 where
  pub get : Name
  pub get_response : Name
  pub set : Name
  pub set_response : Name

-- `{"cwmp":{"cmd":...,"ParameterList":...}}`
abbrev pub command : Name → Json → Json
command cmd entries =
    plain_object
      (object_item (codes "cwmp")
        (string_item (codes "cmd") cmd (object_item (codes "ParameterList") entries no_item))
        no_item)
      no_item

-- An entry of the list, `{"paraname":...,"paravalue":{...}}`
abbrev pub list_entry : Name → Json → Json → Json
list_entry name c next =
    plain_object (string_item (codes "paraname") name (object_item (codes "paravalue") c no_item))
      next

-- What the agent keeps: `cwmp_data_get_parameter_value` and `cwmp_data_set_parameter_value`, which
-- returns 0 or not
pub record Store (S : Type 0) : Type 0 where
  pub get_value : Name → S → Option Name × S
  pub set_value : Name → Name → S → Bool × S

-- What is sent back, if anything is, and what the agent keeps then
pub record Served (S : Type 0) : Type 0 where
  pub sent : Option Json
  pub after : S

module _ (cmds : Commands) where
  -- The request of `cwmp_com_GetParameterValues`, and that of `cwmp_com_SetParameterValues`
  unfoldable pub get_request : Name → Name → Json
  get_request name type =
      command (cmds.get) (list_entry name (string_item (codes "type") type no_item) no_item)

  unfoldable pub set_request : Name → Name → Name → Json
  set_request name type value = command (cmds.set) (
      list_entry name (string_item (codes "value") value (string_item (codes "type") type no_item))
        no_item)

  -- What `pvalue` holds behind the loop of `cwmp_com_GetParameterValues`, for one character less than
  -- its size
  unfoldable pub received_value : ℕ → Json → Name → Name
  received_value len no_item held = held
  received_value len (item name value c next) held = elim (text_below (codes "paraname") c) [
    | none ↦ received_value len next held
    | some p ↦ elim (text_below (codes "value") (item_child (find_named (codes "paravalue") c))) [
      | none ↦ received_value len next held
      | some v ↦ received_value len next (take len v)
    ]
  ]

  -- `ret` behind the loop of `cwmp_com_SetParameterValues`
  unfoldable pub status_of : Option Name → ℤ
  status_of none = negsuc 0
  status_of (some t) = if same_name t (codes "0") then pos 0 else negsuc 0

  unfoldable pub received_status : Json → ℤ → ℤ
  received_status no_item ret = ret
  received_status (item name value c next) ret = elim (text_below (codes "paraname") c) [
    | none ↦ received_status next ret
    | some p ↦ elim (find_named (codes "paravalue") c) [
      | no_item ↦ received_status next ret
      | item n v b rest ↦ received_status next (status_of (text_below (codes "status") b))
    ]
  ]

  -- The parts of a document: the text of `cmd` and the list, or a fault where there is no `cwmp`
  abbrev pub parts_below : Option Json → Option (Option Name × Json)
  parts_below none = none
  parts_below (some no_item) = none
  parts_below (some (item name value c next)) =
      some (text_below (codes "cmd") c, find_named (codes "ParameterList") c)

  unfoldable pub parts_of : Json → Option (Option Name × Json)
  parts_of root = parts_below (get_object_item root (codes "cwmp"))

  -- The list of a response to a command, or `some none` where the document is another one; a missing
  -- `cmd` is compared.
  abbrev pub list_if : Name → Option (Option Name × Json) → Option (Option Json)
  list_if expected none = none
  list_if expected (some (none, l)) = none
  list_if expected (some (some cmd, no_item)) = some none
  list_if expected (some (some cmd, item n v c r)) =
      some (if same_header cmd expected then some c else none)

  abbrev pub value_got : ℕ → Name → Option (Option Json) → Option (ℤ × Name)
  value_got len held none = none
  value_got len held (some none) = some (negsuc 0, held)
  value_got len held (some (some list)) = some (negsuc 0, received_value len list held)

  -- `cwmp_com_GetParameterValues` for arguments that are not NULL, for the answer as it was parsed, the
  -- characters that `pvalue` has room for before the zero, and what it holds: what is returned, and what it holds then
  unfoldable pub com_get_parameter_values : Option Json → ℕ → Name → Option (ℤ × Name)
  com_get_parameter_values none len held = some (negsuc 0, held)
  com_get_parameter_values (some root) len held =
      value_got len held (list_if (cmds.get_response) (parts_of root))

  abbrev pub status_got : Option (Option Json) → Option ℤ
  status_got none = none
  status_got (some none) = some (negsuc 0)
  status_got (some (some list)) = some (received_status list (negsuc 0))

  -- `cwmp_com_SetParameterValues` for arguments that are not NULL
  unfoldable pub com_set_parameter_values : Option Json → Option ℤ
  com_set_parameter_values none = some (negsuc 0)
  com_set_parameter_values (some root) = status_got (list_if (cmds.set_response) (parts_of root))

  module _ {S : Type 0} (store : Store S) where
    abbrev pub printed_value : Option Name → Name
    printed_value none = codes "(null)"
    printed_value (some v) = v

    -- The value that is added for an entry with a `paravalue`
    abbrev pub value_entry : Name → Json → S → Json × S
    value_entry p no_item s = (no_item, s)
    value_entry p (item n v c r) s = (
      string_item (codes "value") (printed_value (store.get_value p s).0) no_item,
      (store.get_value p s).1,
    )

    -- The loop of `unix_com_cb` for values that are asked for
    unfoldable pub get_entries : Json → S → Json × S
    get_entries no_item s = (no_item, s)
    get_entries (item name value c next) s = elim (text_below (codes "paraname") c) [
      | none ↦ get_entries next s
      | some p ↦
          let e = value_entry p (find_named (codes "paravalue") c) s in
          let rest = get_entries next e.1 in (list_entry p e.0 rest.0, rest.1)
    ]

    abbrev pub status_word : Bool → Name
    status_word true = codes "0"
    status_word false = codes "-1"

    -- For an entry with a value that is set: its status, or `none` where the value is missing
    abbrev pub set_text : Name → Option Name → S → Option Json × S
    set_text p none s = (none, s)
    set_text p (some v) s = (
      some (string_item (codes "status") (status_word (store.set_value p v s).0) no_item),
      (store.set_value p v s).1,
    )

    abbrev pub status_entry : Name → Json → S → Option Json × S
    status_entry p no_item s = (some no_item, s)
    status_entry p (item n v c r) s = set_text p (text_below (codes "value") c) s

    abbrev pub put_before : Name → Json → Option Json × S → Option Json × S
    put_before p e (none, s) = (none, s)
    put_before p e (some rest, s) = (some (list_entry p e rest), s)

    -- The loop of `unix_com_cb` for values that are set; it is left where a value is missing.
    unfoldable pub set_entries : Json → S → Option Json × S
    set_entries no_item s = (some no_item, s)
    set_entries (item name value c next) s = elim (text_below (codes "paraname") c) [
      | none ↦ set_entries next s
      | some p ↦
          let e = status_entry p (find_named (codes "paravalue") c) s in
          elim (e.0) [ none ↦ (none, e.1) | some j ↦ put_before p j (set_entries next e.1) ]
    ]

    abbrev pub commanded : Name → Option Json × S → Served S
    commanded cmd (none, s) = record { sent = none; after = s }
    commanded cmd (some entries, s) = record { sent = some (command cmd entries); after = s }

    abbrev pub answer_get : Json → S → Served S
    answer_get no_item s = record { sent = none; after = s }
    answer_get (item n v c r) s =
        let e = get_entries c s in
        record { sent = some (command (cmds.get_response) e.0); after = e.1 }

    abbrev pub answer_set : Json → S → Served S
    answer_set no_item s = record { sent = none; after = s }
    answer_set (item n v c r) s = commanded (cmds.set_response) (set_entries c s)

    abbrev pub dispatch : Name → Json → S → Served S
    dispatch cmd l s =
        if same_header cmd (cmds.get)
        then answer_get l s
        else if same_header cmd (cmds.set)
        then answer_set l s
        else record { sent = some (plain_object no_item no_item); after = s }

    abbrev pub served : Option (Option Name × Json) → S → Option (Served S)
    served none s = none
    served (some (none, l)) s = some (record { sent = none; after = s })
    served (some (some cmd, l)) s = some (dispatch cmd l s)

    -- `unix_com_cb`, for the document as it was parsed
    unfoldable pub serve : Option Json → S → Option (Served S)
    serve none s = some (record { sent = none; after = s })
    serve (some root) s = served (parts_of root) s

-- ===== src/Names.antt =====
-- GetParameterNames: `cwmp_session_create_getparameternames_response_message` of
-- netcwmp_xo/libcwmp/src/session.c, and `cwmp_parse_getparameternames_message` and
-- `cwmp_create_getparameternames_response_message` of netcwmp_xo/libcwmp/src/cwmp.c.
pub mod Listed
pub mod Tests
use netcwmp_xo.Base.{
  ℕ, ◌-◌, Bool, true, false, not, ◌||◌, Option, none, some, List, [], ◌∷◌, ◌++◌, ◌==◌,
  if◌then◌else◌, take,
}
use netcwmp_xo.Param.{
  Name, Info, type_object, Node, null, node, same_name, index_name, child, Lookup, found, too_long,
  out_of_fuel, get_parameter_path_node,
}

-- A `ParameterInfoStruct` of the response: the name, and whether the parameter is writable
pub record Entry : Type 0 where
  pub name : Name
  pub writable : Bool

abbrev pub entry : Name → Info → Entry
entry path i = record { name = path; writable = not (i.rw_flag == 0) }

-- What `%s` prints for a name
abbrev pub printed : Option Name → Name
printed none = b'(' ∷ b'n' ∷ b'u' ∷ b'l' ∷ b'l' ∷ b')' ∷ []
printed (some name) = name

-- The characters that `cwmp_buffer_write_format_string` leaves in an empty buffer of 1024
abbrev pub print_limit : ℕ
print_limit = 1023

-- The name of a child: an object's ends with a dot.
unfoldable pub child_path : Name → Option Name → Info → Name
child_path path name i =
    take print_limit (path ++ printed name ++ (if i.type == type_object then b'.' ∷ [] else []))

abbrev pub is_index : Option Name → Bool
is_index none = false
is_index (some name) = same_name name index_name

-- The loop of `cwmp_create_getparameternames_response_all_parameter_names` over a chain of children,
-- with its calls for each of them
unfoldable pub names_below : Name → Node → List Entry
names_below path null = []
names_below path (node name i c s) =
    let rest = names_below path s in
    let inner = names_below (child_path path name i) c in
    if is_index name then rest else entry (child_path path name i) i ∷ inner ++ rest

-- `cwmp_create_getparameternames_response_all_parameter_names`
unfoldable pub all_parameter_names : Name → Node → List Entry
all_parameter_names path null = []
all_parameter_names path (node name i c s) = entry path i ∷ names_below path c

-- The loop for the next level
unfoldable pub level_names : Name → Node → List Entry
level_names path null = []
level_names path (node name i c s) =
    let rest = level_names path s in
    if is_index name then rest else entry (child_path path name i) i ∷ rest

-- `cwmp_create_getparameternames_response_message`: the list, whose length is its array type, or
-- NULL where there is no node
unfoldable pub create_response : Name → Node → Bool → Bool → Option (List Entry)
create_response path null subset next_level = none
create_response path (node name i c s) subset next_level = some (
    if subset
    then if next_level then level_names path c else all_parameter_names path (node name i c s)
    else entry path i ∷ [])

-- `path[strlen(path) - 1] == '.'`; `none` is a read in front of an empty path.
unfoldable pub ends_with_dot : Name → Option Bool
ends_with_dot [] = none
ends_with_dot (c ∷ []) = some (c == b'.')
ends_with_dot (c ∷ d ∷ s) = ends_with_dot (d ∷ s)

-- The test of `cwmp_parse_getparameternames_message`; a missing text counts as `0`.
unfoldable pub next_level_of : Option Name → Bool
next_level_of none = false
next_level_of (some nl) = same_name nl (b't' ∷ b'r' ∷ b'u' ∷ b'e' ∷ []) || same_name nl (b'1' ∷ [])

-- How the handler ends: with the list or without a response, with a fault of the program, or at the
-- end of the fuel of the search.
pub data Names : Type 0 where
  names : Option (List Entry) → Names
  fault : Names
  no_fuel : Names

abbrev pub answer : Name → Bool → Bool → Lookup → Names
answer path subset next_level (found m) = names (create_response path m subset next_level)
answer path subset next_level too_long = fault
answer path subset next_level out_of_fuel = no_fuel

abbrev pub answer_at : ℕ → Node → Node → Name → Bool → Option Bool → Names
answer_at fuel up root path next_level none = fault
answer_at fuel up root path next_level (some subset) =
    answer path subset next_level (get_parameter_path_node fuel up root (some path))

-- The handler, for the texts of `ParameterPath` and `NextLevel`; a missing path is dereferenced.
unfoldable pub get_parameter_names : ℕ → Node → Node → Option Name → Option Name → Names
get_parameter_names fuel up root none nl = fault
get_parameter_names fuel up root (some path) nl =
    answer_at fuel up root path (next_level_of nl) (ends_with_dot path)

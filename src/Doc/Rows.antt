-- ===== src/Doc/Rows.antt =====
-- The entries of the lists in the messages.
use netcwmp_xo.Base.{
  ℕ, suc, ◌≡◌, refl, ap, Bool, true, false, All, Option, none, some, List, [], ◌∷◌, ◌++◌, length,
  codes, if◌then◌else◌, ◌==◌,
}
use netcwmp_xo.Base.Int.{ℤ, pos}
use netcwmp_xo.Param.{Name, same_name}
use netcwmp_xo.Param.Path.{same_name_refl}
use netcwmp_xo.Header.{same_header}
use netcwmp_xo.Doc.Found.{IsDistinct, get_rpc_method_node-message}
use netcwmp_xo.Event.Inform as EventType
use netcwmp_xo.Event.{EventCode}
use netcwmp_xo.Names.{Entry}
use netcwmp_xo.Values.{Parameter}
use netcwmp_xo.Doc.{
  Xml, no_node, element, other, overrun, Ns, sibling_with_name, get_child_with_name, node_value,
  first_child, attribute, get_rpc_method_node, get_node_attribute, get_type_string, wrapped,
}
use netcwmp_xo.Doc.Read.{Header}
use netcwmp_xo.Doc.Build.{
  xsi_type, append_child, message, is_clean, is_clean_value, node_with-is_clean,
}
use netcwmp_xo.Doc.Build.Rows.{
  xsd_string, code_text, key_text, event_structs, value_structs, info_structs, DeviceId,
  create_inform_message, create_event_node, create_device_id_node, create_max_envelope_node,
  create_current_time_node, create_retry_count_node, create_parameter_list_node, counted,
  value_list, names_list, create_getparametervalues_response_message,
  create_getparameternames_response_message,
}

-- What a receiver reads of a list: for each element, the values of two children and the type that
-- stands at the second
pub record Row : Type 0 where
  pub name : Name
  pub first : Option Name
  pub second : Option Name
  pub type : Option Name

abbrev pub row_at : Name → Xml → Xml → Row
row_at tag a b = record {
  name = tag;
  first = node_value a;
  second = node_value b;
  type = get_node_attribute (codes "xsi:type") b;
}

unfoldable pub rows : Name → Name → Xml → List Row
rows a b no_node = []
rows a b overrun = []
rows a b (other name value next) = rows a b next
rows a b (element name value attributes child next) =
    row_at name (sibling_with_name a child) (sibling_with_name b child) ∷ rows a b next

abbrev pub map_rows {ℓ} : {A : Type ℓ} → (A → Row) → List A → List Row
map_rows f [] = []
map_rows f (x ∷ xs) = f x ∷ map_rows f xs

abbrev pub row : Name → Option Name → Option Name → Option Name → Row
row name first second type = record { name = name; first = first; second = second; type = type }

abbrev pub event_row : EventCode → Row
event_row ec =
    row (codes "EventStruct") (code_text ec)
      (if ec.event == EventType.mreboot then some ec.command_key else none) none

abbrev pub value_row : (ℕ → Name) → Parameter → Row
value_row type_text p = row (codes "ParameterValueStruct") p.name p.value (some (type_text p.type))

abbrev pub writable_text : Bool → Name
writable_text w = if w then codes "1" else codes "0"

abbrev pub info_row : Entry → Row
info_row e = row (codes "ParameterInfoStruct") (some e.name) (some (writable_text e.writable)) none

-- The texts of an event, of a parameter and of an entry are stored as they are.
abbrev pub IsCleanEvent : EventCode → Type 0
IsCleanEvent ec = (is_clean_value (code_text ec) ≡ true) × (is_clean_value (key_text ec) ≡ true)

abbrev pub IsCleanParameter : Parameter → Type 0
IsCleanParameter p = (is_clean_value p.name ≡ true) × (is_clean_value p.value ≡ true)

rows-event_structs :
    (es : List EventCode)
    → All IsCleanEvent es
    → rows (codes "EventCode") (codes "CommandKey") (event_structs es) ≡ map_rows event_row es
unfolding rows event_structs append_child sibling_with_name attribute same_header
rows-event_structs [] h = refl
rows-event_structs (ec ∷ es) (u, h) =
    rw
      (
        node_with-is_clean (codes "EventCode") (code_text ec) (xsi_type xsd_string) no_node u.0,
        node_with-is_clean (codes "CommandKey") (key_text ec) [] no_node u.1,
      )
      (ap (◌∷◌ (event_row ec)) (rows-event_structs es h))

rows-value_structs :
    (type_text : ℕ → Name) (ps : List Parameter)
    → All IsCleanParameter ps
    → rows (codes "Name") (codes "Value") (value_structs type_text ps)
      ≡ map_rows (value_row type_text) ps
unfolding rows value_structs append_child sibling_with_name attribute same_header same_name
rows-value_structs t [] h = refl
rows-value_structs t (p ∷ ps) (u, h) =
    rw
      (
        node_with-is_clean (codes "Name") p.name (xsi_type xsd_string) no_node u.0,
        node_with-is_clean (codes "Value") p.value (xsi_type (t p.type)) no_node u.1,
      )
      (ap (◌∷◌ (value_row t p)) (rows-value_structs t ps h))

writable_text-is_clean : (w : Bool) → is_clean (writable_text w) ≡ true
writable_text-is_clean true = refl
writable_text-is_clean false = refl

rows-info_structs :
    (es : List Entry)
    → All (λ e. is_clean e.name ≡ true) es
    → rows (codes "Name") (codes "Writable") (info_structs es) ≡ map_rows info_row es
unfolding rows info_structs append_child sibling_with_name attribute same_header
rows-info_structs [] h = refl
rows-info_structs (e ∷ es) (u, h) =
    rw
      (
        node_with-is_clean (codes "Name") (some e.name) [] no_node u,
        node_with-is_clean (codes "Writable") (some (writable_text e.writable)) [] no_node
            (writable_text-is_clean e.writable),
      )
      (ap (◌∷◌ (info_row e)) (rows-info_structs es h))

length-map_rows {ℓ} : {A : Type ℓ} (f : A → Row) (xs : List A) → length (map_rows f xs) ≡ length xs
length-map_rows f [] = refl
length-map_rows f (x ∷ xs) = ap suc (length-map_rows f xs)

-- The child of the method's element that has a name
abbrev pub argument : Ns → Name → Xml → Xml
argument ns tag doc = get_child_with_name tag (get_rpc_method_node ns doc)

module _ (itoa : ℤ → Name) (ns : Ns) where
  -- A list node has these rows, and its attribute says how many they are.
  abbrev pub IsList : Name → Name → Name → List Row → Xml → Type 0
  IsList type a b rs n =
      (rows a b (first_child n) ≡ rs)
      × (get_node_attribute ns.array_type n
          ≡ some (type ++ b'[' ∷ itoa (pos (length rs)) ++ b']' ∷ []))

  attribute-counted :
      {A : Type 0} (f : A → Row) (type : Name) (xs : List A)
      → attribute ns.array_type (counted itoa ns type (length xs))
        ≡ some (type ++ b'[' ∷ itoa (pos (length (map_rows f xs))) ++ b']' ∷ [])
  unfolding attribute
  attribute-counted f type xs = rw (length-map_rows f xs, same_name_refl ns.array_type) refl

  create_event_node-IsList :
      (es : List EventCode)
      → All IsCleanEvent es
      → IsList
          (codes "cwmp:EventStruct")
          (codes "EventCode")
          (codes "CommandKey")
          (map_rows event_row es)
          (create_event_node itoa ns es)
  unfolding create_event_node
  create_event_node-IsList es h =
      (rows-event_structs es h, attribute-counted event_row (codes "cwmp:EventStruct") es)

  value_list-IsList :
      (t : ℕ → Name) (ps : List Parameter)
      → All IsCleanParameter ps
      → IsList
          (codes "cwmp:ParameterValueStruct")
          (codes "Name")
          (codes "Value")
          (map_rows (value_row t) ps)
          (value_list itoa ns t ps)
  value_list-IsList t ps h = (
    rows-value_structs t ps h,
    attribute-counted (value_row t) (codes "cwmp:ParameterValueStruct") ps,
  )

  names_list-IsList :
      (es : List Entry)
      → All (λ e. is_clean e.name ≡ true) es
      → IsList
          (codes "cwmp:ParameterInfoStruct")
          (codes "Name")
          (codes "Writable")
          (map_rows info_row es)
          (names_list itoa ns es)
  names_list-IsList es h =
      (rows-info_structs es h, attribute-counted info_row (codes "cwmp:ParameterInfoStruct") es)

  module _ (header : Option Header) (distinct : IsDistinct ns) where
    argument-message :
        (tag : Name) (child : Xml)
        → argument ns tag (wrapped (message ns header child)) ≡ get_child_with_name tag child
    argument-message tag child =
        ap (get_child_with_name tag) (get_rpc_method_node-message ns header child distinct)

    -- The texts around the lists of an Inform are stored as they are.
    abbrev pub IsCleanInform : DeviceId → Name → ℤ → ℤ → Type 0
    IsCleanInform d time max retry =
        All (λ v. is_clean_value v ≡ true)
          (d.manufactorer
            ∷ d.oui
            ∷ d.product_class
            ∷ d.serial_number
            ∷ some time
            ∷ some (itoa max)
            ∷ some (itoa retry)
            ∷ [])

    -- An Inform lists the events it is built for, with the command key of M Reboot and of no other
    -- event, and the parameters, each with as many entries as its attribute says. The texts of its nodes are NULL or
    -- begin with a character above the blank and below 128, and have at most 1023 characters.
    pub create_inform_message-lists :
        (device : DeviceId) (es : List EventCode) (time : Name) (max retry : ℤ)
        (ps : List Parameter)
        → IsCleanInform device time max retry
        → All IsCleanEvent es
        → All IsCleanParameter ps
        → let doc = wrapped (create_inform_message itoa ns header device es time max retry ps) in
          IsList
            (codes "cwmp:EventStruct")
            (codes "EventCode")
            (codes "CommandKey")
            (map_rows event_row es)
            (argument ns (codes "Event") doc)
          × IsList
              (codes "cwmp:ParameterValueStruct")
              (codes "Name")
              (codes "Value")
              (map_rows (value_row (λ type. xsd_string)) ps)
              (argument ns (codes "ParameterList") doc)
    unfolding create_inform_message create_device_id_node create_event_node create_max_envelope_node
        create_current_time_node create_retry_count_node create_parameter_list_node append_child
        sibling_with_name same_header
    create_inform_message-lists device es time max retry ps (_, (_, (_, (_, (t, (m, (r, _)))))))
          events values =
        rw
          (
            node_with-is_clean (codes "MaxEnvelopes") (some (itoa max))
                (xsi_type (codes "xsd:unsignedInt")) no_node m,
            node_with-is_clean (codes "CurrentTime") (some time) (xsi_type (codes "xsd:dateTime"))
                no_node t,
            node_with-is_clean (codes "RetryCount") (some (itoa retry))
                (xsi_type (codes "xsd:unsignedInt")) no_node r,
            argument-message (codes "Event"),
            argument-message (codes "ParameterList"),
          )
          (create_event_node-IsList es events, value_list-IsList (λ type. xsd_string) ps values)

    -- The response to GetParameterValues lists the parameters it is built for, with their types, and
    -- says how many they are.
    pub create_getparametervalues_response_message-lists :
        (ps : List Parameter)
        → All IsCleanParameter ps
        → IsList
            (codes "cwmp:ParameterValueStruct")
            (codes "Name")
            (codes "Value")
            (map_rows (value_row get_type_string) ps)
            (argument ns
              (codes "ParameterList")
              (wrapped (create_getparametervalues_response_message itoa ns header ps)))
    unfolding create_getparametervalues_response_message sibling_with_name same_header
    create_getparametervalues_response_message-lists ps h =
        rw (argument-message (codes "ParameterList")) (value_list-IsList get_type_string ps h)

    -- The response to GetParameterNames lists its entries, and says how many they are.
    pub create_getparameternames_response_message-lists :
        (es : List Entry)
        → All (λ e. is_clean e.name ≡ true) es
        → IsList
            (codes "cwmp:ParameterInfoStruct")
            (codes "Name")
            (codes "Writable")
            (map_rows info_row es)
            (argument ns
              (codes "ParameterList")
              (wrapped (create_getparameternames_response_message itoa ns header es)))
    unfolding create_getparameternames_response_message sibling_with_name same_header
    create_getparameternames_response_message-lists es h =
        rw (argument-message (codes "ParameterList")) (names_list-IsList es h)

-- ===== src/Doc/Build/Rows.antt =====
-- The nodes that hold a list, and the messages around them: one element per entry, and the attribute
-- with their number.
use netcwmp_xo.Base.{ℕ, Option, none, some, List, [], ◌∷◌, ◌++◌, ◌==◌, if◌then◌else◌, length, codes}
use netcwmp_xo.Base.Int.{ℤ, pos}
use netcwmp_xo.Param.{Name}
use netcwmp_xo.Event.{EventCode}
use netcwmp_xo.Event.Inform as EventType
use netcwmp_xo.Names.{Entry}
use netcwmp_xo.Values.{Parameter}
use netcwmp_xo.Doc.{Xml, no_node, element, Ns, get_type_string}
use netcwmp_xo.Doc.Read.{Header}
use netcwmp_xo.Doc.Build.{append_child, bare, leaf, branch, typed, xsi_type, message}

abbrev pub xsd_string : Name
xsd_string = codes "xsd:string"

abbrev pub code_text : EventCode → Option Name
code_text ec = elim (ec.code) [ none ↦ none | some s ↦ some (codes s) ]

-- The command key goes out for `M Reboot` only.
abbrev pub key_text : EventCode → Option Name
key_text ec = if ec.event == EventType.mreboot then some ec.command_key else none

-- The loop of `cwmp_create_event_node` over the events of the list, of which there are `count`
unfoldable pub event_structs : List EventCode → Xml
event_structs [] = no_node
event_structs (ec ∷ es) =
    element (codes "EventStruct") none []
      (append_child (typed (codes "EventCode") (code_text ec) xsd_string)
        (leaf (codes "CommandKey") (key_text ec)))
      (event_structs es)

-- The loops of `cwmp_create_parameter_list_node`, where the type is that of a string, and of
-- `cwmp_create_getparametervalues_response_message`
unfoldable pub value_structs : (ℕ → Name) → List Parameter → Xml
value_structs type_text [] = no_node
value_structs type_text (p ∷ ps) =
    element (codes "ParameterValueStruct") none []
      (append_child (typed (codes "Name") p.name xsd_string)
        (typed (codes "Value") p.value (type_text p.type)))
      (value_structs type_text ps)

-- The entries of `cwmp_create_getparameternames_response_message`
unfoldable pub info_structs : List Entry → Xml
info_structs [] = no_node
info_structs (e ∷ es) =
    element (codes "ParameterInfoStruct") none []
      (append_child (leaf (codes "Name") (some e.name))
        (leaf (codes "Writable") (some (if e.writable then codes "1" else codes "0"))))
      (info_structs es)

-- The loop of `cwmp_create_getrpcmethods_response_message`, where no method is NULL before `count`
unfoldable pub method_strings : List Name → Xml
method_strings [] = no_node
method_strings (m ∷ ms) = append_child (leaf (codes "string") (some m)) (method_strings ms)

-- `device_id_t`, less its name
pub record DeviceId : Type 0 where
  pub manufactorer : Option Name
  pub oui : Option Name
  pub product_class : Option Name
  pub serial_number : Option Name

-- `cwmp_create_device_id_node`
unfoldable pub create_device_id_node : DeviceId → Xml
create_device_id_node d = bare (codes "DeviceId") (xsi_type (codes "cwmp:DeviceIdStruct")) (
    append_child (typed (codes "Manufacturer") d.manufactorer xsd_string) (
      append_child (typed (codes "OUI") d.oui xsd_string) (
        append_child (typed (codes "ProductClass") d.product_class xsd_string)
          (typed (codes "SerialNumber") d.serial_number xsd_string))))

-- `cwmp_create_current_time_node`, for the text that is printed for the time
unfoldable pub create_current_time_node : Name → Xml
create_current_time_node time = typed (codes "CurrentTime") (some time) (codes "xsd:dateTime")

module _ (itoa : ℤ → Name) where
  -- The attribute of a list with its number of entries
  abbrev pub counted : Ns → Name → ℕ → List (Name × Name)
  counted ns type n = (ns.array_type, type ++ b'[' ∷ itoa (pos n) ++ b']' ∷ []) ∷ []

  -- `cwmp_create_event_node`
  unfoldable pub create_event_node : Ns → List EventCode → Xml
  create_event_node ns es =
      bare (codes "Event") (counted ns (codes "cwmp:EventStruct") (length es)) (event_structs es)

  -- `cwmp_create_max_envelope_node` and `cwmp_create_retry_count_node`
  unfoldable pub create_max_envelope_node : ℤ → Xml
  create_max_envelope_node n =
      typed (codes "MaxEnvelopes") (some (itoa n)) (codes "xsd:unsignedInt")

  unfoldable pub create_retry_count_node : ℤ → Xml
  create_retry_count_node n = typed (codes "RetryCount") (some (itoa n)) (codes "xsd:unsignedInt")

  abbrev pub value_list : Ns → (ℕ → Name) → List Parameter → Xml
  value_list ns type_text ps =
      bare (codes "ParameterList") (counted ns (codes "cwmp:ParameterValueStruct") (length ps))
        (value_structs type_text ps)

  -- `cwmp_create_parameter_list_node`
  unfoldable pub create_parameter_list_node : Ns → List Parameter → Xml
  create_parameter_list_node ns ps = value_list ns (λ type. xsd_string) ps

  -- `cwmp_create_inform_message`
  unfoldable pub create_inform_message :
      Ns → Option Header → DeviceId → List EventCode → Name → ℤ → ℤ → List Parameter → Xml
  create_inform_message ns header device events time max_envelope retry_count ps =
      message ns header (
        branch (codes "cwmp:Inform") (
          append_child (create_device_id_node device) (
            append_child (create_event_node ns events) (
              append_child (create_max_envelope_node max_envelope) (
                append_child (create_current_time_node time) (
                  append_child (create_retry_count_node retry_count)
                    (create_parameter_list_node ns ps)))))))

  -- `cwmp_create_getparametervalues_response_message`
  unfoldable pub create_getparametervalues_response_message :
      Ns → Option Header → List Parameter → Xml
  create_getparametervalues_response_message ns header ps =
      message ns header
        (branch (codes "cwmp:GetParameterValuesResponse") (value_list ns get_type_string ps))

  abbrev pub names_list : Ns → List Entry → Xml
  names_list ns es =
      bare (codes "ParameterList") (counted ns (codes "cwmp:ParameterInfoStruct") (length es))
        (info_structs es)

  -- The document of `cwmp_create_getparameternames_response_message` for its entries
  unfoldable pub create_getparameternames_response_message : Ns → Option Header → List Entry → Xml
  create_getparameternames_response_message ns header es =
      message ns header (branch (codes "cwmp:GetParameterNamesResponse") (names_list ns es))

  -- `cwmp_create_getrpcmethods_response_message`
  unfoldable pub create_getrpcmethods_response_message : Ns → Option Header → List Name → Xml
  create_getrpcmethods_response_message ns header methods = message ns header (
      branch (codes "cwmp:GetRPCMethodsResponse") (
        bare (codes "MethodList")
          ((codes "xmlns:" ++ ns.env, codes "http://schemas.xmlsoap.org/soap/envelope/")
            ∷ counted ns (codes "xsd:string") (length methods))
          (method_strings methods)))

-- ===== src/Doc/Answer.antt =====
-- The documents that answer the server: the functions of netcwmp_xo/libcwmp/src/session.c that
-- `cwmp_agent_analyse_session` of netcwmp_xo/cwmpd/src/agent.c calls for a method, from the document that
-- came to the one that goes out.
use netcwmp_xo.Base.{ℕ, Option, none, some, List, [], ◌∷◌, if◌then◌else◌, codes}
use netcwmp_xo.Base.Int.{ℤ, pos}
use netcwmp_xo.Param.{Name}
use netcwmp_xo.Agent.{
  Rpc, get_rpc_methods, inform_response, get_parameter_names, get_parameter_values,
  set_parameter_values, download, upload, transfer_complete_response, reboot, add_object,
  delete_object, factory_reset, other_method,
}
use netcwmp_xo.Names as NamesOf
use netcwmp_xo.Names.{Names, Entry}
use netcwmp_xo.Values as ValuesOf
use netcwmp_xo.Values.{Device, Parameter, Assignment, SetResponse}
use netcwmp_xo.Objects as ObjectsOf
use netcwmp_xo.Objects.{Objects, Reply}
use netcwmp_xo.Doc.{Xml, Ns, first_child, get_child_with_name, get_header_node, get_rpc_method_node}
use netcwmp_xo.Doc.Read.{
  Header, is_there, parse_header_node, parse_getparameternames_texts, child_text, texts,
  assignments,
}
use netcwmp_xo.Doc.Build.{
  create_setparametervalues_response_message, create_deleteobject_response_message,
  create_download_response_message, create_reboot_response_message,
  create_factoryreset_response_message, create_addobject_response_message,
}
use netcwmp_xo.Doc.Build.Rows.{
  create_getparametervalues_response_message, create_getparameternames_response_message,
  create_getrpcmethods_response_message,
}
use netcwmp_xo.Doc.Build.Fault.{
  create_faultcode_response_message, create_faultcode_setparametervalues_response_message,
}

-- `rpc_methods`
abbrev pub rpc_methods : List Name
rpc_methods =
    codes "GetRPCMethods"
    ∷ codes "SetParameterValues"
    ∷ codes "GetParameterValues"
    ∷ codes "GetParameterNames"
    ∷ codes "SetParameterAttributes"
    ∷ codes "GetParameterAttributes"
    ∷ codes "Download"
    ∷ codes "Upload"
    ∷ codes "Reboot"
    ∷ codes "FactoryReset"
    ∷ codes "Inform"
    ∷ []

-- How the answer to a document ends: with a document and the device after it, without one, with a fault
-- of the program, or at the end of the fuel of a search.
pub data Answered (S : Type 0) : Type 0 where
  sent : Xml → S → Answered S
  nothing : S → Answered S
  fault : Answered S
  no_fuel : Answered S

-- The children of the argument `name`, as `read` takes them, if it is there
abbrev pub list_of {ℓ} : {A : Type ℓ} → (Xml → A) → Xml → Option A
list_of read n = if is_there n then some (read (first_child n)) else none

-- What the functions work on: the prefixes, `atoi` and `itoa`, the parameters, and what the places on the
-- stack hold that nothing sets: the status of an object, and the code of a fault.
pub record Site (S : Type 0) : Type 0 where
  pub ns : Ns
  pub atoi : Name → ℤ
  pub itoa : ℤ → Name
  pub parameters : Device S
  pub objects : Objects S
  pub status : ℕ
  pub unset : ℤ

module _ {S : Type 0} (k : Site S) where
  -- `cwmp_parse_header_node(cwmp_get_header_node(doc), &header, pool)`
  abbrev pub header_of : Xml → Option Header
  header_of doc = parse_header_node (k.atoi) (get_header_node (k.ns) doc)

  abbrev pub argument_of : Name → Xml → Xml
  argument_of name doc = get_child_with_name name (get_rpc_method_node (k.ns) doc)

  -- The end of `cwmp_session_create_getparameternames_response_message`
  abbrev pub names_answer : Option Header → S → Names → Answered S
  names_answer header s (Names.names none) = nothing s
  names_answer header s (Names.names (some es)) =
      sent (create_getparameternames_response_message (k.itoa) (k.ns) header es) s
  names_answer header s Names.fault = fault
  names_answer header s Names.no_fuel = no_fuel

  -- The end of `cwmp_session_create_getparametervalues_response_message`
  abbrev pub values_answer : Option Header → Option (List Parameter × S) → Answered S
  values_answer header none = fault
  values_answer header (some (ps, s)) =
      sent (create_getparametervalues_response_message (k.itoa) (k.ns) header ps) s

  abbrev pub code_or_unset : Option ℕ → ℤ
  code_or_unset none = k.unset
  code_or_unset (some code) = pos code

  -- The end of `cwmp_session_create_setparametervalues_response_message`
  abbrev pub set_answer : Option Header → Option (SetResponse × S) → Answered S
  set_answer header none = fault
  set_answer header (some (SetResponse.status n, s)) =
      sent (create_setparametervalues_response_message (k.ns) header (pos n)) s
  set_answer header (some (SetResponse.faults code ps, s)) =
      sent
        (create_faultcode_setparametervalues_response_message (k.itoa) (k.ns) header ps
          (code_or_unset code))
        s

  abbrev pub reply_document : Option Header → Reply → Xml
  reply_document header (Reply.added n status) =
      create_addobject_response_message (k.itoa) (k.ns) header (pos n) (pos status)
  reply_document header (Reply.deleted status) =
      create_deleteobject_response_message (k.ns) header (pos status)
  reply_document header (Reply.refused code) =
      create_faultcode_response_message (k.itoa) (k.ns) header (pos code)

  -- The ends of `cwmp_session_create_addobject_response_message` and of
  -- `cwmp_session_create_deleteobject_response_message`
  abbrev pub object_answer : Option Header → ObjectsOf.Outcome S → Answered S
  object_answer header (ObjectsOf.Outcome.replied r s) = sent (reply_document header r) s
  object_answer header ObjectsOf.Outcome.fault = fault
  object_answer header ObjectsOf.Outcome.no_fuel = no_fuel

  -- The dispatch of `cwmp_agent_analyse_session`, for the answers to the server. Those to Download and
  -- Upload say that the transfer is not done yet; `cwmp_parse_upload_message` reads a size as a pointer.
  unfoldable pub answer_document : ℕ → Rpc → Xml → S → Answered S
  answer_document fuel get_rpc_methods doc s =
      sent (create_getrpcmethods_response_message (k.itoa) (k.ns) (header_of doc) rpc_methods) s
  answer_document fuel inform_response doc s = nothing s
  answer_document fuel get_parameter_names doc s =
      let t = parse_getparameternames_texts (k.ns) doc in
      names_answer (header_of doc) s
        (NamesOf.get_parameter_names fuel (k.objects.top s) (k.objects.root s) t.0 t.1)
  answer_document fuel get_parameter_values doc s = values_answer (header_of doc) (
      ValuesOf.get_parameter_values (k.parameters)
        (list_of texts (argument_of (codes "ParameterNames") doc)) s)
  answer_document fuel set_parameter_values doc s = set_answer (header_of doc) (
      ValuesOf.set_parameter_values (k.parameters)
        (list_of assignments (argument_of (codes "ParameterList") doc)) s)
  answer_document fuel download doc s =
      sent (create_download_response_message (k.ns) (header_of doc) (pos 1)) s
  answer_document fuel upload doc s = fault
  answer_document fuel transfer_complete_response doc s = nothing s
  answer_document fuel reboot doc s = sent (create_reboot_response_message (k.ns) (header_of doc)) s
  answer_document fuel add_object doc s = object_answer (header_of doc) (
      ObjectsOf.add_object (k.objects) (k.status) fuel
        (child_text (codes "ObjectName") (get_rpc_method_node (k.ns) doc)) s)
  answer_document fuel delete_object doc s = object_answer (header_of doc) (
      ObjectsOf.delete_object (k.objects) (k.status) fuel
        (child_text (codes "ObjectName") (get_rpc_method_node (k.ns) doc)) s)
  answer_document fuel factory_reset doc s =
      sent (create_factoryreset_response_message (k.ns) (header_of doc)) s
  answer_document fuel other_method doc s = nothing s

-- ===== src/Doc/Echo.antt =====
-- How requests and the documents that answer them belong together.
use netcwmp_xo.Base.{
  ℕ, ◌≤◌, ◌≡◌, refl, ap, ◌∙◌, Bool, true, false, Option, none, some, List, [], ◌⊎◌, inl, inr,
  length, take-all, codes,
}
use netcwmp_xo.Base.Int.{ℤ}
use netcwmp_xo.Param.{Name}
use netcwmp_xo.Agent.{
  Rpc, get_rpc_methods, inform_response, get_parameter_names, get_parameter_values,
  set_parameter_values, download, upload, transfer_complete_response, reboot, add_object,
  delete_object, factory_reset, other_method,
}
use netcwmp_xo.Names.{Names}
use netcwmp_xo.Values.{Parameter, SetResponse}
use netcwmp_xo.Objects as ObjectsOf
use netcwmp_xo.Objects.{Reply}
use netcwmp_xo.Objects.Kinds.{
  IsAddition, IsDeletion, add_object-IsAddition, delete_object-IsDeletion,
}
use netcwmp_xo.Doc.{
  Xml, no_node, element, other, overrun, Ns, get_child_with_name, get_node_value, node_value,
  get_header_node, get_rpc_method_name, get_rpc_method_node, wrapped, sibling_with_name,
}
use netcwmp_xo.Doc.Read.{Header, head_copy, header_id, parse_header_node, child_text}
use netcwmp_xo.Header.{same_header}
use netcwmp_xo.Doc.Build.{
  message, branch, append_child, create_header_node, create_setparametervalues_response_message,
  create_deleteobject_response_message, create_addobject_response_message,
  create_download_response_message, create_reboot_response_message,
  create_factoryreset_response_message,
}
use netcwmp_xo.Doc.Build.Rows.{
  create_getparametervalues_response_message, create_getparameternames_response_message,
  create_getrpcmethods_response_message,
}
use netcwmp_xo.Doc.Build.Fault.{
  create_faultcode_response_message, create_faultcode_setparametervalues_response_message,
}
use netcwmp_xo.Doc.Found.{IsDistinct, get_header_node-message, get_rpc_method_name-message}
use netcwmp_xo.Doc.Answer.{
  Answered, sent, nothing, fault, no_fuel, Site, header_of, names_answer, values_answer, set_answer,
  object_answer, answer_document,
}

-- The text of the id of a document that came
abbrev pub asked_id : Ns → Xml → Option Name
asked_id ns doc = get_node_value (get_child_with_name (codes "cwmp:ID") (get_header_node ns doc))

-- The value of the id of a document that goes out
abbrev pub answered_id : Ns → Xml → Option Name
answered_id ns doc =
    node_value (get_child_with_name (codes "cwmp:ID") (get_header_node ns (wrapped doc)))

header_id-text :
    (n : Xml) (id : Name) → get_node_value n ≡ some id → length id ≤ 64 → header_id n ≡ some id
unfolding header_id
header_id-text no_node id e fits = cc
header_id-text (element name v a c m) id e fits =
    ap (λ o. some (head_copy o)) e ∙ ap some (take-all 64 id fits)
header_id-text (other name v m) id e fits = cc
header_id-text overrun id e fits = cc

abbrev pub id_child : Xml → Xml
id_child n = get_child_with_name (codes "cwmp:ID") n

parse_header_node-id :
    (atoi : Name → ℤ) (n : Xml) (id : Name)
    → get_node_value (id_child n) ≡ some id
    → length id ≤ 64
    → (h : Header) × (parse_header_node atoi n ≡ some h) × (h.id ≡ some id)
unfolding parse_header_node sibling_with_name
parse_header_node-id atoi no_node id e fits = cc
parse_header_node-id atoi (element name v a c m) id e fits =
    (_, refl, header_id-text (id_child (element name v a c m)) id e fits)
parse_header_node-id atoi (other name v m) id e fits = cc
parse_header_node-id atoi overrun id e fits = cc

answered_id-message :
    (ns : Ns) (h : Header) (child : Xml) → answered_id ns (message ns (some h) child) ≡ h.id
unfolding create_header_node append_child sibling_with_name same_header
answered_id-message ns h child =
    ap (λ n. node_value (id_child n)) (get_header_node-message ns h child)

-- How an answer can end: without a document, with a fault of the program, or at the end of the fuel,
-- for methods that can end so, and else with a document that has the property
abbrev pub is_silent : Rpc → Bool
is_silent inform_response = true
is_silent transfer_complete_response = true
is_silent get_parameter_names = true
is_silent other_method = true
is_silent _ = false

abbrev pub may_fault : Rpc → Bool
may_fault get_parameter_names = true
may_fault get_parameter_values = true
may_fault set_parameter_values = true
may_fault upload = true
may_fault add_object = true
may_fault delete_object = true
may_fault _ = false

abbrev pub searches : Rpc → Bool
searches get_parameter_names = true
searches add_object = true
searches delete_object = true
searches _ = false

abbrev pub Ends : {S : Type 0} → Rpc → (Xml → Type 0) → Answered S → Type 0
Ends rpc P (sent d s) = P d
Ends rpc P (nothing s) = is_silent rpc ≡ true
Ends rpc P fault = may_fault rpc ≡ true
Ends rpc P no_fuel = searches rpc ≡ true

-- The names of the elements in the body of a response
abbrev pub response_name : Rpc → Name
response_name get_rpc_methods = codes "cwmp:GetRPCMethodsResponse"
response_name get_parameter_names = codes "cwmp:GetParameterNamesResponse"
response_name get_parameter_values = codes "cwmp:GetParameterValuesResponse"
response_name set_parameter_values = codes "cwmp:SetParameterValuesResponse"
response_name download = codes "cwmp:DownloadResponse"
response_name reboot = codes "cwmp:RebootResponse"
response_name add_object = codes "cwmp:AddObjectResponse"
response_name delete_object = codes "cwmp:DeleteObjectResponse"
response_name factory_reset = codes "cwmp:FactoryResetResponse"
response_name _ = []

abbrev pub may_refuse : Rpc → Bool
may_refuse set_parameter_values = true
may_refuse add_object = true
may_refuse delete_object = true
may_refuse _ = false

-- A message in the envelope of the prefixes, with the header, that holds the response to the method, or
-- a fault for methods that are refused with one
abbrev pub IsResponse : Ns → Option Header → Rpc → Xml → Type 0
IsResponse ns header rpc doc =
    (name : Name) × (child : Xml) × (doc ≡ message ns header (branch name child))
    × ((name ≡ response_name rpc) ⊎ ((may_refuse rpc ≡ true) × (name ≡ ns.fault)))

module _ {S : Type 0} (k : Site S) where
  names_answer-IsResponse :
      (h : Option Header) (s : S) (o : Names)
      → Ends get_parameter_names (IsResponse (k.ns) h get_parameter_names) (names_answer k h s o)
  unfolding create_getparameternames_response_message
  names_answer-IsResponse h s (Names.names none) = refl
  names_answer-IsResponse h s (Names.names (some es)) = (_, _, refl, inl refl)
  names_answer-IsResponse h s Names.fault = refl
  names_answer-IsResponse h s Names.no_fuel = refl

  values_answer-IsResponse :
      (h : Option Header) (o : Option (List Parameter × S))
      → Ends get_parameter_values (IsResponse (k.ns) h get_parameter_values) (values_answer k h o)
  unfolding create_getparametervalues_response_message
  values_answer-IsResponse h none = refl
  values_answer-IsResponse h (some r) = (_, _, refl, inl refl)

  set_answer-IsResponse :
      (h : Option Header) (o : Option (SetResponse × S))
      → Ends set_parameter_values (IsResponse (k.ns) h set_parameter_values) (set_answer k h o)
  unfolding create_setparametervalues_response_message
      create_faultcode_setparametervalues_response_message
  set_answer-IsResponse h none = refl
  set_answer-IsResponse h (some (SetResponse.status n, s)) = (_, _, refl, inl refl)
  set_answer-IsResponse h (some (SetResponse.faults c ps, s)) = (_, _, refl, inr (refl, refl))

  addition-IsResponse :
      (h : Option Header) (o : ObjectsOf.Outcome S)
      → IsAddition o
      → Ends add_object (IsResponse (k.ns) h add_object) (object_answer k h o)
  unfolding create_addobject_response_message create_faultcode_response_message
  addition-IsResponse h (ObjectsOf.Outcome.replied (Reply.added n status) s) a =
      (_, _, refl, inl refl)
  addition-IsResponse h (ObjectsOf.Outcome.replied (Reply.deleted status) s) a = absurd a
  addition-IsResponse h (ObjectsOf.Outcome.replied (Reply.refused c) s) a =
      (_, _, refl, inr (refl, refl))
  addition-IsResponse h ObjectsOf.Outcome.fault a = refl
  addition-IsResponse h ObjectsOf.Outcome.no_fuel a = refl

  deletion-IsResponse :
      (h : Option Header) (o : ObjectsOf.Outcome S)
      → IsDeletion o
      → Ends delete_object (IsResponse (k.ns) h delete_object) (object_answer k h o)
  unfolding create_deleteobject_response_message create_faultcode_response_message
  deletion-IsResponse h (ObjectsOf.Outcome.replied (Reply.added n status) s) a = absurd a
  deletion-IsResponse h (ObjectsOf.Outcome.replied (Reply.deleted status) s) a =
      (_, _, refl, inl refl)
  deletion-IsResponse h (ObjectsOf.Outcome.replied (Reply.refused c) s) a =
      (_, _, refl, inr (refl, refl))
  deletion-IsResponse h ObjectsOf.Outcome.fault a = refl
  deletion-IsResponse h ObjectsOf.Outcome.no_fuel a = refl

  -- Every answer ends in a way that its method can end, and what is sent is a message with the header of
  -- the request around the response to its method, or around a fault where the method can be refused.
  pub answer_document-IsResponse :
      (fuel : ℕ) (rpc : Rpc) (doc : Xml) (s : S)
      → Ends rpc (IsResponse (k.ns) (header_of k doc) rpc) (answer_document k fuel rpc doc s)
  unfolding answer_document create_getrpcmethods_response_message create_download_response_message
      create_reboot_response_message create_factoryreset_response_message
  answer_document-IsResponse fuel get_rpc_methods doc s = (_, _, refl, inl refl)
  answer_document-IsResponse fuel inform_response doc s = refl
  answer_document-IsResponse fuel get_parameter_names doc s =
      names_answer-IsResponse (header_of k doc) s _
  answer_document-IsResponse fuel get_parameter_values doc s =
      values_answer-IsResponse (header_of k doc) _
  answer_document-IsResponse fuel set_parameter_values doc s =
      set_answer-IsResponse (header_of k doc) _
  answer_document-IsResponse fuel download doc s = (_, _, refl, inl refl)
  answer_document-IsResponse fuel upload doc s = refl
  answer_document-IsResponse fuel transfer_complete_response doc s = refl
  answer_document-IsResponse fuel reboot doc s = (_, _, refl, inl refl)
  answer_document-IsResponse fuel add_object doc s = addition-IsResponse (header_of k doc) _ (
      add_object-IsAddition (k.objects) (k.status) fuel
        (child_text (codes "ObjectName") (get_rpc_method_node (k.ns) doc)) s)
  answer_document-IsResponse fuel delete_object doc s = deletion-IsResponse (header_of k doc) _ (
      delete_object-IsDeletion (k.objects) (k.status) fuel
        (child_text (codes "ObjectName") (get_rpc_method_node (k.ns) doc)) s)
  answer_document-IsResponse fuel factory_reset doc s = (_, _, refl, inl refl)
  answer_document-IsResponse fuel other_method doc s = refl

  Ends-weaken :
      (rpc : Rpc) (P Q : Xml → Type 0) (o : Answered S)
      → ((d : Xml) → P d → Q d)
      → Ends rpc P o
      → Ends rpc Q o
  Ends-weaken rpc P Q (sent d s) f p = f d p
  Ends-weaken rpc P Q (nothing s) f p = p
  Ends-weaken rpc P Q fault f p = p
  Ends-weaken rpc P Q no_fuel f p = p

  IsResponse-echoes :
      (rpc : Rpc) (doc : Xml) (id : Name)
      → asked_id (k.ns) doc ≡ some id
      → length id ≤ 64
      → (d : Xml) → IsResponse (k.ns) (header_of k doc) rpc d
      → answered_id (k.ns) d ≡ some id
  IsResponse-echoes rpc doc id asked fits d (name, child, is, named) =
      let (h, parsed, held) =
        parse_header_node-id (k.atoi) (get_header_node (k.ns) doc) id asked fits in
      ap (answered_id (k.ns)) is
      ∙ ap (λ o. answered_id (k.ns) (message (k.ns) o (branch name child))) parsed
      ∙ answered_id-message (k.ns) h (branch name child)
      ∙ held

  -- A document that answers a request carries the id of that request, if that has at most 64 characters;
  -- only methods that can end without a document do.
  pub answer_document-echoes :
      (fuel : ℕ) (rpc : Rpc) (doc : Xml) (s : S) (id : Name)
      → asked_id (k.ns) doc ≡ some id
      → length id ≤ 64
      → Ends rpc (λ d. answered_id (k.ns) d ≡ some id) (answer_document k fuel rpc doc s)
  answer_document-echoes fuel rpc doc s id asked fits =
      Ends-weaken rpc (IsResponse (k.ns) (header_of k doc) rpc)
        (λ d. answered_id (k.ns) d ≡ some id) (answer_document k fuel rpc doc s)
        (IsResponse-echoes rpc doc id asked fits) (answer_document-IsResponse fuel rpc doc s)

  IsResponse-names :
      (rpc : Rpc) (h : Option Header) (d : Xml)
      → IsDistinct (k.ns)
      → IsResponse (k.ns) h rpc d
      → (name : Name) × (get_rpc_method_name (k.ns) (wrapped d) ≡ some name)
        × ((name ≡ response_name rpc) ⊎ ((may_refuse rpc ≡ true) × (name ≡ k.ns.fault)))
  IsResponse-names rpc h d distinct (name, child, is, named) = (
    name,
    ap (λ x. get_rpc_method_name (k.ns) (wrapped x)) is
        ∙ get_rpc_method_name-message (k.ns) h name child distinct,
    named,
  )

  -- Where the names of the header and of the body differ, the method that is read from a document that
  -- answers a request is the response to the method of the request, or the fault where the method can be
  -- refused.
  pub answer_document-names :
      (fuel : ℕ) (rpc : Rpc) (doc : Xml) (s : S)
      → IsDistinct (k.ns)
      → Ends rpc
          (λ d.
            (name : Name) × (get_rpc_method_name (k.ns) (wrapped d) ≡ some name)
            × ((name ≡ response_name rpc) ⊎ ((may_refuse rpc ≡ true) × (name ≡ k.ns.fault))))
          (answer_document k fuel rpc doc s)
  answer_document-names fuel rpc doc s distinct =
      Ends-weaken rpc (IsResponse (k.ns) (header_of k doc) rpc) _ (answer_document k fuel rpc doc s)
        (λ d. IsResponse-names rpc (header_of k doc) d distinct)
        (answer_document-IsResponse fuel rpc doc s)

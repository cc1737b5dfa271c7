-- ===== src/Doc/Tests.antt =====
-- Runs of the document functions, and the theorems at inputs that meet their hypotheses.
use netcwmp_xo.Base.{◌⊎◌, ℕ, ◌+◌, ◌<◌, ◌%◌, ◌≡◌, refl, inl, true, none, some, [], ◌∷◌, codes, arith}
use netcwmp_xo.Base.Int.{ℤ, pos, negsuc}
use netcwmp_xo.Param.{Name, null}
use netcwmp_xo.Header.{same_header}
use netcwmp_xo.Event.{EventCode, zeroed}
use netcwmp_xo.Event.Inform as EventType
use netcwmp_xo.Values.{Parameter}
use netcwmp_xo.Agent.{reboot}
use netcwmp_xo.Doc.{
  Xml, no_node, element, other, Ns, no_ns, names_of, qualified, set_envelope_ns, sibling_with_name,
  get_rpc_method_name, get_rpc_method_node, wrapped,
}
use netcwmp_xo.Doc.Read.{Header}
use netcwmp_xo.Doc.Build.{branch, strduptrim, trim_start}
use netcwmp_xo.Doc.Build.Rows.{DeviceId, create_inform_message, xsd_string}
use netcwmp_xo.Doc.Build.Fault.{
  create_faultcode_response_message, create_faultcode_setparametervalues_response_message,
  create_transfercomplete_message,
}
use netcwmp_xo.Doc.Found.{IsDistinct}
use netcwmp_xo.Doc.Prefix.{IsNamed, set_envelope_ns-IsDistinct}
use netcwmp_xo.Doc.Rows.{
  IsList, map_rows, event_row, value_row, argument, create_inform_message-lists,
}
use netcwmp_xo.Doc.Echo.{
  asked_id, answered_id, Ends, response_name, may_refuse, answer_document-echoes,
  answer_document-names,
}
use netcwmp_xo.Doc.Answer.{Site, answer_document}
use netcwmp_xo.Doc.Faults.{
  IsPrinted, SaysFault, NamesFaults, SaysTransfer, create_faultcode_responses-SaysFault,
  create_transfercomplete_message-SaysTransfer,
}

-- The names that `cwmp_agent_session` sets
abbrev soap : Ns
soap = names_of (codes "SOAP-ENV") (codes "SOAP-ENC")

-- The last digit of each number
abbrev digit : ℤ → Name
digit (pos n) = (b'0' + n % 10) ∷ []
digit (negsuc n) = b'-' ∷ []

digit-IsPrinted : IsPrinted digit
digit-IsPrinted (pos n) = let small : n % 10 < 10 = omega arith in ground arith
digit-IsPrinted (negsuc n) = refl

soap-IsDistinct : IsDistinct soap
unfolding same_header qualified
soap-IsDistinct = refl

-- A document with a header that holds the id, and one method
abbrev text : Name → Xml
text t = other (codes "#text") (some t) no_node

abbrev request : Name → Name → Xml
request prefix method = wrapped (
    element (codes "SOAP-ENV:Envelope") none []
      (element (qualified prefix (codes "Header")) none []
        (element (codes "cwmp:ID") none [] (text (codes "42")) no_node)
        (element (qualified prefix (codes "Body")) none [] (branch method no_node) no_node))
      no_node)

-- The method of a document with another prefix than that of the agent is not found.
other_prefix : get_rpc_method_name soap (request (codes "soapenv") (codes "cwmp:Reboot")) ≡ none
unfolding get_rpc_method_name sibling_with_name same_header qualified
other_prefix = refl

same_prefix :
    get_rpc_method_name soap (request (codes "soap-env") (codes "cwmp:Reboot"))
    ≡ some (codes "cwmp:Reboot")
unfolding get_rpc_method_name sibling_with_name same_header qualified
same_prefix = refl

-- A device without parameters
abbrev site : Site ℕ
site = record {
  ns = soap;
  atoi = λ t. pos 0;
  itoa = digit;
  parameters = record {
    root = λ s. null;
    array = λ s. [];
    call_get = λ f n name s. record { code = 0; value = none; device = s };
    call_set = λ f n name value s. record { code = 0; device = s };
  };
  objects = record {
    top = λ s. null;
    root = λ s. null;
    parent = λ path s. null;
    call_add = λ f n s. record { code = 0; instance_num = 1; device = s };
    call_del = λ f n i s. record { code = 0; device = s };
  };
  status = 0;
  unset = pos 0;
}

abbrev reboot_request : Xml
reboot_request = request (codes "SOAP-ENV") (codes "cwmp:Reboot")

asked : asked_id soap reboot_request ≡ some (codes "42")
unfolding sibling_with_name same_header qualified
asked = refl

answer_document-echoes_example :
    Ends reboot
      (λ d. answered_id soap d ≡ some (codes "42"))
      (answer_document site 0 reboot reboot_request 0)
answer_document-echoes_example =
    answer_document-echoes site 0 reboot reboot_request 0 (codes "42") asked (omega arith)

answer_document-names_example :
    Ends reboot
      (λ d.
        (name : Name) × (get_rpc_method_name soap (wrapped d) ≡ some name)
        × ((name ≡ response_name reboot) ⊎ ((may_refuse reboot ≡ true) × (name ≡ soap.fault))))
      (answer_document site 0 reboot reboot_request 0)
answer_document-names_example = answer_document-names site 0 reboot reboot_request 0 soap-IsDistinct

set_envelope_ns_runs :
    set_envelope_ns (some (codes "SOAP-ENV")) (some (codes "SOAP-ENC")) no_ns ≡ some soap
unfolding set_envelope_ns same_header qualified
set_envelope_ns_runs = refl

set_envelope_ns-IsDistinct_example : IsNamed soap × IsDistinct soap
set_envelope_ns-IsDistinct_example =
    set_envelope_ns-IsDistinct (some (codes "SOAP-ENV")) (some (codes "SOAP-ENC")) no_ns soap
      (inl refl) (omega arith) (omega arith) set_envelope_ns_runs

-- A prefix of 30 characters leaves no room for what tells the names apart.
abbrev long_prefix : Name
long_prefix = codes "a23456789012345678901234567890"

same_names : qualified long_prefix (codes "Header") ≡ qualified long_prefix (codes "Body")
unfolding qualified
same_names = refl

abbrev rebooted : EventCode
rebooted = record zeroed {
  event = EventType.mreboot;
  code = some "M Reboot";
  command_key = codes "key";
  fault_code = pos 9010;
}

abbrev volume : Parameter
volume = record { name = some (codes "V"); value = some (codes "1"); type = 3; fault_code = 9007 }

abbrev id_only : Header
id_only = record { id = some (codes "1"); hold_requests = pos 0; no_more_requests = pos 0 }

abbrev device_id : DeviceId
device_id = record { manufactorer = none; oui = none; product_class = none; serial_number = none }

create_inform_message-lists_example :
    let doc = wrapped (
      create_inform_message digit soap
        (some id_only)
        device_id
        (rebooted ∷ [])
        (codes "T")
        (pos 1)
        (pos 0)
        (volume ∷ [])) in
    IsList digit soap
      (codes "cwmp:EventStruct")
      (codes "EventCode")
      (codes "CommandKey")
      (map_rows event_row (rebooted ∷ []))
      (argument soap (codes "Event") doc)
    × IsList digit soap
        (codes "cwmp:ParameterValueStruct")
        (codes "Name")
        (codes "Value")
        (map_rows (value_row (λ type. xsd_string)) (volume ∷ []))
        (argument soap (codes "ParameterList") doc)
create_inform_message-lists_example =
    create_inform_message-lists digit soap (some id_only) soap-IsDistinct device_id (rebooted ∷ [])
      (codes "T") (pos 1) (pos 0) (volume ∷ [])
      (refl, (refl, (refl, (refl, (refl, (refl, (refl, tt))))))) ((refl, refl), tt)
      ((refl, refl), tt)

create_faultcode_responses-SaysFault_example :
    let refusal = get_rpc_method_node soap (
      wrapped (
        create_faultcode_setparametervalues_response_message digit soap
          (some id_only)
          (volume ∷ [])
          (pos 9003))) in
    SaysFault digit (pos 9003) refusal
    × NamesFaults digit (volume ∷ []) refusal
    × SaysFault digit (pos 9003) (
        get_rpc_method_node soap
          (wrapped (create_faultcode_response_message digit soap (some id_only) (pos 9003))))
create_faultcode_responses-SaysFault_example =
    create_faultcode_responses-SaysFault digit soap (some id_only) soap-IsDistinct (volume ∷ [])
      (pos 9003) digit-IsPrinted refl ((refl, refl), tt)

create_transfercomplete_message-SaysTransfer_example : SaysTransfer digit rebooted (
    get_rpc_method_node soap
      (wrapped (create_transfercomplete_message digit soap (some id_only) rebooted)))
create_transfercomplete_message-SaysTransfer_example =
    create_transfercomplete_message-SaysTransfer digit soap (some id_only) soap-IsDistinct rebooted
      digit-IsPrinted refl (λ h. refl)

-- What the library stores of a text: the blanks before it are gone, and so is a character that is negative
-- as a signed `char`; behind a LF nothing is kept; there is nothing to begin at in the empty text.
leading_blanks : strduptrim (codes " \t a b ") ≡ some (codes "a b ")
unfolding strduptrim trim_start
leading_blanks = refl

leading_accent : strduptrim (195 ∷ 169 ∷ codes "t") ≡ some (codes "t")
unfolding strduptrim trim_start
leading_accent = refl

leading_line : strduptrim (10 ∷ codes " abc") ≡ some (10 ∷ [])
unfolding strduptrim trim_start
leading_line = refl

no_text : strduptrim [] ≡ none
unfolding strduptrim trim_start
no_text = refl

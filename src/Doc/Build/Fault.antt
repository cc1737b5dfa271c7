-- ===== src/Doc/Build/Fault.antt =====
-- The responses for a fault, and TransferComplete, of netcwmp_xo/libcwmp/src/cwmp.c.
use netcwmp_xo.Base.{
  Bool, false, ◌||◌, Option, none, some, List, [], ◌∷◌, ◌==◌, ◌-◌, leb, get_or, if◌then◌else◌,
  codes,
}
use netcwmp_xo.Base.Int.{ℤ, pos, negsuc}
use netcwmp_xo.Param.{Name}
use netcwmp_xo.Values.{Parameter}
use netcwmp_xo.Event.{EventCode}
use netcwmp_xo.Doc.{Xml, no_node, element, Ns}
use netcwmp_xo.Doc.Read.{Header}
use netcwmp_xo.Doc.Build.{append_child, leaf, branch, node_with, message, times, is_zero}

-- The cases of `cwmp_create_faultcode_response_message` that are faults of the server
unfoldable pub is_server_fault : ℤ → Bool
is_server_fault (pos n) =
    n == 9000
    || n == 9001
    || n == 9002
    || n == 9004
    || n == 9009
    || n == 9010
    || n == 9011
    || n == 9012
    || n == 9013
    || n == 9014
    || n == 9015
    || n == 9016
    || n == 9017
    || n == 9018
    || n == 9019
is_server_fault (negsuc n) = false

-- `FAULT_STR_9000` and those that follow it
abbrev pub fault_texts : List Name
fault_texts =
    codes "Method not supported"
    ∷ codes "Request denied"
    ∷ codes "Internal error"
    ∷ codes "Invalid arguments"
    ∷ codes "Resources exceeded"
    ∷ codes "Invalid parameter name"
    ∷ codes "Invalid parameter type"
    ∷ codes "Invalid parameter value"
    ∷ codes "Attempt to set a non-writable parameter"
    ∷ codes "Notification request rejected"
    ∷ codes "Download failure"
    ∷ codes "Upload failure"
    ∷ codes "File transfer server authentication failure"
    ∷ codes "Unsupported protocol for file transfer"
    ∷ codes "Download failure: unable to join multicast group"
    ∷ codes "Download failure: unable to contact file server"
    ∷ codes "Download failure: unable to access file"
    ∷ codes "Download failure: unable to complete download"
    ∷ codes "Download failure: file corrupted"
    ∷ codes "Download failure: file authentication failure"
    ∷ []

-- `cwmp_get_fault_string`
unfoldable pub get_fault_string : ℤ → Name
get_fault_string (pos n) = if leb 9000 n then get_or fault_texts (n - 9000) [] else []
get_fault_string (negsuc n) = []

abbrev pub fault_kind : ℤ → Name
fault_kind code = if is_server_fault code then codes "Server" else codes "Client"

module _ (itoa : ℤ → Name) where
  -- `FaultCode` and `FaultString`
  abbrev pub code_and_text : ℤ → Xml
  code_and_text code =
      append_child (leaf (codes "FaultCode") (some (itoa code)))
        (leaf (codes "FaultString") (some (get_fault_string code)))

  -- The element of the fault, with the faults of the parameters behind its code; the detail is made
  -- below `newNode`, the last node that was made.
  abbrev pub fault_node : Ns → ℤ → Xml → Xml
  fault_node ns code faults = branch (ns.fault) (
      append_child (leaf (codes "faultcode") (some (fault_kind code))) (
        node_with (codes "faultstring") (some (codes "Client fault")) [] (
          branch (codes "detail")
            (branch (codes "cwmp:Fault") (append_child (code_and_text code) faults)))))

  -- `cwmp_create_faultcode_response_message`
  unfoldable pub create_faultcode_response_message : Ns → Option Header → ℤ → Xml
  create_faultcode_response_message ns header code = message ns header (fault_node ns code no_node)

  -- The loop of `cwmp_create_faultcode_setparametervalues_response_message`
  unfoldable pub set_faults : List Parameter → Xml
  set_faults [] = no_node
  set_faults (p ∷ ps) =
      element (codes "SetParameterValuesFault") none []
        (append_child (leaf (codes "ParameterName") p.name) (code_and_text (pos p.fault_code)))
        (set_faults ps)

  -- `cwmp_create_faultcode_setparametervalues_response_message`
  unfoldable pub create_faultcode_setparametervalues_response_message :
      Ns → Option Header → List Parameter → ℤ → Xml
  create_faultcode_setparametervalues_response_message ns header ps code =
      message ns header (fault_node ns code (set_faults ps))

  -- The `FaultStruct` of `cwmp_create_transfercomplete_message`
  unfoldable pub fault_struct : ℤ → Xml
  fault_struct code =
      if is_zero code then no_node else branch (codes "FaultStruct") (code_and_text code)

  abbrev pub transfer_children : EventCode → Xml
  transfer_children ev =
      append_child
        (append_child (leaf (codes "CommandKey") (some ev.command_key))
          (fault_struct ev.fault_code))
        times

  -- `cwmp_create_transfercomplete_message`
  unfoldable pub create_transfercomplete_message : Ns → Option Header → EventCode → Xml
  create_transfercomplete_message ns header ev =
      message ns header (branch (codes "cwmp:TransferComplete") (transfer_children ev))

-- ===== src/Local/Exchange.antt =====
-- Requests of the agent to another agent: what comes of them, over the socket and back.
use netcwmp_xo.Base.{
  ℕ, ◌≡◌, refl, ap, ◌∙◌, Bool, true, false, none, some, if◌then◌else◌, take, codes,
}
use netcwmp_xo.Base.Int.{pos, negsuc}
use netcwmp_xo.Param.{Name, same_name}
use netcwmp_xo.Header.{same_header}
use netcwmp_xo.Doc.Found.{same_header_self}
use netcwmp_xo.Local.{
  Json, no_item, find_named, get_object_item, Commands, command, list_entry, string_item,
  object_item, Store, get_request, set_request, received_value, received_status, status_of,
  parts_of, com_get_parameter_values, com_set_parameter_values, printed_value, get_entries,
  status_word, set_entries, serve, dispatch, answer_get, answer_set, list_if, status_got, value_got,
}

module _ {S : Type 0} (cmds : Commands) (store : Store S) where
  dispatch-get : (l : Json) (s : S) → dispatch cmds store (cmds.get) l s ≡ answer_get cmds store l s
  dispatch-get l s = rw (same_header_self (cmds.get)) refl

  dispatch-set :
      (l : Json) (s : S)
      → same_header (cmds.set) (cmds.get) ≡ false
      → dispatch cmds store (cmds.set) l s ≡ answer_set cmds store l s
  dispatch-set l s h = rw (h, same_header_self (cmds.set)) refl

  status_of-status_word :
      (b : Bool)
      → status_of cmds (some (status_word cmds store b)) ≡ (if b then pos 0 else negsuc 0)
  unfolding status_of same_name
  status_of-status_word true = refl
  status_of-status_word false = refl

  -- The list in a response is found.
  list_if-command :
      (cmd : Name) (name : Name) (c next : Json)
      → list_if cmds cmd (parts_of cmds (command cmd (list_entry name c next)))
        ≡ some (some (list_entry name c next))
  unfolding parts_of get_object_item find_named same_header
  list_if-command cmd name c next =
      ap (λ b. some (if b then some (list_entry name c next) else none)) (same_header_self cmd)

  -- A request to set a value that is served sets it, and what is sent back is a success for the one
  -- who asked exactly if the value could be set; where the commands to set and to get are not the same.
  pub serve-set_request :
      (name type value : Name) (s : S)
      → same_header (cmds.set) (cmds.get) ≡ false
      → (reply : Json) × (serve cmds store (some (set_request cmds name type value)) s
          ≡ some (record { sent = some reply; after = (store.set_value name value s).1 }))
        × (com_set_parameter_values cmds (some reply)
            ≡ some (if (store.set_value name value s).0 then pos 0 else negsuc 0))
  unfolding serve set_request parts_of get_object_item find_named set_entries
      com_set_parameter_values received_status same_header
  serve-set_request name type value s h = (
    command (cmds.set_response) (
        list_entry name
          (string_item (codes "status") (status_word cmds store (store.set_value name value s).0)
            no_item)
          no_item),
    ap some (
        dispatch-set
          (find_named (codes "ParameterList") (
            string_item (codes "cmd") (cmds.set) (
              object_item (codes "ParameterList")
                (list_entry name
                  (string_item (codes "value") value (string_item (codes "type") type no_item))
                  no_item)
                no_item)))
          s h),
    ap (status_got cmds) (
          list_if-command (cmds.set_response) name
            (string_item (codes "status") (status_word cmds store (store.set_value name value s).0)
              no_item)
            no_item)
        ∙ ap some (status_of-status_word (store.set_value name value s).0),
  )

  -- A request for a value that is served is answered with the value, or with `(null)`, and the one who
  -- asked holds as much of it as there is room for; but the call returns -1.
  serve-get_request :
      (name type held : Name) (len : ℕ) (s : S)
      → (reply : Json) × (serve cmds store (some (get_request cmds name type)) s
          ≡ some (record { sent = some reply; after = (store.get_value name s).1 }))
        × (com_get_parameter_values cmds (some reply) len held
            ≡ some (negsuc 0, take len (printed_value cmds store (store.get_value name s).0)))
  unfolding serve get_request parts_of get_object_item find_named get_entries
      com_get_parameter_values received_value same_header
  serve-get_request name type held len s = (
    command (cmds.get_response) (
        list_entry name
          (string_item (codes "value") (printed_value cmds store (store.get_value name s).0)
            no_item)
          no_item),
    ap some (
        dispatch-get
          (find_named (codes "ParameterList") (
            string_item (codes "cmd") (cmds.get) (
              object_item (codes "ParameterList")
                (list_entry name (string_item (codes "type") type no_item) no_item) no_item)))
          s),
    ap (value_got cmds len held) (
        list_if-command (cmds.get_response) name
          (string_item (codes "value") (printed_value cmds store (store.get_value name s).0)
            no_item)
          no_item),
  )

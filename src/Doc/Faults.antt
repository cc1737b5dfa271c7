-- ===== src/Doc/Faults.antt =====
-- What the responses for a fault and TransferComplete say.
use netcwmp_xo.Base.{
  ℕ, if◌then◌else◌, zero, suc, ◌<◌, ◌-◌, ◌≡◌, refl, sym, ap, Bool, true, false, ◌&&◌, All, get_or,
  length, leb, Option, none, some, List, [], ◌∷◌, codes, Either, subst, ltb, arith,
}
use netcwmp_xo.Base.Int.{ℤ, pos, negsuc}
use netcwmp_xo.Param.{Name, same_name}
use netcwmp_xo.Header.{same_header}
use netcwmp_xo.Event.{EventCode}
use netcwmp_xo.Values.{Parameter}
use netcwmp_xo.Doc.{
  Xml, no_node, element, Ns, attribute, sibling_with_name, get_child_with_name, node_value,
  first_child, get_rpc_method_node, wrapped,
}
use netcwmp_xo.Doc.Read.{Header}
use netcwmp_xo.Doc.Build.{
  append_child, branch, leaf, is_zero, is_clean, is_clean_value, node_with-is_clean,
}
use netcwmp_xo.Doc.Build.Fault.{
  fault_kind, fault_texts, is_server_fault, code_and_text, get_fault_string, fault_node, set_faults,
  fault_struct, create_faultcode_response_message,
  create_faultcode_setparametervalues_response_message, create_transfercomplete_message,
  transfer_children,
}
use netcwmp_xo.Doc.Found.{IsDistinct, get_rpc_method_node-message}
use netcwmp_xo.Doc.Rows.{Row, row, rows, map_rows}

-- The codes that have a text
abbrev pub is_fault_code : ℤ → Bool
is_fault_code (pos n) = leb 9000 n && ltb n 9020
is_fault_code (negsuc n) = false

get_or-All :
    {A : Type 0} (P : A → Type 0) (xs : List A) (i : ℕ) (d : A)
    → All P xs
    → i < length xs
    → P (get_or xs i d)
get_or-All P [] i d h l = absurd (omega arith)
get_or-All P (x ∷ xs) zero d (u, h) l = u
get_or-All P (x ∷ xs) (suc i) d (u, h) l = get_or-All P xs i d h (omega arith)

fault_texts-is_clean : All (λ t. is_clean t ≡ true) fault_texts
fault_texts-is_clean = (
  refl,
  (
    refl,
    (
      refl,
      (
        refl,
        (
          refl,
          (
            refl,
            (
              refl,
              (
                refl,
                (
                  refl,
                  (
                    refl,
                    (
                      refl,
                      (refl, (refl, (refl, (refl, (refl, (refl, (refl, (refl, (refl, tt))))))))),
                    ),
                  ),
                ),
              ),
            ),
          ),
        ),
      ),
    ),
  ),
)

get_fault_string-is_clean :
    (code : ℤ) → is_fault_code code ≡ true → is_clean (get_fault_string code) ≡ true
unfolding get_fault_string
get_fault_string-is_clean (pos n) h =
    let low : leb 9000 n ≡ true = ground arith in
    let high : n - 9000 < 20 = ground arith in
    rw low (get_or-All (λ t. is_clean t ≡ true) fault_texts (n - 9000) [] fault_texts-is_clean high)
get_fault_string-is_clean (negsuc n) h = cc

fault_kind-is_clean : (code : ℤ) → is_clean (fault_kind code) ≡ true
fault_kind-is_clean code =
    elim (is_server_fault code)
      as (λ b. is_clean (if b then codes "Server" else codes "Client") ≡ true) [
        | true ↦ refl
        | false ↦ refl
      ]

leaf-is_clean :
    (name s : Name)
    → is_clean s ≡ true
    → leaf name (some s) ≡ element name (some s) [] no_node no_node
leaf-is_clean name s h = node_with-is_clean name (some s) [] no_node h

module _ (itoa : ℤ → Name) where
  -- What is printed for an `int` begins with a digit or the sign, and is short.
  abbrev pub IsPrinted : Type 0
  IsPrinted = (code : ℤ) → is_clean (itoa code) ≡ true

  -- The name of a parameter is stored as it is, and its code has a text.
  abbrev pub IsRefused : Parameter → Type 0
  IsRefused p = (is_clean_value p.name ≡ true) × (is_fault_code (pos p.fault_code) ≡ true)

  -- A parameter of a refused SetParameterValues, with the code and its text, which no type is given
  abbrev pub fault_row : Parameter → Row
  fault_row p = row (codes "SetParameterValuesFault") p.name (some (itoa (pos p.fault_code))) none

  rows-set_faults :
      (ps : List Parameter)
      → IsPrinted
      → All IsRefused ps
      → rows (codes "ParameterName") (codes "FaultCode") (set_faults itoa ps)
        ≡ map_rows fault_row ps
  unfolding rows set_faults append_child sibling_with_name attribute same_header same_name
  rows-set_faults [] printed h = refl
  rows-set_faults (p ∷ ps) printed ((named, coded), h) =
      rw
        (
          node_with-is_clean (codes "ParameterName") p.name [] no_node named,
          leaf-is_clean (codes "FaultCode") (itoa (pos p.fault_code)) (printed (pos p.fault_code)),
        )
        (ap (◌∷◌ (fault_row p)) (rows-set_faults ps printed h))

  -- The element `cwmp:Fault` below a fault
  abbrev pub fault_detail : Xml → Xml
  fault_detail f =
      get_child_with_name (codes "cwmp:Fault")
        (get_child_with_name (codes "detail") (get_child_with_name (codes "faultstring") f))

  -- A fault says whose it is; its code and the text of that stand in `detail`, which is below
  -- `faultstring` and not beside it.
  abbrev pub SaysFault : ℤ → Xml → Type 0
  SaysFault code f =
      (node_value (get_child_with_name (codes "faultcode") f) ≡ some (fault_kind code))
      × (get_child_with_name (codes "detail") f ≡ no_node)
      × (node_value (get_child_with_name (codes "FaultCode") (fault_detail f)) ≡ some (itoa code))
      × (node_value (get_child_with_name (codes "FaultString") (fault_detail f))
          ≡ some (get_fault_string code))

  abbrev detail : Ns → ℤ → Xml → Xml
  detail ns code faults =
      branch (codes "detail")
        (branch (codes "cwmp:Fault") (append_child (code_and_text itoa code) faults))

  fault_node-SaysFault :
      (ns : Ns) (code : ℤ) (faults : Xml)
      → IsPrinted
      → is_fault_code code ≡ true
      → SaysFault code (fault_node itoa ns code faults)
  unfolding append_child sibling_with_name same_header
  fault_node-SaysFault ns code faults printed coded =
      rw
        (
          leaf-is_clean (codes "faultcode") (fault_kind code) (fault_kind-is_clean code),
          node_with-is_clean (codes "faultstring") (some (codes "Client fault")) []
              (detail ns code faults) refl,
          leaf-is_clean (codes "FaultCode") (itoa code) (printed code),
          leaf-is_clean (codes "FaultString") (get_fault_string code)
              (get_fault_string-is_clean code coded),
        )
        (refl, refl, refl, refl)

  -- Behind the code and the text of the fault each parameter of the list is named with its own code.
  abbrev pub NamesFaults : List Parameter → Xml → Type 0
  NamesFaults ps f =
      rows (codes "ParameterName") (codes "FaultCode") (first_child (fault_detail f))
      ≡ row (codes "FaultCode") none none none
        ∷ row (codes "FaultString") none none none
        ∷ map_rows fault_row ps

  fault_node-NamesFaults :
      (ns : Ns) (code : ℤ) (ps : List Parameter)
      → IsPrinted
      → is_fault_code code ≡ true
      → All IsRefused ps
      → NamesFaults ps (fault_node itoa ns code (set_faults itoa ps))
  unfolding append_child sibling_with_name same_header rows attribute
  fault_node-NamesFaults ns code ps printed coded h =
      rw
        (
          leaf-is_clean (codes "faultcode") (fault_kind code) (fault_kind-is_clean code),
          node_with-is_clean (codes "faultstring") (some (codes "Client fault")) []
              (detail ns code (set_faults itoa ps)) refl,
          leaf-is_clean (codes "FaultCode") (itoa code) (printed code),
          leaf-is_clean (codes "FaultString") (get_fault_string code)
              (get_fault_string-is_clean code coded),
        )
        (ap
          (λ rs.
            row (codes "FaultCode") none none none ∷ row (codes "FaultString") none none none ∷ rs)
          (rows-set_faults ps printed h))

  -- The command key, and a fault if the code is not 0
  abbrev pub SaysTransfer : EventCode → Xml → Type 0
  SaysTransfer ev n =
      (node_value (get_child_with_name (codes "CommandKey") n) ≡ some ev.command_key)
      × Either (is_zero ev.fault_code) (get_child_with_name (codes "FaultStruct") n ≡ no_node) (
          (node_value (
              get_child_with_name (codes "FaultCode") (get_child_with_name (codes "FaultStruct") n))
            ≡ some (itoa ev.fault_code))
          × (node_value (
                get_child_with_name (codes "FaultString")
                  (get_child_with_name (codes "FaultStruct") n))
              ≡ some (get_fault_string ev.fault_code)))

  transfer_part :
      (ev : EventCode) (b : Bool)
      → is_zero ev.fault_code ≡ b
      → IsPrinted
      → is_clean ev.command_key ≡ true
      → (b ≡ false → is_fault_code ev.fault_code ≡ true)
      → SaysTransfer ev (branch (codes "cwmp:TransferComplete") (transfer_children itoa ev))
  unfolding fault_struct append_child sibling_with_name same_header
  transfer_part ev true z printed key coded =
      rw
        (
          z,
          leaf-is_clean (codes "CommandKey") ev.command_key key,
          node_with-is_clean (codes "StartTime") none [] no_node refl,
          node_with-is_clean (codes "CompleteTime") none [] no_node refl,
        )
        (refl, refl)
  transfer_part ev false z printed key coded =
      rw
        (
          z,
          leaf-is_clean (codes "CommandKey") ev.command_key key,
          leaf-is_clean (codes "FaultCode") (itoa ev.fault_code) (printed ev.fault_code),
          leaf-is_clean (codes "FaultString") (get_fault_string ev.fault_code)
              (get_fault_string-is_clean ev.fault_code (coded refl)),
        )
        (refl, (refl, refl))

  module _ (ns : Ns) (header : Option Header) (distinct : IsDistinct ns) where
    -- The response to a refused SetParameterValues says the fault, and names each parameter of the list
    -- with its own code; the response for another fault says the fault. What is printed for an `int` is
    -- stored as it is, the codes of the fault and of each parameter of the list are 9000 to 9019, and the
    -- name of each parameter is NULL or is stored as it is: its first character is above the blank and
    -- below 128, and it has at most 1023.
    pub create_faultcode_responses-SaysFault :
        (ps : List Parameter) (code : ℤ)
        → IsPrinted
        → is_fault_code code ≡ true
        → All IsRefused ps
        → let refusal = get_rpc_method_node ns (
            wrapped
              (create_faultcode_setparametervalues_response_message itoa ns header ps code)) in
          SaysFault code refusal
          × NamesFaults ps refusal
          × SaysFault code (
              get_rpc_method_node ns
                (wrapped (create_faultcode_response_message itoa ns header code)))
    unfolding create_faultcode_response_message create_faultcode_setparametervalues_response_message
    create_faultcode_responses-SaysFault ps code printed coded refused =
        let at = λ (child : Xml). sym (get_rpc_method_node-message ns header child distinct) in
        (
          subst (SaysFault code) (at _)
              (fault_node-SaysFault ns code (set_faults itoa ps) printed coded),
          subst (NamesFaults ps) (at _) (fault_node-NamesFaults ns code ps printed coded refused),
          subst (SaysFault code) (at _) (fault_node-SaysFault ns code no_node printed coded),
        )

    -- TransferComplete says the command key, and says a fault with its code and text if the code of the
    -- event is not 0, and else none. What is printed for an `int` and the command key are stored as they
    -- are: the key is not empty, has at most 1023 characters, and begins with one above the blank and below
    -- 128. A code that is not 0 is 9000 to 9019.
    pub create_transfercomplete_message-SaysTransfer :
        (ev : EventCode)
        → IsPrinted
        → is_clean ev.command_key ≡ true
        → (is_zero ev.fault_code ≡ false → is_fault_code ev.fault_code ≡ true)
        → SaysTransfer ev
            (get_rpc_method_node ns (wrapped (create_transfercomplete_message itoa ns header ev)))
    unfolding create_transfercomplete_message
    create_transfercomplete_message-SaysTransfer ev printed key coded =
        subst (SaysTransfer ev) (sym (get_rpc_method_node-message ns header _ distinct))
          (transfer_part ev (is_zero ev.fault_code) refl printed key coded)

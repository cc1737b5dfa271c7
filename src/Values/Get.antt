-- ===== src/Values/Get.antt =====
-- The list of values of `cwmp_parse_getparametervalues_message`,
-- netcwmp_xo/libcwmp/src/cwmp.c, compared with the names of the call.
use netcwmp_xo.Base.{
  ◌+◌, ◌≤◌, ◌<◌, ◌≡◌, refl, ap, ◌∙◌, inl, inr, true, false, Bool-cases, Option, none, some,
  Option-cases, List, [], ◌∷◌, ◌++◌, append_assoc, ◌==◌, leb, if◌then◌else◌, append-nil, sym, ap₂,
  subst, length, length-append, All, arith, cwmp_ok, cwmp_error,
}
use netcwmp_xo.Param.{Name, Info, Node}
use netcwmp_xo.Values.{
  fault_code_ok, fault_code_9003, Parameter, Device, Parsed, get_parameter_node, append, read_value,
  got, get_values, listed, get_parameter_values,
}

-- The names of the parameters of a list
abbrev pub names_of : List Parameter → List (Option Name)
names_of [] = []
names_of (p ∷ list) = p.name ∷ names_of list

names_of-append :
    (list more : List Parameter) → names_of (list ++ more) ≡ names_of list ++ names_of more
names_of-append [] more = refl
names_of-append (p ∷ list) more = ap (◌∷◌ p.name) (names_of-append list more)

pub append-fits :
    (list : List Parameter) (p : Parameter)
    → length list < 31
    → append list p ≡ some (list ++ p ∷ [])
unfolding append
append-fits list p h = ground arith

append-overrun : (list : List Parameter) (p : Parameter) → 31 ≤ length list → append list p ≡ none
unfolding append
append-overrun list p h = ground arith

get_values-end :
    {S : Type 0} (d : Device S) (list : List Parameter) (s : S)
    → get_values d [] list s ≡ some (record { rc = cwmp_ok; fault = none; list = list; device = s })
unfolding get_values
get_values-end d list s = refl

module _ {S : Type 0} (d : Device S) (name : Option Name) (names : List (Option Name))
    (list : List Parameter) (s : S) where
  get_values-missing :
      get_parameter_node (d.array s) (d.root s) name ≡ none
      → get_values d (name ∷ names) list s
        ≡ some (record { rc = cwmp_error; fault = some fault_code_9003; list = list; device = s })
  unfolding get_values
  get_values-missing h = rw (get_values, h) refl

  get_values-refused :
      (f : Info × Node)
      → get_parameter_node (d.array s) (d.root s) name ≡ some f
      → ((read_value d name f.0 f.1 s).code == fault_code_ok) ≡ false
      → get_values d (name ∷ names) list s
        ≡ some (record {
          rc = cwmp_error;
          fault = some ((read_value d name f.0 f.1 s).code);
          list = list;
          device = (read_value d name f.0 f.1 s).device;
        })
  unfolding get_values
  get_values-refused f h c = rw (get_values, h, c) refl

  get_values-full :
      (f : Info × Node)
      → get_parameter_node (d.array s) (d.root s) name ≡ some f
      → ((read_value d name f.0 f.1 s).code == fault_code_ok) ≡ true
      → 31 ≤ length list
      → get_values d (name ∷ names) list s ≡ none
  unfolding get_values
  get_values-full f h c l =
      rw
        (
          get_values,
          h,
          c,
          append-overrun list (got d name f.0 ((read_value d name f.0 f.1 s).value)) l,
        )
        refl

  get_values-longer :
      (f : Info × Node)
      → get_parameter_node (d.array s) (d.root s) name ≡ some f
      → ((read_value d name f.0 f.1 s).code == fault_code_ok) ≡ true
      → length list < 31
      → get_values d (name ∷ names) list s
        ≡ get_values d names
            (list ++ got d name f.0 ((read_value d name f.0 f.1 s).value) ∷ [])
            ((read_value d name f.0 f.1 s).device)
  unfolding get_values
  get_values-longer f h c l =
      rw
        (
          get_values,
          h,
          c,
          append-fits list (got d name f.0 ((read_value d name f.0 f.1 s).value)) l,
        )
        refl

-- `taken` are the first of `names`.
abbrev pub IsPrefix : List (Option Name) → List (Option Name) → Type 0
IsPrefix taken names = (rest : List (Option Name)) × (taken ++ rest ≡ names)

module _ {S : Type 0} (d : Device S) where
  -- The values of the names one after the other, up to the first that has no node or is not read, and
  -- the device behind the reads
  abbrev pub read_behind :
      Option Name → Info × Node → (S → List Parameter × S) → S → List Parameter × S
  read_behind name f rest s =
      let r = read_value d name f.0 f.1 s in
      if r.code == fault_code_ok
      then (got d name f.0 (r.value) ∷ (rest r.device).0, (rest r.device).1)
      else ([], r.device)

  unfoldable pub readings : List (Option Name) → S → List Parameter × S
  readings [] s = ([], s)
  readings (name ∷ names) s = elim (get_parameter_node (d.array s) (d.root s) name) [
    | none ↦ ([], s)
    | some f ↦ read_behind name f (readings names) s
  ]

  readings-missing :
      (name : Option Name) (names : List (Option Name)) (s : S)
      → get_parameter_node (d.array s) (d.root s) name ≡ none
      → readings (name ∷ names) s ≡ ([], s)
  unfolding readings
  readings-missing name names s h = rw (readings, h) refl

  readings-read :
      (name : Option Name) (names : List (Option Name)) (s : S) (f : Info × Node)
      → get_parameter_node (d.array s) (d.root s) name ≡ some f
      → ((read_value d name f.0 f.1 s).code == fault_code_ok) ≡ true
      → readings (name ∷ names) s ≡ (
        got d name f.0 ((read_value d name f.0 f.1 s).value)
            ∷ (readings names ((read_value d name f.0 f.1 s).device)).0,
        (readings names ((read_value d name f.0 f.1 s).device)).1,
      )
  unfolding readings
  readings-read name names s f h c = rw (readings, h, c) refl

  readings-refused :
      (name : Option Name) (names : List (Option Name)) (s : S) (f : Info × Node)
      → get_parameter_node (d.array s) (d.root s) name ≡ some f
      → ((read_value d name f.0 f.1 s).code == fault_code_ok) ≡ false
      → readings (name ∷ names) s ≡ ([], (read_value d name f.0 f.1 s).device)
  unfolding readings
  readings-refused name names s f h c = rw (readings, h, c) refl

  -- What the loop leaves, for the names that are left and the list so far
  abbrev Leaves : List (Option Name) → List Parameter → S → Option (Parsed S) → Type 0
  Leaves names list s o =
      (r : Parsed S) × (o ≡ some r)
      × IsPrefix (names_of (r.list)) (names_of list ++ names)
      × (r.list ≡ list ++ (readings names s).0)
      × (r.device ≡ (readings names s).1)

  get_values-Leaves :
      (names : List (Option Name)) (list : List Parameter) (s : S)
      → length list + length names ≤ 31
      → Leaves names list s (get_values d names list s)
  unfolding readings
  get_values-Leaves [] list s h = (
    record { rc = cwmp_ok; fault = none; list = list; device = s },
    get_values-end d list s,
    ([], refl),
    sym (append-nil list),
    refl,
  )
  get_values-Leaves (name ∷ names) list s h =
      elim (Option-cases (get_parameter_node (d.array s) (d.root s) name)) [
        | inl missing ↦ (
          record { rc = cwmp_error; fault = some fault_code_9003; list = list; device = s },
          get_values-missing d name names list s missing,
          (name ∷ names, refl),
          sym (append-nil list)
              ∙ ap (λ v. list ++ v.0) (sym (readings-missing name names s missing)),
          ap (λ v. v.1) (sym (readings-missing name names s missing)),
        )
        | inr (f, found) ↦ elim (Bool-cases ((read_value d name f.0 f.1 s).code == fault_code_ok)) [
          | inl read ↦
              let p = got d name f.0 ((read_value d name f.0 f.1 s).value) in
              let at = sym (readings-read name names s f found read) in
              let (r, e, (rest, q), l, t) =
                get_values-Leaves names (list ++ p ∷ []) ((read_value d name f.0 f.1 s).device)
                  (omega (arith, length-append list (p ∷ []))) in
              (
                r,
                get_values-longer d name names list s f found read (omega arith) ∙ e,
                (
                  rest,
                  q
                      ∙ ap (λ x. x ++ names) (names_of-append list (p ∷ []))
                      ∙ append_assoc (names_of list) (name ∷ []) names,
                ),
                l
                    ∙ append_assoc list (p ∷ [])
                        ((readings names ((read_value d name f.0 f.1 s).device)).0)
                    ∙ ap (λ v. list ++ v.0) at,
                t ∙ ap (λ v. v.1) at,
              )
          | inr refused ↦ (
            record {
              rc = cwmp_error;
              fault = some ((read_value d name f.0 f.1 s).code);
              list = list;
              device = (read_value d name f.0 f.1 s).device;
            },
            get_values-refused d name names list s f found refused,
            (name ∷ names, refl),
            sym (append-nil list)
                ∙ ap (λ v. list ++ v.0) (sym (readings-refused name names s f found refused)),
            ap (λ v. v.1) (sym (readings-refused name names s f found refused)),
          )
        ]
      ]

  -- For at most 31 names, the handler of GetParameterValues answers with the values of the names one
  -- after the other, up to the first that has no node or is not read, and leaves the device behind these
  -- reads; the parameters of its response are the first of the names of the call, in their order.
  pub get_parameter_values-IsPrefix :
      (names : List (Option Name)) (s : S)
      → length names ≤ 31
      → (get_parameter_values d (some names) s ≡ some (readings names s))
        × IsPrefix (names_of (readings names s).0) names
  unfolding get_parameter_values
  get_parameter_values-IsPrefix names s h =
      let (r, e, p, l, t) = get_values-Leaves names [] s (omega arith) in
      (ap (listed d) e ∙ ap₂ (λ x y. some (x, y)) l t, subst (λ x. IsPrefix (names_of x) names) l p)

  -- A name whose node is found and read without a fault, whatever the device has done so far
  abbrev pub IsReadable : Option Name → Type 0
  IsReadable name =
      (s : S)
      → (f : Info × Node) × (get_parameter_node (d.array s) (d.root s) name ≡ some f)
        × (((read_value d name f.0 f.1 s).code == fault_code_ok) ≡ true)

  get_values-overrun :
      (names : List (Option Name)) (list : List Parameter) (s : S)
      → All IsReadable names
      → length list ≤ 31
      → 31 < length list + length names
      → get_values d names list s ≡ none
  get_values-overrun [] list s a h k = absurd (omega arith)
  get_values-overrun (name ∷ names) list s (x, a) h k =
      let (f, found, read) = x s in
      let p = got d name f.0 ((read_value d name f.0 f.1 s).value) in
      elim (Bool-cases (leb 31 (length list))) [
        | inl full ↦ get_values-full d name names list s f found read (ground arith)
        | inr room ↦
            get_values-longer d name names list s f found read (ground arith)
            ∙ get_values-overrun names (list ++ p ∷ []) ((read_value d name f.0 f.1 s).device) a
                (ground (arith, length-append list (p ∷ [])))
                (omega (arith, length-append list (p ∷ [])))
      ]

  -- A call of GetParameterValues for more than 31 names, each of which is found and read without a
  -- fault, writes to memory that was given back to the pool.
  get_parameter_values-overrun :
      (names : List (Option Name)) (s : S)
      → All IsReadable names
      → 31 < length names
      → get_parameter_values d (some names) s ≡ none
  unfolding get_parameter_values
  get_parameter_values-overrun names s a h =
      ap (listed d) (get_values-overrun names [] s a (omega arith) (omega arith))

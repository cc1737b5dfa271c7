-- ===== src/Values/Set.antt =====
-- The faults of `cwmp_parse_setparametervalues_message`, netcwmp_xo/libcwmp/src/cwmp.c, and the
-- response of its handler.
use netcwmp_xo.Base.{
  ℕ, ◌+◌, ◌≤◌, ◌<◌, ◌≡◌, refl, sym, ap, ap₂, subst, ◌∙◌, ◌⊎◌, inl, inr, Bool, true, false, ◌&&◌,
  Option, none, some, Option-cases, List, [], ◌∷◌, ◌++◌, append-nil, append_assoc, ◌==◌,
  if◌then◌else◌, length, length-append, arith, Rc, cwmp_ok, cwmp_error,
}
use netcwmp_xo.Param.{Name, Info, Node}
use netcwmp_xo.Values.{
  fault_code_ok, fault_code_9003, Parameter, Device, Parsed, Assignment, SetResponse, status,
  faults, named_below, get_parameter_node, write_value, was_set, set_values, response_of, answered,
  no_parameters, set_parameter_values,
}
use netcwmp_xo.Values.Get.{append-fits}

-- No parameter of the list has a fault.
abbrev pub all_ok : List Parameter → Bool
all_ok [] = true
all_ok (p ∷ list) = p.fault_code == 0 && all_ok list

abbrev rc_for : Bool → Rc
rc_for ok = if ok then cwmp_ok else cwmp_error

abbrev fault_for : Bool → Option ℕ
fault_for ok = if ok then none else some fault_code_9003

-- The response for a list
abbrev pub reply_for : Bool → List Parameter → SetResponse
reply_for ok list = if ok then status 0 else faults (some fault_code_9003) list

-- The parameters are some of the assignments, in their order.
abbrev pub Among : List Parameter → List Assignment → Type 0
Among [] more = Unit {0}
Among (p ∷ list) [] = ⊥
Among (p ∷ list) (a ∷ more) =
    ((p.name ≡ a.name) × (p.value ≡ a.value) × Among list more) ⊎ Among (p ∷ list) more

Among-skip :
    (list : List Parameter) (a : Assignment) (more : List Assignment)
    → Among list more
    → Among list (a ∷ more)
Among-skip [] a more h = tt
Among-skip (p ∷ list) a more h = inr h

&&_assoc : (a b c : Bool) → (a && (b && c)) ≡ ((a && b) && c)
&&_assoc true b c = refl
&&_assoc false b c = refl

all_ok-append :
    (list : List Parameter) (p : Parameter)
    → all_ok (list ++ p ∷ []) ≡ (all_ok list && (p.fault_code == 0))
all_ok-append [] p = and_true (p.fault_code == 0)
  where
    and_true : (b : Bool) → (b && true) ≡ b
    and_true true = refl
    and_true false = refl
all_ok-append (q ∷ list) p =
    ap (λ b. q.fault_code == 0 && b) (all_ok-append list p)
    ∙ &&_assoc (q.fault_code == 0) (all_ok list) (p.fault_code == 0)

rc_for-step : (b c : Bool) → (if c then rc_for b else cwmp_error) ≡ rc_for (b && c)
rc_for-step true true = refl
rc_for-step true false = refl
rc_for-step false true = refl
rc_for-step false false = refl

fault_for-step :
    (b c : Bool) → (if c then fault_for b else some fault_code_9003) ≡ fault_for (b && c)
fault_for-step true true = refl
fault_for-step true false = refl
fault_for-step false true = refl
fault_for-step false false = refl

-- The code returned and the fault code are those for the list.
abbrev IsSound : {S : Type 0} → Parsed S → Type 0
IsSound r = (r.rc ≡ rc_for (all_ok r.list)) × (r.fault ≡ fault_for (all_ok r.list))

module _ {S : Type 0} (d : Device S) where
  -- What the assignments whose name has a node set, one after the other, each with the code of its
  -- write, and the device behind the writes
  abbrev pub set_behind :
      Assignment → Info × Node → (S → List Parameter × S) → S → List Parameter × S
  set_behind a f rest s =
      let w = write_value d f.0 f.1 a s in
      (was_set d f.0 a (w.code) ∷ (rest w.device).0, (rest w.device).1)

  unfoldable pub settings : List Assignment → S → List Parameter × S
  settings [] s = ([], s)
  settings (a ∷ more) s = elim (get_parameter_node (d.array s) (d.root s) (a.name)) [
    | none ↦ settings more s
    | some f ↦ set_behind a f (settings more) s
  ]

  settings-missing :
      (a : Assignment) (more : List Assignment) (s : S)
      → get_parameter_node (d.array s) (d.root s) (a.name) ≡ none
      → settings (a ∷ more) s ≡ settings more s
  unfolding settings
  settings-missing a more s h = rw (settings, h) refl

  settings-set :
      (a : Assignment) (more : List Assignment) (s : S) (f : Info × Node)
      → get_parameter_node (d.array s) (d.root s) (a.name) ≡ some f
      → settings (a ∷ more) s ≡ set_behind a f (settings more) s
  unfolding settings
  settings-set a more s f h = rw (settings, h) refl

  -- What the loop leaves after it has set one parameter
  abbrev after : Assignment → Parsed S → Info × Node → Parsed S
  after a r f =
      let w = write_value d f.0 f.1 a (r.device) in
      record {
        rc = if w.code == fault_code_ok then r.rc else cwmp_error;
        fault = if w.code == fault_code_ok then r.fault else some fault_code_9003;
        list = r.list ++ was_set d f.0 a (w.code) ∷ [];
        device = w.device;
      }

  set_values-skipped :
      (a : Assignment) (more : List Assignment) (r : Parsed S)
      → get_parameter_node (d.array (r.device)) (d.root (r.device)) (a.name) ≡ none
      → set_values d (a ∷ more) r ≡ set_values d more r
  unfolding set_values
  set_values-skipped a more r h = rw (set_values, h) refl

  set_values-longer :
      (a : Assignment) (more : List Assignment) (r : Parsed S) (f : Info × Node)
      → get_parameter_node (d.array (r.device)) (d.root (r.device)) (a.name) ≡ some f
      → length (r.list) < 31
      → set_values d (a ∷ more) r ≡ set_values d more (after a r f)
  unfolding set_values
  set_values-longer a more r f h l =
      rw
        (
          set_values,
          h,
          append-fits (r.list) (was_set d f.0 a ((write_value d f.0 f.1 a (r.device)).code)) l,
        )
        refl

  after-IsSound :
      (a : Assignment) (r : Parsed S) (f : Info × Node) → IsSound r → IsSound (after a r f)
  after-IsSound a r f (u, v) =
      let w = write_value d f.0 f.1 a (r.device) in
      let q = all_ok-append (r.list) (was_set d f.0 a (w.code)) in
      let b = all_ok (r.list) in
      let c = w.code == fault_code_ok in
      (
        ap (λ x. if c then x else cwmp_error) u ∙ rc_for-step b c ∙ ap rc_for (sym q),
        ap (λ x. if c then x else some fault_code_9003) v
            ∙ fault_for-step b c
            ∙ ap fault_for (sym q),
      )

  -- What the loop leaves, for the assignments that are left
  abbrev Leaves : List Assignment → Parsed S → Option (Parsed S) → Type 0
  Leaves more r o =
      (q : Parsed S) × (o ≡ some q)
      × IsSound q
      × (q.list ≡ r.list ++ (settings more r.device).0)
      × (q.device ≡ (settings more r.device).1)

  set_values-Leaves :
      (more : List Assignment) (r : Parsed S)
      → length (r.list) + length more ≤ 31
      → IsSound r
      → Leaves more r (set_values d more r)
  unfolding set_values settings
  set_values-Leaves [] r h k = (r, refl, k, sym (append-nil (r.list)), refl)
  set_values-Leaves (a ∷ more) r h k =
      elim (Option-cases (get_parameter_node (d.array (r.device)) (d.root (r.device)) (a.name))) [
        | inl missing ↦
            let (q, e, sound, l, t) = set_values-Leaves more r (omega arith) k in
            let at = sym (settings-missing a more (r.device) missing) in
            (
              q,
              set_values-skipped a more r missing ∙ e,
              sound,
              l ∙ ap (λ v. r.list ++ v.0) at,
              t ∙ ap (λ v. v.1) at,
            )
        | inr (f, found) ↦
            let w = write_value d f.0 f.1 a (r.device) in
            let p = was_set d f.0 a (w.code) in
            let (q, e, sound, l, t) =
              set_values-Leaves more (after a r f) (omega (arith, length-append (r.list) (p ∷ [])))
                (after-IsSound a r f k) in
            let at = sym (settings-set a more (r.device) f found) in
            (
              q,
              set_values-longer a more r f found (omega arith) ∙ e,
              sound,
              l
                  ∙ append_assoc (r.list) (p ∷ []) ((settings more (w.device)).0)
                  ∙ ap (λ v. r.list ++ v.0) at,
              t ∙ ap (λ v. v.1) at,
            )
      ]

  -- What is set are some of the assignments, in their order.
  settings-Among : (more : List Assignment) (s : S) → Among (settings more s).0 more
  unfolding settings
  settings-Among [] s = tt
  settings-Among (a ∷ more) s =
      elim (Option-cases (get_parameter_node (d.array s) (d.root s) (a.name))) [
        | inl missing ↦
            subst (λ v. Among v.0 (a ∷ more)) (sym (settings-missing a more s missing))
              (Among-skip (settings more s).0 a more (settings-Among more s))
        | inr (f, found) ↦
            subst (λ v. Among v.0 (a ∷ more)) (sym (settings-set a more s f found))
              (inl (refl, refl, settings-Among more ((write_value d f.0 f.1 a s).device)))
      ]

  response_of_sound :
      (q : Parsed S) → IsSound q → response_of d (q.rc) q ≡ reply_for (all_ok (q.list)) (q.list)
  response_of_sound q (u, v) = go (all_ok (q.list)) u v
    where
      go :
          (b : Bool)
          → q.rc ≡ rc_for b
          → q.fault ≡ fault_for b
          → response_of d (q.rc) q ≡ reply_for b (q.list)
      go true u v = rw u refl
      go false u v = rw (u, v) refl

  -- For at most 31 assignments the handler of SetParameterValues sets every parameter whose name has a
  -- node, one after the other, which are some of the assignments in their order, and leaves the device
  -- behind these writes; it answers with the status 0 exactly if none of them has a fault, and with the
  -- fault 9003 and these parameters with their codes otherwise.
  pub set_parameter_values-replies :
      (assignments : List Assignment) (s : S)
      → length assignments ≤ 31
      → (set_parameter_values d (some assignments) s
          ≡ some (
            reply_for (all_ok (settings assignments s).0) (settings assignments s).0,
            (settings assignments s).1,
          ))
        × Among (settings assignments s).0 assignments
  unfolding set_parameter_values
  set_parameter_values-replies assignments s h =
      let (q, e, sound, l, t) =
        set_values-Leaves assignments (no_parameters d s) (omega arith) (refl, refl) in
      (
        ap (answered d) e
            ∙ ap (λ x. some (x, q.device)) (response_of_sound q sound)
            ∙ ap₂ (λ z u. some (reply_for (all_ok z) z, u)) l t,
        settings-Among assignments s,
      )

  unmatched :
      (r : Parsed S) (name : Option Name)
      → named_below (d.array (r.device)) (d.root (r.device)) ≡ none
      → get_parameter_node (d.array (r.device)) (d.root (r.device)) name ≡ none
  unfolding get_parameter_node
  unmatched r none h = refl
  unmatched r (some n) h = h

  set_values-unmatched :
      (more : List Assignment) (r : Parsed S)
      → named_below (d.array (r.device)) (d.root (r.device)) ≡ none
      → set_values d more r ≡ some r
  unfolding set_values
  set_values-unmatched [] r h = refl
  set_values-unmatched (a ∷ more) r h =
      set_values-skipped a more r (unmatched r (a.name) h) ∙ set_values-unmatched more r h

  -- When the array of `cwmp_get_parameter_node` holds no name of a node, every call of
  -- SetParameterValues is answered with the status 0 and changes nothing.
  set_parameter_values-unmatched :
      (assignments : List Assignment) (s : S)
      → named_below (d.array s) (d.root s) ≡ none
      → set_parameter_values d (some assignments) s ≡ some (status 0, s)
  unfolding set_parameter_values
  set_parameter_values-unmatched assignments s h =
      ap (answered d) (set_values-unmatched assignments (no_parameters d s) h)

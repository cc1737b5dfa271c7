-- ===== src/Httpd/Granted.antt =====
-- Who gets the answer 200 of the server for connection requests, and what it does to the events.
use netcwmp_xo.Base.{
  ℕ, ◌<◌, ◌≤◌, ◌≡◌, refl, sym, ap, ◌∙◌, subst, ◌⊎◌, inl, inr, Bool, true, false, Bool-cases, Option,
  none, some, ◌==◌, if◌then◌else◌, length, arith, codes,
}
use netcwmp_xo.Base.Int.{pos}
use netcwmp_xo.Param.{Name}
use netcwmp_xo.Header.{same_header, get_variable}
use netcwmp_xo.Event.Inform as Inform
use netcwmp_xo.Event.Slots.{IsValid, waits, set_value-waits}
use netcwmp_xo.Digest.{Fields, check_digest_auth, valid_response}
use netcwmp_xo.Digest.Check.{IsSendable, credentials, check_digest_auth-accepts}
use netcwmp_xo.Request.{Asked, Method, http_get}
use netcwmp_xo.Httpd.{
  Server, ClientAnswer, Handlers, response_200, serve_client, grant, granted_if, with_auth,
  connection_request, by_method, response_unauthorization, response_unknown_error,
}

-- Nothing of the agent changes.
abbrev pub Keeps : Server → ClientAnswer → Type 0
Keeps s a = (a.server.new_request ≡ s.new_request) × (a.server.el ≡ s.el)

some_both : {A : Type 0} {x y : A} → some x ≡ some y → x ≡ y
some_both e = cc

Keeps-answer : (s : Server) (b a : ClientAnswer) → some b ≡ some a → Keeps s b → Keeps s a
Keeps-answer s b a e k = subst (λ z. Keeps s z) (some_both e) k

module _ (md5 to_hex : Name → Name) (itoa : ℕ → Name) (h : Handlers) where
  -- The request carries a header that the digest is accepted of, or none is wanted.
  abbrev pub IsAuthorized : Asked → Server → Type 0
  IsAuthorized r s =
      (s.cpe_auth ≡ false)
      ⊎ ((auth : Name) × (get_variable (r.headers) (codes "Authorization") ≡ some auth)
          × (check_digest_auth md5 to_hex (some auth) (s.user) (s.password) ≡ some true))

  granted_if-Keeps :
      (b : Option Bool) (s : Server) (a : ClientAnswer)
      → granted_if md5 to_hex itoa h b s ≡ some a
      → Keeps s a ⊎ (b ≡ some true)
  unfolding response_unauthorization
  granted_if-Keeps none s a e = cc
  granted_if-Keeps (some false) s a e =
      inl (Keeps-answer s (response_unauthorization md5 to_hex itoa h s) a e (refl, refl))
  granted_if-Keeps (some true) s a e = inr refl

  with_auth-Keeps :
      (o : Option Name) (s : Server) (a : ClientAnswer)
      → with_auth md5 to_hex itoa h o s ≡ some a
      → Keeps s a
        ⊎ ((auth : Name) × (o ≡ some auth)
            × (check_digest_auth md5 to_hex (some auth) (s.user) (s.password) ≡ some true))
  unfolding response_unauthorization
  with_auth-Keeps none s a e =
      inl (Keeps-answer s (response_unauthorization md5 to_hex itoa h s) a e (refl, refl))
  with_auth-Keeps (some auth) s a e =
      elim (granted_if-Keeps (check_digest_auth md5 to_hex (some auth) (s.user) (s.password)) s a
        e) [ inl k ↦ inl k | inr c ↦ inr (auth, refl, c) ]

  connection_request-Keeps :
      (r : Asked) (s : Server) (a : ClientAnswer)
      → connection_request md5 to_hex itoa h r s ≡ some a
      → Keeps s a ⊎ IsAuthorized r s
  connection_request-Keeps r s a e = elim (Bool-cases (s.cpe_auth)) [
    | inl wanted ↦
        elim (with_auth-Keeps (get_variable (r.headers) (codes "Authorization")) s a
          (at_true wanted)) [ inl k ↦ inl k | inr c ↦ inr (inr c) ]
    | inr free ↦ inr (inl free)
  ]
    where
      at_true :
          s.cpe_auth ≡ true
          → with_auth md5 to_hex itoa h (get_variable (r.headers) (codes "Authorization")) s
            ≡ some a
      at_true w =
          sym (
            ap
              (λ b.
                if b
                then with_auth md5 to_hex itoa h (get_variable (r.headers) (codes "Authorization"))
                    s
                else some (grant md5 to_hex itoa h s))
              w)
          ∙ e

  by_method-Keeps :
      (m : Method) (r : Asked) (s : Server) (a : ClientAnswer)
      → by_method md5 to_hex itoa h m r s ≡ some a
      → Keeps s a ⊎ ((m ≡ http_get) × IsAuthorized r s)
  by_method-Keeps http_get r s a e = elim (connection_request-Keeps r s a e) [
    | inl k ↦ inl k
    | inr c ↦ inr (refl, c)
  ]
  by_method-Keeps _ r s a e =
      inl (Keeps-answer s (response_unknown_error md5 to_hex itoa h s) a e (refl, refl))

  serve_client-root :
      (r : Asked) (s : Server)
      → same_header (codes "/") (r.uri) ≡ true
      → serve_client md5 to_hex itoa h (some r) s ≡ by_method md5 to_hex itoa h (r.method) r s
  unfolding serve_client
  serve_client-root r s root = rw (serve_client, root) refl

  serve_client-elsewhere :
      (r : Asked) (s : Server)
      → same_header (codes "/") (r.uri) ≡ false
      → same_header (codes "/cwmp") (r.uri) ≡ false
      → serve_client md5 to_hex itoa h (some r) s ≡ some (record { text = none; server = s })
  unfolding serve_client
  serve_client-elsewhere r s root other = rw (serve_client, root, other) refl

  connection_request-wanted :
      (r : Asked) (s : Server) (auth : Name)
      → get_variable (r.headers) (codes "Authorization") ≡ some auth
      → check_digest_auth md5 to_hex (some auth) (s.user) (s.password) ≡ some true
      → connection_request md5 to_hex itoa h r s ≡ some (grant md5 to_hex itoa h s)
  connection_request-wanted r s auth given c =
      let authorization = get_variable (r.headers) (codes "Authorization") in
      let w =
        ap (λ o. with_auth md5 to_hex itoa h o s) given
        ∙ ap (λ b. granted_if md5 to_hex itoa h b s) c in
      let at_flag = λ (b : Bool).
        if b
        then with_auth md5 to_hex itoa h authorization s
        else some (grant md5 to_hex itoa h s) in
      elim (Bool-cases (s.cpe_auth)) [
        | inl wanted ↦ ap at_flag wanted ∙ w
        | inr free ↦ ap at_flag free
      ]

  -- Outside the address `/cwmp`, an answer changes nothing of the agent if it is not one to a GET for
  -- `/` that carries an accepted digest, where one is wanted.
  pub serve_client-IsAuthorized :
      (r : Asked) (s : Server) (a : ClientAnswer)
      → same_header (codes "/cwmp") (r.uri) ≡ false
      → serve_client md5 to_hex itoa h (some r) s ≡ some a
      → Keeps s a
        ⊎ ((same_header (codes "/") (r.uri) ≡ true) × (r.method ≡ http_get) × IsAuthorized r s)
  unfolding serve_client
  serve_client-IsAuthorized r s a other e = elim (Bool-cases (same_header (codes "/") (r.uri))) [
    | inl root ↦ elim (by_method-Keeps (r.method) r s a (sym (serve_client-root r s root) ∙ e)) [
      | inl k ↦ inl k
      | inr c ↦ inr (root, c.0, c.1)
    ]
    | inr elsewhere ↦ inl (
        Keeps-answer s (record { text = none; server = s }) a
          (sym (serve_client-elsewhere r s elsewhere other) ∙ e) (refl, refl))
  ]

  -- A GET for `/` with the header that a client makes of the name, the password and other fields, as
  -- `check_digest_auth-accepts` has it, is answered 200; a session is asked for, and the event of a
  -- connection request waits, where the list of events is valid and has a slot left.
  pub serve_client-grants :
      (r : Asked) (s : Server) (f : Fields)
      → same_header (codes "/") (r.uri) ≡ true
      → r.method ≡ http_get
      → get_variable (r.headers) (codes "Authorization") ≡ some (credentials f)
      → IsSendable f
      → length (credentials f) ≤ 511
      → f.user ≡ s.user
      → f.response ≡ valid_response md5 to_hex (f.user) (s.password) f
      → IsValid (s.el)
      → s.el.count < s.el.size
      → (t : Server) × (serve_client md5 to_hex itoa h (some r) s
          ≡ some (record { text = some response_200; server = t }))
        × (t.new_request ≡ true)
        × ((j : ℕ) → waits j t.el ≡ (if j == Inform.connectionrequest then true else waits j s.el))
  unfolding serve_client grant
  serve_client-grants r s f root get auth sendable short user response v k = (
    (grant md5 to_hex itoa h s).server,
    serve_client-root r s root
        ∙ ap (λ m. by_method md5 to_hex itoa h m r s) get
        ∙ connection_request-wanted r s (credentials f) auth (
            subst
              (λ u. check_digest_auth md5 to_hex (some (credentials f)) u (s.password) ≡ some true)
              user (check_digest_auth-accepts md5 to_hex f (s.password) sendable short response)),
    refl,
    λ j.
        set_value-waits (pos 1) none (pos 0) 0 0 Inform.connectionrequest j (s.el) v (omega arith) k
          refl,
  )

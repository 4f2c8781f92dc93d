-- ===== src/Server/Handlers/Asking/Guards.antt =====
-- What a request for a token must have, and what it leaves.
use padlock_cloud.Prelude.{
  ◌≡◌, refl, sym, ap, ◌∙◌, inl, inr, ◌⊎◌, Bool, true, false, not, ◌&&◌, Bool-cases, Option, List,
  [], ◌∷◌, ◌++◌, Text, codes, text_eq, text_eq_path, if◌then◌else◌,
}
use padlock_cloud.Errors.{
  Result, ok, err, failure, response, err_not_found, err_unregistered_storable, err_storage_closed,
  other,
}
use padlock_cloud.Auth.{Time, Account, AuthRequest, is_empty}
use padlock_cloud.Auth.Requests.{request_key}
use padlock_cloud.Whitelist.{Whitelist}
use padlock_cloud.Server.{
  Request, ServerConfig, accounts, requests, data_stores, Store, next, next-ok, chain, lift-ok,
  lifted, pure, pure-ok,
}
use padlock_cloud.Server.Handlers.{Write, send}
use padlock_cloud.Server.Handlers.Asking.{
  Outside, Auth, token_type, preauthenticated, allowed, check_form, either_there, check_exists,
  compose, ask_limiter, send_email, new_request, request_auth_token,
}

one_of : (a b : Bool) → (not a && not b) ≡ false → (a ≡ true) ⊎ (b ≡ true)
one_of true b h = inl refl
one_of false true h = inr refl
one_of false false h = absurd (cc (h))

not-false : (b : Bool) → not b ≡ false → b ≡ true
not-false true h = refl
not-false false h = absurd (cc (h))

either_there-ok :
    (email : Text) (a : Result Account) (d : Result Text)
    → either_there email a d ≡ ok tt
    → ((x : Account) × (a ≡ ok x)) ⊎ ((x : Text) × (d ≡ ok x))
either_there-ok email (ok a) d h = inl (a, refl)
either_there-ok email (err (failure err_not_found)) (ok d) h = inr (d, refl)
either_there-ok email (err (failure err_not_found)) (err (failure err_not_found)) h =
    absurd (cc (h))
either_there-ok email (err (failure err_not_found)) (err (failure err_unregistered_storable)) h =
    absurd (cc (h))
either_there-ok email (err (failure err_not_found)) (err (failure err_storage_closed)) h =
    absurd (cc (h))
either_there-ok email (err (failure err_not_found)) (err (failure (other m))) h = absurd (cc (h))
either_there-ok email (err (failure err_not_found)) (err (response e)) h = absurd (cc (h))
either_there-ok email (err (failure err_unregistered_storable)) d h = absurd (cc (h))
either_there-ok email (err (failure err_storage_closed)) d h = absurd (cc (h))
either_there-ok email (err (failure (other m))) d h = absurd (cc (h))
either_there-ok email (err (response e)) d h = absurd (cc (h))

module _ {S : Type 0} (st : Store S) (outside : Outside S) (whitelist : Option Whitelist)
    (config : ServerConfig) where
  check_form-ok :
      (r : Request)
      → check_form st outside whitelist config r ≡ ok tt
      → (is_empty (r.form (codes "email")) ≡ false)
        × (allowed whitelist (r.form (codes "email")) ≡ true)
        × ((token_type r ≡ codes "api") ⊎ (token_type r ≡ codes "web"))
  unfolding check_form
  check_form-ok r h = elim (Bool-cases (is_empty (r.form (codes "email")))) [
    | inl a ↦ absurd (cc (h, a))
    | inr a ↦ elim (Bool-cases (not (allowed whitelist (r.form (codes "email"))))) [
      | inl b ↦ absurd (cc (h, a, b))
      | inr b ↦
          elim (Bool-cases (
            not (text_eq (token_type r) (codes "api"))
            && not (text_eq (token_type r) (codes "web")))) [
              | inl c ↦ absurd (cc (h, a, b, c))
              | inr c ↦ (
                a,
                not-false (allowed whitelist (r.form (codes "email"))) b,
                elim (one_of (text_eq (token_type r) (codes "api"))
                    (text_eq (token_type r) (codes "web")) c) [
                      | inl e ↦ inl (text_eq_path (token_type r) (codes "api") e)
                      | inr e ↦ inr (text_eq_path (token_type r) (codes "web") e)
                    ],
              )
            ]
    ]
  ]

  -- Whether there is an account, or data, for the request's email.
  abbrev pub IsThere : Request → S → Type 0
  IsThere r s =
      ((a : Account) × (st.load accounts (r.form (codes "email")) s ≡ ok a))
      ⊎ ((d : Text) × (st.load data_stores (r.form (codes "email")) s ≡ ok d))

  check_exists-ok :
      (r : Request) (s : S)
      → (if text_eq r.method (codes "POST")
          then ok tt
          else check_exists st outside whitelist config (r.form (codes "email")) s)
        ≡ ok tt
      → (text_eq r.method (codes "POST") ≡ true) ⊎ IsThere r s
  unfolding check_exists
  check_exists-ok r s h = elim (Bool-cases (text_eq r.method (codes "POST"))) [
    | inl e ↦ inl e
    | inr e ↦ inr (
        either_there-ok (r.form (codes "email")) (st.load accounts (r.form (codes "email")) s)
          (st.load data_stores (r.form (codes "email")) s) (sym (rw e refl) ∙ h))
  ]

  -- Whether a response begins with an email to the address of the request.
  abbrev pub IsSent : Request → List Write → Type 0
  IsSent r ws =
      (subject : Text) × (message : Text) × (rest : List Write) × (ws
        ≡ send (r.form (codes "email")) subject message ∷ rest)

  pub record IsAsked (now : Time) (r : Request) (auth : Auth) (s : S) (ws : List Write)
      : Type 0 where
    pub named : is_empty (r.form (codes "email")) ≡ false
    pub listed : allowed whitelist (r.form (codes "email")) ≡ true
    pub typed : (token_type r ≡ codes "api") ⊎ (token_type r ≡ codes "web")
    pub there : (text_eq r.method (codes "POST") ≡ true) ⊎ IsThere r s
    pub request : AuthRequest
    pub made : new_request st outside whitelist config now r ≡ ok request
    pub after : S
    pub saved :
        st.save requests
          (request_key (record request { redirect = r.form (codes "redirect") }))
          (record request { redirect = r.form (codes "redirect") })
          s
        ≡ (ok tt, after)
    pub sent : (preauthenticated r auth ≡ true) ⊎ IsSent r ws

  send_email-IsSent :
      (r : Request) (ar : AuthRequest) (subject : Text) (s : S) (sent rest : List Write) (s' : S)
      → send_email st outside whitelist config r ar subject s ≡ (ok sent, s')
      → IsSent r (sent ++ rest)
  unfolding send_email
  send_email-IsSent r ar subject s sent rest s' h =
      elim (next-ok _ (ask_limiter st outside whitelist config r s) sent s' h) [
        | chain u s₁ e k ↦
            let link = outside.base_url r ++ (codes "/a/?t=" ++ ar.token) in
            elim (lift-ok _ (outside.activation_email link ar.auth_token ar.code) s₁ sent s' k) [
              | lifted message q l ↦
                  let (v, w) =
                    pure-ok (send (r.form (codes "email")) subject message ∷ []) sent s₁ s' l in
                  (subject, message, rest, ap (λ (x : List Write). x ++ rest) (sym v))
            ]
      ]

  -- The last steps, for a client that is authenticated or not.
  finish-IsSent :
      (r : Request) (auth : Auth) (ar : AuthRequest) (subject : Text) (rest ws : List Write)
      (s s' : S)
      → next
          (λ sent. pure (sent ++ rest))
          ((if preauthenticated r auth
              then pure []
              else send_email st outside whitelist config r ar subject)
            s)
        ≡ (ok ws, s')
      → (preauthenticated r auth ≡ true) ⊎ IsSent r ws
  finish-IsSent r auth ar subject rest ws s s' h = elim (Bool-cases (preauthenticated r auth)) [
    | inl e ↦ inl e
    | inr e ↦
        elim (next-ok _ (send_email st outside whitelist config r ar subject s) ws s'
          (sym (rw e refl) ∙ h)) [
            | chain sent s₁ q k ↦
                let (v, w) = pure-ok (sent ++ rest) ws s₁ s' k in
                let (a, b, c, d) = send_email-IsSent r ar subject s sent rest s₁ q in
                inr (a, b, c, sym v ∙ d)
          ]
  ]

  -- A request for a token that is answered without an error names an email, one that the whitelist has
  -- if there is a whitelist, and asks for an "api" or a "web" token; where it is no POST request, the
  -- storage has an account or data for that email. A new activation request, made for that email, is
  -- saved; and an email is sent to that address, unless the client is already authenticated for it.
  pub request_auth_token-IsAsked :
      (now : Time) (r : Request) (auth : Auth) (s : S) (ws : List Write) (s' : S)
      → request_auth_token st outside whitelist config now r auth s ≡ (ok ws, s')
      → IsAsked now r auth s ws
  unfolding request_auth_token
  request_auth_token-IsAsked now r auth s ws s' h =
      let email = r.form (codes "email") in
      let check = check_form st outside whitelist config r in
      let exists : Result (Unit {0}) =
        if text_eq r.method (codes "POST")
        then ok tt
        else check_exists st outside whitelist config email s in
      elim (lift-ok _ check s ws s' h) [
        | lifted u e₁ h₁ ↦ elim (lift-ok _ exists s ws s' h₁) [
          | lifted u₂ e₂ h₂ ↦
              elim (lift-ok _ (new_request st outside whitelist config now r) s ws s' h₂) [
                | lifted made e₃ h₃ ↦
                    let ar : AuthRequest = record made { redirect = r.form (codes "redirect") } in
                    elim (next-ok _ (st.save requests (request_key ar) ar s) ws s' h₃) [
                      | chain u₃ s₁ e₄ h₄ ↦
                          elim (lift-ok _
                            (compose st outside whitelist config r (preauthenticated r auth) ar) s₁
                            ws s' h₄) [
                              | lifted parts e₅ h₅ ↦
                                  let (named, listed, typed) = check_form-ok r e₁ in
                                  record {
                                    named = named;
                                    listed = listed;
                                    typed = typed;
                                    there = check_exists-ok r s e₂;
                                    request = made;
                                    made = e₃;
                                    after = s₁;
                                    saved = e₄;
                                    sent = finish-IsSent r auth ar parts.1 parts.0 ws s₁ s' h₅;
                                  }
                            ]
                    ]
              ]
        ]
      ]

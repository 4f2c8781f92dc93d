-- ===== src/Server/Endpoints/Guards.antt =====
-- What a request must have for an endpoint's handler to run.
use padlock_cloud.Prelude.{
  ◌≡◌, ◌⊎◌, refl, sym, ap, ◌∙◌, inl, inr, true, false, not, ◌||◌, Option, some, is_some, List, Text,
  codes, text_eq,
}
use padlock_cloud.Errors.{Result, ok, err}
use padlock_cloud.Auth.{Time, AuthToken, Account, is_empty}
use padlock_cloud.Server.{Request, ServerConfig, Store}
use padlock_cloud.Server.Authenticate.{authenticate}
use padlock_cloud.Server.Handlers.{Write}
use padlock_cloud.Server.Endpoints.{
  Auth, Handler, Endpoint, Parts, answered, wrap_error, if_some, check_method, endpoint_handle,
  wrap_csrf, check_version, right_type, let_in, wrap_authenticate, wrap_endpoint,
}
use padlock_cloud.Server.Endpoints.Rights.{
  IsRightType, authorized, IsProtected, IsBarred, IsAllowed, fits_version, IsCurrent, IsOutdated,
  authorized-cases, authorized-barred, version-cases,
}
use padlock_cloud.Server.Endpoints.Wraps.{
  and_true, let_in-refused, wrap_csrf-granted, check_version-fits, let_in-outdated, same_answer,
}

module _ {S : Type 0} (parts : Parts S) where
  module _ (st : Store S) (decode : Text → Option Text) (config : ServerConfig) (now : Time) where
    -- Two endpoints of a version and a type answer a request alike if they do so behind `Authenticate`.
    wrap_endpoint-same :
        (e e' : Endpoint S) (r : Request) (auth : Auth) (s : S)
        → e.version ≡ e'.version
        → e.auth_type ≡ e'.auth_type
        → is_empty e.auth_type ≡ false
        → is_some (e.handlers r.method) ≡ is_some (e'.handlers r.method)
        → let x = authenticate st decode config now r s in
          let k = λ (f : Endpoint S).
            check_version parts e.version (wrap_csrf parts (endpoint_handle f)) in
          let_in parts e.auth_type (k e) r (x.0, x.1) ≡ let_in parts e.auth_type (k e') r (x.0, x.1)
          → wrap_endpoint parts st decode config now e r auth s
            ≡ wrap_endpoint parts st decode config now e' r auth s
    unfolding wrap_endpoint wrap_error check_method wrap_authenticate
    wrap_endpoint-same e e' r auth s v t n m p =
        let h =
          wrap_authenticate parts st decode config now e.auth_type
            (check_version parts e.version (wrap_csrf parts (endpoint_handle e))) in
        let h' =
          wrap_authenticate parts st decode config now e.auth_type
            (check_version parts e.version (wrap_csrf parts (endpoint_handle e'))) in
        let q : if_some (e.handlers r.method) h r auth s
            ≡ if_some (e'.handlers r.method) h' r auth s =
          same_answer parts (e.handlers r.method) (e'.handlers r.method) h h' r auth s m p in
        rw (sym v, sym t, n) (ap (λ (x : Result (List Write) × S). answered parts r x) q)

    -- At an endpoint that wants authentication, what its handlers do makes no difference to the response
    -- and to the storage for a request that `Authenticate` does not let in; or lets in with a token that
    -- has neither the endpoint's type nor the type "skeleton", unless the endpoint's type is "universal";
    -- or lets in with a web token while it fails the CSRF protection. Two endpoints with the same version
    -- and type, and with or without a handler for the request's method alike, answer it alike.
    pub wrap_endpoint-refused :
        (e e' : Endpoint S) (r : Request) (auth : Auth) (s : S)
        → e.version ≡ e'.version
        → e.auth_type ≡ e'.auth_type
        → is_empty e.auth_type ≡ false
        → is_some (e.handlers r.method) ≡ is_some (e'.handlers r.method)
        → IsBarred parts e.auth_type r (authenticate st decode config now r s).0
        → wrap_endpoint parts st decode config now e r auth s
          ≡ wrap_endpoint parts st decode config now e' r auth s
    wrap_endpoint-refused e e' r auth s v t n m b =
        let x = authenticate st decode config now r s in
        wrap_endpoint-same e e' r auth s v t n m (
          let_in-refused parts e.auth_type e.version (endpoint_handle e) (endpoint_handle e') r x.0
            x.1 n (authorized-barred parts e.auth_type r x.0 n b))

    wrap_endpoint-outdated :
        (e e' : Endpoint S) (r : Request) (auth : Auth) (s : S)
        → e.version ≡ e'.version
        → e.auth_type ≡ e'.auth_type
        → is_empty e.auth_type ≡ false
        → is_some (e.handlers r.method) ≡ is_some (e'.handlers r.method)
        → fits_version parts e.version r ≡ false
        → wrap_endpoint parts st decode config now e r auth s
          ≡ wrap_endpoint parts st decode config now e' r auth s
    wrap_endpoint-outdated e e' r auth s v t n m f =
        let x = authenticate st decode config now r s in
        wrap_endpoint-same e e' r auth s v t n m (
          let_in-outdated parts e.auth_type e.version (wrap_csrf parts (endpoint_handle e))
            (wrap_csrf parts (endpoint_handle e')) r x.0 x.1 n f)

    wrap_endpoint-granted :
        (e : Endpoint S) (h : Handler S) (r : Request) (auth : Auth) (s s' : S) (t : AuthToken)
        (acc : Account)
        → is_empty e.auth_type ≡ false
        → e.handlers r.method ≡ some h
        → authenticate st decode config now r s ≡ (ok (t, acc), s')
        → authorized parts e.auth_type r (ok (t, acc)) ≡ true
        → fits_version parts e.version r ≡ true
        → wrap_endpoint parts st decode config now e r auth s
          ≡ answered parts r (h r (some (t, acc)) s')
    unfolding wrap_endpoint wrap_error check_method wrap_authenticate endpoint_handle authorized
    wrap_endpoint-granted e h r auth s s' t acc n m a g f =
        let (p, c) =
          and_true (right_type e.auth_type t)
            (not (text_eq t.type (codes "web")) || not (is_some (parts.csrf_failure r))) g in
        let q =
          check_version-fits parts e.version (wrap_csrf parts (endpoint_handle e)) r (some (t, acc))
            s' f
          ∙ wrap_csrf-granted parts (endpoint_handle e) r t acc s' c in
        let called : endpoint_handle e r (some (t, acc)) s' ≡ h r (some (t, acc)) s' = rw m refl in
        rw (n, m, a, p) (ap (λ (x : Result (List Write) × S). answered parts r x) (q ∙ called))

    -- A request that may reach the handlers of an endpoint, with what `Authenticate` gives and leaves.
    pub record IsGranted (e : Endpoint S) (r : Request) (s : S) (t : AuthToken) (acc : Account)
        (s' : S) : Type 0 where
      pub authentic : authenticate st decode config now r s ≡ (ok (t, acc), s')
      pub right : IsRightType e.auth_type t
      pub guarded : IsProtected parts r t
      pub current : IsCurrent parts e.version r

    IsGranted-if :
        (e : Endpoint S) (r : Request) (s : S) (x : Result (AuthToken × Account)) (s' : S)
        → authenticate st decode config now r s ≡ (x, s')
        → IsAllowed parts e.auth_type r x
        → authorized parts e.auth_type r x ≡ true
        → IsCurrent parts e.version r
        → (t : AuthToken) × (acc : Account) × IsGranted e r s t acc s'
          × (authorized parts e.auth_type r (ok (t, acc)) ≡ true)
    IsGranted-if e r s (err x) s' a p f c = absurd p
    IsGranted-if e r s (ok (t, acc)) s' a p f c =
        (t, acc, record { authentic = a; right = p.0; guarded = p.1; current = c }, f)

    -- Take two endpoints of a version and a type that wants authentication, and a request for whose
    -- method both have a handler. Either `Authenticate` lets the request in with a token of the endpoint's
    -- type or a skeleton token (any token if the type is "universal"), which is no web token or passes the
    -- CSRF protection, and the request has no "ApiKey" in its Authorization header and has the endpoints'
    -- version, if that is not 0: then each endpoint answers with its handler's answer for that token and
    -- the storage that `Authenticate` has left, an error as its error response. Or one of these conditions
    -- fails, and the two answer the request alike, whatever their handlers do.
    pub wrap_endpoint_lem :
        (e e' : Endpoint S) (h h' : Handler S) (r : Request) (auth : Auth) (s : S)
        → e.version ≡ e'.version
        → e.auth_type ≡ e'.auth_type
        → is_empty e.auth_type ≡ false
        → e.handlers r.method ≡ some h
        → e'.handlers r.method ≡ some h'
        → ((t : AuthToken) × (acc : Account) × (s' : S) × IsGranted e r s t acc s'
            × (wrap_endpoint parts st decode config now e r auth s
                ≡ answered parts r (h r (some (t, acc)) s'))
            × (wrap_endpoint parts st decode config now e' r auth s
                ≡ answered parts r (h' r (some (t, acc)) s')))
          ⊎ (IsBarred parts e.auth_type r (authenticate st decode config now r s).0
              ⊎ IsOutdated parts e.version r)
            × (wrap_endpoint parts st decode config now e r auth s
                ≡ wrap_endpoint parts st decode config now e' r auth s)
    wrap_endpoint_lem e e' h h' r auth s v t n m m' =
        let x = authenticate st decode config now r s in
        let some_both : is_some (e.handlers r.method) ≡ is_some (e'.handlers r.method) =
          rw (m, m') refl in
        elim (authorized-cases parts e.auth_type r x.0 n) [
          | inr (b, f) ↦ inr (inl b, wrap_endpoint-refused e e' r auth s v t n some_both b)
          | inl (p, f) ↦ elim (version-cases parts e.version r) [
            | inr (o, g) ↦ inr (inr o, wrap_endpoint-outdated e e' r auth s v t n some_both g)
            | inl (c, g) ↦
                let (u, acc, w, k) = IsGranted-if e r s x.0 x.1 refl p f c in
                inl (
                  u,
                  acc,
                  x.1,
                  w,
                  wrap_endpoint-granted e h r auth s x.1 u acc n m w.authentic k g,
                  wrap_endpoint-granted e' h' r auth s x.1 u acc (rw (sym t) n) m' w.authentic
                      (rw (sym t) k) (rw (sym v) g),
                )
          ]
        ]

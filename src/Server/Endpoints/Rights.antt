-- ===== src/Server/Endpoints/Rights.antt =====
-- What the middleware asks of a request and its token, case by case.
use padlock_cloud.Prelude.{
  ℕ, ◌≡◌, ◌≢◌, ◌⊎◌, refl, inl, inr, Bool, true, false, not, ◌&&◌, ◌||◌, Bool-cases, Option, ==_iff,
  text_eq_path, text_eq-neq, none, some, is_some, Text, codes, text_eq, ◌==◌,
}
use padlock_cloud.Errors.{Result, ok, err}
use padlock_cloud.Auth.{AuthToken, Account, is_empty}
use padlock_cloud.Server.{Request}
use padlock_cloud.Server.Endpoints.{Parts, right_type}

pub text_eq-cases :
    (a b : Text) → ((a ≡ b) × (text_eq a b ≡ true)) ⊎ ((a ≢ b) × (text_eq a b ≡ false))
text_eq-cases a b = elim (Bool-cases (text_eq a b)) [
  | inl e ↦ inl (text_eq_path a b e, e)
  | inr e ↦ inr (text_eq-neq a b e, e)
]

-- The tokens that an endpoint's type lets in: at a type other than "universal" the token has that type,
-- or is a skeleton token.
abbrev pub IsRightType : Text → AuthToken → Type 0
IsRightType type t = (type ≡ codes "universal") ⊎ ((t.type ≡ type) ⊎ (t.type ≡ codes "skeleton"))

abbrev pub IsWrongType : Text → AuthToken → Type 0
IsWrongType type t = (type ≢ codes "universal") × (t.type ≢ type) × (t.type ≢ codes "skeleton")

right_type-cases :
    (type : Text) (t : AuthToken)
    → is_empty type ≡ false
    → (IsRightType type t × (right_type type t ≡ true))
      ⊎ (IsWrongType type t × (right_type type t ≡ false))
unfolding right_type
right_type-cases type t n = elim (text_eq-cases type (codes "universal")) [
  | inl (p, e) ↦ inl (inl p, rw (n, e) refl)
  | inr (p, e) ↦ elim (text_eq-cases t.type type) [
    | inl (q, f) ↦ inl (inr (inl q), rw (n, e, f) refl)
    | inr (q, f) ↦ elim (text_eq-cases t.type (codes "skeleton")) [
      | inl (k, g) ↦ inl (inr (inr k), rw (n, e, f, g) refl)
      | inr (k, g) ↦ inr ((p, q, k), rw (n, e, f, g) refl)
    ]
  ]
]

module _ {S : Type 0} (parts : Parts S) where
  -- Whether the result of `Authenticate` allows a request at an endpoint of a type.
  unfoldable pub authorized : Text → Request → Result (AuthToken × Account) → Bool
  unfolding right_type
  authorized type r (err e) = false
  authorized type r (ok (t, acc)) =
      right_type type t
      && (not (text_eq t.type (codes "web")) || not (is_some (parts.csrf_failure r)))

  -- A web token comes with the CSRF protection; a request that fails it.
  abbrev pub IsProtected : Request → AuthToken → Type 0
  IsProtected r t = (t.type ≢ codes "web") ⊎ (parts.csrf_failure r ≡ none)

  abbrev pub IsForged : Request → AuthToken → Type 0
  IsForged r t = (t.type ≡ codes "web") × (reason : Text) × (parts.csrf_failure r ≡ some reason)

  IsProtected-cases :
      (r : Request) (t : AuthToken)
      → let b = not (text_eq t.type (codes "web")) || not (is_some (parts.csrf_failure r)) in
        (IsProtected r t × (b ≡ true)) ⊎ (IsForged r t × (b ≡ false))
  IsProtected-cases r t = elim (text_eq-cases t.type (codes "web")) [
    | inr (p, e) ↦ inl (inl p, rw e refl)
    | inl (p, e) ↦ by_failure (parts.csrf_failure r) refl p e
  ]
    where
      by_failure :
          (o : Option Text)
          → parts.csrf_failure r ≡ o
          → t.type ≡ codes "web"
          → text_eq t.type (codes "web") ≡ true
          → (IsProtected r t
              × ((not (text_eq t.type (codes "web")) || not (is_some (parts.csrf_failure r)))
                  ≡ true))
            ⊎ (IsForged r t
                × ((not (text_eq t.type (codes "web")) || not (is_some (parts.csrf_failure r)))
                    ≡ false))
      by_failure none q p e = inl (inr q, rw (e, q) refl)
      by_failure (some reason) q p e = inr ((p, reason, q), rw (e, q) refl)

  -- A result of `Authenticate` with which no handler may run at an endpoint of a type.
  abbrev pub IsBarred : Text → Request → Result (AuthToken × Account) → Type 0
  IsBarred type r (err e) = Unit
  IsBarred type r (ok (t, acc)) = IsWrongType type t ⊎ IsForged r t

  abbrev pub IsAllowed : Text → Request → Result (AuthToken × Account) → Type 0
  IsAllowed type r (err e) = ⊥
  IsAllowed type r (ok (t, acc)) = IsRightType type t × IsProtected r t

  pub authorized-cases :
      (type : Text) (r : Request) (x : Result (AuthToken × Account))
      → is_empty type ≡ false
      → (IsAllowed type r x × (authorized type r x ≡ true))
        ⊎ (IsBarred type r x × (authorized type r x ≡ false))
  unfolding authorized
  authorized-cases type r (err e) n = inr (tt, refl)
  authorized-cases type r (ok (t, acc)) n = elim (right_type-cases type t n) [
    | inr (w, e) ↦ inr (inl w, rw e refl)
    | inl (p, e) ↦ elim (IsProtected-cases r t) [
      | inl (q, f) ↦ inl ((p, q), rw (e, f) refl)
      | inr (q, f) ↦ inr (inr q, rw (e, f) refl)
    ]
  ]

  barred_not_allowed :
      (type : Text) (r : Request) (x : Result (AuthToken × Account))
      → IsBarred type r x
      → IsAllowed type r x
      → ⊥
  barred_not_allowed type r (err e) b a = a
  barred_not_allowed type r (ok (t, acc)) (inl (u, v, w)) (inl p, q) = u p
  barred_not_allowed type r (ok (t, acc)) (inl (u, v, w)) (inr (inl p), q) = v p
  barred_not_allowed type r (ok (t, acc)) (inl (u, v, w)) (inr (inr p), q) = w p
  barred_not_allowed type r (ok (t, acc)) (inr (w, reason, k)) (p, inl q) = q w
  barred_not_allowed type r (ok (t, acc)) (inr (w, reason, k)) (p, inr q) = cc (k, q)

  pub authorized-barred :
      (type : Text) (r : Request) (x : Result (AuthToken × Account))
      → is_empty type ≡ false
      → IsBarred type r x
      → authorized type r x ≡ false
  authorized-barred type r x n b = elim (authorized-cases type r x n) [
    | inl (a, e) ↦ absurd (barred_not_allowed type r x b a)
    | inr (c, e) ↦ e
  ]

  -- Whether a request has the version of an endpoint.
  unfoldable pub fits_version : ℕ → Request → Bool
  fits_version version r = not (
      parts.contains (r.header (codes "Authorization")) (codes "ApiKey")
      || (not (version == 0) && not (parts.version_from_request r == version)))

  -- A request with a token of this API and the endpoint's version, if it has one.
  abbrev pub IsCurrent : ℕ → Request → Type 0
  IsCurrent version r =
      (parts.contains (r.header (codes "Authorization")) (codes "ApiKey") ≡ false)
      × ((version ≡ 0) ⊎ (parts.version_from_request r ≡ version))

  -- A request with the token of an older API, or with another version.
  abbrev pub IsOutdated : ℕ → Request → Type 0
  IsOutdated version r =
      (parts.contains (r.header (codes "Authorization")) (codes "ApiKey") ≡ true)
      ⊎ ((version ≢ 0) × (parts.version_from_request r ≢ version))

  pub version-cases :
      (version : ℕ) (r : Request)
      → (IsCurrent version r × (fits_version version r ≡ true))
        ⊎ (IsOutdated version r × (fits_version version r ≡ false))
  unfolding fits_version
  version-cases version r =
      elim (Bool-cases (parts.contains (r.header (codes "Authorization")) (codes "ApiKey"))) [
        | inl e ↦ inr (inl e, rw e refl)
        | inr e ↦ elim (Bool-cases (version == 0)) [
          | inl z ↦ inl ((e, inl ((==_iff version 0).0 z)), rw (e, z) refl)
          | inr z ↦ elim (Bool-cases (parts.version_from_request r == version)) [
            | inl q ↦
                inl (
                  (e, inr ((==_iff (parts.version_from_request r) version).0 q)),
                  rw (e, z, q) refl,
                )
            | inr q ↦ inr (
              inr (
                (λ p. cc (z, (==_iff version 0).1 p)),
                (λ p. cc (q, (==_iff (parts.version_from_request r) version).1 p)),
              ),
              rw (e, z, q) refl,
            )
          ]
        ]
      ]

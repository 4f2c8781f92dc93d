-- ===== src/Server/Authenticate/Identity.antt =====
-- Which token a request's token stands for.
use padlock_cloud.Prelude.{
  ℕ, ◌≡◌, refl, sym, ◌∙◌, ◌⊎◌, inl, inr, Bool, true, false, not, ◌&&◌, ◌||◌, Bool-cases, Option,
  none, some, codes, text_eq, text_eq_path,
}
use mathlib.Core.List.{Memᴰ}
use padlock_cloud.Errors.{
  Result, ok, err, failure, response, err_not_found, err_unregistered_storable, err_storage_closed,
  other,
}
use padlock_cloud.Auth.{Time, AuthToken, Account, is_empty}
use padlock_cloud.Auth.Tokens.{expired}
use padlock_cloud.Auth.Accounts.{
  find_auth_token, used_lately, not_expired_long, expire_unused_auth_tokens,
  remove_expired_auth_tokens,
}
use padlock_cloud.Auth.Accounts.Laws.{Memᴰ-filter, find_auth_token-Memᴰ}
use padlock_cloud.Server.{Request, ServerConfig, ip_from_request}
use padlock_cloud.Server.Authenticate.{
  validate, same_secret, skeleton_ok, identify, or_invalid, not_expired, pruned, invalid_if_missing,
  any_invalid,
}

-- A token that is kept in an account, also when it is pruned, with the secret given, used in the last
-- 30 days.
pub record IsKept (now : Time) (given found : AuthToken) (a : Account) : Type 0 where
  pub kept : Memᴰ found a.auth_tokens
  pub left : Memᴰ found (pruned now a).auth_tokens
  pub secret : found.token ≡ given.token
  pub used : used_lately now found ≡ true

-- A given token that is the configured skeleton key, from the configured address.
pub record IsSkeleton (config : ServerConfig) (r : Request) (given found : AuthToken) : Type 0 where
  pub same : found ≡ given
  pub type : given.type ≡ codes "skeleton"
  pub configured : is_empty config.skeleton_key ≡ false
  pub key : config.skeleton_key ≡ given.token
  pub address : (is_empty config.skeleton_ip ≡ true) ⊎ (config.skeleton_ip ≡ ip_from_request r)

validate-IsKept :
    (now : Time) (given found : AuthToken) (a : Account)
    → validate given (pruned now a) ≡ some found
    → IsKept now given found a
unfolding validate pruned remove_expired_auth_tokens expire_unused_auth_tokens
validate-IsKept now given found a h = from_found (find_auth_token given (pruned now a)) refl h
  where
    from_found :
        (o : Option (ℕ × AuthToken))
        → o ≡ find_auth_token given (pruned now a)
        → same_secret given o ≡ some found
        → IsKept now given found a
    from_found none e h = absurd (cc (h))
    from_found (some (i, t)) e h = elim (Bool-cases (text_eq t.token given.token)) [
      | inl q ↦
          let p : some t ≡ some found = sym (rw q refl) ∙ h in
          let p : t ≡ found = cc (p) in
          let k = find_auth_token-Memᴰ given (pruned now a) i t (sym e) in
          let m =
            Memᴰ-filter (λ u. not_expired_long now u) t
              (expire_unused_auth_tokens now a).auth_tokens k in
          let m' = Memᴰ-filter (λ u. used_lately now u) t a.auth_tokens m.0 in
          rw (sym p) (record {
            kept = m'.0;
            left = k;
            secret = text_eq_path t.token given.token q;
            used = m'.1;
          })
      | inr q ↦ absurd (cc (h, q))
    ]

accepted :
    (empty no_ip ip key : Bool)
    → not (empty || ((not no_ip && not ip) || not key)) ≡ true
    → (empty ≡ false) × (key ≡ true) × ((no_ip ≡ true) ⊎ (ip ≡ true))
accepted true no_ip ip key h = absurd (cc (h))
accepted false true ip true h = (refl, refl, inl refl)
accepted false true ip false h = absurd (cc (h))
accepted false false true true h = (refl, refl, inr refl)
accepted false false true false h = absurd (cc (h))
accepted false false false key h = absurd (cc (h))

skeleton_ok-IsSkeleton :
    (config : ServerConfig) (r : Request) (given : AuthToken)
    → text_eq given.type (codes "skeleton") ≡ true
    → skeleton_ok config r given ≡ true
    → IsSkeleton config r given given
unfolding skeleton_ok
skeleton_ok-IsSkeleton config r given t h =
    let (c, k, a) =
      accepted (is_empty config.skeleton_key) (is_empty config.skeleton_ip)
        (text_eq config.skeleton_ip (ip_from_request r)) (text_eq config.skeleton_key given.token)
        h in
    record {
      same = refl;
      type = text_eq_path given.type (codes "skeleton") t;
      configured = c;
      key = text_eq_path config.skeleton_key given.token k;
      address = elim a [
        | inl e ↦ inl e
        | inr e ↦ inr (text_eq_path config.skeleton_ip (ip_from_request r) e)
      ];
    }

or_invalid-ok :
    (given found : AuthToken) (o : Option AuthToken)
    → or_invalid given o ≡ ok found
    → o ≡ some found
or_invalid-ok given found none h = absurd (cc (h))
or_invalid-ok given found (some t) h = cc (h)

pub identify-ok :
    (now : Time) (config : ServerConfig) (r : Request) (given found : AuthToken) (a : Account)
    → identify config r given (pruned now a) ≡ ok found
    → IsKept now given found a ⊎ IsSkeleton config r given found
unfolding identify
identify-ok now config r given found a h =
    elim (Bool-cases (text_eq given.type (codes "skeleton"))) [
      | inl e ↦ elim (Bool-cases (skeleton_ok config r given)) [
        | inl k ↦
            let p : some given ≡ some found =
              or_invalid-ok given found (some given) (sym (rw (e, k) refl) ∙ h) in
            let p : given ≡ found = cc (p) in
            inr (rw (sym p) (skeleton_ok-IsSkeleton config r given e k))
        | inr k ↦ absurd (cc (h, e, k))
      ]
      | inr e ↦ inl (
          validate-IsKept now given found a
            (or_invalid-ok given found (validate given (pruned now a)) (sym (rw e refl) ∙ h)))
    ]

pub not_expired-ok :
    (now : Time) (t found : AuthToken)
    → not_expired now t ≡ ok found
    → (t ≡ found) × (expired now t ≡ false)
not_expired-ok now t found h = elim (Bool-cases (expired now t)) [
  | inl e ↦ absurd (cc (h, e))
  | inr e ↦ let p : ok t ≡ ok found = sym (rw e refl) ∙ h in (cc (p), e)
]

pub any_invalid-ok : (r : Result AuthToken) (t : AuthToken) → any_invalid r ≡ ok t → r ≡ ok t
any_invalid-ok (ok u) t h = h
any_invalid-ok (err e) t h = absurd (cc (h))

pub invalid_if_missing-ok :
    (t : AuthToken) (r : Result Account) (a : Account) → invalid_if_missing t r ≡ ok a → r ≡ ok a
invalid_if_missing-ok t (ok b) a h = h
invalid_if_missing-ok t (err (failure err_not_found)) a h = absurd (cc (h))
invalid_if_missing-ok t (err (failure err_unregistered_storable)) a h = absurd (cc (h))
invalid_if_missing-ok t (err (failure err_storage_closed)) a h = absurd (cc (h))
invalid_if_missing-ok t (err (failure (other m))) a h = absurd (cc (h))
invalid_if_missing-ok t (err (response e)) a h = absurd (cc (h))

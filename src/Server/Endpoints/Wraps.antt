-- ===== src/Server/Endpoints/Wraps.antt =====
-- The wraps of an endpoint, each for the requests that it refuses and for those that it lets pass.
use padlock_cloud.Prelude.{
  ℕ, ◌≡◌, refl, sym, ◌∙◌, inl, inr, Bool, true, false, not, ◌&&◌, ◌||◌, Bool-cases, Option, none,
  some, is_some, List, Text, codes, text_eq, ◌==◌, if◌then◌else◌,
}
use padlock_cloud.Errors.{Result, ok, err}
use padlock_cloud.Auth.{AuthToken, Account, is_empty}
use padlock_cloud.Server.{Request}
use padlock_cloud.Server.Handlers.{Write}
use padlock_cloud.Server.Endpoints.{
  Auth, Handler, Parts, if_some, protected, wrap_csrf, check_version, right_type, let_in,
}
use padlock_cloud.Server.Endpoints.Rights.{authorized, fits_version}

pub and_true : (a b : Bool) → (a && b) ≡ true → (a ≡ true) × (b ≡ true)
and_true true b h = (refl, h)
and_true false b h = absurd (cc (h))

module _ {S : Type 0} (parts : Parts S) where
  pub wrap_csrf-refused :
      (h h' : Handler S) (r : Request) (t : AuthToken) (acc : Account) (s : S)
      → (not (text_eq t.type (codes "web")) || not (is_some (parts.csrf_failure r))) ≡ false
      → wrap_csrf parts h r (some (t, acc)) s ≡ wrap_csrf parts h' r (some (t, acc)) s
  unfolding wrap_csrf
  wrap_csrf-refused h h' r t acc s e = elim (Bool-cases (text_eq t.type (codes "web"))) [
    | inl w ↦ rw w (refused (parts.csrf_failure r) (sym (rw w refl) ∙ e))
    | inr w ↦ absurd (cc (e, w))
  ]
    where
      refused :
          (o : Option Text)
          → not (is_some o) ≡ false
          → protected parts o h r (some (t, acc)) s ≡ protected parts o h' r (some (t, acc)) s
      refused none e = absurd (cc (e))
      refused (some reason) e = refl

  pub check_version-same :
      (v : ℕ) (h h' : Handler S) (r : Request) (auth : Auth) (s : S)
      → h r auth s ≡ h' r auth s
      → check_version parts v h r auth s ≡ check_version parts v h' r auth s
  unfolding check_version
  check_version-same v h h' r auth s e = rw e refl

  pub let_in-refused :
      (type : Text) (v : ℕ) (h h' : Handler S) (r : Request) (x : Result (AuthToken × Account))
      (s : S)
      → is_empty type ≡ false
      → authorized parts type r x ≡ false
      → let_in parts type (check_version parts v (wrap_csrf parts h)) r (x, s)
        ≡ let_in parts type (check_version parts v (wrap_csrf parts h')) r (x, s)
  unfolding authorized
  let_in-refused type v h h' r (err e) s n a = rw n refl
  let_in-refused type v h h' r (ok (t, acc)) s n a = elim (Bool-cases (right_type type t)) [
    | inl p ↦ rw p (
        check_version-same v (wrap_csrf parts h) (wrap_csrf parts h') r (some (t, acc)) s
          (wrap_csrf-refused h h' r t acc s (sym (rw p refl) ∙ a)))
    | inr p ↦ rw p refl
  ]

  pub wrap_csrf-granted :
      (h : Handler S) (r : Request) (t : AuthToken) (acc : Account) (s : S)
      → (not (text_eq t.type (codes "web")) || not (is_some (parts.csrf_failure r))) ≡ true
      → wrap_csrf parts h r (some (t, acc)) s ≡ h r (some (t, acc)) s
  unfolding wrap_csrf
  wrap_csrf-granted h r t acc s e = elim (Bool-cases (text_eq t.type (codes "web"))) [
    | inl w ↦ rw w (granted (parts.csrf_failure r) (sym (rw w refl) ∙ e))
    | inr w ↦ rw w refl
  ]
    where
      granted :
          (o : Option Text)
          → not (is_some o) ≡ true
          → protected parts o h r (some (t, acc)) s ≡ h r (some (t, acc)) s
      granted none e = refl
      granted (some reason) e = absurd (cc (e))

  pub check_version-fits :
      (v : ℕ) (h : Handler S) (r : Request) (auth : Auth) (s : S)
      → fits_version parts v r ≡ true
      → check_version parts v h r auth s ≡ h r auth s
  unfolding check_version fits_version
  check_version-fits v h r auth s f =
      passed _
        (parts.contains (r.header (codes "Authorization")) (codes "ApiKey")
          || (not (v == 0) && not (parts.version_from_request r == v)))
        f
    where
      passed :
          (x : Result (List Write) × S) (b : Bool)
          → not b ≡ true
          → (if b then x else h r auth s) ≡ h r auth s
      passed x true f = absurd (cc (f))
      passed x false f = refl

  pub check_version-outdated :
      (v : ℕ) (h h' : Handler S) (r : Request) (auth : Auth) (s : S)
      → fits_version parts v r ≡ false
      → check_version parts v h r auth s ≡ check_version parts v h' r auth s
  unfolding check_version fits_version
  check_version-outdated v h h' r auth s f =
      refused _
        (parts.contains (r.header (codes "Authorization")) (codes "ApiKey")
          || (not (v == 0) && not (parts.version_from_request r == v)))
        f
    where
      refused :
          (x : Result (List Write) × S) (b : Bool)
          → not b ≡ false
          → (if b then x else h r auth s) ≡ (if b then x else h' r auth s)
      refused x true f = refl
      refused x false f = absurd (cc (f))

  pub let_in-outdated :
      (type : Text) (v : ℕ) (h h' : Handler S) (r : Request) (x : Result (AuthToken × Account))
      (s : S)
      → is_empty type ≡ false
      → fits_version parts v r ≡ false
      → let_in parts type (check_version parts v h) r (x, s)
        ≡ let_in parts type (check_version parts v h') r (x, s)
  let_in-outdated type v h h' r (err e) s n f = rw n refl
  let_in-outdated type v h h' r (ok (t, acc)) s n f = elim (Bool-cases (right_type type t)) [
    | inl p ↦ rw p (check_version-outdated v h h' r (some (t, acc)) s f)
    | inr p ↦ rw p refl
  ]

  pub same_answer :
      (o o' : Option (Handler S)) (h h' : Handler S) (r : Request) (auth : Auth) (s : S)
      → is_some o ≡ is_some o'
      → h r auth s ≡ h' r auth s
      → if_some o h r auth s ≡ if_some o' h' r auth s
  same_answer none none h h' r auth s e p = refl
  same_answer none (some k) h h' r auth s e p = absurd (cc (e))
  same_answer (some k) none h h' r auth s e p = absurd (cc (e))
  same_answer (some k) (some k') h h' r auth s e p = p

-- ===== src/Server.antt =====
-- The server (padlockcloud/server.go): its requests, its configuration, what it asks of its storage,
-- and the calls that fail or change the storage, as functions of the storage's state.
pub mod Authenticate
pub mod Handlers
pub mod Endpoints
pub mod Locks
pub mod Memory
mod Tests
use padlock_cloud.Prelude.{
  ℕ, ◌≡◌, refl, ◌≢◌, ◌⊎◌, Bool, Option, none, some, Text, codes, if◌then◌else◌,
}
use padlock_cloud.Errors.{Error, Result, ok, err, failure, err_not_found}
use padlock_cloud.Auth.{Time, AuthToken, Account, AuthRequest, is_empty}

-- What the server reads of a `http.Request`. A header, form or query value that is not there is empty.
pub record Request : Type 0 where
  pub method : Text
  pub path : Text
  pub remote_addr : Text
  pub header : Text → Text
  pub cookie : Text → Option Text
  pub form : Text → Text
  pub query : Text → Text
  pub body : Result Text

-- `IPFromRequest`
unfoldable pub ip_from_request : Request → Text
ip_from_request r =
    if is_empty (r.header (codes "X-Real-IP")) then r.remote_addr else r.header (codes "X-Real-IP")

pub record ServerConfig : Type 0 where
  pub skeleton_key : Text
  pub skeleton_ip : Text
  pub test : Bool

-- The types the server stores, and what it stores of each: of a `DataStore` its content.
pub data Kind : Type 0 where
  accounts requests data_stores : Kind

abbrev pub Value : Kind → Type 0
Value accounts = Account
Value requests = AuthRequest
Value data_stores = Text

-- What the server asks of a storage: `Get`, `Put` and `Delete` at a type and a key.
pub record Store (S : Type 0) : Type 0 where
  pub load : (k : Kind) → Text → S → Result (Value k)
  pub save : (k : Kind) → Text → Value k → S → Result (Unit {0}) × S
  pub erase : (k : Kind) → Text → S → Result (Unit {0}) × S

-- What a storage promises whose `Get` does not fail. `kept` is what it keeps of an object: it may set
-- the time of creation of an account.
pub record Keeps {S : Type 0} (st : Store S) : Type 0 where
  pub kept : (k : Kind) → Value k → Value k
  pub kept-tokens : (a : Account) → (kept accounts a).auth_tokens ≡ a.auth_tokens
  pub kept-email : (a : Account) → (kept accounts a).email ≡ a.email
  pub kept-request : (ar : AuthRequest) → kept requests ar ≡ ar
  pub kept-data : (d : Text) → kept data_stores d ≡ d
  pub load-save :
      (k : Kind) (key : Text) (v : Value k) (s s' : S)
      → st.save k key v s ≡ (ok tt, s')
      → st.load k key s' ≡ ok (kept k v)
  pub load-save_other :
      (k j : Kind) (key key' : Text) (v : Value k) (s s' : S)
      → st.save k key v s ≡ (ok tt, s')
      → (k ≢ j) ⊎ (key ≢ key')
      → st.load j key' s' ≡ st.load j key' s
  pub load-erase :
      (k : Kind) (key : Text) (s s' : S)
      → st.erase k key s ≡ (ok tt, s')
      → st.load k key s' ≡ err (failure err_not_found)
  pub load-erase_other :
      (k j : Kind) (key key' : Text) (s s' : S)
      → st.erase k key s ≡ (ok tt, s')
      → (k ≢ j) ⊎ (key ≢ key')
      → st.load j key' s' ≡ st.load j key' s

-- A step that may fail and may change the storage.
abbrev pub Step : Type 0 → Type 0 → Type 0
Step S A = S → Result A × S

module _ {S A B : Type 0} where
  infixl 5 ◌>>=◌
  abbrev pub next : (A → Step S B) → Result A × S → Result B × S
  next f (ok a, s) = f a s
  next f (err e, s) = (err e, s)

  abbrev pub ◌>>=◌ : Step S A → (A → Step S B) → Step S B
  (m >>= f) s = next f (m s)

  -- A chain that succeeds has a first step that does, and a rest that does.
  pub data Chain (f : A → Step S B) (r : Result A × S) (b : B) (s' : S) : Type 0 where
    chain : (a : A) (s'' : S) → r ≡ (ok a, s'') → f a s'' ≡ (ok b, s') → Chain f r b s'

  pub next-ok :
      (f : A → Step S B) (r : Result A × S) (b : B) (s' : S)
      → next f r ≡ (ok b, s')
      → Chain f r b s'
  next-ok f (ok a, s) b s' h = chain a s refl h
  next-ok f (err e, s) b s' h = absurd (cc (h))

  -- The same, of a first step that leaves the state alone.
  pub data Lifted (f : A → Step S B) (r : Result A) (s : S) (b : B) (s' : S) : Type 0 where
    lifted : (a : A) → r ≡ ok a → f a s ≡ (ok b, s') → Lifted f r s b s'

  pub lift-ok :
      (f : A → Step S B) (r : Result A) (s : S) (b : B) (s' : S)
      → next f (r, s) ≡ (ok b, s')
      → Lifted f r s b s'
  lift-ok f (ok a) s b s' h = lifted a refl h
  lift-ok f (err e) s b s' h = absurd (cc (h))

module _ {S A : Type 0} where
  abbrev pub pure : A → Step S A
  pure a s = (ok a, s)

  -- A result that depends on no state.
  abbrev pub lift : Result A → Step S A
  lift r s = (r, s)

  -- A call that reads the state only.
  abbrev pub reads : (S → Result A) → Step S A
  reads f s = (f s, s)

  pub pure-ok :
      (a b : A) (s s' : S) → ◌≡◌ {A = Result A × S} (ok a, s) (ok b, s') → (a ≡ b) × (s ≡ s')
  pure-ok a b s s' h = (cc (h), cc (h))

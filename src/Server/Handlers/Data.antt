-- ===== src/Server/Handlers/Data.antt =====
-- Reading what was written, and what is deleted.
use padlock_cloud.Prelude.{
  ◌≡◌, ◌≢◌, refl, sym, subst, ap, ◌∙◌, inl, inr, Option, List, [], ◌∷◌, Text,
}
use padlock_cloud.Errors.{Result, ok, err, response, invalid_auth_token}
use padlock_cloud.Auth.{Time, AuthToken, Account}
use padlock_cloud.Server.{
  Request, ServerConfig, accounts, data_stores, Store, Keeps, next, next-ok, chain, lift-ok, lifted,
  pure, pure-ok,
}
use padlock_cloud.Server.Authenticate.{from_request, authenticate}
use padlock_cloud.Server.Handlers.{
  Write, body, or_default, read_store, write_store, delete_store, delete_account,
}

pub data_stores-ne-accounts : data_stores ≢ accounts
data_stores-ne-accounts e = cc (e)

module _ {S : Type 0} (st : Store S) (keeps : Keeps st) where
  answer_lem :
      (r : Result Text) (s s' : S)
      → (next (λ content. pure (body content ∷ [])) (r, s')).0
        ≡ (next (λ content. pure (body content ∷ [])) (r, s)).0
  answer_lem (ok content) s s' = refl
  answer_lem (err e) s s' = refl

  read_same :
      (acc : Account) (s s' : S)
      → st.load data_stores acc.email s' ≡ st.load data_stores acc.email s
      → (read_store st acc s').0 ≡ (read_store st acc s).0
  unfolding read_store
  read_same acc s s' e = rw e (answer_lem (or_default [] (st.load data_stores acc.email s)) s s')

  write_store-save :
      (r : Request) (acc : Account) (content : Text) (ws : List Write) (s s' : S)
      → r.body ≡ ok content
      → write_store st r acc s ≡ (ok ws, s')
      → st.save data_stores acc.email content s ≡ (ok tt, s')
  unfolding write_store
  write_store-save r acc content ws s s' b h = elim (lift-ok _ r.body s ws s' h) [
    | lifted c q k ↦ elim (next-ok _ (st.save data_stores acc.email c s) ws s' k) [
      | chain u s'' e l ↦
          let p : ok c ≡ ok content = sym q ∙ b in
          let p : c ≡ content = cc (p) in
          subst (λ (x : Text). st.save data_stores acc.email x s ≡ (ok tt, s')) p
            (e ∙ ap (λ (x : S). (ok tt, x)) (pure-ok _ ws s'' s' l).1)
    ]
  ]

  -- After a write that succeeds, a read for the same account answers with exactly the body written, and
  -- a read for an account with another email answers as it did before the write.
  pub read_store-write_store :
      (r : Request) (acc other : Account) (content : Text) (ws : List Write) (s s' : S)
      → r.body ≡ ok content
      → write_store st r acc s ≡ (ok ws, s')
      → acc.email ≢ other.email
      → (read_store st acc s' ≡ (ok (body content ∷ []), s'))
        × ((read_store st other s').0 ≡ (read_store st other s).0)
  unfolding read_store
  read_store-write_store r acc other content ws s s' b h n =
      let e = write_store-save r acc content ws s s' b h in
      let l = keeps.load-save data_stores acc.email content s s' e in
      let o =
        keeps.load-save_other data_stores data_stores acc.email other.email content s s' e
          (inr n) in
      (rw (l, keeps.kept-data content) refl, read_same other s s' o)

  -- After a `DELETE` of an account's data that succeeds, a read for it answers with an empty body; the
  -- account itself is as before.
  pub read_store-delete_store :
      (acc : Account) (ws : List Write) (s s' : S)
      → delete_store st acc s ≡ (ok ws, s')
      → (read_store st acc s' ≡ (ok (body [] ∷ []), s'))
        × (st.load accounts acc.email s' ≡ st.load accounts acc.email s)
  unfolding read_store delete_store
  read_store-delete_store acc ws s s' h =
      elim (next-ok _ (st.erase data_stores acc.email s) ws s' h) [
        | chain u s'' e k ↦
            let e' = e ∙ ap (λ (x : S). (ok tt, x)) (pure-ok _ ws s'' s' k).1 in
            let l = keeps.load-erase data_stores acc.email s s' e' in
            (
              rw l refl,
              keeps.load-erase_other data_stores accounts acc.email acc.email s s' e'
                  (inl data_stores-ne-accounts),
            )
      ]

  -- After `DeleteAccount` has succeeded, no request with a token for that account's email is let in: it
  -- gets `InvalidAuthToken`, and nothing is written. The account's data reads as empty.
  pub authenticate-delete_account :
      (decode : Text → Option Text) (config : ServerConfig) (now : Time) (r : Request)
      (given : AuthToken) (acc : Account) (s s' : S)
      → from_request decode r ≡ ok given
      → acc.email ≡ given.email
      → delete_account st given.email s ≡ (ok tt, s')
      → (authenticate st decode config now r s'
          ≡ (err (response (invalid_auth_token given.email given.token)), s'))
        × (read_store st acc s' ≡ (ok (body [] ∷ []), s'))
  unfolding authenticate delete_account read_store
  authenticate-delete_account decode config now r given acc s s' f p h =
      elim (next-ok _ (st.erase data_stores given.email s) tt s' h) [
        | chain u s'' e k ↦
            let l = keeps.load-erase accounts given.email s'' s' k in
            let d = keeps.load-erase data_stores given.email s s'' e in
            let d' =
              keeps.load-erase_other accounts data_stores given.email given.email s'' s' k
                (inl (λ q. data_stores-ne-accounts (sym q))) in
            (rw (f, l) refl, rw (p, d', d) refl)
      ]

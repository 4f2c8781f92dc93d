-- ===== src/RateLimit.antt =====
-- The limits on requests (padlockcloud/ratelimit.go). The third-party package `throttled` is an
-- argument: a call of a limiter with its quota takes a key and the memory store, which all limiters of
-- one kind share, and says whether the key is limited.
pub mod Laws
use padlock_cloud.Prelude.{
  Bool, true, false, ◌&&◌, ◌||◌, Option, none, some, List, [], ◌∷◌, Text, text_eq, if◌then◌else◌,
}

module _ {Quota M : Type 0} (limit : Quota → Text → M → Bool × M) where
  pub record EmailRateLimiter : Type 0 where
    pub ip_rate_limiter : Quota
    pub email_rate_limiter : Quota

  abbrev both : (Text → M → Bool × M) → Text → Bool × M → Bool × M
  both call email (ip_limited, m) =
      let (email_limited, m) = call email m in (ip_limited || email_limited, m)

  -- `EmailRateLimiter.RateLimit`; `none` is a nil limiter.
  unfoldable pub rate_limit : Option EmailRateLimiter → (ip email : Text) → M → Bool × M
  rate_limit none ip email m = (false, m)
  rate_limit (some erl) ip email m =
      both (λ key m. limit erl.ip_rate_limiter key m) email (limit erl.ip_rate_limiter ip m)

pub record Route : Type 0 where
  pub url : Text
  pub method : Text

unfoldable pub same_route : Route → Route → Bool
same_route a b = text_eq a.url b.url && text_eq a.method b.method

unfoldable pub quota_of {ℓ} : {Quota : Type ℓ} → Route → List (Route × Quota) → Option Quota
unfolding same_route
quota_of route [] = none
quota_of route ((r, q) ∷ quotas) =
    let rest = quota_of route quotas in if same_route r route then some q else rest

-- The quota that the handler of `RateLimit` finds for a request: the literal `Route{r.Method, r.URL.Path}`
-- sets the fields in the order they are declared.
unfoldable pub request_quota {ℓ} :
    {Quota : Type ℓ} → (method path : Text) → List (Route × Quota) → Option Quota
unfolding quota_of
request_quota method path quotas = quota_of (record { url = method; method = path }) quotas

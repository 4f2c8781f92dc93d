-- ===== src/RateLimit/Laws.antt =====
-- Which limiter is asked.
use padlock_cloud.Prelude.{◌≡◌, refl, Bool, some, Text}
use padlock_cloud.RateLimit.{EmailRateLimiter, rate_limit}

module _ {Quota M : Type 0} (limit : Quota → Text → M → Bool × M) where
  -- The quota for emails makes no difference to what `EmailRateLimiter.RateLimit` answers, nor to the
  -- store: the answer is that of the limiter for addresses alone, asked for both.
  pub rate_limit_ignores :
      (erl : EmailRateLimiter limit) (q : Quota) (ip email : Text) (m : M)
      → rate_limit limit (some (record erl { email_rate_limiter = q })) ip email m
        ≡ rate_limit limit (some erl) ip email m
  unfolding rate_limit
  rate_limit_ignores erl q ip email m = refl

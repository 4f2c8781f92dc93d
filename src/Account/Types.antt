-- ===== src/Account/Types.antt =====
-- The parts of the account that the dashboard's code reads. Times are in seconds since the epoch, as
-- the server sends them; `none` is a property that is missing or null.
use padlock_cloud.Prelude.{ℕ, Option, List, String}

pub record Coupon : Type 0 where
  pub id : String
  pub percent_off : ℕ
  pub amount_off : ℕ

pub record Offer : Type 0 where
  pub created : ℕ
  -- In hours; 0 is falsy.
  pub redeem_within : ℕ
  pub coupon : Coupon

pub record Plan : Type 0 where
  pub id : String
  pub amount : ℕ

pub record Device : Type 0 where
  pub token_id : String
  pub description : String

pub record Account : Type 0 where
  pub status : String
  pub trial_end : Option ℕ
  pub promo : Option Offer
  pub plan : Option Plan
  pub devices : List Device

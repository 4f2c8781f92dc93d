-- ===== src/Storage.antt =====
-- The storage of the server (padlockcloud/storage.go). A `Storable` is what a storage asks of an
-- object: the number of its type, its key, and its two ways into bytes and back. `none` is a nil
-- `Storable`.
pub mod Memory
pub mod Level
pub mod Iterator
mod Tests
use padlock_cloud.Prelude.{ℕ, Text}
use padlock_cloud.Errors.{Result}

-- `serialize` and `deserialize` are the object's own methods; `marshal` and `unmarshal` are what
-- `encoding/json` makes of it. `A` is what a read of it gives.
pub record Storable (A : Type 0) : Type 0 where
  pub type_id : ℕ
  pub key : Text
  pub serialize : Result Text
  pub deserialize : Text → Result A
  pub marshal : Result Text
  pub unmarshal : Text → Result A

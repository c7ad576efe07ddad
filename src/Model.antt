-- ===== src/Model.antt =====
-- The configuration that the parts share: server/internal/model.
use Prim.Native.Nat.{ℕ}
use Prim.Native.String.{String}

-- A weighted reference to a destination; the weight is a uint32.
pub record DestinationRef : Type 0 where
  pub destination_id : String
  pub weight : ℕ

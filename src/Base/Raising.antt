-- ===== src/Base/Raising.antt =====
-- Code that returns or raises.
use Prim.Native.String.{String}

-- The class and the text of an exception object.
pub record Exception : Type 0 where
  pub class_name : String
  pub message : String

pub data Result {ℓ} (A : Type ℓ) : Type ℓ where
  ok : A → Result A
  raise : Exception → Result A

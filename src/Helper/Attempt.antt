-- ===== src/Helper/Attempt.antt =====
-- A call of C++ code that may throw, by the types that the code catches.
use proxypp.Prelude.{String}

-- The exception types of jsoncons that a catch names, each with its what(); any other that derives
-- from std::exception; and one that does not.
pub data Thrown : Type 0 where
  ser_error conv_error schema_error validation_error std_exception : String → Thrown
  unknown : Thrown

pub data Attempt {ℓ} (A : Type ℓ) : Type ℓ where
  returned : A → Attempt A
  thrown : Thrown → Attempt A

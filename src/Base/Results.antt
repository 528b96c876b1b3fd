-- ===== src/Base/Results.antt =====
-- `enum lfs2_error` of littlefs/lfs2.h, and how a call ends.

use mbed_littlefs.Base.Word.{ℤ}

-- The negative codes; `LFS2_ERR_OK` is the constructor `ok` below. The callbacks may also return a
-- number outside the enumeration, which lfs2.c passes on.
pub data Error : Type 0 where
  io corrupt noent exist notdir isdir notempty badf fbig inval nospc nomem noattr : Error
  nametoolong : Error
  other : ℤ → Error

-- A call returns a value, returns a negative error code, stops at a failed `LFS2_ASSERT`, or (in
-- the model alone) uses up its fuel.
pub data Outcome {ℓ} (A : Type ℓ) : Type ℓ where
  ok : A → Outcome A
  err : Error → Outcome A
  abort : Outcome A
  out_of_fuel : Outcome A

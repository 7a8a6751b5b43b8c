-- ===== src/Game/Vfs/Result.antt =====
-- How a method of game/core/vfs.py ends: it returns, or an exception leaves it.
pub data Fault : Type 0 where
  -- RecursionError
  recursion_limit : Fault
  -- IOError, from a device handler
  io_error : Fault

pub data Result {ℓ} (A : Type ℓ) : Type ℓ where
  ok : A → Result A
  err : Fault → Result A

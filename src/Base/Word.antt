-- ===== src/Base/Word.antt =====
-- 64-bit machine integers as bit patterns below 2 ^ 64.
use Prim.Native.Nat.{ℕ, ◌+◌, ◌%◌, ◌^◌}
use mathlib.Core.Bool.{Bool}
use unet.Base.Tests.{ltb}

abbrev pub u64 : ℕ → ℕ
u64 n = n % 2 ^ 64

-- `a < b` on the signed integers that two patterns stand for.
abbrev pub lt_i64 : ℕ → ℕ → Bool
lt_i64 a b = ltb (u64 (a + 2 ^ 63)) (u64 (b + 2 ^ 63))

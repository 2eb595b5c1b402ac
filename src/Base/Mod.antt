-- ===== src/Base/Mod.antt =====
-- Remainders.
use Prim.Native.Nat.{ℕ, ◌+◌, ◌%◌, ◌<◌}
use mathlib.Core.Logic.{◌≢◌}
use native.Mathlib.Omega.{arith}
use native.Mathlib.Nat.{div-add-mod, mod-lt}

-- Numbers less than `n` apart have different remainders.
pub mod_add_ne : (n t d : ℕ) → 0 < d → d < n → t % n ≢ (t + d) % n
mod_add_ne n t d some_way small e = grind (arith, div-add-mod, mod-lt)

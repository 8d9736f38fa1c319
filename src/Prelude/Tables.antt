-- ===== src/Prelude/Tables.antt =====
-- Facts about all bytes, by evaluating a test at each value.
use Prim.Native.Nat.{ℕ, zero, suc, ◌<◌}
use mathlib.Core.Path.{◌≡◌}
use mathlib.Core.Bool.{Bool, true, ◌&&◌}
use native.Mathlib.Omega.{arith}
use campello_net.Prelude.Tests.{◌==◌}

module _ (f g : ℕ → ℕ) where
  -- Do the two functions agree at every number below `n`?
  unfoldable pub same_below : ℕ → Bool
  same_below zero = true
  same_below (suc n) = (f n == g n) && same_below n

  pub same_below_sound : (n : ℕ) → same_below n ≡ true → (x : ℕ) → x < n → f x ≡ g x
  unfolding same_below
  same_below_sound zero e x h = absurd (omega arith)
  same_below_sound (suc n) e x h = ground (arith, same_below_sound n (ground arith) x)

-- ===== src/Base/Int/Laws.antt =====
-- The operations on integers at numbers, and their parts for `omega`.
use sancus_core.Base.Int.{ℤ, pos, negsuc, ◌+ℤ◌, ◌-ℤ◌, ◌*ℤ◌, neg}
use Prim.Native.Nat.{ℕ, suc, ◌+◌, ◌-◌, ◌*◌, ◌≤◌, ◌<◌}
use mathlib.Core.Path.{◌≡◌, refl}
use native.Mathlib.Omega.{arith}

pub +ℤ-pos : (a b : ℕ) → pos a +ℤ pos b ≡ pos (a + b)
unfolding ◌+ℤ◌
+ℤ-pos a b = ground arith

pub -ℤ-pos : (a b : ℕ) → b ≤ a → pos a -ℤ pos b ≡ pos (a - b)
unfolding ◌-ℤ◌
-ℤ-pos a b h = ground arith

pub -ℤ-pos_lt : (a b : ℕ) → a < b → pos a -ℤ pos b ≡ negsuc (b - a - 1)
unfolding ◌-ℤ◌
-ℤ-pos_lt a b h = ground arith

pub *ℤ-pos : (a k : ℕ) → pos a *ℤ k ≡ pos (a * k)
unfolding ◌*ℤ◌
*ℤ-pos a k = ground arith

pub neg-zero : neg (pos 0) ≡ pos 0
unfolding neg
neg-zero = refl

pub neg-suc : (n : ℕ) → neg (pos (suc n)) ≡ negsuc n
unfolding neg
neg-suc n = ground arith

pub neg-negsuc : (n : ℕ) → neg (negsuc n) ≡ pos (suc n)
unfolding neg
neg-negsuc n = ground arith

pub neg-neg : (a : ℤ) → neg (neg a) ≡ a
unfolding neg
neg-neg a = ground arith

pub +ℤ-negsuc : (a b : ℕ) → b < a → pos a +ℤ negsuc b ≡ pos (a - b - 1)
unfolding ◌+ℤ◌
+ℤ-negsuc a b h = ground arith

pub negsuc-+ℤ : (a b : ℕ) → a < b → negsuc a +ℤ pos b ≡ pos (b - a - 1)
unfolding ◌+ℤ◌
negsuc-+ℤ a b h = ground arith

pub pos-+ℤ-negsuc : (a b : ℕ) → a ≤ b → pos a +ℤ negsuc b ≡ negsuc (b - a)
unfolding ◌+ℤ◌
pos-+ℤ-negsuc a b h = ground arith

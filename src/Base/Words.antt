-- ===== src/Base/Words.antt =====
-- Fixed-width arithmetic: unsigned values are numbers below 2 ^ w, and a signed value is kept as
-- its bit pattern. `ok n` and `err n` are the C return values n and -n.
use Prim.Native.Nat.{ℕ, ◌+◌, ◌-◌, ◌%◌, ◌^◌, ◌<◌}
use mathlib.Core.Path.{◌≡◌}
use native.Mathlib.Omega.{arith}

abbrev pub u8_mod : ℕ
u8_mod = 2 ^ 8

abbrev pub u16_mod : ℕ
u16_mod = 2 ^ 16

abbrev pub u32_mod : ℕ
u32_mod = 2 ^ 32

abbrev pub add8 : ℕ → ℕ → ℕ
add8 a b = (a + b) % u8_mod

abbrev pub add16 : ℕ → ℕ → ℕ
add16 a b = (a + b) % u16_mod

abbrev pub add32 : ℕ → ℕ → ℕ
add32 a b = (a + b) % u32_mod

abbrev pub sub32 : ℕ → ℕ → ℕ
sub32 a b = (a + u32_mod - b) % u32_mod

pub sub32-add32 : (a b : ℕ) → a < u32_mod → b < u32_mod → sub32 (add32 a b) b ≡ a
sub32-add32 a b ha hb = omega arith

-- What an `int` function returns.
pub data Code : Type 0 where
  ok : ℕ → Code
  err : ℕ → Code

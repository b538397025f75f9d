-- ===== src/Base/Bits.antt =====
-- Masks and unions on bytes as arithmetic; each is a table checked by evaluation.
use Prim.Native.Nat.{ℕ, zero, suc, ◌+◌, ◌*◌, ◌/◌, ◌%◌, ◌<◌, bit_and, bit_or}
use mathlib.Core.Path.{◌≡◌, refl}
use mathlib.Core.Bool.{Bool, true, false}
use mathlib.Core.Logic.{ite}
use native.Mathlib.Decide.{ℕ_discrete}
use native.Mathlib.Omega.{arith}

module _ (f g : ℕ → ℕ) where
  agree_below : ℕ → Bool
  unfolding ℕ_discrete
  agree_below zero = true
  agree_below (suc n) = ite (ℕ_discrete (f n) (g n)) (agree_below n) false

  agree_below→eq : (n : ℕ) → agree_below n ≡ true → (i : ℕ) → i < n → f i ≡ g i
  unfolding agree_below
  agree_below→eq zero e i h = absurd (omega arith)
  agree_below→eq (suc n) e i h = ground (arith, agree_below→eq n (ground arith) i)

pub high_nibble : (b : ℕ) → b < 256 → bit_and b 0xF0 / 16 ≡ b / 16
unfolding agree_below
high_nibble = agree_below→eq _ _ 256 refl

pub low_nibble : (b : ℕ) → b < 256 → bit_and b 0x0F ≡ b % 16
unfolding agree_below
low_nibble = agree_below→eq _ _ 256 refl

or_nibbles_table : (n : ℕ) → n < 256 → bit_or (n / 16 * 16) (n % 16) ≡ n
unfolding agree_below
or_nibbles_table = agree_below→eq _ _ 256 refl

or_twelve_table : (n : ℕ) → n < 4096 → bit_or (n % 256) (n / 256 * 256) ≡ n
unfolding agree_below
or_twelve_table = agree_below→eq _ _ 4096 refl

pub or_nibbles : (a b : ℕ) → a < 16 → b < 16 → bit_or (a * 16) b ≡ a * 16 + b
or_nibbles a b ha hb =
    let n : ℕ = a * 16 + b in
    let eq_a : n / 16 * 16 ≡ a * 16 = omega arith in
    let eq_b : n % 16 ≡ b = omega arith in rw (eq_a, eq_b) at (or_nibbles_table n (omega arith))

pub or_twelve : (lo hi : ℕ) → lo < 256 → hi < 16 → bit_or lo (hi * 256) ≡ lo + hi * 256
or_twelve lo hi hl hh =
    let n : ℕ = lo + hi * 256 in
    let eq_l : n % 256 ≡ lo = omega arith in
    let eq_h : n / 256 * 256 ≡ hi * 256 = omega arith in
    rw (eq_l, eq_h) at (or_twelve_table n (omega arith))

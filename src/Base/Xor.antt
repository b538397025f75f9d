-- ===== src/Base/Xor.antt =====
-- Exclusive or of numbers at variables.
use Prim.Native.Nat.{
  ℕ, zero, suc, ◌+◌, ◌*◌, ◌/◌, ◌%◌, ◌≤◌, ◌<◌, max, bit_xor, differ, digits, bit_xor-bitwise,
}
use mathlib.Core.Path.{◌≡◌, refl, ap, ◌∙◌}
use mathlib.Core.Logic.{◌⊎◌, inl, inr}
use native.Mathlib.Omega.{arith}

abbrev xor_digits : ℕ → ℕ → ℕ → ℕ
xor_digits n a b = digits (λ y. y) differ n a b

xor_digits_fuel : (n m a b : ℕ) → a ≤ n → a ≤ m → xor_digits n a b ≡ xor_digits m a b
xor_digits_fuel zero zero a b p q = refl
xor_digits_fuel zero (suc m) zero b p q = refl
xor_digits_fuel zero (suc m) (suc a) b p q = absurd (omega arith)
xor_digits_fuel (suc n) zero zero b p q = refl
xor_digits_fuel (suc n) zero (suc a) b p q = absurd (omega arith)
xor_digits_fuel (suc n) (suc m) zero b p q = refl
xor_digits_fuel (suc n) (suc m) (suc a) b p q =
    omega (arith, xor_digits_fuel n m (suc a / 2) (b / 2) (omega arith) (omega arith))

bit-cases : (x : ℕ) → (x % 2 ≡ 0) ⊎ (x % 2 ≡ 1)
bit-cases x = omega arith

differ_bits :
    (x y : ℕ) → (differ (differ (x % 2) (y % 2)) (y % 2) ≡ x % 2) × (differ (x % 2) (y % 2) < 2)
differ_bits x y = elim (bit-cases x) [
  | inl p ↦ elim (bit-cases y) [
    | inl q ↦ rw (p, q) (refl, omega arith)
    | inr q ↦ rw (p, q) (refl, omega arith)
  ]
  | inr p ↦ elim (bit-cases y) [
    | inl q ↦ rw (p, q) (refl, omega arith)
    | inr q ↦ rw (p, q) (refl, omega arith)
  ]
]

zero-bit_xor : (b : ℕ) → bit_xor 0 b ≡ b
zero-bit_xor b = bit_xor-bitwise 0 b

differ-zero : (y : ℕ) → differ 0 y ≡ y
differ-zero y = refl

bit_xor_step : (a b : ℕ) → bit_xor a b ≡ bit_xor (a / 2) (b / 2) * 2 + differ (a % 2) (b % 2)
bit_xor_step zero b = omega (arith, zero-bit_xor b, zero-bit_xor (b / 2), differ-zero (b % 2))
bit_xor_step (suc a) b = omega (
  arith,
  bit_xor-bitwise (suc a) b,
  bit_xor-bitwise (suc a / 2) (b / 2),
  xor_digits_fuel a (suc a / 2) (suc a / 2) (b / 2) (omega arith) (omega arith),
)

cancel_fuel : (n a k : ℕ) → a ≤ n → k ≤ n → bit_xor (bit_xor a k) k ≡ a
cancel_fuel zero a k p q =
    let a0 : a ≡ 0 = omega arith in let k0 : k ≡ 0 = omega arith in rw (a0, k0) refl
cancel_fuel (suc n) a k p q =
    let x = bit_xor a k in
    let y = bit_xor (a / 2) (k / 2) in
    let d = differ (a % 2) (k % 2) in
    let parts : x ≡ y * 2 + d = bit_xor_step a k in
    let half : x / 2 ≡ y = omega (arith, parts, (differ_bits a k).1) in
    let low : x % 2 ≡ d = omega (arith, parts, (differ_bits a k).1) in
    bit_xor_step x k
    ∙ ap (λ t. bit_xor t (k / 2) * 2 + differ (x % 2) (k % 2)) half
    ∙ ap (λ t. bit_xor y (k / 2) * 2 + differ t (k % 2)) low
    ∙ omega (arith, cancel_fuel n (a / 2) (k / 2) (omega arith) (omega arith), (differ_bits a k).0)

-- The same key twice.
pub bit_xor_cancel : (a k : ℕ) → bit_xor (bit_xor a k) k ≡ a
bit_xor_cancel a k = cancel_fuel (max a k) a k (omega arith) (omega arith)

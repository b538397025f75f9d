-- ===== src/Crypto/X931/Numbers.antt =====
-- internal/crypto/x931/x931.go: the arithmetic of the two operations: bytes as numbers, and odd powers
-- of a number and of what it lacks to the modulus.
use native.Mathlib.Nat.{pow-suc, pow-zero, mod-lt}
use native.Mathlib.Numerals.{unary_clauses}
use dso.Base.{
  ℕ, zero, suc, ◌+◌, ◌-◌, ◌*◌, ◌/◌, ◌%◌, ◌^◌, ◌≤◌, ◌<◌, ◌≡◌, refl, sym, ap, ◌∙◌, arith, List, [],
  ◌∷◌, ◌++◌, append_assoc, append-nil, length, length-append, All, ◌⊎◌, inl, inr,
}
use dso.Base.Words.{IsByte, u8}
use dso.Crypto.Cwc.Hash.{set_bytes, fill_bytes}

abbrev pub power_256 : ℕ → ℕ
power_256 zero = 1
power_256 (suc k) = 256 * power_256 k

pub set_bytes-append :
    (acc : ℕ) (xs : List ℕ) (y : ℕ) → set_bytes acc (xs ++ y ∷ []) ≡ set_bytes acc xs * 256 + y
unfolding set_bytes
set_bytes-append acc [] y = refl
set_bytes-append acc (x ∷ xs) y = set_bytes-append (acc * 256 + x) xs y

pub set_bytes-fill_bytes : (k x : ℕ) → x < power_256 k → set_bytes 0 (fill_bytes k x) ≡ x
unfolding fill_bytes set_bytes
set_bytes-fill_bytes zero x h = omega arith
set_bytes-fill_bytes (suc k) x h =
    set_bytes-append 0 (fill_bytes k (x / 256)) (u8 x)
    ∙ ap (λ n. n * 256 + u8 x) (set_bytes-fill_bytes k (x / 256) (omega arith))
    ∙ omega arith

fill_bytes-suc : (j x : ℕ) → fill_bytes (suc j) x ≡ fill_bytes j (x / 256) ++ u8 x ∷ []
unfolding fill_bytes
fill_bytes-suc j x = refl

fill_bytes-set_bytes_from :
    (acc : ℕ) (bs : List ℕ) (j : ℕ)
    → All IsByte bs
    → fill_bytes (length bs + j) (set_bytes acc bs) ≡ fill_bytes j acc ++ bs
unfolding set_bytes
fill_bytes-set_bytes_from acc [] j v =
    ap (λ n. fill_bytes n acc) (omega arith) ∙ sym (append-nil (fill_bytes j acc))
fill_bytes-set_bytes_from acc (b ∷ bs) j v =
    let next = acc * 256 + b in
    let byte : b < 256 = v.0 in
    ap (λ n. fill_bytes n (set_bytes next bs)) {y = length bs + suc j} (omega arith)
    ∙ fill_bytes-set_bytes_from next bs (suc j) v.1
    ∙ ap (λ f. f ++ bs)
        (fill_bytes-suc j next
          ∙ ap (λ n. fill_bytes j n ++ u8 next ∷ []) {y = acc} (omega arith)
          ∙ ap (λ n. fill_bytes j acc ++ n ∷ []) {y = b} (omega arith))
    ∙ append_assoc (fill_bytes j acc) (b ∷ []) bs

fill_bytes_none : (bs : List ℕ) → fill_bytes 0 0 ++ bs ≡ bs
unfolding fill_bytes
fill_bytes_none bs = refl

pub fill_bytes-set_bytes :
    (bs : List ℕ) → All IsByte bs → fill_bytes (length bs) (set_bytes 0 bs) ≡ bs
fill_bytes-set_bytes bs v =
    ap (λ n. fill_bytes n (set_bytes 0 bs)) {y = length bs + 0} (omega arith)
    ∙ fill_bytes-set_bytes_from 0 bs 0 v
    ∙ fill_bytes_none bs

pub length-fill_bytes : (k x : ℕ) → length (fill_bytes k x) ≡ k
unfolding fill_bytes
length-fill_bytes zero x = refl
length-fill_bytes (suc k) x =
    omega (arith, length-append (fill_bytes k (x / 256)) (u8 x ∷ []), length-fill_bytes k (x / 256))

pow_two_more : (t e : ℕ) → t ^ (e + 2) ≡ t * t * t ^ e
pow_two_more t e = simp unary_clauses (omega arith)

pow_one : (t : ℕ) → t ^ 1 ≡ t
pow_one t = omega (arith, pow-suc t zero, ap (λ x. x * t) (pow-zero t))

at_most-cases : (t s : ℕ) → (t ≤ s) ⊎ (s ≤ t)
at_most-cases t s = omega arith

fewer-cases : (k w : ℕ) → (k ≤ w) ⊎ (w < k)
fewer-cases k w = omega arith

difference-cases : (s t : ℕ) → ((d : ℕ) × (s ≡ t + d)) ⊎ ((d : ℕ) × (t ≡ s + d))
difference-cases s t = elim (at_most-cases t s) [
  | inl h ↦ inl (s - t, omega arith)
  | inr h ↦ inr (t - s, omega arith)
]

odd_step_even :
    (t d a b k : ℕ)
    → a + b ≡ k * (t + (t + d))
    → t * t * a + (t + d) * (t + d) * b ≡ (t * t * k + b * d) * (t + (t + d))
odd_step_even t d a b k h = omega (arith, ap (λ x. t * t * x) h)

odd_step :
    (s t d a b k : ℕ)
    → s ≡ t + d
    → a + b ≡ k * (t + s)
    → t * t * a + s * s * b ≡ (t * t * k + b * d) * (t + s)
odd_step s t d a b k g h = rw g (odd_step_even t d a b k (rw g at h))

-- The sum of two numbers divides the sum of their odd powers.
pub odd_powers : (q s t : ℕ) → (k : ℕ) × (t ^ (2 * q + 1) + s ^ (2 * q + 1) ≡ k * (t + s))
odd_powers zero s t = (1, omega (arith, pow_one s, pow_one t))
odd_powers (suc q) s t =
    let e = 2 * q + 1 in
    let (k, h) = odd_powers q s t in
    let more : t ^ (2 * suc q + 1) + s ^ (2 * suc q + 1) ≡ t * t * t ^ e + s * s * s ^ e =
      ap (λ n. t ^ n + s ^ n) {y = e + 2} (omega arith)
      ∙ ap (λ n. n + s ^ (e + 2)) (pow_two_more t e)
      ∙ ap (λ n. t * t * t ^ e + n) (pow_two_more s e) in
    elim (difference-cases s t) [
      | inl (d, g) ↦ (t * t * k + s ^ e * d, more ∙ odd_step s t d (t ^ e) (s ^ e) k g h)
      | inr (d, g) ↦ (
        s * s * k + t ^ e * d,
        omega (arith, more, odd_step t s d (s ^ e) (t ^ e) k g (omega (arith, h))),
      )
    ]

remainder : (n q r : ℕ) → r < n → (q * n + r) % n ≡ r
remainder n q r h = grind arith

division : (n x : ℕ) → 0 < n → x ≡ x / n * n + x % n
division n x h = grind arith

-- If x and y add up to a multiple of n, and n does not divide y, then x and y have complementary
-- remainders.
complement : (n x y w m k : ℕ) → 0 < m → m < n → y ≡ w * n + m → x + y ≡ k * n → x % n ≡ n - m
complement n x y w m k p r e h = elim (fewer-cases k w) [
  | inl few ↦
      let i = w - k in
      let eq : w ≡ k + i = omega arith in absurd (omega (arith, ap (λ z. z * n) eq))
  | inr enough ↦
      let j = k - w - 1 in
      let eq : k ≡ w + 1 + j = omega arith in
      let split : x ≡ j * n + (n - m) = omega (arith, ap (λ z. z * n) eq) in
      ap (λ z. z % n) split ∙ remainder n j (n - m) (omega arith)
]

-- What a number lacks to the modulus gives, raised to an odd power, what the power lacks to it.
pub odd_power-complement :
    (n s q : ℕ)
    → s ≤ n
    → 0 < s ^ (2 * q + 1) % n
    → 0 < n
    → (n - s) ^ (2 * q + 1) % n ≡ n - s ^ (2 * q + 1) % n
odd_power-complement n s q h pos p =
    let e = 2 * q + 1 in
    let (k, sum) = odd_powers q s (n - s) in
    let whole : n - s + s ≡ n = omega arith in
    let total : (n - s) ^ e + s ^ e ≡ k * n = sum ∙ ap (λ x. k * x) whole in
    let parts = division n (s ^ e) p in
    complement n ((n - s) ^ e) (s ^ e) (s ^ e / n) (s ^ e % n) k pos (mod-lt (s ^ e) p) parts total

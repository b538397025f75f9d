-- ===== src/Crypto/Cwc/HashLaws.antt =====
-- internal/crypto/cwc/hash.go: the lazy reduction against arithmetic modulo 2 ^ 127 - 1.
use dso.Base.{
  ℕ, zero, suc, ◌+◌, ◌-◌, ◌*◌, ◌/◌, ◌%◌, ◌≤◌, ◌<◌, ◌≡◌, ◌⊎◌, inl, inr, refl, ap, ◌∙◌, arith, ltb,
  true, false, lt→ltb, le→ltb_false, if◌then◌else◌, List, [], ◌∷◌, length, All,
}
use dso.Base.Words.{IsByte}
use dso.Crypto.Cwc.Hash.{
  ablk_len, two_128, bit_127, PolyHash, fold_127, has_bit_127, reduce, update, set_bytes,
  swap_words,
}

abbrev pub prime_127 : ℕ
prime_127 = 170141183460469231731687303715884105727

lt-or-le : (a b : ℕ) → (a < b) ⊎ (b ≤ a)
lt-or-le a b = omega arith

even-or-odd : (n : ℕ) → (n % 2 ≡ 0) ⊎ (n % 2 ≡ 1)
even-or-odd n = omega arith

-- What the discarded carry is worth: the sum of the two 127-bit digits does not fit 128 bits.
unfoldable pub lost : ℕ → ℕ
lost prod = if ltb (prod / bit_127 + prod % bit_127) two_128 then 0 else 2

has_bit_iff : (x : ℕ) → x < two_128 → (has_bit_127 x ≡ ltb prime_127 x)
unfolding has_bit_127
has_bit_iff x h = elim (lt-or-le x bit_127) [
  | inl small ↦
      (let e : x / bit_127 % 2 ≡ 0 = omega arith in
        rw (e, le→ltb_false prime_127 x (omega arith)) refl)
  | inr large ↦
      (let e : x / bit_127 % 2 ≡ 1 = omega arith in rw (e, lt→ltb prime_127 x (omega arith)) refl)
]

-- The two halves of the product are its 127-bit digits.
reduce_digits :
    (prod : ℕ)
    → prod / bit_127 < two_128
    → reduce prod ≡ fold_127 ((prod / bit_127 + prod % bit_127) % two_128)
unfolding reduce
reduce_digits prod h =
    let hi : prod / two_128 * 2 % two_128 ≡ prod / bit_127 / 2 * 2 = omega arith in
    elim (even-or-odd (prod / bit_127)) [
      | inl even ↦
          (let low : prod % two_128 ≡ prod % bit_127 = omega arith in
            let clear : has_bit_127 (prod % bit_127) ≡ false =
              has_bit_iff (prod % bit_127) (omega arith)
              ∙ le→ltb_false prime_127 (prod % bit_127) (omega arith) in
            let sum : (prod / two_128 * 2 % two_128 + prod % bit_127) % two_128
                ≡ (prod / bit_127 + prod % bit_127) % two_128 =
              omega arith in
            rw (low, clear) (ap fold_127 sum))
      | inr odd ↦
          (let low : prod % two_128 ≡ bit_127 + prod % bit_127 = omega arith in
            let set : has_bit_127 (bit_127 + prod % bit_127) ≡ true =
              has_bit_iff (bit_127 + prod % bit_127) (omega arith)
              ∙ lt→ltb prime_127 (bit_127 + prod % bit_127) (omega arith) in
            let sum : ((prod / two_128 * 2 % two_128 + 1) % two_128
                    + (bit_127 + prod % bit_127 - bit_127))
                  % two_128
                ≡ (prod / bit_127 + prod % bit_127) % two_128 =
              omega arith in
            rw (low, set) (ap fold_127 sum))
    ]

fold_lem : (x : ℕ) → x < two_128 → fold_127 x ≡ (if ltb prime_127 x then x - prime_127 else x)
unfolding fold_127
fold_lem x h = elim (lt-or-le prime_127 x) [
  | inl over ↦ rw (has_bit_iff x h ∙ lt→ltb prime_127 x over, lt→ltb prime_127 x over) (omega arith)
  | inr under ↦
      rw (has_bit_iff x h ∙ le→ltb_false prime_127 x under, le→ltb_false prime_127 x under) refl
]

fold_bound :
    (x : ℕ) → x < two_128 → (fold_127 x ≤ bit_127) × ((k : ℕ) × (x ≡ fold_127 x + k * prime_127))
fold_bound x h = elim (lt-or-le prime_127 x) [
  | inl over ↦ rw (fold_lem x h, lt→ltb prime_127 x over) (omega arith, (1, omega arith))
  | inr under ↦ rw (fold_lem x h, le→ltb_false prime_127 x under) (omega arith, (0, omega arith))
]

-- A product below 2 ^ 254 + 2 ^ 223.
reduce_lem :
    (prod : ℕ)
    → prod / bit_127 ≤ bit_127 + 79228162514264337593543950336
    → (reduce prod ≤ bit_127) × ((k : ℕ) × (prod ≡ reduce prod + lost prod + k * prime_127))
unfolding lost
reduce_lem prod h =
    let s : ℕ = prod / bit_127 + prod % bit_127 in
    let (bound, (k, e)) = fold_bound (s % two_128) (omega arith) in
    rw (reduce_digits prod (omega arith)) (
      bound,
      elim (lt-or-le s two_128) [
        | inl fits ↦ rw (lt→ltb s two_128 fits) (k + prod / bit_127, omega arith)
        | inr over ↦ rw (le→ltb_false s two_128 over) (k + prod / bit_127 + 2, omega arith)
      ],
    )

digits_bound : (prod k : ℕ) → prod < suc k * bit_127 → prod / bit_127 ≤ k
digits_bound prod k h = omega arith

-- A block is 96 bits.
product_bound :
    (d z : ℕ)
    → d ≤ bit_127 + 79228162514264337593543950335
    → z < bit_127
    → d * z < suc (bit_127 + 79228162514264337593543950335) * bit_127
product_bound d z hd hz = grind arith

abbrev scale : ℕ → ℕ → ℕ
scale zero m = m
scale (suc n) m = scale n (m * 256)

set_bytes-lt-scale :
    (acc m : ℕ) (bs : List ℕ) → All IsByte bs → acc < m → set_bytes acc bs < scale (length bs) m
unfolding set_bytes
set_bytes-lt-scale acc m [] a h = h
set_bytes-lt-scale acc m (b ∷ bs) a h =
    set_bytes-lt-scale (acc * 256 + b) (m * 256) bs a.1 (omega (arith, a.0))

swap_words-All : (bs : List ℕ) → All IsByte bs → All IsByte (swap_words bs)
unfolding swap_words
swap_words-All (a ∷ b ∷ c ∷ d ∷ rest) v =
    (v.1.1.1.0, (v.1.1.0, (v.1.0, (v.0, swap_words-All rest v.1.1.1.1))))
swap_words-All (a ∷ b ∷ c ∷ []) v = omega arith
swap_words-All (a ∷ b ∷ []) v = omega arith
swap_words-All (a ∷ []) v = omega arith
swap_words-All [] v = tt

length-swap_words : (bs : List ℕ) → length (swap_words bs) ≡ length bs
unfolding swap_words
length-swap_words (a ∷ b ∷ c ∷ d ∷ rest) = omega (arith, length-swap_words rest)
length-swap_words (a ∷ b ∷ c ∷ []) = refl
length-swap_words (a ∷ b ∷ []) = refl
length-swap_words (a ∷ []) = refl
length-swap_words [] = refl

pub record IsBlock (buf : List ℕ) : Type 0 where
  pub twelve : length buf ≡ ablk_len
  pub bytes : All IsByte buf

block_bound :
    (buf : List ℕ) → IsBlock buf → set_bytes 0 (swap_words buf) ≤ 79228162514264337593543950335
block_bound buf v =
    let r = set_bytes-lt-scale 0 1 (swap_words buf) (swap_words-All buf v.bytes) (omega arith) in
    let n : length (swap_words buf) ≡ 12 = length-swap_words buf ∙ v.twelve in
    omega (arith, rw n at r)

-- The number that a block is multiplied with the key as.
abbrev pub product : List ℕ → PolyHash → ℕ
product buf p = (set_bytes 0 (swap_words buf) + p.h) * p.z

-- For a key below 2 ^ 127, a running hash of at most 2 ^ 127 and a block of 12 bytes, the new hash is
-- at most 2 ^ 127, and it is congruent modulo 2 ^ 127 - 1 to the sum of the block and the old hash,
-- times the key, less 2 if the two 127-bit digits of that product add up to 2 ^ 128 or more.
pub update-congruent :
    (buf : List ℕ) (p : PolyHash)
    → IsBlock buf
    → p.z < bit_127
    → p.h ≤ bit_127
    → ((update buf p).h ≤ bit_127)
      × ((k : ℕ) × (product buf p ≡ (update buf p).h + lost (product buf p) + k * prime_127))
unfolding update
update-congruent buf p v hz hh =
    let b : ℕ = set_bytes 0 (swap_words buf) in
    let small = block_bound buf v in
    let whole : (b + p.h) % two_128 ≡ b + p.h = omega arith in
    let below = product_bound (b + p.h) p.z (omega arith) hz in
    let digits = digits_bound ((b + p.h) * p.z) (bit_127 + 79228162514264337593543950335) below in
    rw whole (reduce_lem ((b + p.h) * p.z) (omega arith))

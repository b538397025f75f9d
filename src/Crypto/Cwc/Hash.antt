-- ===== src/Crypto/Cwc/Hash.antt =====
-- internal/crypto/cwc/hash.go: the polynomial hash with its lazy reduction. A big.Int that is never
-- negative is a number; `x.And(x, mask128)` is `% 2 ^ 128`, `Rsh` and `Bit` are divisions.
use dso.Base.{
  ℕ, zero, suc, ◌+◌, ◌-◌, ◌*◌, ◌/◌, ◌%◌, Bool, ◌==◌, if◌then◌else◌, List, [], ◌∷◌, ◌++◌, map,
}
use dso.Base.Words.{u8}

abbrev pub ablk_len : ℕ
ablk_len = 12

-- 2 ^ 128, 2 ^ 127 and 2 ^ 64.
abbrev pub two_128 : ℕ
two_128 = 340282366920938463463374607431768211456

abbrev pub bit_127 : ℕ
bit_127 = 170141183460469231731687303715884105728

abbrev pub two_64 : ℕ
two_64 = 18446744073709551616

-- What is left after the groups of four stays zero.
unfoldable pub swap_words : List ℕ → List ℕ
swap_words (a ∷ b ∷ c ∷ d ∷ rest) = d ∷ c ∷ b ∷ a ∷ swap_words rest
swap_words rest = map (λ x. 0) rest

-- SetBytes, with the value of the bytes before.
unfoldable pub set_bytes : ℕ → List ℕ → ℕ
set_bytes acc [] = acc
set_bytes acc (b ∷ bs) = set_bytes (acc * 256 + b) bs

-- FillBytes into n bytes.
unfoldable pub fill_bytes : ℕ → ℕ → List ℕ
fill_bytes zero x = []
fill_bytes (suc n) x = fill_bytes n (x / 256) ++ u8 x ∷ []

pub record PolyHash : Type 0 where
  pub z : ℕ
  pub h : ℕ

unfoldable pub new_poly_hash : ℕ → PolyHash
new_poly_hash z = record { z = z; h = 0 }

-- `x.Bit(127) == 1`
unfoldable pub has_bit_127 : ℕ → Bool
has_bit_127 x = x / bit_127 % 2 == 1

unfoldable pub fold_127 : ℕ → ℕ
unfolding has_bit_127
fold_127 x = if has_bit_127 x then (x - bit_127 + 1) % two_128 else x

-- Both halves of the product; h is 2 * hi, with the carry of lo's bit 127 and then lo added.
unfoldable pub reduce : ℕ → ℕ
reduce prod =
    let hi = prod / two_128 in
    let lo = prod % two_128 in
    let h = hi * 2 % two_128 in
    fold_127 (
      if has_bit_127 lo then ((h + 1) % two_128 + (lo - bit_127)) % two_128 else (h + lo) % two_128)

unfoldable pub update : List ℕ → PolyHash → PolyHash
update buf p = record p { h = reduce ((set_bytes 0 (swap_words buf) + p.h) % two_128 * p.z) }

-- The lengths are uint64, so `Or` of the two is their sum.
unfoldable pub finalize : ℕ → ℕ → PolyHash → List ℕ
finalize hdr_len data_len p =
    let len_blk = hdr_len % two_64 * two_64 + data_len % two_64 in
    fill_bytes 16 (fold_127 ((p.h + len_blk) % two_128))

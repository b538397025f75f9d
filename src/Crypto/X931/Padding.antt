-- ===== src/Crypto/X931/Padding.antt =====
-- internal/crypto/x931/x931.go: the X9.31 padding and the two operations over it. The modulus, the
-- exponents and the size in bytes are those of the key; Exp of math/big is the power and the remainder.
use dso.Base.{
  ℕ, suc, ◌+◌, ◌-◌, ◌%◌, ◌^◌, not, ◌||◌, ltb, leb, ◌==◌, if◌then◌else◌, List, [], ◌∷◌, ◌++◌, length,
  take, drop, replicate,
}
use dso.Base.Words.{at}
use dso.Base.Result.{Result, ok, err}
use dso.Crypto.Cwc.Hash.{set_bytes, fill_bytes}

pub data X931Error : Type 0 where
  too_long bad_pad : X931Error

-- 0x6B, 0xBB j - 1 times, 0xBA, msg, 0xCC, or 0x6A, msg, 0xCC for j = 0.
unfoldable pub pad : List ℕ → ℕ → Result X931Error (List ℕ)
pad msg k =
    let j = k - length msg - 2 in
    if ltb k (length msg + 2)
    then err too_long
    else ok (
        if j == 0
        then 0x6A ∷ (msg ++ 0xCC ∷ [])
        else 0x6B ∷ (replicate (j - 1) 0xBB ++ (0xBA ∷ (msg ++ 0xCC ∷ []))))

-- The loop over the bytes 0xBB: how many there are in front.
unfoldable pub count_fill : List ℕ → ℕ
count_fill [] = 0
count_fill (x ∷ xs) = let more = count_fill xs in if x == 0xBB then suc more else 0

-- Behind the switch: the message starts at i.
unfoldable pub cut_message : ℕ → List ℕ → Result X931Error (List ℕ)
cut_message i em =
    if ltb (length em - 1) i then err bad_pad else ok (take (length em - 1 - i) (drop i em))

unfoldable pub unpad : List ℕ → Result X931Error (List ℕ)
unpad em =
    let n = length em in
    let i = 1 + count_fill (drop 1 em) in
    if ltb n 3 || not (at em (n - 1) == 0xCC)
    then err bad_pad
    else if at em 0 == 0x6A
    then cut_message 1 em
    else if not (at em 0 == 0x6B)
    then err bad_pad
    else if leb n i || not (at em i == 0xBA)
    then err bad_pad
    else cut_message (i + 1) em

pub record Key : Type 0 where
  pub n : ℕ
  pub e : ℕ
  pub d : ℕ
  pub size : ℕ

-- The numerically smaller of s and n - s.
unfoldable pub smaller : ℕ → ℕ → ℕ
smaller n s = if ltb (n - s) s then n - s else s

unfoldable pub raise_private : Key → List ℕ → Result X931Error (List ℕ)
raise_private key em =
    let m = set_bytes 0 em in
    if leb key.n m
    then err too_long
    else ok (fill_bytes key.size (smaller key.n (m ^ key.d % key.n)))

unfoldable pub private_encrypt : Key → List ℕ → Result X931Error (List ℕ)
private_encrypt key msg = elim (pad msg key.size) [ err e ↦ err e | ok em ↦ raise_private key em ]

-- A number whose low nibble is not 0xC stands for what it lacks to n.
unfoldable pub undo_smaller : ℕ → ℕ → ℕ
undo_smaller n m = if not (m % 16 == 12) then n - m else m

unfoldable pub public_decrypt : Key → List ℕ → Result X931Error (List ℕ)
public_decrypt key sig =
    let s = set_bytes 0 sig in
    if not (length sig == key.size)
    then err bad_pad
    else if leb key.n s
    then err bad_pad
    else unpad (fill_bytes key.size (undo_smaller key.n (s ^ key.e % key.n)))

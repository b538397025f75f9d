-- ===== src/Crypto/X931/Recovery.antt =====
-- internal/crypto/x931/x931.go: PublicDecrypt on what PrivateEncrypt gives.
use native.Mathlib.Nat.{mod-lt}
use dso.Base.{
  ℕ, zero, suc, ◌+◌, ◌-◌, ◌*◌, ◌%◌, ◌^◌, ◌≤◌, ◌<◌, ◌≡◌, refl, sym, ap, ◌∙◌, arith, true, false, ltb,
  List, [], ◌∷◌, ◌++◌, length, replicate, All, All-append, append_assoc, ◌⊎◌, inl, inr,
}
use dso.Base.Words.{IsByte}
use dso.Base.Result.{Result, ok}
use dso.Crypto.Cwc.Hash.{set_bytes, fill_bytes}
use dso.Crypto.X931.Padding.{
  X931Error, pad, unpad, Key, smaller, raise_private, private_encrypt, undo_smaller, public_decrypt,
}
use dso.Crypto.X931.PaddingLaws.{pad-cases, unpad-pad}
use dso.Crypto.X931.Numbers.{
  power_256, set_bytes-append, set_bytes-fill_bytes, fill_bytes-set_bytes, length-fill_bytes,
  odd_power-complement,
}

ok_inj : (x y : List ℕ) → ◌≡◌ {A = Result X931Error (List ℕ)} (ok x) (ok y) → x ≡ y
ok_inj x y h = cc

replicate-IsByte : (c : ℕ) → All IsByte (replicate c 0xBB)
replicate-IsByte zero = tt
replicate-IsByte (suc c) = (omega arith, replicate-IsByte c)

-- What is padded are bytes that end in 0xCC.
abbrev Shape : List ℕ → Type 0
Shape em = All IsByte em × ((front : List ℕ) × (em ≡ front ++ 0xCC ∷ []))

pad-Shape : (msg em : List ℕ) (k : ℕ) → All IsByte msg → pad msg k ≡ ok em → Shape em
unfolding pad
pad-Shape msg em k v h = elim (pad-cases msg k) [
  | inl long ↦ absurd (ground arith)
  | inr (inl e) ↦
      let is : 0x6A ∷ (msg ++ 0xCC ∷ []) ≡ em = ground arith in
      rw (sym is)
        ((omega arith, All-append IsByte msg (0xCC ∷ []) v (omega arith)), (0x6A ∷ msg, refl))
  | inr (inr short) ↦
      let c = k - length msg - 2 - 1 in
      let fill : List ℕ = replicate c 0xBB in
      let is : 0x6B ∷ (fill ++ (0xBA ∷ (msg ++ 0xCC ∷ []))) ≡ em = ground arith in
      rw (sym is) (
        (
          omega arith,
          All-append IsByte fill (0xBA ∷ (msg ++ 0xCC ∷ [])) (replicate-IsByte c)
              (omega arith, All-append IsByte msg (0xCC ∷ []) v (omega arith)),
        ),
        (
          0x6B ∷ (fill ++ (0xBA ∷ msg)),
          ap (λ t. 0x6B ∷ t) (sym (append_assoc fill (0xBA ∷ msg) (0xCC ∷ []))),
        ),
      )
]

low_nibble : (em : List ℕ) → Shape em → set_bytes 0 em % 16 ≡ 12
low_nibble em (v, (front, e)) = omega (arith, ap (set_bytes 0) e, set_bytes-append 0 front 0xCC)

smaller-cases : (n s : ℕ) → (ltb (n - s) s ≡ false) ⊎ (ltb (n - s) s ≡ true)
smaller-cases n s = ground arith

-- The smaller of s and n - s, raised to an odd power and undone, gives what s gives.
undo_lem :
    (n s q m : ℕ)
    → n % 2 ≡ 1
    → s < n
    → s ^ (2 * q + 1) % n ≡ m
    → m % 16 ≡ 12
    → m < n
    → undo_smaller n (smaller n s ^ (2 * q + 1) % n) ≡ m
unfolding undo_smaller smaller
undo_lem n s q m odd small e low less = elim (smaller-cases n s) [
  | inl same ↦ rw (same, e) (ground arith)
  | inr other ↦
      rw (other, odd_power-complement n s q (omega arith) (omega arith) (omega arith), e)
        (ground arith)
]

smaller-lt : (n s : ℕ) → s < n → smaller n s < n
unfolding smaller
smaller-lt n s h = ground arith

unpad_padded :
    (msg em : List ℕ) (k : ℕ) → 3 ≤ k → pad msg k ≡ ok em → (length em ≡ k) × (unpad em ≡ ok msg)
unpad_padded msg em k h e = elim (unpad-pad msg k h) [
  | inl (long, refused) ↦ absurd (ground arith)
  | inr (short, other, made, size, back) ↦
      let same : other ≡ em = ok_inj other em (sym made ∙ e) in
      (ap length (sym same) ∙ size, ap unpad (sym same) ∙ back)
]

private_encrypt-padded :
    (key : Key) (msg em : List ℕ)
    → pad msg key.size ≡ ok em
    → private_encrypt key msg ≡ raise_private key em
unfolding private_encrypt
private_encrypt-padded key msg em h = rw (private_encrypt, h) refl

raise_below :
    (key : Key) (em : List ℕ)
    → set_bytes 0 em < key.n
    → raise_private key em
      ≡ ok (fill_bytes key.size (smaller key.n (set_bytes 0 em ^ key.d % key.n)))
unfolding raise_private
raise_below key em h = ground arith

-- Let the size of a key be at least 3 bytes and enough for its modulus, the modulus and the public
-- exponent be odd, and a message of bytes be padded to a number below the modulus which the two
-- exponents of the key take to itself. Then PrivateEncrypt gives a signature of the key's size, and
-- PublicDecrypt gives back the message, whichever of s and n - s was sent.
pub public_decrypt-private_encrypt :
    (key : Key) (msg em : List ℕ) (q : ℕ)
    → 3 ≤ key.size
    → key.n ≤ power_256 key.size
    → key.n % 2 ≡ 1
    → key.e ≡ 2 * q + 1
    → All IsByte msg
    → pad msg key.size ≡ ok em
    → set_bytes 0 em < key.n
    → (set_bytes 0 em ^ key.d % key.n) ^ key.e % key.n ≡ set_bytes 0 em
    → (sig : List ℕ) × (private_encrypt key msg ≡ ok sig)
      × (length sig ≡ key.size)
      × (public_decrypt key sig ≡ ok msg)
unfolding public_decrypt
public_decrypt-private_encrypt key msg em q three fits odd exponent v padded below pair =
    let m = set_bytes 0 em in
    let s = m ^ key.d % key.n in
    let sent = smaller key.n s in
    let small : s < key.n = mod-lt (m ^ key.d) (omega arith) in
    let bound : sent < key.n = smaller-lt key.n s small in
    let sig = fill_bytes key.size sent in
    let read : set_bytes 0 sig ≡ sent = set_bytes-fill_bytes key.size sent (omega arith) in
    let size : length sig ≡ key.size = length-fill_bytes key.size sent in
    let shape = pad-Shape msg em key.size v padded in
    let (whole, back) = unpad_padded msg em key.size three padded in
    let undone : undo_smaller key.n (sent ^ key.e % key.n) ≡ m =
      ap (λ e. undo_smaller key.n (sent ^ e % key.n)) exponent
      ∙ undo_lem key.n s q m odd small (ap (λ e. s ^ e % key.n) (sym exponent) ∙ pair)
          (low_nibble em shape) below in
    let again : fill_bytes key.size m ≡ em =
      ap (λ k. fill_bytes k m) (sym whole) ∙ fill_bytes-set_bytes em shape.0 in
    (
      sig,
      private_encrypt-padded key msg em padded ∙ raise_below key em below,
      size,
      rw (size, read, undone, again, back) (ground arith),
    )

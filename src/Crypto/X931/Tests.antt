-- ===== src/Crypto/X931/Tests.antt =====
-- The padding at concrete inputs, with a key of 24 bits whose exponents are both 17.
use dso.Base.{ℕ, ◌%◌, ◌^◌, ◌<◌, ◌≡◌, refl, arith, List, [], ◌∷◌, length}
use dso.Base.Result.{ok}
use dso.Crypto.Cwc.Hash.{set_bytes}
use dso.Crypto.X931.Padding.{pad, Key, private_encrypt, public_decrypt}
use dso.Crypto.X931.Recovery.{public_decrypt-private_encrypt}

-- 97 * 73 * 37 * 19 * 3; one less than each factor divides 17 * 17 - 1.
abbrev small_key : Key
small_key = record { n = 14933829; e = 17; d = 17; size = 3 }

abbrev one_byte : List ℕ
one_byte = 0x41 ∷ []

abbrev padded_byte : List ℕ
padded_byte = 0x6A ∷ 0x41 ∷ 0xCC ∷ []

pads : pad one_byte 3 ≡ ok padded_byte
unfolding pad
pads = refl

below : set_bytes 0 padded_byte < 14933829
unfolding set_bytes
below = omega arith

exponents_fit : (set_bytes 0 padded_byte ^ 17 % 14933829) ^ 17 % 14933829 ≡ set_bytes 0 padded_byte
unfolding set_bytes
exponents_fit = refl

public_decrypt-private_encrypt_example :
    (sig : List ℕ) × (private_encrypt small_key one_byte ≡ ok sig)
    × (length sig ≡ 3)
    × (public_decrypt small_key sig ≡ ok one_byte)
public_decrypt-private_encrypt_example =
    public_decrypt-private_encrypt small_key one_byte padded_byte 8 (omega arith) (omega arith) refl
      refl (omega arith) pads below exponents_fit

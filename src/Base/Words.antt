-- ===== src/Base/Words.antt =====
-- Bytes and machine words: the reads and writes of Go's encoding/binary on byte slices, which the
-- wire formats share. A byte slice is a list of numbers.
use dso.Base.{ℕ, ◌+◌, ◌*◌, ◌/◌, ◌%◌, ◌<◌, ◌≡◌, arith, List, [], ◌∷◌, get_or}

abbrev pub IsByte : ℕ → Type 0
IsByte b = b < 256

abbrev pub u8 : ℕ → ℕ
u8 n = n % 256

abbrev pub u16 : ℕ → ℕ
u16 n = n % 65536

abbrev pub u32 : ℕ → ℕ
u32 n = n % 4294967296

-- PutUint16 and PutUint32 of the big-endian order, and PutUint16 and PutUint32 of the little-endian.
abbrev pub put_u16_be : ℕ → List ℕ
put_u16_be v = u8 (v / 256) ∷ u8 v ∷ []

abbrev pub put_u32_be : ℕ → List ℕ
put_u32_be v = u8 (v / 16777216) ∷ u8 (v / 65536) ∷ u8 (v / 256) ∷ u8 v ∷ []

abbrev pub put_u16_le : ℕ → List ℕ
put_u16_le v = u8 v ∷ u8 (v / 256) ∷ []

abbrev pub put_u32_le : ℕ → List ℕ
put_u32_le v = u8 v ∷ u8 (v / 256) ∷ u8 (v / 65536) ∷ u8 (v / 16777216) ∷ []

-- The byte at an index. The callers test the length first, so the default is never read there.
abbrev pub at : List ℕ → ℕ → ℕ
at b i = get_or b i 0

-- Uint16 and Uint32 at an offset of a slice.
abbrev pub u16_be_at : List ℕ → ℕ → ℕ
u16_be_at b i = at b i * 256 + at b (i + 1)

abbrev pub u32_be_at : List ℕ → ℕ → ℕ
u32_be_at b i = at b i * 16777216 + at b (i + 1) * 65536 + at b (i + 2) * 256 + at b (i + 3)

abbrev pub u32_le_at : List ℕ → ℕ → ℕ
u32_le_at b i = at b i + at b (i + 1) * 256 + at b (i + 2) * 65536 + at b (i + 3) * 16777216

pub join_u16 : (v : ℕ) → v < 65536 → u8 (v / 256) * 256 + u8 v ≡ v
join_u16 v h = omega arith

pub join_u32_be :
    (v : ℕ)
    → v < 4294967296
    → u8 (v / 16777216) * 16777216 + u8 (v / 65536) * 65536 + u8 (v / 256) * 256 + u8 v ≡ v
join_u32_be v h = omega arith

pub join_u32_le :
    (v : ℕ)
    → v < 4294967296
    → u8 v + u8 (v / 256) * 256 + u8 (v / 65536) * 65536 + u8 (v / 16777216) * 16777216 ≡ v
join_u32_le v h = omega arith

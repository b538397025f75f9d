-- ===== src/Rudp/Sequence.antt =====
-- internal/frpg/rudp/sequence.go: comparing 12-bit sequence numbers across a wrap.
use dso.Base.{
  ℕ, ◌+◌, ◌-◌, ◌/◌, ◌%◌, ◌^◌, ◌<◌, ◌≡◌, ◌↔◌, ◌⊎◌, arith, Bool, true, false, not, ◌&&◌, ltb, leb,
  ◌==◌,
}

abbrev pub max_ack_value : ℕ
max_ack_value = 4096

-- `b - a` on uint32 wraps at 2 ^ 32.
unfoldable pub seq_delta : ℕ → ℕ → ℕ
seq_delta a b = (b + 2 ^ 32 - a) % 2 ^ 32 % max_ack_value

unfoldable pub seq_newer : ℕ → ℕ → Bool
unfolding seq_delta
seq_newer a b = let d = seq_delta b a in not (d == 0) && ltb d (max_ack_value / 2)

unfoldable pub seq_at_or_before : ℕ → ℕ → Bool
unfolding seq_delta
seq_at_or_before a b = ltb (seq_delta a b) (max_ack_value / 2)

-- For 12-bit a, b and d, the forward distance from a to b is d exactly when d increments modulo
-- 4096 take a to b.
pub seq_delta_iff :
    (a b d : ℕ)
    → a < max_ack_value
    → b < max_ack_value
    → d < max_ack_value
    → (seq_delta a b ≡ d) ↔ ((a + d) % max_ack_value ≡ b)
unfolding seq_delta
seq_delta_iff a b d ha hb hd = (λ h. omega arith, λ h. omega arith)

-- On the residues of two unbounded counters less than 2048 apart, either way round, the modular
-- tests give the order of the counters: newer is strictly greater, at-or-before is at most.
pub seq_order_window :
    (i j : ℕ)
    → i < j + 2048
    → j < i + 2048
    → (seq_newer (i % max_ack_value) (j % max_ack_value) ≡ ltb j i)
      × (seq_at_or_before (i % max_ack_value) (j % max_ack_value) ≡ leb i j)
unfolding seq_newer seq_at_or_before
seq_order_window i j h k = (ground arith, ground arith)

-- For 12-bit numbers, a is at or before b exactly when they are equal or b is newer than a.
pub seq_at_or_before_iff :
    (a b : ℕ)
    → a < max_ack_value
    → b < max_ack_value
    → (seq_at_or_before a b ≡ true) ↔ ((a ≡ b) ⊎ (seq_newer b a ≡ true))
unfolding seq_newer seq_at_or_before
seq_at_or_before_iff a b ha hb = (λ h. ground arith, λ h. ground arith)

-- Newer is asymmetric on 12-bit numbers.
pub seq_newer_asymm :
    (a b : ℕ) → a < max_ack_value → b < max_ack_value → seq_newer a b ≡ true → seq_newer b a ≡ false
unfolding seq_newer
seq_newer_asymm a b ha hb h = ground arith

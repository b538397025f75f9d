-- ===== src/Crypto/Frpg/Layout.antt =====
-- internal/crypto/frpgcipher: where the parts of a packet lie.
use dso.Base.{
  ℕ, ◌+◌, ◌<◌, ◌≡◌, refl, sym, ap, ◌∙◌, arith, zero, suc, List, [], ◌∷◌, ◌++◌, length, take, drop,
  take-append_length, drop-append_length,
}
use dso.Base.Words.{at}

-- Two parts of which the first has n elements.
pub take-append : (n : ℕ) (xs ys : List ℕ) → length xs ≡ n → take n (xs ++ ys) ≡ xs
take-append n xs ys e = ap (λ k. take k (xs ++ ys)) (sym e) ∙ take-append_length xs ys

pub drop-append : (n : ℕ) (xs ys : List ℕ) → length xs ≡ n → drop n (xs ++ ys) ≡ ys
drop-append n xs ys e = ap (λ k. drop k (xs ++ ys)) (sym e) ∙ drop-append_length xs ys

drop_nil : (n : ℕ) → drop {A = ℕ} n [] ≡ []
drop_nil zero = refl
drop_nil (suc n) = refl

pub drop-drop : (n m : ℕ) (xs : List ℕ) → drop (n + m) xs ≡ drop m (drop n xs)
drop-drop zero m xs = ap (λ k. drop k xs) (omega arith)
drop-drop (suc n) m [] = drop_nil (suc n + m) ∙ sym (drop_nil m)
drop-drop (suc n) m (x ∷ xs) =
    ap (λ k. drop k (x ∷ xs)) {y = suc (n + m)} (omega arith) ∙ drop-drop n m xs

pub at-drop : (n : ℕ) (xs : List ℕ) → at xs n ≡ at (drop n xs) 0
at-drop zero xs = refl
at-drop (suc n) [] = refl
at-drop (suc n) (x ∷ xs) = at-drop n xs

-- A nonempty list is its first element and the rest.
pub at_head : (xs : List ℕ) → 0 < length xs → at xs 0 ∷ drop 1 xs ≡ xs
at_head [] h = absurd (omega arith)
at_head (x ∷ xs) h = refl

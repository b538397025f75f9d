-- ===== src/Crypto/X931/PaddingLaws.antt =====
-- internal/crypto/x931/x931.go: pad and unpad.
use dso.Base.{
  ℕ, zero, suc, ◌+◌, ◌-◌, ◌≤◌, ◌<◌, ◌≡◌, refl, sym, ap, ◌∙◌, arith, false, ◌==◌, List, [], ◌∷◌,
  ◌++◌, length, take, drop, replicate, length-append, length-replicate, take-append_length,
  append_assoc, ◌⊎◌, inl, inr,
}
use dso.Base.Words.{at}
use dso.Base.Result.{ok, err}
use dso.Crypto.Frpg.Layout.{drop-append}
use dso.Crypto.X931.Padding.{too_long, pad, count_fill, cut_message, unpad}

at-last : (xs : List ℕ) (y : ℕ) → at (xs ++ y ∷ []) (length xs) ≡ y
at-last [] y = refl
at-last (x ∷ xs) y = at-last xs y

count_fill-replicate :
    (c x : ℕ) (rest : List ℕ)
    → (x == 0xBB) ≡ false
    → count_fill (replicate c 0xBB ++ (x ∷ rest)) ≡ c
unfolding count_fill
count_fill-replicate zero x rest e = rw e refl
count_fill-replicate (suc c) x rest e = ap suc (count_fill-replicate c x rest e)

-- The message between i bytes in front and the last byte.
cut_message-between :
    (front msg : List ℕ) (i : ℕ)
    → length front ≡ i
    → cut_message i (front ++ (msg ++ 0xCC ∷ [])) ≡ ok msg
unfolding cut_message
cut_message-between front msg i e =
    let em = front ++ (msg ++ 0xCC ∷ []) in
    let size : length em ≡ i + length msg + 1 =
      omega (arith, length-append front (msg ++ 0xCC ∷ []), length-append msg (0xCC ∷ [])) in
    let rest = drop-append i front (msg ++ 0xCC ∷ []) e in
    let middle : take (length em - 1 - i) (drop i em) ≡ msg =
      ap (λ k. take k (drop i em)) {y = length msg} (omega arith)
      ∙ ap (take (length msg)) rest
      ∙ take-append_length msg (0xCC ∷ []) in
    rw middle (rw size (ground arith))

at-append : (xs ys : List ℕ) (i : ℕ) → at (xs ++ ys) (length xs + i) ≡ at ys i
at-append [] ys i = ap (at ys) (omega arith)
at-append (x ∷ xs) ys i =
    ap (at (x ∷ (xs ++ ys))) {y = suc (length xs + i)} (omega arith) ∙ at-append xs ys i

unpad_bare :
    (em : List ℕ)
    → 3 ≤ length em
    → at em (length em - 1) ≡ 0xCC
    → at em 0 ≡ 0x6A
    → unpad em ≡ cut_message 1 em
unfolding unpad
unpad_bare em h last first = ground arith

unpad_filled :
    (em : List ℕ) (i : ℕ)
    → 3 ≤ length em
    → at em (length em - 1) ≡ 0xCC
    → at em 0 ≡ 0x6B
    → 1 + count_fill (drop 1 em) ≡ i
    → i < length em
    → at em i ≡ 0xBA
    → unpad em ≡ cut_message (i + 1) em
unfolding unpad
unpad_filled em i h last first e small mark = rw (first, last, e, mark) (ground arith)

-- The last byte behind a front and a message.
last_byte :
    (front msg : List ℕ) → let em = front ++ (msg ++ 0xCC ∷ []) in at em (length em - 1) ≡ 0xCC
last_byte front msg =
    let em = front ++ (msg ++ 0xCC ∷ []) in
    ap (at em) {y = length front + length msg}
      (omega (arith, length-append front (msg ++ 0xCC ∷ []), length-append msg (0xCC ∷ [])))
    ∙ at-append front (msg ++ 0xCC ∷ []) (length msg)
    ∙ at-last msg 0xCC

pad_bare_back : (msg : List ℕ) → 0 < length msg → unpad (0x6A ∷ (msg ++ 0xCC ∷ [])) ≡ ok msg
pad_bare_back msg h =
    let size = length-append msg (0xCC ∷ []) in
    unpad_bare (0x6A ∷ (msg ++ 0xCC ∷ [])) (omega (arith, size)) (last_byte (0x6A ∷ []) msg) refl
    ∙ cut_message-between (0x6A ∷ []) msg 1 refl

pub pad-cases :
    (msg : List ℕ) (k : ℕ) → (k < length msg + 2) ⊎ ((k ≡ length msg + 2) ⊎ (length msg + 2 < k))
pad-cases msg k = omega arith

pad_filled_back :
    (c : ℕ) (msg : List ℕ)
    → unpad (0x6B ∷ (replicate c 0xBB ++ (0xBA ∷ (msg ++ 0xCC ∷ [])))) ≡ ok msg
pad_filled_back c msg =
    let fill : List ℕ = replicate c 0xBB in
    let rest = msg ++ 0xCC ∷ [] in
    let front : List ℕ = 0x6B ∷ (fill ++ 0xBA ∷ []) in
    let em : List ℕ = 0x6B ∷ (fill ++ (0xBA ∷ rest)) in
    let same : em ≡ front ++ rest = ap (λ t. 0x6B ∷ t) (sym (append_assoc fill (0xBA ∷ []) rest)) in
    let filled : length fill ≡ c = length-replicate c 0xBB in
    let size : length em ≡ c + length msg + 3 =
      omega (arith, filled, length-append fill (0xBA ∷ rest), length-append msg (0xCC ∷ [])) in
    let last : at em (length em - 1) ≡ 0xCC =
      ap (λ e. at e (length e - 1)) same ∙ last_byte front msg in
    let mark : at em (1 + c) ≡ 0xBA =
      ap (at em) {y = suc (length fill) + 0} (omega (arith, filled))
      ∙ at-append (0x6B ∷ fill) (0xBA ∷ rest) 0 in
    let counted : 1 + count_fill (fill ++ (0xBA ∷ rest)) ≡ 1 + c =
      ap (λ n. 1 + n) (count_fill-replicate c 0xBA rest refl) in
    unpad_filled em (1 + c) (omega arith) last refl counted (omega arith) mark
    ∙ ap (cut_message (1 + c + 1)) same
    ∙ cut_message-between front msg (1 + c + 1)
        (omega (arith, filled, length-append fill (0xBA ∷ [])))

-- For at least 3 bytes, a message that is shorter by two bytes or more is padded to exactly that many,
-- and unpad gives the message back; a longer message is refused.
pub unpad-pad :
    (msg : List ℕ) (k : ℕ)
    → 3 ≤ k
    → ((k < length msg + 2) × (pad msg k ≡ err too_long))
      ⊎ ((length msg + 2 ≤ k)
          × (em : List ℕ) × (pad msg k ≡ ok em)
          × (length em ≡ k)
          × (unpad em ≡ ok msg))
unfolding pad
unpad-pad msg k h = elim (pad-cases msg k) [
  | inl long ↦ inl (long, ground arith)
  | inr (inl e) ↦ inr (
    omega arith,
    0x6A ∷ (msg ++ 0xCC ∷ []),
    ground arith,
    omega (arith, length-append msg (0xCC ∷ [])),
    pad_bare_back msg (omega arith),
  )
  | inr (inr short) ↦
      let c = k - length msg - 2 - 1 in
      let fill : List ℕ = replicate c 0xBB in
      inr (
        omega arith,
        0x6B ∷ (fill ++ (0xBA ∷ (msg ++ 0xCC ∷ []))),
        ground arith,
        omega (
          arith,
          length-replicate {A = ℕ} c 0xBB,
          length-append fill (0xBA ∷ (msg ++ 0xCC ∷ [])),
          length-append msg (0xCC ∷ []),
        ),
        pad_filled_back c msg,
      )
]

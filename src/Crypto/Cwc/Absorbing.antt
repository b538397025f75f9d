-- ===== src/Crypto/Cwc/Absorbing.antt =====
-- internal/crypto/cwc/cwc.go: absorbing bytes in pieces, against one byte at a time.
use dso.Base.{
  length-take, length-drop, take-append-drop, ℕ, zero, suc, ◌+◌, ◌-◌, ◌≤◌, ◌<◌, ◌≡◌, refl, sym, ap,
  ◌∙◌, arith, ne→==_false, List, [], ◌∷◌, ◌++◌, length, take, drop, append_assoc, append-nil,
  length-append,
}
use dso.Crypto.Cwc.Hash.{ablk_len}
use dso.Crypto.Cwc.Context.{MsgState, emit_full, absorb_loop, absorb}

-- One byte at a time.
unfoldable pub absorb_byte : ℕ → MsgState → MsgState
absorb_byte x s = emit_full (record s { buf = s.buf ++ x ∷ [] })

unfoldable pub absorb_bytes : List ℕ → MsgState → MsgState
absorb_bytes [] s = s
absorb_bytes (x ∷ xs) s = absorb_bytes xs (absorb_byte x s)

-- The buffer is not full.
abbrev pub HasRoom : MsgState → Type 0
HasRoom s = length s.buf < ablk_len

emit_full-HasRoom : (s : MsgState) → length s.buf ≤ ablk_len → HasRoom (emit_full s)
unfolding emit_full
emit_full-HasRoom s h = ground arith

absorb_byte-HasRoom : (x : ℕ) (s : MsgState) → HasRoom s → HasRoom (absorb_byte x s)
unfolding absorb_byte
absorb_byte-HasRoom x s h =
    emit_full-HasRoom (record s { buf = s.buf ++ x ∷ [] })
      (omega (arith, length-append s.buf (x ∷ [])))

pub absorb_bytes-HasRoom : (xs : List ℕ) (s : MsgState) → HasRoom s → HasRoom (absorb_bytes xs s)
unfolding absorb_bytes
absorb_bytes-HasRoom [] s h = h
absorb_bytes-HasRoom (x ∷ xs) s h =
    absorb_bytes-HasRoom xs (absorb_byte x s) (absorb_byte-HasRoom x s h)

pub absorb_bytes-append :
    (xs ys : List ℕ) (s : MsgState)
    → absorb_bytes (xs ++ ys) s ≡ absorb_bytes ys (absorb_bytes xs s)
unfolding absorb_bytes
absorb_bytes-append [] ys s = refl
absorb_bytes-append (x ∷ xs) ys s = absorb_bytes-append xs ys (absorb_byte x s)

not_full : (s : MsgState) → HasRoom s → emit_full s ≡ s
unfolding emit_full
not_full s h = rw (ne→==_false (length s.buf) ablk_len (λ e. omega arith)) refl

-- A round of the loop: what fits the buffer, all at once.
absorb_piece :
    (xs : List ℕ) (s : MsgState)
    → length s.buf + length xs ≤ ablk_len
    → HasRoom s
    → emit_full (record s { buf = s.buf ++ xs }) ≡ absorb_bytes xs s
unfolding absorb_bytes absorb_byte
absorb_piece [] s h r =
    ap emit_full (ap (λ b. record s { buf = b }) (append-nil s.buf)) ∙ not_full s r
absorb_piece (x ∷ []) s h r = refl
absorb_piece (x ∷ y ∷ xs) s h r =
    let s' : MsgState = record s { buf = s.buf ++ x ∷ [] } in
    let n = length-append s.buf (x ∷ []) in
    ap (λ b. emit_full (record s { buf = b })) (sym (append_assoc s.buf (x ∷ []) (y ∷ xs)))
    ∙ absorb_piece (y ∷ xs) s' (omega arith) (omega arith)
    ∙ ap (absorb_bytes (y ∷ xs)) (sym (not_full s' (omega arith)))

absorb_round :
    (fuel x : ℕ) (xs : List ℕ) (s : MsgState)
    → let room = ablk_len - length s.buf in
      absorb_loop (suc fuel) (x ∷ xs) s
      ≡ absorb_loop fuel
          (drop room (x ∷ xs))
          (emit_full (record s { buf = s.buf ++ take room (x ∷ xs) }))
unfolding absorb_loop
absorb_round fuel x xs s = refl

absorb_loop-bytes :
    (fuel : ℕ) (xs : List ℕ) (s : MsgState)
    → length xs ≤ fuel
    → HasRoom s
    → absorb_loop fuel xs s ≡ absorb_bytes xs s
absorb_loop-bytes zero [] s h r = unfold absorb_loop in unfold absorb_bytes in refl
absorb_loop-bytes zero (x ∷ xs) s h r = absurd (omega arith)
absorb_loop-bytes (suc fuel) [] s h r = unfold absorb_loop in unfold absorb_bytes in refl
absorb_loop-bytes (suc fuel) (x ∷ xs) s h r =
    let room : ℕ = ablk_len - length s.buf in
    let piece = take room (x ∷ xs) in
    let rest = drop room (x ∷ xs) in
    let taken = length-take room (x ∷ xs) in
    let now : emit_full (record s { buf = s.buf ++ piece }) ≡ absorb_bytes piece s =
      absorb_piece piece s (omega arith) r in
    let later : absorb_loop fuel rest (absorb_bytes piece s)
        ≡ absorb_bytes rest (absorb_bytes piece s) =
      absorb_loop-bytes fuel rest (absorb_bytes piece s) (omega (arith, length-drop room (x ∷ xs)))
        (absorb_bytes-HasRoom piece s r) in
    absorb_round fuel x xs s
    ∙ ap (absorb_loop fuel rest) now
    ∙ later
    ∙ sym (absorb_bytes-append piece rest s)
    ∙ ap (λ l. absorb_bytes l s) (take-append-drop room (x ∷ xs))

absorb-bytes : (xs : List ℕ) (s : MsgState) → HasRoom s → absorb xs s ≡ absorb_bytes xs s
unfolding absorb
absorb-bytes xs s r = absorb_loop-bytes (length xs) xs s (omega arith) r

-- From a buffer that is not full, absorbing two pieces one after the other is absorbing them joined:
-- the hash does not depend on how its input is cut. The buffer is not full afterwards.
pub absorb-append :
    (xs ys : List ℕ) (s : MsgState)
    → length s.buf < ablk_len
    → (absorb (xs ++ ys) s ≡ absorb ys (absorb xs s)) × (length (absorb xs s).buf < ablk_len)
absorb-append xs ys s r =
    let first = absorb-bytes xs s r in
    let roomy : HasRoom (absorb xs s) = rw first (absorb_bytes-HasRoom xs s r) in
    (
      absorb-bytes (xs ++ ys) s r
          ∙ absorb_bytes-append xs ys s
          ∙ ap (absorb_bytes ys) (sym first)
          ∙ sym (absorb-bytes ys (absorb xs s) roomy),
      roomy,
    )

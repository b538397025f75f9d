-- ===== src/Rudp/Fragments/RoundTrip.antt =====
-- internal/frpg/rudp/message.go: the reassembler on the fragments of encodeFragments.
use Prim.Native.Nat.{min}
use dso.Base.{
  ℕ, zero, suc, ◌+◌, ◌-◌, ◌*◌, ◌/◌, ◌≤◌, ◌<◌, ◌≡◌, ap, ◌∙◌, arith, true, false, Option, none, some,
  List, [], ◌∷◌, ◌++◌, length, take, drop, length-take, length-drop, length-append,
  take-append-take, take-min, take-all,
}
use dso.Base.Words.{u8, u16}
use dso.Base.Result.{ok}
use dso.Rudp.Fragments.{
  max_fragment_length, chunk, fragment, fragment_count, fragments_from, encode_fragments,
  Reassembler, idle, Answer, complete, append_body, start, push_body, push, push_all,
}

-- No message yet k times, and then the payload.
abbrev pub answers : List ℕ → ℕ → List Answer
answers payload zero = ok (some payload) ∷ []
answers payload (suc k) = ok none ∷ answers payload k

wrapped_u16 : (v : ℕ) → v < 65536 → u8 (u16 v / 256) * 256 + u8 (u16 v) ≡ v
wrapped_u16 v h = omega arith

push_all_cons :
    (inflate : List ℕ → Option (List ℕ)) (frag : List ℕ) (frags : List (List ℕ)) (r : Reassembler)
    {q z : Reassembler} {a : Answer} {as' : List Answer}
    → push inflate frag r ≡ (q, a)
    → push_all inflate frags q ≡ (z, as')
    → push_all inflate (frag ∷ frags) r ≡ (z, a ∷ as')
unfolding push_all
push_all_cons inflate frag frags r e f = rw (e, f)

module _ (inflate : List ℕ → Option (List ℕ)) (payload : List ℕ) (counter : ℕ)
    (fits : length payload < 65536) where
  length-chunk :
      (i : ℕ)
      → length (chunk payload i)
        ≡ min max_fragment_length (length payload - i * max_fragment_length)
  unfolding chunk
  length-chunk i =
      let s : ℕ = i * max_fragment_length in
      let e : ℕ = min (s + max_fragment_length) (length payload) in
      omega (arith, length-take (e - s) (drop s payload), length-drop s payload)

  -- What push reads from the header of fragment i.
  push-fragment :
      (i : ℕ) (r : Reassembler)
      → push inflate (fragment payload counter i) r
        ≡ push_body inflate false (length payload) (length (chunk payload i)) (chunk payload i) r
  unfolding push fragment
  push-fragment i r =
      rw
        (
          wrapped_u16 (length payload) fits,
          wrapped_u16 (length (chunk payload i)) (omega (arith, length-chunk i)),
        )
        (ground arith)

  abbrev started : Reassembler → Reassembler
  started = start inflate (length payload) false

  -- An active state whose bodies so far are `taken`.
  record Taken (taken : List ℕ) (r : Reassembler) : Type 0 where
    is_active : r.active ≡ true
    bodies : r.buf ≡ taken
    counted : r.received ≡ length taken
    declared : r.total ≡ length payload
    plain : r.compress ≡ false

  abbrev grown : List ℕ → Reassembler → Reassembler
  grown body q = record q { buf = q.buf ++ body; received = q.received + length body }

  grown-Taken :
      (taken body : List ℕ) (q : Reassembler) → Taken taken q → Taken (taken ++ body) (grown body q)
  grown-Taken taken body q t = record {
    is_active = t.is_active;
    bodies = ap (λ b. b ++ body) t.bodies;
    counted = rw length-append (omega (arith, t.counted));
    declared = t.declared;
    plain = t.plain;
  }

  start-active : (r : Reassembler) → r.active ≡ true → started r ≡ r
  unfolding start
  start-active r e = rw e

  push_body_step :
      (body : List ℕ) (r : Reassembler)
      → push_body inflate false (length payload) (length body) body r
        ≡ append_body inflate body (length body) (started r)
  unfolding push_body
  push_body_step body r = rw (take-all (length body) body (omega arith)) (ground arith)

  -- A body that does not complete the message, and one that does.
  append_more :
      (taken body : List ℕ) (q : Reassembler)
      → Taken taken q
      → length taken + length body < length payload
      → append_body inflate body (length body) q ≡ (grown body q, ok none)
  unfolding append_body
  append_more taken body q t short = ground arith

  append_last :
      (taken body : List ℕ) (q : Reassembler)
      → Taken taken q
      → length payload ≤ length taken + length body
      → append_body inflate body (length body) q ≡ (idle, ok (some (taken ++ body)))
  unfolding append_body complete
  append_last taken body q t full = ground arith

  taken_step :
      (i : ℕ)
      → take (i * max_fragment_length) payload ++ chunk payload i
        ≡ take ((i + 1) * max_fragment_length) payload
  unfolding chunk
  taken_step i =
      let s : ℕ = i * max_fragment_length in
      let rest = drop s payload in
      let cut : min (s + max_fragment_length) (length payload) - s
          ≡ min max_fragment_length (length rest) =
        omega (arith, length-drop s payload) in
      let next : s + max_fragment_length ≡ (i + 1) * max_fragment_length = omega arith in
      rw (
        cut,
        take-min max_fragment_length rest,
        take-append-take s max_fragment_length payload,
        next,
      )

  -- The lengths that decide whether fragment i completes the message.
  taken_lengths :
      (i : ℕ)
      → let taken = take (i * max_fragment_length) payload in
        length taken + length (chunk payload i)
        ≡ min (i * max_fragment_length) (length payload)
          + min max_fragment_length (length payload - i * max_fragment_length)
  taken_lengths i = omega (arith, length-take (i * max_fragment_length) payload, length-chunk i)

  push_all-fragments_from :
      (k i : ℕ) (r : Reassembler)
      → Taken (take (i * max_fragment_length) payload) (started r)
      → (0 < k → (i + k) * max_fragment_length < length payload)
      → length payload ≤ (i + suc k) * max_fragment_length
      → push_all inflate (fragments_from (suc k) i payload counter) r ≡ (idle, answers payload k)
  unfolding fragments_from
  push_all-fragments_from zero i r t lo hi =
      let body = chunk payload i in
      let taken = take (i * max_fragment_length) payload in
      let full : length payload ≤ length taken + length body = omega (arith, taken_lengths i) in
      let whole : taken ++ body ≡ payload =
        taken_step i ∙ take-all ((i + 1) * max_fragment_length) payload (omega arith) in
      unfold push_all in
      rw
        (push-fragment i r, push_body_step body r, append_last taken body (started r) t full, whole)
  push_all-fragments_from (suc k) i r t lo hi =
      let body = chunk payload i in
      let taken = take (i * max_fragment_length) payload in
      let bound : (i + suc k) * max_fragment_length < length payload = lo (omega arith) in
      let short : length taken + length body < length payload = omega (arith, taken_lengths i) in
      let q = grown body (started r) in
      let next : Taken (take ((i + 1) * max_fragment_length) payload) (started q) =
        rw (start-active q t.is_active, ← taken_step i) (grown-Taken taken body (started r) t) in
      let rest = push_all-fragments_from k (i + 1) q next (λ h. omega arith) (omega arith) in
      push_all_cons inflate (fragment payload counter i)
        (fragments_from (suc k) (i + 1) payload counter) r
        (push-fragment i r ∙ push_body_step body r ∙ append_more taken body (started r) t short)
        rest

  started-Taken : (r : Reassembler) → r.active ≡ false → Taken [] (started r)
  unfolding start
  started-Taken r e = ground arith

  -- Pushing the fragments of a payload of less than 65536 bytes, in order, into a reassembler that is
  -- not in the middle of a message: every fragment but the last is answered by no message yet, the
  -- last by exactly the payload, and the reassembler is as new. The empty payload is one fragment.
  pub push_all-encode_fragments :
      (r : Reassembler)
      → r.active ≡ false
      → push_all inflate (encode_fragments payload counter) r
        ≡ (idle, answers payload (fragment_count payload - 1))
  unfolding encode_fragments
  push_all-encode_fragments r e =
      let k : ℕ = fragment_count payload - 1 in
      let count : fragment_count payload ≡ suc k = unfold fragment_count in ground arith in
      let lo : 0 < k → (0 + k) * max_fragment_length < length payload =
        λ h. unfold fragment_count in ground arith in
      let hi : length payload ≤ (0 + suc k) * max_fragment_length =
        unfold fragment_count in ground arith in
      let back : suc k - 1 ≡ k = omega arith in
      rw (count, back) (push_all-fragments_from k 0 r (started-Taken r e) lo hi)

-- ===== src/Rudp/Fragments.antt =====
-- internal/frpg/rudp/message.go: cutting a message into fragment packets, and the reassembler.

pub mod RoundTrip
use Prim.Native.Nat.{min}
use dso.Base.{
  ℕ, zero, suc, ◌+◌, ◌-◌, ◌*◌, ◌/◌, ◌%◌, Bool, true, false, not, ◌&&◌, ltb, ◌==◌, if◌then◌else◌,
  Option, none, some, List, [], ◌∷◌, ◌++◌, length, take, drop,
}
use dso.Base.Words.{u8, u16, at, put_u16_be, put_u16_le, u16_be_at, u32_be_at}
use dso.Base.Result.{Result, ok, err}

abbrev pub max_fragment_length : ℕ
max_fragment_length = 900

-- `payload[start:end]` for fragment i, where `end` is cut at the length.
unfoldable pub chunk : List ℕ → ℕ → List ℕ
chunk payload i =
    let start = i * max_fragment_length in
    let end = min (start + max_fragment_length) (length payload) in
    take (end - start) (drop start payload)

unfoldable pub fragment : List ℕ → ℕ → ℕ → List ℕ
fragment payload counter i =
    let body = chunk payload i in
    put_u16_le counter
    ++ (0
        ∷ 0
        ∷ 0
        ∷ 0
        ∷ (put_u16_be (u16 (length payload))
            ++ (0 ∷ u8 i ∷ (put_u16_be (u16 (length body)) ++ body))))

unfoldable pub fragment_count : List ℕ → ℕ
fragment_count payload =
    let count = (length payload + max_fragment_length - 1) / max_fragment_length in
    if count == 0 then 1 else count

-- The loop from index i on, with the rounds that are left.
unfoldable pub fragments_from : ℕ → ℕ → List ℕ → ℕ → List (List ℕ)
fragments_from zero i payload counter = []
fragments_from (suc left) i payload counter =
    fragment payload counter i ∷ fragments_from left (i + 1) payload counter

unfoldable pub encode_fragments : List ℕ → ℕ → List (List ℕ)
encode_fragments payload counter = fragments_from (fragment_count payload) 0 payload counter

pub record Reassembler : Type 0 where
  pub buf : List ℕ
  pub received : ℕ
  pub total : ℕ
  pub compress : Bool
  pub decomp_len : ℕ
  pub active : Bool

abbrev pub idle : Reassembler
idle = record {
  buf = [];
  received = 0;
  total = 0;
  compress = false;
  decomp_len = 0;
  active = false;
}

pub data FragmentError : Type 0 where
  short_fragment missing_length short_body zlib_failed wrong_size : FragmentError

-- The answer to one fragment: an error, no message yet, or a whole payload.
abbrev pub Answer : Type 0
Answer = Result FragmentError (Option (List ℕ))

-- compress/zlib is a parameter: what reading the whole stream gives, or that it fails.
module _ (inflate : List ℕ → Option (List ℕ)) where
  unfoldable pub zlib_inflate : List ℕ → ℕ → Answer
  zlib_inflate bytes expected = elim (inflate bytes) [
    | none ↦ err zlib_failed
    | some out ↦
        if ltb 0 expected && not (length out == expected) then err wrong_size else ok (some out)
  ]

  unfoldable pub complete : Reassembler → Answer
  complete r = if r.compress then zlib_inflate r.buf r.decomp_len else ok (some r.buf)

  unfoldable pub append_body : List ℕ → ℕ → Reassembler → Reassembler × Answer
  append_body body frag_len r =
      let r' = record r { buf = r.buf ++ body; received = r.received + frag_len } in
      if ltb r'.received r'.total then (r', ok none) else (idle, complete r')

  unfoldable pub start : ℕ → Bool → Reassembler → Reassembler
  start total compress r =
      if r.active
      then r
      else record r { active = true; total = total; compress = compress; buf = []; received = 0 }

  unfoldable pub push_body : Bool → ℕ → ℕ → List ℕ → Reassembler → Reassembler × Answer
  push_body compress total frag_len body r =
      if ltb (length body) frag_len
      then (r, err short_body)
      else append_body (take frag_len body) frag_len (start total compress r)

  unfoldable pub push : List ℕ → Reassembler → Reassembler × Answer
  push frag r =
      let compress = not (at frag 2 == 0) in
      let total = u16_be_at frag 6 in
      let frag_len = u16_be_at frag 10 in
      if ltb (length frag) 12
      then (r, err short_fragment)
      else if compress && at frag 9 == 0
      then (if ltb (length frag) 16
          then (r, err missing_length)
          else push_body compress total frag_len (drop 16 frag)
              (record r { decomp_len = u32_be_at frag 12 }))
      else push_body compress total frag_len (drop 12 frag) r

  -- One fragment after another, with every answer.
  unfoldable pub push_all : List (List ℕ) → Reassembler → Reassembler × List Answer
  push_all [] r = (r, [])
  push_all (frag ∷ frags) r =
      let (r', answer) = push frag r in
      let (r'', answers) = push_all frags r' in (r'', answer ∷ answers)

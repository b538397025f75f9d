-- ===== src/AuthToken/Refinement.antt =====
-- internal/server/authtoken/authtoken.go: the registry against one token's deadline.
use dso.Base.{
  ◌∙◌, sym, ap, ℕ, ◌+◌, ◌≡◌, ◌≢◌, ◌⊎◌, inl, inr, refl, arith, true, false, ltb, Option, none, some,
  List, [], ◌∷◌, eq→==, ne→==_false, Bool-cases, Option-cases,
}
use dso.AuthToken.Registry.{
  ttl_default, new_registry, Entry, Registry, find, discard, store, add, refresh, lookup, prune,
}
use dso.AuthToken.Lifetime.{
  live, find-discard_same, find-discard_other, find-unexpired, discard-IsRegistry,
  unexpired-IsRegistry, store-IsRegistry, find-store_same, find-store_other, find_token, live_later,
}
use dso.AuthToken.Deadlines.{
  Event, added, looked_up, pruned, passed, step, run, Deadline, renew, spec_step, spec_run, Agrees,
  nothing,
}

live_twice : (now : ℕ) (o : Option Entry) → live now (live now o) ≡ live now o
live_twice now none = refl
live_twice now (some e) = ground arith

live-renew_dead :
    (now ttl : ℕ) (o : Option Entry) → live now o ≡ none → live now (renew now o ttl) ≡ none
unfolding renew
live-renew_dead now ttl none h = refl
live-renew_dead now ttl (some e) h = ground arith

live-renew :
    (now ttl : ℕ) (o : Option Entry) (e : Entry)
    → live now o ≡ some e
    → live now (renew now o ttl) ≡ some (record e { expires = now + ttl })
unfolding renew
live-renew now ttl none e h = ground arith
live-renew now ttl (some x) e h = ground arith

live-some : (now : ℕ) (e : Entry) → ltb e.expires now ≡ false → live now (some e) ≡ some e
live-some now e h = rw h refl

live_expired : (now : ℕ) (e : Entry) → ltb e.expires now ≡ true → live now (some e) ≡ none
live_expired now e h = rw h refl

lookup-none : (t : ℕ) (r : Registry) → find t r.entries ≡ none → lookup t r ≡ (r, none)
unfolding lookup
lookup-none t r h = ground arith

lookup_expired :
    (t : ℕ) (r : Registry) (e : Entry)
    → find t r.entries ≡ some e
    → ltb e.expires r.now ≡ true
    → lookup t r ≡ (record r { entries = discard t r.entries }, none)
unfolding lookup
lookup_expired t r e h k = ground arith

lookup_live :
    (t : ℕ) (r : Registry) (e : Entry)
    → find t r.entries ≡ some e
    → ltb e.expires r.now ≡ false
    → lookup t r ≡ (refresh e r, some e.key)
unfolding lookup
lookup_live t r e h k = ground arith

id-cases : (a b : ℕ) → (a ≡ b) ⊎ (a ≢ b)
id-cases a b = ground arith

module _ (ttl tok : ℕ) (r : Registry) (d : Deadline) (a : Agrees ttl tok r d) where
  added-Agrees :
      (t : ℕ) (key : List ℕ) → Agrees ttl tok (add t key r) (spec_step ttl tok (added t key) d)
  unfolding add spec_step
  added-Agrees t key =
      let e : Entry = record { token = t; key = key; expires = r.now + r.ttl } in
      elim (id-cases t tok) [
        | inl h ↦ rw (eq→== t tok h) (record {
          valid = store-IsRegistry e r.entries a.valid;
          same_clock = a.same_clock;
          same_ttl = a.same_ttl;
          same_entry =
              ap (live r.now)
                (ap (λ q. find q (store e r.entries)) (sym h) ∙ find-store_same e r.entries)
              ∙ ap (λ q. live r.now (some (record { token = t; key = key; expires = q })))
                  (omega (arith, a.same_clock, a.same_ttl));
        })
        | inr n ↦ rw (ne→==_false t tok n) (record {
          valid = store-IsRegistry e r.entries a.valid;
          same_clock = a.same_clock;
          same_ttl = a.same_ttl;
          same_entry =
              ap (live r.now) (find-store_other tok e r.entries (λ q. n (sym q))) ∙ a.same_entry;
        })
      ]

  -- A lookup of another token.
  other-Agrees : (t : ℕ) → t ≢ tok → Agrees ttl tok (lookup t r).0 d
  unfolding refresh
  other-Agrees t n = elim (Option-cases (find t r.entries)) [
    | inl h ↦ rw (lookup-none t r h) a
    | inr (e, h) ↦ elim (Bool-cases (ltb e.expires r.now)) [
      | inl k ↦ rw (lookup_expired t r e h k) (record {
        valid = discard-IsRegistry t r.entries a.valid;
        same_clock = a.same_clock;
        same_ttl = a.same_ttl;
        same_entry =
            ap (live r.now) (find-discard_other tok t r.entries (λ q. n (sym q))) ∙ a.same_entry;
      })
      | inr k ↦ rw (lookup_live t r e h k) (record {
        valid = store-IsRegistry _ r.entries a.valid;
        same_clock = a.same_clock;
        same_ttl = a.same_ttl;
        same_entry =
            ap (live r.now) (
              find-store_other tok (record e { expires = r.now + r.ttl }) r.entries
                (λ q. n (sym (q ∙ find_token t r.entries e h))))
            ∙ a.same_entry;
      })
    ]
  ]

  -- A lookup of the token itself.
  abbrev renewed : Deadline
  renewed = record d { entry = renew r.now d.entry ttl }

  own-Agrees : Agrees ttl tok (lookup tok r).0 renewed
  unfolding refresh
  own-Agrees = elim (Option-cases (find tok r.entries)) [
    | inl h ↦ rw (lookup-none tok r h) (record {
      valid = a.valid;
      same_clock = a.same_clock;
      same_ttl = a.same_ttl;
      same_entry =
          ap (live r.now) h
          ∙ sym (live-renew_dead r.now ttl d.entry (sym a.same_entry ∙ ap (live r.now) h));
    })
    | inr (e, h) ↦ elim (Bool-cases (ltb e.expires r.now)) [
      | inl k ↦ rw (lookup_expired tok r e h k) (record {
        valid = discard-IsRegistry tok r.entries a.valid;
        same_clock = a.same_clock;
        same_ttl = a.same_ttl;
        same_entry =
            ap (live r.now) (find-discard_same tok r.entries)
            ∙ sym (
                live-renew_dead r.now ttl d.entry
                  (sym a.same_entry ∙ ap (live r.now) h ∙ live_expired r.now e k));
      })
      | inr k ↦ rw (lookup_live tok r e h k) (record {
        valid = store-IsRegistry _ r.entries a.valid;
        same_clock = a.same_clock;
        same_ttl = a.same_ttl;
        same_entry =
            ap (live r.now) (
              ap (λ q. find q (store (record e { expires = r.now + r.ttl }) r.entries))
                (sym (find_token tok r.entries e h))
              ∙ find-store_same (record e { expires = r.now + r.ttl }) r.entries)
            ∙ live-some r.now (record e { expires = r.now + r.ttl }) (ground arith)
            ∙ ap (λ q. some (record e { expires = r.now + q })) a.same_ttl
            ∙ sym (
                live-renew r.now ttl d.entry e
                  (sym a.same_entry ∙ ap (live r.now) h ∙ live-some r.now e k));
      })
    ]
  ]

  renewed_clock : renewed ≡ record d { entry = renew d.clock d.entry ttl }
  renewed_clock = ap (λ c. record d { entry = renew c d.entry ttl }) a.same_clock

  looked_up-Agrees : (t : ℕ) → Agrees ttl tok (lookup t r).0 (spec_step ttl tok (looked_up t) d)
  unfolding spec_step
  looked_up-Agrees t = elim (id-cases t tok) [
    | inl h ↦ rw (eq→== t tok h, h) (rw renewed_clock at own-Agrees)
    | inr n ↦ rw (ne→==_false t tok n) (other-Agrees t n)
  ]

  pruned-Agrees : Agrees ttl tok (prune r) d
  unfolding prune
  pruned-Agrees = record {
    valid = unexpired-IsRegistry r.now r.entries a.valid;
    same_clock = a.same_clock;
    same_ttl = a.same_ttl;
    same_entry =
        rw (find-unexpired r.now tok r.entries a.valid)
          (live_twice r.now (find tok r.entries) ∙ a.same_entry);
  }

  passed-Agrees :
      (n : ℕ) → Agrees ttl tok (record r { now = r.now + n }) (record d { clock = d.clock + n })
  passed-Agrees n = record {
    valid = a.valid;
    same_clock = ap (λ k. k + n) a.same_clock;
    same_ttl = a.same_ttl;
    same_entry =
        live_later r.now n (find tok r.entries)
        ∙ ap (live (r.now + n)) a.same_entry
        ∙ sym (live_later r.now n d.entry);
  }

step-Agrees :
    (ttl tok : ℕ) (e : Event) (r : Registry) (d : Deadline)
    → Agrees ttl tok r d
    → Agrees ttl tok (step e r) (spec_step ttl tok e d)
step-Agrees ttl tok (added t key) r d a = unfold step in added-Agrees ttl tok r d a t key
step-Agrees ttl tok (looked_up t) r d a = unfold step in looked_up-Agrees ttl tok r d a t
step-Agrees ttl tok pruned r d a = unfold step in unfold spec_step in pruned-Agrees ttl tok r d a
step-Agrees ttl tok (passed n) r d a =
    unfold step in unfold spec_step in passed-Agrees ttl tok r d a n

run-Agrees :
    (ttl tok : ℕ) (es : List Event) (r : Registry) (d : Deadline)
    → Agrees ttl tok r d
    → Agrees ttl tok (run es r) (spec_run ttl tok es d)
unfolding run spec_run
run-Agrees ttl tok [] r d a = a
run-Agrees ttl tok (e ∷ es) r d a = run-Agrees ttl tok es _ _ (step-Agrees ttl tok e r d a)

unfoldable pub key_of : Option Entry → Option (List ℕ)
key_of none = none
key_of (some e) = some e.key

lookup-key_of :
    (tok : ℕ) (r : Registry) → (lookup tok r).1 ≡ key_of (live r.now (find tok r.entries))
unfolding lookup key_of
lookup-key_of tok r = ground arith

-- After any sequence of additions, lookups and prunes of any tokens, with any time passing between
-- them, on a new registry, Lookup answers for a token as the specification does, which only keeps the
-- token's last key and deadline: an addition sets both, a lookup of this token that is not late moves
-- the deadline, and nothing else does. It answers with the key if the deadline has not passed.
pub lookup-run :
    (es : List Event) (start tok : ℕ)
    → let d = spec_run ttl_default tok es (nothing start) in
      (lookup tok (run es (new_registry start))).1 ≡ key_of (live d.clock d.entry)
unfolding new_registry
lookup-run es start tok =
    let r = run es (new_registry start) in
    let fresh : Agrees ttl_default tok (new_registry start) (nothing start) = record {
      valid = tt;
      same_clock = refl;
      same_ttl = refl;
      same_entry = unfold find in refl;
    } in
    let a = run-Agrees ttl_default tok es (new_registry start) (nothing start) fresh in
    lookup-key_of tok r
    ∙ ap key_of (
        a.same_entry
        ∙ ap (λ c. live c (spec_run ttl_default tok es (nothing start)).entry) a.same_clock)

-- ===== src/Evidence/Chain/Tamper.antt =====
-- Tamper evidence: two segments that verify and end in the same row hash hold the same content, or
-- show two different texts with the same SHA-256 digest.
use Prim.Native.String.{count}
use mathlib.Core.Bool.{false≢true}
use text.Mathlib.TextLemmas.{length-nil, length-cons, append_inj, append_cancel_left}
use external_database_audit.Base.{
  ℕ, suc, ◌+◌, String, ◌≡◌, ◌≢◌, ◌⊎◌, inl, inr, refl, ap, ap₂, sym, ◌∙◌, true, none, some, List, [],
  ◌∷◌, map, str_eq, eq_iff, arith, Bool-cases,
}
use external_database_audit.Base.Lists.{length}
use external_database_audit.Base.Platform.{Platform}
use external_database_audit.Base.Result.{Result, ok, >>=-eq-ok}
use external_database_audit.Base.Text.{codes, ◌+++◌}
use external_database_audit.Canonical.Json.{CanonicalError, serialize_canonical}
use external_database_audit.Canonical.Hash.{
  is_hash_token, assert_hash_token, after_prefix, event_hash, hash_value, row_hash,
}
use external_database_audit.Cce.{Cce}
use external_database_audit.Cce.Core.{core_json}
use external_database_audit.Cce.Verify.{or_genesis, recompute_event_hash}
use external_database_audit.Evidence.{SegmentObjectRef, SegmentObjectHash, SegmentChainInput}
use external_database_audit.Evidence.Chain.{verify_segment_chain}
use external_database_audit.Evidence.Chain.Exact.{AreIntact, verify_segment_chain_iff}

after_prefix-length :
    (p l : List ℕ) (n : ℕ) → length (after_prefix p l) ≡ suc n → length l ≡ length p + suc n
after_prefix-length [] l n e = omega arith
after_prefix-length (a ∷ p) [] n e = ground arith
after_prefix-length (a ∷ p) (b ∷ l) n e = ground (arith, after_prefix-length p l n)

count-eq-length : (s : String) → count s ≡ length (codes s)
count-eq-length String.[] = length-nil
count-eq-length (String.◌∷◌ c s) = length-cons c s ∙ ap suc (count-eq-length s)

-- A hash token has 71 characters.
count-token : (s : String) → is_hash_token s ≡ true → count s ≡ 71
unfolding is_hash_token
count-token s t =
    let behind : length (after_prefix (codes "sha256:") (codes s)) ≡ suc 63 = ground arith in
    count-eq-length s ∙ after_prefix-length (codes "sha256:") (codes s) 63 behind

infixl 5 ◌>>=⊎◌
abbrev ◌>>=⊎◌ : {A B C : Type 0} → A ⊎ C → (A → B ⊎ C) → B ⊎ C
inl a >>=⊎ f = f a
inr c >>=⊎ f = inr c

ok_inj : {a b : String} → ◌≡◌ {A = Result CanonicalError String} (ok a) (ok b) → a ≡ b
ok_inj e = cc

-- the row hash that the first object continues
abbrev pub start : List Cce → String
start [] = ""
start (c ∷ cs) = or_genesis c.evidence.prev_row_hash

module _ (js : Platform) where
  -- two different texts with one digest
  abbrev pub Collision : Type 0
  Collision = (x : String) × (y : String) × (x ≢ y) × (js.sha256_hex x ≡ js.sha256_hex y)

  same_or_collision :
      (x y : String)
      → "sha256:" +++ js.sha256_hex x ≡ "sha256:" +++ js.sha256_hex y
      → (x ≡ y) ⊎ Collision
  same_or_collision x y e = elim (Bool-cases (str_eq x y)) [
    | inl same ↦ inl ((eq_iff x y).0 same)
    | inr other ↦ inr (
      x,
      y,
      (λ same. false≢true (sym other ∙ (eq_iff x y).1 same)),
      append_cancel_left "sha256:" _ _ e,
    )
  ]

  row_hash-eq-ok :
      (prev event row : String)
      → row_hash js prev event ≡ ok row
      → (is_hash_token prev ≡ true)
        × (is_hash_token event ≡ true)
        × ("sha256:" +++ js.sha256_hex (prev +++ event) ≡ row)
  unfolding row_hash assert_hash_token
  row_hash-eq-ok prev event row e = ground arith

  row_hash_inj :
      (prev event prev' event' row : String)
      → row_hash js prev event ≡ ok row
      → row_hash js prev' event' ≡ ok row
      → ((prev ≡ prev') × (event ≡ event')) ⊎ Collision
  row_hash_inj prev event prev' event' row e e' =
      let (t, u, h) = row_hash-eq-ok prev event row e in
      let (t', u', h') = row_hash-eq-ok prev' event' row e' in
      elim (same_or_collision (prev +++ event) (prev' +++ event') (h ∙ sym h')) [
        | inl same ↦ inl (append_inj same (count-token prev t ∙ sym (count-token prev' t')))
        | inr c ↦ inr c
      ]

  -- objects chained from the row hash `prev`
  abbrev Chained : String → List Cce → Type 0
  Chained prev [] = Unit
  Chained prev (c ∷ cs) =
      (or_genesis c.evidence.prev_row_hash ≡ prev)
      × (row_hash js prev c.evidence.event_hash ≡ ok c.evidence.row_hash)
      × (recompute_event_hash js c ≡ ok c.evidence.event_hash)
      × Chained c.evidence.row_hash cs

  abbrev pub last_row : String → List Cce → String
  last_row prev [] = prev
  last_row prev (c ∷ cs) = last_row c.evidence.row_hash cs

  Chained-of_AreIntact :
      (refs : List SegmentObjectRef) (hashes : List SegmentObjectHash) (i : ℕ) (prev : String)
      (cs : List Cce)
      → AreIntact js refs hashes i (some prev) cs
      → Chained prev cs
  Chained-of_AreIntact refs hashes i prev [] h = tt
  Chained-of_AreIntact refs hashes i prev (c ∷ cs) (t, later) =
      let from : or_genesis c.evidence.prev_row_hash ≡ prev = ap or_genesis t.link in
      (
        from,
        ap (λ p. row_hash js p c.evidence.event_hash) (sym from) ∙ t.row,
        t.event,
        Chained-of_AreIntact refs hashes (suc i) c.evidence.row_hash cs later,
      )

  -- the canonical form of what is hashed for each object
  abbrev pub contents : List Cce → List (Result CanonicalError String)
  contents cs = map (λ c. serialize_canonical js (core_json c)) cs

  content_or_collision :
      (c d : Cce) (e : String)
      → recompute_event_hash js c ≡ ok e
      → recompute_event_hash js d ≡ ok e
      → (serialize_canonical js (core_json c) ≡ serialize_canonical js (core_json d)) ⊎ Collision
  unfolding recompute_event_hash hash_value event_hash
  content_or_collision c d e h k =
      let (x, sx, hx) = >>=-eq-ok (serialize_canonical js (core_json c)) _ h in
      let (y, sy, hy) = >>=-eq-ok (serialize_canonical js (core_json d)) _ k in
      elim (same_or_collision x y (ok_inj (hx ∙ sym hy))) [
        | inl same ↦ inl (sx ∙ ap ok same ∙ sym sy)
        | inr c ↦ inr c
      ]

  chains_agree :
      (prev prev' : String) (cs ds : List Cce)
      → Chained prev cs
      → Chained prev' ds
      → length cs ≡ length ds
      → last_row prev cs ≡ last_row prev' ds
      → ((prev ≡ prev') × (contents cs ≡ contents ds)) ⊎ Collision
  chains_agree prev prev' [] [] h k n e = inl (e, refl)
  chains_agree prev prev' [] (d ∷ ds) h k n e = absurd (omega arith)
  chains_agree prev prev' (c ∷ cs) [] h k n e = absurd (omega arith)
  chains_agree prev prev' (c ∷ cs) (d ∷ ds) (p, r, v, h) (q, s, w, k) n e =
      chains_agree c.evidence.row_hash d.evidence.row_hash cs ds h k (omega arith) e
      >>=⊎ λ (row, rest).
          row_hash_inj prev c.evidence.event_hash prev' d.evidence.event_hash d.evidence.row_hash
            (r ∙ ap ok row) s
          >>=⊎ λ (same, event).
              content_or_collision c d d.evidence.event_hash (v ∙ ap ok event) w >>=⊎ λ here.
              inl (same, ap₂ ◌∷◌ here rest)

  Chained-of_verified :
      (seg : SegmentChainInput)
      → (verify_segment_chain js seg).passed ≡ true
      → Chained (start seg.objects) seg.objects
  Chained-of_verified seg t = first seg.objects ((verify_segment_chain_iff js seg).0 t).1
    where
      first :
          (cs : List Cce)
          → AreIntact js seg.object_list seg.object_hash_list 0 none cs
          → Chained (start cs) cs
      first [] h = tt
      first (c ∷ cs) (t, later) = (
        refl,
        t.row,
        t.event,
        Chained-of_AreIntact seg.object_list seg.object_hash_list 1 c.evidence.row_hash cs later,
      )

-- Two segments that verify, with equally many objects and the same last row hash, continue the same
-- row hash and hold objects of the same content in the same order, or two different texts with the
-- same SHA-256 digest are at hand.
pub verified_or_collision :
    (js : Platform) (a b : SegmentChainInput)
    → (verify_segment_chain js a).passed ≡ true
    → (verify_segment_chain js b).passed ≡ true
    → length a.objects ≡ length b.objects
    → last_row js (start a.objects) a.objects ≡ last_row js (start b.objects) b.objects
    → ((start a.objects ≡ start b.objects) × (contents js a.objects ≡ contents js b.objects))
      ⊎ Collision js
verified_or_collision js a b va vb n e =
    chains_agree js (start a.objects) (start b.objects) a.objects b.objects
      (Chained-of_verified js a va) (Chained-of_verified js b vb) n e

-- ===== src/Evidence/Chain/Exact.antt =====
-- When the chain verification of a segment passes: exactly for an intact chain, described object by
-- object without the verifier's tests.
use external_database_audit.Base.{
  ℕ, suc, String, ◌≡◌, ◌≢◌, ◌↔◌, refl, true, Option, none, some, List, [], ◌∷◌, ◌++◌, str_eq,
  eq_iff, arith,
}
use external_database_audit.Base.Lists.{get_elem?}
use external_database_audit.Base.Platform.{Platform}
use external_database_audit.Base.Result.{Result, ok, err, ◌>>=◌}
use external_database_audit.Canonical.Json.{CanonicalError}
use external_database_audit.Canonical.Hash.{row_hash as row_hash_of}
use external_database_audit.Cce.{Cce}
use external_database_audit.Cce.Verify.{
  HashVerification, verify_cce, recompute_event_hash, or_genesis,
}
use external_database_audit.Evidence.{SegmentObjectRef, SegmentObjectHash, SegmentChainInput}
use external_database_audit.Evidence.Chain.{
  ChainFailure, same_text, ref_aligned, hash_aligned, event_listed, row_listed, linked, event_ok,
  row_ok, check_object, check_from, none_failed, verify_segment_chain,
}

-- the object's link to the object before it, if there is one
abbrev pub IsLinked : Option String → Cce → Type 0
IsLinked none c = Unit
IsLinked (some prev) c = c.evidence.prev_row_hash ≡ some prev

abbrev pub IsRefOf : ℕ → Cce → Option SegmentObjectRef → Type 0
IsRefOf i c none = ⊥
IsRefOf i c (some r) = (r.seq ≡ i) × (r.object_id ≡ c.envelope_id)

abbrev pub IsHashOf : ℕ → Cce → Option SegmentObjectHash → Type 0
IsHashOf i c none = ⊥
IsHashOf i c (some h) =
    (h.seq ≡ i) × (h.event_hash ≡ c.evidence.event_hash) × (h.row_hash ≡ c.evidence.row_hash)

ref_aligned_iff :
    (i : ℕ) (c : Cce) (ref : Option SegmentObjectRef)
    → (ref_aligned i c ref ≡ true) ↔ IsRefOf i c ref
ref_aligned_iff i c none = ground arith
ref_aligned_iff i c (some r) = ground (arith, eq_iff r.object_id c.envelope_id)

listed_iff :
    (i : ℕ) (c : Cce) (h : Option SegmentObjectHash)
    → ((hash_aligned i h ≡ true) × (event_listed c h ≡ true) × (row_listed c h ≡ true))
      ↔ IsHashOf i c h
listed_iff i c none = ground arith
listed_iff i c (some h) =
    ground (arith, eq_iff h.event_hash c.evidence.event_hash, eq_iff h.row_hash c.evidence.row_hash)

same_text_iff : (t : Option String) (s : String) → (same_text t s ≡ true) ↔ (t ≡ some s)
same_text_iff none s = ground arith
same_text_iff (some t) s = ground (arith, eq_iff t s)

-- what `verify_cce` makes of the two recomputed hashes
abbrev verified :
    Result CanonicalError String
    → Result CanonicalError String
    → String
    → String
    → Result CanonicalError HashVerification
verified event row e r = do
  a ← event
  b ← row
  ok (record { event_hash_ok = str_eq a e; row_hash_ok = str_eq b r })

linked_iff : (prev : Option String) (c : Cce) → (linked prev c ≡ true) ↔ IsLinked prev c
linked_iff none c = (λ e. tt, λ t. refl)
linked_iff (some prev) c = same_text_iff c.evidence.prev_row_hash prev

checked_iff :
    (event row : Result CanonicalError String) (e r : String)
    → ((event_ok (verified event row e r) ≡ true) × (row_ok (verified event row e r) ≡ true))
      ↔ ((event ≡ ok e) × (row ≡ ok r))
checked_iff (err x) row e r = ground arith
checked_iff (ok a) (err x) e r = ground arith
checked_iff (ok a) (ok b) e r = ground (arith, eq_iff a e, eq_iff b r)

append-eq-nil_iff : (xs ys : List ChainFailure) → (xs ++ ys ≡ []) ↔ ((xs ≡ []) × (ys ≡ []))
append-eq-nil_iff [] ys = ground arith
append-eq-nil_iff (x ∷ xs) ys = ground arith

module _ (js : Platform) where
  -- The object at index `i` after the row hash `prev`: both lists have its entry at `i`, its event
  -- hash is that of its content, its row hash that of its link, and it is linked to `prev`.
  pub record IsIntact (i : ℕ) (prev : Option String) (c : Cce) (ref : Option SegmentObjectRef)
      (h : Option SegmentObjectHash) : Type 0 where
    pub referenced : IsRefOf i c ref
    pub listed : IsHashOf i c h
    pub event : recompute_event_hash js c ≡ ok c.evidence.event_hash
    pub row :
        row_hash_of js (or_genesis c.evidence.prev_row_hash) c.evidence.event_hash
        ≡ ok c.evidence.row_hash
    pub link : IsLinked prev c

  abbrev pub AreIntact :
      List SegmentObjectRef → List SegmentObjectHash → ℕ → Option String → List Cce → Type 0
  AreIntact refs hashes i prev [] = Unit
  AreIntact refs hashes i prev (c ∷ cs) =
      IsIntact i prev c (get_elem? refs i) (get_elem? hashes i)
      × AreIntact refs hashes (suc i) (some c.evidence.row_hash) cs

  -- the tests of one round, which records a failure exactly when one of them fails
  abbrev Passes :
      ℕ → Option String → Cce → Option SegmentObjectRef → Option SegmentObjectHash → Type 0
  Passes i prev c ref h =
      (ref_aligned i c ref ≡ true)
      × (hash_aligned i h ≡ true)
      × (event_ok (verify_cce js c) ≡ true)
      × (row_ok (verify_cce js c) ≡ true)
      × (event_listed c h ≡ true)
      × (row_listed c h ≡ true)
      × (linked prev c ≡ true)

  failures-eq-nil_iff :
      (i : ℕ) (prev : Option String) (c : Cce) (ref : Option SegmentObjectRef)
      (h : Option SegmentObjectHash)
      → ((check_object js i prev c ref h).1 ≡ []) ↔ Passes i prev c ref h
  unfolding check_object
  failures-eq-nil_iff i prev c ref h = ground arith

  verified_iff :
      (c : Cce)
      → ((event_ok (verify_cce js c) ≡ true) × (row_ok (verify_cce js c) ≡ true)) ↔ (
          (recompute_event_hash js c ≡ ok c.evidence.event_hash)
          × (row_hash_of js (or_genesis c.evidence.prev_row_hash) c.evidence.event_hash
              ≡ ok c.evidence.row_hash))
  unfolding verify_cce
  verified_iff c =
      checked_iff (recompute_event_hash js c)
        (row_hash_of js (or_genesis c.evidence.prev_row_hash) c.evidence.event_hash)
        c.evidence.event_hash c.evidence.row_hash

  Passes-iff :
      (i : ℕ) (prev : Option String) (c : Cce) (ref : Option SegmentObjectRef)
      (h : Option SegmentObjectHash)
      → Passes i prev c ref h ↔ IsIntact i prev c ref h
  Passes-iff i prev c ref h =
      let (r→, r←) = ref_aligned_iff i c ref in
      let (h→, h←) = listed_iff i c h in
      let (v→, v←) = verified_iff c in
      let (l→, l←) = linked_iff prev c in
      (
        λ (r, a, e, w, el, rl, l).
            let (event, row) = v→ (e, w) in
            record {
              referenced = r→ r;
              listed = h→ (a, el, rl);
              event = event;
              row = row;
              link = l→ l;
            },
        λ t.
            let (a, el, rl) = h← t.listed in
            let (e, w) = v← (t.event, t.row) in (r← t.referenced, a, e, w, el, rl, l← t.link),
      )

  round_iff :
      (i : ℕ) (prev : Option String) (c : Cce) (ref : Option SegmentObjectRef)
      (h : Option SegmentObjectHash)
      → ((check_object js i prev c ref h).1 ≡ []) ↔ IsIntact i prev c ref h
  round_iff i prev c ref h =
      let (f→, f←) = failures-eq-nil_iff i prev c ref h in
      let (p→, p←) = Passes-iff i prev c ref h in (λ e. p→ (f→ e), λ t. f← (p← t))

  module _ (refs : List SegmentObjectRef) (hashes : List SegmentObjectHash) where
    check_from_iff :
        (i : ℕ) (prev : Option String) (cs : List Cce)
        → ((check_from js refs hashes i prev cs).1 ≡ []) ↔ AreIntact refs hashes i prev cs
    unfolding check_from
    check_from_iff i prev [] = (λ e. tt, λ t. refl)
    check_from_iff i prev (c ∷ cs) =
        let (r→, r←) = round_iff i prev c (get_elem? refs i) (get_elem? hashes i) in
        let (f→, f←) = check_from_iff (suc i) (some c.evidence.row_hash) cs in
        let (a→, a←) =
          append-eq-nil_iff (check_object js i prev c (get_elem? refs i) (get_elem? hashes i)).1
            (check_from js refs hashes (suc i) (some c.evidence.row_hash) cs).1 in
        (λ e. let (here, later) = a→ e in (r→ here, f→ later), λ t. a← (r← t.0, f← t.1))

  none_failed_iff : (fs : List ChainFailure) → (none_failed js fs ≡ true) ↔ (fs ≡ [])
  none_failed_iff [] = (λ e. refl, λ e. refl)
  none_failed_iff (f ∷ fs) = ground arith

passed_iff :
    (js : Platform) (refs : List SegmentObjectRef) (hashes : List SegmentObjectHash) (cs : List Cce)
    → ((verify_segment_chain js
          (record { object_list = refs; object_hash_list = hashes; objects = cs })).passed
        ≡ true)
      ↔ ((cs ≢ []) × AreIntact js refs hashes 0 none cs)
unfolding verify_segment_chain
passed_iff js refs hashes [] = (λ e. cc, λ t. absurd (t.0 refl))
passed_iff js refs hashes (c ∷ cs) =
    let (n→, n←) = none_failed_iff js (check_from js refs hashes 0 none (c ∷ cs)).1 in
    let (f→, f←) = check_from_iff js refs hashes 0 none (c ∷ cs) in
    (λ e. (λ x. cc, f→ (n→ e)), λ t. n← (f← t.1))

-- The verification of a segment passes exactly when the segment has an object and its objects are
-- intact from index 0: each has its entries in both lists at its index, an event hash that is that
-- of its content, a row hash that is that of its link, and the link to the object before it.
pub verify_segment_chain_iff :
    (js : Platform) (seg : SegmentChainInput)
    → ((verify_segment_chain js seg).passed ≡ true)
      ↔ ((seg.objects ≢ []) × AreIntact js seg.object_list seg.object_hash_list 0 none seg.objects)
verify_segment_chain_iff js seg = passed_iff js seg.object_list seg.object_hash_list seg.objects

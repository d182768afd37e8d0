-- ===== src/Evidence/CrossSegment/Exact.antt =====
-- When two segments are continuous: exactly when the verification of the later one passes.
use external_database_audit.Base.{
  ◌+◌, String, ◌≡◌, ◌≢◌, ◌↔◌, ◌⊎◌, inl, inr, refl, Bool, true, false, Option, none, some, List,
  eq_iff, arith,
}
use native.Mathlib.Decide.{ℕ_discrete}
use external_database_audit.Base.Platform.{Platform}
use external_database_audit.Base.Result.{Result, ok, err}
use external_database_audit.Evidence.{SegmentManifest, PreviousSegmentRef}
use external_database_audit.Evidence.CrossSegment.{
  CrossSegmentVerification, HashError, CrossSegmentFailureRule, is_empty, segment_hash_of,
  link_failures, verify_cross_segment,
}

pub either {ℓ κ μ} : {A : Type ℓ} {B : Type κ} {C : Type μ} → (A → C) → (B → C) → A ⊎ B → C
either f g (inl a) = f a
either f g (inr b) = g b

-- The verification returned and passed.
abbrev pub has_passed : Result HashError CrossSegmentVerification → Bool
has_passed (ok v) = v.passed
has_passed (err e) = false

pub record IsGenesis (current : SegmentManifest) (previous : Option SegmentManifest) : Type 0 where
  pub first : current.segment_sequence ≡ 0
  pub no_manifest : previous ≡ none
  pub no_link : current.previous_segment ≡ none

module _ (js : Platform) where
  -- The link of a manifest names the prior segment, under the hash recomputed from its manifest.
  abbrev pub Links : Option PreviousSegmentRef → SegmentManifest → Type 0
  Links none p = ⊥
  Links (some ps) p =
      (ps.segment_id ≡ p.segment_id)
      × (ps.segment_sequence ≡ p.segment_sequence)
      × (segment_hash_of js p ≡ ok ps.segment_hash)

  -- The segment is not the first, and follows the segment of `p` without a break.
  pub record Follows (current : SegmentManifest) (first_prev_row_hash : String)
      (p : SegmentManifest) : Type 0 where
    pub later : current.segment_sequence ≢ 0
    pub database : current.db_id ≡ p.db_id
    pub next : current.segment_sequence ≡ p.segment_sequence + 1
    pub link : Links current.previous_segment p
    pub boundary : first_prev_row_hash ≡ p.last_row_hash

  abbrev pub FollowsSome : SegmentManifest → String → Option SegmentManifest → Type 0
  FollowsSome current row none = ⊥
  FollowsSome current row (some p) = Follows current row p

  abbrev no_failures : Result HashError (List CrossSegmentFailureRule) → Bool
  no_failures (ok fs) = is_empty fs
  no_failures (err e) = false

  link_failures_iff :
      (link : Option PreviousSegmentRef) (p : SegmentManifest)
      → (no_failures (link_failures js link p) ≡ true) ↔ Links link p
  unfolding link_failures
  link_failures_iff none p = ground arith
  link_failures_iff (some ps) p = elim_hash (segment_hash_of js p) refl
    where
      elim_hash :
          (r : Result HashError String)
          → segment_hash_of js p ≡ r
          → (no_failures (link_failures js (some ps) p) ≡ true) ↔ Links (some ps) p
      elim_hash (err e) h = ground arith
      elim_hash (ok hash) h =
          ground (arith, eq_iff ps.segment_id p.segment_id, eq_iff ps.segment_hash hash)

  Follows-iff :
      (current : SegmentManifest) (row : String) (p : SegmentManifest)
      → current.segment_sequence ≢ 0
      → (has_passed (verify_cross_segment js current row (some p)) ≡ true) ↔ Follows current row p
  unfolding verify_cross_segment
  Follows-iff current row p later = split (link_failures js current.previous_segment p) refl
    where
      split :
          (r : Result HashError (List CrossSegmentFailureRule))
          → link_failures js current.previous_segment p ≡ r
          → (has_passed (verify_cross_segment js current row (some p)) ≡ true)
            ↔ Follows current row p
      split (err e) h =
          let (l→, l←) = link_failures_iff current.previous_segment p in
          (λ t. ground arith, λ f. let t = l← f.link in ground arith)
      split (ok fs) h =
          let (l→, l←) = link_failures_iff current.previous_segment p in
          (
            λ t. record {
              later = later;
              database = ground (arith, eq_iff current.db_id p.db_id);
              next = ground arith;
              link = l→ (ground arith);
              boundary = ground (arith, eq_iff row p.last_row_hash);
            },
            λ f.
                let t = l← f.link in
                let n = f.next in
                let b = f.boundary in
                let d = f.database in
                ground (arith, eq_iff current.db_id p.db_id, eq_iff row p.last_row_hash),
          )

  IsGenesis-iff :
      (current : SegmentManifest) (row : String) (previous : Option SegmentManifest)
      → current.segment_sequence ≡ 0
      → (has_passed (verify_cross_segment js current row previous) ≡ true)
        ↔ IsGenesis current previous
  unfolding verify_cross_segment
  IsGenesis-iff current row previous e = (
    λ t. record { first = e; no_manifest = ground arith; no_link = ground arith },
    λ g. let m = g.no_manifest in let l = g.no_link in ground arith,
  )

  not_alone :
      (current : SegmentManifest) (row : String)
      → current.segment_sequence ≢ 0
      → has_passed (verify_cross_segment js current row none) ≢ true
  unfolding verify_cross_segment
  not_alone current row later = ground arith

  FollowsSome-later :
      (current : SegmentManifest) (row : String) (previous : Option SegmentManifest)
      → FollowsSome current row previous
      → current.segment_sequence ≢ 0
  FollowsSome-later current row none f = absurd f
  FollowsSome-later current row (some p) f = f.later

  after_first :
      (current : SegmentManifest) (row : String) (previous : Option SegmentManifest)
      → current.segment_sequence ≢ 0
      → (has_passed (verify_cross_segment js current row previous) ≡ true)
        ↔ (IsGenesis current previous ⊎ FollowsSome current row previous)
  after_first current row none later = (
    λ t. absurd (not_alone current row later t),
    either (λ g. absurd (later g.first)) (λ f. absurd f),
  )
  after_first current row (some p) later =
      let (f→, f←) = Follows-iff current row p later in
      (λ t. inr (f→ t), either (λ g. absurd (later g.first)) f←)

-- Cross-segment verification returns and passes exactly when the segment is a genesis segment with
-- neither a prior manifest nor a link, or follows the prior segment: same database, next sequence
-- number, a link to that segment under the hash recomputed from its manifest, and a first object
-- that continues its last row hash.
pub verify_cross_segment_iff :
    (js : Platform) (current : SegmentManifest) (row : String) (previous : Option SegmentManifest)
    → (has_passed (verify_cross_segment js current row previous) ≡ true)
      ↔ (IsGenesis current previous ⊎ FollowsSome js current row previous)
verify_cross_segment_iff js current row previous = elim (ℕ_discrete current.segment_sequence 0) [
  | yes first ↦
      let (g→, g←) = IsGenesis-iff js current row previous first in
      (λ t. inl (g→ t), either g← (λ f. absurd (FollowsSome-later js current row previous f first)))
  | no later ↦ after_first js current row previous later
]

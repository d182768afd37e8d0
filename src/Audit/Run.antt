-- ===== src/Audit/Run.antt =====
-- What the evidence writer's service has sealed, after any calls.
use external_database_audit.Base.{
  ◌≡◌, ◌∙◌, ◌⊎◌, ◌<◌, refl, sym, ap, subst, inl, inr, String, Option, none, some, List, [], ◌∷◌,
  ◌++◌, arith,
}
use external_database_audit.Base.Lists.{All, All-mono, length}
use external_database_audit.Base.Result.{ok, >>=-eq-ok}
use external_database_audit.Canonical.Json.{serialize_canonical}
use external_database_audit.Canonical.Hash.{row_hash}
use external_database_audit.Cce.{Cce}
use external_database_audit.Evidence.{SegmentInput, SegmentManifest, SegmentHead}
use external_database_audit.Evidence.CrossSegment.{derive_segment_head}
use external_database_audit.Evidence.CrossSegment.Exact.{
  IsGenesis, Follows, FollowsSome, verify_cross_segment_iff,
}
use external_database_audit.Evidence.Manifest.Built.{build_segment_manifest-eq-ok_iff}
use external_database_audit.Verifier.Segments.{VerifierSegment, recompute_segment}
use external_database_audit.Verifier.Accepts.{all_pass}
use external_database_audit.Verifier.Crossing.{first_prev_row_hash}
use external_database_audit.Worm.{Store}
use external_database_audit.Writer.Append.{Clock}
use external_database_audit.Writer.Establish.{relink, rechained, chain_from, establish_chain}
use external_database_audit.Writer.Seal.{
  PreviousSealed, Sealing, SealerDeps, manifest_object_key, sealed_manifest_json, manifest_of,
}
use external_database_audit.Writer.Seal.Stored.{
  Keeps, Holds, Holds-Keeps, AreStored, AreStored-Keeps,
}
use external_database_audit.Audit.Sealed.{IsSealed}
use external_database_audit.Audit.Chain.{IsChain}

module _ (d : SealerDeps) where
  -- the service remembers the newest segment, with its head
  abbrev pub Remembers : List VerifierSegment → Option PreviousSealed → Type 0
  Remembers [] previous = previous ≡ none
  Remembers (v ∷ older) previous =
      (head : SegmentHead) × (previous ≡ some (record { manifest = v.manifest; head = head }))
      × (derive_segment_head d.js v.manifest ≡ ok head)

  -- the heads that were emitted, the newest last
  abbrev pub Heads : List VerifierSegment → List SegmentHead → Type 0
  Heads [] heads = heads ≡ []
  Heads (v ∷ older) heads =
      (head : SegmentHead) × (rest : List SegmentHead) × (derive_segment_head d.js v.manifest
        ≡ ok head)
      × (heads ≡ rest ++ head ∷ [])
      × Heads older rest

  -- the manifest and the objects are in the store
  abbrev pub HoldsSegment : Store → VerifierSegment → Type 0
  HoldsSegment s v =
      (text : String) × (serialize_canonical d.js (sealed_manifest_json v.manifest) ≡ ok text)
      × Holds s (manifest_object_key v.manifest.db_id v.manifest.segment_id) (d.encode text)
      × (clock : Clock) × AreStored d clock v.manifest.segment_id 0 v.manifest.object_list v.objects
          s

  HoldsSegment-Keeps :
      (s t : Store) (v : VerifierSegment) → Keeps s t → HoldsSegment s v → HoldsSegment t v
  HoldsSegment-Keeps s t v k (text, serializes, held, clock, stored) = (
    text,
    serializes,
    Holds-Keeps s t _ _ k held,
    clock,
    AreStored-Keeps d clock v.manifest.segment_id 0 v.manifest.object_list v.objects s t k stored,
  )

  -- the segments that were sealed, the newest first
  pub record IsAudited (s : Sealing) (previous : Option PreviousSealed) (vs : List VerifierSegment)
      : Type 0 where
    pub chain : IsChain d.js vs
    pub remembered : Remembers vs previous
    pub accepted : All (λ v. recompute_segment d.js d.validate_manifest v ≡ ok all_pass) vs
    pub held : All (HoldsSegment s.sinks.worm) vs
    pub heads : Heads vs s.heads

  -- a store that keeps the objects, with the same heads
  pub IsAudited-Keeps :
      (s t : Sealing) (previous : Option PreviousSealed) (vs : List VerifierSegment)
      → Keeps s.sinks.worm t.sinks.worm
      → t.heads ≡ s.heads
      → IsAudited s previous vs
      → IsAudited t previous vs
  IsAudited-Keeps s t previous vs k same h = record {
    chain = h.chain;
    remembered = h.remembered;
    accepted = h.accepted;
    held = All-mono vs (λ v. HoldsSegment-Keeps s.sinks.worm t.sinks.worm v k) h.held;
    heads = subst (Heads vs) (sym same) h.heads;
  }

  first_prev-chain_from :
      (boundary : String) (cs out : List Cce)
      → chain_from d.js boundary cs ≡ ok out
      → 0 < length out
      → first_prev_row_hash out ≡ boundary
  unfolding chain_from
  first_prev-chain_from boundary [] out e filled =
      let none_there : [] ≡ out = cc in absurd (omega (arith, filled, ap length none_there))
  first_prev-chain_from boundary (c ∷ cs) out e filled =
      let (row, hashed, rest) = >>=-eq-ok (row_hash d.js boundary c.evidence.event_hash) _ e in
      let (later, chained, same) = >>=-eq-ok (chain_from d.js row cs) _ rest in
      let its : relink c boundary row ∷ later ≡ out = cc in sym (ap first_prev_row_hash its)

  -- a chain that is established begins with an object that links to the boundary
  first_prev-establish :
      (seg chained : SegmentInput) (boundary : String)
      → establish_chain d.js seg boundary ≡ ok chained
      → 0 < length chained.objects
      → first_prev_row_hash chained.objects ≡ boundary
  unfolding establish_chain
  first_prev-establish seg chained boundary e filled =
      let (objects, chain, same) = >>=-eq-ok (chain_from d.js boundary seg.objects) _ e in
      let its : rechained seg objects ≡ chained = cc in
      first_prev-chain_from boundary seg.objects chained.objects
        (chain ∙ ap (λ (k : SegmentInput). ok k.objects) its) filled

  next_chain :
      (vs : List VerifierSegment) (previous : Option PreviousSealed) (m : SegmentManifest)
      (row : String) (objects : List Cce)
      → Remembers vs previous
      → first_prev_row_hash objects ≡ row
      → IsChain d.js vs
      → IsGenesis m (manifest_of previous) ⊎ FollowsSome d.js m row (manifest_of previous)
      → IsChain d.js (record { manifest = m; objects = objects } ∷ vs)
  next_chain [] previous m row objects remembered starts h crossed =
      elim (subst (λ p. IsGenesis m (manifest_of p) ⊎ FollowsSome d.js m row (manifest_of p))
        remembered crossed) [ inl g ↦ g | inr f ↦ absurd f ]
  next_chain (w ∷ older) previous m row objects (head, remembered, derived) starts h crossed =
      elim (subst (λ p. IsGenesis m (manifest_of p) ⊎ FollowsSome d.js m row (manifest_of p))
        remembered crossed) [
          | inl g ↦ absurd (cc (g.no_manifest))
          | inr f ↦ (subst (λ r. Follows d.js m r w.manifest) (sym starts) f, h)
        ]

  -- the segment that a seal answers as sealed is added
  pub sealed-IsAudited :
      (clock : Clock) (seg : SegmentInput) (previous : Option PreviousSealed) (at : String)
      (s : Sealing) (head : SegmentHead) (m : SegmentManifest) (key : String) (keys : List String)
      (t : Sealing) (vs : List VerifierSegment)
      → IsSealed d clock seg previous at s head m key keys t
      → IsAudited s previous vs
      → (v : VerifierSegment) × (v.manifest ≡ m)
        × IsAudited t (some (record { manifest = m; head = head })) (v ∷ vs)
  sealed-IsAudited clock seg previous at s head m key keys t vs x h =
      let (consistent, linked, same, hashed, valid) =
        (build_segment_manifest-eq-ok_iff d.js d.validate_manifest x.chained at x.checked.link m).0
          x.checked.built in
      let starts =
        first_prev-establish seg x.chained x.checked.boundary x.checked.established
          (omega (arith, consistent.objects, consistent.filled)) in
      let crossed =
        (verify_cross_segment_iff d.js m x.checked.boundary (manifest_of previous)).0
          x.checked.crossed in
      (
        record { manifest = m; objects = x.chained.objects },
        refl,
        record {
          chain =
              next_chain vs previous m x.checked.boundary x.chained.objects h.remembered starts
                h.chain crossed;
          remembered = (head, refl, x.checked.headed);
          accepted = (x.accepted, h.accepted);
          held = (
            (
              x.manifest_text,
              x.manifest_serializes,
              subst (λ k. Holds t.sinks.worm k (d.encode x.manifest_text)) x.keyed x.manifest_held,
              clock,
              x.stored,
            ),
            All-mono vs (λ v. HoldsSegment-Keeps s.sinks.worm t.sinks.worm v x.keeps) h.held,
          );
          heads = (head, s.heads, x.checked.headed, x.emitted, h.heads);
        },
      )

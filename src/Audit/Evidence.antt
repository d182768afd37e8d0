-- ===== src/Audit/Evidence.antt =====
-- What a call of the service has sealed, over `#sealAndAnchor` of services/evidence-writer/src/service.ts.
use mathlib.Core.List.{append-nil}
use external_database_audit.Base.{
  ◌≡◌, ◌∙◌, refl, Bool, true, false, Option, some, List, [], ◌∷◌, if◌then◌else◌,
}
use external_database_audit.Base.Result.{Result, ok, err}
use external_database_audit.Anchoring.Request.{is_anchored}
use external_database_audit.Anchoring.Record.{AnchorRecord}
use external_database_audit.Evidence.{SegmentManifest, SegmentHead}
use external_database_audit.Verifier.Segments.{VerifierSegment}
use external_database_audit.Worm.{Store, WormError}
use external_database_audit.Writer.Sealing.{SealReady, SealError}
use external_database_audit.Writer.Accumulator.{Accumulator}
use external_database_audit.Writer.Seal.{
  PreviousSealed, SealThrown, SealOutcome, sealed, verification_failed, write_failed, Sealing, seal,
}
use external_database_audit.Writer.Seal.Stored.{Keeps, Keeps-refl, put_immutable-Keeps}
use external_database_audit.Writer.Seal.FailClosed.{FailsClosed, seal-FailsClosed}
use external_database_audit.Writer.Service.{
  ServiceDeps, Turn, Service, ServiceThrown, Done, Requested, request_for, record_of, count_sealed,
  put_record, anchor_record_key, store_record, anchor_requested, remembered, anchor_sealed,
  seal_and_anchor, then_all, seal_each, seal_called,
}
use external_database_audit.Audit.Sealed.{seal-IsSealed}
use external_database_audit.Audit.Run.{IsAudited, IsAudited-Keeps, sealed-IsAudited}

-- anchoring keeps what is stored, and emits no head
record Anchors (s : Service) (r : Done × Service) : Type 0 where
  keeps : Keeps s.sealing.sinks.worm r.1.sealing.sinks.worm
  heads : r.1.sealing.heads ≡ s.sealing.heads

Anchors-put_record :
    (q : Result WormError (Unit {0}) × Store) (s : Service)
    → Keeps s.sealing.sinks.worm q.1
    → Anchors s (put_record q s)
Anchors-put_record (ok u, worm) s k = record { keeps = k; heads = refl }
Anchors-put_record (err e, worm) s k = record { keeps = k; heads = refl }

module _ (d : ServiceDeps) where
  Anchors-store_record :
      (head : SegmentHead) (r : Result ServiceThrown AnchorRecord) (s : Service)
      → Anchors s (store_record d head r s)
  unfolding store_record
  Anchors-store_record head (err e) s = record {
    keeps = Keeps-refl s.sealing.sinks.worm;
    heads = refl;
  }
  Anchors-store_record head (ok r) s = Anchors-put_record _ s (
      put_immutable-Keeps (anchor_record_key d.db_id head.segment_id)
        (d.sealer.encode (d.record_text r)) s.sealing.sinks.worm)

  either_Anchors :
      (b : Bool) (s : Service) (p q : Done × Service)
      → Anchors s p
      → Anchors s q
      → Anchors s (if b then p else q)
  either_Anchors true s p q h k = h
  either_Anchors false s p q h k = k

  Anchors-anchor_requested :
      (turn : Turn) (head : SegmentHead) (r : Result ServiceThrown Requested) (s : Service)
      → Anchors s (anchor_requested d turn head r s)
  unfolding anchor_requested
  Anchors-anchor_requested turn head (err e) s = record {
    keeps = Keeps-refl s.sealing.sinks.worm;
    heads = refl;
  }
  Anchors-anchor_requested turn head (ok (payload, hsm, outcome)) s =
      either_Anchors (is_anchored outcome) s _ _
        (Anchors-store_record head (record_of d turn (payload, hsm, outcome)) s)
        (record { keeps = Keeps-refl s.sealing.sinks.worm; heads = refl })

  -- what holds after a call: of one that throws, the segment that it sealed need not be remembered
  abbrev pub Audited : Done × Service → Type 0
  Audited (ok u, s) = (vs : List VerifierSegment) × IsAudited d.sealer s.sealing s.previous vs
  Audited (err e, s) =
      (vs : List VerifierSegment) × (p : Option PreviousSealed) × IsAudited d.sealer s.sealing p vs

  Audited-remembered :
      (m : SegmentManifest) (head : SegmentHead) (s : Service) (r : Done × Service)
      (vs : List VerifierSegment)
      → Anchors s r
      → IsAudited d.sealer s.sealing (some (record { manifest = m; head = head })) vs
      → Audited (remembered d m head r)
  Audited-remembered m head s (ok u, t) vs a h =
      (vs, IsAudited-Keeps d.sealer s.sealing t.sealing _ vs a.keeps a.heads h)
  Audited-remembered m head s (err e, t) vs a h =
      (vs, _, IsAudited-Keeps d.sealer s.sealing t.sealing _ vs a.keeps a.heads h)

  Audited-anchor_sealed :
      (turn : Turn) (seg : SealReady) (s : Service) (vs : List VerifierSegment)
      (q : Result SealThrown SealOutcome × Sealing)
      → seal d.sealer turn.clock seg.input s.previous turn.sealed_at s.sealing ≡ q
      → FailsClosed turn.sealed_at s.sealing q
      → IsAudited d.sealer s.sealing s.previous vs
      → Audited (anchor_sealed d turn q s)
  unfolding anchor_sealed
  Audited-anchor_sealed turn seg s vs (err e, t) done f h = (
    vs,
    s.previous,
    IsAudited-Keeps d.sealer s.sealing t s.previous vs f.keeps
        (f.heads ∙ append-nil s.sealing.heads) h,
  )
  Audited-anchor_sealed turn seg s vs (ok (verification_failed stage), t) done f h = (
    vs,
    IsAudited-Keeps d.sealer s.sealing t s.previous vs f.keeps
        (f.heads ∙ append-nil s.sealing.heads) h,
  )
  Audited-anchor_sealed turn seg s vs (ok (write_failed x), t) done f h = (
    vs,
    IsAudited-Keeps d.sealer s.sealing t s.previous vs f.keeps
        (f.heads ∙ append-nil s.sealing.heads) h,
  )
  Audited-anchor_sealed turn seg s vs (ok (sealed head m key keys), t) done f h =
      let x =
        seal-IsSealed d.sealer turn.clock seg.input s.previous turn.sealed_at s.sealing head m key
          keys t done in
      let (v, same, audited) =
        sealed-IsAudited d.sealer turn.clock seg.input s.previous turn.sealed_at s.sealing head m
          key keys t vs x h in
      Audited-remembered m head (count_sealed (record s { sealing = t })) _ (v ∷ vs)
        (Anchors-anchor_requested turn head (request_for d turn head)
          (count_sealed (record s { sealing = t })))
        audited

  pub Audited-then_all :
      (next : Service → Done × Service) (r : Done × Service)
      → Audited r
      → ((s : Service) (vs : List VerifierSegment)
          → IsAudited d.sealer s.sealing s.previous vs
          → Audited (next s))
      → Audited (then_all d next r)
  Audited-then_all next (ok u, s) (vs, h) later = later s vs h
  Audited-then_all next (err e, s) h later = h

  Audited-seal_each :
      (turn : SealReady → Turn) (segs : List SealReady) (s : Service) (vs : List VerifierSegment)
      → IsAudited d.sealer s.sealing s.previous vs
      → Audited (seal_each d turn segs s)
  unfolding seal_each seal_and_anchor
  Audited-seal_each turn [] s vs h = (vs, h)
  Audited-seal_each turn (seg ∷ segs) s vs h =
      Audited-then_all (seal_each d turn segs) _
        (Audited-anchor_sealed (turn seg) seg s vs _ refl
          (seal-FailsClosed d.sealer (turn seg).clock (turn seg).sealed_at s.sealing seg.input
            s.previous)
          h)
        (λ t ws k. Audited-seal_each turn segs t ws k)

  pub Audited-seal_called :
      (turn : SealReady → Turn) (r : Result SealError (Accumulator × List SealReady)) (s : Service)
      (vs : List VerifierSegment)
      → IsAudited d.sealer s.sealing s.previous vs
      → Audited (seal_called d turn r s)
  Audited-seal_called turn (err e) s vs h = (vs, s.previous, h)
  Audited-seal_called turn (ok (acc, segs)) s vs h =
      Audited-seal_each turn segs (record s { acc = acc }) vs h

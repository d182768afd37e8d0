-- ===== src/Writer/Service.antt =====
-- services/evidence-writer/src/service.ts: the accumulator, the sealer, the signer and the anchor
-- provider of one database behind `ingest` and `sweep`. For every segment that becomes ready, a `Turn`
-- has what comes from outside while it is sealed and anchored: the clocks, the provider's reply and the
-- identity that `buildAnchorRecord` draws. The signer rejects by `none`. A call that throws leaves what
-- it did until then, but for the accumulator, which stays as it was when its own call throws.
use external_database_audit.Base.{
  ℕ, ◌+◌, String, Bool, Option, none, some, List, [], ◌∷◌, if◌then◌else◌,
}
use external_database_audit.Base.Result.{Result, ok, err, ◌>>=◌}
use external_database_audit.Base.Text.{◌+++◌}
use external_database_audit.Anchoring.Token.{AnchorOutcome}
use external_database_audit.Anchoring.Request.{Provider, Reply, is_anchored, request_anchor}
use external_database_audit.Anchoring.Record.{
  SignatureResult, AnchorRecord, RecordError, build_anchor_record,
}
use external_database_audit.Cce
use external_database_audit.Cce.{Cce}
use external_database_audit.Evidence.{SegmentHead, SegmentManifest}
use external_database_audit.Evidence.AnchorPayload.{
  AnchorPayload, PayloadError, build_anchor_payload, anchor_payload_hash,
}
use external_database_audit.Worm.{Store, WormError, compliance, put_immutable}
use external_database_audit.Writer.Sealing.{SealReady, SealError}
use external_database_audit.Writer.Accumulator.{Accumulator, SegmentCaps, rejection_of, create}
use external_database_audit.Writer.Accumulator
use external_database_audit.Writer.Append.{Clock}
use external_database_audit.Writer.Seal.{
  PreviousSealed, SealThrown, SealOutcome, sealed, verification_failed, write_failed, Sealing,
  SealerDeps, seal,
}

pub record ServiceStats : Type 0 where
  pub ingested : ℕ
  pub sealed : ℕ
  pub anchored : ℕ
  pub pending : ℕ
  pub failed : ℕ
  pub rejected : ℕ

pub record ServiceDeps : Type 0 where
  pub sealer : SealerDeps
  pub caps : SegmentCaps
  pub db_id : String
  pub sign : AnchorPayload → Option SignatureResult
  pub provider : Provider
  pub valid_record : AnchorRecord → Bool
  pub record_text : AnchorRecord → String

pub record Turn : Type 0 where
  pub sealed_at : String
  pub clock : Clock
  pub signed_at : String
  pub created_at : String
  pub reply : Reply
  pub anchor_id : String

pub record Service : Type 0 where
  pub acc : Accumulator
  pub sealing : Sealing
  pub previous : Option PreviousSealed
  pub stats : ServiceStats

pub data ServiceThrown : Type 0 where
  unordered : SealError → ServiceThrown
  not_sealed : SealThrown → ServiceThrown
  bad_payload : PayloadError → ServiceThrown
  not_signed : ServiceThrown
  bad_record : RecordError → ServiceThrown
  not_stored : WormError → ServiceThrown

unfoldable pub anchor_record_key : String → String → String
anchor_record_key db segment = db +++ "/" +++ segment +++ "/anchor.json"

abbrev pub Done : Type 0
Done = Result ServiceThrown (Unit {0})

abbrev pub lifted {ℓ} : {A E : Type ℓ} → (E → ServiceThrown) → Result E A → Result ServiceThrown A
lifted f (ok a) = ok a
lifted f (err e) = err (f e)

abbrev signed : Option SignatureResult → Result ServiceThrown SignatureResult
signed none = err not_signed
signed (some s) = ok s

-- the signed payload of a head, and what the provider answered for it
abbrev pub Requested : Type 0
Requested = AnchorPayload × SignatureResult × AnchorOutcome

module _ (d : ServiceDeps) (turn : Turn) where
  unfoldable pub request_for : SegmentHead → Result ServiceThrown Requested
  request_for head = do
    payload ← lifted bad_payload (build_anchor_payload d.sealer.js head 1 turn.signed_at)
    hsm ← signed (d.sign payload)
    request ← lifted bad_payload (anchor_payload_hash d.sealer.js payload)
    ok (payload, hsm, request_anchor d.sealer.js d.provider request turn.reply)

  unfoldable pub record_of : Requested → Result ServiceThrown AnchorRecord
  record_of (payload, hsm, outcome) = lifted bad_record (
      build_anchor_record d.sealer.js d.valid_record (record {
        head = payload;
        hsm_signature = hsm;
        anchor_outcome = outcome;
        anchor_id = turn.anchor_id;
        created_at = turn.created_at;
        signature_revoked_at = Cce.undefined;
      }))

abbrev pub with_worm : Store → Service → Service
with_worm worm s = record s {
  sealing = record s.sealing { sinks = record s.sealing.sinks { worm = worm } };
}

abbrev pub count_anchored : Service → Service
count_anchored s = record s { stats = record s.stats { anchored = s.stats.anchored + 1 } }

abbrev pub count_pending : Service → Service
count_pending s = record s { stats = record s.stats { pending = s.stats.pending + 1 } }

abbrev pub count_sealed : Service → Service
count_sealed s = record s { stats = record s.stats { sealed = s.stats.sealed + 1 } }

abbrev pub count_failed : Service → Service
count_failed s = record s { stats = record s.stats { failed = s.stats.failed + 1 } }

abbrev pub put_record : Result WormError (Unit {0}) × Store → Service → Done × Service
put_record (ok u, worm) s = (ok tt, count_anchored (with_worm worm s))
put_record (err e, worm) s = (err (not_stored e), with_worm worm s)

module _ (d : ServiceDeps) where
  -- the record of an anchored head is stored
  unfoldable pub store_record :
      SegmentHead → Result ServiceThrown AnchorRecord → Service → Done × Service
  unfolding put_immutable anchor_record_key
  store_record head (err e) s = (err e, s)
  store_record head (ok r) s =
      put_record
        (put_immutable (anchor_record_key d.db_id head.segment_id)
          (d.sealer.encode (d.record_text r)) compliance s.sealing.sinks.worm)
        s

  unfoldable pub anchor_requested :
      Turn → SegmentHead → Result ServiceThrown Requested → Service → Done × Service
  unfolding store_record record_of
  anchor_requested turn head (err e) s = (err e, s)
  anchor_requested turn head (ok (payload, hsm, outcome)) s =
      let stored = store_record head (record_of d turn (payload, hsm, outcome)) s in
      if is_anchored outcome then stored else (ok tt, count_pending s)

  -- only what did not throw makes the segment the previous one
  abbrev pub remembered : SegmentManifest → SegmentHead → Done × Service → Done × Service
  remembered m head (err e, s) = (err e, s)
  remembered m head (ok u, s) =
      (ok tt, record s { previous = some (record { manifest = m; head = head }) })

  unfoldable pub anchor_sealed :
      Turn → Result SealThrown SealOutcome × Sealing → Service → Done × Service
  unfolding anchor_requested request_for
  anchor_sealed turn (err e, t) s = (err (not_sealed e), record s { sealing = t })
  anchor_sealed turn (ok (sealed head m key keys), t) s = remembered m head (
      anchor_requested turn head (request_for d turn head)
        (count_sealed (record s { sealing = t })))
  anchor_sealed turn (ok (verification_failed stage), t) s =
      (ok tt, count_failed (record s { sealing = t }))
  anchor_sealed turn (ok (write_failed f), t) s = (ok tt, count_failed (record s { sealing = t }))

  unfoldable pub seal_and_anchor : Turn → SealReady → Service → Done × Service
  unfolding seal anchor_sealed
  seal_and_anchor turn seg s =
      anchor_sealed turn (seal d.sealer turn.clock seg.input s.previous turn.sealed_at s.sealing) s

  abbrev pub then_all : (Service → Done × Service) → Done × Service → Done × Service
  then_all next (err e, s) = (err e, s)
  then_all next (ok u, s) = next s

  -- `for (const seg of sealed) await this.#sealAndAnchor(seg)`
  unfoldable pub seal_each : (SealReady → Turn) → List SealReady → Service → Done × Service
  unfolding seal_and_anchor
  seal_each turn [] s = (ok tt, s)
  seal_each turn (seg ∷ segs) s = then_all (seal_each turn segs) (seal_and_anchor (turn seg) seg s)

  abbrev pub seal_called :
      (SealReady → Turn)
      → Result SealError (Accumulator × List SealReady)
      → Service
      → Done × Service
  seal_called turn (err e) s = (err (unordered e), s)
  seal_called turn (ok (acc, segs)) s = seal_each turn segs (record s { acc = acc })

  abbrev pub count_ingested : Cce → Service → Service
  count_ingested c s = record s { stats = record s.stats { ingested = s.stats.ingested + 1 } }

  abbrev pub count_rejected : Cce → Service → Service
  count_rejected c s = elim (rejection_of c) [
    | none ↦ s
    | some r ↦ record s { stats = record s.stats { rejected = s.stats.rejected + 1 } }
  ]

  unfoldable pub ingest :
      Cce → (now closed : String) → (SealReady → Turn) → Service → Done × Service
  unfolding seal_each
  ingest c now closed turn s =
      seal_called turn (Accumulator.add d.sealer.js d.caps c now closed s.acc)
        (count_rejected c (count_ingested c s))

  unfoldable pub sweep : String → (SealReady → Turn) → Service → Done × Service
  unfolding seal_each
  sweep now turn s = seal_called turn (Accumulator.sweep d.sealer.js d.caps now s.acc) s

-- the constructor, over a store and a queue; `none` is the error of the caps
unfoldable pub start : ServiceDeps → Sealing → Option Service
start d sealing = elim (create d.caps) [
  | none ↦ none
  | some acc ↦ some (record {
    acc = acc;
    sealing = sealing;
    previous = none;
    stats = record {
      ingested = 0;
      sealed = 0;
      anchored = 0;
      pending = 0;
      failed = 0;
      rejected = 0;
    };
  })
]

pub data ServiceCall : Type 0 where
  ingesting : Cce → (now closed : String) → (SealReady → Turn) → ServiceCall
  sweeping : (now : String) → (SealReady → Turn) → ServiceCall

module _ (d : ServiceDeps) where
  unfoldable pub perform : ServiceCall → Service → Done × Service
  unfolding ingest sweep
  perform (ingesting c now closed turn) s = ingest d c now closed turn s
  perform (sweeping now turn) s = sweep d now turn s

  -- a sequence of calls, up to the first that throws
  unfoldable pub run : List ServiceCall → Service → Done × Service
  run [] s = (ok tt, s)
  run (c ∷ cs) s = then_all d (run cs) (perform c s)

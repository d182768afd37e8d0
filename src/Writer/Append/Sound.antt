-- ===== src/Writer/Append/Sound.antt =====
-- When an object is prepared.
use external_database_audit.Base.{
  String, ◌≡◌, ◌↔◌, ◌∙◌, refl, sym, ap, true, Option, none, some, List, [], ◌∷◌, arith,
}
use external_database_audit.Base.Dict
use external_database_audit.Base.Dict.{get-set_self}
use external_database_audit.Base.Result.{Result, ok, err, ◌>>=◌, >>=-eq-ok}
use external_database_audit.Canonical.Hash.{is_hash_token}
use external_database_audit.Canonical.Json.{Json, CanonicalError, serialize_canonical}
use external_database_audit.Cce.{Cce}
use external_database_audit.Cce.Verify.{HashVerification, verify_cce}
use external_database_audit.Worm.{born, compliance}
use external_database_audit.Writer.Sealing.{evidence_object_key}
use external_database_audit.Writer.Append.{
  AppendableObject, cce, snapshot_epoch_manifest, unrecognized, EvidencePlacement, WriterDeps,
  Sinks, ObjectDescriptor, back_refs, object_json, Refused, Ready, Appended, caught,
  cce_evidence_present, unverified, on_presence, validated, evidence_problem, serialized,
  on_evidence, on_errors, prepare_described, prepare,
}

abbrev pub key_of : Cce → EvidencePlacement → String
key_of c place = evidence_object_key c.source.db_id place.segment_id place.seq "cce"

-- the event as it is written
abbrev pub written_json : Cce → EvidencePlacement → Json
written_json c place = object_json (cce c) (back_refs (key_of c place) place.segment_id)

-- An event that may be written at a place: it is valid, its hashes are hash tokens and are those of
-- its content and its link, and it has the canonical text.
pub record IsSound (d : WriterDeps) (c : Cce) (place : EvidencePlacement) (text : String)
    : Type 0 where
  pub valid : d.validate_cce_full c ≡ ok []
  pub event_token : is_hash_token c.evidence.event_hash ≡ true
  pub row_token : is_hash_token c.evidence.row_hash ≡ true
  pub verified : verify_cce d.js c ≡ ok (record { event_hash_ok = true; row_hash_ok = true })
  pub serializes : serialize_canonical d.js (written_json c place) ≡ ok text

abbrev pub ready_for : WriterDeps → Cce → EvidencePlacement → String → Ready
ready_for d c place text = record {
  worm_object_key = key_of c place;
  bytes = d.encode text;
  to_write = written_json c place;
  descriptor = record {
    type = "cce";
    object_id = c.envelope_id;
    db_id = c.source.db_id;
    engine = c.source.engine;
  };
}

abbrev pub written_for : WriterDeps → Cce → EvidencePlacement → Appended
written_for d c place = record {
  worm_object_key = key_of c place;
  segment_id = place.segment_id;
  object_id = c.envelope_id;
  object_type = "cce";
  object = written_json c place;
}

abbrev pub stored : WriterDeps → Cce → EvidencePlacement → String → Sinks → Sinks
stored d c place text s = record s {
  worm = record s.worm {
    objects = Dict.set (key_of c place) (born (d.encode text) compliance s.worm) s.worm.objects;
  };
}

abbrev descriptor_of : Cce → ObjectDescriptor
descriptor_of c = record {
  type = "cce";
  object_id = c.envelope_id;
  db_id = c.source.db_id;
  engine = c.source.engine;
}

cce_evidence_present-none_iff :
    (c : Cce)
    → (cce_evidence_present c.evidence ≡ none)
      ↔ ((is_hash_token c.evidence.event_hash ≡ true) × (is_hash_token c.evidence.row_hash ≡ true))
unfolding cce_evidence_present
cce_evidence_present-none_iff c = ground arith

unverified-none :
    (v : HashVerification)
    → unverified v ≡ none
    → v ≡ record { event_hash_ok = true; row_hash_ok = true }
unverified-none v e = ground arith

module _ (d : WriterDeps) (c : Cce) where
  on_presence-none :
      (o : Option String)
      → on_presence d c o ≡ ok none
      → (o ≡ none) × (verify_cce d.js c ≡ ok (record { event_hash_ok = true; row_hash_ok = true }))
  on_presence-none (some reason) e = absurd (cc)
  on_presence-none none e =
      let (v, verified, fine) = >>=-eq-ok (verify_cce d.js c) _ e in
      (refl, verified ∙ ap ok (unverified-none v (cc fine)))

  evidence_problem-none_iff : (evidence_problem d (cce c) ≡ ok none) ↔ (
      (is_hash_token c.evidence.event_hash ≡ true)
      × (is_hash_token c.evidence.row_hash ≡ true)
      × (verify_cce d.js c ≡ ok (record { event_hash_ok = true; row_hash_ok = true })))
  unfolding evidence_problem
  evidence_problem-none_iff =
      let (tokens, absent) = cce_evidence_present-none_iff c in
      (
        λ e.
            let (there, v) = on_presence-none (cce_evidence_present c.evidence) e in
            let (event, row) = tokens there in (event, row, v),
        λ (event, row, v).
            ap (on_presence d c) (absent (event, row)) ∙ ap (λ r. r >>= λ w. ok (unverified w)) v,
      )

caught-ok :
    (d : WriterDeps) (desc : ObjectDescriptor) (r : Result CanonicalError (Result Refused Ready))
    (ready : Ready)
    → caught d desc r ≡ ok ready
    → r ≡ ok (ok ready)
caught-ok d desc (ok x) ready e = ap ok e
caught-ok d desc (err x) ready e = absurd (cc)

module _ (d : WriterDeps) (o : AppendableObject) (desc : ObjectDescriptor)
    (place : EvidencePlacement) (r : Ready) where
  on_errors-ok :
      (errors : List String)
      → on_errors d o desc place errors ≡ ok (ok r)
      → (errors ≡ []) × ((evidence_problem d o >>= on_evidence d o desc place) ≡ ok (ok r))
  on_errors-ok [] e = (refl, e)
  on_errors-ok (x ∷ xs) e = absurd (cc)

  on_evidence-ok :
      (problem : Option String)
      → on_evidence d o desc place problem ≡ ok (ok r)
      → (problem ≡ none) × (serialized d o desc place ≡ ok (ok r))
  on_evidence-ok none e = (refl, e)
  on_evidence-ok (some reason) e = absurd (cc)

  -- the parts of a preparation that returns
  prepared_parts :
      caught d desc (prepare_described d o desc place) ≡ ok r
      → (validated d o ≡ ok [])
        × (evidence_problem d o ≡ ok none)
        × (serialized d o desc place ≡ ok (ok r))
  unfolding prepare_described
  prepared_parts e =
      let fine = caught-ok d desc (prepare_described d o desc place) r e in
      let (errors, valid, rest) = >>=-eq-ok (validated d o) _ fine in
      let (none_there, rest1) = on_errors-ok errors rest in
      let (problem, evidence, rest2) = >>=-eq-ok (evidence_problem d o) _ rest1 in
      let (sound, rest3) = on_evidence-ok problem rest2 in
      (valid ∙ ap ok none_there, evidence ∙ ap ok sound, rest3)

  serialized-ok :
      serialized d o desc place ≡ ok (ok r)
      → (text : String) × (serialize_canonical d.js r.to_write ≡ ok text)
        × (r.bytes ≡ d.encode text)
        × (r ≡ record {
          worm_object_key = evidence_object_key desc.db_id place.segment_id place.seq desc.type;
          bytes = d.encode text;
          to_write = object_json o (
              back_refs
                (evidence_object_key desc.db_id place.segment_id place.seq desc.type)
                place.segment_id);
          descriptor = desc;
        })
  unfolding serialized
  serialized-ok e =
      let key = evidence_object_key desc.db_id place.segment_id place.seq desc.type in
      let value = object_json o (back_refs key place.segment_id) in
      let (text, serializes, same) = >>=-eq-ok (serialize_canonical d.js value) _ e in
      (text, cc, cc, cc)

module _ (d : WriterDeps) (c : Cce) (place : EvidencePlacement) where
  -- what is prepared is sound
  pub IsSound-prepare :
      (r : Ready)
      → prepare d (cce c) place ≡ ok r
      → (text : String) × IsSound d c place text × (r ≡ ready_for d c place text)
  unfolding prepare validated
  IsSound-prepare r e =
      let (valid, evidence, made) = prepared_parts d (cce c) (descriptor_of c) place r e in
      let (text, serializes, encoded, same) =
        serialized-ok d (cce c) (descriptor_of c) place r made in
      let (event, row, v) = (evidence_problem-none_iff d c).0 evidence in
      (
        text,
        record {
          valid = valid;
          event_token = event;
          row_token = row;
          verified = v;
          serializes = ap (λ q. serialize_canonical d.js q.to_write) (sym same) ∙ serializes;
        },
        same,
      )

  -- and what is sound is prepared
  pub prepare_sound :
      (text : String)
      → IsSound d c place text
      → prepare d (cce c) place ≡ ok (ready_for d c place text)
  unfolding prepare prepare_described validated serialized
  prepare_sound text h =
      let desc = descriptor_of c in
      ap (λ r. caught d desc (r >>= on_errors d (cce c) desc place)) h.valid
      ∙ ap (λ r. caught d desc (r >>= on_evidence d (cce c) desc place))
          ((evidence_problem-none_iff d c).1 (h.event_token, h.row_token, h.verified))
      ∙ ap (λ r. caught d desc (r >>= λ text. ok (ok (ready_for d c place text)))) h.serializes

-- what is prepared carries the canonical text of what is written
pub prepare-text :
    (d : WriterDeps) (o : AppendableObject) (place : EvidencePlacement) (r : Ready)
    → prepare d o place ≡ ok r
    → (text : String) × (serialize_canonical d.js r.to_write ≡ ok text) × (r.bytes ≡ d.encode text)
unfolding prepare
prepare-text d (unrecognized v) place r e = absurd (cc)
prepare-text d (cce c) place r e =
    let (valid, evidence, made) = prepared_parts d (cce c) (descriptor_of c) place r e in
    let (text, serializes, encoded, same) =
      serialized-ok d (cce c) (descriptor_of c) place r made in
    (text, serializes, encoded)
prepare-text d (snapshot_epoch_manifest m) place r e =
    let desc : ObjectDescriptor = record {
      type = "snapshot_epoch_manifest";
      object_id = m.epoch_id;
      db_id = m.db_id;
      engine = "unknown";
    } in
    let o = snapshot_epoch_manifest m in
    let (valid, evidence, made) = prepared_parts d o desc place r e in
    let (text, serializes, encoded, same) = serialized-ok d o desc place r made in
    (text, serializes, encoded)

-- ===== src/Evidence/Fixture.antt =====
-- A change event and a platform in miniature, for the tests.
use external_database_audit.Base.{ℕ, String, true, false, Option, none, some, List, [], ◌∷◌}
use external_database_audit.Base.Platform.{Platform}
use external_database_audit.Cce
use external_database_audit.Cce.{Cce}
use external_database_audit.Evidence.{
  SegmentObjectRef, SegmentObjectHash, SegmentOffsetRange, SegmentFidelitySummary,
  SegmentCompletenessSummary, PreviousSegmentRef, SegmentManifest, SegmentInput, SegmentChainInput,
}

-- every text has the same digest of 64 digits
abbrev pub digest : String
digest = "1111111111111111111111111111111111111111111111111111111111111111"

abbrev pub token : String
token = "sha256:1111111111111111111111111111111111111111111111111111111111111111"

abbrev pub platform : Platform
platform = record { nfc = λ s. s; quote = λ s. s; sha256_hex = λ s. digest; date_parse = λ s. none }

abbrev pub event : String → Option String → Cce
event id prev = record {
  schema_version = Cce.cce_1_0;
  envelope_id = id;
  source = record {
    db_id = "db";
    engine = "mysql";
    server_uuid = "u";
    schema = "s";
    engine_version = none;
  };
  transaction = record { tx_id = "t"; commit_ts = "c"; ingest_ts = "i"; statement_count = 1 };
  offset = record {
    gtid = Cce.undefined;
    binlog_file = Cce.undefined;
    binlog_pos = Cce.undefined;
    lsn = Cce.undefined;
    scn = Cce.undefined;
    resume_token = Cce.undefined;
  };
  fidelity = record {
    state = Cce.healthy;
    source_config = record {
      binlog_format = some "ROW";
      binlog_row_image = none;
      gtid_mode = none;
      replica_identity = none;
      log_bin = none;
      config_snapshot_id = "x";
    };
    notes = none;
    degraded_reason = Cce.undefined;
  };
  completeness = record {
    consumed_offset_key = "k";
    consumed_gtid_set = none;
    heartbeat_ts = none;
    gap_detected = false;
    snapshot_phase = none;
    snapshot_epoch_id = none;
    snapshot_coverage = none;
  };
  actor = record {
    db_user = Cce.undefined;
    client_host = Cce.undefined;
    connection_id = Cce.undefined;
    application_name = Cce.undefined;
    attribution_confidence = Cce.unattributed;
    audit_event_ref = none;
    correlation_basis = none;
  };
  changes = [];
  evidence = record { event_hash = token; prev_row_hash = prev; row_hash = token };
}

abbrev pub refs : List SegmentObjectRef
refs =
    record { seq = 0; object_id = "a"; worm_object_key = "ka" }
    ∷ record { seq = 1; object_id = "b"; worm_object_key = "kb" }
    ∷ []

abbrev pub hashes : List SegmentObjectHash
hashes =
    record { seq = 0; event_hash = token; row_hash = token }
    ∷ record { seq = 1; event_hash = token; row_hash = token }
    ∷ []

abbrev pub chain : SegmentChainInput
chain = record {
  object_list = refs;
  object_hash_list = hashes;
  objects = event "a" none ∷ event "b" (some token) ∷ [];
}

-- the same hashes over other events
abbrev pub other_chain : SegmentChainInput
other_chain = record {
  object_list =
      record { seq = 0; object_id = "c"; worm_object_key = "kc" }
      ∷ record { seq = 1; object_id = "d"; worm_object_key = "kd" }
      ∷ [];
  object_hash_list = hashes;
  objects = event "c" none ∷ event "d" (some token) ∷ [];
}

abbrev offsets : SegmentOffsetRange
offsets = record { first_offset_key = "k"; last_offset_key = "k"; consumed_gtid_set = none }

abbrev fidelity : SegmentFidelitySummary
fidelity = record { all_healthy = true; degraded_count = 0; compromised_count = 0; reasons = [] }

abbrev completeness : SegmentCompletenessSummary
completeness = record { gap_detected = false; expected_continuous = true; notes = [] }

abbrev pub segment : SegmentInput
segment = record {
  db_id = "db";
  engine = "mysql";
  segment_id = "s0";
  segment_sequence = 0;
  opened_at = "o";
  event_count = 2;
  first_envelope_id = "a";
  last_envelope_id = "b";
  first_row_hash = "";
  last_row_hash = "";
  object_list = refs;
  object_hash_list = [];
  source_offset_range = offsets;
  fidelity_summary = fidelity;
  completeness_summary = completeness;
  objects = event "a" none ∷ event "b" none ∷ [];
}

abbrev pub chained_segment : SegmentInput
chained_segment = record segment {
  first_row_hash = token;
  last_row_hash = token;
  object_hash_list = hashes;
  objects = event "a" none ∷ event "b" (some token) ∷ [];
}

abbrev manifest : String → ℕ → Option PreviousSegmentRef → SegmentManifest
manifest id n previous = record {
  core = record {
    segment_id = id;
    db_id = "db";
    engine = "mysql";
    segment_sequence = n;
    opened_at = "o";
    sealed_at = "z";
    event_count = 2;
    first_envelope_id = "a";
    last_envelope_id = "b";
    first_row_hash = token;
    last_row_hash = token;
    object_list = refs;
    object_hash_list = hashes;
    source_offset_range = offsets;
    fidelity_summary = fidelity;
    completeness_summary = completeness;
    previous_segment = previous;
  };
  manifest_hash = token;
}

abbrev pub genesis_manifest : SegmentManifest
genesis_manifest = manifest "s0" 0 none

abbrev pub next_manifest : SegmentManifest
next_manifest =
    manifest "s1" 1
      (some (record { segment_id = "s0"; segment_sequence = 0; segment_hash = token }))

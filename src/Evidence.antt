-- ===== src/Evidence.antt =====
-- packages/evidence: the data of a sealed segment (types.ts). The object type of a reference and the
-- manifest version are constants in the source and are left out of the records.
pub mod Chain
pub mod CrossSegment
pub mod Manifest
pub mod AnchorPayload
pub mod Fixture
mod Tests
use external_database_audit.Base.{ℕ, String, Bool, Option, List}
use external_database_audit.Cce.{Cce}

pub record SegmentObjectRef : Type 0 where
  pub seq : ℕ
  pub object_id : String
  pub worm_object_key : String

pub record SegmentObjectHash : Type 0 where
  pub seq : ℕ
  pub event_hash : String
  pub row_hash : String

pub record SegmentOffsetRange : Type 0 where
  pub first_offset_key : String
  pub last_offset_key : String
  pub consumed_gtid_set : Option String

pub record SegmentFidelitySummary : Type 0 where
  pub all_healthy : Bool
  pub degraded_count : ℕ
  pub compromised_count : ℕ
  pub reasons : List String

pub record SegmentCompletenessSummary : Type 0 where
  pub gap_detected : Bool
  pub expected_continuous : Bool
  pub notes : List String

pub record PreviousSegmentRef : Type 0 where
  pub segment_id : String
  pub segment_sequence : ℕ
  pub segment_hash : String

-- all fields but `manifest_hash`: `SegmentManifestCore`
pub record ManifestCore : Type 0 where
  pub segment_id : String
  pub db_id : String
  pub engine : String
  pub segment_sequence : ℕ
  pub opened_at : String
  pub sealed_at : String
  pub event_count : ℕ
  pub first_envelope_id : String
  pub last_envelope_id : String
  pub first_row_hash : String
  pub last_row_hash : String
  pub object_list : List SegmentObjectRef
  pub object_hash_list : List SegmentObjectHash
  pub source_offset_range : SegmentOffsetRange
  pub fidelity_summary : SegmentFidelitySummary
  pub completeness_summary : SegmentCompletenessSummary
  pub previous_segment : Option PreviousSegmentRef

pub record SegmentManifest : Type 0 where
  pub core : ManifestCore
  pub open core use *
  pub manifest_hash : String

pub record SegmentHead : Type 0 where
  pub db_id : String
  pub segment_id : String
  pub segment_sequence : ℕ
  pub segment_hash : String
  pub last_row_hash : String

-- `SegmentManifestInput`; with its three lists it is also a `SegmentChainInput`
pub record SegmentInput : Type 0 where
  pub db_id : String
  pub engine : String
  pub segment_id : String
  pub segment_sequence : ℕ
  pub opened_at : String
  pub event_count : ℕ
  pub first_envelope_id : String
  pub last_envelope_id : String
  pub first_row_hash : String
  pub last_row_hash : String
  pub object_list : List SegmentObjectRef
  pub object_hash_list : List SegmentObjectHash
  pub source_offset_range : SegmentOffsetRange
  pub fidelity_summary : SegmentFidelitySummary
  pub completeness_summary : SegmentCompletenessSummary
  pub objects : List Cce

pub record SegmentChainInput : Type 0 where
  pub object_list : List SegmentObjectRef
  pub object_hash_list : List SegmentObjectHash
  pub objects : List Cce

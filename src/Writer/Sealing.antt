-- ===== src/Writer/Sealing.antt =====
-- The seal of a segment, in services/evidence-writer/src/accumulator.ts, and `evidenceObjectKey` of
-- writer.ts. The texts of a segment's objects are compared as JavaScript does.
use external_database_audit.Base.{
  ℕ, zero, suc, ◌+◌, ◌-◌, String, Bool, true, false, not, ◌&&◌, ◌||◌, Option, none, some, List, [],
  ◌∷◌, ◌++◌, ◌==◌, str_eq, if◌then◌else◌,
}
use external_database_audit.Base.Lists.{length, any}
use external_database_audit.Base.Sort.{sort}
use external_database_audit.Base.Text.{codes, decimal, ◌+++◌}
use external_database_audit.Canonical.Json.{CanonicalError}
use external_database_audit.Cce.{Nullish, FidelityState, Cce}
use external_database_audit.Cce.Order.{text_lt}
use external_database_audit.Evidence.{SegmentObjectRef, SegmentObjectHash, SegmentInput}

pub data SealTrigger : Type 0 where
  event_count_cap time_cap flush : SealTrigger

-- `SealReadySegment`
pub record SealReady : Type 0 where
  pub input : SegmentInput
  pub closed_at : String
  pub trigger : SealTrigger

pub record OpenSegment : Type 0 where
  pub db_id : String
  pub engine : String
  pub segment_id : String
  pub segment_sequence : ℕ
  pub opened_at : String
  pub objects : List Cce

pub data SealError : Type 0 where
  unordered : CanonicalError → SealError
  no_objects : SealError

abbrev zeros : ℕ → String
zeros zero = ""
zeros (suc n) = "0" +++ zeros n

-- `String(n).padStart(6, '0')`
unfoldable pub padded : ℕ → String
padded n = zeros (6 - length (codes (decimal n))) +++ decimal n

unfoldable pub evidence_object_key : String → String → ℕ → String → String
unfolding padded
evidence_object_key db segment seq type =
    db +++ "/" +++ segment +++ "/" +++ padded seq +++ "." +++ type +++ ".json"

unfoldable pub object_refs : String → String → ℕ → List Cce → List SegmentObjectRef
object_refs db segment i [] = []
object_refs db segment i (c ∷ cs) =
    record {
      seq = i;
      object_id = c.envelope_id;
      worm_object_key = evidence_object_key db segment i "cce";
    }
    ∷ object_refs db segment (suc i) cs

unfoldable pub object_hashes : ℕ → List Cce → List SegmentObjectHash
object_hashes i [] = []
object_hashes i (c ∷ cs) =
    record { seq = i; event_hash = c.evidence.event_hash; row_hash = c.evidence.row_hash }
    ∷ object_hashes (suc i) cs

abbrev is_degraded : Cce → Bool
is_degraded c = elim c.fidelity.state [ FidelityState.degraded ↦ true | _ ↦ false ]

abbrev is_compromised : Cce → Bool
is_compromised c = elim c.fidelity.state [ FidelityState.compromised ↦ true | _ ↦ false ]

abbrev pub count : (Cce → Bool) → List Cce → ℕ
count p [] = 0
count p (c ∷ cs) = (if p c then 1 else 0) + count p cs

-- the reason of an object that is not healthy, if it has one that is not empty
abbrev reason_of : Cce → Option String
reason_of c = elim c.fidelity.degraded_reason [
  | Nullish.undefined ↦ none
  | Nullish.null ↦ none
  | Nullish.value s ↦
      if (is_degraded c || is_compromised c) && not (str_eq s "") then some s else none
]

abbrev reasons_from : List String → List Cce → List String
reasons_from seen [] = seen
reasons_from seen (c ∷ cs) =
    reasons_from
      (elim (reason_of c) [
        | none ↦ seen
        | some s ↦ if any (λ r. str_eq r s) seen then seen else seen ++ s ∷ []
      ])
      cs

abbrev nonempty : Option String → Option String
nonempty none = none
nonempty (some s) = if str_eq s "" then none else some s

abbrev pub last_of : Cce → List Cce → Cce
last_of c [] = c
last_of c (d ∷ cs) = last_of d cs

-- the segment of objects in their order, the first of which is given apart
unfoldable pub sealed_with : OpenSegment → SealTrigger → String → Cce → List Cce → SealReady
unfolding object_refs object_hashes
sealed_with seg trigger closed_at first rest =
    let ordered = first ∷ rest in
    let last = last_of first rest in
    let degraded = count is_degraded ordered in
    let compromised = count is_compromised ordered in
    let gap = any (λ c. c.completeness.gap_detected) ordered in
    record {
      input = record {
        db_id = seg.db_id;
        engine = seg.engine;
        segment_id = seg.segment_id;
        segment_sequence = seg.segment_sequence;
        opened_at = seg.opened_at;
        event_count = length ordered;
        first_envelope_id = first.envelope_id;
        last_envelope_id = last.envelope_id;
        first_row_hash = first.evidence.row_hash;
        last_row_hash = last.evidence.row_hash;
        object_list = object_refs seg.db_id seg.segment_id 0 ordered;
        object_hash_list = object_hashes 0 ordered;
        source_offset_range = record {
          first_offset_key = first.completeness.consumed_offset_key;
          last_offset_key = last.completeness.consumed_offset_key;
          consumed_gtid_set = nonempty last.completeness.consumed_gtid_set;
        };
        fidelity_summary = record {
          all_healthy = degraded == 0 && compromised == 0;
          degraded_count = degraded;
          compromised_count = compromised;
          reasons = sort (λ a b. not (text_lt b a)) (reasons_from [] ordered);
        };
        completeness_summary = record {
          gap_detected = gap;
          expected_continuous = not gap;
          notes = [];
        };
        objects = ordered;
      };
      closed_at = closed_at;
      trigger = trigger;
    }

-- ===== src/Writer/Accumulator/Tests.antt =====
-- A run of the accumulator, and the theorems at it.
use external_database_audit.Base.{
  ◌+◌, ◌≡◌, String, refl, Bool, none, some, List, [], ◌∷◌, map, str_eq, if◌then◌else◌,
}
use external_database_audit.Base.Dict
use external_database_audit.Base.Lists.{All}
use external_database_audit.Base.Platform.{Platform}
use external_database_audit.Base.Result.{ok, err}
use external_database_audit.Canonical.Hash
use external_database_audit.Canonical.Json
use external_database_audit.Cce.{Cce}
use external_database_audit.Cce.Order
use external_database_audit.Cce.Order.{gtid_number}
use external_database_audit.Evidence.Fixture
use external_database_audit.Evidence.Fixture.{event, token}
use external_database_audit.Writer.Sealing
use external_database_audit.Writer.Sealing.{SealReady, SealError, count}
use external_database_audit.Writer.Accumulator
use external_database_audit.Writer.Accumulator.{
  SegmentCaps, Call, adding, sweeping, run, next_of, Called, create,
}
use external_database_audit.Writer.Accumulator.Shape.{total}
use external_database_audit.Writer.Accumulator.Keeping.{count_sealed, IsReady, Numbered, Fits}
use external_database_audit.Writer.Accumulator.Kept.{run-conserves, run-within_caps, run-Numbered}
use external_database_audit.Writer.Accumulator.Total.{run-total}

-- "late" is 100 milliseconds after all else
abbrev platform : Platform
platform = record Fixture.platform {
  date_parse = λ s. if str_eq s "late" then some 100 else some 0;
}

abbrev caps : SegmentCaps
caps = record { max_events = 2; max_age_ms = 50 }

abbrev new : Accumulator.Accumulator
new = record { opened = []; next_seq = [] }

-- two objects fill a segment, the third is swept, the fourth stays
abbrev calls : List Call
calls =
    adding (event "b" none) "early" "early"
    ∷ adding (event "a" none) "early" "early"
    ∷ adding (event "c" none) "early" "early"
    ∷ sweeping "late"
    ∷ adding (event "d" none) "late" "late"
    ∷ []

abbrev first_ids : Called → List String
first_ids (ok (acc, out)) = map (λ s. s.input.first_envelope_id) out
first_ids (err e) = []

two_sealed : first_ids (run platform caps calls new) ≡ "a" ∷ "c" ∷ []
unfolding run Accumulator.step Accumulator.add Accumulator.put_found Accumulator.put_in
    Accumulator.seal_then Accumulator.seal Accumulator.seal_ordered Accumulator.sweep
    Accumulator.sweep_entries Accumulator.aged Accumulator.open_segment Accumulator.admit
    Sealing.sealed_with Dict.get Dict.set Dict.delete Order.order_cces Order.compare_cce
    Order.compare_keys Order.offset_tuple Order.text_lt Order.compare_epochs Order.cmp_str
    Order.compare_ties Order.row_key_hash Hash.is_hash_token Json.serialize_canonical Json.write
two_sealed = refl

-- the number of a GTID set of one server, and of a range
gtid_numbers : gtid_number "3e11fa47-71ca:5" + gtid_number "3e11fa47-71ca:3-9" ≡ 8
unfolding gtid_number
gtid_numbers = refl

-- in "0-1-270", of MariaDB, it is the number of the server, and not that of the transaction
mariadb_number : gtid_number "0-1-270" ≡ 1
unfolding gtid_number
mariadb_number = refl

abbrev left_of : Called → Accumulator.Accumulator
left_of (ok (acc, out)) = acc
left_of (err e) = new

abbrev out_of : Called → List SealReady
out_of (ok (acc, out)) = out
out_of (err e) = []

abbrev left : Accumulator.Accumulator
left = left_of (run platform caps calls new)

abbrev out : List SealReady
out = out_of (run platform caps calls new)

abbrev is_c : Cce → Bool
is_c e = str_eq e.envelope_id "c"

run-conserves_example : total is_c left.opened + count_sealed is_c out ≡ 1
unfolding create run Accumulator.step Accumulator.add Accumulator.put_found Accumulator.put_in
    Accumulator.seal_then Accumulator.seal Accumulator.seal_ordered Accumulator.sweep
    Accumulator.sweep_entries Accumulator.aged Accumulator.open_segment Accumulator.admit
    Sealing.sealed_with Dict.get Dict.set Dict.delete Order.order_cces Order.compare_cce
    Order.compare_keys Order.offset_tuple Order.text_lt Order.compare_epochs Order.cmp_str
    Order.compare_ties Order.row_key_hash Hash.is_hash_token Json.serialize_canonical Json.write
run-conserves_example = run-conserves platform caps new left calls out is_c refl refl

run-within_caps_example : All (IsReady 2) out × Fits 2 left
unfolding create run Accumulator.step Accumulator.add Accumulator.put_found Accumulator.put_in
    Accumulator.seal_then Accumulator.seal Accumulator.seal_ordered Accumulator.sweep
    Accumulator.sweep_entries Accumulator.aged Accumulator.open_segment Accumulator.admit
    Sealing.sealed_with Dict.get Dict.set Dict.delete Order.order_cces Order.compare_cce
    Order.compare_keys Order.offset_tuple Order.text_lt Order.compare_epochs Order.cmp_str
    Order.compare_ties Order.row_key_hash Hash.is_hash_token Json.serialize_canonical Json.write
run-within_caps_example = run-within_caps platform caps new left calls out refl refl

run-Numbered_example : Numbered "db" 0 (next_of "db" left) out
unfolding create run Accumulator.step Accumulator.add Accumulator.put_found Accumulator.put_in
    Accumulator.seal_then Accumulator.seal Accumulator.seal_ordered Accumulator.sweep
    Accumulator.sweep_entries Accumulator.aged Accumulator.open_segment Accumulator.admit
    Sealing.sealed_with Dict.get Dict.set Dict.delete Order.order_cces Order.compare_cce
    Order.compare_keys Order.offset_tuple Order.text_lt Order.compare_epochs Order.cmp_str
    Order.compare_ties Order.row_key_hash Hash.is_hash_token Json.serialize_canonical Json.write
run-Numbered_example = run-Numbered platform caps new left calls out "db" refl refl

run-total_example :
    (end : Accumulator.Accumulator) × (sealed : List SealReady) × (run platform caps calls new
      ≡ ok (end, sealed))
unfolding create Accumulator.admit Hash.is_hash_token
run-total_example = run-total platform caps new calls refl refl

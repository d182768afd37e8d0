-- ===== src/Writer/Accumulator.antt =====
-- services/evidence-writer/src/accumulator.ts. The objects are typed, so the tests of their shape hold,
-- and what is left of the admission are the empty texts and the hash tokens. A call is given the time
-- that the clock tells, and that at the seal on the event cap; a call that throws, as sorting may,
-- returns the error without a state.
pub mod Shape
pub mod Takes
pub mod Keeping
pub mod Adding
pub mod Sweeping
pub mod Kept
pub mod Sealable
pub mod Total
mod Tests
use external_database_audit.Base.{
  ℕ, zero, suc, ◌+◌, ◌-◌, ◌≡◌, String, Bool, true, false, not, ◌&&◌, ◌||◌, Option, none, some, List,
  [], ◌∷◌, ◌++◌, map, ltb, leb, ◌==◌, str_eq, if◌then◌else◌,
}
use external_database_audit.Base.Dict
use external_database_audit.Base.Dict.{Dict}
use external_database_audit.Base.Lists.{length, any}
use external_database_audit.Base.Platform.{Platform}
use external_database_audit.Base.Result.{Result, ok, err, reject_if, ◌>>=◌, ◌>>◌}
use external_database_audit.Base.Sort.{sort}
use external_database_audit.Base.Text.{codes, decimal, ◌+++◌}
use external_database_audit.Canonical.Hash.{is_hash_token}
use external_database_audit.Canonical.Json.{CanonicalError}
use external_database_audit.Cce
use external_database_audit.Cce.{Nullish, FidelityState, Cce}
use external_database_audit.Cce.Order.{order_cces, text_lt}
use external_database_audit.Evidence.{SegmentObjectRef, SegmentObjectHash, SegmentInput}
use external_database_audit.Writer.Sealing.{
  OpenSegment, SealReady, SealTrigger, event_count_cap, time_cap, flush, SealError, unordered,
  no_objects, padded, sealed_with,
}

pub record SegmentCaps : Type 0 where
  pub max_events : ℕ
  pub max_age_ms : ℕ

pub data Rejection : Type 0 where
  missing_db_id missing_engine missing_envelope_id : Rejection
  invalid_event_hash invalid_row_hash : Rejection

pub record Accumulator : Type 0 where
  pub opened : Dict OpenSegment
  pub next_seq : Dict ℕ

-- the constructor; `none` is the error
unfoldable pub create : SegmentCaps → Option Accumulator
create caps = if ltb caps.max_events 1 then none else some (record { opened = []; next_seq = [] })

unfoldable pub admit : Cce → Result Rejection (Unit {0})
admit o = do
  reject_if (str_eq o.source.db_id "") missing_db_id
  reject_if (str_eq o.source.engine "") missing_engine
  reject_if (str_eq o.envelope_id "") missing_envelope_id
  reject_if (not (is_hash_token o.evidence.event_hash)) invalid_event_hash
  reject_if (not (is_hash_token o.evidence.row_hash)) invalid_row_hash

-- `AddResult.rejected`
unfoldable pub rejection_of : Cce → Option Rejection
unfolding admit
rejection_of o = elim (admit o) [ err rejected ↦ some rejected | ok u ↦ none ]

pub data Call : Type 0 where
  adding : Cce → (now closed : String) → Call
  sweeping flushing : (now : String) → Call

abbrev pub next_of : String → Accumulator → ℕ
next_of db acc = elim (Dict.get db acc.next_seq) [ none ↦ 0 | some n ↦ n ]

-- a segment that is sealed, and the accumulator without it
abbrev pub Sealed : Type 0
Sealed = Result SealError (Accumulator × SealReady)

module _ (js : Platform) where
  -- the next number is set when the objects are ordered
  unfoldable pub seal_ordered :
      OpenSegment → SealTrigger → String → Result CanonicalError (List Cce) → Accumulator → Sealed
  seal_ordered seg trigger closed_at (err e) acc = err (unordered e)
  seal_ordered seg trigger closed_at (ok []) acc = err no_objects
  seal_ordered seg trigger closed_at (ok (c ∷ cs)) acc = ok (
    record {
      opened = Dict.delete seg.db_id acc.opened;
      next_seq = Dict.set seg.db_id (seg.segment_sequence + 1) acc.next_seq;
    },
    sealed_with seg trigger closed_at c cs,
  )

  -- the segment is sealed and no longer open
  unfoldable pub seal : OpenSegment → SealTrigger → String → Accumulator → Sealed
  unfolding seal_ordered
  seal seg trigger closed_at acc =
      seal_ordered seg trigger closed_at (order_cces js seg.objects) acc

abbrev pub Called : Type 0
Called = Result SealError (Accumulator × List SealReady)

abbrev pub continued : Sealed → (Accumulator → Called) → Called
continued sealed next = do (left, s) ← sealed; (last, more) ← next left; ok (last, s ∷ more)

-- a segment is sealed, and what follows seals more
unfoldable pub seal_then :
    Platform → OpenSegment → SealTrigger → String → Accumulator → (Accumulator → Called) → Called
seal_then js seg trigger closed_at acc next = continued (seal js seg trigger closed_at acc) next

module _ (js : Platform) (caps : SegmentCaps) where
  -- a time that is not one ages nothing
  unfoldable pub aged : OpenSegment → String → Bool
  aged seg now = elim (js.date_parse now) [
    | none ↦ false
    | some t ↦ elim (js.date_parse seg.opened_at) [
      | none ↦ false
      | some at ↦ leb (at + caps.max_age_ms) t
    ]
  ]

  abbrev pub overdue : OpenSegment → String → Bool
  overdue seg now = ltb 0 (length seg.objects) && aged seg now

  unfoldable pub open_segment : String → String → String → Accumulator → OpenSegment
  open_segment db engine now acc = record {
    db_id = db;
    engine = engine;
    segment_id = "seg-" +++ padded (next_of db acc);
    segment_sequence = next_of db acc;
    opened_at = now;
    objects = [];
  }

  -- the open segment of a database with an object put in, sealed on the event cap
  unfoldable pub put_in : Cce → String → OpenSegment → Accumulator → Called
  put_in o closed seg acc =
      let full : OpenSegment = record seg { objects = seg.objects ++ o ∷ [] } in
      let held : Accumulator = record acc { opened = Dict.set o.source.db_id full acc.opened } in
      if leb caps.max_events (length full.objects)
      then seal_then js full event_count_cap closed held (λ left. ok (left, []))
      else ok (held, [])

  -- the open segment that is found is sealed on the time cap, or takes the object; where there is
  -- none left, a new one does
  unfoldable pub put_found : Cce → String → String → Option OpenSegment → Accumulator → Called
  unfolding put_in open_segment
  put_found o now closed none acc =
      put_in o closed (open_segment o.source.db_id o.source.engine now acc) acc
  put_found o now closed (some seg) acc =
      if overdue seg now
      then seal_then js seg time_cap now acc
          (λ left. put_in o closed (open_segment o.source.db_id o.source.engine now left) left)
      else put_in o closed seg acc

  -- an object that is not admitted is not buffered
  unfoldable pub add : Cce → String → String → Accumulator → Called
  unfolding put_found
  add o now closed acc = elim (admit o) [
    | err rejected ↦ ok (acc, [])
    | ok u ↦ put_found o now closed (Dict.get o.source.db_id acc.opened) acc
  ]

  -- the entries that were open at the start, one after the other
  unfoldable pub sweep_entries : List (String × OpenSegment) → String → Accumulator → Called
  sweep_entries [] now acc = ok (acc, [])
  sweep_entries ((db, seg) ∷ es) now acc =
      if overdue seg now
      then seal_then js seg time_cap now acc (λ left. sweep_entries es now left)
      else sweep_entries es now acc

  unfoldable pub sweep : String → Accumulator → Called
  unfolding sweep_entries
  sweep now acc = sweep_entries acc.opened now acc

  unfoldable pub flush_entries : List (String × OpenSegment) → String → Accumulator → Called
  flush_entries [] now acc = ok (acc, [])
  flush_entries ((db, seg) ∷ es) now acc =
      if ltb 0 (length seg.objects)
      then seal_then js seg flush now acc (λ left. flush_entries es now left)
      else flush_entries es now (record acc { opened = Dict.delete db acc.opened })

  unfoldable pub flush_all : String → Accumulator → Called
  unfolding flush_entries
  flush_all now acc = flush_entries acc.opened now acc

  unfoldable pub step : Call → Accumulator → Called
  unfolding add sweep flush_all
  step (adding o now closed) acc = add o now closed acc
  step (sweeping now) acc = sweep now acc
  step (flushing now) acc = flush_all now acc

  -- a sequence of calls, and what they seal
  unfoldable pub run : List Call → Accumulator → Called
  run [] acc = ok (acc, [])
  run (c ∷ cs) acc = do (a, s) ← step c acc; (b, t) ← run cs a; ok (b, s ++ t)

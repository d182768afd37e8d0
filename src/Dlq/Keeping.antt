-- ===== src/Dlq/Keeping.antt =====
-- No failure is lost: what the queue keeps of each failing event over any sequence of calls.
use external_database_audit.Base.{
  ℕ, suc, ◌+◌, ◌≤◌, String, Bool, false, ◌≡◌, refl, min, ap, ◌∙◌, inl, inr, Option, none, some,
  List, [], ◌∷◌, ◌++◌, not, ◌&&◌, arith, str_eq, eq_iff, if◌then◌else◌, Bool-cases,
}
use external_database_audit.Base.Dict
use external_database_audit.Base.Dict.{Dict, get-set}
use external_database_audit.Base.Platform.{Platform}
use external_database_audit.Dlq.{
  DlqItem, DlqAlarm, dlq_enqueue, dlq_quarantine, dlq_depth, Dlq, Call, event_id_of, item_for,
  alarms_for, record_failure, record_all,
}
use external_database_audit.Dlq.Payload.{Runtime}

-- how often a stored failure was recorded
abbrev pub recorded : Option DlqItem → ℕ
recorded none = 0
recorded (some item) = item.retry_count + 1

-- is the alarm the first alarm of the event?
abbrev announces : String → DlqAlarm → Bool
announces j alarm = elim alarm.kind [
  | dlq_enqueue ↦ str_eq alarm.event_id j
  | dlq_quarantine ↦ false
  | dlq_depth ↦ false
]

abbrev pub announced : String → List DlqAlarm → ℕ
announced j [] = 0
announced j (alarm ∷ alarms) =
    let rest = announced j alarms in if announces j alarm then suc rest else rest

announced-append :
    (j : String) (xs ys : List DlqAlarm) → announced j (xs ++ ys) ≡ announced j xs + announced j ys
announced-append j [] ys = omega arith
announced-append j (x ∷ xs) ys = ground (arith, announced-append j xs ys)

-- what a later row of an event keeps of an earlier one
abbrev pub Continues : DlqItem → DlqItem → Type 0
Continues old new =
    (new.first_seen ≡ old.first_seen)
    × (new.captured_at ≡ old.captured_at)
    × (old.retry_count ≤ new.retry_count)

abbrev pub empty_dlq : Dlq
empty_dlq = record { rows = []; alarms = [] }

module _ (p : Platform) (rt : Runtime) where
  abbrev pub occurrences : String → List Call → ℕ
  occurrences j [] = 0
  occurrences j (call ∷ calls) =
      let rest = occurrences j calls in if str_eq (event_id_of p rt call) j then suc rest else rest

module _ (p : Platform) (rt : Runtime) (max_retries : ℕ) where
  pub get-record_failure :
      (j : String) (call : Call) (s : Dlq)
      → Dict.get j (record_failure p rt max_retries call s).1.rows ≡ (
          if str_eq (event_id_of p rt call) j
          then some (item_for p rt max_retries call (Dict.get (event_id_of p rt call) s.rows))
          else Dict.get j s.rows)
  unfolding record_failure item_for
  get-record_failure j call s = get-set _ j _ s.rows

  recorded-item_for :
      (call : Call) (existing : Option DlqItem)
      → recorded (some (item_for p rt max_retries call existing)) ≡ suc (recorded existing)
  unfolding item_for
  recorded-item_for call none = refl
  recorded-item_for call (some old) = omega arith

  recorded-record_failure :
      (j : String) (call : Call) (s : Dlq)
      → recorded (Dict.get j (record_failure p rt max_retries call s).1.rows) ≡ (
          if str_eq (event_id_of p rt call) j
          then suc (recorded (Dict.get j s.rows))
          else recorded (Dict.get j s.rows))
  recorded-record_failure j call s = ground (
    arith,
    eq_iff (event_id_of p rt call) j,
    get-record_failure j call s,
    recorded-item_for call (Dict.get (event_id_of p rt call) s.rows),
  )

  -- Every call counts: after any sequence of calls, each of which ends before the next, the row of an
  -- event counts exactly the calls that failed with it, on top of what it counted before; an event that
  -- failed is stored.
  pub recorded-record_all :
      (j : String) (calls : List Call) (s : Dlq)
      → recorded (Dict.get j (record_all p rt max_retries calls s).rows)
        ≡ recorded (Dict.get j s.rows) + occurrences p rt j calls
  unfolding record_all
  recorded-record_all j [] s = omega arith
  recorded-record_all j (call ∷ calls) s = ground (
    arith,
    recorded-record_all j calls (record_failure p rt max_retries call s).1,
    recorded-record_failure j call s,
  )

  item_for-Continues :
      (call : Call) (old : DlqItem) → Continues old (item_for p rt max_retries call (some old))
  unfolding item_for
  item_for-Continues call old = (refl, refl, omega arith)

  record_failure-keeps_first :
      (j : String) (old : DlqItem) (call : Call) (s : Dlq) (there : Dict.get j s.rows ≡ some old)
      → (new : DlqItem) × (Dict.get j (record_failure p rt max_retries call s).1.rows ≡ some new)
        × Continues old new
  record_failure-keeps_first j old call s there =
      elim (Bool-cases (str_eq (event_id_of p rt call) j)) [
        | inl same ↦
            let here : Dict.get (event_id_of p rt call) s.rows ≡ some old =
              ap (λ i. Dict.get i s.rows) ((eq_iff _ _).0 same) ∙ there in
            (
              item_for p rt max_retries call (some old),
              ground (arith, get-record_failure j call s, same, here),
              item_for-Continues call old,
            )
        | inr differs ↦ (
          old,
          ground (arith, get-record_failure j call s, differs, there),
          (refl, refl, omega arith),
        )
      ]

  -- A stored event keeps the instants at which it was first captured and first seen, whatever is
  -- recorded afterwards; it stays stored, and its count does not fall.
  pub record_all-keeps_first :
      (j : String) (old : DlqItem) (calls : List Call) (s : Dlq)
      (there : Dict.get j s.rows ≡ some old)
      → (new : DlqItem) × (Dict.get j (record_all p rt max_retries calls s).rows ≡ some new)
        × Continues old new
  unfolding record_all
  record_all-keeps_first j old [] s there = (old, there, (refl, refl, omega arith))
  record_all-keeps_first j old (call ∷ calls) s there =
      let (mid, at_mid, (seen, captured, count)) = record_failure-keeps_first j old call s there in
      let (new, at_new, (seen2, captured2, count2)) =
        record_all-keeps_first j mid calls (record_failure p rt max_retries call s).1 at_mid in
      (new, at_new, (seen2 ∙ seen, captured2 ∙ captured, omega arith))

  announced-alarms_for :
      (j : String) (existing : Option DlqItem) (item : DlqItem)
      → announced j (alarms_for existing item)
        ≡ (if str_eq item.event_id j && not (Dict.is_some existing) then 1 else 0)
  unfolding alarms_for
  announced-alarms_for j none item = ground arith
  announced-alarms_for j (some old) item = ground arith

  AreAnnounced : String → Dlq → Type 0
  AreAnnounced j s = announced j s.alarms ≡ min 1 (recorded (Dict.get j s.rows))

  record_failure-AreAnnounced :
      (j : String) (call : Call) (s : Dlq)
      → AreAnnounced j s
      → AreAnnounced j (record_failure p rt max_retries call s).1
  unfolding AreAnnounced record_failure item_for
  record_failure-AreAnnounced j call s known =
      announced-append j s.alarms _
      ∙ ground (
        arith,
        known,
        eq_iff (event_id_of p rt call) j,
        recorded-record_failure j call s,
        announced-alarms_for j (Dict.get (event_id_of p rt call) s.rows)
            (item_for p rt max_retries call (Dict.get (event_id_of p rt call) s.rows)),
      )

  record_all-AreAnnounced :
      (j : String) (calls : List Call) (s : Dlq)
      → AreAnnounced j s
      → AreAnnounced j (record_all p rt max_retries calls s)
  unfolding record_all
  record_all-AreAnnounced j [] s known = known
  record_all-AreAnnounced j (call ∷ calls) s known =
      record_all-AreAnnounced j calls _ (record_failure-AreAnnounced j call s known)

  -- From an empty queue, an event is announced by one enqueue alarm if it failed at all, however
  -- often it fails, and by none if it did not.
  pub announced-record_all :
      (j : String) (calls : List Call)
      → announced j (record_all p rt max_retries calls empty_dlq).alarms
        ≡ min 1 (occurrences p rt j calls)
  unfolding AreAnnounced Dict.get
  announced-record_all j calls =
      record_all-AreAnnounced j calls empty_dlq (omega arith)
      ∙ ap (min 1) (recorded-record_all j calls empty_dlq ∙ omega arith)

-- ===== src/Dlq/Poison.antt =====
-- No retry loop is infinite: an event that keeps failing is quarantined, and stays so.
use external_database_audit.Base.{
  ℕ, ◌<◌, String, ◌≡◌, refl, sym, subst, ◌∙◌, inl, inr, Option, none, some, List, [], ◌∷◌, arith,
  str_eq, Bool-cases,
}
use external_database_audit.Base.Dict
use external_database_audit.Base.Platform.{Platform}
use external_database_audit.Dlq.{
  DlqItem, DlqStatus, quarantined, Dlq, Call, decide_status, event_id_of, item_for, record_failure,
  record_all,
}
use external_database_audit.Dlq.Keeping.{
  recorded, occurrences, empty_dlq, get-record_failure, recorded-record_all,
}
use external_database_audit.Dlq.Payload.{Runtime}

abbrev pub status_of : Option DlqItem → Option DlqStatus
status_of none = none
status_of (some item) = some item.status

module _ (p : Platform) (rt : Runtime) (max_retries : ℕ) where
  -- the status of a row is the one that the policy gives for its category and its count
  abbrev IsDecided : Option DlqItem → Type 0
  IsDecided none = Unit
  IsDecided (some item) =
      item.status
      ≡ decide_status item.failure_category item.is_retryable item.retry_count max_retries

  item_for-IsDecided :
      (call : Call) (existing : Option DlqItem)
      → IsDecided (some (item_for p rt max_retries call existing))
  unfolding item_for
  item_for-IsDecided call existing = refl

  AreDecided : Dlq → Type 0
  AreDecided s = (j : String) → IsDecided (Dict.get j s.rows)

  record_failure-AreDecided :
      (call : Call) (s : Dlq) → AreDecided s → AreDecided (record_failure p rt max_retries call s).1
  unfolding AreDecided
  record_failure-AreDecided call s known j = elim (Bool-cases (str_eq (event_id_of p rt call) j)) [
    | inl same ↦
        subst IsDecided
          {x = some (item_for p rt max_retries call (Dict.get (event_id_of p rt call) s.rows))}
          (sym (ground (arith, get-record_failure p rt max_retries j call s, same)))
          (item_for-IsDecided call (Dict.get (event_id_of p rt call) s.rows))
    | inr differs ↦
        subst IsDecided {x = Dict.get j s.rows}
          (sym (ground (arith, get-record_failure p rt max_retries j call s, differs))) (known j)
  ]

  record_all-AreDecided :
      (calls : List Call) (s : Dlq)
      → AreDecided s
      → AreDecided (record_all p rt max_retries calls s)
  unfolding record_all
  record_all-AreDecided [] s known = known
  record_all-AreDecided (call ∷ calls) s known =
      record_all-AreDecided calls _ (record_failure-AreDecided call s known)

  empty_dlq-AreDecided : AreDecided empty_dlq
  unfolding AreDecided Dict.get
  empty_dlq-AreDecided j = tt

  decided-quarantined :
      (o : Option DlqItem) → IsDecided o → max_retries < recorded o → status_of o ≡ some quarantined
  unfolding decide_status
  decided-quarantined none known over = ground (arith, over)
  decided-quarantined (some item) known over = ground (arith, known, over)

  -- From an empty queue, by calls each of which ends before the next, an event that failed more often than the policy allows retries is stored
  -- and quarantined, whatever the categories and the overrides of its failures were and whatever
  -- else failed in between.
  pub record_all-quarantines :
      (j : String) (calls : List Call) (over : max_retries < occurrences p rt j calls)
      → status_of (Dict.get j (record_all p rt max_retries calls empty_dlq).rows) ≡ some quarantined
  unfolding AreDecided Dict.get
  record_all-quarantines j calls over =
      decided-quarantined _ (record_all-AreDecided calls empty_dlq empty_dlq-AreDecided j) (
        subst (λ n. max_retries < n)
          (sym (recorded-record_all p rt max_retries j calls empty_dlq ∙ omega arith)) over)

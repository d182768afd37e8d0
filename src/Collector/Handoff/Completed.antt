-- ===== src/Collector/Handoff/Completed.antt =====
-- No snapshot is left without its completion: the events of the tracker counted.
use external_database_audit.Base.{
  ℕ, suc, ◌+◌, ◌≤◌, String, ◌≡◌, List, [], ◌∷◌, ◌++◌, if◌then◌else◌, arith,
}
use external_database_audit.Collector.Handoff.{
  Phase, snapshot_start, snapshot_complete, streaming_resumed, HandoffEvent, HandoffTracker,
  in_snapshot, observe, observe_all,
}

module _ {ℓ} {Offset : Type ℓ} where
  abbrev pub starts : List (HandoffEvent Offset) → ℕ
  starts [] = 0
  starts (e ∷ es) =
      let rest = starts es in
      elim e.kind [
        | snapshot_start ↦ suc rest
        | snapshot_complete ↦ rest
        | streaming_resumed ↦ rest
      ]

  abbrev pub completions : List (HandoffEvent Offset) → ℕ
  completions [] = 0
  completions (e ∷ es) =
      let rest = completions es in
      elim e.kind [
        | snapshot_start ↦ rest
        | snapshot_complete ↦ suc rest
        | streaming_resumed ↦ rest
      ]

  -- 1 while a snapshot runs
  abbrev pub running : HandoffTracker Offset → ℕ
  running t = if in_snapshot t.prev_phase then 1 else 0

  starts-append : (xs ys : List (HandoffEvent Offset)) → starts (xs ++ ys) ≡ starts xs + starts ys
  starts-append [] ys = omega arith
  starts-append (x ∷ xs) ys = ground (arith, starts-append xs ys)

  completions-append :
      (xs ys : List (HandoffEvent Offset))
      → completions (xs ++ ys) ≡ completions xs + completions ys
  completions-append [] ys = omega arith
  completions-append (x ∷ xs) ys = ground (arith, completions-append xs ys)

  starts-observe :
      (phase : Phase) (offset : Offset) (at : String) (t : HandoffTracker Offset)
      → starts (observe phase offset at t).0 + running t
        ≤ completions (observe phase offset at t).0 + running (observe phase offset at t).1
  unfolding observe
  starts-observe phase offset at t = ground arith

  -- Over any observations, every snapshot that started has been completed in the log, but for one that
  -- still runs: starts and a snapshot that ran at the beginning are outnumbered by no more than the
  -- completions and a snapshot that runs at the end.
  pub starts-observe_all :
      (os : List (Phase × Offset × String)) (t : HandoffTracker Offset)
      → starts (observe_all os t).0 + running t
        ≤ completions (observe_all os t).0 + running (observe_all os t).1
  unfolding observe_all
  starts-observe_all [] t = omega arith
  starts-observe_all ((phase, offset, at) ∷ os) t =
      let now = observe phase offset at t in
      let later = observe_all os now.1 in
      ground (
        arith,
        starts-observe phase offset at t,
        starts-observe_all os now.1,
        starts-append now.0 later.0,
        completions-append now.0 later.0,
      )

-- ===== src/Collector/Handoff/Tests.antt =====
-- A snapshot whose last marker is skipped, and the theorem at it.
use external_database_audit.Base.{ℕ, ◌≤◌, ◌+◌, String, ◌≡◌, refl, List, [], ◌∷◌, map}
use external_database_audit.Collector.Handoff.{
  Phase, snapshot, streaming, snapshot_start, snapshot_complete, streaming_resumed, HandoffEvent,
  HandoffTracker, fresh, observe, observe_all,
}
use external_database_audit.Collector.Handoff.Completed.{
  starts, completions, running, starts-observe_all,
}

abbrev no_offset : HandoffTracker ℕ
no_offset = fresh

abbrev observations : List (Phase × ℕ × String)
observations = (snapshot, 1, "10:00") ∷ (snapshot, 2, "10:01") ∷ (streaming, 3, "10:02") ∷ []

kinds_run :
    map (λ (e : HandoffEvent ℕ). e.kind) (observe_all observations no_offset).0
    ≡ snapshot_start ∷ snapshot_complete ∷ streaming_resumed ∷ []
unfolding observe_all observe
kinds_run = refl

starts-observe_all_example :
    starts (observe_all observations no_offset).0 + running no_offset
    ≤ completions (observe_all observations no_offset).0
      + running (observe_all observations no_offset).1
starts-observe_all_example = starts-observe_all observations no_offset

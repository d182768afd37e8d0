-- ===== src/Anchoring/Tests.antt =====
-- Runs of the cadence and of the monitor, and the theorems at them.
use external_database_audit.Base.{◌≡◌, refl, true, none, some, List, [], ◌∷◌, arith}
use external_database_audit.Base.Dict
use external_database_audit.Anchoring.Cadence
use external_database_audit.Anchoring.Cadence.{
  CadenceConfig, CadencePolicy, DueReason, by_events, RetryPolicy, Happening, sealed, due_reason,
  due, next_backoff_ms, events_since, last_anchoring, due-run,
}
use external_database_audit.Anchoring.Overdue.{overdue-alarms}
use external_database_audit.Anchoring.Window
use external_database_audit.Anchoring.Window.{
  Monitor, AlarmSeverity, critical, Observation, pending, anchored, check, waiting_since,
}

abbrev config : CadenceConfig
config = record { max_events = 10; max_interval_ms = 60000 }

abbrev policy : CadencePolicy
policy = record { config = config; events = 0; last_anchor_at = 1000 }

abbrev history : List Happening
history = sealed 9 ∷ Cadence.anchored 5000 ∷ sealed 4 ∷ sealed 6 ∷ []

due_by_events : due_reason 6000 (Cadence.run history policy) ≡ some by_events
unfolding due_reason Cadence.run Cadence.step Cadence.record_events Cadence.mark_anchored
due_by_events = refl

third_backoff :
    next_backoff_ms 2
      (record { max_attempts = 5; base_delay_ms = 1000; max_delay_ms = 30000; factor = none })
    ≡ 4000
unfolding next_backoff_ms
third_backoff = refl

abbrev monitor : Monitor
monitor = record { max_window_ms = 100; pending = []; alarms = [] }

abbrev observations : List Observation
observations =
    pending "a" 50
    ∷ pending "b" 70
    ∷ anchored "a"
    ∷ pending "a" 60
    ∷ pending "b" 20
    ∷ pending "b" 90
    ∷ []

alarm_run : (check 300 (Window.run observations monitor)).0.severity ≡ critical
unfolding check Window.alarm_at Window.severity_for Window.oldest_unanchored_at Window.oldest_from
    Window.run Window.observe_pending Window.observe_anchored Dict.get Dict.set Dict.delete
alarm_run = refl

overdue-alarms_example : (check 300 (Window.run observations monitor)).0.breached ≡ true
unfolding Dict.get
overdue-alarms_example = overdue-alarms 300 "b" 20 observations monitor refl (omega arith)

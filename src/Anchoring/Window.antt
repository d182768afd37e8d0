-- ===== src/Anchoring/Window.antt =====
-- `UnanchoredWindowMonitor` of services/anchoring/src/retry-cadence.ts. Times are natural numbers, as
-- in Cadence; the age of a head that is sealed after the instant of the check is 0 here and negative
-- in the code, within the window in both.
use external_database_audit.Base.{
  ℕ, ◌-◌, ◌*◌, String, Bool, true, false, Option, none, some, List, [], ◌∷◌, ◌++◌, str_eq, leb, ltb,
  if◌then◌else◌,
}
use external_database_audit.Base.Dict
use external_database_audit.Base.Dict.{Dict, get-set, get-delete}
use external_database_audit.Base.Lists.{length}
use external_database_audit.Base.Result.{Result, ok, reject_if, ◌>>◌}

pub data AlarmSeverity : Type 0 where
  calm warning critical emergency : AlarmSeverity

pub record WindowAlarm : Type 0 where
  pub breached : Bool
  pub severity : AlarmSeverity
  pub age_ms : ℕ
  pub oldest_unanchored_at : Option ℕ
  pub pending_count : ℕ

pub record Monitor : Type 0 where
  pub max_window_ms : ℕ
  pub pending : Dict ℕ
  pub alarms : List WindowAlarm

pub data MonitorError : Type 0 where
  max_window_not_positive : MonitorError

-- the constructor
unfoldable pub create : ℕ → Result MonitorError Monitor
create max_window_ms = do
  reject_if (leb max_window_ms 0) max_window_not_positive
  ok (record { max_window_ms = max_window_ms; pending = []; alarms = [] })

-- the older of the known seal time and the new one
abbrev pub earlier : Option ℕ → ℕ → ℕ
earlier none at = at
earlier (some prev) at = if ltb at prev then at else prev

abbrev is_news : Option ℕ → ℕ → Bool
is_news none at = true
is_news (some prev) at = ltb at prev

unfoldable pub observe_pending : String → ℕ → Monitor → Monitor
observe_pending head at m =
    if is_news (Dict.get head m.pending) at
    then record m { pending = Dict.set head at m.pending }
    else m

unfoldable pub observe_anchored : String → Monitor → Monitor
observe_anchored head m = record m { pending = Dict.delete head m.pending }

-- the loop of `oldestUnanchoredAt`
unfoldable pub oldest_from : Option ℕ → Dict ℕ → Option ℕ
oldest_from oldest [] = oldest
oldest_from oldest ((head, at) ∷ rest) = oldest_from (some (earlier oldest at)) rest

unfoldable pub oldest_unanchored_at : Monitor → Option ℕ
unfolding oldest_from
oldest_unanchored_at m = oldest_from none m.pending

unfoldable pub severity_for : ℕ → ℕ → AlarmSeverity
severity_for max age =
    if leb age max
    then calm
    else if leb age (2 * max)
    then warning
    else if leb age (4 * max)
    then critical
    else emergency

abbrev pub is_breach : AlarmSeverity → Bool
is_breach calm = false
is_breach _ = true

unfoldable pub alarm_at : ℕ → Monitor → Option ℕ → WindowAlarm
unfolding severity_for
alarm_at now m none = record {
  breached = false;
  severity = calm;
  age_ms = 0;
  oldest_unanchored_at = none;
  pending_count = 0;
}
alarm_at now m (some oldest) = record {
  breached = is_breach (severity_for m.max_window_ms (now - oldest));
  severity = severity_for m.max_window_ms (now - oldest);
  age_ms = now - oldest;
  oldest_unanchored_at = some oldest;
  pending_count = length m.pending;
}

-- the alarm that is returned, and the monitor with the alarms that its callback has received
unfoldable pub check : ℕ → Monitor → WindowAlarm × Monitor
unfolding alarm_at oldest_unanchored_at
check now m =
    let alarm = alarm_at now m (oldest_unanchored_at m) in
    (alarm, record m { alarms = if alarm.breached then m.alarms ++ alarm ∷ [] else m.alarms })

pub data Observation : Type 0 where
  pending : String → ℕ → Observation
  anchored : String → Observation

unfoldable pub run : List Observation → Monitor → Monitor
run [] m = m
run (pending head at ∷ os) m = run os (observe_pending head at m)
run (anchored head ∷ os) m = run os (observe_anchored head m)

-- the earliest seal time of a head among the observations since it was last anchored
abbrev pub waiting_since : String → List Observation → Option ℕ → Option ℕ
waiting_since head [] since = since
waiting_since head (pending h at ∷ os) since =
    let rest = waiting_since head os (some (earlier since at)) in
    let other = waiting_since head os since in if str_eq h head then rest else other
waiting_since head (anchored h ∷ os) since =
    let rest = waiting_since head os none in
    let other = waiting_since head os since in if str_eq h head then rest else other

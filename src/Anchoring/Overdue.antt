-- ===== src/Anchoring/Overdue.antt =====
-- No head waits in silence: what the monitor holds after any observations, and when it alarms.
use external_database_audit.Base.{
  ℕ, ◌-◌, ◌<◌, String, ◌≡◌, refl, ◌∙◌, Bool, true, false, ◌||◌, Option, none, some, List, [], ◌∷◌,
  str_eq, eq_iff, ltb, if◌then◌else◌, arith,
}
use external_database_audit.Base.Dict
use external_database_audit.Base.Dict.{Dict, get-set, get-delete}
use external_database_audit.Base.Lists.{any}
use external_database_audit.Anchoring.Window.{
  Monitor, earlier, observe_pending, observe_anchored, oldest_from, oldest_unanchored_at,
  severity_for, alarm_at, check, Observation, pending, anchored, run, waiting_since,
}

get-observe_pending :
    (h head : String) (at : ℕ) (m : Monitor)
    → Dict.get head (observe_pending h at m).pending ≡ (
        if str_eq h head
        then some (earlier (Dict.get head m.pending) at)
        else Dict.get head m.pending)
unfolding observe_pending
get-observe_pending h head at m = ground (arith, eq_iff h head, get-set h head at m.pending)

-- After any observations the monitor holds for each head the earliest seal time since the head was
-- last anchored, and nothing for a head that is anchored or was never seen.
pub get-run :
    (head : String) (os : List Observation) (m : Monitor)
    → Dict.get head (run os m).pending ≡ waiting_since head os (Dict.get head m.pending)
unfolding run observe_anchored
get-run head [] m = refl
get-run head (pending h at ∷ os) m =
    ground (arith, get-run head os (observe_pending h at m), get-observe_pending h head at m)
get-run head (anchored h ∷ os) m =
    ground
      (arith, eq_iff h head, get-run head os (observe_anchored h m), get-delete h head m.pending)

-- is an entry older than the window?
abbrev pub overdue : ℕ → ℕ → Dict ℕ → Bool
overdue max now entries = any (λ e. ltb max (now - e.1)) entries

abbrev late : ℕ → ℕ → Option ℕ → Bool
late max now none = false
late max now (some at) = ltb max (now - at)

late-oldest_from :
    (max now : ℕ) (oldest : Option ℕ) (entries : Dict ℕ)
    → late max now (oldest_from oldest entries) ≡ (late max now oldest || overdue max now entries)
unfolding oldest_from
late-oldest_from max now none [] = refl
late-oldest_from max now (some at) [] = ground arith
late-oldest_from max now none ((head, at) ∷ rest) = late-oldest_from max now (some at) rest
late-oldest_from max now (some first) ((head, at) ∷ rest) =
    ground (arith, late-oldest_from max now (some (earlier (some first) at)) rest)

breached-alarm_at :
    (now : ℕ) (m : Monitor) (oldest : Option ℕ)
    → (alarm_at now m oldest).breached ≡ late m.max_window_ms now oldest
unfolding alarm_at severity_for
breached-alarm_at now m none = refl
breached-alarm_at now m (some at) = ground arith

-- A check alarms exactly when some head in the monitor is older than the window.
pub breached-check :
    (now : ℕ) (m : Monitor) → (check now m).0.breached ≡ overdue m.max_window_ms now m.pending
unfolding check oldest_unanchored_at
breached-check now m =
    breached-alarm_at now m (oldest_unanchored_at m)
    ∙ late-oldest_from m.max_window_ms now none m.pending

overdue-get :
    (max now : ℕ) (head : String) (at : ℕ) (entries : Dict ℕ)
    → Dict.get head entries ≡ some at
    → max < now - at
    → overdue max now entries ≡ true
unfolding Dict.get
overdue-get max now head at [] found late = cc
overdue-get max now head at ((h, t) ∷ rest) found late =
    ground (arith, eq_iff h head, overdue-get max now head at rest)

max_window-run : (os : List Observation) (m : Monitor) → (run os m).max_window_ms ≡ m.max_window_ms
unfolding run observe_pending observe_anchored
max_window-run [] m = refl
max_window-run (pending h at ∷ os) m = ground (arith, max_window-run os (observe_pending h at m))
max_window-run (anchored h ∷ os) m = max_window-run os (observe_anchored h m)

-- A head that was seen at an instant, and not anchored since, makes every check report a breach that
-- comes more than the window after the instant, whatever was observed of other heads in between.
pub overdue-alarms :
    (now : ℕ) (head : String) (at : ℕ) (os : List Observation) (m : Monitor)
    → waiting_since head os (Dict.get head m.pending) ≡ some at
    → m.max_window_ms < now - at
    → (check now (run os m)).0.breached ≡ true
overdue-alarms now head at os m waits late =
    breached-check now (run os m)
    ∙ overdue-get (run os m).max_window_ms now head at (run os m).pending
        (get-run head os m ∙ waits) (ground (arith, late, max_window-run os m))

-- ===== src/Anchoring/Cadence.antt =====
-- `CadencePolicy` and `nextBackoffMs` of services/anchoring/src/retry-cadence.ts. Times are
-- milliseconds on the injected clock, counted from an origin before all of them, so that they are
-- natural numbers; a clock that runs backwards gives a negative age in the code, which reaches no
-- positive interval, and the age 0 here. A policy's `factor` is a whole number.
use external_database_audit.Base.{
  ℕ, ◌+◌, ◌-◌, ◌*◌, ◌^◌, ◌≤◌, ◌≡◌, ◌↔◌, ◌⊎◌, refl, sym, ap, subst, ◌∙◌, min, Bool, true, Option,
  none, some, List, [], ◌∷◌, leb, ltb, if◌then◌else◌, arith,
}
use external_database_audit.Base.Dict.{is_some}
use external_database_audit.Base.Result.{Result, ok, reject_if, ◌>>◌}

pub record CadenceConfig : Type 0 where
  pub max_events : ℕ
  pub max_interval_ms : ℕ

pub data CadenceError : Type 0 where
  max_events_below_one max_interval_not_positive : CadenceError

pub record CadencePolicy : Type 0 where
  pub config : CadenceConfig
  pub events : ℕ
  pub last_anchor_at : ℕ

pub data DueReason : Type 0 where
  by_events by_interval : DueReason

-- the constructor
unfoldable pub create : CadenceConfig → ℕ → Result CadenceError CadencePolicy
create config start_at = do
  reject_if (ltb config.max_events 1) max_events_below_one
  reject_if (leb config.max_interval_ms 0) max_interval_not_positive
  ok (record { config = config; events = 0; last_anchor_at = start_at })

unfoldable pub record_events : ℕ → CadencePolicy → CadencePolicy
record_events count p = record p { events = p.events + count }

unfoldable pub due_reason : ℕ → CadencePolicy → Option DueReason
due_reason now p =
    if leb p.config.max_events p.events
    then some by_events
    else if leb p.config.max_interval_ms (now - p.last_anchor_at)
    then some by_interval
    else none

unfoldable pub due : ℕ → CadencePolicy → Bool
due now p = is_some (due_reason now p)

unfoldable pub mark_anchored : ℕ → CadencePolicy → CadencePolicy
mark_anchored now p = record p { events = 0; last_anchor_at = now }

pub record RetryPolicy : Type 0 where
  pub max_attempts : ℕ
  pub base_delay_ms : ℕ
  pub max_delay_ms : ℕ
  pub factor : Option ℕ

abbrev factor_of : RetryPolicy → ℕ
factor_of p = elim p.factor [ none ↦ 2 | some f ↦ f ]

unfoldable pub next_backoff_ms : ℕ → RetryPolicy → ℕ
next_backoff_ms completed p = min p.max_delay_ms (p.base_delay_ms * factor_of p ^ completed)

-- what happens to a policy: sealed heads with their events, and anchorings at an instant
pub data Happening : Type 0 where
  sealed : ℕ → Happening
  anchored : ℕ → Happening

unfoldable pub step : Happening → CadencePolicy → CadencePolicy
unfolding record_events mark_anchored
step (sealed count) p = record_events count p
step (anchored now) p = mark_anchored now p

unfoldable pub run : List Happening → CadencePolicy → CadencePolicy
run [] p = p
run (h ∷ hs) p = run hs (step h p)

-- the events since the last anchoring, and its instant, read off the history
abbrev pub events_since : List Happening → ℕ → ℕ
events_since [] n = n
events_since (sealed count ∷ hs) n = events_since hs (n + count)
events_since (anchored now ∷ hs) n = events_since hs 0

abbrev pub last_anchoring : List Happening → ℕ → ℕ
last_anchoring [] t = t
last_anchoring (sealed count ∷ hs) t = last_anchoring hs t
last_anchoring (anchored now ∷ hs) t = last_anchoring hs now

run-fields :
    (hs : List Happening) (p : CadencePolicy)
    → run hs p ≡ record p {
      events = events_since hs p.events;
      last_anchor_at = last_anchoring hs p.last_anchor_at;
    }
unfolding run step record_events mark_anchored
run-fields [] p = refl
run-fields (sealed count ∷ hs) p = run-fields hs (record_events count p)
run-fields (anchored now ∷ hs) p = run-fields hs (mark_anchored now p)

due_iff :
    (now : ℕ) (p : CadencePolicy)
    → (due now p ≡ true)
      ↔ ((p.config.max_events ≤ p.events) ⊎ (p.config.max_interval_ms ≤ now - p.last_anchor_at))
unfolding due due_reason
due_iff now p = ground arith

create-eq-ok :
    (config : CadenceConfig) (start_at : ℕ) (p : CadencePolicy)
    → create config start_at ≡ ok p
    → record { config = config; events = 0; last_anchor_at = start_at } ≡ p
unfolding create
create-eq-ok config start_at p made = ground arith

-- After any history, anchoring is due exactly when the events sealed since the last anchoring reach
-- the limit or the time since it reaches the interval.
pub due-run :
    (config : CadenceConfig) (start_at now : ℕ) (p : CadencePolicy) (hs : List Happening)
    (made : create config start_at ≡ ok p)
    → (due now (run hs p) ≡ true) ↔ (
        (config.max_events ≤ events_since hs 0)
        ⊎ (config.max_interval_ms ≤ now - last_anchoring hs start_at))
due-run config start_at now p hs made =
    let fields : run hs p ≡ record {
      config = config;
      events = events_since hs 0;
      last_anchor_at = last_anchoring hs start_at;
    } =
      run-fields hs p
      ∙ ap
          (λ (q : CadencePolicy). record q {
            events = events_since hs q.events;
            last_anchor_at = last_anchoring hs q.last_anchor_at;
          })
          (sym (create-eq-ok config start_at p made)) in
    subst
      (λ q. (due now q ≡ true) ↔ (
        (config.max_events ≤ events_since hs 0)
        ⊎ (config.max_interval_ms ≤ now - last_anchoring hs start_at)))
      (sym fields) (due_iff now _)

-- ===== src/Collector/Handoff.antt =====
-- The tracker of the handoff from snapshot to stream: services/cdc-collector/src/handoff.ts. The offset
-- metadata are of any type, since the tracker only stores them.
pub mod Completed
mod Tests
use external_database_audit.Base.{
  ℕ, String, Bool, true, false, Option, none, some, List, [], ◌∷◌, ◌++◌, if◌then◌else◌,
}
use external_database_audit.Base.Dict.{is_some}

pub data Phase : Type 0 where
  snapshot handoff streaming : Phase

pub data HandoffType : Type 0 where
  snapshot_start snapshot_complete streaming_resumed : HandoffType

-- `prev === phase`
abbrev same_phase : Option Phase → Phase → Bool
same_phase (some snapshot) snapshot = true
same_phase (some handoff) handoff = true
same_phase (some streaming) streaming = true
same_phase _ _ = false

abbrev pub in_snapshot : Option Phase → Bool
in_snapshot (some snapshot) = true
in_snapshot _ = false

module _ {ℓ} (Offset : Type ℓ) where
  pub record HandoffEvent : Type ℓ where
    pub kind : HandoffType
    pub at : String
    pub from_phase : Option Phase
    pub to_phase : Phase
    pub offset : Offset

  pub record HandoffTracker : Type ℓ where
    pub prev_phase : Option Phase
    pub snapshot_start_offset : Option Offset
    pub snapshot_end_offset : Option Offset

module _ {ℓ} {Offset : Type ℓ} where
  abbrev pub fresh : HandoffTracker Offset
  fresh = record { prev_phase = none; snapshot_start_offset = none; snapshot_end_offset = none }

  abbrev event : HandoffType → String → Option Phase → Phase → Offset → List (HandoffEvent Offset)
  event kind at prev phase offset =
      record { kind = kind; at = at; from_phase = prev; to_phase = phase; offset = offset } ∷ []

  -- the events that a change of phase emits, and the offsets that it records
  unfoldable pub observe :
      Phase
      → Offset
      → String
      → HandoffTracker Offset
      → List (HandoffEvent Offset) × HandoffTracker Offset
  observe phase offset at t = if same_phase t.prev_phase phase then ([], t) else elim phase [
    | snapshot ↦ if is_some t.prev_phase then ([], record t { prev_phase = some snapshot }) else (
      event snapshot_start at t.prev_phase snapshot offset,
      record t { prev_phase = some snapshot; snapshot_start_offset = some offset },
    )
    | handoff ↦ (
      event snapshot_complete at t.prev_phase handoff offset,
      record t { prev_phase = some handoff; snapshot_end_offset = some offset },
    )
    | streaming ↦
        if in_snapshot t.prev_phase
        then (
          event snapshot_complete at t.prev_phase streaming offset
              ++ event streaming_resumed at t.prev_phase streaming offset,
          record t { prev_phase = some streaming; snapshot_end_offset = some offset },
        )
        else (
          event streaming_resumed at t.prev_phase streaming offset,
          record t { prev_phase = some streaming },
        )
  ]

  -- all events of a sequence of observations, in order, and the tracker that they leave
  unfoldable pub observe_all :
      List (Phase × Offset × String)
      → HandoffTracker Offset
      → List (HandoffEvent Offset) × HandoffTracker Offset
  observe_all [] t = ([], t)
  observe_all ((phase, offset, at) ∷ rest) t =
      let (events, next) = observe phase offset at t in
      let (later, last) = observe_all rest next in (events ++ later, last)

-- ===== src/Writer/Accumulator/Sweeping.antt =====
-- Sweeping and flushing keep every object.
use external_database_audit.Base.{
  ◌≡◌, ◌∙◌, ap, sym, subst, inl, inr, String, none, some, List, [], ◌∷◌, ltb, eq_iff, eq_refl,
  arith, if-cases,
}
use external_database_audit.Base.Dict
use external_database_audit.Base.Dict.{Dict, get-set, get-delete}
use external_database_audit.Base.Lists.{length, All}
use external_database_audit.Base.Platform.{Platform}
use external_database_audit.Base.Result.{ok}
use external_database_audit.Writer.Sealing.{OpenSegment, SealReady, time_cap, flush}
use external_database_audit.Writer.Accumulator.{
  Accumulator, SegmentCaps, overdue, sweep_entries, flush_entries,
}
use external_database_audit.Writer.Accumulator.Shape.{IsMap, IsSound}
use external_database_audit.Writer.Accumulator.Takes.{Takes}
use external_database_audit.Writer.Accumulator.Keeping.{
  Fits, IsKeeping, IsKeeping-idle, seal_then-IsKeeping,
}

abbrev pub Entry : Type 0
Entry = String × OpenSegment

-- the entries are those that a map holds under their keys
abbrev pub AreIn : Dict OpenSegment → List Entry → Type 0
AreIn m es = All (λ e. Dict.get e.0 m ≡ some e.1) es

AreIn-cons :
    (k : String) (s : OpenSegment) (m : Dict OpenSegment) (es : List Entry)
    → Dict.get k m ≡ none
    → AreIn m es
    → AreIn ((k, s) ∷ m) es
unfolding Dict.get
AreIn-cons k s m [] free h = tt
AreIn-cons k s m ((j, u) ∷ es) free (held, h) =
    (ground (arith, eq_iff k j), AreIn-cons k s m es free h)

pub AreIn-self : (m : Dict OpenSegment) → IsMap m → AreIn m m
unfolding Dict.get
AreIn-self [] h = tt
AreIn-self ((k, s) ∷ m) (free, h) =
    (ground (arith, eq_refl k), AreIn-cons k s m m free (AreIn-self m h))

pub AreIn-delete :
    (k : String) (m : Dict OpenSegment) (es : List Entry)
    → Dict.get k es ≡ none
    → AreIn m es
    → AreIn (Dict.delete k m) es
unfolding Dict.get
AreIn-delete k m [] free h = tt
AreIn-delete k m ((j, u) ∷ es) free (held, h) = (
  ground (arith, eq_iff j k, eq_iff k j, get-delete k j m),
  AreIn-delete k m es (ground (arith, eq_iff j k)) h,
)

pub AreIn-Takes :
    (seg : OpenSegment) (acc left : Accumulator) (s : SealReady) (db : String) (es : List Entry)
    → IsSound acc
    → Dict.get db acc.opened ≡ some seg
    → Dict.get db es ≡ none
    → Takes seg acc left s
    → AreIn acc.opened es
    → AreIn left.opened es
AreIn-Takes seg acc left s db es sound held free t rest =
    let named = sound.keyed db seg held in
    subst (λ m. AreIn m es) (sym t.opened)
      (AreIn-delete seg.db_id acc.opened es (ap (λ k. Dict.get k es) named ∙ free) rest)

module _ (js : Platform) (caps : SegmentCaps) where
  pub sweep_entries-IsKeeping :
      (es : List Entry) (now : String) (acc left : Accumulator) (out : List SealReady)
      → IsSound acc
      → Fits caps.max_events acc
      → IsMap es
      → AreIn acc.opened es
      → sweep_entries js caps es now acc ≡ ok (left, out)
      → IsKeeping caps.max_events [] acc left out
  unfolding sweep_entries
  sweep_entries-IsKeeping [] now acc left out sound fits map held done =
      IsKeeping-idle caps.max_events acc left out sound fits done
  sweep_entries-IsKeeping ((db, seg) ∷ es) now acc left out sound fits (free, map) (held, rest)
        done =
      let named = sound.keyed db seg held in
      elim (if-cases (overdue js caps seg now) _ _ done) [
        | inl (late, sealed) ↦
            seal_then-IsKeeping js caps.max_events seg time_cap now [] acc left out
              (λ a. sweep_entries js caps es now a) sound fits
              (ap (λ k. Dict.get k acc.opened) named ∙ held) sealed
              (λ a s more t still small swept.
                sweep_entries-IsKeeping es now a left more still small map
                  (AreIn-Takes seg acc a s db es sound held free t rest) swept)
        | inr (young, swept) ↦ sweep_entries-IsKeeping es now acc left out sound fits map rest swept
      ]

  pub flush_entries-IsKeeping :
      (es : List Entry) (now : String) (acc left : Accumulator) (out : List SealReady)
      → IsSound acc
      → Fits caps.max_events acc
      → IsMap es
      → AreIn acc.opened es
      → flush_entries js caps es now acc ≡ ok (left, out)
      → IsKeeping caps.max_events [] acc left out
  unfolding flush_entries
  flush_entries-IsKeeping [] now acc left out sound fits map held done =
      IsKeeping-idle caps.max_events acc left out sound fits done
  flush_entries-IsKeeping ((db, seg) ∷ es) now acc left out sound fits (free, map) (held, rest)
        done =
      let named = sound.keyed db seg held in
      elim (if-cases (ltb 0 (length seg.objects)) _ _ done) [
        | inl (late, sealed) ↦
            seal_then-IsKeeping js caps.max_events seg flush now [] acc left out
              (λ a. flush_entries js caps es now a) sound fits
              (ap (λ k. Dict.get k acc.opened) named ∙ held) sealed
              (λ a s more t still small flushed.
                flush_entries-IsKeeping es now a left more still small map
                  (AreIn-Takes seg acc a s db es sound held free t rest) flushed)
        | inr (none_there, flushed) ↦ absurd (ground (arith, fits db seg held))
      ]

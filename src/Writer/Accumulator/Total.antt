-- ===== src/Writer/Accumulator/Total.antt =====
-- No call throws, as long as the keys of the rows can be hashed.
use external_database_audit.Base.{
  ◌<◌, ◌≡◌, refl, ap, String, false, Option, none, some, List, [], ◌∷◌, ◌++◌, ltb, leb, arith,
}
use external_database_audit.Base.Dict
use external_database_audit.Base.Dict.{Dict, get-set, get-delete}
use external_database_audit.Base.Lists.{length}
use external_database_audit.Base.Platform.{Platform}
use external_database_audit.Base.Result.{ok, err}
use external_database_audit.Cce.{Cce}
use external_database_audit.Writer.Sealing.{
  OpenSegment, SealReady, event_count_cap, time_cap, flush, count,
}
use external_database_audit.Writer.Accumulator.{
  Accumulator, SegmentCaps, Called, overdue, open_segment, put_in, put_found, admit, add,
  sweep_entries, sweep, flush_entries, flush_all, Call, adding, sweeping, flushing, step, run,
  create,
}
use external_database_audit.Writer.Accumulator.Shape.{IsMap, total, total-delete, IsSound}
use external_database_audit.Writer.Accumulator.Takes.{Takes, Takes-IsSound}
use external_database_audit.Writer.Accumulator.Keeping.{Fits, Takes-Fits, count-append}
use external_database_audit.Writer.Accumulator.Adding.{admitted}
use external_database_audit.Writer.Accumulator.Sweeping.{Entry, AreIn, AreIn-self, AreIn-Takes}
use external_database_audit.Writer.Accumulator.Kept.{
  created, admitted_by, all_admitted, step-IsKeeping,
}
use external_database_audit.Writer.Accumulator.Sealable.{
  Returns, if-total, unhashable, seal_then-total,
}

module _ (js : Platform) where
  module _ (caps : SegmentCaps) (pos : 0 < caps.max_events) where
    put_in-total :
        (o : Cce) (closed : String) (seg : OpenSegment) (acc : Accumulator)
        → count (unhashable js) (seg.objects ++ o ∷ []) ≡ 0
        → Returns (put_in js caps o closed seg acc)
    unfolding put_in
    put_in-total o closed seg acc h =
        let full : OpenSegment = record seg { objects = seg.objects ++ o ∷ [] } in
        let held : Accumulator = record acc { opened = Dict.set o.source.db_id full acc.opened } in
        if-total (leb caps.max_events (length full.objects)) _ _
          (λ e.
            seal_then-total js full event_count_cap closed held (λ left. ok (left, [])) h
              (ground arith) (λ left s t. ((left, []), refl)))
          (λ e. ((held, []), refl))

    -- the objects of an open segment are among all that are open
    count-open :
        (k : String) (seg : OpenSegment) (acc : Accumulator)
        → IsSound acc
        → total (unhashable js) acc.opened ≡ 0
        → Dict.get k acc.opened ≡ some seg
        → count (unhashable js) seg.objects ≡ 0
    count-open k seg acc sound h held =
        ground (arith, total-delete (unhashable js) k acc.opened sound.distinct)

    put_found-total :
        (o : Cce) (now closed : String) (found : Option OpenSegment) (acc : Accumulator)
        → IsSound acc
        → Fits caps.max_events acc
        → total (unhashable js) acc.opened ≡ 0
        → unhashable js o ≡ false
        → Dict.get o.source.db_id acc.opened ≡ found
        → Returns (put_found js caps o now closed found acc)
    unfolding put_found open_segment
    put_found-total o now closed none acc sound fits h ho e =
        put_in-total o closed (open_segment js caps o.source.db_id o.source.engine now acc) acc
          (ground arith)
    put_found-total o now closed (some seg) acc sound fits h ho e =
        let clean = count-open o.source.db_id seg acc sound h e in
        if-total (overdue js caps seg now) _ _
          (λ late.
            seal_then-total js seg time_cap now acc _ clean (fits o.source.db_id seg e).0
              (λ left s t.
                put_in-total o closed (open_segment js caps o.source.db_id o.source.engine now left)
                  left (ground arith)))
          (λ young.
            put_in-total o closed seg acc
              (ground (arith, count-append (unhashable js) seg.objects (o ∷ []))))

    left-clean :
        (seg : OpenSegment) (acc left : Accumulator) (s : SealReady)
        → IsSound acc
        → total (unhashable js) acc.opened ≡ 0
        → Takes seg acc left s
        → total (unhashable js) left.opened ≡ 0
    left-clean seg acc left s sound h t = omega (
      arith,
      h,
      total-delete (unhashable js) seg.db_id acc.opened sound.distinct,
      ap (total (unhashable js)) t.opened,
    )

    sweep_entries-total :
        (es : List Entry) (now : String) (acc : Accumulator)
        → IsSound acc
        → Fits caps.max_events acc
        → total (unhashable js) acc.opened ≡ 0
        → IsMap es
        → AreIn acc.opened es
        → Returns (sweep_entries js caps es now acc)
    unfolding sweep_entries
    sweep_entries-total [] now acc sound fits h map held = ((acc, []), refl)
    sweep_entries-total ((db, seg) ∷ es) now acc sound fits h (free, map) (held, rest) =
        if-total (overdue js caps seg now) _ _
          (λ late.
            seal_then-total js seg time_cap now acc (λ a. sweep_entries js caps es now a)
              (count-open db seg acc sound h held) (fits db seg held).0
              (λ left s t.
                sweep_entries-total es now left (Takes-IsSound seg acc left s t sound)
                  (Takes-Fits caps.max_events seg acc left s t (λ k u other e. fits k u e))
                  (left-clean seg acc left s sound h t) map
                  (AreIn-Takes seg acc left s db es sound held free t rest)))
          (λ young. sweep_entries-total es now acc sound fits h map rest)

    flush_entries-total :
        (es : List Entry) (now : String) (acc : Accumulator)
        → IsSound acc
        → Fits caps.max_events acc
        → total (unhashable js) acc.opened ≡ 0
        → IsMap es
        → AreIn acc.opened es
        → Returns (flush_entries js caps es now acc)
    unfolding flush_entries
    flush_entries-total [] now acc sound fits h map held = ((acc, []), refl)
    flush_entries-total ((db, seg) ∷ es) now acc sound fits h (free, map) (held, rest) =
        if-total (ltb 0 (length seg.objects)) _ _
          (λ late.
            seal_then-total js seg flush now acc (λ a. flush_entries js caps es now a)
              (count-open db seg acc sound h held) (fits db seg held).0
              (λ left s t.
                flush_entries-total es now left (Takes-IsSound seg acc left s t sound)
                  (Takes-Fits caps.max_events seg acc left s t (λ k u other e. fits k u e))
                  (left-clean seg acc left s sound h t) map
                  (AreIn-Takes seg acc left s db es sound held free t rest)))
          (λ e. absurd (ground (arith, fits db seg held)))

    add-total :
        (o : Cce) (now closed : String) (acc : Accumulator)
        → IsSound acc
        → Fits caps.max_events acc
        → total (unhashable js) acc.opened ≡ 0
        → count (unhashable js) (admitted o) ≡ 0
        → Returns (add js caps o now closed acc)
    unfolding add
    add-total o now closed acc sound fits h =
        elim (admit o)
          as (λ r.
            count (unhashable js) (elim r as (λ _. List Cce) [ err rejected ↦ [] | ok u ↦ o ∷ [] ])
              ≡ 0
            → Returns (elim r as (λ _. Called) [
              | err rejected ↦ ok (acc, [])
              | ok u ↦ put_found js caps o now closed (Dict.get o.source.db_id acc.opened) acc
            ])) [
              | err rejected ↦ λ c. ((acc, []), refl)
              | ok u ↦ λ c.
                  put_found-total o now closed (Dict.get o.source.db_id acc.opened) acc sound fits h
                    (ground arith) refl
            ]

    step-total :
        (c : Call) (acc : Accumulator)
        → IsSound acc
        → Fits caps.max_events acc
        → total (unhashable js) acc.opened ≡ 0
        → count (unhashable js) (admitted_by c) ≡ 0
        → Returns (step js caps c acc)
    unfolding step sweep flush_all
    step-total (adding o now closed) acc sound fits h clean =
        add-total o now closed acc sound fits h clean
    step-total (sweeping now) acc sound fits h clean =
        sweep_entries-total acc.opened now acc sound fits h sound.distinct
          (AreIn-self acc.opened sound.distinct)
    step-total (flushing now) acc sound fits h clean =
        flush_entries-total acc.opened now acc sound fits h sound.distinct
          (AreIn-self acc.opened sound.distinct)

    run-total_from :
        (cs : List Call) (acc : Accumulator)
        → IsSound acc
        → Fits caps.max_events acc
        → total (unhashable js) acc.opened ≡ 0
        → count (unhashable js) (all_admitted cs) ≡ 0
        → Returns (run js caps cs acc)
    unfolding run
    run-total_from [] acc sound fits h clean = ((acc, []), refl)
    run-total_from (c ∷ cs) acc sound fits h clean =
        let split = count-append (unhashable js) (admitted_by c) (all_admitted cs) in
        let ((a, s), e) = step-total c acc sound fits h (omega (arith, split, clean)) in
        let kept = step-IsKeeping js caps c acc a s pos sound fits e in
        let ((b, t), f) =
          run-total_from cs a kept.sound kept.fits
            (omega (arith, kept.keeps.conserved (unhashable js), h, split, clean))
            (omega (arith, split, clean)) in
        ((b, s ++ t), rw (e, f))

  -- From a new accumulator on, no sequence of calls throws, as long as the row key of every admitted
  -- object can be hashed.
  pub run-total :
      (caps : SegmentCaps) (acc : Accumulator) (cs : List Call)
      → create caps ≡ some acc
      → count (unhashable js) (all_admitted cs) ≡ 0
      → (left : Accumulator) × (out : List SealReady) × (run js caps cs acc ≡ ok (left, out))
  run-total caps acc cs made clean =
      let (pos, sound, fits, none_open) = created caps acc made in
      let ((left, out), e) =
        run-total_from caps pos cs acc sound fits (ap (total (unhashable js)) none_open) clean in
      (left, out, e)

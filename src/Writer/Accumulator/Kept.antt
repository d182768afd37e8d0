-- ===== src/Writer/Accumulator/Kept.antt =====
-- Sequences of calls: every admitted object is in one segment, open or sealed, and what is sealed is
-- ready for the sealer.
use external_database_audit.Base.{
  ◌+◌, ◌<◌, ◌≡◌, refl, ap, subst, String, Bool, some, List, [], ◌∷◌, ◌++◌, arith,
}
use external_database_audit.Base.Dict
use external_database_audit.Base.Dict.{Dict, get-set, get-delete}
use external_database_audit.Base.Lists.{All}
use external_database_audit.Base.Platform.{Platform}
use external_database_audit.Base.Result.{ok, >>=-eq-ok}
use external_database_audit.Cce.{Cce}
use external_database_audit.Writer.Sealing.{SealReady, count}
use external_database_audit.Writer.Accumulator.{
  Accumulator, SegmentCaps, next_of, sweep, flush_all, Call, adding, sweeping, flushing, step, run,
  create,
}
use external_database_audit.Writer.Accumulator.Shape.{total, IsSound}
use external_database_audit.Writer.Accumulator.Keeping.{
  count_sealed, IsReady, Numbered, Fits, IsKeeping, IsKeeping-append, IsKeeping-idle,
}
use external_database_audit.Writer.Accumulator.Adding.{admitted, add-IsKeeping}
use external_database_audit.Writer.Accumulator.Sweeping.{
  AreIn-self, sweep_entries-IsKeeping, flush_entries-IsKeeping,
}

abbrev pub admitted_by : Call → List Cce
admitted_by (adding o now closed) = admitted o
admitted_by (sweeping now) = []
admitted_by (flushing now) = []

-- the objects of the calls that are admitted
abbrev pub all_admitted : List Call → List Cce
all_admitted [] = []
all_admitted (c ∷ cs) = admitted_by c ++ all_admitted cs

-- a new accumulator
pub created :
    (caps : SegmentCaps) (acc : Accumulator)
    → create caps ≡ some acc
    → (0 < caps.max_events) × IsSound acc × Fits caps.max_events acc × (acc.opened ≡ [])
unfolding create Dict.get
created caps acc made =
    let new : Accumulator = record { opened = []; next_seq = [] } in
    let same : new ≡ acc = ground arith in
    subst (λ a. (0 < caps.max_events) × IsSound a × Fits caps.max_events a × (a.opened ≡ [])) same
      (
        ground arith,
        record {
          distinct = tt;
          keyed = λ k s held. absurd (cc);
          numbered = λ k s held. absurd (cc);
        },
        λ k s held. absurd (cc),
        refl,
      )

next_of-created :
    (caps : SegmentCaps) (acc : Accumulator) (db : String)
    → create caps ≡ some acc
    → next_of db acc ≡ 0
unfolding create Dict.get
next_of-created caps acc db made = ground arith

module _ (js : Platform) (caps : SegmentCaps) where
  pub step-IsKeeping :
      (c : Call) (acc left : Accumulator) (out : List SealReady)
      → 0 < caps.max_events
      → IsSound acc
      → Fits caps.max_events acc
      → step js caps c acc ≡ ok (left, out)
      → IsKeeping caps.max_events (admitted_by c) acc left out
  unfolding step sweep flush_all
  step-IsKeeping (adding o now closed) acc left out pos sound fits done =
      add-IsKeeping js caps o now closed acc left out pos sound fits done
  step-IsKeeping (sweeping now) acc left out pos sound fits done =
      sweep_entries-IsKeeping js caps acc.opened now acc left out sound fits sound.distinct
        (AreIn-self acc.opened sound.distinct) done
  step-IsKeeping (flushing now) acc left out pos sound fits done =
      flush_entries-IsKeeping js caps acc.opened now acc left out sound fits sound.distinct
        (AreIn-self acc.opened sound.distinct) done

  run-IsKeeping :
      (cs : List Call) (acc left : Accumulator) (out : List SealReady)
      → 0 < caps.max_events
      → IsSound acc
      → Fits caps.max_events acc
      → run js caps cs acc ≡ ok (left, out)
      → IsKeeping caps.max_events (all_admitted cs) acc left out
  unfolding run
  run-IsKeeping [] acc left out pos sound fits done =
      IsKeeping-idle caps.max_events acc left out sound fits done
  run-IsKeeping (c ∷ cs) acc left out pos sound fits done =
      let ((a, s), first, e) = >>=-eq-ok (step js caps c acc) _ done in
      let ((b, t), rest, g) = >>=-eq-ok (run js caps cs a) _ e in
      let now = step-IsKeeping c acc a s pos sound fits first in
      let end : b ≡ left = cc in
      let all : s ++ t ≡ out = cc in
      subst (λ x. IsKeeping caps.max_events (all_admitted (c ∷ cs)) acc x out) end
        (subst (IsKeeping caps.max_events (all_admitted (c ∷ cs)) acc b) all (
          IsKeeping-append caps.max_events (admitted_by c) (all_admitted cs) acc a b s t now
            (run-IsKeeping cs a b t pos now.sound now.fits rest)))

  run-created :
      (acc left : Accumulator) (cs : List Call) (out : List SealReady)
      → create caps ≡ some acc
      → run js caps cs acc ≡ ok (left, out)
      → IsKeeping caps.max_events (all_admitted cs) acc left out
  run-created acc left cs out made done =
      let (pos, sound, fits, none_open) = created caps acc made in
      run-IsKeeping cs acc left out pos sound fits done

  -- Whatever objects are added and whenever segments are swept or flushed, from a new accumulator on:
  -- as long as no call throws, the admitted objects are, each as often as it was admitted, those in
  -- the segments that were sealed and in those that are still open.
  pub run-conserves :
      (acc left : Accumulator) (cs : List Call) (out : List SealReady) (p : Cce → Bool)
      → create caps ≡ some acc
      → run js caps cs acc ≡ ok (left, out)
      → total p left.opened + count_sealed p out ≡ count p (all_admitted cs)
  run-conserves acc left cs out p made done = omega (
    arith,
    (run-created acc left cs out made done).keeps.conserved p,
    ap (total p) (created caps acc made).3,
  )

  -- Every segment that is sealed is prepared for the sealer and holds no more objects than the cap,
  -- and every segment that stays open holds at least one object and fewer than the cap.
  pub run-within_caps :
      (acc left : Accumulator) (cs : List Call) (out : List SealReady)
      → create caps ≡ some acc
      → run js caps cs acc ≡ ok (left, out)
      → All (IsReady caps.max_events) out × Fits caps.max_events left
  run-within_caps acc left cs out made done =
      let kept = run-created acc left cs out made done in (kept.keeps.ready, kept.fits)

  -- The sealed segments of each database are numbered from 0 on without a gap, in the order in which
  -- they are sealed.
  pub run-Numbered :
      (acc left : Accumulator) (cs : List Call) (out : List SealReady) (db : String)
      → create caps ≡ some acc
      → run js caps cs acc ≡ ok (left, out)
      → Numbered db 0 (next_of db left) out
  run-Numbered acc left cs out db made done =
      subst (λ n. Numbered db n (next_of db left) out) (next_of-created caps acc db made)
        ((run-created acc left cs out made done).keeps.numbered db)

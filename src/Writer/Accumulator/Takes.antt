-- ===== src/Writer/Accumulator/Takes.antt =====
-- Sealing an open segment takes it out of the accumulator with all its objects.
use external_database_audit.Base.{
  ◌+◌, ◌≡◌, refl, ap, sym, subst, String, Bool, true, List, [], ◌∷◌, str_eq, eq_iff, if◌then◌else◌,
  arith,
}
use external_database_audit.Base.Dict
use external_database_audit.Base.Dict.{Dict, get-set, get-delete}
use external_database_audit.Base.Lists.{length}
use external_database_audit.Base.Platform.{Platform}
use external_database_audit.Base.Result.{Result, ok, err}
use external_database_audit.Canonical.Json.{CanonicalError}
use external_database_audit.Cce.{Cce}
use external_database_audit.Cce.Order.{order_cces}
use external_database_audit.Writer.Establish.Consistent.{IsPrepared}
use external_database_audit.Writer.Prepared.{IsPrepared-sealed_with, count-order}
use external_database_audit.Writer.Sealing.{OpenSegment, SealReady, SealTrigger, count, sealed_with}
use external_database_audit.Writer.Accumulator.{Accumulator, next_of, seal_ordered, seal}
use external_database_audit.Writer.Accumulator.Shape.{IsMap, IsMap-delete, IsSound}

-- what it is to seal an open segment
pub record Takes (seg : OpenSegment) (acc left : Accumulator) (s : SealReady) : Type 0 where
  pub opened : left.opened ≡ Dict.delete seg.db_id acc.opened
  pub next_seq : left.next_seq ≡ Dict.set seg.db_id (seg.segment_sequence + 1) acc.next_seq
  pub objects : (p : Cce → Bool) → count p s.input.objects ≡ count p seg.objects
  pub prepared : IsPrepared s.input
  pub counted : s.input.event_count ≡ length seg.objects
  pub db_id : s.input.db_id ≡ seg.db_id
  pub sequence : s.input.segment_sequence ≡ seg.segment_sequence

pub length-count : (cs : List Cce) → count (λ c. true) cs ≡ length cs
length-count [] = refl
length-count (c ∷ cs) = omega (arith, length-count cs)

seal_ordered-Takes :
    (js : Platform) (seg : OpenSegment) (trigger : SealTrigger) (closed_at : String)
    (ordered : Result CanonicalError (List Cce)) (acc left : Accumulator) (s : SealReady)
    → ((cs : List Cce) → ordered ≡ ok cs → (p : Cce → Bool) → count p cs ≡ count p seg.objects)
    → seal_ordered js seg trigger closed_at ordered acc ≡ ok (left, s)
    → Takes seg acc left s
unfolding seal_ordered sealed_with
seal_ordered-Takes js seg trigger closed_at (err e) acc left s same done = absurd (cc)
seal_ordered-Takes js seg trigger closed_at (ok []) acc left s same done = absurd (cc)
seal_ordered-Takes js seg trigger closed_at (ok (c ∷ cs)) acc left s same done =
    let made = sealed_with seg trigger closed_at c cs in
    let e : made ≡ s = cc in
    let without : Accumulator = record {
      opened = Dict.delete seg.db_id acc.opened;
      next_seq = Dict.set seg.db_id (seg.segment_sequence + 1) acc.next_seq;
    } in
    let f : without ≡ left = cc in
    let counts = same (c ∷ cs) refl in
    subst (λ a. Takes seg acc a s) f
      (subst (λ t. Takes seg acc without t) e
        (record {
          opened = refl;
          next_seq = refl;
          objects = counts;
          prepared = IsPrepared-sealed_with seg trigger closed_at c cs;
          counted =
              omega (arith, counts (λ x. true), length-count (c ∷ cs), length-count seg.objects);
          db_id = refl;
          sequence = refl;
        }))

pub seal-Takes :
    (js : Platform) (seg : OpenSegment) (trigger : SealTrigger) (closed_at : String)
    (acc left : Accumulator) (s : SealReady)
    → seal js seg trigger closed_at acc ≡ ok (left, s)
    → Takes seg acc left s
unfolding seal
seal-Takes js seg trigger closed_at acc left s done =
    seal_ordered-Takes js seg trigger closed_at (order_cces js seg.objects) acc left s
      (λ cs e p. count-order js p seg.objects cs e) done

pub next_of-Takes :
    (seg : OpenSegment) (acc left : Accumulator) (s : SealReady) (k : String)
    → Takes seg acc left s
    → next_of k left ≡ (if str_eq seg.db_id k then seg.segment_sequence + 1 else next_of k acc)
next_of-Takes seg acc left s k t = rw t.next_seq (
    ground (arith, eq_iff seg.db_id k, get-set seg.db_id k (seg.segment_sequence + 1) acc.next_seq))

pub Takes-IsSound :
    (seg : OpenSegment) (acc left : Accumulator) (s : SealReady)
    → Takes seg acc left s
    → IsSound acc
    → IsSound left
Takes-IsSound seg acc left s t sound = record {
  distinct = subst IsMap (sym t.opened) (IsMap-delete seg.db_id acc.opened sound.distinct);
  keyed = λ k u held.
      ground (arith, get-delete seg.db_id k acc.opened, sound.keyed k u, ap (Dict.get k) t.opened);
  numbered = λ k u held. ground (
    arith,
    get-delete seg.db_id k acc.opened,
    sound.numbered k u,
    ap (Dict.get k) t.opened,
    next_of-Takes seg acc left s k t,
  );
}

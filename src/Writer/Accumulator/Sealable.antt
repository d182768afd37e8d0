-- ===== src/Writer/Accumulator/Sealable.antt =====
-- Events whose row keys can be hashed can be ordered, and a segment of them sealed.
use external_database_audit.Base.{
  ◌<◌, ◌≡◌, ◌∙◌, refl, ap, String, Bool, true, false, not, List, [], ◌∷◌, if◌then◌else◌, arith,
}
use external_database_audit.Base.Lists.{length}
use external_database_audit.Base.Platform.{Platform}
use external_database_audit.Base.Result.{Result, ok, err, is_ok}
use external_database_audit.Canonical.Json.{CanonicalError}
use external_database_audit.Cce.{Cce}
use external_database_audit.Cce.Order.{
  Order, less, same, greater, first_object, hash_or_empty, place, then_by, compare_keys,
  compare_rows, compare_ties, compare_cce, insert_cce, order_cces, cmp_str,
}
use external_database_audit.Writer.Prepared.{count-order}
use external_database_audit.Writer.Sealing.{OpenSegment, SealReady, SealTrigger, count}
use external_database_audit.Writer.Accumulator.{
  Accumulator, Sealed, Called, continued, seal_ordered, seal, seal_then,
}
use external_database_audit.Writer.Accumulator.Takes.{Takes, length-count, seal-Takes}

is_ok-value : (r : Result CanonicalError String) → not (is_ok r) ≡ false → (s : String) × (r ≡ ok s)
is_ok-value (ok s) h = (s, refl)
is_ok-value (err e) h = absurd (cc)

-- a call that returns
abbrev pub Returns : Called → Type 0
Returns called = (r : Accumulator × List SealReady) × (called ≡ ok r)

sealed_next :
    (m : Sealed) (next : Accumulator → Called) (left last : Accumulator) (s : SealReady)
    (more : List SealReady)
    → m ≡ ok (left, s)
    → next left ≡ ok (last, more)
    → continued m next ≡ ok (last, s ∷ more)
sealed_next m next left last s more e g = rw (e, g)

pub if-total :
    (b : Bool) (x y : Called)
    → (b ≡ true → Returns x)
    → (b ≡ false → Returns y)
    → Returns (if b then x else y)
if-total true x y f g = f refl
if-total false x y f g = g refl

place-total :
    (a b : Cce) (cs rest : List Cce) (o : Order)
    → (ds : List Cce) × (place a b cs (ok rest) o ≡ ok ds)
place-total a b cs rest less = (a ∷ b ∷ cs, refl)
place-total a b cs rest same = (a ∷ b ∷ cs, refl)
place-total a b cs rest greater = (b ∷ rest, refl)

module _ (js : Platform) where
  -- an event whose row key cannot be hashed
  abbrev pub unhashable : Cce → Bool
  unhashable c = not (is_ok (hash_or_empty js (first_object c.changes)))

  compare_cce-total :
      (a b : Cce)
      → unhashable a ≡ false
      → unhashable b ≡ false
      → (o : Order) × (compare_cce js a b ≡ ok o)
  unfolding compare_cce compare_ties compare_rows
  compare_cce-total a b ha hb =
      elim (compare_keys js a b) as (λ k. (o : Order) × (compare_ties js k a b ≡ ok o)) [
        | less ↦ (less, refl)
        | greater ↦ (greater, refl)
        | same ↦
            let (x, e) = is_ok-value (hash_or_empty js (first_object a.changes)) ha in
            let (y, f) = is_ok-value (hash_or_empty js (first_object b.changes)) hb in
            (
              then_by (cmp_str x y) (cmp_str a.envelope_id b.envelope_id),
              rw (e, f, compare_ties, compare_rows),
            )
      ]

  insert_cce-total :
      (a : Cce) (cs : List Cce)
      → count unhashable (a ∷ cs) ≡ 0
      → (ds : List Cce) × (insert_cce js a cs ≡ ok ds)
  unfolding insert_cce
  insert_cce-total a [] h = (a ∷ [], refl)
  insert_cce-total a (b ∷ cs) h =
      let (rest, e) = insert_cce-total a cs (omega (arith, h)) in
      let (o, f) = compare_cce-total a b (ground arith) (ground arith) in
      let (ds, g) = place-total a b cs rest o in (ds, rw (f, e) g)

  order_cces-total :
      (cs : List Cce) → count unhashable cs ≡ 0 → (ds : List Cce) × (order_cces js cs ≡ ok ds)
  unfolding order_cces
  order_cces-total [] h = ([], refl)
  order_cces-total (a ∷ cs) h =
      let (rest, e) = order_cces-total cs (omega (arith, h)) in
      let (ds, f) =
        insert_cce-total a rest (omega (arith, h, count-order js unhashable cs rest e)) in
      (ds, rw e f)

  seal_ordered-total :
      (seg : OpenSegment) (trigger : SealTrigger) (closed_at : String) (cs : List Cce)
      (acc : Accumulator)
      → 0 < length cs
      → (r : Accumulator × SealReady) × (seal_ordered js seg trigger closed_at (ok cs) acc ≡ ok r)
  unfolding seal_ordered
  seal_ordered-total seg trigger closed_at [] acc h = absurd (omega arith)
  seal_ordered-total seg trigger closed_at (c ∷ cs) acc h = (_, refl)

  seal-total :
      (seg : OpenSegment) (trigger : SealTrigger) (closed_at : String) (acc : Accumulator)
      → count unhashable seg.objects ≡ 0
      → 0 < length seg.objects
      → (r : Accumulator × SealReady) × (seal js seg trigger closed_at acc ≡ ok r)
  unfolding seal
  seal-total seg trigger closed_at acc h pos =
      let (ds, e) = order_cces-total seg.objects h in
      let same = count-order js (λ c. true) seg.objects ds e in
      let (r, f) =
        seal_ordered-total seg trigger closed_at ds acc
          (omega (arith, same, length-count ds, length-count seg.objects)) in
      (r, ap (λ o. seal_ordered js seg trigger closed_at o acc) e ∙ f)

  pub seal_then-total :
      (seg : OpenSegment) (trigger : SealTrigger) (closed_at : String) (acc : Accumulator)
      (next : Accumulator → Called)
      → count unhashable seg.objects ≡ 0
      → 0 < length seg.objects
      → ((left : Accumulator) (s : SealReady) → Takes seg acc left s → Returns (next left))
      → Returns (seal_then js seg trigger closed_at acc next)
  unfolding seal_then
  seal_then-total seg trigger closed_at acc next h pos follows =
      let ((left, s), e) = seal-total seg trigger closed_at acc h pos in
      let ((last, more), g) = follows left s (seal-Takes js seg trigger closed_at acc left s e) in
      ((last, s ∷ more), sealed_next (seal js seg trigger closed_at acc) next left last s more e g)

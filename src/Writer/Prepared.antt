-- ===== src/Writer/Prepared.antt =====
-- A segment that is sealed holds the objects that it was sealed with, in order, and is prepared for the
-- chain that the sealer establishes.
use external_database_audit.Base.{
  ℕ, suc, ◌≡◌, ◌∙◌, refl, ap, sym, subst, String, Bool, List, [], ◌∷◌, arith,
}
use external_database_audit.Base.Lists.{length, get_elem?}
use external_database_audit.Base.Platform.{Platform}
use external_database_audit.Base.Result.{Result, ok, err, >>=-eq-ok}
use external_database_audit.Canonical.Json.{CanonicalError}
use external_database_audit.Cce.{Cce}
use external_database_audit.Cce.Order.{
  Order, less, same, greater, place, compare_cce, insert_cce, order_cces,
}
use external_database_audit.Writer.Establish.Consistent.{AreRefs, IsPrepared}
use external_database_audit.Evidence.Manifest.Exact.{IsIdOf}
use external_database_audit.Writer.Sealing.{
  OpenSegment, SealTrigger, count, last_of, object_refs, sealed_with,
}

length-object_refs :
    (db segment : String) (i : ℕ) (cs : List Cce) → length (object_refs db segment i cs) ≡ length cs
unfolding object_refs
length-object_refs db segment i [] = refl
length-object_refs db segment i (c ∷ cs) = ap suc (length-object_refs db segment (suc i) cs)

AreRefs-object_refs :
    (db segment : String) (i : ℕ) (cs : List Cce) → AreRefs i (object_refs db segment i cs) cs
unfolding object_refs
AreRefs-object_refs db segment i [] = tt
AreRefs-object_refs db segment i (c ∷ cs) = (refl, refl, AreRefs-object_refs db segment (suc i) cs)

last-object_refs :
    (db segment : String) (i : ℕ) (c : Cce) (cs : List Cce)
    → IsIdOf (last_of c cs).envelope_id (get_elem? (object_refs db segment i (c ∷ cs)) (length cs))
unfolding object_refs
last-object_refs db segment i c [] = refl
last-object_refs db segment i c (d ∷ cs) = last-object_refs db segment (suc i) d cs

pub IsPrepared-sealed_with :
    (seg : OpenSegment) (trigger : SealTrigger) (closed_at : String) (c : Cce) (cs : List Cce)
    → IsPrepared (sealed_with seg trigger closed_at c cs).input
unfolding sealed_with object_refs
IsPrepared-sealed_with seg trigger closed_at c cs = record {
  filled = omega (arith, length-object_refs seg.db_id seg.segment_id 0 (c ∷ cs));
  counted = sym (length-object_refs seg.db_id seg.segment_id 0 (c ∷ cs));
  refs = AreRefs-object_refs seg.db_id seg.segment_id 0 (c ∷ cs);
  first_id = refl;
  last_id =
      subst
        (λ n.
          IsIdOf (last_of c cs).envelope_id
            (get_elem? (object_refs seg.db_id seg.segment_id 0 (c ∷ cs)) n))
        (omega (arith, length-object_refs seg.db_id seg.segment_id 0 (c ∷ cs)))
        (last-object_refs seg.db_id seg.segment_id 0 c cs);
}

module _ (js : Platform) (p : Cce → Bool) where
  count-place :
      (a b : Cce) (cs : List Cce) (later : Result CanonicalError (List Cce)) (o : Order)
      (ds : List Cce)
      → ((es : List Cce) → later ≡ ok es → count p es ≡ count p (a ∷ cs))
      → place a b cs later o ≡ ok ds
      → count p ds ≡ count p (a ∷ b ∷ cs)
  count-place a b cs later less ds ih placed = let e : a ∷ b ∷ cs ≡ ds = cc in ap (count p) (sym e)
  count-place a b cs later same ds ih placed = let e : a ∷ b ∷ cs ≡ ds = cc in ap (count p) (sym e)
  count-place a b cs (err e) greater ds ih placed = cc
  count-place a b cs (ok es) greater ds ih placed =
      let e : b ∷ es ≡ ds = cc in ap (count p) (sym e) ∙ omega (arith, ih es refl)

  pub count-insert :
      (a : Cce) (cs ds : List Cce) → insert_cce js a cs ≡ ok ds → count p ds ≡ count p (a ∷ cs)
  unfolding insert_cce
  count-insert a [] ds sorted = let e : a ∷ [] ≡ ds = cc in ap (count p) (sym e)
  count-insert a (b ∷ cs) ds sorted =
      let (o, compared, placed) =
        >>=-eq-ok (compare_cce js a b) (place a b cs (insert_cce js a cs)) sorted in
      count-place a b cs (insert_cce js a cs) o ds (λ es e. count-insert a cs es e) placed

  pub count-order : (cs ds : List Cce) → order_cces js cs ≡ ok ds → count p ds ≡ count p cs
  unfolding order_cces
  count-order [] ds sorted = let e : [] ≡ ds = cc in ap (count p) (sym e)
  count-order (a ∷ cs) ds sorted =
      let (rest, e, f) = >>=-eq-ok (order_cces js cs) (insert_cce js a) sorted in
      omega (arith, count-insert a rest ds f, count-order cs rest e)

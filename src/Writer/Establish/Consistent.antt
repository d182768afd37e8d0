-- ===== src/Writer/Establish/Consistent.antt =====
-- What `establishChain` makes of a prepared segment is consistent, so that a manifest can be built.
use external_database_audit.Base.{
  ℕ, zero, suc, ◌+◌, ◌-◌, ◌<◌, String, ◌≡◌, refl, sym, ap, subst, ◌∙◌, Option, none, some, List, [],
  ◌∷◌, arith,
}
use external_database_audit.Base.Lists.{get_elem?, length}
use external_database_audit.Base.Platform.{Platform}
use external_database_audit.Base.Result.{ok, >>=-eq-ok}
use external_database_audit.Canonical.Hash.{row_hash}
use external_database_audit.Cce.{Cce}
use external_database_audit.Evidence.{SegmentObjectRef, SegmentObjectHash, SegmentInput}
use external_database_audit.Evidence.Manifest.Exact.{
  IsEntry, AreEntries, IsIdOf, IsRowOf, IsConsistent,
}
use external_database_audit.Writer.Establish.{
  relink, hash_entries, first_row, last_row, rechained, chain_from, establish_chain,
}

-- the references name the objects, in their order and each under its index
abbrev pub AreRefs : ℕ → List SegmentObjectRef → List Cce → Type 0
AreRefs i [] [] = Unit
AreRefs i [] (c ∷ cs) = ⊥
AreRefs i (r ∷ refs) [] = ⊥
AreRefs i (r ∷ refs) (c ∷ cs) =
    (r.seq ≡ i) × (r.object_id ≡ c.envelope_id) × AreRefs (suc i) refs cs

-- what the accumulator hands to the sealer: references for every object, their number, and the ids of
-- the first and the last one
pub record IsPrepared (seg : SegmentInput) : Type 0 where
  pub filled : 0 < length seg.object_list
  pub counted : seg.event_count ≡ length seg.object_list
  pub refs : AreRefs 0 seg.object_list seg.objects
  pub first_id : IsIdOf seg.first_envelope_id (get_elem? seg.object_list 0)
  pub last_id : IsIdOf seg.last_envelope_id (get_elem? seg.object_list (length seg.object_list - 1))

pub length-AreRefs :
    (i : ℕ) (refs : List SegmentObjectRef) (cs : List Cce)
    → AreRefs i refs cs
    → length cs ≡ length refs
length-AreRefs i [] [] h = refl
length-AreRefs i [] (c ∷ cs) h = absurd h
length-AreRefs i (r ∷ refs) [] h = absurd h
length-AreRefs i (r ∷ refs) (c ∷ cs) (seq, id, rest) = ap suc (length-AreRefs (suc i) refs cs rest)

length-hash_entries : (i : ℕ) (cs : List Cce) → length (hash_entries i cs) ≡ length cs
unfolding hash_entries
length-hash_entries i [] = refl
length-hash_entries i (c ∷ cs) = ap suc (length-hash_entries (suc i) cs)

-- the entry of `object_hash_list` for the object at an index
abbrev entry_at : ℕ → Option Cce → Option SegmentObjectHash
entry_at i none = none
entry_at i (some c) =
    some (record { seq = i; event_hash = c.evidence.event_hash; row_hash = c.evidence.row_hash })

get_elem?-hash_entries :
    (k i : ℕ) (cs : List Cce) → get_elem? (hash_entries k cs) i ≡ entry_at (k + i) (get_elem? cs i)
unfolding hash_entries
get_elem?-hash_entries k i [] = refl
get_elem?-hash_entries k zero (c ∷ cs) = ap (λ n. entry_at n (some c)) (omega arith)
get_elem?-hash_entries k (suc i) (c ∷ cs) =
    get_elem?-hash_entries (suc k) i cs ∙ ap (λ n. entry_at n (get_elem? cs i)) (omega arith)

AreEntries-of_refs :
    (ds : List Cce) (i : ℕ) (refs : List SegmentObjectRef) (rest : List Cce)
    → AreRefs i refs rest
    → ((j : ℕ) → get_elem? ds (i + j) ≡ get_elem? rest j)
    → AreEntries (hash_entries 0 ds) ds i refs
AreEntries-of_refs ds i [] rest h at = tt
AreEntries-of_refs ds i (r ∷ refs) [] h at = absurd h
AreEntries-of_refs ds i (r ∷ refs) (c ∷ rest) (seq, id, later) at =
    let here : get_elem? ds i ≡ some c = ap (get_elem? ds) (omega arith) ∙ at 0 in
    let listed : get_elem? (hash_entries 0 ds) i ≡ entry_at i (some c) =
      get_elem?-hash_entries 0 i ds
      ∙ ap (λ n. entry_at n (get_elem? ds i)) (omega arith)
      ∙ ap (entry_at i) here in
    (
      subst (λ o. IsEntry i r o (get_elem? ds i)) (sym listed)
          (subst (λ o. IsEntry i r (entry_at i (some c)) o) (sym here)
            (seq, refl, (id, refl, refl))),
      AreEntries-of_refs ds (suc i) refs rest later
          (λ j. ap (get_elem? ds) (omega arith) ∙ at (suc j)),
    )

get_elem?-last :
    (c : Cce) (cs : List Cce)
    → (q : Cce) × (get_elem? (c ∷ cs) (length cs) ≡ some q)
      × (last_row cs c.evidence.row_hash ≡ q.evidence.row_hash)
get_elem?-last c [] = (c, refl, refl)
get_elem?-last c (d ∷ cs) = get_elem?-last d cs

first_row-IsRowOf :
    (d : String) (ds : List Cce)
    → 0 < length ds
    → IsRowOf (first_row ds d) (get_elem? (hash_entries 0 ds) 0)
unfolding hash_entries
first_row-IsRowOf d [] full = absurd (omega (arith, full))
first_row-IsRowOf d (c ∷ cs) full = refl

last_row-IsRowOf :
    (d : String) (ds : List Cce)
    → 0 < length ds
    → IsRowOf (last_row ds d) (get_elem? (hash_entries 0 ds) (length ds - 1))
last_row-IsRowOf d [] full = absurd (omega (arith, full))
last_row-IsRowOf d (c ∷ cs) full =
    let (q, there, same) = get_elem?-last c cs in
    let at_end : get_elem? (hash_entries 0 (c ∷ cs)) (length (c ∷ cs) - 1)
        ≡ entry_at (0 + length cs) (some q) =
      ap (get_elem? (hash_entries 0 (c ∷ cs))) (omega arith)
      ∙ get_elem?-hash_entries 0 (length cs) (c ∷ cs)
      ∙ ap (entry_at (0 + length cs)) there in
    subst (IsRowOf (last_row cs c.evidence.row_hash)) (sym at_end) same

module _ (js : Platform) where
  chain_from-AreRefs :
      (i : ℕ) (refs : List SegmentObjectRef) (prev : String) (cs ds : List Cce)
      → AreRefs i refs cs
      → chain_from js prev cs ≡ ok ds
      → AreRefs i refs ds
  unfolding chain_from
  chain_from-AreRefs i [] prev [] ds h e = let same : [] ≡ ds = cc in subst (AreRefs i []) same tt
  chain_from-AreRefs i [] prev (c ∷ cs) ds h e = absurd h
  chain_from-AreRefs i (r ∷ refs) prev [] ds h e = absurd h
  chain_from-AreRefs i (r ∷ refs) prev (c ∷ cs) ds (seq, id, later) e =
      let (row, hashed, e1) = >>=-eq-ok (row_hash js prev c.evidence.event_hash) _ e in
      let (rest, chained, e2) = >>=-eq-ok (chain_from js row cs) _ e1 in
      let same : relink c prev row ∷ rest ≡ ds = cc in
      subst (AreRefs i (r ∷ refs)) same
        (seq, id, chain_from-AreRefs (suc i) refs row cs rest later chained)

  -- Establishing the chain of a prepared segment gives a consistent one, from any boundary.
  pub establish_chain-IsConsistent :
      (seg : SegmentInput) (boundary : String) (out : SegmentInput)
      → IsPrepared seg
      → establish_chain js seg boundary ≡ ok out
      → IsConsistent out
  unfolding establish_chain
  establish_chain-IsConsistent seg boundary out ready e =
      let (ds, chained, e1) = >>=-eq-ok (chain_from js boundary seg.objects) _ e in
      let refs = chain_from-AreRefs 0 seg.object_list boundary seg.objects ds ready.refs chained in
      let count : length ds ≡ length seg.object_list = length-AreRefs 0 seg.object_list ds refs in
      let full : 0 < length ds = subst (λ n. 0 < n) (sym count) ready.filled in
      let same : rechained seg ds ≡ out = cc in
      subst IsConsistent same (record {
        filled = ready.filled;
        counted = ready.counted;
        hashes = length-hash_entries 0 ds ∙ count;
        objects = count;
        entries =
            AreEntries-of_refs ds 0 seg.object_list ds refs (λ j. ap (get_elem? ds) (omega arith));
        first_id = ready.first_id;
        last_id = ready.last_id;
        first_row = first_row-IsRowOf seg.first_row_hash ds full;
        last_row =
            subst
              (λ n. IsRowOf (last_row ds seg.last_row_hash) (get_elem? (hash_entries 0 ds) (n - 1)))
              count (last_row-IsRowOf seg.last_row_hash ds full);
      })

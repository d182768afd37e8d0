-- ===== src/Evidence/Manifest/Exact.antt =====
-- When the cross-check of a segment finds no problem: exactly for a consistent segment, described
-- without the tests of the code.
use external_database_audit.Base.{
  ℕ, zero, suc, ◌-◌, ◌<◌, String, ◌≡◌, ◌↔◌, refl, sym, ap, subst, ◌∙◌, Bool, true, false, Option,
  none, some, List, [], ◌∷◌, ◌++◌, eq_iff, ltb, ltb→lt, lt→ltb, ◌==◌, ==_iff, if◌then◌else◌, arith,
}
use external_database_audit.Base.Lists.{get_elem?, length}
use external_database_audit.Cce.{Cce}
use external_database_audit.Evidence.{SegmentObjectRef, SegmentObjectHash, SegmentInput}
use external_database_audit.Evidence.Manifest.{
  ManifestProblem, empty_segment, event_count, hash_list_length, objects_length, unless,
  entry_problems, loop_problems, id_is, row_is, end_problems, cross_check,
}

abbrev pub IsHashAt : ℕ → Option SegmentObjectHash → Type 0
IsHashAt i none = ⊥
IsHashAt i (some h) = h.seq ≡ i

abbrev pub IsObjectOf : SegmentObjectRef → Option SegmentObjectHash → Option Cce → Type 0
IsObjectOf r none c = ⊥
IsObjectOf r (some h) none = ⊥
IsObjectOf r (some h) (some c) =
    (r.object_id ≡ c.envelope_id)
    × (h.event_hash ≡ c.evidence.event_hash)
    × (h.row_hash ≡ c.evidence.row_hash)

-- the reference, the hashes and the object at one index belong together and state their index
abbrev pub IsEntry : ℕ → SegmentObjectRef → Option SegmentObjectHash → Option Cce → Type 0
IsEntry i r h c = (r.seq ≡ i) × IsHashAt i h × IsObjectOf r h c

abbrev pub AreEntries : List SegmentObjectHash → List Cce → ℕ → List SegmentObjectRef → Type 0
AreEntries hashes objects i [] = Unit
AreEntries hashes objects i (r ∷ refs) =
    IsEntry i r (get_elem? hashes i) (get_elem? objects i) × AreEntries hashes objects (suc i) refs

abbrev pub IsIdOf : String → Option SegmentObjectRef → Type 0
IsIdOf s none = ⊥
IsIdOf s (some r) = s ≡ r.object_id

abbrev pub IsRowOf : String → Option SegmentObjectHash → Type 0
IsRowOf s none = ⊥
IsRowOf s (some h) = s ≡ h.row_hash

-- The lists of a segment are equally long and not empty, agree index by index, and its counters and
-- ends are those of the lists.
pub record IsConsistent (seg : SegmentInput) : Type 0 where
  pub filled : 0 < length seg.object_list
  pub counted : seg.event_count ≡ length seg.object_list
  pub hashes : length seg.object_hash_list ≡ length seg.object_list
  pub objects : length seg.objects ≡ length seg.object_list
  pub entries : AreEntries seg.object_hash_list seg.objects 0 seg.object_list
  pub first_id : IsIdOf seg.first_envelope_id (get_elem? seg.object_list 0)
  pub last_id : IsIdOf seg.last_envelope_id (get_elem? seg.object_list (length seg.object_list - 1))
  pub first_row : IsRowOf seg.first_row_hash (get_elem? seg.object_hash_list 0)
  pub last_row :
      IsRowOf seg.last_row_hash (get_elem? seg.object_hash_list (length seg.object_list - 1))

append-eq-nil_iff : (xs ys : List ManifestProblem) → (xs ++ ys ≡ []) ↔ ((xs ≡ []) × (ys ≡ []))
append-eq-nil_iff [] ys = ground arith
append-eq-nil_iff (x ∷ xs) ys = ground arith

unless-eq-nil_iff : (b : Bool) (q : ManifestProblem) → (unless b q ≡ []) ↔ (b ≡ true)
unless-eq-nil_iff true q = ground arith
unless-eq-nil_iff false q = ground arith

entry_problems-eq-nil_iff :
    (i : ℕ) (r : SegmentObjectRef) (h : Option SegmentObjectHash) (c : Option Cce)
    → (entry_problems i r h c ≡ []) ↔ IsEntry i r h c
unfolding entry_problems
entry_problems-eq-nil_iff i r none none = ground arith
entry_problems-eq-nil_iff i r none (some c) = ground arith
entry_problems-eq-nil_iff i r (some h) none = ground arith
entry_problems-eq-nil_iff i r (some h) (some c) = ground (
  arith,
  eq_iff r.object_id c.envelope_id,
  eq_iff h.event_hash c.evidence.event_hash,
  eq_iff h.row_hash c.evidence.row_hash,
)

loop_problems-eq-nil_iff :
    (hashes : List SegmentObjectHash) (objects : List Cce) (i : ℕ) (refs : List SegmentObjectRef)
    → (loop_problems hashes objects i refs ≡ []) ↔ AreEntries hashes objects i refs
unfolding loop_problems
loop_problems-eq-nil_iff hashes objects i [] = ground arith
loop_problems-eq-nil_iff hashes objects i (r ∷ refs) =
    let (split, join) =
      append-eq-nil_iff (entry_problems i r (get_elem? hashes i) (get_elem? objects i))
        (loop_problems hashes objects (suc i) refs) in
    let (entry→, entry←) =
      entry_problems-eq-nil_iff i r (get_elem? hashes i) (get_elem? objects i) in
    let (rest→, rest←) = loop_problems-eq-nil_iff hashes objects (suc i) refs in
    (λ e. (entry→ (split e).0, rest→ (split e).1), λ (one, rest). join (entry← one, rest← rest))

get_elem?-some {ℓ} :
    {A : Type ℓ} (xs : List A) (i : ℕ) → i < length xs → (x : A) × (get_elem? xs i ≡ some x)
get_elem?-some [] i lt = absurd (omega (arith, lt))
get_elem?-some (x ∷ xs) zero lt = (x, refl)
get_elem?-some (x ∷ xs) (suc i) lt = get_elem?-some xs i (omega (arith, lt))

id_is_iff :
    (s : String) (refs : List SegmentObjectRef) (i : ℕ)
    → i < length refs
    → (id_is s (get_elem? refs i) ≡ true) ↔ IsIdOf s (get_elem? refs i)
id_is_iff s refs i lt =
    let (r, there) = get_elem?-some refs i lt in
    subst (λ o. (id_is s o ≡ true) ↔ IsIdOf s o) (sym there) (eq_iff s r.object_id)

row_is_iff : (s : String) (h : Option SegmentObjectHash) → (row_is s h ≡ true) ↔ IsRowOf s h
row_is_iff s none = ground arith
row_is_iff s (some h) = eq_iff s h.row_hash

-- four tests and what comes after them
tested_iff :
    (a b c d : Bool) (q r s t : ManifestProblem) (rest : List ManifestProblem)
    → (unless a q ++ (unless b r ++ (unless c s ++ (unless d t ++ rest))) ≡ [])
      ↔ ((a ≡ true) × (b ≡ true) × (c ≡ true) × (d ≡ true) × (rest ≡ []))
tested_iff a b c d q r s t rest = ground arith

end_problems-eq-nil_iff :
    (seg : SegmentInput)
    → (end_problems seg ≡ []) ↔ (
        (id_is seg.first_envelope_id (get_elem? seg.object_list 0) ≡ true)
        × (id_is seg.last_envelope_id (get_elem? seg.object_list (length seg.object_list - 1))
            ≡ true)
        × (row_is seg.first_row_hash (get_elem? seg.object_hash_list 0) ≡ true)
        × (row_is seg.last_row_hash (get_elem? seg.object_hash_list (length seg.object_list - 1))
            ≡ true))
unfolding end_problems
end_problems-eq-nil_iff seg = ground arith

-- The cross-check of a segment finds no problem exactly when the segment is consistent.
pub cross_check-eq-nil_iff : (seg : SegmentInput) → (cross_check seg ≡ []) ↔ IsConsistent seg
unfolding cross_check
cross_check-eq-nil_iff seg =
    let n : ℕ = length seg.object_list in
    let ends : List ManifestProblem = if ltb 0 n then end_problems seg else [] in
    let loop : List ManifestProblem =
      loop_problems seg.object_hash_list seg.objects 0 seg.object_list in
    let (tests→, tests←) =
      tested_iff (ltb 0 n) (seg.event_count == n) (length seg.object_hash_list == n)
        (length seg.objects == n) empty_segment event_count hash_list_length objects_length
        (loop ++ ends) in
    let (split, join) = append-eq-nil_iff loop ends in
    let (loop→, loop←) =
      loop_problems-eq-nil_iff seg.object_hash_list seg.objects 0 seg.object_list in
    let (ends→, ends←) = end_problems-eq-nil_iff seg in
    let last : 0 < n → n - 1 < n = λ lt. omega (arith, lt) in
    let chosen : ltb 0 n ≡ true → ends ≡ end_problems seg =
      λ fill. ap (λ b. if b then end_problems seg else []) fill in
    (
      λ e.
          let (fill, count, hashes, objects, rest) = tests→ e in
          let (looped, ended) = split rest in
          let lt : 0 < n = ltb→lt 0 n fill in
          let (first_id, last_id, first_row, last_row) = ends→ (sym (chosen fill) ∙ ended) in
          record {
            filled = lt;
            counted = (==_iff seg.event_count n).0 count;
            hashes = (==_iff (length seg.object_hash_list) n).0 hashes;
            objects = (==_iff (length seg.objects) n).0 objects;
            entries = loop→ looped;
            first_id = (id_is_iff seg.first_envelope_id seg.object_list 0 lt).0 first_id;
            last_id = (id_is_iff seg.last_envelope_id seg.object_list (n - 1) (last lt)).0 last_id;
            first_row =
                (row_is_iff seg.first_row_hash (get_elem? seg.object_hash_list 0)).0 first_row;
            last_row =
                (row_is_iff seg.last_row_hash (get_elem? seg.object_hash_list (n - 1))).0 last_row;
          },
      λ k.
          let fill : ltb 0 n ≡ true = lt→ltb 0 n k.filled in
          let ended : end_problems seg ≡ [] = ends← (
            (id_is_iff seg.first_envelope_id seg.object_list 0 k.filled).1 k.first_id,
            (id_is_iff seg.last_envelope_id seg.object_list (n - 1) (last k.filled)).1 k.last_id,
            (row_is_iff seg.first_row_hash (get_elem? seg.object_hash_list 0)).1 k.first_row,
            (row_is_iff seg.last_row_hash (get_elem? seg.object_hash_list (n - 1))).1 k.last_row,
          ) in
          tests← (
            fill,
            (==_iff seg.event_count n).1 k.counted,
            (==_iff (length seg.object_hash_list) n).1 k.hashes,
            (==_iff (length seg.objects) n).1 k.objects,
            join (loop← k.entries, chosen fill ∙ ended),
          ),
    )

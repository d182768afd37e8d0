-- ===== src/Verifier/Bound.antt =====
-- The checks of a manifest find nothing in one that is built from a consistent segment.
use external_database_audit.Base.{
  ℕ, suc, ◌+◌, ◌-◌, ◌≡◌, ◌∙◌, refl, sym, ap, subst, String, Bool, true, false, Option, none, some,
  List, [], ◌∷◌, ◌++◌, str_eq, eq_iff, eq_refl, ltb, ◌==◌, if◌then◌else◌, arith,
}
use external_database_audit.Base.Lists.{get_elem?, length}
use external_database_audit.Cce.{Cce}
use external_database_audit.Evidence.{
  SegmentObjectRef, SegmentObjectHash, SegmentManifest, SegmentInput, PreviousSegmentRef,
}
use external_database_audit.Evidence.Manifest.{core_with}
use external_database_audit.Evidence.Manifest.Exact.{
  IsConsistent, AreEntries, IsEntry, IsIdOf, IsRowOf,
}
use external_database_audit.Verifier.Segments.{
  RecomputeProblem, unless, event_is, row_is, id_is, seq_problems, binding_problems, end_problems,
  manifest_problems,
}

seq_problems-nil :
    (hashes : List SegmentObjectHash) (cs : List Cce) (i : ℕ) (refs : List SegmentObjectRef)
    → AreEntries hashes cs i refs
    → seq_problems hashes i refs ≡ []
unfolding seq_problems
seq_problems-nil hashes cs i [] h = refl
seq_problems-nil hashes cs i (r ∷ refs) (h, rest) =
    ground (arith, seq_problems-nil hashes cs (suc i) refs rest)

-- an entry and its object
bound :
    (i : ℕ) (r : SegmentObjectRef) (h : Option SegmentObjectHash) (c : Cce)
    → IsEntry i r h (some c)
    → (str_eq r.object_id c.envelope_id ≡ true)
      × (event_is c.evidence.event_hash h ≡ true)
      × (row_is c.evidence.row_hash h ≡ true)
bound i r none c e = absurd e.1
bound i r (some h) c e = ground (
  arith,
  eq_iff r.object_id c.envelope_id,
  eq_iff h.event_hash c.evidence.event_hash,
  eq_iff h.row_hash c.evidence.row_hash,
)

binding_problems-nil :
    (hashes : List SegmentObjectHash) (objects : List Cce) (i : ℕ) (refs : List SegmentObjectRef)
    (cs : List Cce)
    → AreEntries hashes objects i refs
    → ((j : ℕ) → get_elem? objects (i + j) ≡ get_elem? cs j)
    → binding_problems hashes i refs cs ≡ []
unfolding binding_problems
binding_problems-nil hashes objects i [] cs h at = refl
binding_problems-nil hashes objects i (r ∷ refs) [] h at = refl
binding_problems-nil hashes objects i (r ∷ refs) (c ∷ cs) (h, rest) at =
    let here : get_elem? objects i ≡ some c = ap (get_elem? objects) (omega arith) ∙ at 0 in
    let e = bound i r (get_elem? hashes i) c (subst (IsEntry i r (get_elem? hashes i)) here h) in
    let later =
      binding_problems-nil hashes objects (suc i) refs cs rest
        (λ j. ap (get_elem? objects) (omega arith) ∙ at (suc j)) in
    ground (arith, e, later)

id_is-true : (s : String) (r : Option SegmentObjectRef) → IsIdOf s r → id_is s r ≡ true
id_is-true s none h = absurd h
id_is-true s (some r) h = ground (arith, eq_iff s r.object_id)

row_is-true : (s : String) (h : Option SegmentObjectHash) → IsRowOf s h → row_is s h ≡ true
row_is-true s none h = absurd h
row_is-true s (some h) e = ground (arith, eq_iff h.row_hash s)

end_problems-nil :
    (m : SegmentManifest)
    → IsIdOf m.first_envelope_id (get_elem? m.object_list 0)
    → IsIdOf m.last_envelope_id (get_elem? m.object_list (length m.object_list - 1))
    → IsRowOf m.first_row_hash (get_elem? m.object_hash_list 0)
    → IsRowOf m.last_row_hash (get_elem? m.object_hash_list (length m.object_list - 1))
    → end_problems m ≡ []
unfolding end_problems
end_problems-nil m a b c d =
    rw (id_is-true _ _ a, id_is-true _ _ b, row_is-true _ _ c, row_is-true _ _ d)

-- the tests of a manifest, where all of them hold
none_found :
    (a b c d e f g : Bool) (q r s t u v : RecomputeProblem) (xs ys zs : List RecomputeProblem)
    → a ≡ true
    → b ≡ true
    → c ≡ true
    → d ≡ true
    → e ≡ true
    → f ≡ true
    → xs ≡ []
    → ys ≡ []
    → zs ≡ []
    → unless a q
        ++ (unless b r
            ++ (unless c s
                ++ (unless d t
                    ++ (unless e u ++ (unless f v ++ (xs ++ ((if g then ys else []) ++ zs)))))))
      ≡ []
none_found a b c d e f true q r s t u v xs ys zs ha hb hc hd he hf hx hy hz = ground arith
none_found a b c d e f false q r s t u v xs ys zs ha hb hc hd he hf hx hy hz = ground arith

pub manifest_problems-nil :
    (validate : SegmentManifest → Bool) (seg : SegmentInput) (m : SegmentManifest)
    (sealed_at : String) (given : Option PreviousSegmentRef)
    → IsConsistent seg
    → m.core ≡ core_with seg sealed_at given
    → validate m ≡ true
    → manifest_problems validate (record { manifest = m; objects = seg.objects }) m.manifest_hash
      ≡ []
unfolding manifest_problems core_with
manifest_problems-nil validate seg m sealed_at given c same valid =
    subst
      (λ k.
        validate (record { core = k; manifest_hash = m.manifest_hash }) ≡ true
        → manifest_problems validate
            (record {
              manifest = record { core = k; manifest_hash = m.manifest_hash };
              objects = seg.objects;
            })
            m.manifest_hash
          ≡ [])
      (sym same)
      (λ v.
        none_found _ (str_eq m.manifest_hash m.manifest_hash)
          (seg.event_count == length seg.object_list)
          (length seg.object_hash_list == length seg.object_list)
          (length seg.objects == length seg.object_list)
          (length seg.objects == length seg.object_hash_list) (ltb 0 (length seg.object_list)) _ _ _
          _ _ _ _ _ _ v (eq_refl m.manifest_hash) (ground (arith, c.counted))
          (ground (arith, c.hashes)) (ground (arith, c.objects))
          (ground (arith, c.objects, c.hashes))
          (seq_problems-nil seg.object_hash_list seg.objects 0 seg.object_list c.entries)
          (end_problems-nil
            (record { core = core_with seg sealed_at given; manifest_hash = m.manifest_hash })
            c.first_id c.last_id c.first_row c.last_row)
          (binding_problems-nil seg.object_hash_list seg.objects 0 seg.object_list seg.objects
            c.entries (λ j. ap (get_elem? seg.objects) (omega arith))))
      valid

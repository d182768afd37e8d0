-- ===== src/Writer/Seal/Stored.antt =====
-- What the writes of a segment leave in the store.
use external_database_audit.Base.{
  ℕ, suc, ◌≡◌, ◌∙◌, refl, sym, ap, ap₂, subst, String, Bool, true, false, Option, none, some, List,
  [], ◌∷◌, map, str_eq, eq_iff, if◌then◌else◌, arith, inl, inr, Option-cases,
}
use external_database_audit.Base.Dict
use external_database_audit.Base.Dict.{get-set, get-set_self}
use external_database_audit.Base.Lists.{length}
use external_database_audit.Base.Result.{Result, ok, err}
use external_database_audit.Canonical.Json.{CanonicalError}
use external_database_audit.Cce.{Cce}
use external_database_audit.Evidence.{SegmentObjectRef}
use external_database_audit.Worm.{Store, StoredObject, WormError, born, compliance, put_immutable}
use external_database_audit.Writer.Append.{
  AppendableObject, AppendOutcome, written, to_dead_letters, Sinks, Clock, Appended, cce, append,
  WriterDeps, EvidencePlacement,
}
use external_database_audit.Writer.Append.Sound.{IsSound, key_of}
use external_database_audit.Writer.Append.Outcome.{
  IsKept, append-IsKept, written-append, put_immutable-free, put_immutable-taken,
}
use external_database_audit.Writer.Seal.{
  SealerDeps, WriteResult, wrote, stopped, missing_entry, key_mismatch, with_key, on_append,
  write_objects, put_manifest,
}

-- every object stays as it is, and so does the retention that new objects get
pub record Keeps (s t : Store) : Type 0 where
  pub objects :
      (key : String) (o : StoredObject)
      → Dict.get key s.objects ≡ some o
      → Dict.get key t.objects ≡ some o
  pub default_retention : t.default_retain_until ≡ s.default_retain_until

pub Keeps-refl : (s : Store) → Keeps s s
Keeps-refl s = record { objects = λ key o h. h; default_retention = refl }

pub Keeps-trans : (s t u : Store) → Keeps s t → Keeps t u → Keeps s u
Keeps-trans s t u h k = record {
  objects = λ key o e. k.objects key o (h.objects key o e);
  default_retention = k.default_retention ∙ h.default_retention;
}

-- the store has the bytes under the key, born under its retention
abbrev pub Holds : Store → String → List ℕ → Type 0
Holds s key bytes = Dict.get key s.objects ≡ some (born bytes compliance s)

pub Holds-Keeps :
    (s t : Store) (key : String) (bytes : List ℕ)
    → Keeps s t
    → Holds s key bytes
    → Holds t key bytes
Holds-Keeps s t key bytes k h =
    k.objects key (born bytes compliance s) h
    ∙ ap
        (λ (r : Option String). some (record {
          bytes = bytes;
          lock = record { retention_mode = compliance; retain_until = r; legal_hold = false };
        }))
        (sym k.default_retention)

pub Keeps-set :
    (s : Store) (key : String) (o : StoredObject)
    → Dict.get key s.objects ≡ none
    → Keeps s (record s { objects = Dict.set key o s.objects })
Keeps-set s key o free = record {
  objects = λ k there h. ground (arith, eq_iff key k, get-set key k o s.objects);
  default_retention = refl;
}

Keeps-IsKept :
    (d : WriterDeps) (o : AppendableObject) (s : Sinks) (q : AppendOutcome × Sinks)
    → IsKept d o s q
    → Keeps s.worm q.1.worm
Keeps-IsKept d o s (written a, t) (free, (text, serializes, same)) =
    subst (λ (u : Sinks). Keeps s.worm u.worm) (sym same)
      (Keeps-set s.worm a.worm_object_key _ free)
Keeps-IsKept d o s (to_dead_letters item reason, t) (there, payload, same) =
    subst (Keeps s.worm) (sym same) (Keeps-refl s.worm)

with_key-Keeps :
    (key : String) (s : Store) (r : WriteResult × Sinks)
    → Keeps s r.1.worm
    → Keeps s (with_key key r).1.worm
with_key-Keeps key s (wrote keys, t) h = h
with_key-Keeps key s (stopped f, t) h = h
with_key-Keeps key s (missing_entry, t) h = h

on_append-Keeps :
    (i : ℕ) (next : List SegmentObjectRef → Sinks → WriteResult × Sinks)
    (refs : List SegmentObjectRef) (s : Store) (q : AppendOutcome × Sinks)
    → ((rest : List SegmentObjectRef) (t : Sinks) → Keeps t.worm (next rest t).1.worm)
    → Keeps s q.1.worm
    → Keeps s (on_append i next refs q).1.worm
on_append-Keeps i next refs s (to_dead_letters item reason, t) later h = h
on_append-Keeps i next [] s (written a, t) later h = h
on_append-Keeps i next (r ∷ refs) s (written a, t) later h =
    by_test (str_eq a.worm_object_key r.worm_object_key)
  where
    by_test :
        (b : Bool)
        → Keeps s
            (if b
              then with_key a.worm_object_key (next refs t)
              else (stopped (key_mismatch i), t)).1.worm
    by_test true =
        with_key-Keeps a.worm_object_key s (next refs t)
          (Keeps-trans s t.worm (next refs t).1.worm h (later refs t))
    by_test false = h

-- an answer that the loop goes on from to the end
on_append-wrote :
    (i : ℕ) (next : List SegmentObjectRef → Sinks → WriteResult × Sinks) (r : SegmentObjectRef)
    (rest : List SegmentObjectRef) (q : AppendOutcome × Sinks) (keys : List String) (t : Sinks)
    → on_append i next (r ∷ rest) q ≡ (wrote keys, t)
    → (a : Appended) × (u : Sinks) × (later : List String) × (q ≡ (written a, u))
      × (a.worm_object_key ≡ r.worm_object_key)
      × (next rest u ≡ (wrote later, t))
      × (keys ≡ a.worm_object_key ∷ later)
on_append-wrote i next r rest (to_dead_letters item reason, u) keys t e = absurd (cc)
on_append-wrote i next r rest (written a, u) keys t e =
    let (matches, went) = by_test (str_eq a.worm_object_key r.worm_object_key) e in
    let (later, done, same) = with_key-wrote a.worm_object_key (next rest u) keys t went in
    (a, u, later, refl, (eq_iff a.worm_object_key r.worm_object_key).0 matches, done, same)
  where
    with_key-wrote :
        (key : String) (x : WriteResult × Sinks) (all : List String) (v : Sinks)
        → with_key key x ≡ (wrote all, v)
        → (later : List String) × (x ≡ (wrote later, v)) × (all ≡ key ∷ later)
    with_key-wrote key (wrote later, w) all v e = (later, cc, cc)
    with_key-wrote key (stopped f, w) all v e = absurd (cc)
    with_key-wrote key (missing_entry, w) all v e = absurd (cc)

    by_test :
        (b : Bool)
        → (if b then with_key a.worm_object_key (next rest u) else (stopped (key_mismatch i), u))
          ≡ (wrote keys, t)
        → (b ≡ true) × (with_key a.worm_object_key (next rest u) ≡ (wrote keys, t))
    by_test true e = (refl, e)
    by_test false e = absurd (cc)

module _ (d : SealerDeps) (clock : Clock) (segment_id : String) where
  -- from the index `i`, every object is sound for its place, and the store holds its text under the key
  -- of its entry
  abbrev pub AreStored : ℕ → List SegmentObjectRef → List Cce → Store → Type 0
  AreStored i refs [] s = Unit
  AreStored i [] (c ∷ cs) s = ⊥
  AreStored i (r ∷ refs) (c ∷ cs) s =
      ((text : String) × IsSound d.writer c (record { segment_id = segment_id; seq = i }) text
        × (r.worm_object_key ≡ key_of c (record { segment_id = segment_id; seq = i }))
        × Holds s r.worm_object_key (d.encode text))
      × AreStored (suc i) refs cs s

  pub AreStored-Keeps :
      (i : ℕ) (refs : List SegmentObjectRef) (cs : List Cce) (s t : Store)
      → Keeps s t
      → AreStored i refs cs s
      → AreStored i refs cs t
  AreStored-Keeps i refs [] s t k h = tt
  AreStored-Keeps i [] (c ∷ cs) s t k h = h
  AreStored-Keeps i (r ∷ refs) (c ∷ cs) s t k ((text, sound, keyed, held), rest) = (
    (text, sound, keyed, Holds-Keeps s t r.worm_object_key (d.encode text) k held),
    AreStored-Keeps (suc i) refs cs s t k rest,
  )

  pub write_objects-Keeps :
      (i : ℕ) (refs : List SegmentObjectRef) (cs : List Cce) (s : Sinks)
      → Keeps s.worm (write_objects d clock segment_id i refs cs s).1.worm
  unfolding write_objects
  write_objects-Keeps i refs [] s = Keeps-refl s.worm
  write_objects-Keeps i refs (c ∷ cs) s =
      let place : EvidencePlacement = record { segment_id = segment_id; seq = i } in
      on_append-Keeps i (λ rest t. write_objects d clock segment_id (suc i) rest cs t) refs s.worm
        (append d.writer (cce c) place clock s) (λ rest t. write_objects-Keeps (suc i) rest cs t)
        (Keeps-IsKept d.writer (cce c) s (append d.writer (cce c) place clock s)
          (append-IsKept d.writer (cce c) place clock s))

  pub write_objects-wrote :
      (i : ℕ) (refs : List SegmentObjectRef) (cs : List Cce) (s : Sinks) (keys : List String)
      (t : Sinks)
      → length refs ≡ length cs
      → write_objects d clock segment_id i refs cs s ≡ (wrote keys, t)
      → AreStored i refs cs t.worm × (keys ≡ map (λ r. r.worm_object_key) refs) × (t.dlq ≡ s.dlq)
  unfolding write_objects
  write_objects-wrote i [] [] s keys t same e = (tt, cc, cc)
  write_objects-wrote i (r ∷ refs) [] s keys t same e = absurd (omega (arith, same))
  write_objects-wrote i [] (c ∷ cs) s keys t same e = absurd (omega (arith, same))
  write_objects-wrote i (r ∷ refs) (c ∷ cs) s keys t same e =
      let place : EvidencePlacement = record { segment_id = segment_id; seq = i } in
      let (a, u, later, appended, matches, went, all) =
        on_append-wrote i (λ rest t. write_objects d clock segment_id (suc i) rest cs t) r refs
          (append d.writer (cce c) place clock s) keys t e in
      let (text, sound, free, answer, left) =
        written-append d.writer c place clock s a u appended in
      let (stored_later, keys_later, dlq_later) =
        write_objects-wrote (suc i) refs cs u later t (omega (arith, same)) went in
      let keyed : r.worm_object_key ≡ key_of c place =
        sym matches ∙ ap (λ (b : Appended). b.worm_object_key) answer in
      let kept : Keeps u.worm t.worm =
        subst (λ (q : WriteResult × Sinks). Keeps u.worm q.1.worm) went
          (write_objects-Keeps (suc i) refs cs u) in
      let held : Holds u.worm (key_of c place) (d.encode text) =
        subst (λ (v : Sinks). Holds v.worm (key_of c place) (d.encode text)) (sym left)
          (get-set_self _ _ s.worm.objects) in
      (
        (
          (
            text,
            sound,
            keyed,
            Holds-Keeps u.worm t.worm r.worm_object_key (d.encode text) kept
                (subst (λ k. Holds u.worm k (d.encode text)) (sym keyed) held),
          ),
          stored_later,
        ),
        all ∙ ap₂ (λ k ks. k ∷ ks) matches keys_later,
        dlq_later ∙ ap (λ (v : Sinks). v.dlq) left,
      )

pub put_immutable-Keeps :
    (key : String) (bytes : List ℕ) (s : Store) → Keeps s (put_immutable key bytes compliance s).1
put_immutable-Keeps key bytes s = elim (Option-cases (Dict.get key s.objects)) [
  | inl free ↦
      subst (λ (q : Result WormError (Unit {0}) × Store). Keeps s q.1)
        (sym (put_immutable-free key bytes s free)) (Keeps-set s key (born bytes compliance s) free)
  | inr (there, taken) ↦
      subst (λ (q : Result WormError (Unit {0}) × Store). Keeps s q.1)
        (sym (put_immutable-taken key bytes s there taken)) (Keeps-refl s)
]

module _ (d : SealerDeps) (clock : Clock) (key : String) where
  pub put_manifest-Keeps :
      (r : Result CanonicalError String) (s : Store) → Keeps s (put_manifest d clock key r s).1
  unfolding put_manifest
  put_manifest-Keeps (err e) s = Keeps-refl s
  put_manifest-Keeps (ok text) s = put_immutable-Keeps key (d.encode text) s

  -- a manifest that was written is in the store
  pub put_manifest-true :
      (r : Result CanonicalError String) (s t : Store)
      → put_manifest d clock key r s ≡ (true, t)
      → (text : String) × (r ≡ ok text) × Holds t key (d.encode text)
  unfolding put_manifest
  put_manifest-true (err e) s t h = absurd (cc)
  put_manifest-true (ok text) s t h = elim (Option-cases (Dict.get key s.objects)) [
    | inl free ↦
        let put = put_immutable-free key (d.encode text) s free in
        let left : record s { objects = Dict.set key (born (d.encode text) compliance s) s.objects }
            ≡ t =
          cc (put, h) in
        (
          text,
          refl,
          subst (λ (v : Store). Holds v key (d.encode text)) left (get-set_self _ _ s.objects),
        )
    | inr (there, taken) ↦ absurd (cc (put_immutable-taken key (d.encode text) s there taken, h))
  ]

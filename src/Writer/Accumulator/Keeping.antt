-- ===== src/Writer/Accumulator/Keeping.antt =====
-- What it is for calls to keep every object: nothing is lost or held twice, and what is sealed is ready.
use external_database_audit.Base.{
  ℕ, ◌+◌, ◌≤◌, ◌<◌, ◌≡◌, ◌∙◌, refl, ap, sym, subst, inl, inr, String, Bool, true, false, some, List,
  [], ◌∷◌, ◌++◌, str_eq, eq_iff, if◌then◌else◌, arith, Bool-cases,
}
use external_database_audit.Base.Dict
use external_database_audit.Base.Dict.{Dict, get-set, get-delete}
use external_database_audit.Base.Lists.{length, All, All-append}
use external_database_audit.Base.Platform.{Platform}
use external_database_audit.Base.Result.{ok, >>=-eq-ok}
use external_database_audit.Cce.{Cce}
use external_database_audit.Writer.Establish.Consistent.{IsPrepared}
use external_database_audit.Writer.Sealing.{OpenSegment, SealReady, SealTrigger, count}
use external_database_audit.Writer.Accumulator.{Accumulator, next_of, seal, seal_then, Called}
use external_database_audit.Writer.Accumulator.Shape.{total, total-delete, IsSound}
use external_database_audit.Writer.Accumulator.Takes.{
  Takes, seal-Takes, Takes-IsSound, next_of-Takes,
}

abbrev pub count_sealed : (Cce → Bool) → List SealReady → ℕ
count_sealed p [] = 0
count_sealed p (s ∷ ss) = count p s.input.objects + count_sealed p ss

-- prepared for the sealer, and no larger than the cap
abbrev pub IsReady : ℕ → SealReady → Type 0
IsReady limit s = IsPrepared s.input × (s.input.event_count ≤ limit)

-- the segments of a database bear the numbers from the first on, up to the second
abbrev pub Numbered : String → ℕ → ℕ → List SealReady → Type 0
Numbered db n m [] = n ≡ m
Numbered db n m (s ∷ ss) =
    let here = (s.input.segment_sequence ≡ n) × Numbered db (n + 1) m ss in
    let elsewhere = Numbered db n m ss in if str_eq s.input.db_id db then here else elsewhere

Numbered-append :
    (db : String) (n m k : ℕ) (ss ts : List SealReady)
    → Numbered db n m ss
    → Numbered db m k ts
    → Numbered db n k (ss ++ ts)
Numbered-append db n m k [] ts e h = subst (λ x. Numbered db x k ts) (sym e) h
Numbered-append db n m k (s ∷ ss) ts g h =
    elim (str_eq s.input.db_id db)
        as (λ b.
          (if b
            then ((s.input.segment_sequence ≡ n) × Numbered db (n + 1) m ss)
            else Numbered db n m ss)
          → (if b
              then ((s.input.segment_sequence ≡ n) × Numbered db (n + 1) k (ss ++ ts))
              else Numbered db n k (ss ++ ts))) [
                | true ↦ λ (e, r). (e, Numbered-append db (n + 1) m k ss ts r h)
                | false ↦ λ r. Numbered-append db n m k ss ts r h
              ]
      g

-- what some calls do, that admit the extra objects
pub record Keeps (limit : ℕ) (extra : List Cce) (acc left : Accumulator) (out : List SealReady)
    : Type 0 where
  pub conserved :
      (p : Cce → Bool)
      → total p left.opened + count_sealed p out ≡ total p acc.opened + count p extra
  pub ready : All (IsReady limit) out
  pub numbered : (db : String) → Numbered db (next_of db acc) (next_of db left) out

count_sealed-append :
    (p : Cce → Bool) (ss ts : List SealReady)
    → count_sealed p (ss ++ ts) ≡ count_sealed p ss + count_sealed p ts
count_sealed-append p [] ts = omega arith
count_sealed-append p (s ∷ ss) ts = omega (arith, count_sealed-append p ss ts)

pub count-append :
    (p : Cce → Bool) (cs ds : List Cce) → count p (cs ++ ds) ≡ count p cs + count p ds
count-append p [] ds = omega arith
count-append p (c ∷ cs) ds = omega (arith, count-append p cs ds)

pub Keeps-append :
    (limit : ℕ) (xs ys : List Cce) (a b c : Accumulator) (ss ts : List SealReady)
    → Keeps limit xs a b ss
    → Keeps limit ys b c ts
    → Keeps limit (xs ++ ys) a c (ss ++ ts)
Keeps-append limit xs ys a b c ss ts f g = record {
  conserved = λ p.
      omega
        (arith, count_sealed-append p ss ts, count-append p xs ys, f.conserved p, g.conserved p);
  ready = All-append (IsReady limit) ss ts f.ready g.ready;
  numbered = λ db.
      Numbered-append db (next_of db a) (next_of db b) (next_of db c) ss ts (f.numbered db)
        (g.numbered db);
}

Keeps-none : (limit : ℕ) (a : Accumulator) → Keeps limit [] a a []
Keeps-none limit a = record { conserved = λ p. refl; ready = tt; numbered = λ db. refl }

Numbered-one :
    (db : String) (n m : ℕ) (s : SealReady)
    → (str_eq s.input.db_id db ≡ true → (s.input.segment_sequence ≡ n) × (n + 1 ≡ m))
    → (str_eq s.input.db_id db ≡ false → n ≡ m)
    → Numbered db n m (s ∷ [])
Numbered-one db n m s here elsewhere =
    elim (str_eq s.input.db_id db)
        as (λ b.
          str_eq s.input.db_id db ≡ b
          → (if b then ((s.input.segment_sequence ≡ n) × (n + 1 ≡ m)) else (n ≡ m))) [
            | true ↦ here
            | false ↦ elsewhere
          ]
      refl

pub Takes-Keeps :
    (limit : ℕ) (seg : OpenSegment) (acc left : Accumulator) (s : SealReady)
    → Takes seg acc left s
    → IsSound acc
    → Dict.get seg.db_id acc.opened ≡ some seg
    → length seg.objects ≤ limit
    → Keeps limit [] acc left (s ∷ [])
Takes-Keeps limit seg acc left s t sound held small = record {
  conserved = λ p. ground (
    arith,
    t.objects p,
    total-delete p seg.db_id acc.opened sound.distinct,
    ap (total p) t.opened,
  );
  ready = ((t.prepared, omega (arith, t.counted)), tt);
  numbered = λ db.
      Numbered-one db (next_of db acc) (next_of db left) s
        (λ e.
          let k : seg.db_id ≡ db = sym t.db_id ∙ (eq_iff s.input.db_id db).0 e in
          let n : seg.segment_sequence ≡ next_of db acc =
            sound.numbered seg.db_id seg held ∙ ap (λ x. next_of x acc) k in
          (
            t.sequence ∙ n,
            ground (arith, n, next_of-Takes seg acc left s db t, eq_iff seg.db_id db),
          ))
        (λ e. ground (
          arith,
          t.db_id,
          next_of-Takes seg acc left s db t,
          eq_iff seg.db_id db,
          eq_iff s.input.db_id db,
        ));
}

-- every open segment has objects, and fewer than the cap
abbrev pub Fits : ℕ → Accumulator → Type 0
Fits limit acc =
    (k : String) (s : OpenSegment)
    → Dict.get k acc.opened ≡ some s
    → (0 < length s.objects) × (length s.objects < limit)

pub Takes-Fits :
    (limit : ℕ) (seg : OpenSegment) (acc left : Accumulator) (s : SealReady)
    → Takes seg acc left s
    → ((k : String) (u : OpenSegment)
        → str_eq seg.db_id k ≡ false
        → Dict.get k acc.opened ≡ some u
        → (0 < length u.objects) × (length u.objects < limit))
    → Fits limit left
Takes-Fits limit seg acc left s t others k u held = elim (Bool-cases (str_eq seg.db_id k)) [
  | inl same ↦ absurd (ground (arith, get-delete seg.db_id k acc.opened, ap (Dict.get k) t.opened))
  | inr other ↦
      others k u other (ground (arith, get-delete seg.db_id k acc.opened, ap (Dict.get k) t.opened))
]

-- some calls that keep the invariant and every object
pub record IsKeeping (limit : ℕ) (extra : List Cce) (acc left : Accumulator) (out : List SealReady)
    : Type 0 where
  pub sound : IsSound left
  pub fits : Fits limit left
  pub keeps : Keeps limit extra acc left out

pub IsKeeping-append :
    (limit : ℕ) (xs ys : List Cce) (a b c : Accumulator) (ss ts : List SealReady)
    → IsKeeping limit xs a b ss
    → IsKeeping limit ys b c ts
    → IsKeeping limit (xs ++ ys) a c (ss ++ ts)
IsKeeping-append limit xs ys a b c ss ts f g = record {
  sound = g.sound;
  fits = g.fits;
  keeps = Keeps-append limit xs ys a b c ss ts f.keeps g.keeps;
}

pub IsKeeping-none :
    (limit : ℕ) (a : Accumulator) → IsSound a → Fits limit a → IsKeeping limit [] a a []
IsKeeping-none limit a sound fits = record {
  sound = sound;
  fits = fits;
  keeps = Keeps-none limit a;
}

-- calls that leave everything as it is
pub IsKeeping-idle :
    (limit : ℕ) (acc left : Accumulator) (out : List SealReady)
    → IsSound acc
    → Fits limit acc
    → ◌≡◌ {A = Called} (ok (acc, [])) (ok (left, out))
    → IsKeeping limit [] acc left out
IsKeeping-idle limit acc left out sound fits done =
    let same_left : acc ≡ left = cc in
    let same_out : [] ≡ out = cc in
    subst (λ a. IsKeeping limit [] acc a out) same_left
      (subst (IsKeeping limit [] acc acc) same_out (IsKeeping-none limit acc sound fits))

-- a segment is sealed, and then more is
pub seal_then-parts :
    (js : Platform) (seg : OpenSegment) (trigger : SealTrigger) (closed_at : String)
    (acc last : Accumulator) (out : List SealReady) (next : Accumulator → Called)
    → seal_then js seg trigger closed_at acc next ≡ ok (last, out)
    → (left : Accumulator) × (s : SealReady) × (more : List SealReady) × Takes seg acc left s
      × (next left ≡ ok (last, more))
      × (s ∷ more ≡ out)
unfolding seal_then
seal_then-parts js seg trigger closed_at acc last out next done =
    let ((left, s), sealed, e) = >>=-eq-ok (seal js seg trigger closed_at acc) _ done in
    let ((end, more), continued, f) = >>=-eq-ok (next left) _ e in
    let g : end ≡ last = cc in
    (
      left,
      s,
      more,
      seal-Takes js seg trigger closed_at acc left s sealed,
      continued ∙ ap (λ (a : Accumulator). ok (a, more)) g,
      cc,
    )

-- an open segment is sealed, and what follows keeps every object too
pub seal_then-IsKeeping :
    (js : Platform) (limit : ℕ) (seg : OpenSegment) (trigger : SealTrigger) (closed_at : String)
    (extra : List Cce) (acc last : Accumulator) (out : List SealReady) (next : Accumulator → Called)
    → IsSound acc
    → Fits limit acc
    → Dict.get seg.db_id acc.opened ≡ some seg
    → seal_then js seg trigger closed_at acc next ≡ ok (last, out)
    → ((left : Accumulator) (s : SealReady) (more : List SealReady)
        → Takes seg acc left s
        → IsSound left
        → Fits limit left
        → next left ≡ ok (last, more)
        → IsKeeping limit extra left last more)
    → IsKeeping limit extra acc last out
seal_then-IsKeeping js limit seg trigger closed_at extra acc last out next sound fits held done
      follows =
    let (left, s, more, t, continued, same) =
      seal_then-parts js seg trigger closed_at acc last out next done in
    let still = Takes-IsSound seg acc left s t sound in
    let small = Takes-Fits limit seg acc left s t (λ k u other h. fits k u h) in
    let taken : IsKeeping limit [] acc left (s ∷ []) = record {
      sound = still;
      fits = small;
      keeps =
          Takes-Keeps limit seg acc left s t sound held
            (omega (arith, (fits seg.db_id seg held).1));
    } in
    subst (IsKeeping limit extra acc last) same (
      IsKeeping-append limit [] extra acc left last (s ∷ []) more taken
        (follows left s more t still small continued))

-- ===== src/Writer/Accumulator/Adding.antt =====
-- Adding an object keeps it, in a segment that is open or sealed.
use external_database_audit.Base.{
  ℕ, ◌+◌, ◌<◌, ◌≡◌, ◌∙◌, refl, ap, subst, inl, inr, String, Bool, false, Option, none, some, List,
  [], ◌∷◌, ◌++◌, leb, str_eq, eq_iff, if◌then◌else◌, arith, if-cases,
}
use external_database_audit.Base.Dict
use external_database_audit.Base.Dict.{Dict, get-set, get-delete}
use external_database_audit.Base.Lists.{length, length-append}
use external_database_audit.Base.Platform.{Platform}
use external_database_audit.Base.Result.{ok, err}
use external_database_audit.Cce.{Cce}
use external_database_audit.Writer.Sealing.{
  OpenSegment, SealReady, event_count_cap, time_cap, count,
}
use external_database_audit.Writer.Accumulator.{
  Accumulator, SegmentCaps, next_of, Called, overdue, open_segment, put_in, put_found, admit, add,
}
use external_database_audit.Writer.Accumulator.Shape.{IsMap-set, count_at, total-set, IsSound}
use external_database_audit.Writer.Accumulator.Takes.{Takes, Takes-IsSound}
use external_database_audit.Writer.Accumulator.Keeping.{
  Keeps, Keeps-append, count-append, Takes-Keeps, Takes-Fits, Fits, IsKeeping, IsKeeping-idle,
  seal_then-parts, seal_then-IsKeeping,
}

-- the object, if it is admitted
abbrev pub admitted : Cce → List Cce
admitted o = elim (admit o) [ err rejected ↦ [] | ok u ↦ o ∷ [] ]

-- a segment to which an object of a database may be put
pub record HasRoom (limit : ℕ) (db : String) (seg : OpenSegment) (acc : Accumulator) : Type 0 where
  pub db_id : seg.db_id ≡ db
  pub sequence : seg.segment_sequence ≡ next_of db acc
  pub small : length seg.objects < limit
  pub current : (p : Cce → Bool) → count_at p (Dict.get db acc.opened) ≡ count p seg.objects

abbrev filled : Cce → OpenSegment → OpenSegment
filled o seg = record seg { objects = seg.objects ++ o ∷ [] }

abbrev holding : Cce → OpenSegment → Accumulator → Accumulator
holding o seg acc = record acc { opened = Dict.set o.source.db_id (filled o seg) acc.opened }

get-holding :
    (o : Cce) (seg : OpenSegment) (acc : Accumulator) (k : String)
    → Dict.get k (holding o seg acc).opened
      ≡ (if str_eq o.source.db_id k then some (filled o seg) else Dict.get k acc.opened)
get-holding o seg acc k = get-set o.source.db_id k (filled o seg) acc.opened

module _ (limit : ℕ) (o : Cce) (seg : OpenSegment) (acc : Accumulator) (sound : IsSound acc)
    (fits : Fits limit acc) (open_in : HasRoom limit o.source.db_id seg acc) where
  holding-IsSound : IsSound (holding o seg acc)
  holding-IsSound = record {
    distinct = IsMap-set o.source.db_id (filled o seg) acc.opened sound.distinct;
    keyed = λ k u held.
        ground
          (arith, eq_iff o.source.db_id k, get-holding o seg acc k, sound.keyed k u, open_in.db_id);
    numbered = λ k u held. ground (
      arith,
      eq_iff o.source.db_id k,
      get-holding o seg acc k,
      sound.numbered k u,
      open_in.sequence,
    );
  }

  holding-Keeps : Keeps limit (o ∷ []) acc (holding o seg acc) []
  holding-Keeps = record {
    conserved = λ p. omega (
      arith,
      total-set p o.source.db_id (filled o seg) acc.opened,
      open_in.current p,
      count-append p seg.objects (o ∷ []),
    );
    ready = tt;
    numbered = λ db. refl;
  }

  length-filled : length (filled o seg).objects ≡ length seg.objects + 1
  length-filled = length-append seg.objects (o ∷ [])

  holding-IsKeeping :
      leb limit (length (filled o seg).objects) ≡ false
      → IsKeeping limit (o ∷ []) acc (holding o seg acc) []
  holding-IsKeeping room = record {
    sound = holding-IsSound;
    fits = λ k u held.
        ground (arith, eq_iff o.source.db_id k, get-holding o seg acc k, fits k u, length-filled);
    keeps = holding-Keeps;
  }

  full-IsKeeping :
      (left : Accumulator) (s : SealReady)
      → Takes (filled o seg) (holding o seg acc) left s
      → IsKeeping limit (o ∷ []) acc left (s ∷ [])
  full-IsKeeping left s t = record {
    sound = Takes-IsSound (filled o seg) (holding o seg acc) left s t holding-IsSound;
    fits =
        Takes-Fits limit (filled o seg) (holding o seg acc) left s t
          (λ k u other held. fits k u (ground (arith, get-holding o seg acc k, open_in.db_id)));
    keeps = Keeps-append limit (o ∷ []) [] acc (holding o seg acc) left [] (s ∷ []) holding-Keeps (
        Takes-Keeps limit (filled o seg) (holding o seg acc) left s t holding-IsSound
          (ground (
            arith,
            eq_iff o.source.db_id seg.db_id,
            get-holding o seg acc seg.db_id,
            open_in.db_id,
          ))
          (omega (arith, open_in.small, length-filled)));
  }

module _ (js : Platform) (caps : SegmentCaps) where
  put_in-IsKeeping :
      (o : Cce) (closed : String) (seg : OpenSegment) (acc left : Accumulator)
      (out : List SealReady)
      → IsSound acc
      → Fits caps.max_events acc
      → HasRoom caps.max_events o.source.db_id seg acc
      → put_in js caps o closed seg acc ≡ ok (left, out)
      → IsKeeping caps.max_events (o ∷ []) acc left out
  unfolding put_in
  put_in-IsKeeping o closed seg acc left out sound fits room done =
      let limit = caps.max_events in
      elim (if-cases (leb limit (length (filled o seg).objects)) _ _ done) [
        | inl (full, sealed) ↦
            let (gone, s, more, t, e, same) =
              seal_then-parts js (filled o seg) event_count_cap closed (holding o seg acc) left out
                (λ a. ok (a, [])) sealed in
            let f : gone ≡ left = cc in
            let g : s ∷ [] ≡ out = cc in
            subst (λ a. IsKeeping limit (o ∷ []) acc a out) f
              (subst (IsKeeping limit (o ∷ []) acc gone) g
                (full-IsKeeping limit o seg acc sound fits room gone s t))
        | inr (space, put) ↦
            let f : holding o seg acc ≡ left = cc in
            let g : [] ≡ out = cc in
            subst (λ a. IsKeeping limit (o ∷ []) acc a out) f
              (subst (IsKeeping limit (o ∷ []) acc (holding o seg acc)) g
                (holding-IsKeeping limit o seg acc sound fits room space))
      ]

  -- a new segment has room, where none is open
  HasRoom-open_segment :
      (db engine now : String) (acc : Accumulator)
      → 0 < caps.max_events
      → Dict.get db acc.opened ≡ none
      → HasRoom caps.max_events db (open_segment js caps db engine now acc) acc
  unfolding open_segment
  HasRoom-open_segment db engine now acc pos free = record {
    db_id = refl;
    sequence = refl;
    small = pos;
    current = λ p. ap (count_at p) free;
  }

  put_found-IsKeeping :
      (o : Cce) (now closed : String) (found : Option OpenSegment) (acc left : Accumulator)
      (out : List SealReady)
      → 0 < caps.max_events
      → IsSound acc
      → Fits caps.max_events acc
      → Dict.get o.source.db_id acc.opened ≡ found
      → put_found js caps o now closed found acc ≡ ok (left, out)
      → IsKeeping caps.max_events (o ∷ []) acc left out
  unfolding put_found
  put_found-IsKeeping o now closed none acc left out pos sound fits free done =
      put_in-IsKeeping o closed (open_segment js caps o.source.db_id o.source.engine now acc) acc
        left out sound fits (HasRoom-open_segment o.source.db_id o.source.engine now acc pos free)
        done
  put_found-IsKeeping o now closed (some seg) acc left out pos sound fits held done =
      let db = o.source.db_id in
      let named = sound.keyed db seg held in
      elim (if-cases (overdue js caps seg now) _ _ done) [
        | inl (late, sealed) ↦
            seal_then-IsKeeping js caps.max_events seg time_cap now (o ∷ []) acc left out
              (λ a. put_in js caps o closed (open_segment js caps db o.source.engine now a) a) sound
              fits (ap (λ k. Dict.get k acc.opened) named ∙ held) sealed
              (λ a s more t still small put.
                put_in-IsKeeping o closed (open_segment js caps db o.source.engine now a) a left
                  more still small
                  (HasRoom-open_segment db o.source.engine now a pos (
                    ground (
                      arith,
                      eq_iff seg.db_id db,
                      get-delete seg.db_id db acc.opened,
                      ap (Dict.get db) t.opened,
                    )))
                  put)
        | inr (young, put) ↦
            put_in-IsKeeping o closed seg acc left out sound fits
              (record {
                db_id = named;
                sequence = sound.numbered db seg held;
                small = (fits db seg held).1;
                current = λ p. ap (count_at p) held;
              })
              put
      ]

  pub add-IsKeeping :
      (o : Cce) (now closed : String) (acc left : Accumulator) (out : List SealReady)
      → 0 < caps.max_events
      → IsSound acc
      → Fits caps.max_events acc
      → add js caps o now closed acc ≡ ok (left, out)
      → IsKeeping caps.max_events (admitted o) acc left out
  unfolding add
  add-IsKeeping o now closed acc left out pos sound fits done =
      let limit = caps.max_events in
      elim (admit o)
          as (λ r.
            elim r as (λ _. Called) [
              | err rejected ↦ ok (acc, [])
              | ok u ↦ put_found js caps o now closed (Dict.get o.source.db_id acc.opened) acc
            ]
              ≡ ok (left, out)
            → IsKeeping limit (elim r as (λ _. List Cce) [ err rejected ↦ [] | ok u ↦ o ∷ [] ]) acc
                left out) [
                  | err rejected ↦ IsKeeping-idle limit acc left out sound fits
                  | ok u ↦
                      put_found-IsKeeping o now closed (Dict.get o.source.db_id acc.opened) acc left
                        out pos sound fits refl
                ]
        done

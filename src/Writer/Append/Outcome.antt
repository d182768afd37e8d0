-- ===== src/Writer/Append/Outcome.antt =====
-- What an append leaves behind, and when it writes.
use external_database_audit.Base.{
  ℕ, String, ◌≡◌, ◌∙◌, refl, sym, ap, subst, none, some, List, [], arith, inl, inr, Option-cases,
}
use external_database_audit.Base.Dict
use external_database_audit.Base.Dict.{get-set_self}
use external_database_audit.Base.Result.{Result, ok, err, Result-cases}
use external_database_audit.Canonical.Json.{serialize_canonical}
use external_database_audit.Cce.{Cce}
use external_database_audit.Dlq.{record_failure, item_for}
use external_database_audit.Worm.{
  Store, StoredObject, already_exists, born, compliance, put_immutable,
}
use external_database_audit.Writer.Append.{
  AppendableObject, cce, EvidencePlacement, WriterDeps, Sinks, object_json, Refused, Ready, Clock,
  Appended, AppendOutcome, written, to_dead_letters, prepare, to_dlq, write_ready, append_prepared,
  append,
}
use external_database_audit.Writer.Append.Sound.{
  key_of, IsSound, ready_for, written_for, stored, IsSound-prepare, prepare_sound, prepare-text,
}

pub put_immutable-free :
    (key : String) (bytes : List ℕ) (s : Store)
    → Dict.get key s.objects ≡ none
    → put_immutable key bytes compliance s
      ≡ (ok tt, record s { objects = Dict.set key (born bytes compliance s) s.objects })
unfolding put_immutable
put_immutable-free key bytes s free = ground (arith, free)

pub put_immutable-taken :
    (key : String) (bytes : List ℕ) (s : Store) (there : StoredObject)
    → Dict.get key s.objects ≡ some there
    → put_immutable key bytes compliance s ≡ (err already_exists, s)
unfolding put_immutable
put_immutable-taken key bytes s there taken = ground (arith, taken)

-- what an append did with an object
abbrev pub IsKept : WriterDeps → AppendableObject → Sinks → AppendOutcome × Sinks → Type 0
IsKept d o s (written a, t) =
    (Dict.get a.worm_object_key s.worm.objects ≡ none)
    × ((text : String) × (serialize_canonical d.js a.object ≡ ok text)
        × (t ≡ record s {
          worm = record s.worm {
            objects =
                Dict.set a.worm_object_key (born (d.encode text) compliance s.worm) s.worm.objects;
          };
        }))
IsKept d o s (to_dead_letters item reason, t) =
    (Dict.get item.event_id t.dlq.rows ≡ some item)
    × (item.original_payload ≡ object_json o [])
    × (t.worm ≡ s.worm)

module _ (d : WriterDeps) (o : AppendableObject) (clock : Clock) where
  to_dlq-IsKept :
      (f : Refused) (s t : Sinks) → s.worm ≡ t.worm → IsKept d o t (to_dlq d o f clock s)
  unfolding to_dlq record_failure item_for
  to_dlq-IsKept f s t same = (get-set_self _ _ s.dlq.rows, refl, same)

  write_free-IsKept :
      (place : EvidencePlacement) (r : Ready) (text : String) (s : Sinks)
      → serialize_canonical d.js r.to_write ≡ ok text
      → r.bytes ≡ d.encode text
      → Dict.get r.worm_object_key s.worm.objects ≡ none
      → IsKept d o s (
          write_ready d o place r clock
            (
              ok tt,
              record s.worm {
                objects =
                    Dict.set r.worm_object_key (born r.bytes compliance s.worm) s.worm.objects;
              },
            )
            s)
  unfolding write_ready
  write_free-IsKept place r text s serializes encoded free = (
    free,
    (
      text,
      serializes,
      ap
          (λ (bytes : List ℕ). record s {
            worm = record s.worm {
              objects = Dict.set r.worm_object_key (born bytes compliance s.worm) s.worm.objects;
            };
          })
          encoded,
    ),
  )

  write_taken-IsKept :
      (place : EvidencePlacement) (r : Ready) (s : Sinks)
      → IsKept d o s (write_ready d o place r clock (err already_exists, s.worm) s)
  unfolding write_ready
  write_taken-IsKept place r s = to_dlq-IsKept _ _ s refl

  write_ready-IsKept :
      (place : EvidencePlacement) (r : Ready) (text : String) (s : Sinks)
      → serialize_canonical d.js r.to_write ≡ ok text
      → r.bytes ≡ d.encode text
      → IsKept d o s (
          write_ready d o place r clock
            (put_immutable r.worm_object_key r.bytes compliance s.worm)
            s)
  write_ready-IsKept place r text s serializes encoded =
      elim (Option-cases (Dict.get r.worm_object_key s.worm.objects)) [
        | inl free ↦
            subst (λ q. IsKept d o s (write_ready d o place r clock q s))
              (sym (put_immutable-free r.worm_object_key r.bytes s.worm free))
              (write_free-IsKept place r text s serializes encoded free)
        | inr (there, taken) ↦
            subst (λ q. IsKept d o s (write_ready d o place r clock q s))
              (sym (put_immutable-taken r.worm_object_key r.bytes s.worm there taken))
              (write_taken-IsKept place r s)
      ]

  appended_from :
      (place : EvidencePlacement) (s : Sinks) (p : Result Refused Ready)
      → prepare d o place ≡ p
      → IsKept d o s (append_prepared d o place clock s p)
  unfolding append_prepared
  appended_from place s (err f) e = to_dlq-IsKept f s s refl
  appended_from place s (ok r) e =
      let (text, serializes, encoded) = prepare-text d o place r e in
      write_ready-IsKept place r text s serializes encoded

-- Nothing is lost: an object that an append answers as written is in the store under the key of the
-- answer, which was free, with the bytes of the canonical text of what was written, and nothing else
-- has changed; an object that it does not answer as written is in the queue as it came, under the
-- identity of the item of the answer, and the store has not changed.
pub append-IsKept :
    (d : WriterDeps) (o : AppendableObject) (place : EvidencePlacement) (clock : Clock) (s : Sinks)
    → IsKept d o s (append d o place clock s)
unfolding append
append-IsKept d o place clock s = appended_from d o clock place s (prepare d o place) refl

-- An append of an event answers that it was written when the event is sound for its place and the key
-- of the place is free.
pub append_sound :
    (d : WriterDeps) (c : Cce) (place : EvidencePlacement) (clock : Clock) (s : Sinks)
    (text : String)
    → IsSound d c place text
    → Dict.get (key_of c place) s.worm.objects ≡ none
    → append d (cce c) place clock s ≡ (written (written_for d c place), stored d c place text s)
unfolding append append_prepared write_ready
append_sound d c place clock s text sound free =
    ap (append_prepared d (cce c) place clock s) (prepare_sound d c place text sound)
    ∙ ap (λ q. write_ready d (cce c) place (ready_for d c place text) clock q s)
        (put_immutable-free (key_of c place) (d.encode text) s.worm free)

module _ (d : WriterDeps) (c : Cce) (place : EvidencePlacement) (clock : Clock) (s : Sinks)
    (a : Appended) (t : Sinks) where
  -- the event is sound for its place, the key of the place is free, and the answer and what is left are
  -- those of the write
  abbrev pub IsWritten : Type 0
  IsWritten =
      (text : String) × IsSound d c place text
      × (Dict.get (key_of c place) s.worm.objects ≡ none)
      × (a ≡ written_for d c place)
      × (t ≡ stored d c place text s)

  not_dead :
      (o : AppendableObject) (f : Refused) (u : Sinks) → to_dlq d o f clock u ≡ (written a, t) → ⊥
  unfolding to_dlq
  not_dead o f u e = cc

  not_refused :
      (f : Refused)
      → prepare d (cce c) place ≡ err f
      → append d (cce c) place clock s ≡ (written a, t)
      → ⊥
  unfolding append append_prepared
  not_refused f refused e =
      not_dead (cce c) f s (sym (ap (append_prepared d (cce c) place clock s) refused) ∙ e)

  not_taken :
      (r : Ready) (there : StoredObject)
      → prepare d (cce c) place ≡ ok r
      → Dict.get r.worm_object_key s.worm.objects ≡ some there
      → append d (cce c) place clock s ≡ (written a, t)
      → ⊥
  unfolding append append_prepared write_ready
  not_taken r there prepared taken e = not_dead (cce c) _ _ (
      sym (
        ap (append_prepared d (cce c) place clock s) prepared
        ∙ ap (λ q. write_ready d (cce c) place r clock q s)
            (put_immutable-taken r.worm_object_key r.bytes s.worm there taken))
      ∙ e)

  written-prepared :
      (r : Ready)
      → prepare d (cce c) place ≡ ok r
      → append d (cce c) place clock s ≡ (written a, t)
      → IsWritten
  written-prepared r prepared e =
      let (text, sound, same) = IsSound-prepare d c place r prepared in
      elim (Option-cases (Dict.get (key_of c place) s.worm.objects)) [
        | inl free ↦
            let wrote = sym (append_sound d c place clock s text sound free) ∙ e in
            (text, sound, free, cc wrote, cc wrote)
        | inr (there, taken) ↦
            absurd (not_taken (ready_for d c place text) there (prepared ∙ ap ok same) taken e)
      ]

  -- an event that is answered as written was written
  pub written-append : append d (cce c) place clock s ≡ (written a, t) → IsWritten
  written-append e = elim (Result-cases (prepare d (cce c) place)) [
    | inl (f, refused) ↦ absurd (not_refused f refused e)
    | inr (r, prepared) ↦ written-prepared r prepared e
  ]

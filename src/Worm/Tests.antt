-- ===== src/Worm/Tests.antt =====
-- Runs of the store, and the theorems at them.
use external_database_audit.Base.{
  ℕ, String, ◌≡◌, refl, Bool, true, false, Option, none, some, List, [], ◌∷◌, ◌≤◌, arith, str_eq,
  if◌then◌else◌, inr,
}
use external_database_audit.Base.Dict
use external_database_audit.Base.Result.{ok, err}
use external_database_audit.Worm
use external_database_audit.Worm.{
  ObjectLock, StoredObject, WormError, already_exists, under_legal_hold, within_retention, Store,
  born, compliance, Call, put, read, inspect, extend, place_hold, lift_hold, delete, put_immutable,
  delete_expired, extend_retention, perform, run,
}
use external_database_audit.Worm.Keeping.{Kept}
use external_database_audit.Worm.Retention.{
  IsPermanent, IsHeld, RetainsUntil, IsPermanent-survives, IsHeld-survives, retained_survives,
}
use external_database_audit.Worm.Writing.{
  unprivileged_append_only, delete_expired-ok_iff, put_immutable-get,
}

-- two dates
abbrev date_parse : String → Option ℕ
date_parse s =
    if str_eq s "2026-01-01" then some 100 else if str_eq s "2027-01-01" then some 200 else none

abbrev lock_until : Option String → Bool → ObjectLock
lock_until until hold = record {
  retention_mode = compliance;
  retain_until = until;
  legal_hold = hold;
}

abbrev object : Option String → Bool → StoredObject
object until hold = record { bytes = 1 ∷ 2 ∷ []; lock = lock_until until hold }

abbrev store : Option String → Bool → Store
store until hold = record { objects = ("a", object until hold) ∷ []; default_retain_until = none }

abbrev attacks : List Call
attacks = put "a" (9 ∷ []) ∷ extend "a" "2027-01-01" ∷ delete "a" "2027-01-01" ∷ []

overwrite_throws :
    put_immutable "a" (9 ∷ []) compliance (store none false)
    ≡ (err already_exists, store none false)
unfolding put_immutable Dict.get
overwrite_throws = refl

early_delete_throws :
    (delete_expired date_parse "a" "2026-01-01" (store (some "2027-01-01") false)).0
    ≡ err within_retention
unfolding delete_expired Worm.expired Worm.ms Dict.get
early_delete_throws = refl

held_delete_throws :
    (delete_expired date_parse "a" "2027-01-01" (store (some "2026-01-01") true)).0
    ≡ err under_legal_hold
unfolding delete_expired Worm.expired Worm.ms Dict.get
held_delete_throws = refl

late_delete :
    (delete_expired date_parse "a" "2027-01-01" (store (some "2026-01-01") false)).1.objects ≡ []
unfolding delete_expired Worm.expired Worm.ms Dict.get Dict.delete
late_delete = refl

IsPermanent-survives_example :
    Kept
      (1 ∷ 2 ∷ [])
      IsPermanent
      (Dict.get "a" (run date_parse (lift_hold "a" ∷ attacks) (store none false)).objects)
unfolding Dict.get
IsPermanent-survives_example =
    IsPermanent-survives date_parse "a" (1 ∷ 2 ∷ []) (store none false) (lift_hold "a" ∷ attacks)
      (refl, refl)

IsHeld-survives_example :
    Kept
      (1 ∷ 2 ∷ [])
      IsHeld
      (Dict.get "a" (run date_parse attacks (store (some "2026-01-01") true)).objects)
unfolding Dict.get
IsHeld-survives_example =
    IsHeld-survives date_parse "a" (1 ∷ 2 ∷ []) (store (some "2026-01-01") true) attacks
      (tt, (tt, (tt, tt))) (refl, refl)

retained_survives_example :
    Kept
      (1 ∷ 2 ∷ [])
      (λ lock. RetainsUntil date_parse 150 lock.retain_until)
      (Dict.get "a"
        (run date_parse
          (lift_hold "a" ∷ delete "a" "2026-01-01" ∷ [])
          (store (some "2027-01-01") false)).objects)
unfolding Dict.get
retained_survives_example =
    retained_survives date_parse 150 "a" (1 ∷ 2 ∷ []) (store (some "2027-01-01") false)
      (lift_hold "a" ∷ delete "a" "2026-01-01" ∷ []) (tt, (inr (omega arith), tt))
      (refl, omega arith)

unprivileged_append_only_example :
    Dict.get "a"
      (run date_parse (put "a" (9 ∷ []) ∷ put "b" [] ∷ read "a" ∷ []) (store none false)).objects
    ≡ some (object none false)
unfolding Dict.get
unprivileged_append_only_example =
    unprivileged_append_only date_parse "a" (object none false)
      (put "a" (9 ∷ []) ∷ put "b" [] ∷ read "a" ∷ []) (store none false) (tt, (tt, (tt, tt))) refl

put_immutable-get_example :
    ((put_immutable "b" (7 ∷ []) compliance (store none false)).0 ≡ ok tt)
    × ((Worm.get "b" (
          run date_parse
            (put "b" (9 ∷ []) ∷ inspect "a" ∷ [])
            (put_immutable "b" (7 ∷ []) compliance (store none false)).1)).0
        ≡ ok (7 ∷ []))
unfolding Dict.get
put_immutable-get_example =
    put_immutable-get date_parse "b" (7 ∷ []) (put "b" (9 ∷ []) ∷ inspect "a" ∷ [])
      (store none false) (tt, (tt, tt)) refl

delete_expired-ok_iff_example :
    (o : StoredObject) × (r : String) × (until : ℕ) × (at : ℕ) × (Dict.get "a"
        (store (some "2026-01-01") false).objects
      ≡ some o)
    × (o.lock.legal_hold ≡ false)
    × (o.lock.retain_until ≡ some r)
    × (date_parse r ≡ some until)
    × (date_parse "2027-01-01" ≡ some at)
    × (until ≤ at)
unfolding delete_expired Worm.expired Worm.ms Dict.get
delete_expired-ok_iff_example =
    (delete_expired-ok_iff date_parse "a" "2027-01-01" (store (some "2026-01-01") false)).0 refl

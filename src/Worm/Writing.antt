-- ===== src/Worm/Writing.antt =====
-- What the writer's handle can do to the store, and when a lawful deletion succeeds.
use external_database_audit.Base.{
  ℕ, String, ◌≡◌, ◌≢◌, ◌↔◌, refl, false, Option, none, some, List, [], ◌∷◌, ◌≤◌, arith, str_eq,
  eq_iff, eq_refl, if◌then◌else◌,
}
use external_database_audit.Base.Dict
use external_database_audit.Base.Dict.{get-set, get-delete}
use external_database_audit.Base.Lists.{All}
use external_database_audit.Base.Result.{Result, ok, err, ◌>>=◌}
use external_database_audit.Worm
use external_database_audit.Worm.{
  ObjectLock, StoredObject, WormError, already_exists, Store, born, compliance, put_back, drop_key,
  Call, put, read, inspect, extend, place_hold, lift_hold, delete, put_immutable, require, expired,
  delete_expired, perform, run,
}

-- the calls of the writer and of the reader
abbrev pub IsUnprivileged : Call → Type 0
IsUnprivileged (put j b) = Unit
IsUnprivileged (read j) = Unit
IsUnprivileged (inspect j) = Unit
IsUnprivileged _ = ⊥

perform-keeps_object :
    (date_parse : String → Option ℕ) (key : String) (o : StoredObject) (c : Call) (s : Store)
    → IsUnprivileged c
    → Dict.get key s.objects ≡ some o
    → Dict.get key (perform date_parse c s).objects ≡ some o
unfolding perform
perform-keeps_object date_parse key o (put j b) s u h =
    ground (arith, eq_iff j key, get-set j key (born b compliance s) s.objects)
perform-keeps_object date_parse key o (read j) s u h = h
perform-keeps_object date_parse key o (inspect j) s u h = h
perform-keeps_object date_parse key o (extend j until) s u h = absurd u
perform-keeps_object date_parse key o (place_hold j) s u h = absurd u
perform-keeps_object date_parse key o (lift_hold j) s u h = absurd u
perform-keeps_object date_parse key o (delete j now) s u h = absurd u

-- The writer and the reader together can change nothing that is stored: through any of their calls
-- an object keeps its bytes, its retention and its hold.
pub unprivileged_append_only :
    (date_parse : String → Option ℕ) (key : String) (o : StoredObject) (cs : List Call) (s : Store)
    → All IsUnprivileged cs
    → Dict.get key s.objects ≡ some o
    → Dict.get key (run date_parse cs s).objects ≡ some o
unfolding run
unprivileged_append_only date_parse key o [] s u h = h
unprivileged_append_only date_parse key o (c ∷ cs) s (u, us) h =
    unprivileged_append_only date_parse key o cs (perform date_parse c s) us
      (perform-keeps_object date_parse key o c s u h)

abbrev require_expired : (String → Option ℕ) → String → String → Store → Result WormError (Unit {0})
require_expired date_parse key now s = do o ← require key s; expired date_parse now o.lock

module _ (date_parse : String → Option ℕ) (key : String) where
  drop_key-get :
      (r : Result WormError (Unit {0})) (s : Store)
      → (drop_key date_parse key r s).0 ≡ ok tt
      → (j : String)
      → Dict.get j (drop_key date_parse key r s).1.objects
        ≡ (if str_eq key j then none else Dict.get j s.objects)
  drop_key-get (ok u) s e j = get-delete key j s.objects
  drop_key-get (err x) s e j = cc

  drop_key-err :
      (r : Result WormError (Unit {0})) (s : Store)
      → (drop_key date_parse key r s).0 ≢ ok tt
      → (drop_key date_parse key r s).1 ≡ s
  drop_key-err (ok u) s e = absurd (e refl)
  drop_key-err (err x) s e = refl

-- A deletion succeeds exactly when the object is there, is under no hold, has a retention date, and
-- that date is at or before the stated instant, so that it succeeds at the very date too; both dates
-- parse.
pub delete_expired-ok_iff :
    (date_parse : String → Option ℕ) (key now : String) (s : Store)
    → ((delete_expired date_parse key now s).0 ≡ ok tt) ↔ (
        (o : StoredObject) × (r : String) × (until : ℕ) × (at : ℕ) × (Dict.get key s.objects
          ≡ some o)
        × (o.lock.legal_hold ≡ false)
        × (o.lock.retain_until ≡ some r)
        × (date_parse r ≡ some until)
        × (date_parse now ≡ some at)
        × (until ≤ at))
unfolding delete_expired expired
delete_expired-ok_iff date_parse key now s =
    (λ e. ground arith, λ (o, r, until, at, found, free, dated, u, a, le). ground arith)

-- What a writer has stored under a free key is what a reader gets: writing succeeds, and after any
-- further calls of the writer and the reader, the bytes come back as they were written.
pub put_immutable-get :
    (date_parse : String → Option ℕ) (key : String) (bytes : List ℕ) (cs : List Call) (s : Store)
    → All IsUnprivileged cs
    → Dict.get key s.objects ≡ none
    → ((put_immutable key bytes compliance s).0 ≡ ok tt)
      × ((Worm.get key (run date_parse cs (put_immutable key bytes compliance s).1)).0 ≡ ok bytes)
unfolding put_immutable Worm.get
put_immutable-get date_parse key bytes cs s u free =
    let stored : Dict.get key (put_immutable key bytes compliance s).1.objects
        ≡ some (born bytes compliance s) =
      ground (arith, eq_refl key, get-set key key (born bytes compliance s) s.objects) in
    let kept =
      unprivileged_append_only date_parse key (born bytes compliance s) cs
        (put_immutable key bytes compliance s).1 u stored in
    (ground arith, ground arith)

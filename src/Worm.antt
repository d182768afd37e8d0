-- ===== src/Worm.antt =====
-- The in-memory write-once store: infra/worm/src/memory.ts, with the types of infra/worm/src/types.ts.
-- A method takes the store and returns its result, or the error that it throws, with the store that
-- it leaves. `date_parse` is `Date.parse`, counted in milliseconds from the earliest instant that a
-- `Date` can hold, so that instants are natural numbers in the same order; `none` is NaN.
-- `list` and the reader's copies are not modelled: they change nothing.
pub mod Keeping
pub mod Retention
pub mod Writing
mod Tests
use external_database_audit.Base.{
  ℕ, String, Bool, true, false, Option, none, some, List, [], ◌∷◌, ltb, if◌then◌else◌,
}
use external_database_audit.Base.Dict
use external_database_audit.Base.Dict.{Dict}
use external_database_audit.Base.Result.{Result, ok, err, or_throw, reject_if, ◌>>=◌, ◌>>◌}

pub data RetentionMode : Type 0 where
  compliance : RetentionMode

pub record ObjectLock : Type 0 where
  pub retention_mode : RetentionMode
  pub retain_until : Option String
  pub legal_hold : Bool

pub record StoredObject : Type 0 where
  pub bytes : List ℕ
  pub lock : ObjectLock

pub data WormError : Type 0 where
  already_exists no_object invalid_instant open_ended would_shorten : WormError
  under_legal_hold never_expires within_retention : WormError

pub record Store : Type 0 where
  pub objects : Dict StoredObject
  pub default_retain_until : Option String

abbrev pub Action : Type 0 → Type 0
Action A = Store → Result WormError A × Store

-- what a method does with an object that it has looked up: throw, or store the object again
abbrev pub put_back : String → Result WormError StoredObject → Action (Unit {0})
put_back key (err e) s = (err e, s)
put_back key (ok o) s = (ok tt, record s { objects = Dict.set key o s.objects })

-- an object as it is first stored: under the store's default retention, with no hold
abbrev pub born : List ℕ → RetentionMode → Store → StoredObject
born bytes mode s = record {
  bytes = bytes;
  lock = record {
    retention_mode = mode;
    retain_until = s.default_retain_until;
    legal_hold = false;
  };
}

unfoldable pub put_immutable : String → List ℕ → RetentionMode → Action (Unit {0})
put_immutable key bytes mode s =
    if Dict.has key s.objects
    then (err already_exists, s)
    else put_back key (ok (born bytes mode s)) s

-- `require`
abbrev pub require : String → Store → Result WormError StoredObject
require key s = or_throw no_object (Dict.get key s.objects)

unfoldable pub get : String → Action (List ℕ)
get key s = (do o ← require key s; ok o.bytes, s)

unfoldable pub head_object_lock : String → Action ObjectLock
head_object_lock key s = (do o ← require key s; ok o.lock, s)

unfoldable pub set_legal_hold : String → Bool → Action (Unit {0})
set_legal_hold key hold s =
    put_back key
      (do o ← require key s; ok (record o { lock = record o.lock { legal_hold = hold } })) s

-- The three handles of the store, each with its operations: `put` is the writer's, `extend`,
-- `place_hold`, `lift_hold` and `delete` are the retention admin's, the reads are the reader's.
pub data Call : Type 0 where
  put : String → List ℕ → Call
  read inspect : String → Call
  extend : String → String → Call
  place_hold lift_hold : String → Call
  delete : String → String → Call

module _ (date_parse : String → Option ℕ) where
  unfoldable pub ms : String → Result WormError ℕ
  ms instant = or_throw invalid_instant (date_parse instant)

  -- the constructor
  unfoldable pub create : Option String → Result WormError Store
  unfolding ms
  create none = ok (record { objects = []; default_retain_until = none })
  create (some r) = do t ← ms r; ok (record { objects = []; default_retain_until = some r })

  -- the guards of `extendRetention`, in its order, and the lock that it stores
  unfoldable pub extended : String → ObjectLock → Result WormError ObjectLock
  unfolding ms
  extended until lock = do
    next ← ms until
    current ← or_throw open_ended lock.retain_until
    now ← ms current
    reject_if (ltb next now) would_shorten
    ok (record lock { retain_until = some until })

  unfoldable pub extend_retention : String → String → Action (Unit {0})
  extend_retention key until s =
      put_back key
        (do o ← require key s; lock ← extended until o.lock; ok (record o { lock = lock })) s

  -- the guards of `deleteExpired`, in its order
  unfoldable pub expired : String → ObjectLock → Result WormError (Unit {0})
  unfolding ms
  expired now lock = do
    reject_if lock.legal_hold under_legal_hold
    current ← or_throw never_expires lock.retain_until
    at ← ms now
    until ← ms current
    reject_if (ltb at until) within_retention

  abbrev drop_key : String → Result WormError (Unit {0}) → Action (Unit {0})
  drop_key key (err e) s = (err e, s)
  drop_key key (ok u) s = (ok tt, record s { objects = Dict.delete key s.objects })

  unfoldable pub delete_expired : String → String → Action (Unit {0})
  delete_expired key now s = drop_key key (do o ← require key s; expired now o.lock) s

  -- the store that a call on a handle leaves, whether it returns or throws
  unfoldable pub perform : Call → Store → Store
  unfolding put_immutable get head_object_lock set_legal_hold extend_retention delete_expired
  perform (put key bytes) s = (put_immutable key bytes compliance s).1
  perform (read key) s = (get key s).1
  perform (inspect key) s = (head_object_lock key s).1
  perform (extend key until) s = (extend_retention key until s).1
  perform (place_hold key) s = (set_legal_hold key true s).1
  perform (lift_hold key) s = (set_legal_hold key false s).1
  perform (delete key now) s = (delete_expired key now s).1

  unfoldable pub run : List Call → Store → Store
  run [] s = s
  run (c ∷ cs) s = run cs (perform c s)

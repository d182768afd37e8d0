-- ===== src/Worm/Retention.antt =====
-- How long an object stays: permanent objects, objects under legal hold, objects in retention.
use external_database_audit.Base.{
  ℕ, String, ◌≡◌, ◌≢◌, refl, ◌⊎◌, inl, inr, true, Option, none, some, List, ◌≤◌, ◌<◌, arith,
}
use external_database_audit.Base.Dict
use external_database_audit.Base.Lists.{All, All-of_every, All-mono}
use external_database_audit.Base.Result.{ok}
use external_database_audit.Worm.{
  ObjectLock, Store, Call, put, read, inspect, extend, place_hold, lift_hold, delete, extended,
  expired, run,
}
use external_database_audit.Worm.Keeping.{Kept, Allows, run-Kept}

abbrev pub IsPermanent : ObjectLock → Type 0
IsPermanent lock = lock.retain_until ≡ none

abbrev pub IsHeld : ObjectLock → Type 0
IsHeld lock = lock.legal_hold ≡ true

abbrev pub NotBefore : ℕ → Option ℕ → Type 0
NotBefore t none = ⊥
NotBefore t (some at) = t ≤ at

-- a later call that deletes nothing under `key`, or is made before the instant `t`
abbrev pub Before : ℕ → Option ℕ → Type 0
Before t none = Unit
Before t (some at) = at < t

abbrev pub LeavesHold : String → Call → Type 0
LeavesHold key (lift_hold j) = j ≢ key
LeavesHold key _ = Unit

module _ (date_parse : String → Option ℕ) where
  abbrev pub RetainsUntil : ℕ → Option String → Type 0
  RetainsUntil t none = Unit
  RetainsUntil t (some r) = NotBefore t (date_parse r)

  abbrev pub DeletesBefore : String → ℕ → Call → Type 0
  DeletesBefore key t (delete j now) = (j ≢ key) ⊎ Before t (date_parse now)
  DeletesBefore key t _ = Unit

  extended-IsPermanent :
      (until : String) (lock new : ObjectLock)
      → IsPermanent lock
      → extended date_parse until lock ≡ ok new
      → IsPermanent new
  unfolding extended
  extended-IsPermanent until lock new p e = ground arith

  expired-IsPermanent :
      (now : String) (lock : ObjectLock) → IsPermanent lock → expired date_parse now lock ≢ ok tt
  unfolding expired
  expired-IsPermanent now lock p = ground arith

  extended-IsHeld :
      (until : String) (lock new : ObjectLock)
      → IsHeld lock
      → extended date_parse until lock ≡ ok new
      → IsHeld new
  unfolding extended
  extended-IsHeld until lock new p e = ground arith

  expired-IsHeld :
      (now : String) (lock : ObjectLock) → IsHeld lock → expired date_parse now lock ≢ ok tt
  unfolding expired
  expired-IsHeld now lock p = ground arith

  extended-RetainsUntil :
      (t : ℕ) (until : String) (lock new : ObjectLock)
      → RetainsUntil t lock.retain_until
      → extended date_parse until lock ≡ ok new
      → RetainsUntil t new.retain_until
  unfolding extended
  extended-RetainsUntil t until lock new p e = ground arith

  expired-RetainsUntil :
      (t : ℕ) (now : String) (lock : ObjectLock)
      → Before t (date_parse now)
      → RetainsUntil t lock.retain_until
      → expired date_parse now lock ≢ ok tt
  unfolding expired
  expired-RetainsUntil t now lock b p = ground arith

  Allows-IsPermanent : (key : String) (c : Call) → Allows date_parse IsPermanent key c
  Allows-IsPermanent key (put j b) = tt
  Allows-IsPermanent key (read j) = tt
  Allows-IsPermanent key (inspect j) = tt
  Allows-IsPermanent key (extend j until) = extended-IsPermanent until
  Allows-IsPermanent key (place_hold j) = λ lock p. p
  Allows-IsPermanent key (lift_hold j) = inr (λ lock p. p)
  Allows-IsPermanent key (delete j now) = inr (expired-IsPermanent now)

  Allows-IsHeld : (key : String) (c : Call) → LeavesHold key c → Allows date_parse IsHeld key c
  Allows-IsHeld key (put j b) l = tt
  Allows-IsHeld key (read j) l = tt
  Allows-IsHeld key (inspect j) l = tt
  Allows-IsHeld key (extend j until) l = extended-IsHeld until
  Allows-IsHeld key (place_hold j) l = λ lock p. refl
  Allows-IsHeld key (lift_hold j) l = inl l
  Allows-IsHeld key (delete j now) l = inr (expired-IsHeld now)

  Allows-RetainsUntil :
      (t : ℕ) (key : String) (c : Call)
      → DeletesBefore key t c
      → Allows date_parse (λ lock. RetainsUntil t lock.retain_until) key c
  Allows-RetainsUntil t key (put j b) d = tt
  Allows-RetainsUntil t key (read j) d = tt
  Allows-RetainsUntil t key (inspect j) d = tt
  Allows-RetainsUntil t key (extend j until) d = extended-RetainsUntil t until
  Allows-RetainsUntil t key (place_hold j) d = λ lock p. p
  Allows-RetainsUntil t key (lift_hold j) d = inr (λ lock p. p)
  Allows-RetainsUntil t key (delete j now) (inl other) = inl other
  Allows-RetainsUntil t key (delete j now) (inr b) =
      inr (λ lock p. expired-RetainsUntil t now lock b p)

-- An object without a retention date is never deleted: after any calls on any of the handles it is
-- there with the same bytes, and still without a date.
pub IsPermanent-survives :
    (date_parse : String → Option ℕ) (key : String) (bytes : List ℕ) (s : Store) (cs : List Call)
    → Kept bytes IsPermanent (Dict.get key s.objects)
    → Kept bytes IsPermanent (Dict.get key (run date_parse cs s).objects)
IsPermanent-survives date_parse key bytes s cs h =
    run-Kept date_parse IsPermanent key bytes cs s
      (All-of_every _ (Allows-IsPermanent date_parse key) cs) h

-- An object under legal hold stays, with the same bytes and under the hold, through any calls among
-- which none lifts the hold of its key.
pub IsHeld-survives :
    (date_parse : String → Option ℕ) (key : String) (bytes : List ℕ) (s : Store) (cs : List Call)
    → All (LeavesHold key) cs
    → Kept bytes IsHeld (Dict.get key s.objects)
    → Kept bytes IsHeld (Dict.get key (run date_parse cs s).objects)
IsHeld-survives date_parse key bytes s cs leaves h =
    run-Kept date_parse IsHeld key bytes cs s (All-mono cs (Allows-IsHeld date_parse key) leaves) h

-- An object that is retained until the instant `t` or later stays, with the same bytes, and its
-- retention still reaches `t`, through any calls among which each deletion under its key states an
-- instant before `t` or one that does not parse.
pub retained_survives :
    (date_parse : String → Option ℕ) (t : ℕ) (key : String) (bytes : List ℕ) (s : Store)
    (cs : List Call)
    → All (DeletesBefore date_parse key t) cs
    → Kept bytes (λ lock. RetainsUntil date_parse t lock.retain_until) (Dict.get key s.objects)
    → Kept bytes
        (λ lock. RetainsUntil date_parse t lock.retain_until)
        (Dict.get key (run date_parse cs s).objects)
retained_survives date_parse t key bytes s cs early h =
    run-Kept date_parse (λ lock. RetainsUntil date_parse t lock.retain_until) key bytes cs s
      (All-mono cs (Allows-RetainsUntil date_parse t key) early) h

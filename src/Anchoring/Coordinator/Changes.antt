-- ===== src/Anchoring/Coordinator/Changes.antt =====
-- How a move changes what is in flight.
use external_database_audit.Base.{
  ℕ, ◌+◌, ◌≤◌, ◌<◌, ◌≡◌, ◌⊎◌, inl, inr, refl, subst, sym, String, Bool, true, false, Option, none,
  some, List, [], ◌∷◌, str_eq, eq_iff, eq_refl, ltb, if◌then◌else◌, arith, Bool-cases,
}
use external_database_audit.Base.Dict
use external_database_audit.Base.Dict.{Dict, get-set, get-delete}
use external_database_audit.Base.Platform.{Platform}
use external_database_audit.Base.Result.{Result, ok, err}
use external_database_audit.Evidence.AnchorPayload.{PayloadError}
use external_database_audit.Anchoring.Cadence.{RetryPolicy}
use external_database_audit.Anchoring.Record.{AnchorRecord, RecordError}
use external_database_audit.Anchoring.Request.{Provider}
use external_database_audit.Anchoring.Token.{AnchorOutcome}
use external_database_audit.Anchoring.Coordinator.{
  CoordinatorError, CoordinatorOutcome, Delivery, refused, settled, Attempt, Coordinator,
  AnchorHeadInput, Move, call, reply, put_elsewhere, Moved, settle, start_from, identified, hashed,
  keep, keep_built, retry, judge_reply,
}

abbrev pub settles : String → Delivery → Bool
settles id (refused e) = false
settles id (settled k outcome) = str_eq k id

abbrev pub settles_maybe : String → Option Delivery → Bool
settles_maybe id none = false
settles_maybe id (some o) = settles id o

abbrev pub is_reply : String → Move → Bool
is_reply id (call provider input) = false
is_reply id (reply k r created_at) = str_eq k id
is_reply id (put_elsewhere r) = false

-- the replies of the provider to a head
abbrev pub replies : String → List Move → ℕ
replies id [] = 0
replies id (m ∷ ms) = (if is_reply id m then 1 else 0) + replies id ms

abbrev pub IsBelow : ℕ → Dict Attempt → Type 0
IsBelow limit in_flight =
    (id : String) (a : Attempt) → Dict.get id in_flight ≡ some a → a.attempt < limit

IsBelow-set :
    (limit : ℕ) (k : String) (x : Attempt) (m : Dict Attempt)
    → x.attempt < limit
    → IsBelow limit m
    → IsBelow limit (Dict.set k x m)
IsBelow-set limit k x m small below id a held =
    ground (arith, get-set k id x m, below id a, eq_iff k id)

pub IsBelow-delete :
    (limit : ℕ) (k : String) (m : Dict Attempt) → IsBelow limit m → IsBelow limit (Dict.delete k m)
IsBelow-delete limit k m below id a held =
    ground (arith, get-delete k id m, below id a, eq_iff k id)

-- an attempt in flight, after a move: its outcome is delivered, or so many replies are behind it
abbrev pub Goes : ℕ → String → ℕ → Moved → Type 0
Goes limit id attempt moved =
    (settles_maybe id moved.1 ≡ true)
    ⊎ ((a : Attempt) × (Dict.get id moved.0.in_flight ≡ some a) × (attempt ≤ a.attempt))

module _ (js : Platform) where
  IsBelow-identified :
      (limit : ℕ) (provider : Provider) (input : AnchorHeadInput) (h id : String)
      (x : Option Attempt) (c : Coordinator)
      → 0 < limit
      → IsBelow limit c.in_flight
      → IsBelow limit (identified js provider input h id x c).0.in_flight
  unfolding identified
  IsBelow-identified limit provider input h id (some a) c pos below = below
  IsBelow-identified limit provider input h id none c pos below = from_store (Dict.get id c.store)
    where
      from_store :
          (found : Option AnchorRecord)
          → IsBelow limit (start_from js provider input h id found c).0.in_flight
      from_store (some r) = below
      from_store none = IsBelow-set limit id _ c.in_flight pos below

  pub IsBelow-hashed :
      (limit : ℕ) (sha1 : List ℕ → String → List ℕ) (provider : Provider) (input : AnchorHeadInput)
      (h : Result PayloadError String) (c : Coordinator)
      → 0 < limit
      → IsBelow limit c.in_flight
      → IsBelow limit (hashed js sha1 provider input h c).0.in_flight
  unfolding hashed
  IsBelow-hashed limit sha1 provider input (err e) c pos below = below
  IsBelow-hashed limit sha1 provider input (ok h) c pos below =
      IsBelow-identified limit provider input h _ _ c pos below

  -- a call leaves the attempts in flight as they are
  get-identified :
      (provider : Provider) (input : AnchorHeadInput) (h k id : String) (x : Option Attempt)
      (c : Coordinator) (a : Attempt)
      → Dict.get k c.in_flight ≡ x
      → Dict.get id c.in_flight ≡ some a
      → Dict.get id (identified js provider input h k x c).0.in_flight ≡ some a
  unfolding identified
  get-identified provider input h k id (some b) c a e held = held
  get-identified provider input h k id none c a e held = from_store (Dict.get k c.store)
    where
      from_store :
          (found : Option AnchorRecord)
          → Dict.get id (start_from js provider input h k found c).0.in_flight ≡ some a
      from_store (some r) = held
      from_store none = ground (
        arith,
        eq_iff k id,
        get-set k id (record { provider = provider; input = input; payload_hash = h; attempt = 0 })
            c.in_flight,
      )

  pub get-hashed :
      (sha1 : List ℕ → String → List ℕ) (provider : Provider) (input : AnchorHeadInput)
      (h : Result PayloadError String) (id : String) (c : Coordinator) (a : Attempt)
      → Dict.get id c.in_flight ≡ some a
      → Dict.get id (hashed js sha1 provider input h c).0.in_flight ≡ some a
  unfolding hashed
  get-hashed sha1 provider input (err e) id c a held = held
  get-hashed sha1 provider input (ok h) id c a held =
      get-identified provider input h _ id _ c a refl held

-- how a reply to a head changes what is in flight: the head is settled, or goes to a later attempt
pub data Change (limit : ℕ) (k : String) (a : Attempt) (c : Coordinator) (moved : Moved)
    : Type 0 where
  gone :
      (o : Result CoordinatorError CoordinatorOutcome)
      → moved.0.in_flight ≡ Dict.delete k c.in_flight
      → moved.1 ≡ some (settled k o)
      → Change limit k a c moved
  later :
      a.attempt + 1 < limit
      → moved.0.in_flight ≡ Dict.set k (record a { attempt = a.attempt + 1 }) c.in_flight
      → Change limit k a c moved

module _ (js : Platform) (valid : AnchorRecord → Bool) (policy : RetryPolicy) where
  keep_built-Change :
      (k h : String) (built : Result RecordError AnchorRecord) (a : Attempt) (c : Coordinator)
      → Change policy.max_attempts k a c (keep_built js k h built c)
  unfolding keep_built settle
  keep_built-Change k h (err e) a c = gone _ refl refl
  keep_built-Change k h (ok r) a c = gone _ refl refl

  pub judge_reply-Change :
      (k : String) (a : Attempt) (created_at : String) (o : AnchorOutcome) (c : Coordinator)
      → Change policy.max_attempts k a c (judge_reply js valid policy k a created_at o c)
  unfolding judge_reply keep retry settle
  judge_reply-Change k a created_at (AnchorOutcome.anchored token) c =
      keep_built-Change k a.payload_hash _ a c
  judge_reply-Change k a created_at (AnchorOutcome.failed reason) c = gone _ refl refl
  judge_reply-Change k a created_at (AnchorOutcome.pending reason) c =
      elim (Bool-cases (ltb (a.attempt + 1) policy.max_attempts)) [
        | inl more ↦ later (ground arith) (ground arith)
        | inr last ↦
            gone (ok (CoordinatorOutcome.pending reason policy.max_attempts)) (ground arith)
              (ground arith)
      ]

-- what a change does to every attempt in flight
pub Change-IsBelow :
    (limit : ℕ) (k : String) (a : Attempt) (c : Coordinator) (moved : Moved)
    → Change limit k a c moved
    → IsBelow limit c.in_flight
    → IsBelow limit moved.0.in_flight
Change-IsBelow limit k a c moved (gone o e d) below =
    subst (IsBelow limit) (sym e) (IsBelow-delete limit k c.in_flight below)
Change-IsBelow limit k a c moved (later small e) below =
    subst (IsBelow limit) (sym e)
      (IsBelow-set limit k (record a { attempt = a.attempt + 1 }) c.in_flight small below)

-- a head whose reply came
pub Change-Goes :
    (limit : ℕ) (k : String) (a : Attempt) (c : Coordinator) (moved : Moved)
    → Change limit k a c moved
    → Goes limit k (a.attempt + 1) moved
Change-Goes limit k a c moved (gone o e d) = inl (ground (arith, eq_refl k))
Change-Goes limit k a c moved (later small e) = inr (
  record a { attempt = a.attempt + 1 },
  ground (arith, eq_refl k, get-set k k (record a { attempt = a.attempt + 1 }) c.in_flight),
  ground arith,
)

pub Goes-mono :
    (limit : ℕ) (k id : String) (n m : ℕ) (moved : Moved)
    → k ≡ id
    → n ≤ m
    → Goes limit k m moved
    → Goes limit id n moved
Goes-mono limit k id n m moved e le (inl done) = inl (ground arith)
Goes-mono limit k id n m moved e le (inr (a, held, more)) = inr (a, ground arith, omega arith)

-- another head
pub Change-other :
    (limit : ℕ) (k id : String) (a b : Attempt) (c : Coordinator) (moved : Moved)
    → Change limit k a c moved
    → str_eq k id ≡ false
    → Dict.get id c.in_flight ≡ some b
    → Dict.get id moved.0.in_flight ≡ some b
Change-other limit k id a b c moved (gone o e d) other held =
    ground (arith, eq_iff k id, get-delete k id c.in_flight)
Change-other limit k id a b c moved (later small e) other held =
    ground (arith, get-set k id (record a { attempt = a.attempt + 1 }) c.in_flight)

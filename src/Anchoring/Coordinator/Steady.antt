-- ===== src/Anchoring/Coordinator/Steady.antt =====
-- One move of the coordinator: nothing stored is lost, and an anchored outcome carries what is stored.
use external_database_audit.Base.{
  ℕ, ◌+◌, ◌≤◌, ◌≡◌, refl, subst, String, Bool, true, false, Option, none, some, List, [], ◌∷◌,
  str_eq, eq_iff, eq_refl, if◌then◌else◌, arith,
}
use external_database_audit.Base.Dict
use external_database_audit.Base.Dict.{Dict, is_some, get-set}
use external_database_audit.Base.Platform.{Platform}
use external_database_audit.Base.Result.{Result, ok, err, ◌>>◌}
use external_database_audit.Evidence.AnchorPayload.{PayloadError}
use external_database_audit.Anchoring.Identity.{anchor_id_for}
use external_database_audit.Anchoring.Record.{AnchorRecord, RecordError}
use external_database_audit.Anchoring.Request.{Provider}
use external_database_audit.Anchoring.Coordinator.{
  anchored, pending, failed, Delivery, refused, settled, Attempt, Coordinator, AnchorHeadInput,
  put_if_absent, Moved, settle, assert_same_head, outcome_for, start_from, identified, hashed,
  keep_built,
}

pub put_if_absent-keeps :
    (k : String) (x : AnchorRecord) (store : Dict AnchorRecord) {r : AnchorRecord}
    → Dict.get k store ≡ some r
    → Dict.get k (put_if_absent x store).0 ≡ some r
unfolding put_if_absent
put_if_absent-keeps k x store held =
    ground (arith, eq_iff x.anchor_id k, get-set x.anchor_id k x store)

put_if_absent-holds :
    (x : AnchorRecord) (store : Dict AnchorRecord)
    → Dict.get x.anchor_id (put_if_absent x store).0 ≡ some (put_if_absent x store).1
unfolding put_if_absent
put_if_absent-holds x store =
    ground (arith, eq_refl x.anchor_id, get-set x.anchor_id x.anchor_id x store)

-- does the store hold the record of an anchored outcome under its identity?
abbrev pub CarriesStored : Dict AnchorRecord → Delivery → Type 0
CarriesStored store (refused e) = Unit
CarriesStored store (settled id (err e)) = Unit
CarriesStored store (settled id (ok (anchored r key deduplicated))) = Dict.get key store ≡ some r
CarriesStored store (settled id (ok (pending reason attempts))) = Unit
CarriesStored store (settled id (ok (failed reason))) = Unit

-- one for an anchored outcome of the identity whose record is new
abbrev pub new_anchoring : String → Delivery → ℕ
new_anchoring key (refused e) = 0
new_anchoring key (settled id (err e)) = 0
new_anchoring key (settled id (ok (anchored r k true))) = 0
new_anchoring key (settled id (ok (anchored r k false))) = if str_eq k key then 1 else 0
new_anchoring key (settled id (ok (pending reason attempts))) = 0
new_anchoring key (settled id (ok (failed reason))) = 0

abbrev pub new_anchorings : String → List Delivery → ℕ
new_anchorings key [] = 0
new_anchorings key (o ∷ os) = new_anchoring key o + new_anchorings key os

abbrev pub CarriesMaybe : Dict AnchorRecord → Option Delivery → Type 0
CarriesMaybe store none = Unit
CarriesMaybe store (some o) = CarriesStored store o

abbrev pub new_maybe : String → Option Delivery → ℕ
new_maybe key none = 0
new_maybe key (some o) = new_anchoring key o

-- what is left to anchor of the identity
abbrev pub room : String → Dict AnchorRecord → ℕ
room key store = if is_some (Dict.get key store) then 0 else 1

-- what holds of a move from a store: nothing stored is lost, an anchored outcome carries what is
-- stored, and it is new only for an identity that was free
abbrev pub IsSteady : Dict AnchorRecord → Moved → Type 0
IsSteady store moved =
    ((k : String) (r : AnchorRecord)
      → Dict.get k store ≡ some r
      → Dict.get k moved.0.store ≡ some r)
    × CarriesMaybe moved.0.store moved.1
    × ((k : String) → new_maybe k moved.1 + room k moved.0.store ≤ room k store)

-- an outcome for a record that is stored
outcome_for-carries :
    (js : Platform) (store : Dict AnchorRecord) (id payload_hash : String) (d : Bool)
    (r : AnchorRecord)
    → Dict.get id store ≡ some r
    → CarriesStored store (settled id (outcome_for js id payload_hash d r))
unfolding outcome_for
outcome_for-carries js store id payload_hash d r held =
    elim (assert_same_head js r payload_hash)
      as (λ a. CarriesStored store (settled id (a >> ok (anchored r id d)))) [
        | err e ↦ tt
        | ok u ↦ held
      ]

outcome_for-new :
    (js : Platform) (id payload_hash k : String) (d : Bool) (r : AnchorRecord)
    → new_anchoring k (settled id (outcome_for js id payload_hash d r))
      ≤ (if d then 0 else if str_eq id k then 1 else 0)
unfolding outcome_for
outcome_for-new js id payload_hash k d r = ground arith

-- a move that leaves the store alone
pub told :
    (c : Coordinator) (delivery : Option Delivery)
    → CarriesMaybe c.store delivery
    → ((k : String) → new_maybe k delivery ≡ 0)
    → IsSteady c.store (c, delivery)
told c delivery carries none_new = (λ k r h. h, carries, λ k. omega (arith, none_new k))

start_from-IsSteady :
    (js : Platform) (provider : Provider) (input : AnchorHeadInput) (payload_hash id : String)
    (found : Option AnchorRecord) (c : Coordinator)
    → Dict.get id c.store ≡ found
    → IsSteady c.store (start_from js provider input payload_hash id found c)
unfolding start_from
start_from-IsSteady js provider input payload_hash id none c free =
    (λ k r h. h, tt, λ k. omega arith)
start_from-IsSteady js provider input payload_hash id (some r) c held =
    told c (some (settled id (outcome_for js id payload_hash true r)))
      (outcome_for-carries js c.store id payload_hash true r held)
      (λ k. omega (arith, outcome_for-new js id payload_hash k true r))

identified-IsSteady :
    (js : Platform) (provider : Provider) (input : AnchorHeadInput) (payload_hash id : String)
    (in_flight : Option Attempt) (c : Coordinator)
    → IsSteady c.store (identified js provider input payload_hash id in_flight c)
unfolding identified
identified-IsSteady js provider input payload_hash id (some a) c = told c none tt (λ k. refl)
identified-IsSteady js provider input payload_hash id none c =
    start_from-IsSteady js provider input payload_hash id (Dict.get id c.store) c refl

pub hashed-IsSteady :
    (js : Platform) (sha1 : List ℕ → String → List ℕ) (provider : Provider)
    (input : AnchorHeadInput) (h : Result PayloadError String) (c : Coordinator)
    → IsSteady c.store (hashed js sha1 provider input h c)
unfolding hashed
hashed-IsSteady js sha1 provider input (err e) c = told c (some (refused e)) tt (λ k. refl)
hashed-IsSteady js sha1 provider input (ok h) c =
    let id = anchor_id_for sha1 h provider.provider_type in
    identified-IsSteady js provider input h id (Dict.get id c.in_flight) c

pub room-put_if_absent :
    (k : String) (r : AnchorRecord) (store : Dict AnchorRecord)
    → room k (put_if_absent r store).0 ≡ (if str_eq r.anchor_id k then 0 else room k store)
unfolding put_if_absent
room-put_if_absent k r store = ground (arith, eq_iff r.anchor_id k, get-set r.anchor_id k r store)

-- a record is put under its identity, and the outcome is for what is stored then
put-IsSteady :
    (js : Platform) (payload_hash : String) (r : AnchorRecord) (c : Coordinator)
    (in_flight : Dict Attempt)
    → IsSteady c.store (
      record { store = (put_if_absent r c.store).0; in_flight = in_flight },
      some (
          settled r.anchor_id (
            outcome_for js r.anchor_id payload_hash
              (Dict.has r.anchor_id c.store)
              (put_if_absent r c.store).1)),
    )
put-IsSteady js payload_hash r c in_flight = (
  λ k held h. put_if_absent-keeps k r c.store h,
  outcome_for-carries js (put_if_absent r c.store).0 r.anchor_id payload_hash
      (Dict.has r.anchor_id c.store) (put_if_absent r c.store).1 (put_if_absent-holds r c.store),
  λ k. ground (
    arith,
    eq_iff r.anchor_id k,
    room-put_if_absent k r c.store,
    outcome_for-new js r.anchor_id payload_hash k (Dict.has r.anchor_id c.store)
        (put_if_absent r c.store).1,
  ),
)

pub keep_built-IsSteady :
    (js : Platform) (id payload_hash : String) (built : Result RecordError AnchorRecord)
    (c : Coordinator)
    → ((r : AnchorRecord) → built ≡ ok r → r.anchor_id ≡ id)
    → IsSteady c.store (keep_built js id payload_hash built c)
unfolding keep_built settle
keep_built-IsSteady js id payload_hash (err e) c named = (λ k r h. h, tt, λ k. omega arith)
keep_built-IsSteady js id payload_hash (ok r) c named =
    subst
      (λ key. IsSteady c.store (
        record { store = (put_if_absent r c.store).0; in_flight = Dict.delete key c.in_flight },
        some (
            settled key (
              outcome_for js key payload_hash (Dict.has r.anchor_id c.store)
                (put_if_absent r c.store).1)),
      ))
      (named r refl) (put-IsSteady js payload_hash r c (Dict.delete r.anchor_id c.in_flight))

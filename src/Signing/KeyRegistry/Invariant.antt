-- ===== src/Signing/KeyRegistry/Invariant.antt =====
-- What the constructor of the key registry establishes: every record is valid and stands under its
-- own id, no id twice, and the active key is there and not revoked.
use external_database_audit.Base.{
  ℕ, String, ◌≡◌, refl, subst, Option, none, some, List, [], ◌∷◌, ◌++◌, arith, eq_iff,
}
use external_database_audit.Base.Dict
use external_database_audit.Base.Dict.{Dict, get-append, set-eq-append}
use external_database_audit.Base.Result.{ok, reject_if, or_throw, ◌>>◌, >>=-eq-ok}
use external_database_audit.Signing.KeyRegistry.{
  KeyRecord, already_exists, unknown_key, Registry, validate_record, insert_all, with_active,
  create,
}

module _ (date_parse : String → Option ℕ) where
  -- Every record is valid and stands under its own id, and no id stands twice.
  abbrev pub IsKeyed : Dict KeyRecord → Type 0
  IsKeyed [] = Unit
  IsKeyed ((k, r) ∷ m) =
      (k ≡ r.signing_key_id)
      × (validate_record date_parse r ≡ ok r)
      × (Dict.get k m ≡ none)
      × IsKeyed m

  pub record IsValid (r : Registry) : Type 0 where
    pub keyed : IsKeyed r.keys
    pub active :
        (k : KeyRecord) × (Dict.get r.active_key_id r.keys ≡ some k) × (k.revoked_at ≡ none)

  -- validation returns the record that it was given
  pub eq_of_validate_record :
      (r frozen : KeyRecord) → validate_record date_parse r ≡ ok frozen → r ≡ frozen
  unfolding validate_record
  eq_of_validate_record r frozen e = ground arith

  -- a key is found under its own id
  pub get-IsKeyed :
      (m : Dict KeyRecord) (k : String) (r : KeyRecord)
      → IsKeyed m
      → Dict.get k m ≡ some r
      → (r.signing_key_id ≡ k) × (validate_record date_parse r ≡ ok r)
  unfolding Dict.get
  get-IsKeyed [] k r h e = cc
  get-IsKeyed ((j, q) ∷ m) k r (own, valid, fresh, rest) e =
      ground (arith, eq_iff j k, get-IsKeyed m k r rest)

  pub IsKeyed-append :
      (m : Dict KeyRecord) (r : KeyRecord)
      → IsKeyed m
      → validate_record date_parse r ≡ ok r
      → Dict.get r.signing_key_id m ≡ none
      → IsKeyed (m ++ (r.signing_key_id, r) ∷ [])
  unfolding Dict.get
  IsKeyed-append [] r h v f = (refl, v, refl, tt)
  IsKeyed-append ((k, q) ∷ m) r (own, valid, fresh, rest) v f = (
    own,
    valid,
    ground (
      arith,
      get-append k m ((r.signing_key_id, r) ∷ []),
      eq_iff k r.signing_key_id,
      eq_iff r.signing_key_id k,
    ),
    IsKeyed-append m r rest v (ground arith),
  )

  -- the first round of a loop that succeeds, and the loop from a round that does
  insert_all-cons :
      (r : KeyRecord) (rs : List KeyRecord) (m n : Dict KeyRecord)
      → insert_all date_parse (r ∷ rs) m ≡ ok n
      → (validate_record date_parse r ≡ ok r)
        × (Dict.get r.signing_key_id m ≡ none)
        × (insert_all date_parse rs (m ++ (r.signing_key_id, r) ∷ []) ≡ ok n)
  unfolding insert_all
  insert_all-cons r rs m n e =
      let (frozen, v, e') = >>=-eq-ok (validate_record date_parse r) _ e in
      let same = eq_of_validate_record r frozen v in step frozen same v e'
    where
      step :
          (q : KeyRecord)
          → r ≡ q
          → validate_record date_parse r ≡ ok q
          → (do
            reject_if (Dict.has q.signing_key_id m) (already_exists q.signing_key_id)
            insert_all date_parse rs (Dict.set q.signing_key_id q m))
            ≡ ok n
          → (validate_record date_parse r ≡ ok r)
            × (Dict.get r.signing_key_id m ≡ none)
            × (insert_all date_parse rs (m ++ (r.signing_key_id, r) ∷ []) ≡ ok n)
      step q same v e' = ground (arith, set-eq-append r.signing_key_id r m)

  pub insert_all-of_cons :
      (r : KeyRecord) (rs : List KeyRecord) (m : Dict KeyRecord)
      → validate_record date_parse r ≡ ok r
      → Dict.get r.signing_key_id m ≡ none
      → insert_all date_parse (r ∷ rs) m
        ≡ insert_all date_parse rs (m ++ (r.signing_key_id, r) ∷ [])
  unfolding insert_all
  insert_all-of_cons r rs m v f = rw (v, f) (rw (set-eq-append r.signing_key_id r m f))

  pub insert_all-IsKeyed :
      (rs : List KeyRecord) (m n : Dict KeyRecord)
      → IsKeyed m
      → insert_all date_parse rs m ≡ ok n
      → IsKeyed n
  unfolding insert_all
  insert_all-IsKeyed [] m n h e = let same : m ≡ n = cc in subst IsKeyed same h
  insert_all-IsKeyed (r ∷ rs) m n h e =
      let (v, f, e') = insert_all-cons r rs m n e in
      insert_all-IsKeyed rs (m ++ (r.signing_key_id, r) ∷ []) n (IsKeyed-append m r h v f) e'

  pub with_active-IsValid :
      (id : String) (m : Dict KeyRecord) (r : Registry)
      → IsKeyed m
      → with_active id m ≡ ok r
      → IsValid r
  unfolding with_active
  with_active-IsValid id m r h e =
      let (k, found, e') = >>=-eq-ok (or_throw (unknown_key id) (Dict.get id m)) _ e in
      let current : Dict.get id m ≡ some k = ground arith in
      let standing : k.revoked_at ≡ none = ground arith in
      let same : record { keys = m; active_key_id = id } ≡ r = ground arith in
      subst IsValid same (record { keyed = h; active = (k, current, standing) })

  -- A registry that the constructor makes is valid.
  pub create-IsValid :
      (rs : List KeyRecord) (id : String) (r : Registry)
      → create date_parse rs id ≡ ok r
      → IsValid r
  unfolding create
  create-IsValid [] id r e = cc
  create-IsValid (q ∷ qs) id r e =
      let (m, inserted, e') = >>=-eq-ok (insert_all date_parse (q ∷ qs) []) _ e in
      with_active-IsValid id m r (insert_all-IsKeyed (q ∷ qs) [] m tt inserted) e'

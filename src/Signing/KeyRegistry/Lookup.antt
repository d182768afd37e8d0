-- ===== src/Signing/KeyRegistry/Lookup.antt =====
-- Inserting the records of a registry again: the loop of the constructor rebuilds it.
use external_database_audit.Base.{
  ℕ, String, ◌≡◌, ◌≢◌, refl, ap, sym, ◌∙◌, Option, none, some, [], ◌∷◌, ◌++◌, arith, eq_iff,
}
use mathlib.Core.List.{append-nil, append_assoc}
use external_database_audit.Base.Dict
use external_database_audit.Base.Dict.{Dict, get-append, get-map_values}
use external_database_audit.Base.Result.{ok}
use external_database_audit.Signing.KeyRegistry.{KeyRecord, insert_all, with_active, create}
use external_database_audit.Signing.KeyRegistry.Invariant.{IsKeyed, insert_all-of_cons}

module _ (date_parse : String → Option ℕ) where
  -- no key of `m` is taken in `acc`
  abbrev AreFresh : Dict KeyRecord → Dict KeyRecord → Type 0
  AreFresh m acc = (k : String) → Dict.get k m ≢ none → Dict.get k acc ≡ none

  AreFresh-tail :
      (k : String) (r : KeyRecord) (m acc : Dict KeyRecord)
      → k ≡ r.signing_key_id
      → Dict.get k m ≡ none
      → AreFresh ((k, r) ∷ m) acc
      → AreFresh m (acc ++ (r.signing_key_id, r) ∷ [])
  unfolding Dict.get
  AreFresh-tail k r m acc own fresh f j there = ground (
    arith,
    get-append j acc ((r.signing_key_id, r) ∷ []),
    eq_iff r.signing_key_id j,
    eq_iff k j,
    f j,
  )

  AreFresh-head :
      (k : String) (r : KeyRecord) (m acc : Dict KeyRecord)
      → k ≡ r.signing_key_id
      → AreFresh ((k, r) ∷ m) acc
      → Dict.get r.signing_key_id acc ≡ none
  unfolding Dict.get
  AreFresh-head k r m acc own f =
      f r.signing_key_id (λ e. ground (arith, eq_iff k r.signing_key_id))

  -- The loop over the values of a keyed map appends its entries.
  pub insert_all-values :
      (m acc : Dict KeyRecord)
      → IsKeyed date_parse m
      → AreFresh m acc
      → insert_all date_parse (Dict.values m) acc ≡ ok (acc ++ m)
  unfolding insert_all
  insert_all-values [] acc h f = ap ok (sym (append-nil acc))
  insert_all-values ((k, r) ∷ m) acc (own, valid, fresh, rest) f =
      insert_all-of_cons date_parse r (Dict.values m) acc valid (AreFresh-head k r m acc own f)
      ∙ insert_all-values m (acc ++ (r.signing_key_id, r) ∷ []) rest
          (AreFresh-tail k r m acc own fresh f)
      ∙ ap ok (
          append_assoc acc ((r.signing_key_id, r) ∷ []) m
          ∙ ap (λ (j : String). acc ++ (j, r) ∷ m) (sym own))

  -- The constructor on the records of a keyed map with a standing active key gives that map.
  pub create-values :
      (m : Dict KeyRecord) (id : String) (k : KeyRecord)
      → IsKeyed date_parse m
      → Dict.get id m ≡ some k
      → k.revoked_at ≡ none
      → create date_parse (Dict.values m) id ≡ ok (record { keys = m; active_key_id = id })
  unfolding create with_active Dict.get
  create-values [] id k h found standing = cc
  create-values (e ∷ m) id k h found standing =
      rw (insert_all-values (e ∷ m) [] h (λ j there. refl)) (ground arith)

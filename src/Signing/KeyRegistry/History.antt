-- ===== src/Signing/KeyRegistry/History.antt =====
-- What rotation and revocation leave of the past: signatures made before stay valid.
use external_database_audit.Base.{
  ℕ, String, ◌≡◌, ◌≢◌, ◌<◌, ◌≤◌, ◌⊎◌, inl, inr, ap, sym, ◌∙◌, false, Option, none, some, [], ◌∷◌,
  ◌++◌, arith, str_eq, eq_iff, Option-cases, Bool-cases,
}
use mathlib.Core.Bool.{false≢true}
use mathlib.Core.Option
use external_database_audit.Base.Dict
use external_database_audit.Base.Dict.{Dict, get-append, get-map_values}
use external_database_audit.Base.Result.{ok, >>=-eq-ok}
use external_database_audit.Signing.KeyRegistry.{
  KeyRecord, DualControlApproval, Registry, assert_dual_control, mark_revoked, validate_record,
  rotate, revoke, is_valid_at,
}
use external_database_audit.Signing.KeyRegistry.Invariant.{
  IsValid, get-IsKeyed, eq_of_validate_record,
}
use external_database_audit.Signing.KeyRegistry.Lifecycle.{
  map_values, IsRevocable, rotate-total, revoke-total,
}

module _ (date_parse : String → Option ℕ) where
  -- what a revocation that succeeds has checked
  revoke-checks :
      (id at : String) (a : DualControlApproval) (r r' : Registry)
      → revoke date_parse id a at r ≡ ok r'
      → (k : KeyRecord) × (assert_dual_control a ≡ ok tt)
        × (Dict.get id r.keys ≡ some k)
        × (id ≢ r.active_key_id)
        × IsRevocable date_parse at k
  unfolding revoke
  revoke-checks id at a r r' e = elim (Option-cases (Dict.get id r.keys)) [
    | inl missing ↦ ground arith
    | inr (k, found) ↦ (
      k,
      ground arith,
      found,
      ground (arith, eq_iff id r.active_key_id),
      ground (arith, eq_iff id r.active_key_id),
    )
  ]

  -- so its result is known
  revoke-eq-ok :
      (id at : String) (a : DualControlApproval) (r r' : Registry)
      → IsValid date_parse r
      → revoke date_parse id a at r ≡ ok r'
      → r' ≡ record r { keys = map_values (mark_revoked id at) r.keys }
  revoke-eq-ok id at a r r' v e =
      let (k, two, found, other, can) = revoke-checks id at a r r' e in
      let e' = revoke-total date_parse id at a r k v two found other can in ground arith

  rotate-checks :
      (new : KeyRecord) (a : DualControlApproval) (r r' : Registry)
      → rotate date_parse new a r ≡ ok r'
      → (assert_dual_control a ≡ ok tt)
        × (validate_record date_parse new ≡ ok new)
        × (Dict.get new.signing_key_id r.keys ≡ none)
        × (new.revoked_at ≡ none)
  unfolding rotate
  rotate-checks new a r r' e =
      let two : assert_dual_control a ≡ ok tt = ground arith in
      let (q, valid, e') = >>=-eq-ok (validate_record date_parse new) _ (rw two at e) in
      let same = eq_of_validate_record date_parse new q valid in
      (two, rw (← same) at valid, ground arith, ground arith)

  rotate-eq-ok :
      (new : KeyRecord) (a : DualControlApproval) (r r' : Registry)
      → IsValid date_parse r
      → rotate date_parse new a r ≡ ok r'
      → (r'.keys ≡ r.keys ++ (new.signing_key_id, new) ∷ [])
        × (r'.active_key_id ≡ new.signing_key_id)
  rotate-eq-ok new a r r' v e =
      let (two, valid, fresh, standing) = rotate-checks new a r r' e in
      let e' = rotate-total date_parse new a r v two valid fresh standing in
      (ground arith, ground arith)

  -- Rotation leaves every registered key: a signature by it is valid after the rotation exactly when
  -- it was before, at every instant and for every expected algorithm. The new key is the active one.
  pub rotate-keeps_history :
      (new : KeyRecord) (a : DualControlApproval) (r r' : Registry)
      → IsValid date_parse r
      → rotate date_parse new a r ≡ ok r'
      → (j signed_at : String) (expected : Option String) → Dict.get j r.keys ≢ none
      → (r'.active_key_id ≡ new.signing_key_id)
        × (is_valid_at date_parse j signed_at expected r'
            ≡ is_valid_at date_parse j signed_at expected r)
  unfolding is_valid_at
  rotate-keeps_history new a r r' v e j signed_at expected there =
      let (same, active) = rotate-eq-ok new a r r' v e in
      (active, ground (arith, get-append j r.keys ((new.signing_key_id, new) ∷ [])))

  get-revoked :
      (id at : String) (a : DualControlApproval) (r r' : Registry)
      → IsValid date_parse r
      → revoke date_parse id a at r ≡ ok r'
      → (j : String) → Dict.get j r'.keys ≡ Option.map (mark_revoked id at) (Dict.get j r.keys)
  get-revoked id at a r r' v e j =
      ap (λ (q : Registry). Dict.get j q.keys) (revoke-eq-ok id at a r r' v e)
      ∙ get-map_values (mark_revoked id at) j r.keys

  -- validity by one key, before and after its mark
  is_valid_at-mark :
      (id at : String) (r r' : Registry) (u t : ℕ) (j signed_at : String) (expected : Option String)
      (k : KeyRecord)
      → Dict.get j r.keys ≡ some k
      → Dict.get j r'.keys ≡ some (mark_revoked id at k)
      → date_parse at ≡ some u
      → date_parse signed_at ≡ some t
      → (k.signing_key_id ≢ id) ⊎ ((k.revoked_at ≡ none) × (t < u))
      → is_valid_at date_parse j signed_at expected r'
        ≡ is_valid_at date_parse j signed_at expected r
  unfolding is_valid_at mark_revoked
  is_valid_at-mark id at r r' u t j signed_at expected k found found' pu pt (inl other) =
      ground (arith, eq_iff k.signing_key_id id)
  is_valid_at-mark id at r r' u t j signed_at expected k found found' pu pt (inr (standing, lt)) =
      ground (arith, eq_iff k.signing_key_id id)

  other_or_standing :
      (r : Registry) (id j : String) (k q : KeyRecord) (t u : ℕ)
      → Dict.get id r.keys ≡ some k
      → Dict.get j r.keys ≡ some q
      → q.signing_key_id ≡ j
      → k.revoked_at ≡ none
      → t < u
      → (q.signing_key_id ≢ id) ⊎ ((q.revoked_at ≡ none) × (t < u))
  other_or_standing r id j k q t u found there named standing lt =
      elim (Bool-cases (str_eq q.signing_key_id id)) [
        | inl same ↦
            let here : Dict.get q.signing_key_id r.keys ≡ some q =
              ap (λ i. Dict.get i r.keys) named ∙ there in
            let also : Dict.get q.signing_key_id r.keys ≡ some k =
              ap (λ i. Dict.get i r.keys) ((eq_iff _ _).0 same) ∙ found in
            inr (ground arith, lt)
        | inr other ↦ inl (λ same. false≢true (sym other ∙ (eq_iff _ _).1 same))
      ]

  is_valid_at-revoked :
      (id at : String) (r' : Registry) (u t : ℕ) (signed_at : String) (expected : Option String)
      (k : KeyRecord)
      → Dict.get id r'.keys ≡ some (mark_revoked id at k)
      → k.signing_key_id ≡ id
      → date_parse at ≡ some u
      → date_parse signed_at ≡ some t
      → u ≤ t
      → is_valid_at date_parse id signed_at expected r' ≡ false
  unfolding is_valid_at mark_revoked
  is_valid_at-revoked id at r' u t signed_at expected k found' named pu pt le =
      ground (arith, eq_iff k.signing_key_id id)

  is_valid_at-missing :
      (r : Registry) (j signed_at : String) (expected : Option String)
      → Dict.get j r.keys ≡ none
      → is_valid_at date_parse j signed_at expected r ≡ false
  unfolding is_valid_at
  is_valid_at-missing r j signed_at expected e = ground arith

  -- A revocation as of an instant takes nothing from the past and nothing from other keys: for a
  -- signature made strictly before the instant, or by another key, validity is as it was, whatever
  -- algorithm is expected.
  pub revoke-keeps_history :
      (id at : String) (a : DualControlApproval) (r r' : Registry) (u : ℕ)
      → IsValid date_parse r
      → revoke date_parse id a at r ≡ ok r'
      → date_parse at ≡ some u
      → (j signed_at : String) (expected : Option String) (t : ℕ) → date_parse signed_at ≡ some t
      → (j ≢ id) ⊎ (t < u)
      → is_valid_at date_parse j signed_at expected r'
        ≡ is_valid_at date_parse j signed_at expected r
  revoke-keeps_history id at a r r' u v e pu j signed_at expected t pt apart =
      let (k, two, found, other, (standing, _, _)) = revoke-checks id at a r r' e in
      let after = get-revoked id at a r r' v e j in
      elim (Option-cases (Dict.get j r.keys)) [
        | inl missing ↦
            is_valid_at-missing r' j signed_at expected
              (after ∙ ap (Option.map (mark_revoked id at)) missing)
            ∙ sym (is_valid_at-missing r j signed_at expected missing)
        | inr (q, there) ↦
            let named = (get-IsKeyed date_parse r.keys j q v.keyed there).0 in
            is_valid_at-mark id at r r' u t j signed_at expected q there
              (after ∙ ap (Option.map (mark_revoked id at)) there) pu pt
              (elim apart [
                | inl away ↦ inl (λ same. away (sym named ∙ same))
                | inr lt ↦ other_or_standing r id j k q t u found there named standing lt
              ])
      ]

  -- From the instant of its revocation on, no signature by the revoked key is valid.
  pub revoke-ends_validity :
      (id at : String) (a : DualControlApproval) (r r' : Registry) (u : ℕ)
      → IsValid date_parse r
      → revoke date_parse id a at r ≡ ok r'
      → date_parse at ≡ some u
      → (signed_at : String) (expected : Option String) (t : ℕ) → date_parse signed_at ≡ some t
      → u ≤ t
      → is_valid_at date_parse id signed_at expected r' ≡ false
  revoke-ends_validity id at a r r' u v e pu signed_at expected t pt le =
      let (k, two, found, _, _) = revoke-checks id at a r r' e in
      is_valid_at-revoked id at r' u t signed_at expected k
        (get-revoked id at a r r' v e id ∙ ap (Option.map (mark_revoked id at)) found)
        (get-IsKeyed date_parse r.keys id k v.keyed found).0 pu pt le

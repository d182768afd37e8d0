-- ===== src/Signing/KeyRegistry/Lifecycle.antt =====
-- Rotation and revocation: when they succeed, the registry that they make, and what they leave of
-- the history.
use external_database_audit.Base.{
  ℕ, String, ◌≡◌, ◌≢◌, refl, ap, sym, ◌∙◌, subst, true, false, Option, none, some, [], ◌∷◌, ◌++◌,
  map, arith, eq_iff, eq_refl,
}
use mathlib.Core.Option
use mathlib.Core.List.{map-append}
use external_database_audit.Base.Dict
use external_database_audit.Base.Dict.{Dict, get-append, get-map_values}
use external_database_audit.Base.Result.{ok}
use external_database_audit.Signing.KeyRegistry.{
  KeyRecord, DualControlApproval, Registry, assert_dual_control, is_real_instant, precedes,
  mark_revoked, validate_record, create, rotate, revoke,
}
use external_database_audit.Signing.KeyRegistry.Invariant.{
  IsKeyed, IsValid, IsKeyed-append, get-IsKeyed,
}
use external_database_audit.Signing.KeyRegistry.Lookup.{create-values}

-- the entries of a map, with every value changed by `f`
abbrev pub map_values : (KeyRecord → KeyRecord) → Dict KeyRecord → Dict KeyRecord
map_values f m = map (λ e. (e.0, f e.1)) m

values-map_values :
    (f : KeyRecord → KeyRecord) (m : Dict KeyRecord)
    → Dict.values (map_values f m) ≡ map f (Dict.values m)
values-map_values f [] = refl
values-map_values f ((k, r) ∷ m) = rw (values-map_values f m)

get-append_new :
    (m : Dict KeyRecord) (k : String) (r : KeyRecord)
    → Dict.get k m ≡ none
    → Dict.get k (m ++ (k, r) ∷ []) ≡ some r
unfolding Dict.get
get-append_new m k r h = rw get-append (rw (h, eq_refl))

module _ (date_parse : String → Option ℕ) where
  -- A new record rotates into a valid registry when two principals approve it, it is a valid record
  -- that is not revoked, and its id is free. The result has all keys of the registry, unchanged and
  -- in their order, then the new key, which is the active one.
  pub rotate-total :
      (new : KeyRecord) (a : DualControlApproval) (r : Registry)
      → IsValid date_parse r
      → assert_dual_control a ≡ ok tt
      → validate_record date_parse new ≡ ok new
      → Dict.get new.signing_key_id r.keys ≡ none
      → new.revoked_at ≡ none
      → rotate date_parse new a r
        ≡ ok (record {
          keys = r.keys ++ (new.signing_key_id, new) ∷ [];
          active_key_id = new.signing_key_id;
        })
  unfolding rotate
  rotate-total new a r v two valid fresh standing =
      let created : create date_parse (Dict.values r.keys ++ new ∷ []) new.signing_key_id ≡ _ =
        ap (λ rs. create date_parse rs new.signing_key_id) (sym (map-append _ r.keys _))
        ∙ create-values date_parse (r.keys ++ (new.signing_key_id, new) ∷ []) new.signing_key_id new
            (IsKeyed-append date_parse r.keys new v.keyed valid fresh)
            (get-append_new r.keys new.signing_key_id new fresh) standing in
      ground arith

  -- what `revoke` checks of the key that it revokes
  abbrev pub IsRevocable : String → KeyRecord → Type 0
  IsRevocable at k =
      (k.revoked_at ≡ none)
      × (is_real_instant date_parse at ≡ true)
      × (precedes date_parse at k.created_at ≡ false)

  signing_key_id-mark :
      (id at : String) (k : KeyRecord) → (mark_revoked id at k).signing_key_id ≡ k.signing_key_id
  unfolding mark_revoked
  signing_key_id-mark id at k = ground arith

  revoked_at-mark :
      (id at : String) (k : KeyRecord)
      → k.signing_key_id ≢ id
      → k.revoked_at ≡ none
      → (mark_revoked id at k).revoked_at ≡ none
  unfolding mark_revoked
  revoked_at-mark id at k other e = ground (arith, eq_iff k.signing_key_id id)

  validate_record-mark :
      (id at : String) (k : KeyRecord)
      → (k.signing_key_id ≡ id → IsRevocable at k)
      → validate_record date_parse k ≡ ok k
      → validate_record date_parse (mark_revoked id at k) ≡ ok (mark_revoked id at k)
  unfolding mark_revoked validate_record
  validate_record-mark id at k can v = ground (arith, eq_iff k.signing_key_id id, can)

  IsKeyed-mark :
      (id at : String) (m : Dict KeyRecord)
      → ((k : KeyRecord) → Dict.get id m ≡ some k → IsRevocable at k)
      → IsKeyed date_parse m
      → IsKeyed date_parse (map_values (mark_revoked id at) m)
  unfolding Dict.get
  IsKeyed-mark id at [] can h = tt
  IsKeyed-mark id at ((k, r) ∷ m) can (own, valid, fresh, rest) = (
    own ∙ sym (signing_key_id-mark id at r),
    validate_record-mark id at r (λ same. can r (ground (arith, eq_iff k id))) valid,
    get-map_values (mark_revoked id at) k m ∙ ap (Option.map (mark_revoked id at)) fresh,
    IsKeyed-mark id at m (λ q found. can q (ground (arith, eq_iff k id))) rest,
  )

  -- A key is revoked in a valid registry when two principals approve it, the key is there, is not
  -- the active one and not revoked yet, and the instant parses and does not precede its creation.
  -- The result has the same keys in the same order, and only that key's revocation date is set.
  pub revoke-total :
      (id at : String) (a : DualControlApproval) (r : Registry) (k : KeyRecord)
      → IsValid date_parse r
      → assert_dual_control a ≡ ok tt
      → Dict.get id r.keys ≡ some k
      → id ≢ r.active_key_id
      → IsRevocable at k
      → revoke date_parse id a at r
        ≡ ok (record r { keys = map_values (mark_revoked id at) r.keys })
  unfolding revoke
  revoke-total id at a r k v two found other can =
      let (current, there, standing) = v.active in
      let named = (get-IsKeyed date_parse r.keys r.active_key_id current v.keyed there).0 in
      let created : create date_parse (map (mark_revoked id at) (Dict.values r.keys))
            r.active_key_id
          ≡ ok (record r { keys = map_values (mark_revoked id at) r.keys }) =
        ap (λ rs. create date_parse rs r.active_key_id)
          (sym (values-map_values (mark_revoked id at) r.keys))
        ∙ create-values date_parse (map_values (mark_revoked id at) r.keys) r.active_key_id
            (mark_revoked id at current)
            (IsKeyed-mark id at r.keys
              (λ q e. let same : k ≡ q = ground arith in subst (IsRevocable at) same can) v.keyed)
            (get-map_values (mark_revoked id at) r.active_key_id r.keys
              ∙ ap (Option.map (mark_revoked id at)) there)
            (revoked_at-mark id at current (λ e. other (sym e ∙ named)) standing) in
      ground (arith, eq_iff id r.active_key_id)

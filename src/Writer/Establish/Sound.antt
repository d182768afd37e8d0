-- ===== src/Writer/Establish/Sound.antt =====
-- The chain that the sealer establishes is one that the verifier accepts.
use external_database_audit.Base.{
  ℕ, suc, String, ◌≡◌, ◌≢◌, refl, ap, sym, ◌∙◌, subst, true, Option, none, some, List, [], ◌∷◌,
  ◌++◌, map,
}
use mathlib.Core.List.{append_assoc}
use external_database_audit.Base.Lists.{get_elem?, length, get_elem?-append_length, length-concat}
use external_database_audit.Base.Platform.{Platform}
use external_database_audit.Base.Result.{ok}
use external_database_audit.Base.Text.{◌+++◌}
use external_database_audit.Canonical.Hash.{is_hash_token, assert_hash_token, row_hash}
use external_database_audit.Cce.{Cce}
use external_database_audit.Cce.Core.{core_json}
use external_database_audit.Cce.Verify.{recompute_event_hash}
use external_database_audit.Evidence.{SegmentObjectRef, SegmentObjectHash, SegmentInput}
use external_database_audit.Evidence.Chain.{verify_segment_chain}
use external_database_audit.Evidence.Chain.Exact.{
  IsRefOf, IsHashOf, IsLinked, AreIntact, verify_segment_chain_iff,
}
use external_database_audit.Writer.Establish.{
  relink, rechained, hash_entries, chain_from, establish_chain,
}

-- every SHA-256 digest is 64 lowercase hex digits
abbrev pub HasHexDigests : Platform → Type 0
HasHexDigests js = (s : String) → is_hash_token ("sha256:" +++ js.sha256_hex s) ≡ true

abbrev pub IsToken : String → Type 0
IsToken s = is_hash_token s ≡ true

abbrev IsLinkTo : Option String → String → Type 0
IsLinkTo none prev = Unit
IsLinkTo (some p) prev = p ≡ prev

-- the entry of `object_hash_list` for an object
abbrev entry : ℕ → Cce → SegmentObjectHash
entry i c = record { seq = i; event_hash = c.evidence.event_hash; row_hash = c.evidence.row_hash }

abbrev AreListed : List SegmentObjectHash → ℕ → List Cce → Type 0
AreListed hashes i [] = Unit
AreListed hashes i (c ∷ cs) = (get_elem? hashes i ≡ some (entry i c)) × AreListed hashes (suc i) cs

AreListed-from :
    (pre : List SegmentObjectHash) (cs : List Cce)
    → AreListed (pre ++ hash_entries (length pre) cs) (length pre) cs
unfolding hash_entries
AreListed-from pre [] = tt
AreListed-from pre (c ∷ cs) = (
  get_elem?-append_length pre (entry (length pre) c) (hash_entries (suc (length pre)) cs),
  subst (λ hashes. AreListed hashes (suc (length pre)) cs)
      (append_assoc pre (entry (length pre) c ∷ []) (hash_entries (suc (length pre)) cs))
      (subst (λ n. AreListed ((pre ++ entry (length pre) c ∷ []) ++ hash_entries n cs) n cs)
        (length-concat pre (entry (length pre) c))
        (AreListed-from (pre ++ entry (length pre) c ∷ []) cs)),
)

module _ (js : Platform) where
  -- What the sealer needs of the objects: the list of references has each at its index, and each
  -- carries the event hash of its content, which is a token.
  abbrev pub AreReady : List SegmentObjectRef → ℕ → List Cce → Type 0
  AreReady refs i [] = Unit
  AreReady refs i (c ∷ cs) =
      IsRefOf i c (get_elem? refs i)
      × (recompute_event_hash js c ≡ ok c.evidence.event_hash)
      × IsToken c.evidence.event_hash
      × AreReady refs (suc i) cs

  row_hash-total :
      HasHexDigests js
      → (prev event : String) → IsToken prev
      → IsToken event
      → (row : String) × (row_hash js prev event ≡ ok row) × IsToken row
  unfolding row_hash assert_hash_token
  row_hash-total hex prev event p e =
      ("sha256:" +++ js.sha256_hex (prev +++ event), rw (p, e), hex (prev +++ event))

  recompute-relink :
      (c : Cce) (prev row : String)
      → recompute_event_hash js (relink c prev row) ≡ recompute_event_hash js c
  unfolding recompute_event_hash core_json
  recompute-relink c prev row = refl

  core-relink :
      (c : Cce) (prev row : String) (xs ys : List Cce)
      → map core_json xs ≡ map core_json ys
      → map core_json (relink c prev row ∷ xs) ≡ map core_json (c ∷ ys)
  unfolding core_json
  core-relink c prev row xs ys e = ap (λ rest. core_json c ∷ rest) e

  IsLinked-relink :
      (link : Option String) (c : Cce) (prev row : String)
      → IsLinkTo link prev
      → IsLinked link (relink c prev row)
  IsLinked-relink none c prev row l = tt
  IsLinked-relink (some p) c prev row l = ap some (sym l)

  -- the chained objects, intact wherever their entries are listed
  chain_from-total :
      HasHexDigests js
      → (refs : List SegmentObjectRef) (i : ℕ) (prev : String) (link : Option String)
        (cs : List Cce)
      → IsToken prev
      → IsLinkTo link prev
      → AreReady refs i cs
      → (out : List Cce) × (chain_from js prev cs ≡ ok out)
        × ((hashes : List SegmentObjectHash)
            → AreListed hashes i out
            → AreIntact js refs hashes i link out)
        × (map core_json out ≡ map core_json cs)
        × (cs ≢ [] → out ≢ [])
  unfolding chain_from
  chain_from-total hex refs i prev link [] t l r = ([], refl, λ hashes h. tt, refl, λ n. n)
  chain_from-total hex refs i prev link (c ∷ cs) t l (ref, event, token, later) =
      let (row, linked, row_token) = row_hash-total hex prev c.evidence.event_hash t token in
      let (out, chained, intact, same, _) =
        chain_from-total hex refs (suc i) row (some row) cs row_token refl later in
      (
        relink c prev row ∷ out,
        rw (linked, chained),
        λ hashes h. (
          record {
            referenced = ref;
            listed = subst (IsHashOf i (relink c prev row)) (sym h.0) (refl, refl, refl);
            event = recompute-relink c prev row ∙ event;
            row = linked;
            link = IsLinked-relink link c prev row l;
          },
          intact hashes h.1,
        ),
        core-relink c prev row out cs same,
        λ n. cc,
      )

-- The chain that the sealer establishes over objects in their final order, from a boundary that is a
-- hash token, always succeeds, and the verifier accepts it. It changes no object's content, only its
-- links. This needs that digests are 64 hex digits, that the segment is not empty, that its list of
-- references has each object at its index, and that each object carries the event hash of its
-- content, which is a token.
pub establish_chain-verifies :
    (js : Platform) (seg : SegmentInput) (boundary : String)
    → HasHexDigests js
    → IsToken boundary
    → seg.objects ≢ []
    → AreReady js seg.object_list 0 seg.objects
    → (out : SegmentInput) × (establish_chain js seg boundary ≡ ok out)
      × ((verify_segment_chain js (record {
        object_list = out.object_list;
        object_hash_list = out.object_hash_list;
        objects = out.objects;
      })).passed
          ≡ true)
      × (map core_json out.objects ≡ map core_json seg.objects)
unfolding establish_chain
establish_chain-verifies js seg boundary hex token full ready =
    let (chained, done, intact, same, filled) =
      chain_from-total js hex seg.object_list 0 boundary none seg.objects token tt ready in
    (
      rechained seg chained,
      rw done,
      (verify_segment_chain_iff js _).1
          (filled full, intact (hash_entries 0 chained) (AreListed-from [] chained)),
      same,
    )

-- ===== src/Canonical/Hash.antt =====
-- packages/canonical/src/hash.ts and chain.ts: hash tokens and the link of the row-hash chain.
use external_database_audit.Base.{
  ℕ, String, Bool, not, List, [], ◌∷◌, leb, ◌==◌, ◌&&◌, ◌||◌, if◌then◌else◌,
}
use external_database_audit.Base.Lists.{all, length}
use external_database_audit.Base.Platform.{Platform}
use external_database_audit.Base.Result.{Result, ok, reject_if, ◌>>=◌, ◌>>◌}
use external_database_audit.Base.Text.{codes, ◌+++◌}
use external_database_audit.Canonical.Json.{
  Json, CanonicalError, invalid_token, serialize_canonical,
}

abbrev is_hex : ℕ → Bool
is_hex c = (leb 48 c && leb c 57) || (leb 97 c && leb c 102)

-- the code points behind a prefix, if the prefix is there
abbrev pub after_prefix : List ℕ → List ℕ → List ℕ
after_prefix [] s = s
after_prefix (a ∷ p) [] = []
after_prefix (a ∷ p) (b ∷ s) = if a == b then after_prefix p s else []

-- `/^sha256:[0-9a-f]{64}$/`: what stands behind the prefix is 64 hex digits
unfoldable pub is_hash_token : String → Bool
is_hash_token token =
    let digest = after_prefix (codes "sha256:") (codes token) in
    length digest == 64 && all is_hex digest

unfoldable pub assert_hash_token : String → Result CanonicalError (Unit {0})
assert_hash_token token = reject_if (not (is_hash_token token)) (invalid_token token)

abbrev pub genesis_row_hash : String
genesis_row_hash = "sha256:0000000000000000000000000000000000000000000000000000000000000000"

module _ (js : Platform) where
  open js use {sha256_hex}

  unfoldable pub event_hash : String → String
  event_hash canonical_bytes = "sha256:" +++ sha256_hex canonical_bytes

  unfoldable pub hash_value : Json → Result CanonicalError String
  hash_value v = do s ← serialize_canonical js v; ok (event_hash s)

  unfoldable pub row_hash : String → String → Result CanonicalError String
  row_hash prev event = do
    assert_hash_token prev
    assert_hash_token event
    ok ("sha256:" +++ sha256_hex (prev +++ event))

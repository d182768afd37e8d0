-- ===== src/Anchoring/Identity.antt =====
-- The deterministic identity of an anchoring, services/anchoring/src/retry-cadence.ts. `sha1` is the
-- digest, from node:crypto, of some bytes followed by the UTF-8 bytes of a text.
use external_database_audit.Base.{
  ℕ, zero, suc, ◌+◌, ◌-◌, ◌*◌, ◌/◌, ◌%◌, String, List, [], ◌∷◌, leb, ◌==◌, if◌then◌else◌,
}
use external_database_audit.Base.Text.{codes, ◌+++◌}
use external_database_audit.Anchoring.Token.{ProviderType, type_text}

abbrev edam_anchor_ns : String
edam_anchor_ns = "2f9d6a1e-7c43-5b08-9e21-3a4b5c6d7e8f"

abbrev hex_value : ℕ → ℕ
hex_value c = if leb c b'9' then c - b'0' else c - b'a' + 10

abbrev hex_bytes : List ℕ → List ℕ
hex_bytes [] = []
hex_bytes (a ∷ []) = []
hex_bytes (a ∷ b ∷ s) = (16 * hex_value a + hex_value b) ∷ hex_bytes s

abbrev without_dashes : List ℕ → List ℕ
without_dashes [] = []
without_dashes (c ∷ s) = let rest = without_dashes s in if c == b'-' then rest else c ∷ rest

unfoldable pub uuid_to_bytes : String → List ℕ
uuid_to_bytes uuid = hex_bytes (without_dashes (codes uuid))

abbrev hex_digits : List String
hex_digits =
    "0" ∷ "1" ∷ "2" ∷ "3" ∷ "4" ∷ "5" ∷ "6" ∷ "7" ∷ "8" ∷ "9" ∷ "a" ∷ "b" ∷ "c" ∷ "d" ∷ "e" ∷ "f"
    ∷ []

abbrev digit_at : List String → ℕ → String
digit_at [] n = ""
digit_at (d ∷ ds) zero = d
digit_at (d ∷ ds) (suc n) = digit_at ds n

abbrev hex : ℕ → String
hex b = digit_at hex_digits (b / 16) +++ digit_at hex_digits (b % 16)

-- the bytes from the position on, with a dash before the bytes 4, 6, 8 and 10
abbrev uuid_from : ℕ → List ℕ → String
uuid_from i [] = ""
uuid_from i (b ∷ bs) =
    (if i == 4
      then "-"
      else if i == 6
      then "-"
      else if i == 8
      then "-"
      else if i == 10
      then "-"
      else "")
    +++ hex b
    +++ uuid_from (i + 1) bs

unfoldable pub bytes_to_uuid : List ℕ → String
bytes_to_uuid bs = uuid_from 0 bs

-- the first 16 bytes from the position on, with the version in byte 6 and the variant in byte 8
abbrev stamped : ℕ → ℕ → List ℕ → List ℕ
stamped zero i bs = []
stamped (suc more) i [] = []
stamped (suc more) i (b ∷ bs) =
    (if i == 6 then b % 16 + 80 else if i == 8 then b % 64 + 128 else b) ∷ stamped more (i + 1) bs

module _ (sha1 : List ℕ → String → List ℕ) where
  unfoldable pub uuidv5 : String → String → String
  unfolding bytes_to_uuid uuid_to_bytes
  uuidv5 name namespace = bytes_to_uuid (stamped 16 0 (sha1 (uuid_to_bytes namespace) name))

  unfoldable pub anchor_id_for : String → ProviderType → String
  anchor_id_for payload_hash type = uuidv5 (payload_hash +++ "|" +++ type_text type) edam_anchor_ns

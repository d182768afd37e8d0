-- ===== src/Writer/Establish.antt =====
-- `establishChain` of services/evidence-writer/src/sealer.ts.
pub mod Sound
pub mod Consistent
mod Tests
use external_database_audit.Base.{ℕ, suc, String, Option, none, some, List, [], ◌∷◌}
use external_database_audit.Base.Platform.{Platform}
use external_database_audit.Base.Result.{Result, ok, err, ◌>>=◌}
use external_database_audit.Canonical.Json.{CanonicalError}
use external_database_audit.Canonical.Hash.{row_hash}
use external_database_audit.Cce.{Cce}
use external_database_audit.Evidence.{SegmentObjectHash, SegmentInput}

-- the event under a new link of the chain; its event hash and its content stay
abbrev pub relink : Cce → String → String → Cce
relink c prev row = record c {
  evidence = record c.evidence { prev_row_hash = some prev; row_hash = row };
}

-- `chained.map((c, seq) => …)`, from the index `i`
unfoldable pub hash_entries : ℕ → List Cce → List SegmentObjectHash
hash_entries i [] = []
hash_entries i (c ∷ cs) =
    record { seq = i; event_hash = c.evidence.event_hash; row_hash = c.evidence.row_hash }
    ∷ hash_entries (suc i) cs

-- the row hash of the first and of the last object, if there are any
abbrev pub first_row : List Cce → String → String
first_row [] default = default
first_row (c ∷ cs) default = c.evidence.row_hash

abbrev pub last_row : List Cce → String → String
last_row [] default = default
last_row (c ∷ cs) default = last_row cs c.evidence.row_hash

-- the segment over the chained objects, with what depends on their hashes recomputed
abbrev pub rechained : SegmentInput → List Cce → SegmentInput
rechained seg chained = record seg {
  objects = chained;
  object_hash_list = hash_entries 0 chained;
  first_row_hash = first_row chained seg.first_row_hash;
  last_row_hash = last_row chained seg.last_row_hash;
}

module _ (js : Platform) where
  -- the loop of `establishChain`; `rowHash` throws on what is no hash token
  unfoldable pub chain_from : String → List Cce → Result CanonicalError (List Cce)
  chain_from prev [] = ok []
  chain_from prev (c ∷ cs) = do
    row ← row_hash js prev c.evidence.event_hash
    rest ← chain_from row cs
    ok (relink c prev row ∷ rest)

  unfoldable pub establish_chain : SegmentInput → String → Result CanonicalError SegmentInput
  establish_chain seg boundary = do
    chained ← chain_from boundary seg.objects
    ok (rechained seg chained)

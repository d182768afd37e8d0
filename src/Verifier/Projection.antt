-- ===== src/Verifier/Projection.antt =====
-- packages/verifier/src/verify-projection.ts: a projection against the objects of the segments. The
-- texts of the problems are left out.
use external_database_audit.Base.{
  String, ◌≡◌, ◌↔◌, refl, Bool, true, false, Option, none, some, List, [], ◌∷◌, ◌++◌, str_eq,
  eq_iff, if◌then◌else◌, arith,
}
use external_database_audit.Base.Dict
use external_database_audit.Base.Dict.{Dict}
use external_database_audit.Base.Lists.{any, All}
use external_database_audit.Cce.{Cce}
use external_database_audit.Verifier.Segments.{CheckOutcome, VerifierSegment}
use external_database_audit.Verifier.Continuity.{outcome}
use external_database_audit.Verifier.Grouping.{append-nil_iff, outcome_iff}

pub record ProjectionRow : Type 0 where
  pub object_id : String
  pub row_hash : String

-- the row hashes of the objects by their ids
unfoldable pub object_row_hashes : Dict String → List Cce → Dict String
object_row_hashes m [] = m
object_row_hashes m (c ∷ cs) = object_row_hashes (Dict.set c.envelope_id c.evidence.row_hash m) cs

unfoldable pub worm_row_hash : Dict String → List VerifierSegment → Dict String
unfolding object_row_hashes
worm_row_hash m [] = m
worm_row_hash m (s ∷ ss) = worm_row_hash (object_row_hashes m s.objects) ss

abbrev pub agrees : ProjectionRow → Option String → Bool
agrees row none = false
agrees row (some worm) = str_eq worm row.row_hash

-- the rows without an object, or with another row hash
unfoldable pub drifted : Dict String → List ProjectionRow → List String
drifted m [] = []
drifted m (row ∷ rows) =
    let rest = drifted m rows in
    if agrees row (Dict.get row.object_id m) then rest else row.object_id ∷ rest

-- the objects without a row
unfoldable pub without_row : List ProjectionRow → Dict String → List String
without_row rows [] = []
without_row rows ((id, worm) ∷ m) =
    let rest = without_row rows m in
    if any (λ row. str_eq row.object_id id) rows then rest else id ∷ rest

unfoldable pub recompute_projection_consistency :
    List VerifierSegment → List ProjectionRow → CheckOutcome
unfolding worm_row_hash drifted without_row outcome
recompute_projection_consistency segments rows =
    let worm = worm_row_hash [] segments in outcome ([], drifted worm rows ++ without_row rows worm)

abbrev AreAgreed : Dict String → List ProjectionRow → Type 0
AreAgreed m rows = All (λ row. Dict.get row.object_id m ≡ some row.row_hash) rows

abbrev AreProjected : List ProjectionRow → Dict String → Type 0
AreProjected rows m = All (λ e. any (λ row. str_eq row.object_id e.0) rows ≡ true) m

agrees_iff :
    (row : ProjectionRow) (o : Option String) → (agrees row o ≡ true) ↔ (o ≡ some row.row_hash)
agrees_iff row none = ground arith
agrees_iff row (some worm) = ground (arith, eq_iff worm row.row_hash)

kept_iff :
    (b : Bool) (id : String) (rest : List String)
    → ((if b then rest else id ∷ rest) ≡ []) ↔ ((b ≡ true) × (rest ≡ []))
kept_iff true id rest = ground arith
kept_iff false id rest = ground arith

drifted_iff :
    (m : Dict String) (rows : List ProjectionRow) → (drifted m rows ≡ []) ↔ AreAgreed m rows
unfolding drifted
drifted_iff m [] = ground arith
drifted_iff m (row ∷ rows) =
    let (split, join) =
      kept_iff (agrees row (Dict.get row.object_id m)) row.object_id (drifted m rows) in
    let (here→, here←) = agrees_iff row (Dict.get row.object_id m) in
    let (rest→, rest←) = drifted_iff m rows in
    (λ e. let (p, q) = split e in (here→ p, rest→ q), λ (p, q). join (here← p, rest← q))

without_row_iff :
    (rows : List ProjectionRow) (m : Dict String) → (without_row rows m ≡ []) ↔ AreProjected rows m
unfolding without_row
without_row_iff rows [] = ground arith
without_row_iff rows ((id, worm) ∷ m) =
    let (split, join) =
      kept_iff (any (λ row. str_eq row.object_id id) rows) id (without_row rows m) in
    let (rest→, rest←) = without_row_iff rows m in
    (λ e. let (p, q) = split e in (p, rest→ q), λ (p, q). join (p, rest← q))

-- The check of a projection passes exactly when every row has the row hash of the last object of its
-- id, and every object has a row.
recompute_projection_consistency_iff :
    (segments : List VerifierSegment) (rows : List ProjectionRow)
    → ((recompute_projection_consistency segments rows).passed ≡ true)
      ↔ (AreAgreed (worm_row_hash [] segments) rows × AreProjected rows (worm_row_hash [] segments))
unfolding recompute_projection_consistency
recompute_projection_consistency_iff segments rows =
    let worm = worm_row_hash [] segments in
    let (clean, passes) = outcome_iff ([], drifted worm rows ++ without_row rows worm) in
    let (split, join) = append-nil_iff (drifted worm rows) (without_row rows worm) in
    let (drifted→, drifted←) = drifted_iff worm rows in
    let (missing→, missing←) = without_row_iff rows worm in
    (
      λ e. let (p, q) = split (clean e).1 in (drifted→ p, missing→ q),
      λ (p, q). passes (refl, join (drifted← p, missing← q)),
    )

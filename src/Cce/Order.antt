-- ===== src/Cce/Order.antt =====
-- packages/cce-model/src/order.ts and `rowKeyHash` of packages/canonical/src/snapshot.ts: the global
-- order of change events. A comparison hashes the keys of two rows where all before ties, which throws
-- for a key that has no canonical form; sorting throws where a comparison that it makes does. Texts are
-- compared by their UTF-16 code units. `Number` of digits is exact here.
use external_database_audit.Base.{
  ℕ, ◌+◌, ◌-◌, ◌*◌, ◌/◌, ◌%◌, String, Bool, ◌&&◌, Option, none, some, List, [], ◌∷◌, ltb, leb, ◌==◌,
  str_eq, if◌then◌else◌,
}
use external_database_audit.Base.Platform.{Platform}
use external_database_audit.Base.Result.{Result, ok, ◌>>=◌}
use external_database_audit.Base.Text.{codes, codes_lt, decimal, ◌+++◌}
use external_database_audit.Canonical.Json.{
  Json, CanonicalError, str, obj, end, serialize_canonical,
}
use external_database_audit.Cce.Core.{object}
use external_database_audit.Cce.{
  Nullish, undefined, null, value, NormalizedObject, CceOffset, CceChangeItem, Cce,
}

abbrev units : List ℕ → List ℕ
units [] = []
units (c ∷ s) =
    if ltb c 65536
    then c ∷ units s
    else (55296 + (c - 65536) / 1024) ∷ (56320 + (c - 65536) % 1024) ∷ units s

-- `a < b`
unfoldable pub text_lt : String → String → Bool
text_lt a b = codes_lt (units (codes a)) (units (codes b))

-- the sign of a comparison
pub data Order : Type 0 where
  less same greater : Order

unfoldable pub cmp_str : String → String → Order
unfolding text_lt
cmp_str a b = if text_lt a b then less else if text_lt b a then greater else same

-- a field that is a text and not empty
abbrev truthy : Nullish String → Option String
truthy undefined = none
truthy null = none
truthy (value s) = if str_eq s "" then none else some s

abbrev is_digit : ℕ → Bool
is_digit c = leb b'0' c && leb c b'9'

-- the number written by the digits at the start of a reversed text, and what stands behind them;
-- `none` where there is no digit
abbrev digits_back : List ℕ → ℕ → ℕ → Option ℕ → Option ℕ × List ℕ
digits_back [] scale n found = (found, [])
digits_back (c ∷ s) scale n found =
    let m = n + scale * (c - b'0') in
    let further = digits_back s (scale * 10) m (some m) in
    if is_digit c then further else (found, c ∷ s)

abbrev reversed : List ℕ → List ℕ → List ℕ
reversed [] out = out
reversed (c ∷ s) out = reversed s (c ∷ out)

-- the digits before a dash that stands behind the last digits, if there are such, or the last digits
abbrev before_dash : ℕ → List ℕ → ℕ
before_dash last [] = last
before_dash last (c ∷ s) =
    let earlier = digits_back s 1 0 none in
    if c == b'-' then (elim earlier.0 [ none ↦ last | some n ↦ n ]) else last

-- the number of the first group of `/(\d+)(?:-\d+)?$/`, and 0 where there is no match
unfoldable pub gtid_number : String → ℕ
gtid_number s =
    let (last, rest) = digits_back (reversed (codes s) []) 1 0 none in
    elim last [ none ↦ 0 | some n ↦ before_dash n rest ]

abbrev or_zero : Nullish ℕ → ℕ
or_zero undefined = 0
or_zero null = 0
or_zero (value n) = n

abbrev resume_tuple : CceOffset → ℕ × String
resume_tuple o = elim (truthy o.resume_token) [ some t ↦ (0, t) | none ↦ (0, "") ]

abbrev binlog_tuple : CceOffset → ℕ × String
binlog_tuple o = elim (truthy o.binlog_file) [
  | some f ↦ (or_zero o.binlog_pos, f +++ ":" +++ decimal (or_zero o.binlog_pos))
  | none ↦ resume_tuple o
]

abbrev log_tuple : CceOffset → ℕ × String
log_tuple o = elim (truthy o.lsn) [
  | some l ↦ (0, l)
  | none ↦ elim (truthy o.scn) [ some s ↦ (0, s) | none ↦ binlog_tuple o ]
]

unfoldable pub offset_tuple : Cce → ℕ × String
unfolding gtid_number
offset_tuple c = elim (truthy c.offset.gtid) [
  | some g ↦ (gtid_number g, g)
  | none ↦ log_tuple c.offset
]

-- `object.primary_key ?? {}`
abbrev key_or_empty : Option Json → Json
key_or_empty none = obj end
key_or_empty (some Json.null) = obj end
key_or_empty (some Json.undefined) = obj end
key_or_empty (some k) = k

abbrev pub first_object : List CceChangeItem → Option NormalizedObject
first_object [] = none
first_object (i ∷ is) = some i.object

abbrev schema_of : Option NormalizedObject → String
schema_of none = ""
schema_of (some o) = o.schema

abbrev name_of : Option NormalizedObject → String
name_of none = ""
name_of (some o) = o.name

-- the epochs, the one that is there before the one that is not
unfoldable pub compare_epochs : Option String → Option String → Order
compare_epochs none none = same
compare_epochs none (some b) = greater
compare_epochs (some a) none = less
compare_epochs (some a) (some b) = if str_eq a b then same else cmp_str a b

-- a comparison, and the next where it ties
abbrev pub then_by : Order → Order → Order
then_by same o = o
then_by less o = less
then_by greater o = greater

-- before the next element, or behind it
abbrev pub place :
    Cce
    → Cce
    → List Cce
    → Result CanonicalError (List Cce)
    → Order
    → Result CanonicalError (List Cce)
place a b cs later greater = do rest ← later; ok (b ∷ rest)
place a b cs later less = ok (a ∷ b ∷ cs)
place a b cs later same = ok (a ∷ b ∷ cs)

module _ (js : Platform) where
  open js use {sha256_hex}

  unfoldable pub row_key_hash : NormalizedObject → Result CanonicalError String
  row_key_hash o = do
    s ← serialize_canonical js (
        object (
          ("schema", str o.schema)
          ∷ ("name", str o.name)
          ∷ ("primary_key", key_or_empty o.primary_key)
          ∷ []))
    ok (sha256_hex s)

  abbrev pub hash_or_empty : Option NormalizedObject → Result CanonicalError String
  hash_or_empty none = ok ""
  hash_or_empty (some o) = row_key_hash o

  -- the last two keys
  unfoldable pub compare_rows : Cce → Cce → Result CanonicalError Order
  compare_rows a b = do
    ah ← hash_or_empty (first_object a.changes)
    bh ← hash_or_empty (first_object b.changes)
    ok (then_by (cmp_str ah bh) (cmp_str a.envelope_id b.envelope_id))

  -- all keys before them
  unfoldable pub compare_keys : Cce → Cce → Order
  compare_keys a b =
      let (an, at) = offset_tuple a in
      let (bn, bt) = offset_tuple b in
      let ao = first_object a.changes in
      let bo = first_object b.changes in
      then_by (cmp_str a.transaction.commit_ts b.transaction.commit_ts) (
        then_by (if an == bn then same else if ltb an bn then less else greater) (
          then_by (cmp_str at bt) (
            then_by
              (compare_epochs a.completeness.snapshot_epoch_id b.completeness.snapshot_epoch_id)
              (then_by (cmp_str (schema_of ao) (schema_of bo))
                (cmp_str (name_of ao) (name_of bo))))))

  -- the last two keys where all before them tie
  unfoldable pub compare_ties : Order → Cce → Cce → Result CanonicalError Order
  unfolding compare_rows
  compare_ties less a b = ok less
  compare_ties greater a b = ok greater
  compare_ties same a b = compare_rows a b

  unfoldable pub compare_cce : Cce → Cce → Result CanonicalError Order
  compare_cce a b = compare_ties (compare_keys a b) a b

  -- a stable sort
  unfoldable pub insert_cce : Cce → List Cce → Result CanonicalError (List Cce)
  insert_cce a [] = ok (a ∷ [])
  insert_cce a (b ∷ cs) =
      let later = insert_cce a cs in do o ← compare_cce a b; place a b cs later o

  unfoldable pub order_cces : List Cce → Result CanonicalError (List Cce)
  unfolding insert_cce
  order_cces [] = ok []
  order_cces (a ∷ cs) = do rest ← order_cces cs; insert_cce a rest

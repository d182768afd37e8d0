-- ===== src/Canonical/Json.antt =====
-- packages/canonical/src/serialize.ts: the canonical form. A value of the model is what
-- JSON-like data can hold; `fractional` and `non_finite` stand for the numbers that are refused.
use external_database_audit.Base.{
  ℕ, ◌-◌, ◌^◌, String, Bool, true, false, List, [], ◌∷◌, ltb, str_eq, not, if◌then◌else◌,
}
use external_database_audit.Base.Lists.{any}
use external_database_audit.Base.Platform.{Platform}
use external_database_audit.Base.Result.{Result, ok, err, reject_if, ◌>>=◌, ◌>>◌}
use external_database_audit.Base.Sort.{sort}
use external_database_audit.Base.Text.{codes, codes_lt, decimal, join, ◌+++◌}

mutual
  pub data Json : Type 0 where
    null undefined : Json
    bool : Bool → Json
    num : (negative : Bool) → ℕ → Json
    fractional non_finite : Json
    bigint : (negative : Bool) → ℕ → Json
    str : String → Json
    arr : Items → Json
    obj : Members → Json

  pub data Items : Type 0 where
    nil : Items
    cons : Json → Items → Items

  pub data Members : Type 0 where
    end : Members
    member : String → Json → Members → Members

pub data CanonicalError : Type 0 where
  non_finite_number non_integer_number unsafe_integer unsupported_type : CanonicalError
  duplicate_key : String → CanonicalError
  invalid_token : String → CanonicalError

abbrev max_safe_integer : ℕ
max_safe_integer = 2 ^ 53 - 1

abbrev pub Written : Type 0
Written = Result CanonicalError String

-- `compareByCodePoint(a, b) <= 0` on the keys of two entries
abbrev pub key_before : String × Written → String × Written → Bool
key_before a b = not (codes_lt (codes b.0) (codes a.0))

-- `String(-0)` is `0`
abbrev signed : Bool → String → String
signed negative s = if negative then (if str_eq s "0" then s else "-" +++ s) else s

serialize_number : Bool → ℕ → Written
serialize_number negative n = do
  reject_if (ltb max_safe_integer n) unsafe_integer
  ok (signed negative (decimal n))

-- the first key that is there before, in the order of the entries
unfoldable pub check_duplicates :
    List String → List (String × Written) → Result CanonicalError (Unit {0})
check_duplicates seen [] = ok tt
check_duplicates seen ((k, v) ∷ entries) = do
  reject_if (any (λ j. str_eq j k) seen) (duplicate_key k)
  check_duplicates (k ∷ seen) entries

-- the values are written in the order of the sorted keys
unfoldable pub write_entries :
    (String → String) → List (String × Written) → Result CanonicalError (List String)
write_entries show [] = ok []
write_entries show ((k, v) ∷ entries) = do
  value ← v
  rest ← write_entries show entries
  ok ((show k +++ ":" +++ value) ∷ rest)

unfoldable pub write_object : (String → String) → List (String × Written) → Written
unfolding check_duplicates write_entries
write_object show entries = do
  check_duplicates [] entries
  parts ← write_entries show (sort key_before entries)
  ok ("{" +++ join "," parts +++ "}")

module _ (js : Platform) where
  open js use {nfc, quote}

  abbrev pub quoted : String → String
  quoted s = quote (nfc s)

  unfoldable mutual
    unfolding serialize_number write_object

    pub write : Json → Written
    write null = ok "null"
    write undefined = err unsupported_type
    write (bool true) = ok "true"
    write (bool false) = ok "false"
    write (num negative n) = serialize_number negative n
    write fractional = err non_integer_number
    write non_finite = err non_finite_number
    write (bigint negative n) = ok (signed negative (decimal n))
    write (str s) = ok (quoted s)
    write (arr xs) = do parts ← write_items xs; ok ("[" +++ join "," parts +++ "]")
    write (obj ms) = write_object quoted (write_members ms)

    pub write_items : Items → Result CanonicalError (List String)
    write_items nil = ok []
    write_items (cons x xs) = do s ← write x; rest ← write_items xs; ok (s ∷ rest)

    -- the entries in their order, each key normalised and each value written; `undefined` is dropped
    pub write_members : Members → List (String × Written)
    write_members end = []
    write_members (member k undefined ms) = write_members ms
    write_members (member k v ms) = (nfc k, write v) ∷ write_members ms

  unfoldable pub serialize_canonical : Json → Written
  unfolding write
  serialize_canonical v = write v

-- ===== src/Dlq/Payload.antt =====
-- infra/dlq/src/hash.ts: the hash of a failing payload and the identity that is derived from it.
-- `Runtime` is what the code takes from the JavaScript runtime: `JSON.stringify` (`none` where it
-- throws), `String`, the order of `Array.prototype.sort` on texts (is the comparison negative or
-- zero?), `toLowerCase`, and `RegExp.test`, by the source of the expression.
use external_database_audit.Base.{ℕ, zero, suc, String, Bool, Option, none, some, List, [], ◌∷◌}
use external_database_audit.Base.Platform.{Platform}
use external_database_audit.Base.Sort.{sort}
use external_database_audit.Base.Text.{◌+++◌}
use external_database_audit.Canonical.Json.{
  Json, null, undefined, str, arr, obj, Items, nil, cons, Members, end, member,
}
use Prim.Native.String as Native

pub record Runtime : Type 0 where
  pub json_stringify : Json → Option String
  pub to_string : Json → String
  pub before : String → String → Bool
  pub to_lower_case : String → String
  pub test : String → String → Bool

-- `s.slice(0, n)`
abbrev slice : ℕ → String → String
slice zero s = ""
slice (suc n) Native.[] = ""
slice (suc n) (Native.◌∷◌ c s) = Native.◌∷◌ c (slice n s)

abbrev to_members : List (String × Json) → Members
to_members [] = end
to_members ((k, v) ∷ entries) = member k v (to_members entries)

module _ (rt : Runtime) where
  unfoldable mutual
    pub sort_keys : Json → Json
    sort_keys (arr items) = arr (sort_items items)
    sort_keys (obj members) =
        obj (to_members (sort (λ a b. rt.before a.0 b.0) (sorted_entries members)))
    sort_keys v = v

    sort_items : Items → Items
    sort_items nil = nil
    sort_items (cons v vs) = cons (sort_keys v) (sort_items vs)

    sorted_entries : Members → List (String × Json)
    sorted_entries end = []
    sorted_entries (member k v ms) = (k, sort_keys v) ∷ sorted_entries ms

  -- `value ?? null`
  abbrev or_null : Json → Json
  or_null undefined = null
  or_null v = v

  abbrev stringified : Json → Option String → String
  stringified v none = rt.to_string v
  stringified v (some s) = s

  unfoldable pub stable_stringify : Json → String
  unfolding sort_keys
  stable_stringify (str s) = s
  stable_stringify v = stringified v (rt.json_stringify (sort_keys (or_null v)))

  module _ (p : Platform) where
    unfoldable pub payload_hash : Json → String
    unfolding stable_stringify
    payload_hash payload = "sha256:" +++ p.sha256_hex (stable_stringify payload)

-- `offset ?? ''`
abbrev or_blank : Option String → String
or_blank none = ""
or_blank (some s) = s

unfoldable pub deterministic_event_id : Platform → String → Option String → String → String
deterministic_event_id p engine offset p_hash =
    "dlq-" +++ slice 32 (p.sha256_hex (engine +++ "|" +++ or_blank offset +++ "|" +++ p_hash))

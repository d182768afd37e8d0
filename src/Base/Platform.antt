-- ===== src/Base/Platform.antt =====
-- What the code takes from the JavaScript runtime and node:crypto, none of it in the repository:
-- Unicode normalisation, the escaping of a text by `JSON.stringify`, SHA-256 in lowercase hex, and
-- `Date.parse` in milliseconds from the earliest instant that a `Date` holds (`none` is NaN).
use Prim.Native.Nat.{ℕ}
use Prim.Native.String.{String}
use mathlib.Core.Option.{Option}

pub record Platform : Type 0 where
  pub nfc : String → String
  pub quote : String → String
  pub sha256_hex : String → String
  pub date_parse : String → Option ℕ

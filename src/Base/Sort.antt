-- ===== src/Base/Sort.antt =====
-- `Array.prototype.sort`, a stable sort by a comparison: `before a b` says that the comparison of
-- `a` with `b` is negative or zero.
use mathlib.Core.Bool.{Bool}
use mathlib.Core.List.{List, [], ◌∷◌}
use external_database_audit.Base.Tests.{if◌then◌else◌}

module _ {ℓ} {A : Type ℓ} (before : A → A → Bool) where
  unfoldable pub insert : A → List A → List A
  insert a [] = a ∷ []
  insert a (b ∷ xs) = if before a b then a ∷ b ∷ xs else b ∷ insert a xs

  unfoldable pub sort : List A → List A
  unfolding insert
  sort [] = []
  sort (a ∷ xs) = insert a (sort xs)

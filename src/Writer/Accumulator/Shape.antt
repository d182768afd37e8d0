-- ===== src/Writer/Accumulator/Shape.antt =====
-- The invariant of the accumulator, and the objects that it holds.
use external_database_audit.Base.{
  ℕ, ◌+◌, ◌≡◌, refl, String, Bool, true, false, Option, none, some, [], ◌∷◌, str_eq, eq_iff,
  if◌then◌else◌, arith,
}
use external_database_audit.Base.Dict
use external_database_audit.Base.Dict.{Dict, get-set, get-delete}
use external_database_audit.Cce.{Cce}
use external_database_audit.Writer.Sealing.{OpenSegment, count}
use external_database_audit.Writer.Accumulator.{Accumulator, next_of}

-- no key stands twice
abbrev pub IsMap : Dict OpenSegment → Type 0
IsMap [] = Unit
IsMap ((k, s) ∷ m) = (Dict.get k m ≡ none) × IsMap m

get-set-none :
    (k j : String) (s : OpenSegment) (m : Dict OpenSegment)
    → str_eq k j ≡ false
    → Dict.get j m ≡ none
    → Dict.get j (Dict.set k s m) ≡ none
get-set-none k j s m other free = ground (arith, get-set k j s m)

pub IsMap-set :
    (k : String) (s : OpenSegment) (m : Dict OpenSegment) → IsMap m → IsMap (Dict.set k s m)
unfolding Dict.set Dict.get
IsMap-set k s [] h = (refl, tt)
IsMap-set k s ((j, t) ∷ m) (free, h) =
    elim (str_eq j k)
        as (λ b. str_eq j k ≡ b → IsMap (if b then (j, s) ∷ m else (j, t) ∷ Dict.set k s m)) [
          | true ↦ λ e. (free, h)
          | false ↦ λ e. (
            get-set-none k j s m (ground (arith, eq_iff j k, eq_iff k j)) free,
            IsMap-set k s m h,
          )
        ]
      refl

pub IsMap-delete : (k : String) (m : Dict OpenSegment) → IsMap m → IsMap (Dict.delete k m)
unfolding Dict.delete
IsMap-delete k [] h = tt
IsMap-delete k ((j, t) ∷ m) (free, h) =
    elim (str_eq j k) as (λ b. IsMap (if b then Dict.delete k m else (j, t) ∷ Dict.delete k m)) [
      | true ↦ IsMap-delete k m h
      | false ↦ (ground (arith, get-delete k j m), IsMap-delete k m h)
    ]

-- the objects of the open segments that pass a test
abbrev pub total : (Cce → Bool) → Dict OpenSegment → ℕ
total p [] = 0
total p ((k, s) ∷ m) = count p s.objects + total p m

abbrev pub count_at : (Cce → Bool) → Option OpenSegment → ℕ
count_at p none = 0
count_at p (some s) = count p s.objects

delete-free : (k : String) (m : Dict OpenSegment) → Dict.get k m ≡ none → Dict.delete k m ≡ m
unfolding Dict.delete Dict.get
delete-free k [] free = refl
delete-free k ((j, t) ∷ m) free = ground (arith, delete-free k m)

pub total-delete :
    (p : Cce → Bool) (k : String) (m : Dict OpenSegment)
    → IsMap m
    → total p (Dict.delete k m) + count_at p (Dict.get k m) ≡ total p m
unfolding Dict.delete Dict.get
total-delete p k [] h = refl
total-delete p k ((j, t) ∷ m) (free, h) =
    ground (arith, eq_iff j k, delete-free k m, total-delete p k m h)

pub total-set :
    (p : Cce → Bool) (k : String) (s : OpenSegment) (m : Dict OpenSegment)
    → total p (Dict.set k s m) + count_at p (Dict.get k m) ≡ total p m + count p s.objects
unfolding Dict.set Dict.get
total-set p k s [] = omega arith
total-set p k s ((j, t) ∷ m) = ground (arith, total-set p k s m)

-- every segment is open under its database, and has the next number of it
pub record IsSound (acc : Accumulator) : Type 0 where
  pub distinct : IsMap acc.opened
  pub keyed : (k : String) (s : OpenSegment) → Dict.get k acc.opened ≡ some s → s.db_id ≡ k
  pub numbered :
      (k : String) (s : OpenSegment)
      → Dict.get k acc.opened ≡ some s
      → s.segment_sequence ≡ next_of k acc

-- ===== src/Prelude/Any.antt =====
-- A member of a list with a property.
use mathlib.Core.Logic.{◌⊎◌, inl, inr}
use mathlib.Core.Bool.{Bool}
use mathlib.Core.List.{List, [], ◌∷◌}
use sams_simlplifynext.Prelude.Tests.{Bool-cases}
use sams_simlplifynext.Prelude.Order.{sorted, insert}

-- Some member has the property.
abbrev pub Any : {A : Type 0} → (A → Type 0) → List A → Type 0
Any P [] = ⊥
Any P (x ∷ xs) = P x ⊎ Any P xs

module _ {A : Type 0} (le : A → A → Bool) (P : A → Type 0) where
  Any-insert : (x : A) (xs : List A) → Any P (insert le x xs) → P x ⊎ Any P xs
  unfolding insert
  Any-insert x [] a = a
  Any-insert x (y ∷ xs) a = elim (Bool-cases (le x y)) [
    | inl e ↦ rw e at a
    | inr e ↦
        let b : P y ⊎ Any P (insert le x xs) = rw e at a in
        elim b [
          | inl p ↦ inr (inl p)
          | inr r ↦ elim (Any-insert x xs r) [ inl p ↦ inl p | inr q ↦ inr (inr q) ]
        ]
  ]

  pub Any-sorted : (xs : List A) → Any P (sorted le xs) → Any P xs
  unfolding sorted
  Any-sorted [] a = a
  Any-sorted (x ∷ xs) a = elim (Any-insert x (sorted le xs) a) [
    | inl p ↦ inl p
    | inr q ↦ inr (Any-sorted xs q)
  ]

-- ===== src/Prelude/Order.antt =====
-- Python's `sorted` for a Boolean order on keys: a stable insertion sort, and its laws.
use Prim.Native.String.{String}
use mathlib.Core.Path.{◌≡◌, refl, sym, ap, ◌∙◌}
use mathlib.Core.Logic.{inl, inr}
use mathlib.Core.Bool.{Bool, true, false, not, ◌&&◌, ◌||◌}
use mathlib.Core.List.{List, [], ◌∷◌, ◌++◌, Perm, map}
use mathlib.Core.List.Perm
use native.Mathlib.Omega.{arith}
use sams_simlplifynext.Prelude.Tests.{if◌then◌else◌, Bool-cases}
use sams_simlplifynext.Prelude.Lists.{All}
use sams_simlplifynext.Prelude.Text.{text_le, text_le_total, text_le_refl, text_le_trans}

module _ {ℓ} {A : Type ℓ} (le : A → A → Bool) where
  -- A new item goes in front of those that it ties with.
  unfoldable pub insert : A → List A → List A
  insert x [] = x ∷ []
  insert x (y ∷ ys) = let rest = insert x ys in if le x y then x ∷ y ∷ ys else y ∷ rest

  unfoldable pub sorted : List A → List A
  unfolding insert
  sorted [] = []
  sorted (x ∷ xs) = insert x (sorted xs)

  abbrev pub IsSorted : List A → Type ℓ
  IsSorted [] = Unit
  IsSorted (x ∷ xs) = All (λ y. le x y ≡ true) xs × IsSorted xs

  insert-perm : (x : A) (l : List A) → Perm (insert x l) (x ∷ l)
  unfolding insert
  insert-perm x [] = Perm.rfl
  insert-perm x (y ∷ ys) = elim (Bool-cases (le x y)) [
    | inl e ↦ rw e Perm.rfl
    | inr e ↦ rw e (Perm.trans (Perm.cons y (insert-perm x ys)) (Perm.swap x y ys))
  ]

  pub sorted-perm : (l : List A) → Perm (sorted l) l
  unfolding sorted
  sorted-perm [] = Perm.rfl
  sorted-perm (x ∷ xs) = Perm.trans (insert-perm x (sorted xs)) (Perm.cons x (sorted-perm xs))

-- A total order on keys; items with the same key tie.
pub record IsOrder {ℓ} {A : Type ℓ} (le : A → A → Bool) : Type ℓ where
  pub total : (a b : A) → le a b ≡ false → le b a ≡ true
  pub trans : (a b c : A) → le a b ≡ true → le b c ≡ true → le a c ≡ true

module _ {ℓ} {A : Type ℓ} (le : A → A → Bool) (o : IsOrder le) where
  le-All :
      (x y : A) (l : List A)
      → le x y ≡ true
      → All (λ z. le y z ≡ true) l
      → All (λ z. le x z ≡ true) l
  le-All x y [] h a = tt
  le-All x y (z ∷ l) h a = (o.trans x y z h a.0, le-All x y l h a.1)

  insert-All :
      (w x : A) (l : List A)
      → le w x ≡ true
      → All (λ z. le w z ≡ true) l
      → All (λ z. le w z ≡ true) (insert le x l)
  unfolding insert
  insert-All w x [] h a = (h, tt)
  insert-All w x (y ∷ ys) h a = elim (Bool-cases (le x y)) [
    | inl e ↦ rw e (h, a)
    | inr e ↦ rw e (a.0, insert-All w x ys h a.1)
  ]

  insert-IsSorted : (x : A) (l : List A) → IsSorted le l → IsSorted le (insert le x l)
  unfolding insert
  insert-IsSorted x [] s = (tt, tt)
  insert-IsSorted x (y ∷ ys) s = elim (Bool-cases (le x y)) [
    | inl e ↦ rw e ((e, le-All x y ys e s.0), s)
    | inr e ↦ rw e (insert-All y x ys (o.total x y e) s.0, insert-IsSorted x ys s.1)
  ]

  pub sorted-IsSorted : (l : List A) → IsSorted le (sorted le l)
  unfolding sorted
  sorted-IsSorted [] = tt
  sorted-IsSorted (x ∷ xs) = insert-IsSorted x (sorted le xs) (sorted-IsSorted xs)

  -- Two items that do not tie may be inserted in either order.
  pub insert_comm :
      (x y : A) (l : List A)
      → le x y ≡ false
      → insert le x (insert le y l) ≡ insert le y (insert le x l)
  unfolding insert
  insert_comm x y [] h = ground (arith, o.total x y h)
  insert_comm x y (z ∷ l) h = ground (
    arith,
    o.total x y h,
    insert_comm x y l h,
    o.trans x z y,
    o.total x z,
    o.total y z,
    o.trans y x z,
  )

  -- Sorting is insertion at any place for an item that ties with none before it.
  pub sorted-middle :
      (x : A) (xs ys : List A)
      → All (λ y. le x y ≡ false) xs
      → sorted le (xs ++ x ∷ ys) ≡ insert le x (sorted le (xs ++ ys))
  unfolding sorted
  sorted-middle x [] ys h = refl
  sorted-middle x (y ∷ xs) ys h =
      ap (insert le y) (sorted-middle x xs ys h.1)
      ∙ sym (insert_comm x y (sorted le (xs ++ ys)) h.0)

module _ {ℓ} {A : Type ℓ} (le : A → A → Bool) where
  pub insert_last : (x : A) (l : List A) → All (λ y. le x y ≡ false) l → insert le x l ≡ l ++ x ∷ []
  unfolding insert
  insert_last x [] h = refl
  insert_last x (y ∷ l) h = rw h.0 (ap (λ m. y ∷ m) (insert_last x l h.1))

  insert_each {κ} : (P : A → Type κ) (x : A) (l : List A) → P x → All P l → All P (insert le x l)
  unfolding insert
  insert_each P x [] p a = (p, tt)
  insert_each P x (y ∷ l) p a = elim (Bool-cases (le x y)) [
    | inl e ↦ rw e (p, a)
    | inr e ↦ rw e (a.0, insert_each P x l p a.1)
  ]

  pub sorted-All {κ} : (P : A → Type κ) (l : List A) → All P l → All P (sorted le l)
  unfolding sorted
  sorted-All P [] a = tt
  sorted-All P (x ∷ l) a = insert_each P x (sorted le l) a.0 (sorted-All P l a.1)

  insert_each_rev {κ} :
      (P : A → Type κ) (x : A) (l : List A) → All P (insert le x l) → P x × All P l
  unfolding insert
  insert_each_rev P x [] a = (a.0, tt)
  insert_each_rev P x (y ∷ l) a = elim (Bool-cases (le x y)) [
    | inl e ↦ rw e at a
    | inr e ↦
        let b : P y × All P (insert le x l) = rw e at a in
        let (p, rest) = insert_each_rev P x l b.1 in (p, (b.0, rest))
  ]

  pub All-sorted {κ} : (P : A → Type κ) (l : List A) → All P (sorted le l) → All P l
  unfolding sorted
  All-sorted P [] a = tt
  All-sorted P (x ∷ l) a =
      let (p, rest) = insert_each_rev P x (sorted le l) a in (p, All-sorted P l rest)

-- A tuple key: the first order decides, and the second where the first ties.
unfoldable pub lex {ℓ} : {A : Type ℓ} → (A → A → Bool) → (A → A → Bool) → A → A → Bool
lex le rest a b = le a b && (not (le b a) || rest a b)

-- A key that is a text.
unfoldable pub by_text {ℓ} : {A : Type ℓ} → (A → String) → A → A → Bool
unfolding text_le
by_text key a b = text_le (key a) (key b)

pub by_text_lem {ℓ} :
    {A : Type ℓ} (key : A → String) (a b : A)
    → by_text key a b ≡ true
    → text_le (key a) (key b) ≡ true
unfolding by_text
by_text_lem key a b h = h

-- A pair in the order of a text key and then of other keys: the texts do not fall, and where they
-- are the same the other keys decide.
pub lex-by_text {ℓ κ} :
    {A : Type ℓ} {rest : A → A → Bool} {R : A → A → Type κ} (key : A → String)
    → ((a b : A) → rest a b ≡ true → R a b)
    → (a b : A) → lex (by_text key) rest a b ≡ true
    → (text_le (key a) (key b) ≡ true) × (key a ≡ key b → R a b)
unfolding lex by_text
lex-by_text key next a b h = (
  ground arith,
  λ same. next a b (ground (arith, ap (text_le (key b)) same, text_le_refl (key b))),
)

-- Every earlier item stands in the relation to every later one.
abbrev pub AreRanked {ℓ κ} : {A : Type ℓ} → (A → A → Type κ) → List A → Type κ
AreRanked R [] = Unit
AreRanked R (x ∷ xs) = All (R x) xs × AreRanked R xs

module _ {ℓ κ} {A : Type ℓ} (le : A → A → Bool) (R : A → A → Type κ)
    (each : (a b : A) → le a b ≡ true → R a b) where
  each-All : (x : A) (xs : List A) → All (λ y. le x y ≡ true) xs → All (R x) xs
  each-All x [] h = tt
  each-All x (y ∷ xs) h = (each x y h.0, each-All x xs h.1)

  pub IsSorted-AreRanked : (l : List A) → IsSorted le l → AreRanked R l
  IsSorted-AreRanked [] h = tt
  IsSorted-AreRanked (x ∷ xs) h = (each-All x xs h.0, IsSorted-AreRanked xs h.1)

pub by_text-IsOrder {ℓ} : {A : Type ℓ} (key : A → String) → IsOrder (by_text key)
unfolding by_text
by_text-IsOrder key = record {
  total = λ a b h. text_le_total (key a) (key b) h;
  trans = λ a b c h k. text_le_trans (key a) (key b) (key c) h k;
}

module _ {ℓ} {A : Type ℓ} (le rest : A → A → Bool) (o : IsOrder le) (r : IsOrder rest) where
  lex_total : (a b : A) → lex le rest a b ≡ false → lex le rest b a ≡ true
  unfolding lex
  lex_total a b h = ground (arith, o.total a b, o.total b a, r.total a b)

  lex_trans : (a b c : A) → lex le rest a b ≡ true → lex le rest b c ≡ true → lex le rest a c ≡ true
  unfolding lex
  lex_trans a b c h k = ground (arith, o.trans a b c, o.trans c a b, o.trans b c a, r.trans a b c)

  pub lex-IsOrder : IsOrder (lex le rest)
  lex-IsOrder = record { total = lex_total; trans = lex_trans }

insert-map :
    {A B : Type 0} (f : A → B) (le : B → B → Bool) (x : A) (xs : List A)
    → insert le (f x) (map f xs) ≡ map f (insert (λ a b. le (f a) (f b)) x xs)
unfolding insert
insert-map f le x [] = refl
insert-map f le x (y ∷ xs) = elim (Bool-cases (le (f x) (f y))) [
  | inl e ↦ rw e refl
  | inr e ↦ rw e (ap (λ l. f y ∷ l) (insert-map f le x xs))
]

-- Sorting by what a function gives, before or after it.
pub sorted-map :
    {A B : Type 0} (f : A → B) (le : B → B → Bool) (xs : List A)
    → sorted le (map f xs) ≡ map f (sorted (λ a b. le (f a) (f b)) xs)
unfolding sorted
sorted-map f le [] = refl
sorted-map f le (x ∷ xs) =
    ap (insert le (f x)) (sorted-map f le xs)
    ∙ insert-map f le x (sorted (λ a b. le (f a) (f b)) xs)

-- ===== src/Secrets/Matcher/Sorting.antt =====
-- What the stable sort keeps, and what it brings about.
use vaultr.Prelude.{
  ◌≡◌, ◌⊎◌, inl, inr, Bool, true, false, List, [], ◌∷◌, ◌++◌, All, Any, Bool-cases,
}
use vaultr.Secrets.Matcher.{insert, sort}

-- A relation between each element and those behind it.
abbrev pub Pairwise {ℓ} : {A : Type ℓ} → (A → A → Type 0) → List A → Type 0
Pairwise R [] = Unit
Pairwise R (x ∷ xs) = All (R x) xs × Pairwise R xs

pub All-append {ℓ} :
    {A : Type ℓ} (P : A → Type 0) (xs ys : List A) → All P xs → All P ys → All P (xs ++ ys)
All-append P [] ys h k = k
All-append P (x ∷ xs) ys h k = (h.0, All-append P xs ys h.1 k)

pub All-implies {ℓ} :
    {A : Type ℓ} (P Q : A → Type 0) (xs : List A) → ((a : A) → P a → Q a) → All P xs → All Q xs
All-implies P Q [] f h = tt
All-implies P Q (x ∷ xs) f h = (f x h.0, All-implies P Q xs f h.1)

-- What sorting keeps.
module _ {ℓ} {A : Type ℓ} (le : A → A → Bool) (P : A → Type 0) where
  pub All-insert : (x : A) (ys : List A) → P x → All P ys → All P (insert le x ys)
  unfolding insert
  All-insert x [] h k = (h, k)
  All-insert x (y ∷ ys) h k = elim (Bool-cases (le x y)) [
    | inl before ↦ rw before (h, k)
    | inr behind ↦ rw behind (k.0, All-insert x ys h k.1)
  ]

  pub All-sort : (xs : List A) → All P xs → All P (sort le xs)
  unfolding sort
  All-sort [] h = tt
  All-sort (x ∷ xs) h = All-insert x (sort le xs) h.0 (All-sort xs h.1)

  pub All-of_insert : (x : A) (ys : List A) → All P (insert le x ys) → P x × All P ys
  unfolding insert
  All-of_insert x [] h = h
  All-of_insert x (y ∷ ys) h = elim (Bool-cases (le x y)) [
    | inl before ↦ rw before at h
    | inr behind ↦ let k = rw behind at h in let (a, b) = All-of_insert x ys k.1 in (a, (k.0, b))
  ]

  pub All-of_sort : (xs : List A) → All P (sort le xs) → All P xs
  unfolding sort
  All-of_sort [] h = tt
  All-of_sort (x ∷ xs) h = let (a, b) = All-of_insert x (sort le xs) h in (a, All-of_sort xs b)

  pub Any-insert : (x : A) (ys : List A) → P x ⊎ Any P ys → Any P (insert le x ys)
  unfolding insert
  Any-insert x [] h = h
  Any-insert x (y ∷ ys) h = elim (Bool-cases (le x y)) [
    | inl before ↦ rw before h
    | inr behind ↦ rw behind (elim h [
      | inl here ↦ inr (Any-insert x ys (inl here))
      | inr (inl first) ↦ inl first
      | inr (inr later) ↦ inr (Any-insert x ys (inr later))
    ])
  ]

  pub Any-sort : (xs : List A) → Any P xs → Any P (sort le xs)
  unfolding sort
  Any-sort [] h = h
  Any-sort (x ∷ xs) h = elim h [
    | inl here ↦ Any-insert x (sort le xs) (inl here)
    | inr later ↦ Any-insert x (sort le xs) (inr (Any-sort xs later))
  ]

module _ {ℓ} {A : Type ℓ} (le : A → A → Bool) (R : A → A → Type 0) where
  pub Pairwise-insert :
      ((a b : A) → R a b → R b a)
      → (x : A) (ys : List A) → All (R x) ys
      → Pairwise R ys
      → Pairwise R (insert le x ys)
  unfolding insert
  Pairwise-insert flip x [] h k = (tt, tt)
  Pairwise-insert flip x (y ∷ ys) h k = elim (Bool-cases (le x y)) [
    | inl before ↦ rw before (h, k)
    | inr behind ↦
        rw behind (All-insert le (R y) x ys (flip x y h.0) k.0, Pairwise-insert flip x ys h.1 k.1)
  ]

  -- A symmetric relation holds in any order.
  pub Pairwise-sort :
      ((a b : A) → R a b → R b a) → (xs : List A) → Pairwise R xs → Pairwise R (sort le xs)
  unfolding sort
  Pairwise-sort flip [] h = tt
  Pairwise-sort flip (x ∷ xs) h =
      Pairwise-insert flip x (sort le xs) (All-sort le (R x) xs h.0) (Pairwise-sort flip xs h.1)

  -- A relation that the order decides holds once sorted.
  module _ (lower : (a b : A) → le a b ≡ true → R a b) (upper : (a b : A) → le a b ≡ false → R b a)
      (through : (a b c : A) → R a b → R b c → R a c) where
    pub insert-Pairwise : (x : A) (ys : List A) → Pairwise R ys → Pairwise R (insert le x ys)
    unfolding insert
    insert-Pairwise x [] k = (tt, tt)
    insert-Pairwise x (y ∷ ys) k = elim (Bool-cases (le x y)) [
      | inl before ↦ rw before (
        (lower x y before, All-implies (R y) (R x) ys (λ c. through x y c (lower x y before)) k.0),
        k,
      )
      | inr behind ↦
          rw behind (All-insert le (R y) x ys (upper x y behind) k.0, insert-Pairwise x ys k.1)
    ]

    pub sort-Pairwise : (xs : List A) → Pairwise R (sort le xs)
    unfolding sort
    sort-Pairwise [] = tt
    sort-Pairwise (x ∷ xs) = insert-Pairwise x (sort le xs) (sort-Pairwise xs)

-- ===== src/Store/Table.antt =====
-- Tables as lists of rows, and the SQL statements that the repository runs on them.
use idiolect.Common.{
  ◌&&◌, ℕ, ◌+◌, ◌≤◌, ◌≡◌, refl, Bool, true, Option, none, some, List, [], ◌∷◌, ◌++◌, arith,
  if◌then◌else◌, not,
}

module _ {ℓ} {A : Type ℓ} where
  -- SELECT … WHERE p, for one row.
  unfoldable pub first : (A → Bool) → List A → Option A
  first p [] = none
  first p (x ∷ xs) = if p x then some x else first p xs

  -- SELECT COUNT(*) … WHERE p.
  unfoldable pub count : (A → Bool) → List A → ℕ
  count p [] = 0
  count p (x ∷ xs) = (if p x then 1 else 0) + count p xs

  -- UPDATE … SET f WHERE p.
  unfoldable pub update : (A → Bool) → (A → A) → List A → List A
  update p f [] = []
  update p f (x ∷ xs) = (if p x then f x else x) ∷ update p f xs

  -- SELECT … WHERE p, for all rows.
  unfoldable pub select : (A → Bool) → List A → List A
  select p [] = []
  select p (x ∷ xs) = let rest = select p xs in if p x then x ∷ rest else rest

  -- DELETE … WHERE p.
  unfoldable pub delete : (A → Bool) → List A → List A
  unfolding select
  delete p xs = select (λ x. not (p x)) xs

  -- INSERT: the new row stands last.
  abbrev pub insert : A → List A → List A
  insert x xs = xs ++ x ∷ []

  pub first-insert_new :
      (p : A → Bool) (y : A) (xs : List A)
      → first p xs ≡ none
      → first p (insert y xs) ≡ (if p y then some y else none)
  unfolding first
  first-insert_new p y [] h = refl
  first-insert_new p y (x ∷ xs) h = ground (arith, first-insert_new p y xs)

  pub first-insert_old :
      (p : A → Bool) (y z : A) (xs : List A) → first p xs ≡ some z → first p (insert y xs) ≡ some z
  unfolding first
  first-insert_old p y z [] h = cc
  first-insert_old p y z (x ∷ xs) h = ground (arith, first-insert_old p y z xs)

  pub first-holds : (p : A → Bool) (z : A) (xs : List A) → first p xs ≡ some z → p z ≡ true
  unfolding first
  first-holds p z [] h = cc
  first-holds p z (x ∷ xs) h = ground (arith, first-holds p z xs)

  pub count-insert :
      (p : A → Bool) (y : A) (xs : List A)
      → count p (insert y xs) ≡ count p xs + (if p y then 1 else 0)
  unfolding count
  count-insert p y [] = ground arith
  count-insert p y (x ∷ xs) = ground (arith, count-insert p y xs)

  pub count-update :
      (p q : A → Bool) (f : A → A) (xs : List A)
      → ((x : A) → q (f x) ≡ q x)
      → count q (update p f xs) ≡ count q xs
  unfolding count update
  count-update p q f [] h = refl
  count-update p q f (x ∷ xs) h = ground (arith, h x, count-update p q f xs h)

  pub count-delete : (p q : A → Bool) (xs : List A) → count q (delete p xs) ≤ count q xs
  unfolding count delete select
  count-delete p q [] = omega arith
  count-delete p q (x ∷ xs) = ground (arith, count-delete p q xs)

  -- An update that keeps the test of a look-up is seen by it where the row is updated.
  pub first-update :
      (p q : A → Bool) (f : A → A) (xs : List A)
      → ((x : A) → q (f x) ≡ q x)
      → first q (update p f xs)
        ≡ elim (first q xs) [ none ↦ none | some x ↦ some (if p x then f x else x) ]
  unfolding first update
  first-update p q f [] h = refl
  first-update p q f (x ∷ xs) h = ground (arith, h x, first-update p q f xs h)

  pub first-select :
      (p q : A → Bool) (xs : List A)
      → ((x : A) → q x ≡ true → p x ≡ true)
      → first q (select p xs) ≡ first q xs
  unfolding first select
  first-select p q [] h = refl
  first-select p q (x ∷ xs) h = ground (arith, h x, first-select p q xs h)

  -- No row is left that the deletion was about.
  pub count-delete_all :
      (p q : A → Bool) (xs : List A)
      → ((x : A) → q x ≡ true → p x ≡ true)
      → count q (delete p xs) ≡ 0
  unfolding count delete select
  count-delete_all p q [] h = refl
  count-delete_all p q (x ∷ xs) h = ground (arith, h x, count-delete_all p q xs h)

  -- An update leaves no row that it is about without what it sets, and the other rows as they were.
  pub count-update_all :
      (p good : A → Bool) (f : A → A) (xs : List A)
      → ((x : A) → p (f x) ≡ p x)
      → ((x : A) → good (f x) ≡ true)
      → count (λ x. p x && not (good x)) (update p f xs) ≡ 0
  unfolding count update
  count-update_all p good f [] keeps sets = refl
  count-update_all p good f (x ∷ xs) keeps sets =
      ground (arith, keeps x, sets x, count-update_all p good f xs keeps sets)

  pub select-update_others :
      (p : A → Bool) (f : A → A) (xs : List A)
      → ((x : A) → p (f x) ≡ p x)
      → select (λ x. not (p x)) (update p f xs) ≡ select (λ x. not (p x)) xs
  unfolding select update
  select-update_others p f [] keeps = refl
  select-update_others p f (x ∷ xs) keeps =
      ground (arith, keeps x, select-update_others p f xs keeps)

-- ===== src/Prelude/Sort.antt =====
-- `sort_by_key` of a `Vec`: a stable sort, written here as insertion sort.
use rlink_rs.Prelude.{
  ℕ, ◌≤◌, ◌⊎◌, inl, inr, List, [], ◌∷◌, arith, All, leb, if◌then◌else◌, Bool-cases,
}

module _ {ℓ} {A : Type ℓ} (key : A → ℕ) where
  unfoldable pub insert_by_key : A → List A → List A
  insert_by_key a [] = a ∷ []
  insert_by_key a (x ∷ xs) = if leb (key a) (key x) then a ∷ x ∷ xs else x ∷ insert_by_key a xs

  unfoldable pub sort_by_key : List A → List A
  unfolding insert_by_key
  sort_by_key [] = []
  sort_by_key (x ∷ xs) = insert_by_key x (sort_by_key xs)

  -- Every key is at most the keys behind it.
  abbrev pub IsSorted : List A → Type 0
  IsSorted [] = Unit
  IsSorted (x ∷ xs) = All (λ y. key x ≤ key y) xs × IsSorted xs

-- Some element of the list has `P`.
abbrev pub Any {ℓ} : {A : Type ℓ} → (A → Type 0) → List A → Type 0
Any P [] = ⊥
Any P (x ∷ xs) = P x ⊎ Any P xs

module _ {ℓ κ} {A : Type ℓ} (key : A → ℕ) (P : A → Type κ) where
  All-insert_by_key : (a : A) (xs : List A) → P a → All P xs → All P (insert_by_key key a xs)
  unfolding insert_by_key
  All-insert_by_key a [] h hs = (h, tt)
  All-insert_by_key a (x ∷ xs) h hs = elim (Bool-cases (leb (key a) (key x))) [
    | inl first ↦ rw first (h, (hs.0, hs.1))
    | inr later ↦ rw later (hs.0, All-insert_by_key a xs h hs.1)
  ]

  pub All-sort_by_key : (xs : List A) → All P xs → All P (sort_by_key key xs)
  unfolding sort_by_key
  All-sort_by_key [] hs = tt
  All-sort_by_key (x ∷ xs) hs =
      All-insert_by_key x (sort_by_key key xs) hs.0 (All-sort_by_key xs hs.1)

module _ {ℓ} {A : Type ℓ} (key : A → ℕ) (P : A → Type 0) where
  Any-insert_by_key : (a : A) (xs : List A) → P a ⊎ Any P xs → Any P (insert_by_key key a xs)
  unfolding insert_by_key
  Any-insert_by_key a [] h = h
  Any-insert_by_key a (x ∷ xs) h = elim (Bool-cases (leb (key a) (key x))) [
    | inl first ↦ rw first h
    | inr later ↦ rw later (elim h [
      | inl here ↦ inr (Any-insert_by_key a xs (inl here))
      | inr (inl next) ↦ inl next
      | inr (inr there) ↦ inr (Any-insert_by_key a xs (inr there))
    ])
  ]

  pub Any-sort_by_key : (xs : List A) → Any P xs → Any P (sort_by_key key xs)
  unfolding sort_by_key
  Any-sort_by_key [] h = elim h [ ]
  Any-sort_by_key (x ∷ xs) (inl here) = Any-insert_by_key x (sort_by_key key xs) (inl here)
  Any-sort_by_key (x ∷ xs) (inr there) =
      Any-insert_by_key x (sort_by_key key xs) (inr (Any-sort_by_key xs there))

module _ {ℓ} {A : Type ℓ} (key : A → ℕ) where
  All-le : (m n : ℕ) (xs : List A) → m ≤ n → All (λ y. n ≤ key y) xs → All (λ y. m ≤ key y) xs
  All-le m n [] h hs = tt
  All-le m n (x ∷ xs) h hs = (omega arith, All-le m n xs h hs.1)

  insert_by_key-IsSorted :
      (a : A) (xs : List A) → IsSorted key xs → IsSorted key (insert_by_key key a xs)
  unfolding insert_by_key
  insert_by_key-IsSorted a [] h = (tt, tt)
  insert_by_key-IsSorted a (x ∷ xs) h = elim (Bool-cases (leb (key a) (key x))) [
    | inl first ↦ rw first ((ground arith, All-le (key a) (key x) xs (ground arith) h.0), h)
    | inr later ↦ rw later (
      All-insert_by_key key (λ y. key x ≤ key y) a xs (ground arith) h.0,
      insert_by_key-IsSorted a xs h.1,
    )
  ]

  pub sort_by_key-IsSorted : (xs : List A) → IsSorted key (sort_by_key key xs)
  unfolding sort_by_key
  sort_by_key-IsSorted [] = tt
  sort_by_key-IsSorted (x ∷ xs) =
      insert_by_key-IsSorted x (sort_by_key key xs) (sort_by_key-IsSorted xs)

pub Any-map :
    {A : Type 0} (P Q : A → Type 0) → ((a : A) → P a → Q a) → (xs : List A) → Any P xs → Any Q xs
Any-map P Q f [] h = elim h [ ]
Any-map P Q f (x ∷ xs) (inl here) = inl (f x here)
Any-map P Q f (x ∷ xs) (inr rest) = inr (Any-map P Q f xs rest)

-- ===== src/Prelude/Pairwise.antt =====
-- Two lists related place by place.
use rlink_rs.Prelude.{List, [], ◌∷◌, ◌++◌, map}

-- The lists have the same length, and their elements are related place by place.
abbrev pub Pairwise : {A : Type 0} → (A → A → Type 0) → List A → List A → Type 0
Pairwise R [] [] = Unit
Pairwise R [] (y ∷ ys) = ⊥
Pairwise R (x ∷ xs) [] = ⊥
Pairwise R (x ∷ xs) (y ∷ ys) = R x y × Pairwise R xs ys

module _ {A : Type 0} (R : A → A → Type 0) where
  pub Pairwise-refl : ((a : A) → R a a) → (xs : List A) → Pairwise R xs xs
  Pairwise-refl r [] = tt
  Pairwise-refl r (x ∷ xs) = (r x, Pairwise-refl r xs)

  pub Pairwise-trans :
      ((a b c : A) → R a b → R b c → R a c)
      → (xs ys zs : List A) → Pairwise R xs ys
      → Pairwise R ys zs
      → Pairwise R xs zs
  Pairwise-trans t [] [] [] h k = tt
  Pairwise-trans t [] [] (z ∷ zs) h k = absurd k
  Pairwise-trans t [] (y ∷ ys) zs h k = absurd h
  Pairwise-trans t (x ∷ xs) [] zs h k = absurd h
  Pairwise-trans t (x ∷ xs) (y ∷ ys) [] h k = absurd k
  Pairwise-trans t (x ∷ xs) (y ∷ ys) (z ∷ zs) h k =
      (t x y z h.0 k.0, Pairwise-trans t xs ys zs h.1 k.1)

  pub Pairwise-map : (f : A → A) → ((a : A) → R a (f a)) → (xs : List A) → Pairwise R xs (map f xs)
  Pairwise-map f h [] = tt
  Pairwise-map f h (x ∷ xs) = (h x, Pairwise-map f h xs)

  pub Pairwise-replaced :
      ((a : A) → R a a)
      → (before : List A) (a b : A) (after : List A) → R a b
      → Pairwise R (before ++ a ∷ after) (before ++ b ∷ after)
  Pairwise-replaced r [] a b after h = (h, Pairwise-refl r after)
  Pairwise-replaced r (x ∷ before) a b after h = (r x, Pairwise-replaced r before a b after h)

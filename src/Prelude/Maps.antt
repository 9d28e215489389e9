-- ===== src/Prelude/Maps.antt =====
-- A `HashMap` or a `BTreeMap` as a list of its entries, looked up by a Boolean test of the keys. A
-- new key is put at the end.
use rlink_rs.Prelude.{
  ℕ, ◌∙◌, ◌+◌, ◌≤◌, ◌≡◌, refl, ap, inl, inr, Bool, true, false, Option, none, some, List, [], ◌∷◌,
  length, arith, All, if◌then◌else◌, Bool-cases, some_injective, ◌==◌, ==_iff,
}
use mathlib.Core.Path.{subst}

-- Keys that the test does not tell apart are told apart from the same keys.
abbrev pub IsTest {ℓ} : {K : Type ℓ} → (K → K → Bool) → Type ℓ
IsTest {K = K} eq = (i j k : K) → eq i j ≡ true → eq i k ≡ eq j k

pub ==-IsTest : IsTest ◌==◌
==-IsTest i j k same = rw ((==_iff i j).0 same) refl

module _ {ℓ κ} {K : Type ℓ} {V : Type κ} (eq : K → K → Bool) where
  unfoldable pub lookup : K → List (K × V) → Option V
  lookup k [] = none
  lookup k ((j, v) ∷ m) = if eq j k then some v else lookup k m

  unfoldable pub insert : K → V → List (K × V) → List (K × V)
  insert k v [] = (k, v) ∷ []
  insert k v ((j, u) ∷ m) = if eq j k then (j, v) ∷ m else (j, u) ∷ insert k v m

  unfoldable pub delete : K → List (K × V) → List (K × V)
  delete k [] = []
  delete k ((j, u) ∷ m) = if eq j k then m else (j, u) ∷ delete k m

  pub lookup-insert_self :
      (k : K) (v : V) (m : List (K × V)) → eq k k ≡ true → lookup k (insert k v m) ≡ some v
  unfolding lookup insert
  lookup-insert_self k v [] same = rw same refl
  lookup-insert_self k v ((j, u) ∷ m) same = elim (Bool-cases (eq j k)) [
    | inl here ↦ rw (here, lookup, here) refl
    | inr there ↦ rw (there, lookup, there) (lookup-insert_self k v m same)
  ]

  pub lookup-insert_other :
      (k i : K) (v : V) (m : List (K × V))
      → IsTest eq
      → eq k i ≡ false
      → lookup i (insert k v m) ≡ lookup i m
  unfolding lookup insert
  lookup-insert_other k i v [] test other = rw other refl
  lookup-insert_other k i v ((j, u) ∷ m) test other = elim (Bool-cases (eq j k)) [
    | inl here ↦ rw (here, lookup, test j k i here, other) refl
    | inr there ↦
        rw (there, lookup)
          (ap (λ rest. if eq j i then some u else rest) (lookup-insert_other k i v m test other))
  ]

  pub All-insert {μ} :
      (P : K × V → Type μ) (k : K) (v : V) (m : List (K × V))
      → eq k k ≡ true
      → All P m
      → ((j : K) → eq j k ≡ true → P (j, v))
      → All P (insert k v m)
  unfolding insert
  All-insert P k v [] same h new = (new k same, tt)
  All-insert P k v ((j, u) ∷ m) same h new = elim (Bool-cases (eq j k)) [
    | inl here ↦ rw here (new j here, h.1)
    | inr there ↦ rw there (h.0, All-insert P k v m same h.1 new)
  ]

  pub All-lookup {μ} :
      (P : K × V → Type μ) (k : K) (v : V) (m : List (K × V))
      → All P m
      → lookup k m ≡ some v
      → (j : K) × (eq j k ≡ true) × P (j, v)
  unfolding lookup
  All-lookup P k v [] h e = absurd (cc e)
  All-lookup P k v ((j, u) ∷ m) h e = elim (Bool-cases (eq j k)) [
    | inl here ↦ (j, here, subst (λ x. P (j, x)) (some_injective u v (rw (lookup, here) at e)) h.0)
    | inr there ↦ All-lookup P k v m h.1 (rw (lookup, there) at e)
  ]

  pub length-insert : (k : K) (v : V) (m : List (K × V)) → length (insert k v m) ≤ length m + 1
  unfolding insert
  length-insert k v [] = omega arith
  length-insert k v ((j, u) ∷ m) = elim (Bool-cases (eq j k)) [
    | inl here ↦ rw here (omega arith)
    | inr there ↦ rw there (omega (arith, length-insert k v m))
  ]

  pub length-delete : (k : K) (m : List (K × V)) → length (delete k m) ≤ length m
  unfolding delete
  length-delete k [] = omega arith
  length-delete k ((j, u) ∷ m) = elim (Bool-cases (eq j k)) [
    | inl here ↦ rw here (omega arith)
    | inr there ↦ rw there (omega (arith, length-delete k m))
  ]

module _ {V : Type 0} where
  abbrev pub Fresh : ℕ → List (ℕ × V) → Type 0
  Fresh k m = All (λ e. k == e.0 ≡ false) m

  -- No key occurs twice.
  abbrev pub Distinct : List (ℕ × V) → Type 0
  Distinct [] = Unit
  Distinct (e ∷ m) = Fresh e.0 m × Distinct m

  pub Fresh-insert :
      (i k : ℕ) (v : V) (m : List (ℕ × V))
      → Fresh i m
      → i == k ≡ false
      → Fresh i (insert ◌==◌ k v m)
  Fresh-insert i k v m fresh other =
      All-insert ◌==◌ (λ e. i == e.0 ≡ false) k v m ((==_iff k k).1 refl) fresh
        (λ j same. rw ((==_iff j k).0 same) other)

  pub Distinct-insert :
      (k : ℕ) (v : V) (m : List (ℕ × V)) → Distinct m → Distinct (insert ◌==◌ k v m)
  unfolding insert
  Distinct-insert k v [] h = (tt, tt)
  Distinct-insert k v ((j, u) ∷ m) h = elim (Bool-cases (j == k)) [
    | inl here ↦ rw here h
    | inr there ↦ rw there (Fresh-insert j k v m h.0 there, Distinct-insert k v m h.1)
  ]

  lookup-behind :
      (j : ℕ) (u : V) (rest m : List (ℕ × V))
      → Fresh j m
      → All (λ e. lookup ◌==◌ e.0 rest ≡ some e.1) m
      → All (λ e. lookup ◌==◌ e.0 ((j, u) ∷ rest) ≡ some e.1) m
  unfolding lookup
  lookup-behind j u rest [] fresh h = tt
  lookup-behind j u rest (e ∷ m) fresh h = (rw fresh.0 h.0, lookup-behind j u rest m fresh.1 h.1)

  pub lookup-Distinct : (m : List (ℕ × V)) → Distinct m → All (λ e. lookup ◌==◌ e.0 m ≡ some e.1) m
  unfolding lookup
  lookup-Distinct [] h = tt
  lookup-Distinct ((j, u) ∷ m) h =
      (rw ((==_iff j j).1 refl) refl, lookup-behind j u m m h.0 (lookup-Distinct m h.1))

  -- The map has the key.
  abbrev pub Present : ℕ → List (ℕ × V) → Type 0
  Present k m = (v : V) × (lookup ◌==◌ k m ≡ some v)

  pub Present-insert :
      (j k : ℕ) (v : V) (m : List (ℕ × V)) → Present k m → Present k (insert ◌==◌ j v m)
  Present-insert j k v m (u, at) = elim (Bool-cases (j == k)) [
    | inl same ↦ (
      v,
      subst (λ i. lookup ◌==◌ i (insert ◌==◌ j v m) ≡ some v) ((==_iff j k).0 same)
          (lookup-insert_self ◌==◌ j v m ((==_iff j j).1 refl)),
    )
    | inr other ↦ (u, lookup-insert_other ◌==◌ j k v m ==-IsTest other ∙ at)
  ]

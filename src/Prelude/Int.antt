-- ===== src/Prelude/Int.antt =====
-- Signed integers over the native numbers, under the library's names (its ℤ stands on the unary ℕ),
-- and Rust's `i64`, an integer of which each operation wraps into [-2^63, 2^63).
use rlink_rs.Prelude.{
  ℕ, suc, ◌+◌, ◌-◌, ◌%◌, ◌^◌, ◌≤◌, ◌≡◌, refl, ◌⊎◌, inl, inr, Bool, arith, ltb, leb, if◌then◌else◌,
}

-- `negsuc n` is -(n + 1).
pub data ℤ : Type 0 where
  pos : ℕ → ℤ
  negsuc : ℕ → ℤ

abbrev pub pos_part : ℤ → ℕ
pos_part (pos n) = n
pos_part (negsuc n) = 0

abbrev pub neg_part : ℤ → ℕ
neg_part (pos n) = 0
neg_part (negsuc n) = suc n

-- a - b, as an integer.
abbrev pub sub_ℕ : ℕ → ℕ → ℤ
sub_ℕ a b = if leb b a then pos (a - b) else negsuc (b - a - 1)

infixl 65 ◌+ℤ◌ ◌-ℤ◌
unfoldable pub ◌+ℤ◌ : ℤ → ℤ → ℤ
a +ℤ b = sub_ℕ (pos_part a + pos_part b) (neg_part a + neg_part b)

unfoldable pub ◌-ℤ◌ : ℤ → ℤ → ℤ
a -ℤ b = sub_ℕ (pos_part a + neg_part b) (neg_part a + pos_part b)

-- Rust's `%` takes the sign of the dividend.
unfoldable pub ◌%ℤ◌ : ℤ → ℤ → ℤ
◌%ℤ◌ (pos a) b = pos (a % (pos_part b + neg_part b))
◌%ℤ◌ (negsuc a) b = sub_ℕ 0 (suc a % (pos_part b + neg_part b))

abbrev pub ltb_ℤ : ℤ → ℤ → Bool
ltb_ℤ a b = ltb (pos_part a + neg_part b) (pos_part b + neg_part a)

-- The bit pattern of an integer, and the `i64` of a bit pattern.
unfoldable pub as_u64 : ℤ → ℕ
as_u64 (pos n) = n % 2 ^ 64
as_u64 (negsuc n) = 2 ^ 64 - 1 - n % 2 ^ 64

unfoldable pub as_i64 : ℕ → ℤ
as_i64 n = if ltb (n % 2 ^ 64) (2 ^ 63) then pos (n % 2 ^ 64) else negsuc (2 ^ 64 - 1 - n % 2 ^ 64)

unfoldable pub wrap_i64 : ℤ → ℤ
unfolding as_u64 as_i64
wrap_i64 z = as_i64 (as_u64 z)

unfoldable pub add_i64 : ℤ → ℤ → ℤ
unfolding wrap_i64 ◌+ℤ◌
add_i64 a b = wrap_i64 (a +ℤ b)

unfoldable pub sub_i64 : ℤ → ℤ → ℤ
unfolding wrap_i64 ◌-ℤ◌
sub_i64 a b = wrap_i64 (a -ℤ b)

-- The integers of an `i64`.
abbrev pub IsI64 : ℤ → Type 0
IsI64 z = (pos_part z + 1 ≤ 2 ^ 63) × (neg_part z ≤ 2 ^ 63)

pub wrap_i64-eq : (z : ℤ) → IsI64 z → wrap_i64 z ≡ z
unfolding wrap_i64
wrap_i64-eq (pos n) h = ground arith
wrap_i64-eq (negsuc n) h = ground arith

pub +ℤ_parts :
    (a b : ℤ)
    → pos_part (a +ℤ b) + neg_part a + neg_part b ≡ neg_part (a +ℤ b) + pos_part a + pos_part b
unfolding ◌+ℤ◌
+ℤ_parts a b = ground arith

pub -ℤ_parts :
    (a b : ℤ)
    → pos_part (a -ℤ b) + neg_part a + pos_part b ≡ neg_part (a -ℤ b) + pos_part a + neg_part b
unfolding ◌-ℤ◌
-ℤ_parts a b = ground arith

pub eq_of_parts : (a b : ℤ) → pos_part a + neg_part b ≡ pos_part b + neg_part a → a ≡ b
eq_of_parts a b h = ground arith

-- In range, the wrapped operations are the integers' own.
pub add_i64-eq : (a b : ℤ) → IsI64 (a +ℤ b) → add_i64 a b ≡ a +ℤ b
unfolding add_i64
add_i64-eq a b h = wrap_i64-eq (a +ℤ b) h

pub sub_i64-eq : (a b : ℤ) → IsI64 (a -ℤ b) → sub_i64 a b ≡ a -ℤ b
unfolding sub_i64
sub_i64-eq a b h = wrap_i64-eq (a -ℤ b) h

pub as_i64-eq : (n : ℕ) → n + 1 ≤ 2 ^ 63 → as_i64 n ≡ pos n
unfolding as_i64
as_i64-eq n h = ground arith

pub one_part : (z : ℤ) → (pos_part z ≡ 0) ⊎ (neg_part z ≡ 0)
one_part (pos n) = inr refl
one_part (negsuc n) = inl refl

pub ruleset int_laws = (arith, +ℤ_parts, -ℤ_parts, one_part, eq_of_parts)

-- A sum or difference is in range if its summands' sizes are.
pub add_i64_small :
    (a b : ℤ)
    → pos_part a + pos_part b + 1 ≤ 2 ^ 63
    → neg_part a + neg_part b ≤ 2 ^ 63
    → add_i64 a b ≡ a +ℤ b
add_i64_small a b h k = add_i64-eq a b (omega int_laws)

pub sub_i64_small :
    (a b : ℤ)
    → pos_part a + neg_part b + 1 ≤ 2 ^ 63
    → neg_part a + pos_part b ≤ 2 ^ 63
    → sub_i64 a b ≡ a -ℤ b
sub_i64_small a b h k = sub_i64-eq a b (omega int_laws)

-- ===== src/Percentile/Merge.antt =====
-- `PercentileWriter::merge` of rlink/src/functions/percentile/mod.rs adds the bytes of two containers, not
-- their counters.
use rlink_rs.Prelude.{
  ℕ, zero, suc, ◌+◌, ◌/◌, ◌%◌, ◌<◌, ◌≡◌, refl, sym, ap, ◌∙◌, List, [], ◌∷◌, ◌++◌, length, arith,
  All, ok,
}
use mathlib.Core.Path.{ap₂}
use rlink_rs.Wire.Bytes.{big_endian}
use rlink_rs.Percentile.Counters.{zeros, merge}
use rlink_rs.Percentile.Encoding.{encode}

-- The counters added one by one, each modulo 256
abbrev pub added_bytes : List ℕ → List ℕ → List ℕ
added_bytes [] ms = []
added_bytes (n ∷ ns) [] = []
added_bytes (n ∷ ns) (m ∷ ms) = (n + m) % 256 ∷ added_bytes ns ms

big_endian-small : (n : ℕ) → n < 256 → big_endian 8 n ≡ big_endian 7 0 ++ n ∷ []
unfolding big_endian
big_endian-small n small =
    let high : n / 256 ≡ 0 = omega (arith, small) in
    let low : n % 256 ≡ n = omega (arith, small) in ap₂ (λ q r. big_endian 7 q ++ r ∷ []) high low

merge_cons :
    (x y : ℕ) (xs ys zs : List ℕ)
    → merge xs ys ≡ ok zs
    → merge (x ∷ xs) (y ∷ ys) ≡ ok ((x + y) % 256 ∷ zs)
unfolding merge
merge_cons x y xs ys zs e = rw e refl

merge_padded :
    (k : ℕ) (xs ys zs : List ℕ)
    → merge xs ys ≡ ok zs
    → merge (zeros k ++ xs) (zeros k ++ ys) ≡ ok (zeros k ++ zs)
merge_padded zero xs ys zs e = e
merge_padded (suc k) xs ys zs e =
    merge_cons 0 0 (zeros k ++ xs) (zeros k ++ ys) (zeros k ++ zs) (merge_padded k xs ys zs e)

merge-counter :
    (n m : ℕ) (r s z : List ℕ)
    → n < 256
    → m < 256
    → merge r s ≡ ok z
    → merge (big_endian 8 n ++ r) (big_endian 8 m ++ s) ≡ ok (big_endian 8 ((n + m) % 256) ++ z)
unfolding big_endian
merge-counter n m r s z small_n small_m e =
    ap₂ (λ a b. merge (a ++ r) (b ++ s)) (big_endian-small n small_n) (big_endian-small m small_m)
    ∙ merge_padded 7 (n ∷ r) (m ∷ s) ((n + m) % 256 ∷ z) (merge_cons n m r s z e)
    ∙ ap (λ l. ok (l ++ z)) (sym (big_endian-small ((n + m) % 256) (omega arith)))

-- Two containers of counters below 256 are merged without a panic, and each counter of the result is
-- the sum of the two modulo 256: a sum of 256 or more is lost.
pub merge-encode :
    (ns ms : List ℕ)
    → length ns ≡ length ms
    → All (λ n. n < 256) ns
    → All (λ m. m < 256) ms
    → merge (encode ns) (encode ms) ≡ ok (encode (added_bytes ns ms))
unfolding merge
merge-encode [] [] same small_ns small_ms = refl
merge-encode [] (m ∷ ms) same small_ns small_ms = absurd (omega (arith, same))
merge-encode (n ∷ ns) [] same small_ns small_ms = absurd (omega (arith, same))
merge-encode (n ∷ ns) (m ∷ ms) same small_ns small_ms =
    merge-counter n m (encode ns) (encode ms) (encode (added_bytes ns ms)) small_ns.0 small_ms.0
      (merge-encode ns ms (omega (arith, same)) small_ns.1 small_ms.1)

-- ===== src/Percentile/Histogram.antt =====
-- What the container of rlink/src/functions/percentile/mod.rs holds after a sequence of values: how many
-- of them are in each bucket, and how many there are.
use rlink_rs.Prelude.{
  ℕ, zero, suc, ◌+◌, ◌*◌, ◌%◌, ◌^◌, ◌≤◌, ◌<◌, ◌≡◌, ◌≢◌, refl, sym, ap, ◌∙◌, inl, inr, some, List,
  [], ◌∷◌, ◌++◌, length, get_elem?, set, get_elem?-append, get_elem?-last, get_elem?-bound,
  get_elem?-within, length-set, arith, ◌==◌, if◌then◌else◌, Bool-cases, ==_iff, ok, ◌>>=◌,
  some_injective, get_elem?-set_self,
}
use rlink_rs.Wire.Bytes.{big_endian}
use rlink_rs.Percentile.{position_in_value_array}
use rlink_rs.Percentile.Bucket.{IsScale, position_in_value_array-IsBucket}
use rlink_rs.Percentile.Counters.{
  get_percentile_capacity, zeros, add_one, incr_counter, count_in, accumulate, accumulate_all,
}
use rlink_rs.Percentile.Encoding.{encode, add_one-encode}
use rlink_rs.Percentile.Belongs.{belongs, IsBucket-belongs}

abbrev pub sum : List ℕ → ℕ
sum [] = 0
sum (n ∷ ns) = n + sum ns

-- The number of values in a bucket
abbrev pub hits : List ℕ → ℕ → List ℕ → ℕ
hits scale k [] = 0
hits scale k (v ∷ vs) = if belongs scale k v then 1 + hits scale k vs else hits scale k vs

elem_at_most_sum : (ns : List ℕ) (k n : ℕ) → get_elem? ns k ≡ some n → n ≤ sum ns
elem_at_most_sum [] k n e = absurd (cc e)
elem_at_most_sum (x ∷ ns) zero n e = omega (arith, some_injective x n e)
elem_at_most_sum (x ∷ ns) (suc k) n e = omega (arith, elem_at_most_sum ns k n e)

sum-set : (ns : List ℕ) (k n : ℕ) → get_elem? ns k ≡ some n → sum (set ns k (n + 1)) ≡ sum ns + 1
sum-set [] k n e = absurd (cc e)
sum-set (x ∷ ns) zero n e = omega (arith, some_injective x n e)
sum-set (x ∷ ns) (suc k) n e = omega (arith, sum-set ns k n e)

set-append_left :
    (ns ms : List ℕ) (k n x : ℕ) → get_elem? ns k ≡ some n → set (ns ++ ms) k x ≡ set ns k x ++ ms
set-append_left [] ms k n x e = absurd (cc e)
set-append_left (y ∷ ns) ms zero n x e = refl
set-append_left (y ∷ ns) ms (suc k) n x e = ap (λ l. y ∷ l) (set-append_left ns ms k n x e)

set-last : (ns : List ℕ) (t x : ℕ) → set (ns ++ t ∷ []) (length ns) x ≡ ns ++ x ∷ []
set-last [] t x = refl
set-last (y ∷ ns) t x = ap (λ l. y ∷ l) (set-last ns t x)

get_elem?-set_other : (ns : List ℕ) (k j x : ℕ) → k ≢ j → get_elem? (set ns k x) j ≡ get_elem? ns j
get_elem?-set_other [] k j x h = refl
get_elem?-set_other (y ∷ ns) zero zero x h = absurd (h refl)
get_elem?-set_other (y ∷ ns) zero (suc j) x h = refl
get_elem?-set_other (y ∷ ns) (suc k) zero x h = refl
get_elem?-set_other (y ∷ ns) (suc k) (suc j) x h = get_elem?-set_other ns k j x (λ e. h (ap suc e))

get_elem?-set :
    (ns : List ℕ) (k j n m x : ℕ)
    → get_elem? ns k ≡ some n
    → get_elem? ns j ≡ some m
    → get_elem? (set ns k x) j ≡ some (if k == j then x else m)
get_elem?-set ns k j n m x at_k at_j = elim (Bool-cases (k == j)) [
  | inl here ↦ rw here (
      ap (get_elem? (set ns k x)) (sym ((==_iff k j).0 here))
      ∙ get_elem?-set_self ns k x (get_elem?-bound ns k n at_k))
  | inr other ↦ rw other (get_elem?-set_other ns k j x (λ e. cc (other, (==_iff k j).1 e)) ∙ at_j)
]

small : (n : ℕ) → n + 1 < 2 ^ 64 → (n + 1) % 2 ^ 64 ≡ n + 1
small n h = omega (arith, h)

-- The container after one value
accumulate_lem :
    (scale bs : List ℕ) (t v k n : ℕ)
    → length bs ≡ length scale
    → position_in_value_array scale v ≡ ok (some k)
    → get_elem? bs k ≡ some n
    → n ≤ t
    → t + 1 < 2 ^ 64
    → accumulate scale (encode (bs ++ t ∷ [])) v ≡ ok (encode (set bs k (n + 1) ++ (t + 1) ∷ []))
unfolding accumulate incr_counter
accumulate_lem scale bs t v k n same bucket at_k le fits =
    ap (λ r. r >>= λ d. position_in_value_array scale v >>= λ index. count_in index d)
      (ap (λ i. add_one (encode (bs ++ t ∷ [])) (i * 8)) (sym same)
        ∙ add_one-encode (bs ++ t ∷ []) (length bs) t (get_elem?-last bs t) (omega (arith, fits))
        ∙ ap (λ l. ok (encode l)) (set-last bs t ((t + 1) % 2 ^ 64))
        ∙ ap (λ x. ok (encode (bs ++ x ∷ []))) (small t fits))
    ∙ ap (λ r. r >>= λ index. count_in index (encode (bs ++ (t + 1) ∷ []))) bucket
    ∙ add_one-encode (bs ++ (t + 1) ∷ []) k n (get_elem?-append bs ((t + 1) ∷ []) k n at_k)
        (omega (arith, le, fits))
    ∙ ap (λ l. ok (encode l)) (set-append_left bs ((t + 1) ∷ []) k n ((n + 1) % 2 ^ 64) at_k)
    ∙ ap (λ x. ok (encode (set bs k x ++ (t + 1) ∷ []))) (small n (omega (arith, le, fits)))

-- The buckets and the number of values, with what they count
record Holds (scale bs : List ℕ) (t : ℕ) (vs : List ℕ) (c : List ℕ) : Type 0 where
  new_buckets : List ℕ
  encoded : c ≡ encode (new_buckets ++ (t + length vs) ∷ [])
  as_many : length new_buckets ≡ length scale
  summed : sum new_buckets ≡ t + length vs
  counted :
      (j m : ℕ) → get_elem? bs j ≡ some m → get_elem? new_buckets j ≡ some (m + hits scale j vs)

more_hits :
    (scale : List ℕ) (v : ℕ) (vs : List ℕ) (k j n m : ℕ)
    → belongs scale j v ≡ (k == j)
    → (k ≡ j → n ≡ m)
    → (if k == j then n + 1 else m) + hits scale j vs ≡ m + hits scale j (v ∷ vs)
more_hits scale v vs k j n m bucket same = rw bucket (elim (Bool-cases (k == j)) [
  | inl here ↦ rw here (omega (arith, same ((==_iff k j).0 here)))
  | inr other ↦ rw other refl
])

accumulate_all_lem :
    (scale bs : List ℕ) (t : ℕ) (vs : List ℕ)
    → 0 < length scale
    → IsScale scale 0
    → length bs ≡ length scale
    → sum bs ≡ t
    → t + length vs < 2 ^ 64
    → (c : List ℕ) × (accumulate_all scale (encode (bs ++ t ∷ [])) vs ≡ ok c)
      × Holds scale bs t vs c
unfolding accumulate_all
accumulate_all_lem scale bs t [] pos up same total fits = (
  encode (bs ++ t ∷ []),
  refl,
  record {
    new_buckets = bs;
    encoded = ap (λ x. encode (bs ++ x ∷ [])) (omega arith);
    as_many = same;
    summed = omega (arith, total);
    counted = λ j m e. e ∙ ap some (omega arith);
  },
)
accumulate_all_lem scale bs t (v ∷ vs) pos up same total fits =
    let (k, bucket, (u, at_u, at_most, before)) = position_in_value_array-IsBucket scale v pos up in
    let (n, at_k) = get_elem?-within bs k (omega (arith, same, get_elem?-bound scale k u at_u)) in
    let (c, done, holds) =
      accumulate_all_lem scale (set bs k (n + 1)) (t + 1) vs pos up (length-set bs k (n + 1) ∙ same)
        (sum-set bs k n at_k ∙ ap (λ x. x + 1) total) (omega (arith, fits)) in
    (
      c,
      ap (λ r. r >>= λ d. accumulate_all scale d vs)
            (accumulate_lem scale bs t v k n same bucket at_k
              (omega (arith, elem_at_most_sum bs k n at_k, total)) (omega (arith, fits)))
          ∙ done,
      record {
        new_buckets = holds.new_buckets;
        encoded = holds.encoded ∙ ap (λ x. encode (holds.new_buckets ++ x ∷ [])) (omega arith);
        as_many = holds.as_many;
        summed = omega (arith, holds.summed);
        counted = λ j m e.
            holds.counted j (if k == j then n + 1 else m) (get_elem?-set bs k j n m (n + 1) at_k e)
            ∙ ap some (
                more_hits scale v vs k j n m
                  (IsBucket-belongs scale v k j up (u, at_u, at_most, before)
                    (omega (arith, same, get_elem?-bound bs j m e)))
                  (λ h. some_injective n m (sym at_k ∙ ap (get_elem? bs) h ∙ e)));
      },
    )

eight_more : (n : ℕ) → zeros ((suc n + 1) * 8) ≡ big_endian 8 0 ++ zeros ((n + 1) * 8)
unfolding big_endian
eight_more n = ap zeros (eight n)
  where
    eight : (n : ℕ) → (suc n + 1) * 8 ≡ suc (suc (suc (suc (suc (suc (suc (suc ((n + 1) * 8))))))))
    eight n = omega arith

encode-zeros : (n : ℕ) → zeros ((n + 1) * 8) ≡ encode (zeros n ++ 0 ∷ [])
unfolding big_endian
encode-zeros zero = refl
encode-zeros (suc n) = eight_more n ∙ ap (λ l. big_endian 8 0 ++ l) (encode-zeros n)

length-zeros : (n : ℕ) → length (zeros n) ≡ n
length-zeros zero = refl
length-zeros (suc n) = ap suc (length-zeros n)

sum-zeros : (n : ℕ) → sum (zeros n) ≡ 0
sum-zeros zero = refl
sum-zeros (suc n) = omega (arith, sum-zeros n)

get_elem?-zeros : (n j : ℕ) → j < n → get_elem? (zeros n) j ≡ some 0
get_elem?-zeros zero j lt = absurd (omega (arith, lt))
get_elem?-zeros (suc n) zero lt = refl
get_elem?-zeros (suc n) (suc j) lt = get_elem?-zeros n j (omega (arith, lt))

-- The container holds a counter for each boundary, the number of the values that belong to its bucket;
-- these sum to the number of values, which is the last counter.
pub record IsHistogram (scale vs c : List ℕ) : Type 0 where
  pub buckets : List ℕ
  pub counters : c ≡ encode (buckets ++ length vs ∷ [])
  pub for_each : length buckets ≡ length scale
  pub whole : sum buckets ≡ length vs
  pub exact : (j : ℕ) → j < length scale → get_elem? buckets j ≡ some (hits scale j vs)

-- On a scale with at least one boundary, whose boundaries go up, fewer than 2^64 values are accumulated
-- without a panic into a container of zeros. It then holds, for each boundary, the number of the values
-- above the boundary before and at most this one, those below the first boundary in the first bucket
-- and those above the last in the last; and behind these the number of all values, to which they sum.
pub accumulate_all-IsHistogram :
    (scale vs : List ℕ)
    → 0 < length scale
    → IsScale scale 0
    → length vs < 2 ^ 64
    → (c : List ℕ) × (accumulate_all scale (zeros (get_percentile_capacity scale)) vs ≡ ok c)
      × IsHistogram scale vs c
unfolding get_percentile_capacity
accumulate_all-IsHistogram scale vs pos up fits =
    let (c, done, holds) =
      accumulate_all_lem scale (zeros (length scale)) 0 vs pos up (length-zeros (length scale))
        (sum-zeros (length scale)) (omega (arith, fits)) in
    (
      c,
      ap (λ d. accumulate_all scale d vs) (encode-zeros (length scale)) ∙ done,
      record {
        buckets = holds.new_buckets;
        counters = holds.encoded ∙ ap (λ x. encode (holds.new_buckets ++ x ∷ [])) (omega arith);
        for_each = holds.as_many;
        whole = omega (arith, holds.summed);
        exact =
            λ j lt. holds.counted j 0 (get_elem?-zeros (length scale) j lt) ∙ ap some (omega arith);
      },
    )

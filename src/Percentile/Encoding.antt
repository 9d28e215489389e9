-- ===== src/Percentile/Encoding.antt =====
-- The container of rlink/src/functions/percentile/mod.rs as a list of counters: reading and writing
-- the bytes of one is looking up and setting it in the list.
use rlink_rs.Prelude.{
  ℕ, zero, suc, ◌+◌, ◌*◌, ◌%◌, ◌^◌, ◌<◌, ◌≡◌, refl, sym, ap, ◌∙◌, some, List, [], ◌∷◌, ◌++◌, length,
  get_elem?, set, length-append, arith, ok, ◌>>=◌, unwrap, some_injective,
}
use mathlib.Core.List.{append_assoc}
use rlink_rs.Wire.Bytes.{big_endian, number, length-big_endian, number-big_endian}
use rlink_rs.Percentile.Counters.{bytes_at, read, put_byte, put_bytes, write, add_one}

-- The bytes of the counters
abbrev pub encode : List ℕ → List ℕ
encode [] = []
encode (n ∷ ns) = big_endian 8 n ++ encode ns

get_elem?-middle :
    (before after : List ℕ) (b : ℕ) → get_elem? (before ++ b ∷ after) (length before) ≡ some b
get_elem?-middle [] after b = refl
get_elem?-middle (x ∷ before) after b = get_elem?-middle before after b

put_byte-middle :
    (before after : List ℕ) (a b : ℕ)
    → put_byte (before ++ a ∷ after) (length before) b ≡ ok (before ++ b ∷ after)
put_byte-middle [] after a b = refl
put_byte-middle (x ∷ before) after a b = rw (put_byte-middle before after a b) refl

bytes_at-middle :
    (before bs after : List ℕ) (i : ℕ)
    → i ≡ length before
    → bytes_at (length bs) (before ++ (bs ++ after)) i ≡ ok bs
bytes_at-middle before [] after i e = refl
bytes_at-middle before (b ∷ bs) after i e =
    ap
      (λ o. unwrap o >>= λ x.
        bytes_at (length bs) (before ++ b ∷ (bs ++ after)) (i + 1) >>= λ xs. ok (x ∷ xs))
      (ap (get_elem? (before ++ b ∷ (bs ++ after))) e ∙ get_elem?-middle before (bs ++ after) b)
    ∙ ap (λ r. r >>= λ xs. ok (b ∷ xs))
        (ap (λ l. bytes_at (length bs) l (i + 1)) (sym (append_assoc before (b ∷ []) (bs ++ after)))
          ∙ bytes_at-middle (before ++ b ∷ []) bs after (i + 1)
              (omega (arith, e, length-append before (b ∷ []))))

put_bytes-middle :
    (before bs old after : List ℕ) (i : ℕ)
    → i ≡ length before
    → length bs ≡ length old
    → put_bytes bs (before ++ (old ++ after)) i ≡ ok (before ++ (bs ++ after))
put_bytes-middle before [] [] after i e same = refl
put_bytes-middle before [] (o ∷ old) after i e same = absurd (omega (arith, same))
put_bytes-middle before (b ∷ bs) [] after i e same = absurd (omega (arith, same))
put_bytes-middle before (b ∷ bs) (o ∷ old) after i e same =
    ap (λ r. r >>= λ d. put_bytes bs d (i + 1))
      (ap (λ k. put_byte (before ++ o ∷ (old ++ after)) k b) e
        ∙ put_byte-middle before (old ++ after) o b)
    ∙ ap (λ l. put_bytes bs l (i + 1)) (sym (append_assoc before (b ∷ []) (old ++ after)))
    ∙ put_bytes-middle (before ++ b ∷ []) bs old after (i + 1)
        (omega (arith, e, length-append before (b ∷ []))) (omega (arith, same))
    ∙ ap ok (append_assoc before (b ∷ []) (bs ++ after))

read-middle :
    (before after : List ℕ) (n i : ℕ)
    → i ≡ length before
    → n < 2 ^ 64
    → read (before ++ (big_endian 8 n ++ after)) i ≡ ok n
unfolding read
read-middle before after n i e small =
    ap (λ r. r >>= λ bs. ok (number 0 bs))
      (ap (λ k. bytes_at k (before ++ (big_endian 8 n ++ after)) i) (sym (length-big_endian 8 n))
        ∙ bytes_at-middle before (big_endian 8 n) after i e)
    ∙ ap ok (number-big_endian 8 n (omega (arith, small)))

write-middle :
    (before after : List ℕ) (old n i : ℕ)
    → i ≡ length before
    → write (before ++ (big_endian 8 old ++ after)) i n ≡ ok (before ++ (big_endian 8 n ++ after))
unfolding write
write-middle before after old n i e =
    put_bytes-middle before (big_endian 8 n) (big_endian 8 old) after i e
      (length-big_endian 8 n ∙ sym (length-big_endian 8 old))

-- A counter's place in the list, and in the bytes
split_encode :
    (ns : List ℕ) (k n : ℕ)
    → get_elem? ns k ≡ some n
    → (before : List ℕ) × (after : List ℕ) × (encode ns ≡ before ++ (big_endian 8 n ++ after))
      × (k * 8 ≡ length before)
      × ((m : ℕ) → before ++ (big_endian 8 m ++ after) ≡ encode (set ns k m))
split_encode [] k n e = absurd (cc e)
split_encode (x ∷ ns) zero n e = (
  [],
  encode ns,
  ap (λ y. big_endian 8 y ++ encode ns) (some_injective x n e),
  omega arith,
  λ m. refl,
)
split_encode (x ∷ ns) (suc k) n e =
    let (before, after, split, place, change) = split_encode ns k n e in
    (
      big_endian 8 x ++ before,
      after,
      ap (λ l. big_endian 8 x ++ l) split
          ∙ sym (append_assoc (big_endian 8 x) before (big_endian 8 n ++ after)),
      omega (arith, place, length-append (big_endian 8 x) before, length-big_endian 8 x),
      λ m.
          append_assoc (big_endian 8 x) before (big_endian 8 m ++ after)
          ∙ ap (λ l. big_endian 8 x ++ l) (change m),
    )

-- Reading at a counter's place
pub read-encode :
    (ns : List ℕ) (k n : ℕ) → get_elem? ns k ≡ some n → n < 2 ^ 64 → read (encode ns) (k * 8) ≡ ok n
read-encode ns k n e small =
    let (before, after, split, place, change) = split_encode ns k n e in
    ap (λ l. read l (k * 8)) split ∙ read-middle before after n (k * 8) place small

-- Adding one to a counter
pub add_one-encode :
    (ns : List ℕ) (k n : ℕ)
    → get_elem? ns k ≡ some n
    → n < 2 ^ 64
    → add_one (encode ns) (k * 8) ≡ ok (encode (set ns k ((n + 1) % 2 ^ 64)))
unfolding add_one
add_one-encode ns k n e small =
    let (before, after, split, place, change) = split_encode ns k n e in
    ap (λ r. r >>= λ m. write (encode ns) (k * 8) ((m + 1) % 2 ^ 64)) (read-encode ns k n e small)
    ∙ ap (λ l. write l (k * 8) ((n + 1) % 2 ^ 64)) split
    ∙ write-middle before after n ((n + 1) % 2 ^ 64) (k * 8) place
    ∙ ap ok (change ((n + 1) % 2 ^ 64))

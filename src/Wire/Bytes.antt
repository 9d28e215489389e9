-- ===== src/Wire/Bytes.antt =====
-- What the wire format uses of `bytes::BytesMut`, a third-party crate, with what its documentation says:
-- writes append, integers are big-endian, and reads take from the front. A read from a buffer that is
-- too short panics, which is `none`.
use Prim.Native.Nat.pow
use mathlib.Core.List.{append_assoc, append-nil}
use rlink_rs.Prelude.{
  ℕ, zero, suc, ◌+◌, ◌*◌, ◌/◌, ◌%◌, ◌^◌, ◌<◌, ◌≡◌, refl, ap, sym, ◌∙◌, Option, some, List, [], ◌∷◌,
  ◌++◌, length, arith, length-append,
}

-- The `width` bytes of a number, the most significant first.
unfoldable pub big_endian : ℕ → ℕ → List ℕ
big_endian zero x = []
big_endian (suc width) x = big_endian width (x / 256) ++ x % 256 ∷ []

pub record BytesMut : Type 1 where
  pub Buf : Type 0
  pub as_ref : Buf → List ℕ
  pub with_capacity : ℕ → Buf
  -- `put_u8`, `put_u16`, `put_u32` and `put_u64`, and the reads, by the number of bytes
  pub put_uint : ℕ → ℕ → Buf → Buf
  pub put_slice : List ℕ → Buf → Buf
  pub get_uint : ℕ → Buf → Option (ℕ × Buf)
  pub split_to : ℕ → Buf → Option (List ℕ × Buf)
  pub as_ref-with_capacity : (n : ℕ) → as_ref (with_capacity n) ≡ []
  pub as_ref-put_uint :
      (width x : ℕ) (b : Buf) → as_ref (put_uint width x b) ≡ as_ref b ++ big_endian width x
  pub as_ref-put_slice : (xs : List ℕ) (b : Buf) → as_ref (put_slice xs b) ≡ as_ref b ++ xs
  pub get_uint-big_endian :
      (width x : ℕ) (b : Buf) (rest : List ℕ)
      → x < 256 ^ width
      → as_ref b ≡ big_endian width x ++ rest
      → (b' : Buf) × (get_uint width b ≡ some (x, b')) × (as_ref b' ≡ rest)
  pub split_to-append :
      (b : Buf) (xs rest : List ℕ)
      → as_ref b ≡ xs ++ rest
      → (b' : Buf) × (split_to (length xs) b ≡ some (xs, b')) × (as_ref b' ≡ rest)

pub length-big_endian : (width x : ℕ) → length (big_endian width x) ≡ width
unfolding big_endian
length-big_endian zero x = refl
length-big_endian (suc width) x = omega (
  arith,
  length-append (big_endian width (x / 256)) (x % 256 ∷ []),
  length-big_endian width (x / 256),
)

-- The bytes of the fields, each a width and a number, before the rest
abbrev pub wire : List (ℕ × ℕ) → List ℕ → List ℕ
wire [] rest = rest
wire ((width, x) ∷ fields) rest = big_endian width x ++ wire fields rest

wire-append : (fields : List (ℕ × ℕ)) (rest : List ℕ) → wire fields [] ++ rest ≡ wire fields rest
wire-append [] rest = refl
wire-append ((width, x) ∷ fields) rest =
    append_assoc (big_endian width x) (wire fields []) rest
    ∙ ap (λ l. big_endian width x ++ l) (wire-append fields rest)

wire-snoc :
    (fields : List (ℕ × ℕ)) (width x : ℕ) (rest : List ℕ)
    → wire fields (big_endian width x ++ rest) ≡ wire (fields ++ (width, x) ∷ []) rest
wire-snoc [] width x rest = refl
wire-snoc ((w, y) ∷ fields) width x rest =
    ap (λ l. big_endian w y ++ l) (wire-snoc fields width x rest)

abbrev total_width : List (ℕ × ℕ) → ℕ
total_width [] = 0
total_width ((width, x) ∷ fields) = width + total_width fields

pub length-wire :
    (fields : List (ℕ × ℕ)) (rest : List ℕ)
    → length (wire fields rest) ≡ total_width fields + length rest
length-wire [] rest = omega arith
length-wire ((width, x) ∷ fields) rest = omega (
  arith,
  length-append (big_endian width x) (wire fields rest),
  length-big_endian width x,
  length-wire fields rest,
)

-- A write behind some fields is a field more.
pub put_uint-wire :
    (M : BytesMut) (b : M.Buf) (fields : List (ℕ × ℕ)) (width x : ℕ)
    → M.as_ref b ≡ wire fields []
    → M.as_ref (M.put_uint width x b) ≡ wire (fields ++ (width, x) ∷ []) []
put_uint-wire M b fields width x h =
    M.as_ref-put_uint width x b
    ∙ (ap (λ l. l ++ big_endian width x) h
        ∙ (wire-append fields (big_endian width x)
            ∙ (ap (wire fields) (sym (append-nil (big_endian width x)))
                ∙ wire-snoc fields width x [])))

pub put_slice-wire :
    (M : BytesMut) (b : M.Buf) (fields : List (ℕ × ℕ)) (xs : List ℕ)
    → M.as_ref b ≡ wire fields []
    → M.as_ref (M.put_slice xs b) ≡ wire fields xs
put_slice-wire M b fields xs h =
    M.as_ref-put_slice xs b ∙ (ap (λ l. l ++ xs) h ∙ wire-append fields xs)

-- A writer that puts these fields behind what is there
abbrev pub Writes : (M : BytesMut) → (M.Buf → M.Buf) → List (ℕ × ℕ) → Type 0
Writes M write fields =
    (b : M.Buf) (before : List (ℕ × ℕ))
    → M.as_ref b ≡ wire before []
    → M.as_ref (write b) ≡ wire (before ++ fields) []

pub put_uint-Writes : (M : BytesMut) (width x : ℕ) → Writes M (M.put_uint width x) ((width, x) ∷ [])
put_uint-Writes M width x b before h = put_uint-wire M b before width x h

pub Writes-then :
    (M : BytesMut) (f g : M.Buf → M.Buf) (fs gs : List (ℕ × ℕ))
    → Writes M f fs
    → Writes M g gs
    → Writes M (λ b. g (f b)) (fs ++ gs)
Writes-then M f g fs gs hf hg b before h =
    hg (f b) (before ++ fs) (hf b before h) ∙ ap (λ l. wire l []) (append_assoc before fs gs)

-- A number from its bytes, the most significant first
abbrev pub number : ℕ → List ℕ → ℕ
number acc [] = acc
number acc (x ∷ xs) = number (acc * 256 + x) xs

number-snoc : (acc : ℕ) (xs : List ℕ) (y : ℕ) → number acc (xs ++ y ∷ []) ≡ number acc xs * 256 + y
number-snoc acc [] y = refl
number-snoc acc (x ∷ xs) y = number-snoc (acc * 256 + x) xs y

pub number-big_endian : (width x : ℕ) → x < 256 ^ width → number 0 (big_endian width x) ≡ x
unfolding big_endian
number-big_endian zero x h = omega arith
number-big_endian (suc width) x h =
    number-snoc 0 (big_endian width (x / 256)) (x % 256)
    ∙ (ap (λ n. n * 256 + x % 256)
          (number-big_endian width (x / 256) (omega (arith, h, pow.suc 256 width)))
        ∙ omega arith)

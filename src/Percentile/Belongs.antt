-- ===== src/Percentile/Belongs.antt =====
-- The bucket of a value by the boundaries around it, against the answer of `position_in_value_array` of
-- rlink/src/functions/percentile/mod.rs.
use rlink_rs.Prelude.{
  ℕ, zero, suc, ◌≤◌, ◌<◌, ◌≡◌, ◌≢◌, refl, sym, ◌∙◌, inl, inr, Bool, true, false, ◌&&◌, ◌||◌, ltb,
  leb, ltb→lt, lt→ltb, some, List, [], ◌∷◌, length, get_elem?, get_elem?-bound, arith, ◌==◌,
  Bool-cases, ==_iff, some_injective,
}
use mathlib.Core.Path.{subst}
use rlink_rs.Percentile.Bucket.{IsScale, IsBucket}

abbrev pub boundary : List ℕ → ℕ → ℕ
boundary [] j = 0
boundary (u ∷ us) zero = u
boundary (u ∷ us) (suc j) = boundary us j

-- The value is above the boundary before, where there is one.
abbrev pub above_last : List ℕ → ℕ → ℕ → Bool
above_last scale zero v = true
above_last scale (suc j) v = ltb (boundary scale j) v

-- The value belongs to the bucket of a boundary: it is above the one before and at most this one; the
-- first bucket has no lower bound and the last one no upper bound.
abbrev pub belongs : List ℕ → ℕ → ℕ → Bool
belongs scale j v = above_last scale j v && (suc j == length scale || leb v (boundary scale j))

boundary-at :
    (scale : List ℕ) (j : ℕ) → j < length scale → get_elem? scale j ≡ some (boundary scale j)
boundary-at [] j lt = absurd (omega (arith, lt))
boundary-at (u ∷ us) zero lt = refl
boundary-at (u ∷ us) (suc j) lt = boundary-at us j (omega (arith, lt))

-- Below the bucket, in it and above it
not_above : (v u : ℕ) → u < v → leb v u ≡ false
not_above v u h = ground arith

not_below : (u v : ℕ) → v ≤ u → ltb u v ≡ false
not_below u v h = ground arith

le→leb : (a b : ℕ) → a ≤ b → leb a b ≡ true
le→leb a b h = ground arith

==-no : (a b : ℕ) → a ≢ b → a == b ≡ false
==-no a b h = ground arith

and_false : (b : Bool) → b && false ≡ false
and_false true = refl
and_false false = refl

or_true : (b : Bool) → b || true ≡ true
or_true true = refl
or_true false = refl

above_last-first :
    (scale : List ℕ) (v k : ℕ)
    → k < length scale
    → ((p u : ℕ) → p < k → get_elem? scale p ≡ some u → u < v)
    → above_last scale k v ≡ true
above_last-first scale v zero lt before = refl
above_last-first scale v (suc k) lt before =
    lt→ltb _ _ (before k (boundary scale k) (omega arith) (boundary-at scale k (omega (arith, lt))))

above_last-beyond :
    (scale : List ℕ) (v k j : ℕ)
    → IsScale scale 0
    → k < j
    → j < length scale
    → v ≤ boundary scale k
    → above_last scale j v ≡ false
above_last-beyond scale v k zero up lt inside le = absurd (omega (arith, lt))
above_last-beyond scale v k (suc j) up lt inside le =
    not_below (boundary scale j) v (elim (Bool-cases (k == j)) [
      | inl same ↦
          let le' : boundary scale k ≤ boundary scale j =
            subst (λ n. boundary scale k ≤ boundary scale n) ((==_iff k j).0 same) (omega arith) in
          omega (arith, le, le')
      | inr other ↦
          let apart : k ≢ j = λ h. cc (other, (==_iff k j).1 h) in
          omega (
            arith,
            le,
            up k j (boundary scale k) (boundary scale j) (omega (arith, lt, apart))
                (boundary-at scale k (omega (arith, lt, inside)))
                (boundary-at scale j (omega (arith, inside))),
          )
    ])

-- The bucket that is found is the one that the value belongs to.
pub IsBucket-belongs :
    (scale : List ℕ) (v k j : ℕ)
    → IsScale scale 0
    → IsBucket scale v k
    → j < length scale
    → belongs scale j v ≡ (k == j)
IsBucket-belongs scale v k j up (u, at, fits, before) inside =
    let within = get_elem?-bound scale k u at in
    let value : u ≡ boundary scale k =
      some_injective u (boundary scale k) (sym at ∙ boundary-at scale k within) in
    elim (Bool-cases (k == j)) [
      | inl same ↦
          subst (λ n. belongs scale n v ≡ (k == n)) ((==_iff k j).0 same)
            (rw (above_last-first scale v k within before, (==_iff k k).1 refl)
              (elim fits [
                | inl low ↦ rw (le→leb v (boundary scale k) (omega (arith, low, value))) (or_true _)
                | inr last ↦
                    rw ((==_iff (suc k) (length scale)).1 (omega (arith, last, within))) refl
              ]))
      | inr other ↦ rw other (elim (Bool-cases (ltb j k)) [
        | inl lower ↦
            let over : boundary scale j < v =
              before j (boundary scale j) (ltb→lt j k lower) (boundary-at scale j inside) in
            let more : suc j ≢ length scale = omega (arith, ltb→lt j k lower, within) in
            rw (==-no (suc j) (length scale) more, not_above v (boundary scale j) over)
              (and_false _)
        | inr higher ↦
            let apart : k ≢ j = λ h. cc (other, (==_iff k j).1 h) in
            let up_to : k < j = beyond j k higher apart in
            rw
              (above_last-beyond scale v k j up up_to inside (elim fits [
                | inl low ↦ omega (arith, low, value)
                | inr last ↦ absurd (omega (arith, last, up_to, inside))
              ]))
              refl
      ])
    ]
  where
    beyond : (j k : ℕ) → ltb j k ≡ false → k ≢ j → k < j
    beyond j k e h = ground arith

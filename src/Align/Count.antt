-- ===== src/Align/Count.antt =====
-- `AlignManager`, in terms of the history of its calls.
use rlink_rs.Prelude.{
  ℕ, ◌+◌, ◌≤◌, ◌<◌, ◌≡◌, refl, ◌↔◌, Bool, true, false, some, List, [], ◌∷◌, ◌++◌, arith, ◌==◌,
  if◌then◌else◌, inl, inr, Option-cases,
}
use mathlib.Core.Path.{subst}
use rlink_rs.Align.{AlignManager, new, apply, run}

-- How often a batch occurs among the events.
abbrev pub count : ℕ → List ℕ → ℕ
count b [] = 0
count b (x ∷ xs) = (if x == b then 1 else 0) + count b xs

pub count-append : (b : ℕ) (xs ys : List ℕ) → count b (xs ++ ys) ≡ count b xs + count b ys
count-append b [] ys = omega arith
count-append b (x ∷ xs) ys = omega (arith, count-append b xs ys)

-- The manager holds the newest batch seen and how often it was seen.
pub record Counts (n : ℕ) (m : AlignManager) (seen : List ℕ) : Type 0 where
  pub size : m.parent_execution_size ≡ n
  pub newest : (b : ℕ) → m.batch_id < b → count b seen ≡ 0
  pub reached : m.reached_size ≡ count m.batch_id seen
  pub started : 0 < m.batch_id → 0 < count m.batch_id seen

pub new-Counts : (n : ℕ) → Counts n (new n) []
unfolding new
new-Counts n = record {
  size = refl;
  newest = λ b h. refl;
  reached = refl;
  started = λ h. elim h [ ];
}

pub apply-Counts :
    (n : ℕ) (m : AlignManager) (seen : List ℕ) (b : ℕ) (m' : AlignManager) (r : Bool)
    → 0 < n
    → Counts n m seen
    → apply m b ≡ some (m', r)
    → Counts n m' (b ∷ seen)
unfolding apply
apply-Counts n m seen b m' r pos c e = record {
  size = ground (arith, c.size);
  newest = λ d h. ground (arith, c.size, c.newest d, c.newest b);
  reached = ground (arith, c.size, c.newest b, c.reached);
  started = λ h. ground (arith, c.size, c.started);
}

-- `apply` fails only when the newest batch has been seen from every parent already.
pub apply_total :
    (n : ℕ) (m : AlignManager) (seen : List ℕ) (b : ℕ)
    → 0 < n
    → Counts n m seen
    → count b seen < n
    → (m' : AlignManager) × (r : Bool) × (apply m b ≡ some (m', r))
unfolding apply
apply_total n m seen b pos c room = elim (Option-cases (apply m b)) [
  | inl bad ↦ absurd (ground (arith, c.size, c.reached, bad))
  | inr (p, good) ↦ (p.0, p.1, good)
]

-- Events of a history, oldest last.
abbrev pub rev_onto : List ℕ → List ℕ → List ℕ
rev_onto [] seen = seen
rev_onto (x ∷ xs) seen = rev_onto xs (x ∷ seen)

pub count-rev_onto :
    (b : ℕ) (xs seen : List ℕ) → count b (rev_onto xs seen) ≡ count b xs + count b seen
count-rev_onto b [] seen = omega arith
count-rev_onto b (x ∷ xs) seen = omega (arith, count-rev_onto b xs (x ∷ seen))

pub run-Counts :
    (n : ℕ) (m : AlignManager) (seen es : List ℕ) (m' : AlignManager)
    → 0 < n
    → Counts n m seen
    → run m es ≡ some m'
    → Counts n m' (rev_onto es seen)
unfolding run
run-Counts n m seen [] m' pos c e = subst (λ k. Counts n k seen) (cc) c
run-Counts n m seen (x ∷ es) m' pos c e = elim (Option-cases (apply m x)) [
  | inl bad ↦ absurd (cc (rw (bad, run) at e))
  | inr (p, good) ↦
      run-Counts n p.0 (x ∷ seen) es m' pos (apply-Counts n m seen x p.0 p.1 pos c good)
        (rw (good, run) at e)
]

pub run-new-Counts :
    (n : ℕ) (es : List ℕ) (m : AlignManager) → 0 < n → run (new n) es ≡ some m → Counts n m es
run-new-Counts n es m pos h =
    let c = run-Counts n (new n) [] es m pos (new-Counts n) h in
    record {
      size = c.size;
      newest = λ b above. omega (arith, c.newest b above, count-rev_onto b es []);
      reached = omega (arith, c.reached, count-rev_onto m.batch_id es []);
      started = λ above. omega (arith, c.started above, count-rev_onto m.batch_id es []);
    }

pub apply_exact :
    (n : ℕ) (es : List ℕ) (b : ℕ) (m m' : AlignManager) (r : Bool)
    → 0 < n
    → run (new n) es ≡ some m
    → apply m b ≡ some (m', r)
    → (r ≡ true) ↔ (((c : ℕ) → b < c → count c es ≡ 0) × (count b es + 1 ≡ n))
unfolding apply
apply_exact n es b m m' r pos h e =
    let c = run-new-Counts n es m pos h in
    (
      λ fired. (
        λ d above. ground (arith, c.size, c.newest d, c.reached),
        ground (arith, c.size, c.newest b, c.reached),
      ),
      λ complete.
          ground
            (arith, c.size, c.newest b, c.reached, c.started, complete.0 m.batch_id, complete.1),
    )

run_total_from :
    (n : ℕ) (m : AlignManager) (seen es : List ℕ)
    → 0 < n
    → Counts n m seen
    → ((c : ℕ) → count c es + count c seen ≤ n)
    → (m' : AlignManager) × (run m es ≡ some m')
unfolding run
run_total_from n m seen [] pos c room = (m, refl)
run_total_from n m seen (x ∷ es) pos c room =
    let (m', r, good) = apply_total n m seen x pos c (ground (arith, room x)) in
    rw (good, run)
      (run_total_from n m' (x ∷ seen) es pos (apply-Counts n m seen x m' r pos c good)
        (λ d. omega (arith, room d)))

-- No call panics as long as no batch comes more often than there are parents.
pub run_total :
    (n : ℕ) (es : List ℕ)
    → 0 < n
    → ((c : ℕ) → count c es ≤ n)
    → (m : AlignManager) × (run (new n) es ≡ some m)
run_total n es pos room =
    run_total_from n (new n) [] es pos (new-Counts n) (λ c. omega (arith, room c))

-- After a batch was answered true, no later call answers true for it, whatever comes between.
pub fires_once :
    (n : ℕ) (es fs : List ℕ) (b : ℕ) (m m₁ m₂ m₃ : AlignManager) (r : Bool)
    → 0 < n
    → run (new n) es ≡ some m
    → apply m b ≡ some (m₁, true)
    → run m₁ fs ≡ some m₂
    → apply m₂ b ≡ some (m₃, r)
    → r ≡ false
unfolding apply
fires_once n es fs b m m₁ m₂ m₃ r pos h fired rest later =
    let c = run-new-Counts n es m pos h in
    let c₁ = apply-Counts n m es b m₁ true pos c fired in
    let c₂ = run-Counts n m₁ (b ∷ es) fs m₂ pos c₁ rest in
    let full = (apply_exact n es b m m₁ true pos h fired).0 refl in
    ground (arith, c₂.size, c₂.newest b, c₂.reached, full.1, count-rev_onto b fs (b ∷ es))

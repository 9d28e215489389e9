-- ===== src/Generator/Bounded.antt =====
-- functions/watermark/bounded_out_of_orderness_watermarks.rs in rlink/src, over a list of events.
use rlink_rs.Prelude.{
  ℕ, ◌+◌, ◌≤◌, ◌<◌, ◌≡◌, ◌⊎◌, refl, some, List, [], ◌∷◌, arith, ltb, if◌then◌else◌,
}
use rlink_rs.Generator.{
  WatermarkGenerator, bounded_out_of_orderness, bounded_emit, on_event, on_periodic_emit,
}

-- The generator after a list of events.
unfoldable pub feed : ℕ → List ℕ → WatermarkGenerator → WatermarkGenerator
feed now [] g = g
feed now (e ∷ es) g = feed now es (on_event now e g).0

abbrev pub maximum : ℕ → List ℕ → ℕ
maximum m [] = m
maximum m (e ∷ es) = maximum (if ltb m e then e else m) es

pub maximum-le : (m : ℕ) (es : List ℕ) → m ≤ maximum m es
maximum-le m [] = omega arith
maximum-le m (e ∷ es) = ground (arith, maximum-le (if ltb m e then e else m) es)

pub feed-bounded :
    (now m delay : ℕ) (es : List ℕ)
    → feed now es (bounded_out_of_orderness m delay) ≡ bounded_out_of_orderness (maximum m es) delay
unfolding feed on_event
feed-bounded now m delay [] = refl
feed-bounded now m delay (e ∷ es) = feed-bounded now (if ltb m e then e else m) delay es

-- A watermark lies more than the bound before the newest event, or is 0.
pub bounded_emit_lower :
    (m delay : ℕ) → (bounded_emit m delay ≡ 0) ⊎ (bounded_emit m delay + delay < m)
unfolding bounded_emit
bounded_emit_lower m delay = ground arith

pub bounded_emit_mono : (m n delay : ℕ) → m ≤ n → bounded_emit m delay ≤ bounded_emit n delay
unfolding bounded_emit
bounded_emit_mono m n delay h = ground arith

-- Events never lower the next watermark, whatever their order, and it lies before every event that
-- is at most the bound behind the newest, unless it is still 0.
pub emit_after_events :
    (now m delay : ℕ) (es : List ℕ)
    → (w : ℕ) × ((on_periodic_emit now (feed now es (bounded_out_of_orderness m delay))).1 ≡ some w)
      × (bounded_emit m delay ≤ w)
      × ((e : ℕ) → maximum m es ≤ e + delay → (w ≡ 0) ⊎ (w < e))
unfolding on_periodic_emit
emit_after_events now m delay es = (
  bounded_emit (maximum m es) delay,
  rw (feed-bounded now m delay es),
  bounded_emit_mono m (maximum m es) delay (maximum-le m es),
  λ e near. omega (arith, bounded_emit_lower (maximum m es) delay),
)

-- ===== src/Generator/Tests.antt =====
-- Runs of the generators.
use rlink_rs.Prelude.{◌≡◌, refl, some, [], ◌∷◌}
use rlink_rs.Generator.{new_bounded, new_periodic, on_event, on_periodic_emit}
use rlink_rs.Generator.Bounded.{feed}

trails : (on_periodic_emit 0 (feed 0 (50 ∷ 45 ∷ []) (new_bounded 10))).1 ≡ some 39
unfolding on_periodic_emit feed on_event
trails = refl

-- Event time outruns the clock: the periodic wrapper asks for a watermark on an event.
periodic :
    (on_event 1005 130 (on_event 1000 100 (new_periodic (new_bounded 10) 10 20)).0).1 ≡ some 119
unfolding on_event
periodic = refl

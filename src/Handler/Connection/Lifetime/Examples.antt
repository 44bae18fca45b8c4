-- ===== src/Handler/Connection/Lifetime/Examples.antt =====
-- The theorems on the life of a connection: one that the backend closes, and that the pool replaces.
use rzgate.Prelude.{◌≡◌, refl, true, false, some, [], ◌∷◌, All, inl}
use rzgate.Bytes.{Bytes, codes}
use rzgate.Metrics.{new, pos, inc_backend_connections}
use rzgate.Handler.Connection.Lifetime.{
  Life, opened_life, connect, release, let_go, read_loop_ends, keepalive_ends, Fleet, opened, lived,
  FleetSteps,
}
use rzgate.Handler.Connection.Lifetime.Gauge.{IsHeld, live, started, FleetSteps-live}
use rzgate.Handler.Connection.Lifetime.Leak.{QuietSteps, QuietSteps-dropped}

-- The backend has closed the stream, the keepalive task has seen it, and the pool has let go.
abbrev left_alone : Life
left_alone = record {
  holders = 0;
  writing = true;
  reading = false;
  ticking = false;
  closed = true;
  dropped = false;
}

abbrev closed_life : Life
closed_life = record opened_life { reading = false; closed = true }

abbrev quiet_life : Life
quiet_life = record closed_life { ticking = false }

abandoned : QuietSteps opened_life left_alone
unfolding release
abandoned =
    QuietSteps.then_step quiet_life _
      (QuietSteps.then_step closed_life _
        (QuietSteps.then_step opened_life _ QuietSteps.stay (read_loop_ends refl) tt)
        (keepalive_ends refl (inl refl)) tt)
      (let_go 0 refl) tt

QuietSteps-dropped_example : (left_alone.writing ≡ true) × (left_alone.dropped ≡ false)
QuietSteps-dropped_example = QuietSteps-dropped left_alone abandoned

-- The read loop of the first connection ends, and a second one is opened.
abbrev replaced : Fleet
replaced = record {
  connections = opened_life ∷ closed_life ∷ [];
  metrics = inc_backend_connections (inc_backend_connections new);
}

replacing : FleetSteps Bytes started replaced
unfolding release connect
replacing =
    FleetSteps.then_step
      (record { connections = closed_life ∷ []; metrics = inc_backend_connections new }) _
      (FleetSteps.then_step
        (record { connections = opened_life ∷ []; metrics = inc_backend_connections new }) _
        (FleetSteps.then_step started _ FleetSteps.stay (
          opened (λ host. some (host ∷ [])) (λ _. true) (λ a. a) (codes "db:7777") opened_life
            (inc_backend_connections new) refl))
        (lived [] [] opened_life closed_life refl (read_loop_ends refl)))
      (opened (λ host. some (host ∷ [])) (λ _. true) (λ a. a) (codes "db:7777") opened_life
        replaced.metrics refl)

FleetSteps-live_example :
    All IsHeld replaced.connections
    × (replaced.metrics.backend_connections ≡ pos (live replaced.connections))
FleetSteps-live_example = FleetSteps-live {A = Bytes} replaced replacing

-- ===== src/Handler/Connection/Lifetime/Leak.antt =====
-- A connection without a write error is not dropped: its write task waits on a channel whose sender the
-- task itself keeps.
use rzgate.Prelude.{◌≡◌, refl, true, false, arith}
use rzgate.Handler.Connection.Lifetime.{
  Life, opened_life, release, LifeStep, cloned, let_go, read_loop_ends, write_loop_fails,
  write_loop_ends, keepalive_ends, closed_by_owner,
}
use rzgate.Handler.Connection.Lifetime.Gauge.{IsHeld, LifeStep-Goes, not_dropped, running}

-- The step is no failed write.
abbrev pub IsQuiet : (c d : Life) → LifeStep c d → Type 0
IsQuiet c d (write_loop_fails _) = ⊥
IsQuiet c d (cloned _) = Unit
IsQuiet c d (let_go _ _) = Unit
IsQuiet c d (read_loop_ends _) = Unit
IsQuiet c d (write_loop_ends _ _) = Unit
IsQuiet c d (keepalive_ends _ _) = Unit
IsQuiet c d closed_by_owner = Unit

pub data QuietSteps (c : Life) : Life → Type 0 where
  stay : QuietSteps c c
  then_step : (d e : Life) → QuietSteps c d → (s : LifeStep d e) → IsQuiet d e s → QuietSteps c e

release-writing : (c : Life) → (release c).writing ≡ c.writing
unfolding release
release-writing c = ground arith

written_on : (c : Life) → IsHeld c → c.writing ≡ true → c.dropped ≡ false
written_on c h w = not_dropped c h (omega (arith, running c.writing w))

LifeStep-writing :
    (c d : Life) (s : LifeStep c d) → IsQuiet c d s → IsHeld c → c.writing ≡ true → d.writing ≡ true
LifeStep-writing c _ (write_loop_fails e) q h w = elim q [ ]
LifeStep-writing c _ (cloned e) q h w = w
LifeStep-writing c _ (let_go n e) q h w = rw (release-writing (record c { holders = n })) w
LifeStep-writing c _ (read_loop_ends e) q h w =
    rw (release-writing (record c { reading = false; closed = true })) w
LifeStep-writing c _ (write_loop_ends e gone) q h w =
    let alive : c.dropped ≡ false = written_on c h w in cc
LifeStep-writing c _ (keepalive_ends e over) q h w =
    rw (release-writing (record c { ticking = false })) w
LifeStep-writing c _ closed_by_owner q h w = w

QuietSteps-writing : (d : Life) → QuietSteps opened_life d → IsHeld d × (d.writing ≡ true)
QuietSteps-writing _ stay = (refl, refl)
QuietSteps-writing e (then_step d _ before s quiet) =
    let (h, w) = QuietSteps-writing d before in
    ((LifeStep-Goes d e h s).held, LifeStep-writing d e s quiet h w)

-- As long as no write fails, the write task of a connection runs on and the connection is not dropped, so that it
-- stays on the gauge: also when its read loop has ended, its keepalive task has ended, and the pool and all
-- calls have let it go.
pub QuietSteps-dropped :
    (d : Life) → QuietSteps opened_life d → (d.writing ≡ true) × (d.dropped ≡ false)
QuietSteps-dropped d steps = let (h, w) = QuietSteps-writing d steps in (w, written_on d h w)

-- ===== src/Handler/Maintain/Examples.antt =====
-- The theorems on the reconnecting task, applied to a pool of two slots.
use rzgate.Prelude.{
  ℕ, ◌+◌, ◌≡◌, ◌==◌, if◌then◌else◌, Option, none, some, [], ◌∷◌, ◌++◌, map, length, arith,
}
use rzgate.Flow.{next}
use rzgate.Metrics.{new}
use rzgate.Config.Samples.{cfg}
use rzgate.Handler.Pool.{next_connection}
use rzgate.Handler.Pool.Scan.{IsOpen}
use rzgate.Handler.Maintain.{
  Inner, new_handler, Pass, reconnect, ticked, maintain_connections, PoolSteps, stay, then_step,
  reconnected,
}
use rzgate.Handler.Maintain.Reachable.{
  PoolSteps-next_connection, maintain_connections-next_connection,
}

-- The backend takes one connection, which is closed later.
abbrev first : Pass
first = record { closed = λ c. c == 10; connect = λ i. if i == 0 then some 10 else none }

-- The backend takes every connection.
abbrev healed : Pass
healed = record { closed = λ c. c == 10; connect = λ i. some (11 + i) }

abbrev started : Inner
started = reconnect first (new_handler cfg new)

steps : PoolSteps (new_handler cfg new) started
steps = then_step (new_handler cfg new) started stay (reconnected first)

PoolSteps-next_connection_example :
    (found : Option ℕ) × (after : ℕ) × (length started.connections ≡ 2)
    × (next_connection first.closed started.connections started.next_conn ≡ next (found, after))
    × IsOpen first.closed started.connections found
    × PoolSteps (new_handler cfg new) (record started { next_conn = after })
PoolSteps-next_connection_example = PoolSteps-next_connection cfg new started first.closed steps

abbrev ticks_later : Inner
ticks_later = maintain_connections (map ticked ((first ∷ []) ++ (healed ∷ []))) started

maintain_connections-next_connection_example :
    (c after : ℕ) × (next_connection healed.closed ticks_later.connections ticks_later.next_conn
      ≡ next (some c, after))
    × IsOpen healed.closed ticks_later.connections (some c)
maintain_connections-next_connection_example =
    maintain_connections-next_connection cfg new started (first ∷ []) healed (omega arith) steps
      (λ i. ground arith)

-- ===== src/Handler/Maintain.antt =====
-- src/handler/handler.rs: what `Handler::new` makes, and the tasks that share it: the reconnecting task, once
-- at the start and at every tick, and the calls of `execute` that look for a connection. The lock
-- of the connections makes each of these one step.
pub mod Reachable
mod Examples
use rzgate.Prelude.{ℕ, zero, ◌≡◌, Bool, Option, none, some, List, [], ◌∷◌, replicate}
use rzgate.Flow.{next}
use rzgate.Metrics.{Metrics}
use rzgate.Config.{Mode, Config}
use rzgate.Bytes.{Bytes}
use rzgate.Handler.Pool.{Slots, next_connection, reconnect_closed}

-- `HandlerInner`
pub record Inner : Type 0 where
  pub target_addr : Bytes
  pub target_port : ℕ
  pub mode : Mode
  pub connections : Slots
  pub metrics : Metrics
  pub next_conn : ℕ

-- The state that `Handler::new` puts behind the handler: the pool has its slots, and no connection yet.
abbrev pub new_handler : Config → Metrics → Inner
new_handler cfg m = record {
  target_addr = cfg.roomzin_addr;
  target_port = cfg.roomzin_port;
  mode = cfg.mode;
  connections = replicate cfg.conn_per_node none;
  metrics = m;
  next_conn = 0;
}

-- One run of `reconnect_closed`: which connections are closed, and what `connect` gives for each slot.
pub record Pass : Type 0 where
  pub closed : ℕ → Bool
  pub connect : ℕ → Option ℕ

unfoldable pub reconnect : Pass → Inner → Inner
reconnect pass h =
    let (connections, metrics) =
      reconnect_closed pass.closed pass.connect 0 h.connections h.metrics in
    record h { connections = connections; metrics = metrics }

-- What `select!` takes in one turn of `maintain_connections`.
pub data Wake : Type 0 where
  cancelled : Wake
  ticked : Pass → Wake

-- The loop of the task that `new` has spawned, until it is cancelled.
unfoldable pub maintain_connections : List Wake → Inner → Inner
maintain_connections [] h = h
maintain_connections (cancelled ∷ wakes) h = h
maintain_connections (ticked pass ∷ wakes) h = maintain_connections wakes (reconnect pass h)

-- A step of one of the tasks. Another task may have counted on the metrics.
pub data PoolStep (h : Inner) : Inner → Type 0 where
  reconnected : (pass : Pass) → PoolStep h (reconnect pass h)
  looked :
      (closed : ℕ → Bool) (found : Option ℕ) (after : ℕ)
      → next_connection closed h.connections h.next_conn ≡ next (found, after)
      → PoolStep h (record h { next_conn = after })
  counted : (m : Metrics) → PoolStep h (record h { metrics = m })

pub data PoolSteps (h : Inner) : Inner → Type 0 where
  stay : PoolSteps h h
  then_step : (d e : Inner) → PoolSteps h d → PoolStep d e → PoolSteps h e

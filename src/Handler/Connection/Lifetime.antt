-- ===== src/Handler/Connection/Lifetime.antt =====
-- src/handler/connection.rs: how a connection is opened, who holds it, and when it is dropped. The pool, the calls
-- of `execute` and the three tasks hold a clone of its `Arc`; the last one that lets go runs `drop`.
pub mod Gauge
pub mod Leak
mod Examples
use rzgate.Prelude.{
  ℕ, zero, suc, ◌+◌, ◌≡◌, ◌<◌, ◌⊎◌, Bool, true, false, ◌&&◌, not, Option, none, some, List, [], ◌∷◌,
  ◌++◌, ◌==◌, if◌then◌else◌,
}
use rzgate.Bytes.{Bytes, codes}
use rzgate.RzError.{RzError, Result, ok, err, network}
use rzgate.Metrics.{Metrics, inc_backend_connections, dec_backend_connections}

-- Which tasks run, how many others hold the connection, and whether `drop` has run.
pub record Life : Type 0 where
  pub holders : ℕ
  pub writing : Bool
  pub reading : Bool
  pub ticking : Bool
  pub closed : Bool
  pub dropped : Bool

-- The connection as `connect` hands it out: its tasks run, and the caller holds it.
abbrev pub opened_life : Life
opened_life = record {
  holders = 1;
  writing = true;
  reading = true;
  ticking = true;
  closed = false;
  dropped = false;
}

-- `Connection::connect`. `lookup_host`, `TcpStream::connect` and the text of an address are parameters.
module _ {A : Type 0} (lookup_host : Bytes → Option (List A)) (tcp_connect : A → Bool)
    (show : A → Bytes) where
  abbrev pub connect_first : List A → Metrics → Result Life × Metrics
  connect_first [] m = (err (network (codes "No addresses resolved")), m)
  connect_first (resolved ∷ others) m =
      if tcp_connect resolved
      then (ok opened_life, inc_backend_connections m)
      else (err (network (codes "couldnt connect to " ++ show resolved)), m)

  unfoldable pub connect : Bytes → Metrics → Result Life × Metrics
  connect addr m = elim (lookup_host addr) [
    | none ↦ (err (network (codes "No addresses resolved")), m)
    | some addrs ↦ connect_first addrs m
  ]

abbrev pub task : Bool → ℕ
task true = 1
task false = 0

-- The strong count of the `Arc`.
abbrev pub strong_count : Life → ℕ
strong_count c = c.holders + (task c.writing + (task c.reading + task c.ticking))

-- A clone has gone away: `drop` runs if it was the last one.
unfoldable pub release : Life → Life
release c = if strong_count c == 0 then record c { dropped = true } else c

pub data LifeStep (c : Life) : Life → Type 0 where
  cloned : 0 < c.holders → LifeStep c (record c { holders = suc c.holders })
  let_go : (n : ℕ) → c.holders ≡ suc n → LifeStep c (release (record c { holders = n }))
  -- The stream has ended or failed, or a response has an id that no request waits for.
  read_loop_ends :
      c.reading ≡ true → LifeStep c (release (record c { reading = false; closed = true }))
  -- A write or a flush has failed.
  write_loop_fails :
      c.writing ≡ true → LifeStep c (release (record c { writing = false; closed = true }))
  -- `recv` gives none when no sender is left; the connection has one until it is dropped.
  write_loop_ends :
      c.writing ≡ true
      → c.dropped ≡ true
      → LifeStep c (release (record c { writing = false; closed = true }))
  -- The keepalive task sees the flag, or that the write task has dropped the receiver.
  keepalive_ends :
      c.ticking ≡ true
      → (c.closed ≡ true) ⊎ (c.writing ≡ false)
      → LifeStep c (release (record c { ticking = false }))
  closed_by_owner : LifeStep c (record c { closed = true })

-- All connections that were opened, and the counters.
pub record Fleet : Type 0 where
  pub connections : List Life
  pub metrics : Metrics

-- `Drop for ConnectionInner`: the gauge goes down when the step has dropped the connection.
abbrev pub count_drop : Life → Life → Metrics → Metrics
count_drop c d m = if not c.dropped && d.dropped then dec_backend_connections m else m

-- `A` is the type of the resolved addresses.
pub data FleetStep (A : Type 0) (w : Fleet) : Fleet → Type 0 where
  opened :
      (lookup_host : Bytes → Option (List A)) (tcp_connect : A → Bool) (show : A → Bytes)
      (addr : Bytes) (c : Life) (m : Metrics)
      → connect lookup_host tcp_connect show addr w.metrics ≡ (ok c, m)
      → FleetStep A w (record { connections = c ∷ w.connections; metrics = m })
  refused :
      (lookup_host : Bytes → Option (List A)) (tcp_connect : A → Bool) (show : A → Bytes)
      (addr : Bytes) (e : RzError) (m : Metrics)
      → connect lookup_host tcp_connect show addr w.metrics ≡ (err e, m)
      → FleetStep A w (record w { metrics = m })
  lived :
      (before after : List Life) (c d : Life)
      → w.connections ≡ before ++ (c ∷ after)
      → LifeStep c d
      → FleetStep A w
          (record { connections = before ++ (d ∷ after); metrics = count_drop c d w.metrics })
  -- Another task counts something else.
  counted :
      (m : Metrics)
      → m.backend_connections ≡ w.metrics.backend_connections
      → FleetStep A w (record w { metrics = m })

pub data FleetSteps (A : Type 0) (w : Fleet) : Fleet → Type 0 where
  stay : FleetSteps A w w
  then_step : (v u : Fleet) → FleetSteps A w v → FleetStep A v u → FleetSteps A w u

-- ===== src/Handler/Maintain/Reachable.antt =====
-- The pool of the handler, in every state that its tasks can reach.
use rzgate.Prelude.{
  ℕ, zero, suc, ◌≡◌, ◌<◌, refl, ap, ◌∙◌, ◌⊎◌, inl, inr, Bool, Option, none, some, List, [], ◌∷◌,
  ◌++◌, map, length, replicate, arith,
}
use rzgate.Flow.{next}
use rzgate.Metrics.{Metrics}
use rzgate.Config.{Config}
use rzgate.Handler.Pool.{Slots, next_connection}
use rzgate.Handler.Pool.Scan.{IsOpen, next_connection_empty, next_connection_lem}
use rzgate.Handler.Pool.Reconnect.{IsUp, length-reconnect_closed, reconnect_closed-next_connection}
use rzgate.Handler.Maintain.{
  Inner, new_handler, Pass, reconnect, Wake, cancelled, ticked, maintain_connections, PoolStep,
  reconnected, looked, counted, PoolSteps, stay, then_step,
}

-- The index is inside the pool, or at its start.
abbrev pub IsInside : ℕ → ℕ → Type 0
IsInside idx size = (idx < size) ⊎ (idx ≡ 0)

IsInside-lt : (idx size : ℕ) → IsInside idx size → 0 < size → idx < size
IsInside-lt idx size (inl lt) h = lt
IsInside-lt idx size (inr e) h = rw e h

-- What `next_connection` does from such an index.
record Looked (closed : ℕ → Bool) (conns : Slots) (idx : ℕ) : Type 0 where
  found : Option ℕ
  after : ℕ
  ends : next_connection closed conns idx ≡ next (found, after)
  inside : IsInside after (length conns)
  open_ : IsOpen closed conns found

next_connection-IsInside :
    (closed : ℕ → Bool) (conns : Slots) (idx : ℕ)
    → IsInside idx (length conns)
    → Looked closed conns idx
next_connection-IsInside closed [] idx h = record {
  found = none;
  after = idx;
  ends = next_connection_empty closed idx;
  inside = h;
  open_ = tt;
}
next_connection-IsInside closed (slot ∷ conns) idx h =
    let (found, after, e, lt, o) =
      next_connection_lem closed (slot ∷ conns) idx (IsInside-lt idx _ h (omega arith)) in
    record { found = found; after = after; ends = e; inside = inl lt; open_ = o }

-- The pool has the configured size, the next index is inside it, and the backend is the configured one.
pub record IsPool (cfg : Config) (h : Inner) : Type 0 where
  pub size : length h.connections ≡ cfg.conn_per_node
  pub inside : IsInside h.next_conn cfg.conn_per_node
  pub address : h.target_addr ≡ cfg.roomzin_addr

length-replicate : (n : ℕ) (slot : Option ℕ) → length (replicate n slot) ≡ n
length-replicate zero slot = refl
length-replicate (suc n) slot = ap suc (length-replicate n slot)

module _ (cfg : Config) where
  new_handler-IsPool : (m : Metrics) → IsPool cfg (new_handler cfg m)
  new_handler-IsPool m = record {
    size = length-replicate cfg.conn_per_node none;
    inside = inr refl;
    address = refl;
  }

  reconnect-IsPool : (pass : Pass) (h : Inner) → IsPool cfg h → IsPool cfg (reconnect pass h)
  unfolding reconnect
  reconnect-IsPool pass h p = record {
    size = length-reconnect_closed pass.closed pass.connect 0 h.connections h.metrics ∙ p.size;
    inside = p.inside;
    address = p.address;
  }

  same_after :
      (closed : ℕ → Bool) (h : Inner) (found : Option ℕ) (after : ℕ)
      → IsPool cfg h
      → next_connection closed h.connections h.next_conn ≡ next (found, after)
      → IsInside after cfg.conn_per_node
  same_after closed h found after p e =
      let l = next_connection-IsInside closed h.connections h.next_conn (rw p.size p.inside) in
      let same : l.after ≡ after = cc (l.ends, e) in rw (← same, ← p.size) l.inside

  PoolStep-IsPool : (h k : Inner) → PoolStep h k → IsPool cfg h → IsPool cfg k
  PoolStep-IsPool h _ (reconnected pass) p = reconnect-IsPool pass h p
  PoolStep-IsPool h _ (looked closed found after e) p = record {
    size = p.size;
    inside = same_after closed h found after p e;
    address = p.address;
  }
  PoolStep-IsPool h _ (counted m) p = record {
    size = p.size;
    inside = p.inside;
    address = p.address;
  }

  PoolSteps-IsPool : (h k : Inner) → PoolSteps h k → IsPool cfg h → IsPool cfg k
  PoolSteps-IsPool h _ stay p = p
  PoolSteps-IsPool h k (then_step d _ before last) p =
      PoolStep-IsPool d k last (PoolSteps-IsPool h d before p)

  -- In every state that the tasks reach from a new handler, the pool has the configured number of
  -- slots, a look for a connection ends without a panic, its answer is an open connection of the
  -- pool, or none if no slot has one, and the state after it is reached too.
  pub PoolSteps-next_connection :
      (m : Metrics) (h : Inner) (closed : ℕ → Bool)
      → PoolSteps (new_handler cfg m) h
      → (found : Option ℕ) × (after : ℕ) × (length h.connections ≡ cfg.conn_per_node)
        × (next_connection closed h.connections h.next_conn ≡ next (found, after))
        × IsOpen closed h.connections found
        × PoolSteps (new_handler cfg m) (record h { next_conn = after })
  PoolSteps-next_connection m h closed steps =
      let p = PoolSteps-IsPool (new_handler cfg m) h steps (new_handler-IsPool m) in
      let l = next_connection-IsInside closed h.connections h.next_conn (rw p.size p.inside) in
      (
        l.found,
        l.after,
        p.size,
        l.ends,
        l.open_,
        then_step h _ steps (looked closed l.found l.after l.ends),
      )

  -- The steps of the reconnecting task are steps of the handler.
  maintain_connections-PoolSteps :
      (g h : Inner) (wakes : List Wake) → PoolSteps g h → PoolSteps g (maintain_connections wakes h)
  unfolding maintain_connections
  maintain_connections-PoolSteps g h [] steps = steps
  maintain_connections-PoolSteps g h (cancelled ∷ wakes) steps = steps
  maintain_connections-PoolSteps g h (ticked pass ∷ wakes) steps =
      maintain_connections-PoolSteps g (reconnect pass h) wakes
        (then_step h (reconnect pass h) steps (reconnected pass))

  last_pass :
      (passes : List Pass) (pass : Pass) (h : Inner)
      → maintain_connections (map ticked (passes ++ (pass ∷ []))) h
        ≡ reconnect pass (maintain_connections (map ticked passes) h)
  unfolding maintain_connections
  last_pass [] pass h = refl
  last_pass (r ∷ passes) pass h = last_pass passes pass (reconnect r h)

  -- Whatever the handler has been through, and however often the backend was down: after a tick at which
  -- the backend takes every connection, a look for one finds one that is open and stands in the pool. At least one
  -- connection is configured.
  pub maintain_connections-next_connection :
      (m : Metrics) (h : Inner) (passes : List Pass) (pass : Pass)
      → 0 < cfg.conn_per_node
      → PoolSteps (new_handler cfg m) h
      → IsUp pass.closed pass.connect
      → let after_ticks = maintain_connections (map ticked (passes ++ (pass ∷ []))) h in
        (c after : ℕ) × (next_connection pass.closed after_ticks.connections after_ticks.next_conn
          ≡ next (some c, after))
        × IsOpen pass.closed after_ticks.connections (some c)
  unfolding reconnect
  maintain_connections-next_connection m h passes pass some_slots steps up =
      let before = maintain_connections (map ticked passes) h in
      let p =
        PoolSteps-IsPool (new_handler cfg m) before
          (maintain_connections-PoolSteps (new_handler cfg m) h (map ticked passes) steps)
          (new_handler-IsPool m) in
      let (c, after, e, _, o) =
        reconnect_closed-next_connection pass.closed pass.connect before.connections before.metrics
          before.next_conn up
          (rw p.size (IsInside-lt before.next_conn cfg.conn_per_node p.inside some_slots)) in
      rw (last_pass passes pass h) (c, after, e, o)

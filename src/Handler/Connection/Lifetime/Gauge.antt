-- ===== src/Handler/Connection/Lifetime/Gauge.antt =====
-- The gauge of the backend's connections, in every order in which they are opened and let go.
use rzgate.Prelude.{
  ℕ, suc, ◌≡◌, ◌<◌, refl, sym, ap, ◌∙◌, ◌⊎◌, inl, inr, Bool, true, false, ◌&&◌, not, Bool-cases,
  Option, Option-cases, List, [], ◌∷◌, ◌++◌, ◌==◌, All, arith, if◌then◌else◌,
}
use rzgate.Bytes.{Bytes}
use rzgate.RzError.{RzError, Result, ok, err}
use rzgate.Metrics.{
  pos, increment, decrement, Metrics, new, inc_backend_connections, dec_backend_connections,
}
use rzgate.Handler.Connection.Lifetime.{
  Life, opened_life, connect_first, connect, task, strong_count, release, LifeStep, cloned, let_go,
  read_loop_ends, write_loop_fails, write_loop_ends, keepalive_ends, closed_by_owner, Fleet,
  count_drop, FleetStep, opened, refused, lived, counted, FleetSteps, stay, then_step,
}

-- A connection has been dropped exactly if nothing holds it.
abbrev pub IsHeld : Life → Type 0
IsHeld c = c.dropped ≡ (strong_count c == 0)

abbrev pub unless_dropped : Bool → ℕ → ℕ
unless_dropped true n = n
unless_dropped false n = suc n

-- The connections that have not been dropped.
abbrev pub live : List Life → ℕ
live [] = 0
live (c ∷ cs) = unless_dropped c.dropped (live cs)

-- What a step does to the flag.
pub record Goes (c d : Life) : Type 0 where
  pub held : IsHeld d
  pub forward : (c.dropped ≡ false) ⊎ (d.dropped ≡ true)

pub running : (b : Bool) → b ≡ true → task b ≡ 1
running b e = rw e refl

pub not_dropped : (c : Life) → IsHeld c → 0 < strong_count c → c.dropped ≡ false
not_dropped c h lt = h ∙ ground arith

release-Goes :
    (c d : Life) → IsHeld c → 0 < strong_count c → d.dropped ≡ c.dropped → Goes c (release d)
unfolding release
release-Goes c d h lt same =
    let alive = not_dropped c h lt in
    record { held = released d (same ∙ alive); forward = inl alive }
  where
    released : (d : Life) → d.dropped ≡ false → IsHeld (release d)
    released d e = elim (Bool-cases (strong_count d == 0)) [
      | inl last ↦ rw last (sym last)
      | inr more ↦ rw more (e ∙ sym more)
    ]

pub LifeStep-Goes : (c d : Life) → IsHeld c → LifeStep c d → Goes c d
LifeStep-Goes c _ h (cloned held) = record {
  held = not_dropped c h (omega arith) ∙ ground arith;
  forward = inl (not_dropped c h (omega arith));
}
LifeStep-Goes c _ h (let_go n e) = release-Goes c _ h (omega arith) refl
LifeStep-Goes c _ h (read_loop_ends e) =
    release-Goes c _ h (omega (arith, running c.reading e)) refl
LifeStep-Goes c _ h (write_loop_fails e) =
    release-Goes c _ h (omega (arith, running c.writing e)) refl
LifeStep-Goes c _ h (write_loop_ends e dropped) =
    release-Goes c _ h (omega (arith, running c.writing e)) refl
LifeStep-Goes c _ h (keepalive_ends e over) =
    release-Goes c _ h (omega (arith, running c.ticking e)) refl
LifeStep-Goes c _ h closed_by_owner = record {
  held = h;
  forward = elim (Bool-cases c.dropped) [ inl e ↦ inr e | inr e ↦ inl e ];
}

-- The gauge shows the connections that are not dropped.
record IsCounted (w : Fleet) : Type 0 where
  held : All IsHeld w.connections
  gauge : w.metrics.backend_connections ≡ pos (live w.connections)

unless_dropped_swap :
    (a b : Bool) (n : ℕ)
    → unless_dropped a (unless_dropped b n) ≡ unless_dropped b (unless_dropped a n)
unless_dropped_swap true b n = refl
unless_dropped_swap false true n = refl
unless_dropped_swap false false n = refl

live-append :
    (xs ys : List Life) (c : Life)
    → live (xs ++ (c ∷ ys)) ≡ unless_dropped c.dropped (live (xs ++ ys))
live-append [] ys c = refl
live-append (x ∷ xs) ys c =
    ap (unless_dropped x.dropped) (live-append xs ys c)
    ∙ unless_dropped_swap x.dropped c.dropped (live (xs ++ ys))

All-middle :
    (xs ys : List Life) (c d : Life)
    → All IsHeld (xs ++ (c ∷ ys))
    → IsHeld c × (IsHeld d → All IsHeld (xs ++ (d ∷ ys)))
All-middle [] ys c d h = (h.0, λ k. (k, h.1))
All-middle (x ∷ xs) ys c d h =
    let (here, later) = All-middle xs ys c d h.1 in (here, λ k. (h.0, later k))

-- The flag of one connection goes from `b` to `d`.
count_drop_gauge :
    (b d : Bool) (m : Metrics) (n : ℕ)
    → (b ≡ false) ⊎ (d ≡ true)
    → m.backend_connections ≡ pos (unless_dropped b n)
    → (if not b && d then dec_backend_connections m else m).backend_connections
      ≡ pos (unless_dropped d n)
count_drop_gauge true true m n h e = e
count_drop_gauge true false m n h e = elim h [ inl k ↦ cc | inr k ↦ cc ]
count_drop_gauge false true m n h e = ap decrement e
count_drop_gauge false false m n h e = e

lived-IsCounted :
    (w : Fleet) (before after : List Life) (c d : Life)
    → IsCounted w
    → w.connections ≡ before ++ (c ∷ after)
    → LifeStep c d
    → IsCounted (record { connections = before ++ (d ∷ after); metrics = count_drop c d w.metrics })
lived-IsCounted w before after c d s e step =
    let (held, others) = All-middle before after c d (rw e at s.held) in
    let goes = LifeStep-Goes c d held step in
    record {
      held = others goes.held;
      gauge =
          count_drop_gauge c.dropped d.dropped w.metrics (live (before ++ after)) goes.forward
            (s.gauge ∙ ap pos (ap live e ∙ live-append before after c))
          ∙ ap pos (sym (live-append before after d));
    }

-- What `connect` gives and counts.
data Opens (m : Metrics) : Result Life × Metrics → Type 0 where
  opens : Opens m (ok opened_life, inc_backend_connections m)
  fails : (e : RzError) → Opens m (err e, m)

module _ {A : Type 0} (lookup_host : Bytes → Option (List A)) (tcp_connect : A → Bool)
    (show : A → Bytes) where
  connect_first-Opens :
      (addrs : List A) (m : Metrics) → Opens m (connect_first lookup_host tcp_connect show addrs m)
  connect_first-Opens [] m = fails _
  connect_first-Opens (resolved ∷ others) m = elim (Bool-cases (tcp_connect resolved)) [
    | inl up ↦ rw up opens
    | inr down ↦ rw down (fails _)
  ]

  connect-Opens :
      (addr : Bytes) (m : Metrics) → Opens m (connect lookup_host tcp_connect show addr m)
  unfolding connect
  connect-Opens addr m = elim (Option-cases (lookup_host addr)) [
    | inl e ↦ rw (connect, e) (fails _)
    | inr (addrs, e) ↦ rw (connect, e) (connect_first-Opens addrs m)
  ]

opened-IsCounted :
    (w : Fleet) (r : Result Life × Metrics) (c : Life) (m : Metrics)
    → IsCounted w
    → Opens w.metrics r
    → r ≡ (ok c, m)
    → IsCounted (record { connections = c ∷ w.connections; metrics = m })
opened-IsCounted w _ c m s opens e =
    let fresh : opened_life ≡ c = cc in
    let counts : inc_backend_connections w.metrics ≡ m = cc in
    rw (← fresh, ← counts) (record { held = (refl, s.held); gauge = ap increment s.gauge })
opened-IsCounted w _ c m s (fails e') e = cc

refused-IsCounted :
    (w : Fleet) (r : Result Life × Metrics) (error : RzError) (m : Metrics)
    → IsCounted w
    → Opens w.metrics r
    → r ≡ (err error, m)
    → IsCounted (record w { metrics = m })
refused-IsCounted w _ error m s opens e = cc
refused-IsCounted w _ error m s (fails e') e =
    let same : w.metrics ≡ m = cc in rw (← same) (record { held = s.held; gauge = s.gauge })

FleetStep-IsCounted : {A : Type 0} (w v : Fleet) → IsCounted w → FleetStep A w v → IsCounted v
FleetStep-IsCounted w _ s (opened lookup_host tcp_connect show addr c m e) =
    opened-IsCounted w _ c m s (connect-Opens lookup_host tcp_connect show addr w.metrics) e
FleetStep-IsCounted w _ s (refused lookup_host tcp_connect show addr error m e) =
    refused-IsCounted w _ error m s (connect-Opens lookup_host tcp_connect show addr w.metrics) e
FleetStep-IsCounted w _ s (lived before after c d e step) =
    lived-IsCounted w before after c d s e step
FleetStep-IsCounted w _ s (counted m e) = record { held = s.held; gauge = e ∙ s.gauge }

FleetSteps-IsCounted : {A : Type 0} (w v : Fleet) → IsCounted w → FleetSteps A w v → IsCounted v
FleetSteps-IsCounted w _ s stay = s
FleetSteps-IsCounted w v s (then_step u _ steps step) =
    FleetStep-IsCounted u v (FleetSteps-IsCounted w u s steps) step

-- No connection, and the gauge at zero.
abbrev pub started : Fleet
started = record { connections = []; metrics = new }

-- After any steps from the start, the gauge is the number of the connections that are not dropped, and
-- a connection is dropped exactly if no clone of it is left: neither in the pool, nor in a call, nor
-- in one of its three tasks.
pub FleetSteps-live :
    {A : Type 0} (w : Fleet)
    → FleetSteps A started w
    → All IsHeld w.connections × (w.metrics.backend_connections ≡ pos (live w.connections))
FleetSteps-live w steps =
    let s = FleetSteps-IsCounted started w (record { held = tt; gauge = refl }) steps in
    (s.held, s.gauge)

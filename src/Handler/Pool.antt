-- ===== src/Handler/Pool.antt =====
-- src/handler/handler.rs: the pool of connections and `next_connection`. A connection is a number, as
-- several owners share one `Arc`; whether it is closed is given by a function, since other tasks
-- close it.
pub mod Scan
pub mod Reconnect
use rzgate.Prelude.{
  ℕ, zero, suc, ◌+◌, ◌%◌, Bool, true, false, not, Option, none, some, List, [], ◌∷◌, length,
  get_elem?, if◌then◌else◌,
}
use rzgate.Metrics.{Metrics, inc_backend_connections}
use rzgate.Flow.{Flow, next, panic, ◌>>=◌, or_panic}

-- `connections : Vec<Option<Connection>>`
abbrev pub Slots : Type 0
Slots = List (Option ℕ)

-- `if let Some(conn) = &conns[i] { if !conn.is_closed() { .. } }`
abbrev pub usable : (ℕ → Bool) → Option ℕ → Bool
usable closed none = false
usable closed (some c) = not (closed c)

-- The rounds of the loop that are left; the answer is a connection, if one is found, and `*idx`.
pub scan : (ℕ → Bool) → Slots → ℕ → ℕ → Flow (Option ℕ × ℕ)
scan closed conns zero idx = next (none, idx)
scan closed conns (suc rounds) idx =
    let after = (idx + 1) % length conns in
    let rest = scan closed conns rounds after in
    or_panic (get_elem? conns idx) >>= λ slot.
    if usable closed slot then next (slot, after) else rest

pub next_connection : (ℕ → Bool) → Slots → ℕ → Flow (Option ℕ × ℕ)
next_connection closed conns idx = scan closed conns (length conns) idx

-- One slot of `reconnect_closed`: a connection that is open stays; else `connect` is tried, and its
-- connection, if it makes one, takes the slot and is counted.
pub replace : Bool → Option ℕ → Option ℕ → Metrics → Option ℕ × Metrics
replace true slot made m = (slot, m)
replace false slot none m = (slot, m)
replace false slot (some c) m = (some c, inc_backend_connections m)

-- The loop from slot `i` on. `connect i` is what `Connection::connect` gives for that slot.
pub reconnect_closed : (ℕ → Bool) → (ℕ → Option ℕ) → ℕ → Slots → Metrics → Slots × Metrics
unfolding replace
reconnect_closed closed connect i [] m = ([], m)
reconnect_closed closed connect i (slot ∷ slots) m =
    let (first, m1) = replace (usable closed slot) slot (connect i) m in
    let (rest, m2) = reconnect_closed closed connect (suc i) slots m1 in (first ∷ rest, m2)

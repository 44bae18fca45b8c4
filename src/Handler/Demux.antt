-- ===== src/Handler/Demux.antt =====
-- src/handler/demux.rs: the requests that wait for a response, by correlation id. A sender is a number
-- that stands for the oneshot channel of one request, and an instant is a number of time units. The
-- hash map is an association list; the order of its entries is not used.
pub mod Laws
pub mod Refines
mod Examples
use rzgate.Prelude.{
  ℕ, ◌+◌, ◌-◌, Bool, true, false, not, Option, none, some, List, [], ◌∷◌, ◌++◌, ltb, ◌==◌,
  if◌then◌else◌,
}
use rzgate.Bytes.{Bytes}
use rzgate.Flow.{Flow, next, panic}

pub record Entry : Type 0 where
  pub tx : ℕ
  pub sent_at : ℕ

abbrev pub DemuxMap : Type 0
DemuxMap = List (ℕ × Entry)

abbrev pub new : DemuxMap
new = []

unfoldable pub lookup : ℕ → DemuxMap → Option Entry
lookup id [] = none
lookup id ((k, e) ∷ m) = if k == id then some e else lookup id m

unfoldable pub remove : ℕ → DemuxMap → DemuxMap
remove id [] = []
remove id ((k, e) ∷ m) = let rest = remove id m in if k == id then rest else (k, e) ∷ rest

-- `map.insert(corr_id, (tx, sent_at))`: an entry under the same id is replaced.
unfoldable pub store : DemuxMap → ℕ → ℕ → ℕ → DemuxMap
store m corr_id tx sent_at = (corr_id, record { tx = tx; sent_at = sent_at }) ∷ remove corr_id m

unfoldable pub load_remove : DemuxMap → ℕ → Option Entry × DemuxMap
load_remove m corr_id = (lookup corr_id m, remove corr_id m)

-- The ids of the entries that were sent before the threshold.
unfoldable pub timed_out : ℕ → DemuxMap → List ℕ
timed_out threshold [] = []
timed_out threshold ((k, e) ∷ m) =
    let rest = timed_out threshold m in if ltb e.sent_at threshold then k ∷ rest else rest

-- The second loop: each entry that is still there is removed, and its sender gets the empty response.
unfoldable pub expire : List ℕ → DemuxMap → DemuxMap × List (ℕ × Bytes)
expire [] m = (m, [])
expire (id ∷ ids) m =
    let (found, m') = load_remove m id in
    let (left, sent) = expire ids m' in
    (left, elim found [ none ↦ sent | some e ↦ (e.tx, []) ∷ sent ])

-- `Instant::now() - max_age` panics when the clock has not run for that long.
unfoldable pub cleanup : DemuxMap → (max_age now : ℕ) → Flow (DemuxMap × List (ℕ × Bytes))
cleanup m max_age now =
    if ltb now max_age then panic else next (expire (timed_out (now - max_age) m) m)

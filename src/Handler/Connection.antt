-- ===== src/Handler/Connection.antt =====
-- src/handler/connection.rs: one connection and its three tasks, as a step relation. `issued` and
-- `delivered` record what happened: the id of each request, in their order, and the responses that
-- were handed out, the newest first. The sender of the n-th request is the number n.
pub mod Matching
pub mod Lifetime
pub mod Ids
pub mod Kept
use rzgate.Prelude.{
  ℕ, ◌+◌, ◌%◌, ◌^◌, ◌≡◌, Bool, true, false, Option, none, some, List, [], ◌∷◌, ◌++◌, length,
}
use rzgate.Bytes.{Bytes}
use rzgate.Protocol.Frame.{build_keepalive_frame}
use rzgate.Handler.Demux.{Entry, DemuxMap, store, load_remove}

pub record Delivery : Type 0 where
  pub id : ℕ
  pub tx : ℕ
  pub response : Bytes

pub record Connection : Type 0 where
  pub demux : DemuxMap
  pub corr_id : ℕ
  pub closed : Bool
  pub reading : Bool
  pub queue : List Bytes
  pub issued : List ℕ
  pub delivered : List Delivery

-- A connection that has just been made.
abbrev pub connected : Connection
connected = record {
  demux = [];
  corr_id = 1;
  closed = false;
  reading = true;
  queue = [];
  issued = [];
  delivered = [];
}

-- What `execute` does on a connection: `next_corr_id`, `store` and `send_frame`. No response with the
-- id can arrive before its frame is sent, so that the three are one step.
unfoldable pub request : (ℕ → Bytes) → ℕ → Connection → Connection
request frame now c = record c {
  demux = store c.demux c.corr_id (length c.issued) now;
  corr_id = (c.corr_id + 1) % 2 ^ 32;
  queue = c.queue ++ (frame c.corr_id ∷ []);
  issued = c.issued ++ (c.corr_id ∷ []);
}

abbrev pub close : Connection → Connection
close c = record c { closed = true }

-- The end of the read loop.
abbrev pub stop_reading : Connection → Connection
stop_reading c = record c { closed = true; reading = false }

unfoldable pub hand_out : ℕ → Bytes → Connection → Option Entry × DemuxMap → Connection
hand_out clr_id payload c (none, left) = stop_reading (record c { demux = left })
hand_out clr_id payload c (some e, left) = record c {
  demux = left;
  delivered = record { id = clr_id; tx = e.tx; response = payload } ∷ c.delivered;
}

-- A frame that the read loop has drained: the response of a waiting request is handed out; on any
-- other id the loop ends.
unfoldable pub read_frame : ℕ → Bytes → Connection → Connection
unfolding hand_out
read_frame clr_id payload c = hand_out clr_id payload c (load_remove c.demux clr_id)

-- The steps of the tasks, in any order.
pub data Step (c : Connection) : Connection → Type 0 where
  requested : (frame : ℕ → Bytes) (now : ℕ) → Step c (request frame now c)
  drained : (clr_id : ℕ) (payload : Bytes) → c.reading ≡ true → Step c (read_frame clr_id payload c)
  read_failed : c.reading ≡ true → Step c (stop_reading c)
  written :
      (frame : Bytes) (queue : List Bytes)
      → c.queue ≡ frame ∷ queue
      → Step c (record c { queue = queue })
  write_failed :
      (frame : Bytes) (queue : List Bytes)
      → c.queue ≡ frame ∷ queue
      → Step c (close (record c { queue = queue }))
  kept_alive :
      c.closed ≡ false → Step c (record c { queue = c.queue ++ (build_keepalive_frame ∷ []) })
  closed_by_owner : Step c (close c)

pub data Steps (c : Connection) : Connection → Type 0 where
  stay : Steps c c
  then_step : (d e : Connection) → Steps c d → Step d e → Steps c e

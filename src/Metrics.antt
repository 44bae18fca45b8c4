-- ===== src/Metrics.antt =====
-- src/metrics.rs: the counters, as the totals that the `metrics` crate documents, and the gauge of
-- backend connections, which goes up and down by one. The Prometheus handle is not modelled.
use rzgate.Prelude.{ℕ, zero, suc, ◌+◌}

-- `negsuc n` is -(n + 1).
pub data ℤ : Type 0 where
  pos : ℕ → ℤ
  negsuc : ℕ → ℤ

abbrev pub increment : ℤ → ℤ
increment (pos n) = pos (suc n)
increment (negsuc zero) = pos zero
increment (negsuc (suc n)) = negsuc n

abbrev pub decrement : ℤ → ℤ
decrement (pos zero) = negsuc zero
decrement (pos (suc n)) = pos n
decrement (negsuc n) = negsuc (suc n)

pub record Metrics : Type 0 where
  pub commands : ℕ
  pub bytes_received : ℕ
  pub bytes_sent : ℕ
  pub client_errors : ℕ
  pub backend_timeouts : ℕ
  pub backend_connections : ℤ

abbrev pub new : Metrics
new = record {
  commands = 0;
  bytes_received = 0;
  bytes_sent = 0;
  client_errors = 0;
  backend_timeouts = 0;
  backend_connections = pos 0;
}

abbrev pub inc_backend_timeouts : Metrics → Metrics
inc_backend_timeouts m = record m { backend_timeouts = m.backend_timeouts + 1 }

abbrev pub inc_backend_connections : Metrics → Metrics
inc_backend_connections m = record m { backend_connections = increment m.backend_connections }

abbrev pub dec_backend_connections : Metrics → Metrics
dec_backend_connections m = record m { backend_connections = decrement m.backend_connections }

abbrev pub inc_commands : Metrics → Metrics
inc_commands m = record m { commands = m.commands + 1 }

abbrev pub add_bytes_received : Metrics → ℕ → Metrics
add_bytes_received m n = record m { bytes_received = m.bytes_received + n }

abbrev pub add_bytes_sent : Metrics → ℕ → Metrics
add_bytes_sent m n = record m { bytes_sent = m.bytes_sent + n }

abbrev pub inc_client_errors : Metrics → Metrics
inc_client_errors m = record m { client_errors = m.client_errors + 1 }

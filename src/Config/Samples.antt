-- ===== src/Config/Samples.antt =====
-- A configuration for the examples.
use rzgate.Bytes.{codes}
use rzgate.Config.{Config, standalone}

abbrev pub cfg : Config
cfg = record {
  mode = standalone;
  listening_addr = codes "0.0.0.0";
  http_port = 8080;
  roomzin_addr = codes "10.0.0.1";
  roomzin_port = 7777;
  timeout_sec = 5;
  keep_alive_sec = 10;
  conn_per_node = 2;
  max_active_conns = 100;
  worker_threads = 2;
}

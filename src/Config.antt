-- ===== src/Config.antt =====
-- src/config.rs: the modes and the configuration. The command line itself is read by the `clap` crate.
pub mod Address
pub mod Samples
use rzgate.Prelude.{
  ℕ, zero, suc, ◌+◌, ◌*◌, ◌-◌, Bool, true, false, ◌&&◌, Option, none, some, List, [], ◌∷◌, ◌++◌,
  map, length, leb, ◌==◌, if◌then◌else◌, equal, drop, take,
}
use rzgate.Bytes.{Bytes, codes}

pub data Mode : Type 0 where
  standalone : Mode
  router : Mode

-- `to_lowercase`, on the ASCII letters: no other character is lowered to a letter of the two names.
unfoldable pub to_lowercase : Bytes → Bytes
to_lowercase = map (λ c. if leb b'A' c && leb c b'Z' then c + 32 else c)

-- Rust's `Result<Mode, String>`.
pub data Parsed : Type 0 where
  mode : Mode → Parsed
  refused : Bytes → Parsed

unfoldable pub from_str : Bytes → Parsed
unfolding to_lowercase
from_str s =
    if equal (to_lowercase s) (codes "standalone")
    then mode standalone
    else if equal (to_lowercase s) (codes "router")
    then mode router
    else refused (codes "Invalid mode: " ++ (s ++ codes ". Must be 'standalone' or 'router'"))

unfoldable pub fmt : Mode → Bytes
fmt standalone = codes "standalone"
fmt router = codes "router"

pub record Config : Type 0 where
  pub mode : Mode
  pub listening_addr : Bytes
  pub http_port : ℕ
  pub roomzin_addr : Bytes
  pub roomzin_port : ℕ
  pub timeout_sec : ℕ
  pub keep_alive_sec : ℕ
  pub conn_per_node : ℕ
  pub max_active_conns : ℕ
  pub worker_threads : ℕ

-- `trim_start_matches(prefix)`: the prefix is taken off as often as it stands there. Each round of a
-- non-empty prefix takes a byte at least, so the length is fuel enough.
pub trim_rounds : ℕ → Bytes → Bytes → Bytes
trim_rounds zero prefix s = s
trim_rounds (suc fuel) prefix s =
    let rest = trim_rounds fuel prefix (drop (length prefix) s) in
    if equal (take (length prefix) s) prefix then rest else s

unfoldable pub trim_start_matches : Bytes → Bytes → Bytes
unfolding trim_rounds
trim_start_matches prefix s = trim_rounds (length s) prefix s

-- `trim_end_matches('/')`
unfoldable pub trim_end_slashes : Bytes → Bytes
trim_end_slashes [] = []
trim_end_slashes (c ∷ cs) =
    let rest = trim_end_slashes cs in if c == b'/' && length rest == 0 then [] else c ∷ rest

-- What `Config::parse` makes of the configuration that `clap` has read.
unfoldable pub parse : Config → Config
unfolding trim_start_matches trim_end_slashes
parse config = record config {
  roomzin_addr = trim_end_slashes (
      trim_start_matches (codes "https://")
        (trim_start_matches (codes "http://") config.roomzin_addr));
}

-- `num_cpus::get_physical()` is a parameter.
unfoldable pub effective_workers : (physical : ℕ) → Config → ℕ
effective_workers physical config =
    if config.worker_threads == 0 then physical * 3 else config.worker_threads

-- In seconds.
abbrev pub keep_alive_interval : Config → ℕ
keep_alive_interval config = config.keep_alive_sec

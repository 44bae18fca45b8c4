-- ===== src/Bitmask.antt =====
-- src/bitmask.rs: the write-once cell that holds the names of the rate features.
use rzgate.Prelude.{Option, none, some, List, []}
use rzgate.Bytes.{Bytes, codes}
use rzgate.RzError.{Result, ok, err, validation, internal}
use rzgate.Protocol.{Codecs}

-- `RATE_FEATURES : OnceCell<Vec<&'static str>>`
abbrev pub Cell : Type 0
Cell = Option (List Bytes)

unfoldable pub get_rate_features : Cell → Result (List Bytes)
get_rate_features none = err (validation (codes "RATE_FEATURES not initialized"))
get_rate_features (some features) = ok features

unfoldable pub get_codecs : Cell → Codecs
get_codecs none = record { rate_features = [] }
get_codecs (some features) = record { rate_features = features }

unfoldable pub set_codecs : Cell → Codecs → Result (Unit {0}) × Cell
set_codecs none codecs = (ok tt, some codecs.rate_features)
set_codecs (some features) codecs =
    (err (internal (codes "Failed to set RATE_FEATURES")), some features)

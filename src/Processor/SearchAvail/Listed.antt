-- ===== src/Processor/SearchAvail/Listed.antt =====
-- What the decoder of SEARCHAVAIL answers to a list of properties in the wire format.
use rzgate.Prelude.{ℕ, Bool, false, List, [], ◌∷◌}
use rzgate.Bytes.{Bytes}
use rzgate.Metrics.{Metrics}
use rzgate.Processor.SearchAvail.{Written}
use rzgate.Processor.SearchAvail.Days.{World}
use rzgate.Processor.SearchAvail.Properties.{Property}

module _ (w : World) where
  open w use {cal, year, features}

  abbrev written : Bytes → ℕ → Bool → Written
  written json i first = record { json = json; current_field = i; first_property = first }

  abbrev still_first : Bool → List Property → Bool
  still_first first [] = first
  still_first first (p ∷ ps) = false

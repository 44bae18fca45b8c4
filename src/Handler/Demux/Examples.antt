-- ===== src/Handler/Demux/Examples.antt =====
-- The refinement of the demultiplexer, on two requests: the first is taken, the second is cleaned away.
use rzgate.Prelude.{List, [], ◌∷◌}
use rzgate.Handler.Demux.{new}
use rzgate.Handler.Demux.Refines.{
  Call, storing, taking, cleaning, perform_calls, nobody, specify_calls, Same, perform_calls-new,
}

abbrev calls : List Call
calls = storing 1 10 5 ∷ storing 2 20 6 ∷ taking 1 ∷ taking 1 ∷ cleaning 30 100 ∷ taking 2 ∷ []

perform_calls-new_example : Same (perform_calls calls new) (specify_calls calls nobody)
perform_calls-new_example = perform_calls-new calls

-- ===== src/Handler/Execute/Log.antt =====
-- What the log of `execute` adds up to: its frames and its pauses.
use rzgate.Prelude.{ℕ, suc, ◌+◌, ◌≡◌, List, [], ◌∷◌, ◌++◌, arith}
use rzgate.Handler.Execute.{Event, sent, slept}

-- The frames in a log.
abbrev pub sends : List Event → ℕ
sends [] = 0
sends (sent _ _ ∷ l) = suc (sends l)
sends (slept _ ∷ l) = sends l

-- The pauses in a log, in milliseconds.
abbrev pub pauses : List Event → ℕ
pauses [] = 0
pauses (sent _ _ ∷ l) = pauses l
pauses (slept n ∷ l) = n + pauses l

pub sends-append : (l k : List Event) → sends (l ++ k) ≡ sends l + sends k
sends-append [] k = omega arith
sends-append (sent _ _ ∷ l) k = omega (arith, sends-append l k)
sends-append (slept _ ∷ l) k = sends-append l k

pub pauses-append : (l k : List Event) → pauses (l ++ k) ≡ pauses l + pauses k
pauses-append [] k = omega arith
pauses-append (sent _ _ ∷ l) k = pauses-append l k
pauses-append (slept _ ∷ l) k = omega (arith, pauses-append l k)

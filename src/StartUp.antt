-- ===== src/StartUp.antt =====
-- src/lib.rs: `get_codecs_with_retry`, which asks the backend for the codecs until it has them. What
-- starts behind it is in the child Main.
pub mod Retry
pub mod Main
mod Examples
use rzgate.Prelude.{ℕ, zero, suc, ◌+◌, ◌*◌, leb, List, [], ◌∷◌, Option, none, some, if◌then◌else◌}
use rzgate.Bytes.{Bytes, codes}
use rzgate.RzError.{Result, ok, err, internal}
use rzgate.Protocol.{Codecs}
use rzgate.Bitmask.{Cell, set_codecs}

-- What `select!` takes in one round: the shutdown, or the result of `process_get_codecs`.
pub data Round : Type 0 where
  cancelled : Round
  answered : Result Codecs → Round

-- The result, and the seconds that were slept. `pending`: the rounds are used up, and the call still
-- waits for the next one.
pub data Outcome : Type 0 where
  done : Result Codecs → ℕ → Outcome
  pending : Outcome

-- `(backoff * 2).min(max_backoff)`
abbrev pub next_backoff : ℕ → ℕ
next_backoff backoff = if leb (backoff * 2) 5 then backoff * 2 else 5

-- The loop, with `left` attempts to go.
unfoldable pub retry_loop : (left backoff slept : ℕ) → List Round → Outcome
retry_loop zero backoff slept rounds =
    done (err (internal (codes "Max attempts reached waiting for codecs"))) slept
retry_loop (suc left) backoff slept [] = pending
retry_loop (suc left) backoff slept (cancelled ∷ rounds) =
    done (err (internal (codes "Shutdown while waiting for codecs"))) slept
retry_loop (suc left) backoff slept (answered (ok codecs) ∷ rounds) = done (ok codecs) slept
retry_loop (suc left) backoff slept (answered (err e) ∷ rounds) =
    retry_loop left (next_backoff backoff) (slept + backoff) rounds

unfoldable pub get_codecs_with_retry : List Round → Outcome
unfolding retry_loop
get_codecs_with_retry rounds = retry_loop 60 1 0 rounds

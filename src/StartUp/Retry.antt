-- ===== src/StartUp/Retry.antt =====
-- The start ends, with the first codecs that the backend gives.
use rzgate.Prelude.{ℕ, zero, suc, ◌+◌, ◌*◌, ◌≤◌, ◌≡◌, refl, List, [], ◌∷◌, length, arith}
use rzgate.Bytes.{codes}
use rzgate.RzError.{Result, ok, err, internal}
use rzgate.Protocol.{Codecs}
use rzgate.StartUp.{
  Round, cancelled, answered, done, next_backoff, retry_loop, get_codecs_with_retry,
}

-- What the answer says of the rounds: the first that is no failure gave it, or there is none among the
-- first `left`.
abbrev pub Justifies : ℕ → List Round → Result Codecs → Type 0
Justifies zero rounds r = r ≡ err (internal (codes "Max attempts reached waiting for codecs"))
Justifies (suc left) [] r = ⊥
Justifies (suc left) (cancelled ∷ rounds) r =
    r ≡ err (internal (codes "Shutdown while waiting for codecs"))
Justifies (suc left) (answered (ok codecs) ∷ rounds) r = r ≡ ok codecs
Justifies (suc left) (answered (err e) ∷ rounds) r = Justifies left rounds r

-- The loop ends, and sleeps for the backoff at most five seconds in each round.
record Ends (left backoff slept : ℕ) (rounds : List Round) : Type 0 where
  answer : Result Codecs
  seconds : ℕ
  ends : retry_loop left backoff slept rounds ≡ done answer seconds
  short : seconds ≤ slept + 5 * left
  justified : Justifies left rounds answer

retry_loop-Ends :
    (left backoff slept : ℕ) (rounds : List Round)
    → left ≤ length rounds
    → backoff ≤ 5
    → Ends left backoff slept rounds
unfolding retry_loop
retry_loop-Ends zero backoff slept rounds h k = record {
  answer = _;
  seconds = slept;
  ends = refl;
  short = omega arith;
  justified = refl;
}
retry_loop-Ends (suc left) backoff slept [] h k = absurd (omega arith)
retry_loop-Ends (suc left) backoff slept (cancelled ∷ rounds) h k = record {
  answer = _;
  seconds = slept;
  ends = refl;
  short = omega arith;
  justified = refl;
}
retry_loop-Ends (suc left) backoff slept (answered (ok codecs) ∷ rounds) h k = record {
  answer = ok codecs;
  seconds = slept;
  ends = refl;
  short = omega arith;
  justified = refl;
}
retry_loop-Ends (suc left) backoff slept (answered (err e) ∷ rounds) h k =
    let r =
      retry_loop-Ends left (next_backoff backoff) (slept + backoff) rounds (omega arith)
        (ground arith) in
    record {
      answer = r.answer;
      seconds = r.seconds;
      ends = r.ends;
      short = omega (arith, r.short);
      justified = r.justified;
    }

-- With sixty rounds to go, `get_codecs_with_retry` ends: it answers with the codecs of the first round that
-- gives some, with an error at a shutdown before that, and with an error when all sixty rounds have
-- failed. It has slept for 300 seconds at most.
pub get_codecs_with_retry_lem :
    (rounds : List Round)
    → 60 ≤ length rounds
    → (answer : Result Codecs) × (seconds : ℕ) × (get_codecs_with_retry rounds
        ≡ done answer seconds)
      × (seconds ≤ 300)
      × Justifies 60 rounds answer
unfolding get_codecs_with_retry
get_codecs_with_retry_lem rounds h =
    let r = retry_loop-Ends 60 1 0 rounds h (omega arith) in
    (r.answer, r.seconds, r.ends, omega (arith, r.short), r.justified)

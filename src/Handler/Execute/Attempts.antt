-- ===== src/Handler/Execute/Attempts.antt =====
-- `execute` ends after three attempts at most: what it answers, what it sends and how long it pauses.
use rzgate.Prelude.{
  ℕ, zero, suc, ◌+◌, ◌*◌, ◌≤◌, ◌<◌, ◌≡◌, ◌≢◌, refl, ap, false, ◌⊎◌, inl, inr, Option, none, some,
  List, [], ◌∷◌, length, All, arith, leb, ◌==◌, Bool-cases,
}
use rzgate.Bytes.{Bytes}
use rzgate.Flow.{Flow, next}
use rzgate.RzError.{
  RzError, Result, ok, err, validation, roomzin_unreachable, timeout, internal, network,
}
use rzgate.Metrics.{Metrics, inc_backend_timeouts}
use rzgate.Handler.Pool.Scan.{next_connection_lem}
use rzgate.Handler.Execute.{
  Request, Turn, Event, sent, slept, Client, Outcome, done, note, frame_of, retry, send, answered,
  attempt, still_open, run, execute,
}
use rzgate.Handler.Execute.Log.{sends, pauses, sends-append, pauses-append}

-- One of the turns offers the response.
abbrev pub Offers : Bytes → List Turn → Type 0
Offers response [] = ⊥
Offers response (t ∷ ts) = (t.answer ≡ some response) ⊎ Offers response ts

-- A success is a response that a turn offered. A timeout is counted, and nothing else is; the only
-- other error is that the backend's address is unreachable.
abbrev pub Verdict : Request → List Turn → Metrics → Result Bytes → Metrics → Type 0
Verdict r ts m (ok response) m' = Offers response ts × (m' ≡ m)
Verdict r ts m (err timeout) m' = m' ≡ inc_backend_timeouts m
Verdict r ts m (err (roomzin_unreachable addr)) m' = (addr ≡ r.target_addr) × (m' ≡ m)
Verdict r ts m (err (validation _)) m' = ⊥
Verdict r ts m (err (internal _)) m' = ⊥
Verdict r ts m (err (network _)) m' = ⊥

-- What the pauses after `attempts` failures add up to.
abbrev spent : ℕ → ℕ
spent zero = 0
spent (suc zero) = 100
spent (suc (suc _)) = 250

spent_next : (a : ℕ) → suc a < 3 → 50 * (suc a + 1) + spent a ≡ spent (suc a)
spent_next zero h = refl
spent_next (suc zero) h = refl
spent_next (suc (suc a)) h = absurd (omega arith)

spent-le : (a : ℕ) → spent a ≤ 250
spent-le zero = omega arith
spent-le (suc zero) = omega arith
spent-le (suc (suc a)) = omega arith

not_empty : (bytes : Bytes) → bytes ≢ [] → (length bytes == 0) ≡ false
not_empty [] h = absurd (h refl)
not_empty (b ∷ bs) h = ground arith

module _ (r : Request) (n : ℕ) where
  -- The pool has its fixed number of slots.
  abbrev pub Sized : Turn → Type 0
  Sized t = length t.slots ≡ n

  -- The loop ends from `c` with `attempts` failures behind it.
  record Ends (ts : List Turn) (attempts : ℕ) (c : Client) (result : Flow (Outcome × Client))
      : Type 0 where
    answer : Result Bytes
    last : Client
    ends : result ≡ next (done answer, last)
    inside : last.next_conn < n
    few_sends : sends last.log + attempts ≤ sends c.log + 3
    short_pauses : pauses last.log + spent attempts ≤ pauses c.log + 250
    verdict : Verdict r ts c.metrics answer last.metrics

  Verdict-later :
      (t : Turn) (ts : List Turn) (m m' : Metrics) (a : Result Bytes)
      → Verdict r ts m a m'
      → Verdict r (t ∷ ts) m a m'
  Verdict-later t ts m m' (ok b) (o, e) = (inr o, e)
  Verdict-later t ts m m' (err timeout) v = v
  Verdict-later t ts m m' (err (roomzin_unreachable a)) v = v
  Verdict-later t ts m m' (err (validation a)) v = v
  Verdict-later t ts m m' (err (internal a)) v = v
  Verdict-later t ts m m' (err (network a)) v = v

  -- What an attempt may have done to the client before it failed or ended.
  record Stepped (c d : Client) : Type 0 where
    inside : d.next_conn < n
    few_sends : sends d.log ≤ sends c.log + 1
    no_pauses : pauses d.log ≡ pauses c.log

  stop_Ends :
      (ts : List Turn) (a : ℕ) (c d : Client) (answer : Result Bytes)
      → a ≤ 2
      → Stepped c d
      → Verdict r ts c.metrics answer d.metrics
      → Ends ts a c (next (done answer, d))
  stop_Ends ts a c d answer h s v = record {
    answer = answer;
    last = d;
    ends = refl;
    inside = s.inside;
    few_sends = omega arith;
    short_pauses = omega (arith, spent-le a);
    verdict = v;
  }

  pause : ℕ → Client → Client
  pause a d = note d (slept (50 * (suc a + 1)))

  go_on_Ends :
      (t : Turn) (ts : List Turn) (a : ℕ) (c d : Client) (result : Flow (Outcome × Client))
      → suc a < 3
      → Stepped c d
      → d.metrics ≡ c.metrics
      → Ends ts (suc a) (pause a d) result
      → Ends (t ∷ ts) a c result
  unfolding pause
  go_on_Ends t ts a c d result h s same e = record {
    answer = e.answer;
    last = e.last;
    ends = e.ends;
    inside = e.inside;
    few_sends = omega (arith, sends-append d.log (slept (50 * (suc a + 1)) ∷ []));
    short_pauses =
        omega (arith, pauses-append d.log (slept (50 * (suc a + 1)) ∷ []), spent_next a h);
    verdict = Verdict-later t ts c.metrics e.last.metrics e.answer (rw same at e.verdict);
  }

  retry-Ends :
      (t : Turn) (ts : List Turn) (a : ℕ) (c d last : Client) (error : RzError)
      → a ≤ 2
      → Stepped c d
      → d.metrics ≡ c.metrics
      → Stepped c last
      → Verdict r (t ∷ ts) c.metrics (err error) last.metrics
      → (suc a < 3 → Ends ts (suc a) (pause a d) (run r ts (suc a) (pause a d)))
      → Ends (t ∷ ts) a c (retry a (last, err error) d (run r ts))
  unfolding retry pause
  retry-Ends t ts a c d last error h s same s' v later = elim (Bool-cases (leb 3 (suc a))) [
    | inl over ↦ rw over (stop_Ends (t ∷ ts) a c last (err error) h s' v)
    | inr more ↦ rw more (go_on_Ends t ts a c d _ (ground arith) s same (later (ground arith)))
  ]

  -- The loop ends from any client that is ready, after one more failure.
  abbrev EndsLater : List Turn → ℕ → Type 0
  EndsLater ts a =
      (d : Client) → d.next_conn < n → suc a < 3 → Ends ts (suc a) d (run r ts (suc a) d)

  answered-Ends :
      (t : Turn) (ts : List Turn) (a : ℕ) (c d : Client) (answer : Option Bytes)
      → t.answer ≡ answer
      → a ≤ 2
      → Stepped c d
      → d.metrics ≡ c.metrics
      → EndsLater ts a
      → Ends (t ∷ ts) a c (answered a d answer (run r ts))
  unfolding answered
  answered-Ends t ts a c d (some response) given h s same later =
      stop_Ends (t ∷ ts) a c d (ok response) h s (inl given, same)
  answered-Ends t ts a c d none given h s same later =
      retry-Ends t ts a c d _ timeout h s same
        (record { inside = s.inside; few_sends = s.few_sends; no_pauses = s.no_pauses })
        (ap inc_backend_timeouts same) (later (pause a d) (unfold pause in s.inside))

  attempt-Ends :
      (t : Turn) (ts : List Turn) (a : ℕ) (c : Client) (after : ℕ) (conn : Option ℕ)
      → a ≤ 2
      → after < n
      → EndsLater ts a
      → Ends (t ∷ ts) a c (attempt r t a (record c { next_conn = after }) conn (run r ts))
  unfolding attempt
  attempt-Ends t ts a c after none h lt later =
      retry-Ends t ts a c _ _ (roomzin_unreachable r.target_addr) h moved refl moved (refl, refl)
        (later (pause a (record c { next_conn = after })) (unfold pause in lt))
    where
      moved : Stepped c (record c { next_conn = after })
      moved = record { inside = lt; few_sends = omega arith; no_pauses = refl }
  attempt-Ends t ts a c after (some conn) h lt later =
      answered-Ends t ts a c (send r t conn (record c { next_conn = after })) t.answer refl h tried
        (unfold send in refl) later
    where
      frame : Event
      frame = sent conn (frame_of r.mode r (c.corr_ids conn))

      tried : Stepped c (send r t conn (record c { next_conn = after }))
      tried =
          unfold send in
          (record {
            inside = lt;
            few_sends = omega (arith, sends-append c.log (frame ∷ []));
            no_pauses = omega (arith, pauses-append c.log (frame ∷ []));
          })

  run-Ends :
      (ts : List Turn) (a : ℕ) (c : Client)
      → a ≤ 2
      → 3 ≤ length ts + a
      → All Sized ts
      → c.next_conn < n
      → Ends ts a c (run r ts a c)
  unfolding run
  run-Ends [] a c h long sized lt = absurd (omega arith)
  run-Ends (t ∷ ts) a c h long (size, sized) lt =
      let (found, after, e, inside, _) =
        next_connection_lem t.closed t.slots c.next_conn (omega arith) in
      rw e (
        attempt-Ends t ts a c after (still_open t found) h (omega arith)
          (λ d d_lt more. run-Ends ts (suc a) d (omega arith) (omega arith) sized d_lt))

  -- From a pool of `n` slots, with three turns to go and a payload that is not empty, `execute` never
  -- panics and never waits on: it answers. It has sent three frames at most and paused for 250
  -- milliseconds at most, its answer is justified, and the next index stays inside the pool.
  pub execute_ends :
      (turns : List Turn) (c : Client)
      → r.payload ≢ []
      → 3 ≤ length turns
      → All Sized turns
      → c.next_conn < n
      → (answer : Result Bytes) × (last : Client) × (execute r turns c ≡ next (done answer, last))
        × (last.next_conn < n)
        × (sends last.log ≤ sends c.log + 3)
        × (pauses last.log ≤ pauses c.log + 250)
        × Verdict r turns c.metrics answer last.metrics
  unfolding execute
  execute_ends turns c nonempty long sized lt =
      let e = run-Ends turns 0 c (omega arith) (omega arith) sized lt in
      rw (not_empty r.payload nonempty)
        (e.answer, e.last, e.ends, e.inside, omega arith, omega arith, e.verdict)

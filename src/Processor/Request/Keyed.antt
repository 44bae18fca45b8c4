-- ===== src/Processor/Request/Keyed.antt =====
-- The requests of the commands that have required texts alone.
use rzgate.Prelude.{ℕ, ◌≡◌, refl, ap, ◌<◌, inl, inr, [], ◌∷◌, List, ◌++◌, length, arith}
use rzgate.Bytes.{Bytes}
use rzgate.RzError.{Result, ok, ◌>>=◌}
use rzgate.Protocol.Reply.Encoding.{Fits}
use rzgate.Processor.Json.{Json, text}
use rzgate.Processor.Request.{counted, field, non_empty}
use rzgate.Processor.Request.Layout.{
  encode_request, text_field, counted_one, counted_two, counted_three,
}
use rzgate.Processor.Request.Required.{
  numbered, needed, non_empty-needed, required, IsShort, Result-cases, checked-Fits,
}

module _ (json : Json) where
  open json use {Value}

  -- What a command with these required keys makes of a payload: the request with their texts as its
  -- fields, or the error that names the first key without a text.
  abbrev pub request : Bytes → List Bytes → Value → Result Bytes
  request cmd_name keys payload =
      required json payload keys >>= λ ss. ok (encode_request cmd_name (numbered 1 ss))

  -- What the code writes for such a command: the checks, the literal count, and the fields.
  abbrev check : Value → Bytes → Result Bytes
  check payload k = needed (text json payload k) k

  abbrev code_check : Value → Bytes → Result Bytes
  code_check payload k = non_empty (text json payload k) k

  same_check : (payload : Value) (k : Bytes) → code_check payload k ≡ check payload k
  same_check payload k = non_empty-needed (text json payload k) k

  module _ (payload : Value) (short : IsShort json payload) (cmd_name : Bytes)
      (named : length cmd_name < 256) where
    fits : (k s : Bytes) (i : ℕ) → check payload k ≡ ok s → i < 65536 → Fits (text_field i s)
    fits k s i e few = checked-Fits json payload k s i short e few

    pub one_key :
        (k : Bytes)
        → (code_check payload k >>= λ s. ok (counted cmd_name 1 ++ field 1 1 s))
          ≡ request cmd_name (k ∷ []) payload
    unfolding required
    one_key k = rw (same_check payload k) (elim (Result-cases (check payload k)) [
      | inl (s, e) ↦
          rw e (ap ok (counted_one cmd_name named (text_field 1 s) (fits k s 1 e (omega arith))))
      | inr (x, e) ↦ rw e refl
    ])

    pub two_keys :
        (k l : Bytes)
        → (code_check payload k >>= λ s.
            code_check payload l >>= λ t. ok (counted cmd_name 2 ++ (field 1 1 s ++ field 2 1 t)))
          ≡ request cmd_name (k ∷ l ∷ []) payload
    unfolding required
    two_keys k l =
        rw (same_check payload k, same_check payload l)
          (elim (Result-cases (check payload k)) [
            | inl (s, e) ↦ elim (Result-cases (check payload l)) [
              | inl (t, e2) ↦
                  rw (e, e2)
                    (ap ok (
                      counted_two cmd_name named (text_field 1 s) (text_field 2 t)
                        (fits k s 1 e (omega arith)) (fits l t 2 e2 (omega arith))))
              | inr (x, e2) ↦ rw (e, e2) refl
            ]
            | inr (x, e) ↦ rw e refl
          ])

    pub three_keys :
        (k l n : Bytes)
        → (code_check payload k >>= λ s. code_check payload l >>= λ t. code_check payload n >>= λ u.
            ok (counted cmd_name 3 ++ (field 1 1 s ++ (field 2 1 t ++ field 3 1 u))))
          ≡ request cmd_name (k ∷ l ∷ n ∷ []) payload
    unfolding required
    three_keys k l n =
        rw (same_check payload k, same_check payload l, same_check payload n)
          (elim (Result-cases (check payload k)) [
            | inl (s, e) ↦ elim (Result-cases (check payload l)) [
              | inl (t, e2) ↦ elim (Result-cases (check payload n)) [
                | inl (u, e3) ↦
                    rw (e, e2, e3)
                      (ap ok (
                        counted_three cmd_name named (text_field 1 s) (text_field 2 t)
                          (text_field 3 u) (fits k s 1 e (omega arith))
                          (fits l t 2 e2 (omega arith)) (fits n u 3 e3 (omega arith))))
                | inr (x, e3) ↦ rw (e, e2, e3) refl
              ]
              | inr (x, e2) ↦ rw (e, e2) refl
            ]
            | inr (x, e) ↦ rw e refl
          ])

-- ===== src/Protocol/Reply/Ends.antt =====
-- The shared beginning of the decoders always ends, and stays inside the payload.
use rzgate.Prelude.{
  ℕ, ◌+◌, ◌≤◌, ◌≡◌, refl, Bool, true, false, length, arith, ltb, ◌==◌, Bool-cases, inl, inr,
}
use rzgate.Bytes.{Bytes}
use rzgate.Flow.{Flow, next, ◌>>=◌}
use rzgate.Flow.Rules.{
  Returns, early, Gives, left_early, index_lt, read_u16_lt, read_u32_lt, slice_le,
}
use rzgate.Protocol.Reply.{reject_if, ◌>>◌, Prologue, read_prologue, Head, read_head}

pub Returns-reject_if {ℓ} :
    {B : Type ℓ} (b : Bool) {k : Flow B} → (b ≡ false → Returns k) → Returns (reject_if b >> k)
Returns-reject_if true h = early
Returns-reject_if false h = h refl

pub Gives-reject_if :
    {A : Type 0} (P : A → Type 0) (b : Bool) (k : Flow A)
    → (b ≡ false → Gives P k)
    → Gives P (reject_if b >> k)
Gives-reject_if P true k h = left_early
Gives-reject_if P false k h = h refl

-- The fields begin inside `bytes`, behind the status length and the field count.
abbrev pub Within : Bytes → Prologue → Type 0
Within bytes p = (3 ≤ p.offset) × (p.offset ≤ length bytes)

pub read_head_lt :
    (bytes : Bytes) (offset : ℕ)
    → offset + 7 ≤ length bytes
    → (h : Head) × (read_head bytes offset ≡ next h)
unfolding read_head
read_head_lt bytes offset h =
    let (id, p) = read_u16_lt bytes offset (omega arith) in
    let (t, q) = index_lt bytes (offset + 2) (omega arith) in
    let (len, r) = read_u32_lt bytes (offset + 3) (omega arith) in
    (record { id = id; field_type = t; len = len }, rw (p, q, r))

pub read_prologue-Returns {ℓ} :
    {B : Type ℓ} (bytes : Bytes) (f : Prologue → Flow B)
    → ((p : Prologue) → Within bytes p → Returns (f p))
    → Returns (read_prologue bytes >>= f)
unfolding read_prologue
read_prologue-Returns bytes f k = elim (Bool-cases (length bytes == 0)) [
  | inl e ↦ rw e early
  | inr e ↦
      let (n, p) = index_lt bytes 0 (ground arith) in
      rw (e, p)
        (elim (Bool-cases (ltb (length bytes) (1 + n + 2))) [
          | inl short ↦ rw short early
          | inr long ↦
              let (s, q, _) = slice_le bytes 1 (1 + n) (omega arith) (ground arith) in
              let (c, r) = read_u16_lt bytes (1 + n) (ground arith) in
              rw (long, q, r) (k _ (omega arith, ground arith))
        ])
]

-- ===== src/RzError.antt =====
-- src/error.rs: the proxy's error type. A message is its UTF-8 bytes.
use rzgate.Bytes.{Bytes}

pub data RzError : Type 0 where
  validation : Bytes → RzError
  roomzin_unreachable : Bytes → RzError
  timeout : RzError
  internal : Bytes → RzError
  network : Bytes → RzError

-- Rust's `Result<A, RZError>`.
pub data Result {ℓ} (A : Type ℓ) : Type ℓ where
  ok : A → Result A
  err : RzError → Result A

infixl 5 ◌>>=◌
abbrev pub ◌>>=◌ {ℓ κ} : {A : Type ℓ} {B : Type κ} → Result A → (A → Result B) → Result B
ok a >>= f = f a
err e >>= f = err e

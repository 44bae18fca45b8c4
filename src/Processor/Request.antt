-- ===== src/Processor/Request.antt =====
-- The binary requests: a command's name, the number of its fields, and the fields. The processors
-- write them with a literal count, or with the closure `add_field`, which counts, and a patch.
pub mod Layout
pub mod Required
pub mod Keyed
pub mod Filters
use rzgate.Prelude.{
  ℕ, ◌+◌, ◌%◌, ◌/◌, ◌^◌, Bool, not, Option, none, some, List, [], ◌∷◌, ◌++◌, length, set, ◌==◌,
  if◌then◌else◌,
}
use rzgate.Bytes.{Bytes, codes, u16_le, u32_le}
use rzgate.RzError.{Result, ok, err, validation}

-- `buf.push(cmd_name.len() as u8); buf.extend_from_slice(cmd_name.as_bytes());`
abbrev pub command : Bytes → Bytes
command cmd_name = length cmd_name % 256 ∷ cmd_name

-- `id.to_le_bytes()`, the type, `(data.len() as u32).to_le_bytes()` and the data.
unfoldable pub field : ℕ → ℕ → Bytes → Bytes
field id typ payload = u16_le id ++ (typ ∷ u32_le (length payload % 2 ^ 32) ++ payload)

-- The command with a literal field count.
unfoldable pub counted : Bytes → ℕ → Bytes
counted cmd_name n = command cmd_name ++ u16_le n

-- The two variables that `add_field` captures.
pub record Builder : Type 0 where
  pub buf : Bytes
  pub field_count : ℕ

unfoldable pub begin : Bytes → Builder
begin cmd_name = record { buf = command cmd_name ++ u16_le 0; field_count = 0 }

unfoldable pub add_field : Builder → ℕ → ℕ → Bytes → Builder
unfolding field
add_field b id typ payload = record {
  buf = b.buf ++ field id typ payload;
  field_count = (b.field_count + 1) % 2 ^ 16;
}

-- `if let Some(x) = .. { add_field(id, typ, x) }`
unfoldable pub add_optional : Builder → ℕ → ℕ → Option Bytes → Builder
add_optional b id typ none = b
add_optional b id typ (some payload) = add_field b id typ payload

-- `buf[field_count_pos] = ..; buf[field_count_pos + 1] = ..;`, where the position is the length of
-- the command.
unfoldable pub patch : Bytes → ℕ → Builder → Bytes
patch cmd_name n b =
    let pos = length (command cmd_name) in set (set b.buf pos (n % 256)) (pos + 1) (n / 256 % 256)

-- The patch with the count that `add_field` has kept.
abbrev pub finish : Bytes → Builder → Bytes
finish cmd_name b = patch cmd_name b.field_count b

-- `match .. { Some(s) if !s.is_empty() => s, _ => return error_response(..) }`
unfoldable pub non_empty : Option Bytes → Bytes → Result Bytes
non_empty none name = err (validation (name ++ codes " is required"))
non_empty (some s) name =
    if not (length s == 0) then ok s else err (validation (name ++ codes " is required"))

-- `match .. { Some(s) => s, None => return error_response(..) }`
unfoldable pub present : Option Bytes → Bytes → Result Bytes
present none name = err (validation (name ++ codes " is required"))
present (some s) name = ok s

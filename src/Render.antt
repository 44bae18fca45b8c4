-- ===== src/Render.antt =====
-- Pieces of JSON text that several functions of the source write in the same way.
use rzgate.Prelude.{List, [], ◌∷◌, ◌++◌, map}
use rzgate.Bytes.{Bytes}

-- `json.push(b'"'); json.extend_from_slice(text); json.push(b'"');`
abbrev pub quoted : Bytes → Bytes
quoted text = b'"' ∷ text ++ (b'"' ∷ [])

-- `if i > 0 { json.push(b','); }` before each piece.
unfoldable pub comma_separated : List Bytes → Bytes
comma_separated [] = []
comma_separated (x ∷ []) = x
comma_separated (x ∷ y ∷ ys) = x ++ (b',' ∷ comma_separated (y ∷ ys))

abbrev pub quoted_list : List Bytes → Bytes
quoted_list names = comma_separated (map quoted names)

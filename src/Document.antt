-- ===== src/Document.antt =====
-- JSON documents as the README prints them: what the answers of the code are compared with. Texts stand between
-- quotes as they are.
pub mod Answers
pub mod Errors
pub mod Features
use rzgate.Prelude.{List, [], ◌∷◌, ◌++◌}
use rzgate.Bytes.{Bytes, codes}

-- A comma before each piece.
abbrev pub after_commas : List Bytes → Bytes
after_commas [] = []
after_commas (x ∷ xs) = b',' ∷ x ++ after_commas xs

abbrev pub joined : List Bytes → Bytes
joined [] = []
joined (x ∷ xs) = x ++ after_commas xs

abbrev pub string : Bytes → Bytes
string text = b'"' ∷ text ++ codes "\""

abbrev pub array : List Bytes → Bytes
array values = b'[' ∷ joined values ++ codes "]"

abbrev pub member : Bytes → Bytes → Bytes
member key value = string key ++ (b':' ∷ value)

abbrev pub object : List Bytes → Bytes
object members = b'{' ∷ joined members ++ codes "}"

-- `{"status": "success", ..}`
abbrev pub success_with : List Bytes → Bytes
success_with members = object (member (codes "status") (string (codes "success")) ∷ members)

-- `{"status": "error", "message": ..}`
abbrev pub error_document : Bytes → Bytes
error_document message = object (
    member (codes "status") (string (codes "error"))
    ∷ member (codes "message") (string message)
    ∷ [])

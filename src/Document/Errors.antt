-- ===== src/Document/Errors.antt =====
-- What the proxy makes of an error message of the backend, as a table.
use rzgate.Prelude.{
  ℕ, ◌≡◌, refl, ap, Bool-cases, inl, inr, true, equal_sound, List, [], ◌∷◌, length, equal,
  if◌then◌else◌,
}
use rzgate.Bytes.{Bytes, codes}
use rzgate.Metrics.{Metrics, inc_client_errors, add_bytes_sent}
use rzgate.Http.{Response, json_response}
use rzgate.Document.{error_document}
use rzgate.Document.Answers.{error_json-error_document}
use rzgate.Protocol.Response.{friendly, status_code, error_json}

abbrev absent : Bytes
absent = codes "The requested segment was not found"

abbrev unavailable : Bytes
unavailable = codes "Service is temporarily unavailable. Please try again later."

abbrev late : Bytes
late = codes "The request timed out. Please try again."

abbrev broken : Bytes
broken = codes "An internal error occurred. Please try again later."

-- The HTTP status and the text for a message: for the texts themselves, and for the backend's codes.
abbrev known_texts : List (Bytes × ℕ × Bytes)
known_texts =
    (absent, 404, absent)
    ∷ (unavailable, 503, unavailable)
    ∷ (late, 504, late)
    ∷ (broken, 500, broken)
    ∷ []

abbrev pub known_messages : List (Bytes × ℕ × Bytes)
known_messages =
    (codes "404", 404, absent)
    ∷ (codes "503", 503, unavailable)
    ∷ (codes "408", 504, late)
    ∷ (codes "500", 500, broken)
    ∷ known_texts

-- Any other message is passed on with 400.
abbrev pub reply_in : List (Bytes × ℕ × Bytes) → Bytes → ℕ × Bytes
reply_in [] msg = (400, msg)
reply_in ((key, status, text) ∷ rows) msg =
    if equal msg key then (status, text) else reply_in rows msg

-- The answer counts one client error, and the bytes of its body as sent.
abbrev pub error_answer : Metrics → ℕ × Bytes → Response × Metrics
error_answer m (status, text) = (
  json_response status (error_document text),
  add_bytes_sent (inc_client_errors m) (length (error_document text)),
)

abbrev pub reply_for : Metrics → Bytes → Response × Metrics
reply_for m msg = error_answer m (reply_in known_messages msg)

abbrev row : ℕ → Bytes → ℕ × Bytes
row status text = (status, text)

-- A text that is found in its own row.
same_text :
    (status : ℕ) (msg text : Bytes) → equal msg text ≡ true → row status msg ≡ row status text
same_text status msg text e = ap (row status) (equal_sound msg text e)

known_texts-reply_in : (msg : Bytes) → row (status_code msg) msg ≡ reply_in known_texts msg
unfolding status_code
known_texts-reply_in msg = elim (Bool-cases (equal msg absent)) [
  | inl e ↦ rw e (same_text 404 msg absent e)
  | inr e1 ↦ elim (Bool-cases (equal msg unavailable)) [
    | inl e ↦ rw (e1, e) (same_text 503 msg unavailable e)
    | inr e2 ↦ elim (Bool-cases (equal msg late)) [
      | inl e ↦ rw (e1, e2, e) (same_text 504 msg late e)
      | inr e3 ↦ elim (Bool-cases (equal msg broken)) [
        | inl e ↦ rw (e1, e2, e3, e) (same_text 500 msg broken e)
        | inr e4 ↦ rw (e1, e2, e3, e4) refl
      ]
    ]
  ]
]

status_of_text :
    (status_code absent ≡ 404)
    × (status_code unavailable ≡ 503)
    × (status_code late ≡ 504)
    × (status_code broken ≡ 500)
unfolding status_code equal
status_of_text = (refl, refl, refl, refl)

pub friendly-reply_in :
    (msg : Bytes) → row (status_code (friendly msg)) (friendly msg) ≡ reply_in known_messages msg
unfolding friendly
friendly-reply_in msg = elim (Bool-cases (equal msg (codes "404"))) [
  | inl e ↦ rw (e, status_of_text.0) refl
  | inr e1 ↦ elim (Bool-cases (equal msg (codes "503"))) [
    | inl e ↦ rw (e1, e, status_of_text.1) refl
    | inr e2 ↦ elim (Bool-cases (equal msg (codes "408"))) [
      | inl e ↦ rw (e1, e2, e, status_of_text.2) refl
      | inr e3 ↦ elim (Bool-cases (equal msg (codes "500"))) [
        | inl e ↦ rw (e1, e2, e3, e, status_of_text.3) refl
        | inr e4 ↦ rw (e1, e2, e3, e4) (known_texts-reply_in msg)
      ]
    ]
  ]
]

-- What the code answers with an error is the document of the error.
pub error_json-error_answer :
    (m : Metrics) (status : ℕ) (msg : Bytes)
    → ◌≡◌ {A = Response × Metrics}
        (
          json_response status (error_json msg),
          add_bytes_sent (inc_client_errors m) (length (error_json msg)),
        )
        (error_answer m (status, msg))
error_json-error_answer m status msg =
    ap (λ (t : Bytes). (json_response status t, add_bytes_sent (inc_client_errors m) (length t)))
      (error_json-error_document msg)

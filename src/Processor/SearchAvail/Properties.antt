-- ===== src/Processor/SearchAvail/Properties.antt =====
-- The properties of a response of SEARCHAVAIL in the wire format, the JSON text of each, and one round
-- of the decoder's loop.
use rzgate.Prelude.{
  ℕ, suc, ◌+◌, ◌*◌, ◌%◌, ◌<◌, ◌≡◌, refl, ap, Bool, true, false, leb, ◌==◌, some, List, [], ◌∷◌,
  ◌++◌, map, All, append_assoc, length, length-append, arith,
}
use rzgate.Bytes.{Bytes, codes, IsU16, IsU32, u16_le}
use rzgate.Utf8.{is_utf8}
use rzgate.Flow.{next}
use rzgate.Render.{quoted, comma_separated}
use rzgate.Protocol.{Field}
use rzgate.Protocol.Reply.{success}
use rzgate.Protocol.Reply.Encoding.{
  encode_prologue, encode_field, encode_fields, length-encode_field,
}
use rzgate.Protocol.Reply.Located.{
  head_of, Located, head_located, slice_located, more_located, long_located, inside_located,
}
use rzgate.Helper.PropertyId.{bytes_to_property_id}
use rzgate.Helper.PropertyId.Agree.{IsShort, short_text, write_quoted_property_id-eq}
use rzgate.Processor.Request.Layout.{text_field}
use rzgate.Processor.SearchAvail.{
  with_comma, read_days_field, Written, write_property, take_field, scan_avail,
}
use rzgate.Processor.SearchAvail.Days.{
  World, AvailDay, days_vector, length-days_vector, read_days_count-days_vector, IsAvailDay,
  avail_day_json, write_days-encode_days, pieces_from-comma_separated,
}

pub record Property : Type 0 where
  pub property_id : Bytes
  pub days : List AvailDay

abbrev pub days_field : ℕ → List AvailDay → Field
days_field id ds = record { id = id; field_type = 0x08; payload = days_vector ds }

abbrev pub num_days_field : ℕ → Field
num_days_field n = record { id = 1; field_type = 0x02; payload = u16_le n }

-- Each property as two fields, numbered from `i` on.
abbrev pub property_fields : ℕ → List Property → List Field
property_fields i [] = []
property_fields i (p ∷ ps) =
    text_field i p.property_id ∷ days_field (i + 1) p.days ∷ property_fields (i + 2) ps

-- The status, the number of fields, the number of days and the properties.
abbrev pub avail_payload : ℕ → List Property → Bytes → Bytes
avail_payload num_days ps rest =
    encode_prologue success (1 + 2 * length ps)
    ++ (encode_field (num_days_field num_days) ++ (encode_fields (property_fields 2 ps) ++ rest))

-- The days' field behind a property id.
read_days_field-Located :
    (bytes pre rest : Bytes) (i : ℕ) (ds : List AvailDay) (offset : ℕ)
    → i + 1 < 65536
    → Located bytes pre (days_field (i + 1) ds) rest offset
    → read_days_field bytes offset i ≡ next (days_vector ds, offset + 7 + length (days_vector ds))
unfolding read_days_field
read_days_field-Located bytes pre rest i ds offset few located = rw (
  long_located bytes pre _ rest offset located,
  head_located bytes pre _ rest offset located,
  same,
  inside_located bytes pre _ rest offset located,
  slice_located bytes pre _ rest offset located,
)
  where
    same : (i + 1 == (i + 1) % 65536) ≡ true
    same = ground arith

module _ (w : World) where
  open w use {cal, year, uuid_to_string, documented, features}

  -- The id's text is valid UTF-8, all lengths fit the wire format, and the days are valid.
  pub record IsListed (p : Property) : Type 0 where
    pub id_fits : IsU32 (length p.property_id)
    pub id_utf8 : IsShort p.property_id → is_utf8 (short_text p.property_id) ≡ true
    pub few_days : IsU16 (length p.days)
    pub valid_days : All (IsAvailDay w) p.days

  abbrev day_json : AvailDay → Bytes
  day_json = avail_day_json w

  abbrev pub property_json : Property → Bytes
  property_json p =
      codes "{\"property_id\":"
      ++ (quoted (bytes_to_property_id uuid_to_string p.property_id)
          ++ (codes ",\"days\":[" ++ (comma_separated (map day_json p.days) ++ codes "]}")))

  write_property-Located :
      (bytes pre rest : Bytes) (p : Property) (offset : ℕ) (s : Written)
      → s.current_field + 1 < 65536
      → IsListed p
      → Located bytes pre (days_field (s.current_field + 1) p.days) rest offset
      → write_property cal year (some features) bytes offset p.property_id s
        ≡ next (
          s.json ++ (with_comma [] s.first_property ++ property_json p),
          offset + 7 + length (days_vector p.days),
        )
  unfolding write_property
  write_property-Located bytes pre rest p offset s few listed located =
      rw
        (
          read_days_field-Located bytes pre rest s.current_field p.days offset few located,
          read_days_count-days_vector p.days listed.few_days,
          write_quoted_property_id-eq uuid_to_string documented _ p.property_id listed.id_utf8,
          write_days-encode_days w (u16_le (length p.days)) p.days _ _ true 2 listed.valid_days refl
              refl,
          pieces_from-comma_separated (map day_json p.days),
        )
        (ap (λ (t : Bytes). next (t, offset + 7 + length (days_vector p.days)))
          (text s.json s.first_property))
    where
      text :
          (json : Bytes) (first : Bool)
          → (((with_comma json first ++ (codes "{" ++ codes "\"property_id\":"))
                  ++ quoted (bytes_to_property_id uuid_to_string p.property_id))
                ++ codes ",\"days\":[")
              ++ comma_separated (map day_json p.days)
              ++ codes "]}"
            ≡ json ++ (with_comma [] first ++ property_json p)
      text json true = simp append_assoc
      text json false = simp append_assoc

  -- One round of the loop, on the expected field.
  pub round :
      (fuel : ℕ) (bytes pre : Bytes) (f : Field) (rest : Bytes) (offset offset2 : ℕ)
      (s after : Written)
      → Located bytes pre f rest offset
      → f.id ≡ s.current_field
      → take_field cal year
          (some features)
          bytes
          (offset + 7 + length f.payload)
          (head_of f)
          f.payload
          s
        ≡ next (after, offset2)
      → scan_avail cal year (some features) (suc fuel) bytes offset s
        ≡ scan_avail cal year (some features) fuel bytes offset2 after
  unfolding scan_avail
  round fuel bytes pre f rest offset offset2 s after located expected taken = rw (
    more_located bytes pre f rest offset located,
    head_located bytes pre f rest offset located,
    same,
    inside_located bytes pre f rest offset located,
    slice_located bytes pre f rest offset located,
    taken,
  )
    where
      same : (f.id == s.current_field) ≡ true
      same = ground arith

  pub last_round :
      (fuel : ℕ) (bytes : Bytes) (offset : ℕ) (s : Written)
      → length bytes < offset + 7
      → scan_avail cal year (some features) (suc fuel) bytes offset s ≡ next s
  unfolding scan_avail
  last_round fuel bytes offset s stop = rw over
    where
      over : leb (offset + 7) (length bytes) ≡ false
      over = ground arith

  -- A property id is taken with the days behind it.
  pub take_property :
      (bytes pre rest : Bytes) (p : Property) (offset : ℕ) (s : Written)
      → s.current_field % 2 ≡ 0
      → s.current_field + 2 < 65536
      → IsListed p
      → Located bytes pre (days_field (s.current_field + 1) p.days) rest offset
      → take_field cal year
          (some features)
          bytes
          offset
          (head_of (text_field s.current_field p.property_id))
          p.property_id
          s
        ≡ next (
          record {
            json = s.json ++ (with_comma [] s.first_property ++ property_json p);
            current_field = s.current_field + 2;
            first_property = false;
          },
          offset + 7 + length (days_vector p.days),
        )
  unfolding take_field
  take_property bytes pre rest p offset s even few listed located = rw (
    not_first,
    even,
    write_property-Located bytes pre rest p offset s (omega arith) listed located,
    counted,
  )
    where
      not_first : (s.current_field == 1) ≡ false
      not_first = ground arith

      counted : ((s.current_field + 1) % 65536 + 1) % 65536 ≡ s.current_field + 2
      counted = omega arith

  -- The two places of a property's fields.
  pub id-Located :
      (bytes pre : Bytes) (i : ℕ) (p : Property) (ps : List Property) (rest : Bytes) (offset : ℕ)
      → bytes ≡ pre ++ (encode_fields (property_fields i (p ∷ ps)) ++ rest)
      → offset ≡ length pre
      → i < 65536
      → IsListed p
      → Located bytes pre
          (text_field i p.property_id)
          (encode_field (days_field (i + 1) p.days)
            ++ (encode_fields (property_fields (i + 2) ps) ++ rest))
          offset
  id-Located bytes pre i p ps rest offset shape at few listed = record {
    shape = rw shape (simp append_assoc);
    at = at;
    fits = record { id_fits = few; len_fits = listed.id_fits };
  }

  pub days-Located :
      (bytes pre : Bytes) (i : ℕ) (p : Property) (ps : List Property) (rest : Bytes) (offset : ℕ)
      → bytes ≡ pre ++ (encode_fields (property_fields i (p ∷ ps)) ++ rest)
      → offset ≡ length pre
      → i + 1 < 65536
      → IsListed p
      → Located bytes
          (pre ++ encode_field (text_field i p.property_id))
          (days_field (i + 1) p.days)
          (encode_fields (property_fields (i + 2) ps) ++ rest)
          (offset + 7 + length p.property_id)
  days-Located bytes pre i p ps rest offset shape at few listed = record {
    shape = rw shape (simp append_assoc);
    at = omega (
      arith,
      length-append pre (encode_field (text_field i p.property_id)),
      length-encode_field (text_field i p.property_id),
    );
    fits = record {
      id_fits = few;
      len_fits = omega (arith, length-days_vector p.days, listed.few_days);
    };
  }

-- ===== src/Processor/SearchAvail/Days.antt =====
-- The days of a property: their vector in the wire format, and the JSON text that is written of it.
use rzgate.Prelude.{
  ℕ, suc, ◌+◌, ◌*◌, ◌<◌, ◌≡◌, refl, sym, ap, ◌∙◌, Bool, true, false, ltb, ◌==◌, List, [], ◌∷◌, ◌++◌,
  map, All, append_assoc, append-nil, length, length-append, arith, some,
}
use rzgate.Bytes.{Bytes, codes, IsU16, IsU32, u16_le, u32_le}
use rzgate.Bytes.Words.{from_u32_le-u32_le}
use rzgate.Decimal.{decimal}
use rzgate.Flow.{next, index, read_u16, read_u32}
use rzgate.Flow.Append.{index-append, read_u16-append, read_u32-append, read_u16-u16_le}
use rzgate.RzError.{ok}
use rzgate.Render.{comma_separated, quoted_list}
use rzgate.Helper.PackedDate.{Calendar, u16_to_date, write_packed_date}
use rzgate.Helper.PackedDate.Agree.{IsGregorian, write_packed_date-Agrees}
use rzgate.Helper.PropertyId.Agree.{IsHyphenated}
use rzgate.Bitmask.{get_rate_features}
use rzgate.Helper.RateFeatures.{collect, bitmask_to_rate_feature_strings, write_rate_features_array}
use rzgate.Helper.RateFeatures.Agree.{write_rate_features_array-eq}
use rzgate.Processor.SearchAvail.{with_comma, read_days_count, write_day, write_days}

-- A day of a property, with the text of its packed date.
pub record AvailDay : Type 0 where
  pub packed : ℕ
  pub date : Bytes
  pub availability : ℕ
  pub final_price : ℕ
  pub rate_mask : ℕ

-- | date(2) | availability(1) | price(4) | mask(4) |
abbrev pub encode_day : AvailDay → Bytes
encode_day d = u16_le d.packed ++ (d.availability ∷ u32_le d.final_price ++ u32_le d.rate_mask)

abbrev pub encode_days : List AvailDay → Bytes
encode_days [] = []
encode_days (d ∷ ds) = encode_day d ++ encode_days ds

abbrev pub days_vector : List AvailDay → Bytes
days_vector ds = u16_le (length ds) ++ encode_days ds

length-encode_days : (ds : List AvailDay) → length (encode_days ds) ≡ 11 * length ds
length-encode_days [] = omega arith
length-encode_days (d ∷ ds) = omega (arith, length-encode_days ds)

pub length-days_vector : (ds : List AvailDay) → length (days_vector ds) ≡ 2 + 11 * length ds
length-days_vector ds = omega (arith, length-encode_days ds)

pub read_days_count-days_vector :
    (ds : List AvailDay) → IsU16 (length ds) → read_days_count (days_vector ds) ≡ next (length ds)
unfolding read_days_count
read_days_count-days_vector ds few =
    rw (two, read_u16-u16_le (length ds) (encode_days ds) few, length-encode_days ds, same)
  where
    two : ltb (length (days_vector ds)) 2 ≡ false
    two = ground arith

    same : (suc (suc (11 * length ds)) == 2 + 11 * length ds) ≡ true
    same = ground arith

-- What is still to be written of a list's pieces, at its front or behind others.
abbrev pub pieces_from : Bool → List Bytes → Bytes
pieces_from first [] = []
pieces_from first (p ∷ ps) = with_comma [] first ++ (p ++ pieces_from false ps)

pub pieces_from-comma_separated : (ps : List Bytes) → pieces_from true ps ≡ comma_separated ps
unfolding comma_separated
pieces_from-comma_separated [] = refl
pieces_from-comma_separated (p ∷ []) = append-nil p
pieces_from-comma_separated (p ∷ q ∷ ps) =
    ap (λ (t : Bytes). p ++ (b',' ∷ t)) (pieces_from-comma_separated (q ∷ ps))

pub with_comma-append :
    (json : Bytes) (first : Bool) (t : Bytes)
    → with_comma json first ++ t ≡ json ++ (with_comma [] first ++ t)
with_comma-append json true t = refl
with_comma-append json false t = append_assoc json (b',' ∷ []) t

-- What the proxy finds around it: the documented calendar, a year of four digits, the documented text of
-- UUIDs, and the names of the rate features, which were set at the start.
pub record World : Type 1 where
  pub cal : Calendar
  pub gregorian : IsGregorian cal
  pub year : ℕ
  pub four : year + 7 < 10000
  pub uuid_to_string : Bytes → Bytes
  pub documented : IsHyphenated uuid_to_string
  pub features : List Bytes

module _ (w : World) where
  open w use {cal, gregorian, year, four, features}

  -- The packed date is valid with this text, and the numbers have their widths.
  pub record IsAvailDay (d : AvailDay) : Type 0 where
    pub packed_fits : IsU16 d.packed
    pub dated : u16_to_date cal year d.packed ≡ ok d.date
    pub price_fits : IsU32 d.final_price
    pub mask_fits : IsU32 d.rate_mask

  abbrev pub avail_day_json : AvailDay → Bytes
  avail_day_json d =
      codes "{\"date\":\""
      ++ (d.date
          ++ (codes "\",\"availability\":"
              ++ (decimal d.availability
                  ++ (codes ",\"final_price\":"
                      ++ (decimal d.final_price
                          ++ (codes ",\"rate_feature\":["
                              ++ (quoted_list (collect d.rate_mask 0 24 features)
                                  ++ codes "]}")))))))

  write_date :
      (json : Bytes) (d : AvailDay)
      → IsAvailDay d
      → write_packed_date cal year json d.packed ≡ ok (json ++ d.date)
  write_date json d h =
      let agrees = write_packed_date-Agrees cal gregorian year four json d.packed in
      (rw h.dated at agrees)

  features_array :
      (json : Bytes) (mask : ℕ)
      → write_rate_features_array (some features) json mask
        ≡ json
          ++ codes "\"rate_feature\":["
          ++ quoted_list (collect mask 0 24 features)
          ++ codes "]"
  unfolding bitmask_to_rate_feature_strings get_rate_features
  features_array json mask = write_rate_features_array-eq (some features) json mask _ refl

  module _ (pre : Bytes) (d : AvailDay) (is_day : IsAvailDay d) (post : Bytes) (d_off : ℕ)
      (at : d_off ≡ length pre) where
    abbrev day_bytes : Bytes
    day_bytes = pre ++ (encode_day d ++ post)

    packed_read : read_u16 day_bytes d_off ≡ next d.packed
    packed_read =
        read_u16-append pre (encode_day d ++ post) d_off 0 (omega arith)
        ∙ read_u16-u16_le d.packed _ is_day.packed_fits

    availability_read : index day_bytes (d_off + 2) ≡ next d.availability
    unfolding index
    availability_read = index-append pre (encode_day d ++ post) (d_off + 2) 2 (omega arith)

    price_read : read_u32 day_bytes (d_off + 3) ≡ next d.final_price
    price_read =
        read_u32-append pre (encode_day d ++ post) (d_off + 3) 3 (omega arith)
        ∙ (unfold read_u32 index in ap next (from_u32_le-u32_le d.final_price is_day.price_fits))

    mask_read : read_u32 day_bytes (d_off + 7) ≡ next d.rate_mask
    mask_read =
        read_u32-append pre (encode_day d ++ post) (d_off + 7) 7 (omega arith)
        ∙ (unfold read_u32 index in ap next (from_u32_le-u32_le d.rate_mask is_day.mask_fits))

    write_day-encode_day :
        (json : Bytes)
        → write_day cal year (some features) json day_bytes d_off ≡ next (json ++ avail_day_json d)
    unfolding write_day
    write_day-encode_day json =
        rw
          (
            packed_read,
            write_date (json ++ (codes "{" ++ codes "\"date\":\"")) d is_day,
            availability_read,
            price_read,
            mask_read,
          )
          (ap next (rw (features_array _ d.rate_mask) (simp append_assoc)))

  pub write_days-encode_days :
      (pre : Bytes) (ds : List AvailDay) (days_data json : Bytes) (first : Bool) (d_off : ℕ)
      → All IsAvailDay ds
      → days_data ≡ pre ++ encode_days ds
      → d_off ≡ length pre
      → write_days cal year (some features) (length ds) json first days_data d_off
        ≡ next (json ++ pieces_from first (map avail_day_json ds))
  unfolding write_days
  write_days-encode_days pre [] days_data json first d_off are shape at =
      ap next (sym (append-nil json))
  write_days-encode_days pre (d ∷ ds) days_data json first d_off are shape at =
      rw
        (ap (λ bytes. write_day cal year (some features) (with_comma json first) bytes d_off) shape
          ∙ write_day-encode_day pre d are.0 (encode_days ds) d_off at (with_comma json first))
        (write_days-encode_days (pre ++ encode_day d) ds days_data _ false (d_off + 11) are.1
            (shape ∙ sym (append_assoc pre (encode_day d) (encode_days ds)))
            (omega (arith, length-append pre (encode_day d)))
          ∙ ap next (
              append_assoc (with_comma json first) (avail_day_json d) _
              ∙ with_comma-append json first _))

-- ===== src/Protocol/Drain/Chunks.antt =====
-- `drain_frame_async` against `prepend_header`: a frame is read back however the network cuts it.
use rzgate.Prelude.{
  ℕ, ◌+◌, ◌%◌, ◌≤◌, ◌≡◌, refl, sym, ap, ◌∙◌, true, ◌∷◌, ◌++◌, length, length-append, drop,
  drop-prefix, drop-append, arith,
}
use rzgate.Bytes.{Bytes, IsU32, u32_le}
use rzgate.Bytes.Words.{from_u32_le-u32_le}
use rzgate.Flow.{Flow, next, index, slice, read_u32}
use rzgate.Flow.Append.{index-prefix, read_u32-prefix, slice-prefix, slice-append}
use rzgate.Protocol.Frame.{prepend_header}
use rzgate.Protocol.Drain.{
  Reader, Filled, fill, Outcome, Drained, parse_payload, drain_payload, drain_frame_async,
}
use rzgate.Protocol.Drain.Progress.{pending, fill_enough, fill-pending, fill_succeeds}

abbrev nine_bytes : ℕ → Bytes → Bytes
nine_bytes clrid payload = 0xFF ∷ u32_le clrid ++ u32_le (length payload % 4294967296)

module _ (clrid : ℕ) (payload more : Bytes) (h : IsU32 clrid) (k : IsU32 (length payload)) where
  abbrev stream : Bytes
  stream = prepend_header clrid payload ++ more

  magic : index stream 0 ≡ next 0xFF
  unfolding prepend_header index
  magic = refl

  read_clrid : read_u32 stream 1 ≡ next clrid
  unfolding prepend_header read_u32 index
  read_clrid = ap next (from_u32_le-u32_le clrid h)

  read_length : read_u32 stream 5 ≡ next (length payload)
  unfolding prepend_header read_u32 index
  read_length = ap next (omega arith)

  read_payload : slice stream 9 (9 + length payload) ≡ next payload
  unfolding prepend_header
  read_payload =
      slice-append (nine_bytes clrid payload) payload more 9 (9 + length payload) refl refl

  length_frame : length (prepend_header clrid payload) ≡ 9 + length payload
  unfolding prepend_header
  length_frame = omega arith

  drop_frame : drop (9 + length payload) stream ≡ more
  drop_frame = rw (← length_frame) (drop-append (prepend_header clrid payload) more)

  length-stream : length stream ≡ 9 + length payload + length more
  length-stream = omega (arith, length-append (prepend_header clrid payload) more, length_frame)

  module _ (o : Outcome) (parsed : parse_payload clrid payload ≡ next o) where
    -- The call gives `o`, takes the frame, and leaves what follows it in the buffer and the stream.
    abbrev pub Takes : Flow Drained → Type 0
    Takes r = (d : Drained) × (r ≡ next d) × (d.outcome ≡ o) × (d.buf ++ pending d.reader ≡ more)

    drain_payload-Takes :
        (f : Filled)
        → 9 ≤ length f.buf
        → f.buf ++ pending f.reader ≡ stream
        → Takes (drain_payload f)
    unfolding drain_payload
    drain_payload-Takes f long at = (
      record { outcome = o; buf = drop (9 + length payload) g.buf; reader = g.reader },
      rw (clrid_read, length_read, enough, payload_read, parsed),
      refl,
      sym (drop-prefix (9 + length payload) g.buf (pending g.reader) (fill_enough _ _ _ enough))
          ∙ ap (drop (9 + length payload)) whole
          ∙ drop_frame,
    )
      where
        g : Filled
        g = fill (9 + length payload) f.buf f.reader

        clrid_read : read_u32 f.buf 1 ≡ next clrid
        clrid_read = read_u32-prefix f.buf (pending f.reader) 1 (omega arith) ∙ rw at read_clrid

        length_read : read_u32 f.buf 5 ≡ next (length payload)
        length_read = read_u32-prefix f.buf (pending f.reader) 5 (omega arith) ∙ rw at read_length

        enough : g.enough ≡ true
        enough = fill_succeeds _ f.buf f.reader (rw at (omega (arith, length-stream)))

        whole : g.buf ++ pending g.reader ≡ stream
        whole = fill-pending _ f.buf f.reader enough ∙ at

        payload_read : slice g.buf 9 (9 + length payload) ≡ next payload
        payload_read =
            slice-prefix g.buf (pending g.reader) 9 (9 + length payload) (omega arith)
              (fill_enough _ f.buf f.reader enough)
            ∙ rw whole read_payload

    -- However the network cuts the stream into reads, and whatever part of it the buffer already
    -- holds, `drain_frame_async` takes exactly the frame that `prepend_header` made: it answers with
    -- the correlation id and the payload, as far as the payload passes the checks, and leaves the
    -- bytes behind the frame. The id is a u32 and the payload's length fits its four bytes.
    pub drain-prepend_header :
        (reader : Reader) (buf : Bytes)
        → buf ++ pending reader ≡ stream
        → Takes (drain_frame_async reader buf)
    unfolding drain_frame_async
    drain-prepend_header reader buf at =
        rw (enough, magic_read) (drain_payload-Takes f (fill_enough 9 buf reader enough) whole)
      where
        f : Filled
        f = fill 9 buf reader

        enough : f.enough ≡ true
        enough = fill_succeeds 9 buf reader (rw at (omega (arith, length-stream)))

        whole : f.buf ++ pending f.reader ≡ stream
        whole = fill-pending 9 buf reader enough ∙ at

        magic_read : index f.buf 0 ≡ next 0xFF
        magic_read =
            index-prefix f.buf (pending f.reader) 0 (omega (arith, fill_enough 9 buf reader enough))
            ∙ rw whole magic

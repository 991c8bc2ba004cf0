-- ===== src/Proto/Frame/RoundTrip.antt =====
-- A control frame of natforge-proto/src/lib.rs that is written is read back, or refused for its
-- length.
use natforge_thesis.Prelude.{
  ℕ, ◌%◌, ◌≤◌, ◌<◌, ◌≡◌, refl, ◌∙◌, sym, Bool, true, false, Bytes, ◌++◌, append_assoc, length, leb,
  le→leb, ok, err, arith,
}
use natforge_thesis.Proto.Stream.{Sink, frame_too_large, read_exact, write_all, be32, from_be32}
use natforge_thesis.Proto.Stream.Parses.{
  Parses, reader, Parses-read_exact, Parses-bind, Parses-require, bind_ok,
}
use natforge_thesis.Proto.Frame.{max_frame, read_frame_body, read_frame, write_frame}

abbrev framed : Bytes → Bytes
framed bs = be32 (length bs % 4294967296) ++ bs

write_frame-framed :
    (bs : Bytes) (s : Sink)
    → s.closed ≡ false
    → write_frame bs s ≡ ok (record s { written = s.written ++ framed bs })
unfolding write_frame write_all
write_frame-framed bs s h =
    ground (arith, append_assoc s.written (be32 (length bs % 4294967296)) bs)

be32-inverse : (n : ℕ) → n < 4294967296 → from_be32 (be32 (n % 4294967296)) ≡ n
be32-inverse n h = omega arith

-- On an open stream `write_frame` appends a frame for a message of at most 1 MiB, and `read_frame`
-- reads exactly that frame as the message: what follows it is left, and a stream that ends inside
-- it gives the end's error.
pub read_frame-write_frame :
    (bs : Bytes) (s : Sink)
    → s.closed ≡ false
    → length bs ≤ max_frame
    → (xs : Bytes) × (write_frame bs s ≡ ok (record s { written = s.written ++ xs }))
      × Parses read_frame xs bs
unfolding read_frame
read_frame-write_frame bs s open_ h =
    let len : from_be32 (be32 (length bs % 4294967296)) ≡ length bs =
      be32-inverse _ (omega arith) in
    (
      framed bs,
      write_frame-framed bs s open_,
      Parses-bind _ read_frame_body (Parses-read_exact 4 (be32 (length bs % 4294967296)) refl) (
          Parses-require _ _
            (let le : leb (from_be32 (be32 (length bs % 4294967296))) max_frame ≡ true =
                rw len (le→leb _ _ h) in
              le)
            (Parses-read_exact _ bs (sym len))),
    )

-- A frame longer than 1 MiB, whose length fits the prefix, is refused by its length before any of
-- its body is read.
pub read_frame_too_large :
    (bs rest : Bytes) (faulty : Bool) (s : Sink)
    → s.closed ≡ false
    → max_frame < length bs
    → length bs < 4294967296
    → (xs : Bytes) × (write_frame bs s ≡ ok (record s { written = s.written ++ xs }))
      × (read_frame (reader (xs ++ rest) faulty) ≡ err (frame_too_large (length bs)))
unfolding read_frame
read_frame_too_large bs rest faulty s open_ h k =
    let len : from_be32 (be32 (length bs % 4294967296)) ≡ length bs = be32-inverse _ k in
    let head =
      (Parses-read_exact 4 (be32 (length bs % 4294967296)) refl).complete (bs ++ rest) faulty in
    (
      framed bs,
      write_frame-framed bs s open_,
      bind_ok (read_exact 4) read_frame_body head ∙ refused len,
    )
  where
    refused :
        from_be32 (be32 (length bs % 4294967296)) ≡ length bs
        → read_frame_body (be32 (length bs % 4294967296)) (reader (bs ++ rest) faulty)
          ≡ err (frame_too_large (length bs))
    refused e = let over : leb (length bs) max_frame ≡ false = ground arith in rw (e, over)

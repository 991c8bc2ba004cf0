-- ===== src/Proto/Frame.antt =====
-- `write_frame` and `read_frame` of natforge-proto/src/lib.rs: the handshake's control frames.
pub mod RoundTrip
use natforge_thesis.Prelude.{ℕ, ◌%◌, ◌^◌, Bytes, length, leb, Result, and_then}
use natforge_thesis.Proto.Stream.{
  Read, Sink, IoError, frame_too_large, read_exact, write_all, ◌>>=◌, ◌>>◌, require, be32,
  from_be32,
}

abbrev pub max_frame : ℕ
max_frame = 1048576

abbrev pub read_frame_body : Bytes → Read Bytes
read_frame_body lb = do
  require (leb (from_be32 lb) max_frame) (frame_too_large (from_be32 lb))
  read_exact (from_be32 lb)

unfoldable pub read_frame : Read Bytes
read_frame = do lb ← read_exact 4; read_frame_body lb

-- `data.len() as u32` drops the high bits of a longer length.
unfoldable pub write_frame : Bytes → Sink → Result IoError Sink
write_frame bs s = and_then (write_all (be32 (length bs % 4294967296)) s) (write_all bs)

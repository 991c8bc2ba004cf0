-- ===== src/Node/Sni.antt =====
-- `parse_sni` of natforge-node/src/tunnel/shared.rs, with its indexing checked: `none` stands for a
-- panic, and for a loop out of fuel.
pub mod Safety
pub mod Hello
use natforge_thesis.Prelude.{
  ℕ, zero, suc, ◌+◌, ◌*◌, Bool, not, ◌||◌, Bytes, Option, none, some, length, get_elem?, leb, ltb,
  ◌==◌, if◌then◌else◌,
}
use natforge_thesis.Node.Checked.{◌>>=◌, slice, slice_from, be16_at}
use natforge_thesis.Node.Text.{is_utf8}

pub data Sni : Type 0 where
  found : Bytes → Sni
  need_more no_sni not_tls : Sni

-- The server_name extension: list length, name type, name length, name.
unfoldable pub server_name : Bytes → Option Sni
server_name ext = if ltb (length ext) 5 then some no_sni else do
  name_type ← get_elem? ext 2
  name_len ← be16_at 3 ext
  if not (name_type == 0)
      then some no_sni
      else if ltb (length ext) (5 + name_len)
      then some no_sni
      else do name ← slice 5 (5 + name_len) ext; some (if is_utf8 name then found name else no_sni)

-- `while p + 4 <= ext_end`.
unfoldable pub extensions : ℕ → Bytes → ℕ → ℕ → Option Sni
unfolding server_name
extensions zero body p ext_end = none
extensions (suc fuel) body p ext_end =
    if leb (p + 4) ext_end
    then (do
      etype ← be16_at p body
      elen ← be16_at (p + 2) body
      let rest = extensions fuel body (p + 4 + elen) ext_end
      if ltb (length body) (p + 4 + elen)
          then some need_more
          else if etype == 0
          then (do ext ← slice (p + 4) (p + 4 + elen) body; server_name ext)
          else rest)
    else some no_sni

-- From the extensions' length on, at offset `p`.
unfoldable pub at_extensions : Bytes → ℕ → Option Sni
unfolding extensions
at_extensions body p = if not (leb (p + 2) (length body)) then some no_sni else do
  ext_total ← be16_at p body
  if ltb (length body) (p + 2 + ext_total)
      then some need_more
      else extensions (suc (length body)) body (p + 2) (p + 2 + ext_total)

unfoldable pub at_compression : Bytes → ℕ → Option Sni
at_compression body p =
    if not (leb (p + 1) (length body))
    then some need_more
    else do cm ← get_elem? body p; at_extensions body (p + (1 + cm))

unfoldable pub at_ciphers : Bytes → ℕ → Option Sni
at_ciphers body p =
    if not (leb (p + 2) (length body))
    then some need_more
    else do cs ← be16_at p body; at_compression body (p + (2 + cs))

-- The body of the ClientHello: version and random first, then the session id.
unfoldable pub at_hello : Bytes → Option Sni
at_hello body =
    if not (leb 34 (length body))
    then some need_more
    else if not (leb (34 + 1) (length body))
    then some need_more
    else do sid ← get_elem? body 34; at_ciphers body (34 + (1 + sid))

unfoldable pub at_handshake : Bytes → Option Sni
at_handshake hs = if ltb (length hs) 4 then some no_sni else do
  kind ← get_elem? hs 0
  if not (kind == 1) then some no_sni else do body ← slice_from 4 hs; at_hello body

unfoldable pub parse_sni : Bytes → Option Sni
parse_sni b = if ltb (length b) 5 then some need_more else do
  b0 ← get_elem? b 0
  b1 ← get_elem? b 1
  rec_len ← be16_at 3 b
  if not (b0 == 0x16) || not (b1 == 0x03)
      then some not_tls
      else if ltb (length b) (5 + rec_len)
      then some need_more
      else do hs ← slice 5 (5 + rec_len) b; at_handshake hs

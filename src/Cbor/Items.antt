-- ===== src/Cbor/Items.antt =====
-- Sequences of calls of src/cbor_enc.h, as the callers in src/lbd_main.c make them: an array on the
-- stack, an item after the other, and one test of the error at the end.
pub mod Laws
use lbd.Prelude.{ℕ, List, [], ◌∷◌, Option, none, some, if◌then◌else◌, take, replicate}
use lbd.Cbor.Enc.{
  CborEnc, cbor_enc_init, cbor_enc_map, cbor_enc_uint, cbor_enc_text, cbor_enc_bytes_hdr,
  cbor_enc_len,
}

-- A call of an encoder.
pub data Item : Type 0 where
  map_of : ℕ → Item
  uint : ℕ → Item
  text : List ℕ → Item
  bytes_hdr : ℕ → Item

unfoldable pub enc_item : CborEnc → Item → CborEnc
unfolding cbor_enc_map cbor_enc_uint cbor_enc_bytes_hdr
enc_item e (map_of n) = cbor_enc_map e n
enc_item e (uint v) = cbor_enc_uint e v
enc_item e (text s) = cbor_enc_text e s
enc_item e (bytes_hdr n) = cbor_enc_bytes_hdr e n

unfoldable pub enc_items : CborEnc → List Item → CborEnc
unfolding enc_item
enc_items e [] = e
enc_items e (i ∷ is) = enc_items (enc_item e i) is

-- The encoding into an array of `limit` bytes: none if `e.err` is set, else the first
-- `cbor_enc_len(&e)` bytes.
unfoldable pub encode : ℕ → List Item → Option (List ℕ)
unfolding enc_items cbor_enc_init cbor_enc_len
encode limit is =
    let e = enc_items (cbor_enc_init (replicate limit 0) limit) is in
    if e.err then none else some (take (cbor_enc_len e) e.buf)

-- ===== src/Cbor/Enc.antt =====
-- src/cbor_enc.h: the encoder of the kernel module.
use lbd.Prelude.{
  ℕ, ◌+◌, ◌*◌, ◌%◌, ◌^◌, List, [], ◌∷◌, Bool, true, false, ltb, leb, if◌then◌else◌, set, length,
  byte_at,
}

-- `struct cbor_enc`; `err` is the sticky `-ENOSPC`.
pub record CborEnc : Type 0 where
  pub buf : List ℕ
  pub pos : ℕ
  pub cap : ℕ
  pub err : Bool

unfoldable pub cbor_enc_init : List ℕ → ℕ → CborEnc
cbor_enc_init buf cap = record { buf = buf; pos = 0; cap = cap; err = false }

unfoldable pub cbor_enc_len : CborEnc → ℕ
cbor_enc_len e = e.pos

unfoldable pub cbor_put : CborEnc → ℕ → CborEnc
cbor_put e b =
    if e.err
    then e
    else if leb e.cap e.pos
    then record e { err = true }
    else record e { buf = set e.buf e.pos b; pos = e.pos + 1 }

-- One `cbor_put` after the other.
unfoldable pub cbor_puts : CborEnc → List ℕ → CborEnc
cbor_puts e [] = e
cbor_puts e (b ∷ bs) = cbor_puts (cbor_put e b) bs

-- `major << 5` as a u8; the low five bits are clear, so that `|` below is a sum.
unfoldable pub cbor_enc_head : CborEnc → ℕ → ℕ → CborEnc
cbor_enc_head e major val =
    let mt = major * 32 % 256 in
    if ltb val 24
    then cbor_puts e ((mt + val) ∷ [])
    else if leb val 0xFF
    then cbor_puts e ((mt + 24) ∷ byte_at val 1 ∷ [])
    else if leb val 0xFFFF
    then cbor_puts e ((mt + 25) ∷ byte_at val (2 ^ 8) ∷ byte_at val 1 ∷ [])
    else if leb val 0xFFFFFFFF
    then cbor_puts e (
        (mt + 26)
        ∷ byte_at val (2 ^ 24)
        ∷ byte_at val (2 ^ 16)
        ∷ byte_at val (2 ^ 8)
        ∷ byte_at val 1
        ∷ [])
    else cbor_puts e (
        (mt + 27)
        ∷ byte_at val (2 ^ 56)
        ∷ byte_at val (2 ^ 48)
        ∷ byte_at val (2 ^ 40)
        ∷ byte_at val (2 ^ 32)
        ∷ byte_at val (2 ^ 24)
        ∷ byte_at val (2 ^ 16)
        ∷ byte_at val (2 ^ 8)
        ∷ byte_at val 1
        ∷ [])

unfoldable pub cbor_enc_map : CborEnc → ℕ → CborEnc
cbor_enc_map e count = cbor_enc_head e 5 count

unfoldable pub cbor_enc_uint : CborEnc → ℕ → CborEnc
cbor_enc_uint e val = cbor_enc_head e 0 val

-- A text is the list of its bytes, so that its length is not an argument.
unfoldable pub cbor_enc_text : CborEnc → List ℕ → CborEnc
cbor_enc_text e s = cbor_puts (cbor_enc_head e 3 (length s)) s

unfoldable pub cbor_enc_bytes_hdr : CborEnc → ℕ → CborEnc
cbor_enc_bytes_hdr e len = cbor_enc_head e 2 len

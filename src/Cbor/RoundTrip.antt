-- ===== src/Cbor/RoundTrip.antt =====
-- What the encoders write is what the decoder reads.
use lbd.Prelude.{
  ℕ, ◌+◌, ◌^◌, ◌<◌, ◌≤◌, ◌≡◌, refl, ◌∙◌, List, true, false, length, arith, get_or, overlay_at, some,
  get_or-overlay_at,
}
use lbd.Cbor.Enc.{cbor_enc_head}
use lbd.Cbor.Write.{cbor_write_head}
use lbd.Cbor.Dec.{CborDec, cbor_dec_head}
use lbd.Cbor.Head.{head_bytes, big_endian, length-head_bytes, length-head_bytes-le}
use lbd.Cbor.EncLaws.{
  enc, cbor_puts-fits, cbor_puts_overflow, cbor_enc_head-head_bytes, cbor_write_head-head_bytes,
}

-- From `pos` on the buffer holds the bytes `bs`.
abbrev pub At : List ℕ → ℕ → List ℕ → Type 0
At buf pos bs = (i : ℕ) → i < length bs → get_or buf (pos + i) 0 ≡ get_or bs i 0

abbrev pub dec : List ℕ → ℕ → ℕ → CborDec
dec buf pos len = record { buf = buf; pos = pos; len = len }

-- A head that stands in the buffer is read, whatever follows it.
pub cbor_dec_head-head_bytes :
    (buf : List ℕ) (pos len major v : ℕ)
    → major < 8
    → v < 2 ^ 64
    → At buf pos (head_bytes major v)
    → pos + length (head_bytes major v) ≤ len
    → cbor_dec_head (dec buf pos len)
      ≡ (some (major, v), dec buf (pos + length (head_bytes major v)) len)
unfolding cbor_dec_head head_bytes big_endian
cbor_dec_head-head_bytes buf pos len major v m h at fits =
    ground (arith, at 0, at 1, at 2, at 3, at 4, at 5, at 6, at 7, at 8)

pub At-overlay_at :
    (buf : List ℕ) (pos : ℕ) (bs : List ℕ)
    → pos + length bs ≤ length buf
    → At (overlay_at buf pos bs) pos bs
At-overlay_at buf pos bs h i l = get_or-overlay_at buf pos bs i 0 l h

module _ (buf : List ℕ) (pos limit major v : ℕ) (m : major < 8) (h : v < 2 ^ 64) where
  -- The encoder's result where there is room, written out.
  pub cbor_enc_head_run :
      pos + length (head_bytes major v) ≤ limit
      → cbor_enc_head (enc buf pos limit false) major v
        ≡ enc
            (overlay_at buf pos (head_bytes major v))
            (pos + length (head_bytes major v))
            limit
            false
  cbor_enc_head_run room =
      cbor_enc_head-head_bytes major v m h (enc buf pos limit false)
      ∙ cbor_puts-fits buf pos limit (head_bytes major v) room

  -- A major type below 8 and a u64 encoded where nine bytes are free are read back by the
  -- decoder, which then stands where the encoder stands, at most nine bytes further, whatever
  -- follows in the buffer.
  pub cbor_dec_head-enc_head :
      (len : ℕ)
      → pos + 9 ≤ limit
      → limit ≤ length buf
      → limit ≤ len
      → let e = cbor_enc_head (enc buf pos limit false) major v in
        (e.err ≡ false)
        × (pos < e.pos)
        × (e.pos ≤ pos + 9)
        × (cbor_dec_head (dec e.buf pos len) ≡ (some (major, v), dec e.buf e.pos len))
  cbor_dec_head-enc_head len room inside fits =
      let n = length-head_bytes-le major v in
      let one = length-head_bytes major v in
      rw (cbor_enc_head_run (omega arith)) (
        refl,
        omega arith,
        omega arith,
        cbor_dec_head-head_bytes (overlay_at buf pos (head_bytes major v)) pos len major v m h
            (At-overlay_at buf pos (head_bytes major v) (omega arith)) (omega arith),
      )

  -- For a major type below 8 and a u64, the encoder of lbdctl stores the same bytes as the
  -- kernel's, and moves as far, where nine bytes are free for the latter.
  pub cbor_write_head-enc_head :
      pos + 9 ≤ limit
      → let e = cbor_enc_head (enc buf pos limit false) major v in
        let w = cbor_write_head (record { buf = buf; pos = pos }) major v in
        (w.buf ≡ e.buf) × (w.pos ≡ e.pos)
  cbor_write_head-enc_head room =
      let n = length-head_bytes-le major v in
      rw (cbor_enc_head_run (omega arith), cbor_write_head-head_bytes major v m h) (refl, refl)

  -- Where a head does not fit below the capacity, the sticky error is set, and the position ends
  -- at the capacity, with a buffer of the same length.
  pub cbor_enc_head_overflow :
      pos ≤ limit
      → limit < pos + length (head_bytes major v)
      → ((cbor_enc_head (enc buf pos limit false) major v).err ≡ true)
        × ((cbor_enc_head (enc buf pos limit false) major v).pos ≡ limit)
        × (length (cbor_enc_head (enc buf pos limit false) major v).buf ≡ length buf)
  cbor_enc_head_overflow low over =
      rw (cbor_enc_head-head_bytes major v m h)
        (cbor_puts_overflow buf pos limit (head_bytes major v) low over)

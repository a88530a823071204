-- ===== src/Cbor/Text.antt =====
-- `cbor_dec_text` of src/cbor_dec.h: its bounds, and that it reads what `cbor_enc_text` wrote.
use lbd.Prelude.{
  ℕ, ◌+◌, ◌%◌, ◌^◌, ◌≤◌, ◌<◌, ◌≡◌, refl, ap, ◌∙◌, false, List, Option, none, some, arith, length,
  take, drop, overlay_at, length-take, length-overlay_at, take-drop-overlay_at,
  get_or-overlay_at_below, not-le→leb, not-lt→ltb, ltb,
}
use lbd.Cbor.Enc.{cbor_enc_text}
use lbd.Cbor.Dec.{CborDec, cbor_dec_head, copy_text, cbor_dec_text, expect_major}
use lbd.Cbor.Head.{head_bytes, length-head_bytes-le}
use lbd.Cbor.EncLaws.{enc, cbor_puts-fits}
use lbd.Cbor.RoundTrip.{At, At-overlay_at, dec, cbor_enc_head_run, cbor_dec_head-head_bytes}
use lbd.Cbor.DecLaws.{Forward, cbor_dec_head-Forward}

copy_text-Forward :
    (d : CborDec) (cap : ℕ) (r : Option ℕ)
    → d.pos ≤ d.len
    → d.len + cap < 2 ^ 64
    → Forward d (copy_text d cap r).1
unfolding copy_text
copy_text-Forward d cap none h room = ground arith
copy_text-Forward d cap (some n) h room = ground arith

copy_text_short :
    (d : CborDec) (cap : ℕ) (r : Option ℕ) (s : List ℕ)
    → (copy_text d cap r).0 ≡ some s
    → length s < cap
unfolding copy_text
copy_text_short d cap none s e = absurd (ground arith)
copy_text_short d cap (some n) s e = ground (arith, length-take n (drop d.pos d.buf))

-- Whatever the bytes are, reading a text into `cap` bytes, from a position inside the buffer and
-- with sizes whose sum does not wrap, moves forward within the buffer, and a text that is read
-- leaves room for its closing NUL.
pub cbor_dec_text-Forward :
    (d : CborDec) (cap : ℕ)
    → d.pos ≤ d.len
    → d.len + cap < 2 ^ 64
    → Forward d (cbor_dec_text d cap).1
      × ((s : List ℕ) → (cbor_dec_text d cap).0 ≡ some s → length s < cap)
unfolding cbor_dec_text
cbor_dec_text-Forward d cap h room =
    let a = cbor_dec_head-Forward d h in
    let r = expect_major 3 (cbor_dec_head d).0 in
    let b =
      copy_text-Forward (cbor_dec_head d).1 cap r (omega (arith, a.inside))
        (omega (arith, ap (λ n. n) a.same_len)) in
    (
      record {
        same_buf = b.same_buf ∙ a.same_buf;
        same_len = b.same_len ∙ a.same_len;
        grows = omega (arith, a.grows, b.grows);
        inside = b.inside;
      },
      copy_text_short (cbor_dec_head d).1 cap r,
    )

-- What stands below a write stays.
At-below :
    (buf : List ℕ) (pos : ℕ) (bs : List ℕ) (at : ℕ) (ys : List ℕ)
    → pos + length bs ≤ at
    → At buf pos bs
    → At (overlay_at buf at ys) pos bs
At-below buf pos bs at ys h seen i l =
    get_or-overlay_at_below buf at ys (pos + i) 0 (omega arith) ∙ seen i l

-- Where a head and its text stand one behind the other, the text is read.
pub cbor_dec_text_run :
    (buf : List ℕ) (pos len cap n : ℕ) (s : List ℕ)
    → length s < cap
    → pos + n + length s ≤ len
    → len < 2 ^ 64
    → take (length s) (drop (pos + n) buf) ≡ s
    → cbor_dec_head (dec buf pos len) ≡ (some (3, length s), dec buf (pos + n) len)
    → cbor_dec_text (dec buf pos len) cap ≡ (some s, dec buf (pos + n + length s) len)
unfolding cbor_dec_text copy_text
cbor_dec_text_run buf pos len cap n s short fits small at head =
    let near : ltb len ((pos + n + length s) % 2 ^ 64) ≡ false = not-lt→ltb len _ (omega arith) in
    rw (head, not-le→leb cap (length s) short, near, at) refl

-- A text that is encoded where there is room for it and nine more bytes, in a buffer shorter
-- than 2 ^ 64 bytes, is read back by the decoder into a buffer that is longer than it; the
-- decoder then stands where the encoder stands.
pub cbor_dec_text-enc_text :
    (buf : List ℕ) (pos limit len cap : ℕ) (s : List ℕ)
    → length s < cap
    → pos + 9 + length s ≤ limit
    → limit ≤ length buf
    → limit ≤ len
    → len < 2 ^ 64
    → let e = cbor_enc_text (enc buf pos limit false) s in
      (e.err ≡ false) × (cbor_dec_text (dec e.buf pos len) cap ≡ (some s, dec e.buf e.pos len))
unfolding cbor_enc_text
cbor_dec_text-enc_text buf pos limit len cap s short room inside fits small =
    let hb = head_bytes 3 (length s) in
    let n = length hb in
    let n_le = length-head_bytes-le 3 (length s) in
    let m : 3 < 8 = omega arith in
    let w : length s < 2 ^ 64 = omega arith in
    let one = overlay_at buf pos hb in
    let two = overlay_at one (pos + n) s in
    let l1 : length one ≡ length buf = length-overlay_at buf pos hb in
    let at : At two pos hb =
      At-below one pos hb (pos + n) s (omega arith)
        (At-overlay_at buf pos hb (omega (arith, n_le))) in
    rw
      (
        cbor_enc_head_run buf pos limit 3 (length s) m w (omega (arith, n_le)),
        cbor_puts-fits one (pos + n) limit s (omega (arith, n_le)),
      )
      (
        refl,
        cbor_dec_text_run two pos len cap n s short (omega (arith, n_le)) small
            (take-drop-overlay_at one (pos + n) s (omega (arith, n_le, l1)))
            (cbor_dec_head-head_bytes two pos len 3 (length s) m w at (omega (arith, n_le))),
      )

-- ===== src/Tests/Codecs.antt =====
-- The theorems on the CBOR codecs and the header's fields at concrete inputs.
use lbd.Prelude.{ℕ, ◌+◌, ◌≤◌, ◌<◌, ◌≡◌, false, [], ◌∷◌, some, arith, length, replicate}
use lbd.Cbor.Enc.{cbor_enc_head}
use lbd.Cbor.Dec.{cbor_dec_head}
use lbd.Cbor.Write.{cbor_write_head}
use lbd.Cbor.EncLaws.{enc}
use lbd.Cbor.DecLaws.{Forward, cbor_dec_head-Forward}
use lbd.Cbor.RoundTrip.{dec, cbor_dec_head-enc_head, cbor_write_head-enc_head}
use lbd.Format.Header.{
  virtual_size, l1_size, alloc_offset, field_get, field_set, field_get-set_self, field_get-set_ne,
}
use lbd.Prelude.{List}
use lbd.Cbor.Enc.{cbor_enc_text}
use lbd.Cbor.Dec.{cbor_dec_text}
use lbd.Cbor.Text.{cbor_dec_text-Forward, cbor_dec_text-enc_text}

cbor_dec_head-enc_head_example :
    let e = cbor_enc_head (enc (replicate 12 0) 1 12 false) 3 1000 in
    (e.err ≡ false)
    × (1 < e.pos)
    × (e.pos ≤ 1 + 9)
    × (cbor_dec_head (dec e.buf 1 12) ≡ (some (3, 1000), dec e.buf e.pos 12))
cbor_dec_head-enc_head_example =
    cbor_dec_head-enc_head (replicate 12 0) 1 12 3 1000 (omega arith) (omega arith) 12 (omega arith)
      (omega arith) (omega arith)

cbor_write_head-enc_head_example :
    let e = cbor_enc_head (enc (replicate 12 0) 1 12 false) 0 70000 in
    let w = cbor_write_head (record { buf = replicate 12 0; pos = 1 }) 0 70000 in
    (w.buf ≡ e.buf) × (w.pos ≡ e.pos)
cbor_write_head-enc_head_example =
    cbor_write_head-enc_head (replicate 12 0) 1 12 0 70000 (omega arith) (omega arith) (omega arith)

cbor_dec_head-Forward_example :
    Forward (dec (25 ∷ 1 ∷ []) 0 2) (cbor_dec_head (dec (25 ∷ 1 ∷ []) 0 2)).1
cbor_dec_head-Forward_example = cbor_dec_head-Forward (dec (25 ∷ 1 ∷ []) 0 2) (omega arith)

seven_read : (cbor_dec_head (dec (7 ∷ 1 ∷ []) 0 2)).0 ≡ some (0, 7)
unfolding cbor_dec_head
seven_read = ground arith

field_get-set_self_example :
    field_get virtual_size (field_set virtual_size (replicate 56 0) 1048576) ≡ 1048576
field_get-set_self_example =
    field_get-set_self virtual_size (replicate 56 0) 1048576 (omega arith) (omega arith)

field_get-set_ne_example :
    field_get l1_size (field_set alloc_offset (replicate 56 0) 4096)
    ≡ field_get l1_size (replicate 56 0)
field_get-set_ne_example =
    field_get-set_ne l1_size alloc_offset (replicate 56 0) 4096 (λ e. ground arith)

cbor_dec_text-Forward_example :
    Forward (dec (98 ∷ 104 ∷ 105 ∷ []) 0 3) (cbor_dec_text (dec (98 ∷ 104 ∷ 105 ∷ []) 0 3) 16).1
    × ((s : List ℕ) → (cbor_dec_text (dec (98 ∷ 104 ∷ 105 ∷ []) 0 3) 16).0 ≡ some s → length s < 16)
cbor_dec_text-Forward_example =
    cbor_dec_text-Forward (dec (98 ∷ 104 ∷ 105 ∷ []) 0 3) 16 (omega arith) (omega arith)

cbor_dec_text-enc_text_example :
    let e = cbor_enc_text (enc (replicate 16 0) 1 16 false) (104 ∷ 105 ∷ []) in
    (e.err ≡ false)
    × (cbor_dec_text (dec e.buf 1 16) 8 ≡ (some (104 ∷ 105 ∷ []), dec e.buf e.pos 16))
cbor_dec_text-enc_text_example =
    cbor_dec_text-enc_text (replicate 16 0) 1 16 16 8 (104 ∷ 105 ∷ []) (omega arith) (omega arith)
      (omega arith) (omega arith) (omega arith)

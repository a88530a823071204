-- ===== src/Cbor/EncLaws.antt =====
-- Laws of the two encoders: what a run of `cbor_put` stores, and that both heads are `head_bytes`.
use lbd.Prelude.{
  ℕ, zero, suc, ◌+◌, ◌^◌, ◌<◌, ◌≤◌, ◌≡◌, refl, ap, ◌∙◌, List, [], ◌∷◌, Bool, true, false, length,
  arith, set, overlay, overlay_at, length-set, not-le→leb,
}
use lbd.Cbor.Enc.{CborEnc, cbor_put, cbor_puts, cbor_enc_head}
use lbd.Cbor.Write.{Msg, store, cbor_write_head}
use lbd.Cbor.Head.{head_bytes}

overlay-nil : (buf : List ℕ) → overlay buf [] ≡ buf
overlay-nil [] = refl
overlay-nil (x ∷ xs) = refl

overlay_at-nil : (buf : List ℕ) (pos : ℕ) → overlay_at buf pos [] ≡ buf
overlay_at-nil buf zero = overlay-nil buf
overlay_at-nil [] (suc pos) = refl
overlay_at-nil (x ∷ xs) (suc pos) = ap (λ (l : List ℕ). x ∷ l) (overlay_at-nil xs pos)

-- Storing a byte and then others behind it is one store.
overlay_at-set :
    (buf : List ℕ) (pos b : ℕ) (bs : List ℕ)
    → overlay_at (set buf pos b) (suc pos) bs ≡ overlay_at buf pos (b ∷ bs)
overlay_at-set [] zero b bs = refl
overlay_at-set [] (suc pos) b bs = refl
overlay_at-set (x ∷ xs) zero b bs = refl
overlay_at-set (x ∷ xs) (suc pos) b bs = ap (λ (l : List ℕ). x ∷ l) (overlay_at-set xs pos b bs)

abbrev pub enc : List ℕ → ℕ → ℕ → Bool → CborEnc
enc buf pos limit err = record { buf = buf; pos = pos; cap = limit; err = err }

-- Where the bytes fit below `cap`, they are stored at `pos`, which moves behind them.
pub cbor_puts-fits :
    (buf : List ℕ) (pos limit : ℕ) (bs : List ℕ)
    → pos + length bs ≤ limit
    → cbor_puts (enc buf pos limit false) bs
      ≡ enc (overlay_at buf pos bs) (pos + length bs) limit false
unfolding cbor_puts cbor_put
cbor_puts-fits buf pos limit [] h =
    let e : pos + 0 ≡ pos = omega arith in rw (overlay_at-nil buf pos, e)
cbor_puts-fits buf pos limit (b ∷ bs) h =
    let next : pos + 1 ≡ suc pos = omega arith in
    let end : suc pos + length bs ≡ pos + suc (length bs) = omega arith in
    rw (not-le→leb limit pos (omega arith), next)
      (cbor_puts-fits (set buf pos b) (suc pos) limit bs (omega arith)
        ∙ rw (overlay_at-set buf pos b bs, end))

-- An encoder in error ignores every byte.
cbor_puts_sticky :
    (buf : List ℕ) (pos limit : ℕ) (bs : List ℕ)
    → cbor_puts (enc buf pos limit true) bs ≡ enc buf pos limit true
unfolding cbor_puts cbor_put
cbor_puts_sticky buf pos limit [] = refl
cbor_puts_sticky buf pos limit (b ∷ bs) = cbor_puts_sticky buf pos limit bs

-- Where they do not fit, the error is set, `pos` stops at `cap` and the buffer keeps its length.
pub cbor_puts_overflow :
    (buf : List ℕ) (pos limit : ℕ) (bs : List ℕ)
    → pos ≤ limit
    → limit < pos + length bs
    → ((cbor_puts (enc buf pos limit false) bs).err ≡ true)
      × ((cbor_puts (enc buf pos limit false) bs).pos ≡ limit)
      × (length (cbor_puts (enc buf pos limit false) bs).buf ≡ length buf)
unfolding cbor_puts cbor_put
cbor_puts_overflow buf pos limit [] h k = absurd (omega arith)
cbor_puts_overflow buf pos limit (b ∷ bs) h k = ground (
  arith,
  cbor_puts_sticky buf pos limit bs,
  cbor_puts_overflow (set buf pos b) (pos + 1) limit bs,
  length-set buf pos b,
)

module _ (major v : ℕ) (m : major < 8) (h : v < 2 ^ 64) where
  pub cbor_enc_head-head_bytes :
      (e : CborEnc) → cbor_enc_head e major v ≡ cbor_puts e (head_bytes major v)
  unfolding cbor_enc_head head_bytes
  cbor_enc_head-head_bytes e = ground arith

  pub cbor_write_head-head_bytes :
      (b : Msg) → cbor_write_head b major v ≡ store b (head_bytes major v)
  unfolding cbor_write_head head_bytes
  cbor_write_head-head_bytes b = ground arith

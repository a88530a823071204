-- ===== src/Format/Bytes.antt =====
-- Laws of the big-endian accessors of src/lbd_qcow2_format.h.
use lbd.Prelude.{
  ℕ, ◌+◌, ◌≤◌, ◌<◌, ◌^◌, ◌≡◌, ◌⊎◌, inl, inr, List, arith, length, get_or, overlay_at,
  get_or-overlay_at, get_or-overlay_at_above, get_or-overlay_at_below,
}
use lbd.Format.{be16, be32, be64, get16, get32, get64, put16, put32, put64}

-- The byte range `[off, off + n)` does not meet `[at, at + m)`.
abbrev pub Apart : ℕ → ℕ → ℕ → ℕ → Type 0
Apart off n at m = (off + n ≤ at) ⊎ (at + m ≤ off)

pub get_or-overlay_at-Apart :
    (buf : List ℕ) (at : ℕ) (ys : List ℕ) (i : ℕ)
    → Apart i 1 at (length ys)
    → get_or (overlay_at buf at ys) i 0 ≡ get_or buf i 0
get_or-overlay_at-Apart buf at ys i (inl h) = get_or-overlay_at_below buf at ys i 0 (omega arith)
get_or-overlay_at-Apart buf at ys i (inr h) = get_or-overlay_at_above buf at ys i 0 h

module _ (buf : List ℕ) (off v : ℕ) where
  -- A u16, u32 or u64 is read back as it was written.
  pub get16-put16 : off + 2 ≤ length buf → v < 2 ^ 16 → get16 (put16 buf off v) off ≡ v
  unfolding get16 put16
  get16-put16 h k =
      let byte : (i : ℕ)
          → i < 2
          → get_or (overlay_at buf off (be16 v)) (off + i) 0 ≡ get_or (be16 v) i 0 =
        λ i l. get_or-overlay_at buf off (be16 v) i 0 l h in
      omega (arith, byte 0 (omega arith), byte 1 (omega arith))

  pub get32-put32 : off + 4 ≤ length buf → v < 2 ^ 32 → get32 (put32 buf off v) off ≡ v
  unfolding get32 put32
  get32-put32 h k =
      let byte : (i : ℕ)
          → i < 4
          → get_or (overlay_at buf off (be32 v)) (off + i) 0 ≡ get_or (be32 v) i 0 =
        λ i l. get_or-overlay_at buf off (be32 v) i 0 l h in
      omega (
        arith,
        byte 0 (omega arith),
        byte 1 (omega arith),
        byte 2 (omega arith),
        byte 3 (omega arith),
      )

  pub get64-put64 : off + 8 ≤ length buf → v < 2 ^ 64 → get64 (put64 buf off v) off ≡ v
  unfolding get64 put64
  get64-put64 h k =
      let byte : (i : ℕ)
          → i < 8
          → get_or (overlay_at buf off (be64 v)) (off + i) 0 ≡ get_or (be64 v) i 0 =
        λ i l. get_or-overlay_at buf off (be64 v) i 0 l h in
      omega (
        arith,
        byte 0 (omega arith),
        byte 1 (omega arith),
        byte 2 (omega arith),
        byte 3 (omega arith),
        byte 4 (omega arith),
        byte 5 (omega arith),
        byte 6 (omega arith),
        byte 7 (omega arith),
      )

-- A write elsewhere does not change what is read.
module _ (buf : List ℕ) (at : ℕ) (ys : List ℕ) (off : ℕ) where
  pub get32-overlay_at-Apart :
      Apart off 4 at (length ys) → get32 (overlay_at buf at ys) off ≡ get32 buf off
  unfolding get32
  get32-overlay_at-Apart h =
      let same : (i : ℕ)
          → i < 4
          → get_or (overlay_at buf at ys) (off + i) 0 ≡ get_or buf (off + i) 0 =
        λ i l. get_or-overlay_at-Apart buf at ys (off + i) (omega arith) in
      omega (
        arith,
        same 0 (omega arith),
        same 1 (omega arith),
        same 2 (omega arith),
        same 3 (omega arith),
      )

  pub get64-overlay_at-Apart :
      Apart off 8 at (length ys) → get64 (overlay_at buf at ys) off ≡ get64 buf off
  unfolding get64
  get64-overlay_at-Apart h =
      let same : (i : ℕ)
          → i < 8
          → get_or (overlay_at buf at ys) (off + i) 0 ≡ get_or buf (off + i) 0 =
        λ i l. get_or-overlay_at-Apart buf at ys (off + i) (omega arith) in
      omega (
        arith,
        same 0 (omega arith),
        same 1 (omega arith),
        same 2 (omega arith),
        same 3 (omega arith),
        same 4 (omega arith),
        same 5 (omega arith),
        same 6 (omega arith),
        same 7 (omega arith),
      )

-- ===== src/Cbor/Write.antt =====
-- The encoder of src/lbdctl.c. Each call stores bytes in `buf` at an offset and returns how many.
use lbd.Prelude.{
  ℕ, ◌+◌, ◌*◌, ◌%◌, ◌^◌, List, [], ◌∷◌, ltb, leb, if◌then◌else◌, overlay_at, length, byte_at,
}

-- A buffer and the bytes used in it: `buf` and `pos` of the callers.
pub record Msg : Type 0 where
  pub buf : List ℕ
  pub pos : ℕ

-- `buf[pos] = b0; buf[pos + 1] = b1; …; pos += n`
abbrev pub store : Msg → List ℕ → Msg
store m bs = record { buf = overlay_at m.buf m.pos bs; pos = m.pos + length bs }

-- `pos += cbor_write_head(buf + pos, major, val)`
unfoldable pub cbor_write_head : Msg → ℕ → ℕ → Msg
cbor_write_head m major val =
    let mt = major * 32 % 256 in
    if ltb val 24
    then store m ((mt + val) ∷ [])
    else if leb val 0xFF
    then store m ((mt + 24) ∷ byte_at val 1 ∷ [])
    else if leb val 0xFFFF
    then store m ((mt + 25) ∷ byte_at val (2 ^ 8) ∷ byte_at val 1 ∷ [])
    else if leb val 0xFFFFFFFF
    then store m (
        (mt + 26)
        ∷ byte_at val (2 ^ 24)
        ∷ byte_at val (2 ^ 16)
        ∷ byte_at val (2 ^ 8)
        ∷ byte_at val 1
        ∷ [])
    else store m (
        (mt + 27)
        ∷ byte_at val (2 ^ 56)
        ∷ byte_at val (2 ^ 48)
        ∷ byte_at val (2 ^ 40)
        ∷ byte_at val (2 ^ 32)
        ∷ byte_at val (2 ^ 24)
        ∷ byte_at val (2 ^ 16)
        ∷ byte_at val (2 ^ 8)
        ∷ byte_at val 1
        ∷ [])

-- ===== src/Cbor/Dec.antt =====
-- src/cbor_dec.h: the decoder of the kernel module. `none` stands for `-EINVAL`; the second
-- component is the decoder afterwards, also on an error.
use lbd.Prelude.{
  ℕ, ◌+◌, ◌*◌, ◌/◌, ◌%◌, ◌^◌, List, ltb, leb, ◌==◌, if◌then◌else◌, Option, none, some, get_or, take,
  drop,
}

pub record CborDec : Type 0 where
  pub buf : List ℕ
  pub pos : ℕ
  pub len : ℕ

unfoldable pub cbor_dec_init : List ℕ → ℕ → CborDec
cbor_dec_init buf len = record { buf = buf; pos = 0; len = len }

abbrev pub advance : CborDec → ℕ → CborDec
advance d n = record d { pos = d.pos + n }

-- `d->buf[d->pos + i]`
abbrev pub peek : CborDec → ℕ → ℕ
peek d i = get_or d.buf (d.pos + i) 0

-- The argument behind the initial byte, whose low five bits are `ai`.
unfoldable pub cbor_dec_arg : CborDec → ℕ → ℕ → Option (ℕ × ℕ) × CborDec
cbor_dec_arg d major ai =
    if ltb ai 24
    then (some (major, ai), d)
    else if ai == 24
    then if ltb d.len (d.pos + 1) then (none, d) else (some (major, peek d 0), advance d 1)
    else if ai == 25
    then if ltb d.len (d.pos + 2)
      then (none, d)
      else (some (major, peek d 0 * 2 ^ 8 + peek d 1), advance d 2)
    else if ai == 26
    then if ltb d.len (d.pos + 4) then (none, d) else (
      some (major, peek d 0 * 2 ^ 24 + peek d 1 * 2 ^ 16 + peek d 2 * 2 ^ 8 + peek d 3),
      advance d 4,
    )
    else if ai == 27
    then if ltb d.len (d.pos + 8) then (none, d) else (
      some (
        major,
        peek d 0 * 2 ^ 56
            + peek d 1 * 2 ^ 48
            + peek d 2 * 2 ^ 40
            + peek d 3 * 2 ^ 32
            + peek d 4 * 2 ^ 24
            + peek d 5 * 2 ^ 16
            + peek d 6 * 2 ^ 8
            + peek d 7,
      ),
      advance d 8,
    )
    else (none, d)

unfoldable pub cbor_dec_head : CborDec → Option (ℕ × ℕ) × CborDec
unfolding cbor_dec_arg
cbor_dec_head d =
    if leb d.len d.pos
    then (none, d)
    else cbor_dec_arg (advance d 1) (peek d 0 / 32) (peek d 0 % 32)

-- The value of a head whose major type is the one expected.
abbrev pub expect_major : ℕ → Option (ℕ × ℕ) → Option ℕ
expect_major m none = none
expect_major m (some (major, val)) = if major == m then some val else none

unfoldable pub cbor_dec_map : CborDec → Option ℕ × CborDec
cbor_dec_map d = let (r, d') = cbor_dec_head d in (expect_major 5 r, d')

unfoldable pub cbor_dec_uint : CborDec → Option ℕ × CborDec
cbor_dec_uint d = let (r, d') = cbor_dec_head d in (expect_major 0 r, d')

-- The copy of `slen` bytes into a buffer of `cap` bytes.
unfoldable pub copy_text : CborDec → ℕ → Option ℕ → Option (List ℕ) × CborDec
copy_text d cap none = (none, d)
copy_text d cap (some slen) =
    if leb cap slen
    then (none, d)
    else if ltb d.len ((d.pos + slen) % 2 ^ 64)
    then (none, d)
    else (some (take slen (drop d.pos d.buf)), advance d slen)

-- The text without its closing NUL, which `buf[slen]` receives.
unfoldable pub cbor_dec_text : CborDec → ℕ → Option (List ℕ) × CborDec
unfolding copy_text
cbor_dec_text d cap = let (r, d') = cbor_dec_head d in copy_text d' cap (expect_major 3 r)

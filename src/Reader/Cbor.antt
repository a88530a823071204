-- ===== src/Reader/Cbor.antt =====
-- The CBOR readers of src/lbdctl.c over a stream.
use lbd.Prelude.{ℕ, ◌/◌, ◌%◌, List, [], ltb, leb, ◌==◌, if◌then◌else◌, get_or}
use lbd.Format.{get16, get32, get64}
use lbd.Reader.{Input, Reader, pure, fail, ◌>>=◌, first_bytes, next_bytes}

module _ (input : Input) where
  -- The argument behind the initial byte, whose low five bits are `ai`.
  unfoldable pub read_arg : ℕ → Reader input.World ℕ
  unfolding next_bytes get16 get32 get64
  read_arg ai =
      if ltb ai 24
      then pure ai
      else if ai == 24
      then (do b ← next_bytes input 1; pure (get_or b 0 0))
      else if ai == 25
      then (do b ← next_bytes input 2; pure (get16 b 0))
      else if ai == 26
      then (do b ← next_bytes input 4; pure (get32 b 0))
      else if ai == 27
      then (do b ← next_bytes input 8; pure (get64 b 0))
      else fail

  -- Major type and argument.
  unfoldable pub cbor_read_head : Reader input.World (ℕ × ℕ)
  unfolding first_bytes read_arg
  cbor_read_head = do
    ib ← first_bytes input 1
    val ← read_arg (get_or ib 0 0 % 32)
    pure (get_or ib 0 0 / 32, val)

  abbrev pub of_major : ℕ → ℕ × ℕ → Reader input.World ℕ
  of_major m (major, val) = if major == m then pure val else fail

  unfoldable pub cbor_read_uint : Reader input.World ℕ
  unfolding cbor_read_head
  cbor_read_uint = cbor_read_head >>= of_major 0

  unfoldable pub cbor_read_bytes_hdr : Reader input.World ℕ
  unfolding cbor_read_head
  cbor_read_bytes_hdr = cbor_read_head >>= of_major 2

  unfoldable pub cbor_read_map : Reader input.World ℕ
  unfolding cbor_read_head
  cbor_read_map = cbor_read_head >>= of_major 5

  -- `len > 0 && read_exact(fd, buf, len) <= 0`
  abbrev pub some_bytes : ℕ → Reader input.World (List ℕ)
  some_bytes len = if len == 0 then pure [] else next_bytes input len

  unfoldable pub cbor_read_text : (cap : ℕ) → Reader input.World (List ℕ)
  unfolding cbor_read_head next_bytes
  cbor_read_text cap = do
    len ← cbor_read_head >>= of_major 3
    if leb cap len then fail else some_bytes len

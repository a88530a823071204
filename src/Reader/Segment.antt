-- ===== src/Reader/Segment.antt =====
-- The reading part of `cmd_log_cbor` in src/lbdctl.c: the header of a segment, and its entries up to
-- the end of the file. What is printed is the result. `depth` bounds the recursion of `cbor_skip`.
use lbd.Prelude.{
  ℕ, zero, suc, ◌%◌, ◌^◌, Bool, true, false, not, ◌&&◌, List, [], ◌∷◌, Option, none, some, ltb,
  ◌==◌, if◌then◌else◌, length, get_or,
}
use lbd.Reader.{Input, Res, ok, at_end, bad, Reader, pure, fail, ◌>>=◌, ◌>>◌, malloc}
use lbd.Reader.Crc.{crc32_calc}
use lbd.Reader.Cbor.{
  cbor_read_head, cbor_read_uint, cbor_read_bytes_hdr, cbor_read_map, some_bytes, cbor_read_text,
}
use lbd.Reader.Skip.{cbor_skip}

pub record SegmentHeader : Type 0 where
  pub version : ℕ
  pub block_size : ℕ
  pub segment_label : List ℕ
  pub device_size : ℕ
  pub backing_path : List ℕ

-- `uint32_t version = 0, block_size = 4096`, and so on.
abbrev pub no_header : SegmentHeader
no_header = record {
  version = 0;
  block_size = 4096;
  segment_label = [];
  device_size = 0;
  backing_path = [];
}

-- The locals for one entry, with `data_cap`, which stays from entry to entry. `bytes` is the first
-- `data_len` bytes of `data`.
pub record Fields : Type 0 where
  pub op : ℕ
  pub timestamp_ns : ℕ
  pub sequence : ℕ
  pub block : ℕ
  pub length : ℕ
  pub checksum : ℕ
  pub has_checksum : Bool
  pub has_data : Bool
  pub bytes : List ℕ
  pub data_cap : ℕ

abbrev pub no_fields : ℕ → Fields
no_fields data_cap = record {
  op = 0;
  timestamp_ns = 0;
  sequence = 0;
  block = 0;
  length = 0;
  checksum = 0;
  has_checksum = false;
  has_data = false;
  bytes = [];
  data_cap = data_cap;
}

-- An entry as it is printed.
pub record Shown : Type 0 where
  pub is_trim : Bool
  pub timestamp_ns : ℕ
  pub sequence : ℕ
  pub block : ℕ
  pub length : ℕ
  pub comp_size : ℕ
  pub has_data : Bool
  pub bytes : List ℕ
  pub has_checksum : Bool
  pub checksum : ℕ
  pub crc_ok : Bool

-- Where the loop over the entries ends: at `done`, whether at the end of the file or at something that
-- is no entry, since what is printed and the exit code are the same; or where the rounds that the model
-- grants are spent. Messages on stderr are left out.
pub data Stop : Type 0 where
  at_done : Stop
  out_of_rounds : Stop

pub data LogShown : Type 0 where
  refused : LogShown
  shown : SegmentHeader → List Shown → Stop → LogShown

-- The entry as it is printed, given what its fields are behind the decompression; 84 is 'T'.
unfoldable pub entry_of : Fields → Fields → Shown
unfolding crc32_calc
entry_of f g = record {
  is_trim = f.op == 84;
  timestamp_ns = f.timestamp_ns;
  sequence = f.sequence;
  block = f.block;
  length = f.length;
  comp_size = length f.bytes;
  has_data = f.has_data;
  bytes = g.bytes;
  has_checksum = f.has_checksum;
  checksum = f.checksum;
  crc_ok = if f.has_data && f.has_checksum then crc32_calc g.bytes == f.checksum else true;
}

module _ (input : Input) where
  -- The buffer for `data_len` bytes: whether there is one.
  unfoldable pub grow : (cap data_len : ℕ) → Reader input.World Bool
  grow cap data_len = if ltb cap data_len then malloc input data_len else pure true

  unfoldable pub read_data : Fields → ℕ → Reader input.World Fields
  unfolding grow
  read_data f data_len = do
    given ← grow f.data_cap data_len
    if not given then fail else do
      bytes ← some_bytes input data_len
      pure (record f {
        has_data = true;
        bytes = bytes;
        data_cap = if ltb f.data_cap data_len then data_len else f.data_cap;
      })

  -- `f.bytes` becomes what it is decompressed to.
  abbrev pub decompressed : Fields → Option (List ℕ) → Reader input.World Fields
  decompressed f none = fail
  decompressed f (some bs) = do
    given ← grow f.data_cap f.length
    if not given
        then fail
        else pure (record f {
          bytes = bs;
          data_cap = if ltb f.data_cap f.length then f.length else f.data_cap;
        })

  unfoldable pub decompress : Fields → Reader input.World Fields
  unfolding grow
  decompress f =
      if f.has_data && ltb 0 f.length && ltb 0 (length f.bytes)
      then (do
        given ← malloc input f.length
        if not given
            then fail
            else decompressed f
                (input.lz4_decompress_safe f.bytes (length f.bytes % 2 ^ 32) f.length))
      else pure f

module _ (input : Input) (depth : ℕ) where
  -- `LBD_CBOR_KEY_HDR_*`, in order, are 1 to 5.
  unfoldable pub header_field : SegmentHeader → ℕ → Reader input.World SegmentHeader
  unfolding cbor_read_uint cbor_read_text cbor_skip
  header_field h key =
      if key == 1
      then (do val ← cbor_read_uint input; pure (record h { version = val % 2 ^ 32 }))
      else if key == 2
      then (do val ← cbor_read_uint input; pure (record h { block_size = val % 2 ^ 32 }))
      else if key == 3
      then (do s ← cbor_read_text input 32; pure (record h { segment_label = s }))
      else if key == 4
      then (do val ← cbor_read_uint input; pure (record h { device_size = val }))
      else if key == 5
      then (do s ← cbor_read_text input 256; pure (record h { backing_path = s }))
      else (do cbor_skip input depth; pure h)

  unfoldable pub header_fields : (map_count : ℕ) → SegmentHeader → Reader input.World SegmentHeader
  unfolding header_field cbor_read_uint
  header_fields zero h = pure h
  header_fields (suc n) h = do
    key ← cbor_read_uint input
    h' ← header_field h key
    header_fields n h'

  unfoldable pub read_header : Reader input.World SegmentHeader
  unfolding header_fields cbor_read_map
  read_header = do map_count ← cbor_read_map input; header_fields map_count no_header

  -- `LBD_CBOR_KEY_OP` to `LBD_CBOR_KEY_DATA` are 1 to 7.
  unfoldable pub entry_field : Fields → ℕ → Reader input.World Fields
  unfolding cbor_read_uint cbor_read_text cbor_read_bytes_hdr read_data cbor_skip
  entry_field f key =
      if key == 1
      then (do s ← cbor_read_text input 4; pure (record f { op = get_or s 0 0 }))
      else if key == 2
      then (do val ← cbor_read_uint input; pure (record f { timestamp_ns = val }))
      else if key == 3
      then (do val ← cbor_read_uint input; pure (record f { sequence = val }))
      else if key == 4
      then (do val ← cbor_read_uint input; pure (record f { block = val }))
      else if key == 5
      then (do val ← cbor_read_uint input; pure (record f { length = val % 2 ^ 32 }))
      else if key == 6
      then (do
        val ← cbor_read_uint input
        pure (record f { checksum = val % 2 ^ 32; has_checksum = true }))
      else if key == 7
      then (do data_len ← cbor_read_bytes_hdr input; read_data input f data_len)
      else (do cbor_skip input depth; pure f)

  unfoldable pub entry_fields : (map_count : ℕ) → Fields → Reader input.World Fields
  unfolding entry_field cbor_read_uint
  entry_fields zero f = pure f
  entry_fields (suc n) f = do key ← cbor_read_uint input; f' ← entry_field f key; entry_fields n f'

  -- What follows the head of an entry: the entry, and `data_cap` behind it.
  unfoldable pub read_entry : (data_cap : ℕ) → ℕ × ℕ → Reader input.World (Shown × ℕ)
  unfolding entry_fields decompress entry_of
  read_entry data_cap (major, map_count) = if not (major == 5) then fail else do
    f ← entry_fields map_count (no_fields data_cap)
    g ← decompress input f
    pure (entry_of f g, g.data_cap)

  abbrev pub with_entry :
      Shown → (List Shown × Stop) × input.World → (List Shown × Stop) × input.World
  with_entry e ((es, stop), w) = ((e ∷ es, stop), w)

  abbrev pub behind_entry :
      (ℕ → input.World → (List Shown × Stop) × input.World)
      → Res (Shown × ℕ) × input.World
      → (List Shown × Stop) × input.World
  behind_entry more (ok (e, data_cap), w) = with_entry e (more data_cap w)
  behind_entry more (at_end, w) = (([], at_done), w)
  behind_entry more (bad, w) = (([], at_done), w)

  abbrev pub behind_head :
      (ℕ → input.World → (List Shown × Stop) × input.World)
      → (data_cap : ℕ) → Res (ℕ × ℕ) × input.World
      → (List Shown × Stop) × input.World
  behind_head more data_cap (ok head, w) = behind_entry more (read_entry data_cap head w)
  behind_head more data_cap (at_end, w) = (([], at_done), w)
  behind_head more data_cap (bad, w) = (([], at_done), w)

  unfoldable pub read_entries :
      (rounds data_cap : ℕ) → input.World → (List Shown × Stop) × input.World
  unfolding read_entry cbor_read_head
  read_entries zero data_cap w = (([], out_of_rounds), w)
  read_entries (suc rounds) data_cap w =
      behind_head (λ data_cap w. read_entries rounds data_cap w) data_cap (cbor_read_head input w)

  abbrev pub log_of : SegmentHeader → (List Shown × Stop) × input.World → LogShown × input.World
  log_of h ((es, stop), w) = (shown h es stop, w)

  abbrev pub behind_header : ℕ → Res SegmentHeader × input.World → LogShown × input.World
  behind_header rounds (ok h, w) = log_of h (read_entries rounds 0 w)
  behind_header rounds (at_end, w) = (refused, w)
  behind_header rounds (bad, w) = (refused, w)

  unfoldable pub cmd_log_cbor : (rounds : ℕ) → input.World → LogShown × input.World
  unfolding read_header read_entries
  cmd_log_cbor rounds w = behind_header rounds (read_header w)

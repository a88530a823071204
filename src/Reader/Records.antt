-- ===== src/Reader/Records.antt =====
-- The records of the log, and the entry that `cmd_log_cbor` reads off each.
use lbd.Prelude.{
  ℕ, ◌%◌, ◌^◌, ◌<◌, ◌≡◌, refl, sym, ap, ◌∙◌, subst, true, false, not, ◌&&◌, List, [], ◌∷◌, ◌++◌,
  Option, some, arith, length, ltb, if◌then◌else◌, append-nil, append_assoc, ==_refl,
}
use lbd.Cbor.Items.{map_of, uint, text, bytes_hdr}
use lbd.Cbor.Items.Laws.{item_bytes, items_bytes}
use lbd.Log.Entry.{write_items, trim_items}
use lbd.Reader.{Input, pure, fail, ◌>>=◌}
use lbd.Reader.Crc.{crc32_calc}
use lbd.Reader.Segment.{
  Fields, no_fields, Shown, entry_fields, decompressed, decompress, entry_field, entry_of,
  read_entry,
}
use lbd.Reader.Laws.{Serves}
use lbd.Reader.Parses.{Parses, Parses-pure, Parses-bind, Parses-bytes, Parses-malloc}
use lbd.Reader.Entries.{
  number-Parses, grow-Parses, with_data, entry_fields-Parses, entry_fields-Parses_none,
  data_field-Parses, write_fields, trim_fields, common_fields-Parses,
}

-- What `lbd_log_write` and `lbd_log_discard` put into the log.
pub data Record : Type 0 where
  write_record : (ts seq block crc : ℕ) → (bytes comp : List ℕ) → Record
  trim_record : (ts seq block len : ℕ) → Record

abbrev pub record_bytes : Record → List ℕ
record_bytes (write_record ts seq block crc bytes comp) =
    items_bytes (write_items ts seq block (length bytes) crc (length comp)) ++ comp
record_bytes (trim_record ts seq block len) = items_bytes (trim_items ts seq block len)

-- The numbers fit their C types, and the data is what the compressed bytes are decompressed to.
abbrev pub Sound : Input → Record → Type 0
Sound input (write_record ts seq block crc bytes comp) =
    (ts < 2 ^ 64)
    × (seq < 2 ^ 64)
    × (block < 2 ^ 64)
    × (crc < 2 ^ 32)
    × (crc ≡ crc32_calc bytes)
    × (0 < length bytes)
    × (length bytes < 2 ^ 32)
    × (0 < length comp)
    × (length comp < 2 ^ 32)
    × (input.lz4_decompress_safe comp (length comp) (length bytes) ≡ some bytes)
Sound input (trim_record ts seq block len) =
    (ts < 2 ^ 64) × (seq < 2 ^ 64) × (block < 2 ^ 64) × (len < 2 ^ 32)

-- The entry that is printed for a record.
abbrev pub shown_of : Record → Shown
shown_of (write_record ts seq block crc bytes comp) = record {
  is_trim = false;
  timestamp_ns = ts;
  sequence = seq;
  block = block;
  length = length bytes;
  comp_size = length comp;
  has_data = true;
  bytes = bytes;
  has_checksum = true;
  checksum = crc;
  crc_ok = true;
}
shown_of (trim_record ts seq block len) = record {
  is_trim = true;
  timestamp_ns = ts;
  sequence = seq;
  block = block;
  length = len;
  comp_size = 0;
  has_data = false;
  bytes = [];
  has_checksum = false;
  checksum = 0;
  crc_ok = true;
}

abbrev grown : ℕ → ℕ → ℕ
grown room n = if ltb room n then n else room

-- `data_cap` behind a record.
abbrev pub room_after : Record → ℕ → ℕ
room_after (write_record ts seq block crc bytes comp) room =
    grown (grown room (length comp)) (length bytes)
room_after (trim_record ts seq block len) room = room

-- The number of fields, and their bytes.
abbrev pub fields_in : Record → ℕ
fields_in (write_record ts seq block crc bytes comp) = 7
fields_in (trim_record ts seq block len) = 5

abbrev common_bytes : (op ts seq block len : ℕ) → List ℕ → List ℕ
common_bytes op ts seq block len ys =
    item_bytes (uint 1)
    ++ (item_bytes (text (op ∷ []))
        ++ (item_bytes (uint 2)
            ++ (item_bytes (uint ts)
                ++ (item_bytes (uint 3)
                    ++ (item_bytes (uint seq)
                        ++ (item_bytes (uint 4)
                            ++ (item_bytes (uint block)
                                ++ (item_bytes (uint 5) ++ (item_bytes (uint len) ++ ys)))))))))

abbrev pub body_bytes : Record → List ℕ
body_bytes (write_record ts seq block crc bytes comp) =
    common_bytes 87 ts seq block (length bytes) (
      item_bytes (uint 6)
      ++ (item_bytes (uint crc)
          ++ (item_bytes (uint 7) ++ ((item_bytes (bytes_hdr (length comp)) ++ comp) ++ []))))
body_bytes (trim_record ts seq block len) = common_bytes 84 ts seq block len []

pub record_bytes_body :
    (r : Record) → record_bytes r ≡ item_bytes (map_of (fields_in r)) ++ body_bytes r
unfolding items_bytes write_items trim_items
record_bytes_body (write_record ts seq block crc bytes comp) = simp (append_assoc, append-nil)
record_bytes_body (trim_record ts seq block len) = refl

module _ {input : Input} (s : Serves input) (depth : ℕ) where
  write_fields-Parses :
      (ts seq block crc room : ℕ) (bytes comp : List ℕ)
      → Sound input (write_record ts seq block crc bytes comp)
      → Parses s
          (entry_fields input depth 7 (no_fields room))
          (body_bytes (write_record ts seq block crc bytes comp))
          (write_fields ts seq block (length bytes) crc room comp)
  unfolding entry_field
  write_fields-Parses ts seq block crc room bytes comp (a, b, c, d, e, f, g, h, i, j) =
      common_fields-Parses s depth 2 87 ts seq block (length bytes) room a b c g (
        entry_fields-Parses s depth 1 6 f₅ (omega arith)
          (number-Parses s depth crc (λ v. record f₅ { checksum = v % 2 ^ 32; has_checksum = true })
            (omega arith))
          (rw whole_word (
            entry_fields-Parses s depth 0 7 f₆ (omega arith)
              (data_field-Parses s depth f₆ comp (omega arith))
              (entry_fields-Parses_none s depth (with_data f₆ comp)))))
    where
      f₅ : Fields
      f₅ = record (trim_fields ts seq block (length bytes) room) { op = 87 }

      f₆ : Fields
      f₆ = record f₅ { checksum = crc; has_checksum = true }

      whole_word : crc % 2 ^ 32 ≡ crc
      whole_word = omega arith

  -- The fields once the data is decompressed.
  abbrev opened_fields : Fields → List ℕ → Fields
  opened_fields f bytes = record f { bytes = bytes; data_cap = grown f.data_cap f.length }

  decompressed-Parses :
      (f : Fields) (bytes : List ℕ) (o : Option (List ℕ))
      → o ≡ some bytes
      → Parses s (decompressed input f o) [] (opened_fields f bytes)
  decompressed-Parses f bytes o e =
      subst (λ (o : Option (List ℕ)). Parses s (decompressed input f o) [] (opened_fields f bytes))
        (sym e)
        (Parses-bind s (λ given. if not given then fail else pure (opened_fields f bytes))
          (grow-Parses s depth f.data_cap f.length) (Parses-pure s (opened_fields f bytes)))

  decompress-Parses :
      (f : Fields) (bytes : List ℕ)
      → f.has_data ≡ true
      → 0 < f.length
      → 0 < length f.bytes
      → length f.bytes < 2 ^ 32
      → input.lz4_decompress_safe f.bytes (length f.bytes) f.length ≡ some bytes
      → Parses s (decompress input f) [] (opened_fields f bytes)
  unfolding decompress
  decompress-Parses f bytes has l c w e = rw both (
      Parses-bind s
        (λ given.
          if not given
          then fail
          else decompressed input f
              (input.lz4_decompress_safe f.bytes (length f.bytes % 2 ^ 32) f.length))
        (Parses-malloc s f.length)
        (decompressed-Parses f bytes
          (input.lz4_decompress_safe f.bytes (length f.bytes % 2 ^ 32) f.length)
          (ap (λ (n : ℕ). input.lz4_decompress_safe f.bytes n f.length) small ∙ e)))
    where
      both : (f.has_data && ltb 0 f.length && ltb 0 (length f.bytes)) ≡ true
      both = ground arith

      small : length f.bytes % 2 ^ 32 ≡ length f.bytes
      small = omega arith

  -- Behind its head, a record is read as its entry.
  pub read_entry-Parses :
      (r : Record) (room : ℕ)
      → Sound input r
      → Parses s
          (read_entry input depth room (5, fields_in r))
          (body_bytes r)
          (shown_of r, room_after r room)
  unfolding read_entry entry_of
  read_entry-Parses (write_record ts seq block crc bytes comp) room h =
      let (a, b, c, d, e, f, g, i, j, l) = h in
      let fs : Fields = write_fields ts seq block (length bytes) crc room comp in
      Parses-bytes s (append-nil (body_bytes (write_record ts seq block crc bytes comp))) (
        Parses-bind s (λ f. decompress input f >>= λ g. pure (entry_of f g, g.data_cap))
          (write_fields-Parses ts seq block crc room bytes comp h)
          (Parses-bind s (λ g. pure (entry_of fs g, g.data_cap))
            (decompress-Parses fs bytes refl f i j l)
            (rw (e, ==_refl (crc32_calc bytes)) (Parses-pure s _))))
  read_entry-Parses (trim_record ts seq block len) room (a, b, c, d) =
      let fs : Fields = trim_fields ts seq block len room in
      Parses-bytes s (append-nil (body_bytes (trim_record ts seq block len))) (
        Parses-bind s (λ f. decompress input f >>= λ g. pure (entry_of f g, g.data_cap))
          (common_fields-Parses s depth 0 84 ts seq block len room a b c d
            (entry_fields-Parses_none s depth fs))
          (Parses-pure s (entry_of fs fs, room)))

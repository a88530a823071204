-- ===== src/Tests/Reader.antt =====
-- `lbdctl log` at a concrete segment: one write and the first bytes of a trim, on a descriptor that
-- gives a byte at a time.
use lbd.Prelude.{
  ℕ, ◌≤◌, ◌<◌, ◌≡◌, ◌≢◌, refl, ap, List, [], ◌∷◌, ◌++◌, some, true, arith, length, take,
}
use lbd.Cbor.Head.{head_bytes}
use lbd.Cbor.Items.Laws.{item_bytes, items_bytes}
use lbd.Log.Entry.{header_items, trim_items}
use lbd.Reader.{Input, chunk, Chunk}
use lbd.Reader.Crc.{crc32_calc}
use lbd.Reader.Segment.{SegmentHeader, Shown, shown, at_done, out_of_rounds, cmd_log_cbor}
use lbd.Reader.Laws.{Serves, Arrived}
use lbd.Reader.Records.{Record, write_record, trim_record, record_bytes, shown_of}
use lbd.Reader.Skip.{cbor_skip}
use lbd.Reader.Depth.{cmd_log_cbor_enough}
use lbd.Reader.Torn.{all_bytes, cmd_log_cbor-segment}

abbrev one_byte : List ℕ → Chunk × List ℕ
one_byte [] = (chunk [], [])
one_byte (b ∷ bs) = (chunk (b ∷ []), bs)

-- What is compressed stays as it is.
abbrev slow_input : Input
slow_input = record {
  World = List ℕ;
  read = λ n w. one_byte w;
  malloc = λ n w. (true, w);
  lz4_decompress_safe = λ src n room. some src;
}

slow_input_serves : Serves slow_input
slow_input_serves = record {
  rest = λ w. w;
  reads = arrives;
  ends = λ n w e. (ap (λ w. (one_byte w).0) e, ap (λ w. (one_byte w).1) e);
  gives = λ n w. refl;
  keeps = λ n w. refl;
}
  where
    arrives :
        (n : ℕ) (w : List ℕ) → 0 < n → 0 < length w → Arrived w n (one_byte w).0 (one_byte w).1
    arrives n [] h k = absurd (omega arith)
    arrives n (b ∷ bs) h k = record {
      first = b;
      others = [];
      came = refl;
      within = omega arith;
      split = refl;
    }

abbrev digits : List ℕ
digits = 49 ∷ 50 ∷ 51 ∷ 52 ∷ 53 ∷ 54 ∷ 55 ∷ 56 ∷ 57 ∷ []

abbrev a_write : Record
a_write = write_record 1700000000000000000 8 3 0xCBF43926 digits digits

abbrev a_trim : Record
a_trim = trim_record 1700000000000000001 9 4 8192

abbrev a_segment : List ℕ
a_segment =
    items_bytes (header_items (52 ∷ 48 ∷ []) 1048576 (47 ∷ 98 ∷ []))
    ++ (all_bytes (a_write ∷ []) ++ take 5 (record_bytes a_trim))

crc_digits : 0xCBF43926 ≡ crc32_calc digits
unfolding crc32_calc
crc_digits = refl

five_bytes : 5 < length (record_bytes a_trim)
unfolding items_bytes trim_items item_bytes head_bytes
five_bytes = omega arith

cmd_log_cbor-segment_example :
    (cmd_log_cbor slow_input 4 2 a_segment).0
    ≡ shown
        (record {
          version = 2;
          block_size = 4096;
          segment_label = 52 ∷ 48 ∷ [];
          device_size = 1048576;
          backing_path = 47 ∷ 98 ∷ [];
        })
        (shown_of a_write ∷ [])
        at_done
unfolding items_bytes slow_input_serves
cmd_log_cbor-segment_example =
    cmd_log_cbor-segment slow_input_serves 4 (52 ∷ 48 ∷ []) 1048576 (47 ∷ 98 ∷ []) (a_write ∷ [])
      a_trim 5 2 a_segment (omega arith) (omega arith) (omega arith)
      (
        (
          omega arith,
          omega arith,
          omega arith,
          omega arith,
          crc_digits,
          omega arith,
          omega arith,
          omega arith,
          omega arith,
          refl,
        ),
        tt,
      )
      (omega arith, omega arith, omega arith, omega arith) five_bytes (omega arith) refl

-- A map of one pair, a key, and an array that is cut off.
abbrev cut_off : List ℕ
cut_off = 161 ∷ 9 ∷ 130 ∷ 0 ∷ []

cmd_log_cbor_enough_example :
    ((h : SegmentHeader) (es : List Shown)
      → (cmd_log_cbor slow_input 5 5 cut_off).0 ≢ shown h es out_of_rounds)
    × ((w' : List ℕ) (depth' : ℕ)
        → length w' ≤ 4
        → length w' < depth'
        → cbor_skip slow_input 5 w' ≡ cbor_skip slow_input depth' w')
unfolding slow_input_serves
cmd_log_cbor_enough_example =
    cmd_log_cbor_enough slow_input_serves 5 5 cut_off (omega arith) (omega arith)

-- ===== src/Reader/Entries.antt =====
-- The entries that `cmd_log_cbor` reads off the records that src/lbd_main.c writes.
use lbd.Prelude.{
  ℕ, suc, ◌%◌, ◌^◌, ◌<◌, ◌≡◌, true, false, not, List, [], ◌∷◌, ◌++◌, arith, length, ltb,
  if◌then◌else◌, get_or, append-nil, Bool-cases, inl, inr,
}
use lbd.Cbor.Items.{uint, text, bytes_hdr}
use lbd.Cbor.Items.Laws.{item_bytes, items_bytes}
use lbd.Log.Entry.{header_items}
use lbd.Reader.{Input, Reader, pure, fail, ◌>>=◌}
use lbd.Reader.Cbor.{cbor_read_uint, cbor_read_text, some_bytes}
use lbd.Reader.Segment.{
  SegmentHeader, no_header, Fields, no_fields, header_field, header_fields, read_header, grow,
  read_data, entry_field, entry_fields,
}
use lbd.Reader.Laws.{Serves}
use lbd.Reader.Parses.{Parses, Parses-pure, Parses-bind, Parses-bytes, Parses-malloc}
use lbd.Reader.CborLaws.{
  cbor_read_uint-Parses, cbor_read_map-Parses, cbor_read_bytes_hdr-Parses, cbor_read_text-Parses,
  some_bytes-Parses,
}

-- The fields behind the bytes of the data.
abbrev pub with_data : Fields → List ℕ → Fields
with_data f bs = record f {
  has_data = true;
  bytes = bs;
  data_cap = if ltb f.data_cap (length bs) then length bs else f.data_cap;
}

-- The fields of a write with the data compressed, and of a trim.
abbrev pub write_fields : (ts seq block len crc cap : ℕ) → List ℕ → Fields
write_fields ts seq block len crc cap comp =
    with_data
      (record {
        op = 87;
        timestamp_ns = ts;
        sequence = seq;
        block = block;
        length = len;
        checksum = crc;
        has_checksum = true;
        has_data = false;
        bytes = [];
        data_cap = cap;
      })
      comp

abbrev pub trim_fields : (ts seq block len cap : ℕ) → Fields
trim_fields ts seq block len cap = record (no_fields cap) {
  op = 84;
  timestamp_ns = ts;
  sequence = seq;
  block = block;
  length = len;
}

module _ {input : Input} (s : Serves input) (depth : ℕ) where
  -- The value of a field, of which `set` makes what is read so far.
  value-Parses :
      {A B : Type 0} {m : Reader input.World A} {vs : List ℕ} {v : A} (set : A → B)
      → Parses s m vs v
      → Parses s (m >>= λ v. pure (set v)) vs (set v)
  value-Parses {vs = vs} {v = v} set p =
      Parses-bytes s (append-nil vs) (Parses-bind s (λ v. pure (set v)) p (Parses-pure s (set v)))

  pub number-Parses :
      {B : Type 0} (v : ℕ) (set : ℕ → B)
      → v < 2 ^ 64
      → Parses s (cbor_read_uint input >>= λ v. pure (set v)) (item_bytes (uint v)) (set v)
  number-Parses v set h = value-Parses set (cbor_read_uint-Parses s v h)

  text-Parses :
      {B : Type 0} (cap : ℕ) (t : List ℕ) (set : List ℕ → B)
      → length t < cap
      → length t < 2 ^ 64
      → Parses s (cbor_read_text input cap >>= λ t. pure (set t)) (item_bytes (text t)) (set t)
  text-Parses cap t set c h = value-Parses set (cbor_read_text-Parses s cap t c h)

  header_fields-Parses :
      (n key : ℕ) (h : SegmentHeader) {h' e : SegmentHeader} {vs ys : List ℕ}
      → key < 2 ^ 64
      → Parses s (header_field input depth h key) vs h'
      → Parses s (header_fields input depth n h') ys e
      → Parses s (header_fields input depth (suc n) h) (item_bytes (uint key) ++ (vs ++ ys)) e
  unfolding header_fields
  header_fields-Parses n key h k p q =
      Parses-bind s (λ key. header_field input depth h key >>= λ h'. header_fields input depth n h')
        (cbor_read_uint-Parses s key k) (Parses-bind s (λ h'. header_fields input depth n h') p q)

  header_fields-Parses_none : (h : SegmentHeader) → Parses s (header_fields input depth 0 h) [] h
  unfolding header_fields
  header_fields-Parses_none h = Parses-pure s h

  -- The header of a segment, as `lbd_write_log_header` writes it.
  pub read_header-Parses :
      (label : List ℕ) (size : ℕ) (path : List ℕ)
      → length label < 32
      → size < 2 ^ 64
      → length path < 256
      → Parses s (read_header input depth) (items_bytes (header_items label size path)) (record {
        version = 2;
        block_size = 4096;
        segment_label = label;
        device_size = size;
        backing_path = path;
      })
  unfolding read_header header_field items_bytes header_items
  read_header-Parses label size path l z p =
      Parses-bind s (λ n. header_fields input depth n no_header)
        (cbor_read_map-Parses s 5 (omega arith))
        (header_fields-Parses 4 1 no_header (omega arith)
          (number-Parses 2 (λ v. record no_header { version = v % 2 ^ 32 }) (omega arith))
          (header_fields-Parses 3 2 h₁ (omega arith)
            (number-Parses 4096 (λ v. record h₁ { block_size = v % 2 ^ 32 }) (omega arith))
            (header_fields-Parses 2 3 h₂ (omega arith)
              (text-Parses 32 label (λ t. record h₂ { segment_label = t }) l (omega arith))
              (header_fields-Parses 1 4 h₃ (omega arith)
                (number-Parses size (λ v. record h₃ { device_size = v }) z)
                (header_fields-Parses 0 5 h₄ (omega arith)
                  (text-Parses 256 path (λ t. record h₄ { backing_path = t }) p (omega arith))
                  (header_fields-Parses_none (record h₄ { backing_path = path })))))))
    where
      h₁ : SegmentHeader
      h₁ = record no_header { version = 2 }

      h₂ : SegmentHeader
      h₂ = record h₁ { block_size = 4096 }

      h₃ : SegmentHeader
      h₃ = record h₂ { segment_label = label }

      h₄ : SegmentHeader
      h₄ = record h₃ { device_size = size }

  pub entry_fields-Parses :
      (n key : ℕ) (f : Fields) {f' e : Fields} {vs ys : List ℕ}
      → key < 2 ^ 64
      → Parses s (entry_field input depth f key) vs f'
      → Parses s (entry_fields input depth n f') ys e
      → Parses s (entry_fields input depth (suc n) f) (item_bytes (uint key) ++ (vs ++ ys)) e
  unfolding entry_fields
  entry_fields-Parses n key f k p q =
      Parses-bind s (λ key. entry_field input depth f key >>= λ f'. entry_fields input depth n f')
        (cbor_read_uint-Parses s key k) (Parses-bind s (λ f'. entry_fields input depth n f') p q)

  pub entry_fields-Parses_none : (f : Fields) → Parses s (entry_fields input depth 0 f) [] f
  unfolding entry_fields
  entry_fields-Parses_none f = Parses-pure s f

  pub grow-Parses : (cap n : ℕ) → Parses s (grow input cap n) [] true
  unfolding grow
  grow-Parses cap n = elim (Bool-cases (ltb cap n)) [
    | inl h ↦ rw h (Parses-malloc s n)
    | inr h ↦ rw h (Parses-pure s true)
  ]

  read_data-Parses :
      (f : Fields) (bs : List ℕ) → Parses s (read_data input f (length bs)) bs (with_data f bs)
  unfolding read_data
  read_data-Parses f bs =
      Parses-bind s
        (λ given.
          if not given
          then fail
          else (some_bytes input (length bs) >>= λ bytes. pure (record f {
            has_data = true;
            bytes = bytes;
            data_cap = if ltb f.data_cap (length bs) then length bs else f.data_cap;
          })))
        (grow-Parses f.data_cap (length bs))
        (value-Parses
          (λ bytes. record f {
            has_data = true;
            bytes = bytes;
            data_cap = if ltb f.data_cap (length bs) then length bs else f.data_cap;
          })
          (some_bytes-Parses s bs))

  pub data_field-Parses :
      (f : Fields) (bs : List ℕ)
      → length bs < 2 ^ 64
      → Parses s
          (entry_field input depth f 7)
          (item_bytes (bytes_hdr (length bs)) ++ bs)
          (with_data f bs)
  unfolding entry_field
  data_field-Parses f bs h =
      Parses-bind s (read_data input f) (cbor_read_bytes_hdr-Parses s (length bs) h)
        (read_data-Parses f bs)

  -- The five fields that both kinds of records begin with, and then the others.
  pub common_fields-Parses :
      (n op ts seq block len cap : ℕ) {e : Fields} {ys : List ℕ}
      → ts < 2 ^ 64
      → seq < 2 ^ 64
      → block < 2 ^ 64
      → len < 2 ^ 32
      → Parses s
          (entry_fields input depth n (record (trim_fields ts seq block len cap) { op = op }))
          ys
          e
      → Parses s
          (entry_fields input depth (suc (suc (suc (suc (suc n))))) (no_fields cap))
          (item_bytes (uint 1)
            ++ (item_bytes (text (op ∷ []))
                ++ (item_bytes (uint 2)
                    ++ (item_bytes (uint ts)
                        ++ (item_bytes (uint 3)
                            ++ (item_bytes (uint seq)
                                ++ (item_bytes (uint 4)
                                    ++ (item_bytes (uint block)
                                        ++ (item_bytes (uint 5)
                                            ++ (item_bytes (uint len) ++ ys))))))))))
          e
  unfolding entry_field
  common_fields-Parses n op ts seq block len cap a b c d rest =
      entry_fields-Parses (suc (suc (suc (suc n)))) 1 (no_fields cap) (omega arith)
        (text-Parses 4 (op ∷ []) (λ t. record (no_fields cap) { op = get_or t 0 0 }) (omega arith)
          (omega arith))
        (entry_fields-Parses (suc (suc (suc n))) 2 f₁ (omega arith)
          (number-Parses ts (λ v. record f₁ { timestamp_ns = v }) a)
          (entry_fields-Parses (suc (suc n)) 3 f₂ (omega arith)
            (number-Parses seq (λ v. record f₂ { sequence = v }) b)
            (entry_fields-Parses (suc n) 4 f₃ (omega arith)
              (number-Parses block (λ v. record f₃ { block = v }) c)
              (entry_fields-Parses n 5 f₄ (omega arith)
                (number-Parses len (λ v. record f₄ { length = v % 2 ^ 32 }) (omega arith))
                (rw (whole_word) rest)))))
    where
      f₁ : Fields
      f₁ = record (no_fields cap) { op = op }

      f₂ : Fields
      f₂ = record f₁ { timestamp_ns = ts }

      f₃ : Fields
      f₃ = record f₂ { sequence = seq }

      f₄ : Fields
      f₄ = record f₃ { block = block }

      whole_word : len % 2 ^ 32 ≡ len
      whole_word = omega arith

-- ===== src/Log/Entry/Bounds.antt =====
-- The records of the log fit into the arrays that they are encoded into.
use lbd.Prelude.{ℕ, ◌^◌, ◌≤◌, ◌<◌, ◌≡◌, List, ◌∷◌, some, arith, length, length-append}
use lbd.Cbor.Items.{Item, map_of, encode}
use lbd.Cbor.Head.{length-head_bytes}
use lbd.Cbor.Items.Laws.{item_bytes, items_bytes, encode-items_bytes, length-items_bytes-le}
use lbd.Log.Entry.{header_items, write_items, trim_items}

-- The header of a segment is encoded whole in 512 bytes, where its label has at most 24 bytes and the
-- path of the backing file fewer than 256, whatever the size.
pub encode-header_items :
    (label : List ℕ) (size : ℕ) (backing_path : List ℕ)
    → length label ≤ 24
    → size < 2 ^ 64
    → length backing_path < 256
    → encode 512 (header_items label size backing_path)
      ≡ some (items_bytes (header_items label size backing_path))
unfolding header_items
encode-header_items label size backing_path l s p =
    encode-items_bytes 512 (header_items label size backing_path) (ground arith)
      (ground (arith, length-items_bytes-le (header_items label size backing_path)))

-- The records of a write and of a trim are encoded whole in 128 and in 64 bytes, whatever the numbers
-- in them.
pub encode-entry_items :
    (ts seq block len crc comp_len : ℕ)
    → ts < 2 ^ 64
    → seq < 2 ^ 64
    → block < 2 ^ 64
    → len < 2 ^ 32
    → crc < 2 ^ 32
    → comp_len < 2 ^ 31
    → (encode 128 (write_items ts seq block len crc comp_len)
        ≡ some (items_bytes (write_items ts seq block len crc comp_len)))
      × (encode 64 (trim_items ts seq block len) ≡ some (items_bytes (trim_items ts seq block len)))
unfolding write_items trim_items
encode-entry_items ts seq block len crc comp_len t s b l c n = (
  encode-items_bytes 128 (write_items ts seq block len crc comp_len) (ground arith)
      (ground (arith, length-items_bytes-le (write_items ts seq block len crc comp_len))),
  encode-items_bytes 64 (trim_items ts seq block len) (ground arith)
      (ground (arith, length-items_bytes-le (trim_items ts seq block len))),
)

-- The header of a segment takes no more than 512 bytes, in the same cases.
pub length-header_items-le :
    (label : List ℕ) (size : ℕ) (backing_path : List ℕ)
    → length label ≤ 24
    → length backing_path < 256
    → length (items_bytes (header_items label size backing_path)) ≤ 512
unfolding header_items
length-header_items-le label size backing_path l p =
    ground (arith, length-items_bytes-le (header_items label size backing_path))

first_byte :
    (i : Item) (is : List Item) → 0 < length (item_bytes i) → 0 < length (items_bytes (i ∷ is))
unfolding items_bytes
first_byte i is h = omega (arith, length-append (item_bytes i) (items_bytes is))

length-map_of : (n : ℕ) → n < 24 → 0 < length (item_bytes (map_of n))
unfolding item_bytes
length-map_of n h = ground (arith, length-head_bytes 5 n)

-- The records have at least a byte, and at most as many as the arrays.
pub entry_items_sizes :
    (ts seq block len crc comp_len : ℕ)
    → (length (items_bytes (write_items ts seq block len crc comp_len)) ≤ 128)
      × (0 < length (items_bytes (write_items ts seq block len crc comp_len)))
      × (length (items_bytes (trim_items ts seq block len)) ≤ 64)
      × (0 < length (items_bytes (trim_items ts seq block len)))
unfolding write_items trim_items
entry_items_sizes ts seq block len crc comp_len = (
  ground (arith, length-items_bytes-le (write_items ts seq block len crc comp_len)),
  first_byte (map_of 7) _ (length-map_of 7 (omega arith)),
  ground (arith, length-items_bytes-le (trim_items ts seq block len)),
  first_byte (map_of 5) _ (length-map_of 5 (omega arith)),
)

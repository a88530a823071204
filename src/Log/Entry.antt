-- ===== src/Log/Entry.antt =====
-- The CBOR records of the log in src/lbd_main.c: the header of a segment, and the entries for a write
-- and for a trim. Each is a sequence of calls of src/cbor_enc.h.
pub mod Bounds
use lbd.Prelude.{ℕ, List, [], ◌∷◌}
use lbd.Cbor.Items.{Item, map_of, uint, text, bytes_hdr}

abbrev pub log_version : ℕ
log_version = 2

abbrev pub block_size : ℕ
block_size = 4096

-- `LBD_CBOR_KEY_HDR_*`, in order, are 1 to 5.
unfoldable pub header_items : (label : List ℕ) (size : ℕ) (backing_path : List ℕ) → List Item
header_items label size backing_path =
    map_of 5
    ∷ uint 1
    ∷ uint log_version
    ∷ uint 2
    ∷ uint block_size
    ∷ uint 3
    ∷ text label
    ∷ uint 4
    ∷ uint size
    ∷ uint 5
    ∷ text backing_path
    ∷ []

-- `LBD_CBOR_KEY_OP` to `LBD_CBOR_KEY_DATA` are 1 to 7; 87 is "W".
unfoldable pub write_items : (ts seq block data_len crc comp_len : ℕ) → List Item
write_items ts seq block data_len crc comp_len =
    map_of 7
    ∷ uint 1
    ∷ text (87 ∷ [])
    ∷ uint 2
    ∷ uint ts
    ∷ uint 3
    ∷ uint seq
    ∷ uint 4
    ∷ uint block
    ∷ uint 5
    ∷ uint data_len
    ∷ uint 6
    ∷ uint crc
    ∷ uint 7
    ∷ bytes_hdr comp_len
    ∷ []

-- 84 is "T".
unfoldable pub trim_items : (ts seq block len : ℕ) → List Item
trim_items ts seq block len =
    map_of 5
    ∷ uint 1
    ∷ text (84 ∷ [])
    ∷ uint 2
    ∷ uint ts
    ∷ uint 3
    ∷ uint seq
    ∷ uint 4
    ∷ uint block
    ∷ uint 5
    ∷ uint len
    ∷ []

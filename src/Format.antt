-- ===== src/Format.antt =====
-- src/lbd_qcow2_format.h: the constants of the on-disk format, the big-endian accessors at a byte
-- offset, and the accessors of the nine header fields. A buffer is the list of its bytes.
pub mod Bytes
pub mod Header
use lbd.Prelude.{
  ℕ, ◌+◌, ◌*◌, ◌-◌, ◌%◌, ◌/◌, ◌^◌, List, [], ◌∷◌, get_or, overlay_at, byte_at, Bool, ◌==◌,
}

abbrev pub qcow2_magic : ℕ
qcow2_magic = 0x4C42444351573200

abbrev pub qcow2_version : ℕ
qcow2_version = 2

abbrev pub comp_lz4 : ℕ
comp_lz4 = 1

abbrev pub header_size : ℕ
header_size = 4096

abbrev pub l2_trailer_size : ℕ
l2_trailer_size = 8

abbrev pub off_magic : ℕ
off_magic = 0

abbrev pub off_version : ℕ
off_version = 8

abbrev pub off_cluster_bits : ℕ
off_cluster_bits = 12

abbrev pub off_virtual_size : ℕ
off_virtual_size = 16

abbrev pub off_l1_table_offset : ℕ
off_l1_table_offset = 24

abbrev pub off_l1_size : ℕ
off_l1_size = 32

abbrev pub off_alloc_offset : ℕ
off_alloc_offset = 36

abbrev pub off_comp_type : ℕ
off_comp_type = 44

abbrev pub off_free_list : ℕ
off_free_list = 48

abbrev pub free_tombstone : ℕ
free_tombstone = 0xDEADF4EE

-- `l2_entry & LBD_QCOW2_L2_COMPRESSED`, bit 63 of a u64.
abbrev pub is_compressed : ℕ → Bool
is_compressed e = e / 2 ^ 63 % 2 == 1

-- `l2_entry & LBD_QCOW2_L2_OFFSET_MASK`, the low 62 bits.
abbrev pub l2_offset : ℕ → ℕ
l2_offset e = e % 2 ^ 62

-- `LBD_QCOW2_L2_COMPRESSED | phys` on a u64: bit 63 is set and the others stay.
abbrev pub compressed_entry : ℕ → ℕ
compressed_entry phys = phys % 2 ^ 63 + 2 ^ 63

-- The bytes of a number, most significant first: what the `put` functions store.
abbrev pub be16 : ℕ → List ℕ
be16 v = byte_at v (2 ^ 8) ∷ byte_at v 1 ∷ []

abbrev pub be32 : ℕ → List ℕ
be32 v = byte_at v (2 ^ 24) ∷ byte_at v (2 ^ 16) ∷ byte_at v (2 ^ 8) ∷ byte_at v 1 ∷ []

abbrev pub be64 : ℕ → List ℕ
be64 v =
    byte_at v (2 ^ 56)
    ∷ byte_at v (2 ^ 48)
    ∷ byte_at v (2 ^ 40)
    ∷ byte_at v (2 ^ 32)
    ∷ byte_at v (2 ^ 24)
    ∷ byte_at v (2 ^ 16)
    ∷ byte_at v (2 ^ 8)
    ∷ byte_at v 1
    ∷ []

-- The bytes do not overlap once shifted, so that `|` is a sum.
unfoldable pub get16 : List ℕ → ℕ → ℕ
get16 buf off = get_or buf (off + 0) 0 * 2 ^ 8 + get_or buf (off + 1) 0

unfoldable pub get32 : List ℕ → ℕ → ℕ
get32 buf off =
    get_or buf (off + 0) 0 * 2 ^ 24
    + get_or buf (off + 1) 0 * 2 ^ 16
    + get_or buf (off + 2) 0 * 2 ^ 8
    + get_or buf (off + 3) 0

unfoldable pub get64 : List ℕ → ℕ → ℕ
get64 buf off =
    get_or buf (off + 0) 0 * 2 ^ 56
    + get_or buf (off + 1) 0 * 2 ^ 48
    + get_or buf (off + 2) 0 * 2 ^ 40
    + get_or buf (off + 3) 0 * 2 ^ 32
    + get_or buf (off + 4) 0 * 2 ^ 24
    + get_or buf (off + 5) 0 * 2 ^ 16
    + get_or buf (off + 6) 0 * 2 ^ 8
    + get_or buf (off + 7) 0

unfoldable pub put16 : List ℕ → ℕ → ℕ → List ℕ
put16 buf off v = overlay_at buf off (be16 v)

unfoldable pub put32 : List ℕ → ℕ → ℕ → List ℕ
put32 buf off v = overlay_at buf off (be32 v)

unfoldable pub put64 : List ℕ → ℕ → ℕ → List ℕ
put64 buf off v = overlay_at buf off (be64 v)

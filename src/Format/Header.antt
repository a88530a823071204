-- ===== src/Format/Header.antt =====
-- The accessors of the header's fields in src/lbd_qcow2_format.h, and that the fields are
-- independent of each other.
use lbd.Prelude.{ℕ, ◌≤◌, ◌<◌, ◌^◌, ◌≡◌, ◌≢◌, refl, List, arith, length, overlay_at}
use lbd.Format.{
  be32, be64, get32, get64, put32, put64, off_magic, off_version, off_cluster_bits,
  off_virtual_size, off_l1_table_offset, off_l1_size, off_alloc_offset, off_comp_type,
  off_free_list,
}
use lbd.Format.Bytes.{
  Apart, get32-put32, get64-put64, get32-overlay_at-Apart, get64-overlay_at-Apart,
}

unfoldable pub hdr_magic : List ℕ → ℕ
hdr_magic h = get64 h off_magic

unfoldable pub hdr_version : List ℕ → ℕ
hdr_version h = get32 h off_version

unfoldable pub hdr_cluster_bits : List ℕ → ℕ
hdr_cluster_bits h = get32 h off_cluster_bits

unfoldable pub hdr_virtual_size : List ℕ → ℕ
hdr_virtual_size h = get64 h off_virtual_size

unfoldable pub hdr_l1_table_offset : List ℕ → ℕ
hdr_l1_table_offset h = get64 h off_l1_table_offset

unfoldable pub hdr_l1_size : List ℕ → ℕ
hdr_l1_size h = get32 h off_l1_size

unfoldable pub hdr_alloc_offset : List ℕ → ℕ
hdr_alloc_offset h = get64 h off_alloc_offset

unfoldable pub hdr_comp_type : List ℕ → ℕ
hdr_comp_type h = get32 h off_comp_type

unfoldable pub hdr_free_list : List ℕ → ℕ
hdr_free_list h = get64 h off_free_list

unfoldable pub hdr_set_magic : List ℕ → ℕ → List ℕ
hdr_set_magic h v = put64 h off_magic v

unfoldable pub hdr_set_version : List ℕ → ℕ → List ℕ
hdr_set_version h v = put32 h off_version v

unfoldable pub hdr_set_cluster_bits : List ℕ → ℕ → List ℕ
hdr_set_cluster_bits h v = put32 h off_cluster_bits v

unfoldable pub hdr_set_virtual_size : List ℕ → ℕ → List ℕ
hdr_set_virtual_size h v = put64 h off_virtual_size v

unfoldable pub hdr_set_l1_table_offset : List ℕ → ℕ → List ℕ
hdr_set_l1_table_offset h v = put64 h off_l1_table_offset v

unfoldable pub hdr_set_l1_size : List ℕ → ℕ → List ℕ
hdr_set_l1_size h v = put32 h off_l1_size v

unfoldable pub hdr_set_alloc_offset : List ℕ → ℕ → List ℕ
hdr_set_alloc_offset h v = put64 h off_alloc_offset v

unfoldable pub hdr_set_comp_type : List ℕ → ℕ → List ℕ
hdr_set_comp_type h v = put32 h off_comp_type v

unfoldable pub hdr_set_free_list : List ℕ → ℕ → List ℕ
hdr_set_free_list h v = put64 h off_free_list v

-- The nine fields, so that a statement can range over them.
pub data Field : Type 0 where
  magic version cluster_bits virtual_size l1_table_offset l1_size : Field
  alloc_offset comp_type free_list : Field

abbrev pub field_offset : Field → ℕ
field_offset magic = off_magic
field_offset version = off_version
field_offset cluster_bits = off_cluster_bits
field_offset virtual_size = off_virtual_size
field_offset l1_table_offset = off_l1_table_offset
field_offset l1_size = off_l1_size
field_offset alloc_offset = off_alloc_offset
field_offset comp_type = off_comp_type
field_offset free_list = off_free_list

-- The field's width in bytes.
abbrev pub field_width : Field → ℕ
field_width magic = 8
field_width version = 4
field_width cluster_bits = 4
field_width virtual_size = 8
field_width l1_table_offset = 8
field_width l1_size = 4
field_width alloc_offset = 8
field_width comp_type = 4
field_width free_list = 8

unfoldable pub field_get : Field → List ℕ → ℕ
unfolding hdr_magic hdr_version hdr_cluster_bits hdr_virtual_size hdr_l1_table_offset hdr_l1_size
    hdr_alloc_offset hdr_comp_type hdr_free_list
field_get magic h = hdr_magic h
field_get version h = hdr_version h
field_get cluster_bits h = hdr_cluster_bits h
field_get virtual_size h = hdr_virtual_size h
field_get l1_table_offset h = hdr_l1_table_offset h
field_get l1_size h = hdr_l1_size h
field_get alloc_offset h = hdr_alloc_offset h
field_get comp_type h = hdr_comp_type h
field_get free_list h = hdr_free_list h

unfoldable pub field_set : Field → List ℕ → ℕ → List ℕ
unfolding hdr_set_magic hdr_set_version hdr_set_cluster_bits hdr_set_virtual_size
    hdr_set_l1_table_offset hdr_set_l1_size hdr_set_alloc_offset hdr_set_comp_type hdr_set_free_list
field_set magic h v = hdr_set_magic h v
field_set version h v = hdr_set_version h v
field_set cluster_bits h v = hdr_set_cluster_bits h v
field_set virtual_size h v = hdr_set_virtual_size h v
field_set l1_table_offset h v = hdr_set_l1_table_offset h v
field_set l1_size h v = hdr_set_l1_size h v
field_set alloc_offset h v = hdr_set_alloc_offset h v
field_set comp_type h v = hdr_set_comp_type h v
field_set free_list h v = hdr_set_free_list h v

-- The bytes that a setter stores.
abbrev field_bytes : Field → ℕ → List ℕ
field_bytes magic v = be64 v
field_bytes version v = be32 v
field_bytes cluster_bits v = be32 v
field_bytes virtual_size v = be64 v
field_bytes l1_table_offset v = be64 v
field_bytes l1_size v = be32 v
field_bytes alloc_offset v = be64 v
field_bytes comp_type v = be32 v
field_bytes free_list v = be64 v

length-field_bytes : (f : Field) (v : ℕ) → length (field_bytes f v) ≡ field_width f
length-field_bytes magic v = refl
length-field_bytes _ v = refl

field_set-overlay_at :
    (f : Field) (h : List ℕ) (v : ℕ)
    → field_set f h v ≡ overlay_at h (field_offset f) (field_bytes f v)
unfolding field_set put32 put64
field_set-overlay_at magic h v = refl
field_set-overlay_at _ h v = refl

fields-Apart :
    (f g : Field) → f ≢ g → Apart (field_offset f) (field_width f) (field_offset g) (field_width g)
fields-Apart magic magic h = absurd (h refl)
fields-Apart version version h = absurd (h refl)
fields-Apart cluster_bits cluster_bits h = absurd (h refl)
fields-Apart virtual_size virtual_size h = absurd (h refl)
fields-Apart l1_table_offset l1_table_offset h = absurd (h refl)
fields-Apart l1_size l1_size h = absurd (h refl)
fields-Apart alloc_offset alloc_offset h = absurd (h refl)
fields-Apart comp_type comp_type h = absurd (h refl)
fields-Apart free_list free_list h = absurd (h refl)
fields-Apart f g h = ground arith

pub field_get-overlay_at-Apart :
    (f : Field) (h : List ℕ) (at : ℕ) (ys : List ℕ)
    → Apart (field_offset f) (field_width f) at (length ys)
    → field_get f (overlay_at h at ys) ≡ field_get f h
unfolding field_get
field_get-overlay_at-Apart magic h at ys p = get64-overlay_at-Apart h at ys _ p
field_get-overlay_at-Apart version h at ys p = get32-overlay_at-Apart h at ys _ p
field_get-overlay_at-Apart cluster_bits h at ys p = get32-overlay_at-Apart h at ys _ p
field_get-overlay_at-Apart virtual_size h at ys p = get64-overlay_at-Apart h at ys _ p
field_get-overlay_at-Apart l1_table_offset h at ys p = get64-overlay_at-Apart h at ys _ p
field_get-overlay_at-Apart l1_size h at ys p = get32-overlay_at-Apart h at ys _ p
field_get-overlay_at-Apart alloc_offset h at ys p = get64-overlay_at-Apart h at ys _ p
field_get-overlay_at-Apart comp_type h at ys p = get32-overlay_at-Apart h at ys _ p
field_get-overlay_at-Apart free_list h at ys p = get64-overlay_at-Apart h at ys _ p

-- A field reads back the value that its setter stored, where the buffer holds the header's fields
-- and the value fits the field's width.
pub field_get-set_self :
    (f : Field) (h : List ℕ) (v : ℕ)
    → 56 ≤ length h
    → v < 256 ^ field_width f
    → field_get f (field_set f h v) ≡ v
unfolding field_get field_set
field_get-set_self magic h v p q = get64-put64 h _ v (omega arith) (omega arith)
field_get-set_self version h v p q = get32-put32 h _ v (omega arith) (omega arith)
field_get-set_self cluster_bits h v p q = get32-put32 h _ v (omega arith) (omega arith)
field_get-set_self virtual_size h v p q = get64-put64 h _ v (omega arith) (omega arith)
field_get-set_self l1_table_offset h v p q = get64-put64 h _ v (omega arith) (omega arith)
field_get-set_self l1_size h v p q = get32-put32 h _ v (omega arith) (omega arith)
field_get-set_self alloc_offset h v p q = get64-put64 h _ v (omega arith) (omega arith)
field_get-set_self comp_type h v p q = get32-put32 h _ v (omega arith) (omega arith)
field_get-set_self free_list h v p q = get64-put64 h _ v (omega arith) (omega arith)

-- A setter leaves every other field as it was.
pub field_get-set_ne :
    (f g : Field) (h : List ℕ) (v : ℕ) → f ≢ g → field_get f (field_set g h v) ≡ field_get f h
field_get-set_ne f g h v ne = rw (field_set-overlay_at g h v) (
    field_get-overlay_at-Apart f h (field_offset g) (field_bytes g v)
      (rw (length-field_bytes g v) (fields-Apart f g ne)))

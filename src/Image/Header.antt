-- ===== src/Image/Header.antt =====
-- The layout of an empty image and its header.
use native.Mathlib.Nat.{div-add-mod', mul-mod_left, mod-eq_of_lt, mod-lt, mul-pos, pow-le-pow_right}
use lbd.Qcow2.Init.Header.{Valid}
use lbd.Prelude.{
  ℕ, zero, suc, ◌+◌, ◌-◌, ◌*◌, ◌/◌, ◌%◌, ◌^◌, ◌≤◌, ◌<◌, ◌≡◌, refl, sym, ap, ◌⊎◌, inl, inr, ◌∙◌,
  subst, List, arith, length, length-replicate, length-overlay_at,
}
use lbd.Format.{
  qcow2_magic, qcow2_version, header_size, l2_trailer_size, get32, get64, put32, put64,
}
use lbd.Format.Header.{
  hdr_magic, hdr_version, hdr_cluster_bits, hdr_virtual_size, hdr_l1_table_offset, hdr_l1_size,
  hdr_alloc_offset, hdr_free_list, hdr_set_magic, hdr_set_version, hdr_set_cluster_bits,
  hdr_set_virtual_size, hdr_set_l1_table_offset, hdr_set_l1_size, hdr_set_alloc_offset,
  hdr_set_comp_type, hdr_set_free_list,
}
use lbd.Image.{Layout, layout_of, at_least_one, create_header}

-- A number rounded up to a multiple.
pub round_up : (n m : ℕ) → 0 < m → (n ≤ (n + m - 1) / m * m) × ((n + m - 1) / m * m < n + m)
round_up n m h =
    let e = div-add-mod' (n + m - 1) m in
    let l = mod-lt (n + m - 1) h in (omega (arith, e, l), omega (arith, e, l))

-- What an image's header says of it, and that its numbers fit each other: the kernel module takes the
-- header, the L1 table covers the device, and behind it, at the next cluster, the free space begins.
pub record Describes (hdr : List ℕ) (size bits : ℕ) (l : Layout) : Type 0 where
  pub valid : Valid hdr
  pub same_bits : hdr_cluster_bits hdr ≡ bits
  pub same_size : hdr_virtual_size hdr ≡ size
  pub same_offset : hdr_l1_table_offset hdr ≡ header_size
  pub same_l1_size : hdr_l1_size hdr ≡ l.l1_size
  pub same_alloc : hdr_alloc_offset hdr ≡ l.alloc_offset
  pub no_free : hdr_free_list hdr ≡ 0
  pub covers : size ≤ hdr_l1_size hdr * ((2 ^ bits - l2_trailer_size) / 8 * 2 ^ bits)
  pub no_more : (hdr_l1_size hdr - 1) * ((2 ^ bits - l2_trailer_size) / 8 * 2 ^ bits) < size
  pub behind_l1 : header_size + l.l1_size * 8 ≤ l.alloc_offset
  pub aligned : l.alloc_offset % 2 ^ bits ≡ 0
  pub next_cluster : l.alloc_offset < header_size + l.l1_size * 8 + 2 ^ bits

module _ (virtual_size cluster_bits : ℕ) (l : Layout) where
  create_header-magic : hdr_magic (create_header virtual_size cluster_bits l) ≡ qcow2_magic
  unfolding create_header hdr_magic get64 get32 put64 put32 hdr_set_magic hdr_set_version
      hdr_set_cluster_bits hdr_set_virtual_size hdr_set_l1_table_offset hdr_set_l1_size
      hdr_set_alloc_offset hdr_set_comp_type hdr_set_free_list
  create_header-magic = refl

  create_header-version : hdr_version (create_header virtual_size cluster_bits l) ≡ qcow2_version
  unfolding create_header hdr_version get64 get32 put64 put32 hdr_set_magic hdr_set_version
      hdr_set_cluster_bits hdr_set_virtual_size hdr_set_l1_table_offset hdr_set_l1_size
      hdr_set_alloc_offset hdr_set_comp_type hdr_set_free_list
  create_header-version = refl

  create_header-cluster_bits :
      cluster_bits < 2 ^ 32
      → hdr_cluster_bits (create_header virtual_size cluster_bits l) ≡ cluster_bits
  unfolding create_header hdr_cluster_bits get64 get32 put64 put32 hdr_set_magic hdr_set_version
      hdr_set_cluster_bits hdr_set_virtual_size hdr_set_l1_table_offset hdr_set_l1_size
      hdr_set_alloc_offset hdr_set_comp_type hdr_set_free_list
  create_header-cluster_bits h = omega arith

  create_header-virtual_size :
      virtual_size < 2 ^ 64
      → hdr_virtual_size (create_header virtual_size cluster_bits l) ≡ virtual_size
  unfolding create_header hdr_virtual_size get64 get32 put64 put32 hdr_set_magic hdr_set_version
      hdr_set_cluster_bits hdr_set_virtual_size hdr_set_l1_table_offset hdr_set_l1_size
      hdr_set_alloc_offset hdr_set_comp_type hdr_set_free_list
  create_header-virtual_size h = omega arith

  create_header-l1_table_offset :
      l.l1_table_offset < 2 ^ 64
      → hdr_l1_table_offset (create_header virtual_size cluster_bits l) ≡ l.l1_table_offset
  unfolding create_header hdr_l1_table_offset get64 get32 put64 put32 hdr_set_magic hdr_set_version
      hdr_set_cluster_bits hdr_set_virtual_size hdr_set_l1_table_offset hdr_set_l1_size
      hdr_set_alloc_offset hdr_set_comp_type hdr_set_free_list
  create_header-l1_table_offset h = omega arith

  create_header-l1_size :
      l.l1_size < 2 ^ 32 → hdr_l1_size (create_header virtual_size cluster_bits l) ≡ l.l1_size
  unfolding create_header hdr_l1_size get64 get32 put64 put32 hdr_set_magic hdr_set_version
      hdr_set_cluster_bits hdr_set_virtual_size hdr_set_l1_table_offset hdr_set_l1_size
      hdr_set_alloc_offset hdr_set_comp_type hdr_set_free_list
  create_header-l1_size h = omega arith

  create_header-alloc_offset :
      l.alloc_offset < 2 ^ 64
      → hdr_alloc_offset (create_header virtual_size cluster_bits l) ≡ l.alloc_offset
  unfolding create_header hdr_alloc_offset get64 get32 put64 put32 hdr_set_magic hdr_set_version
      hdr_set_cluster_bits hdr_set_virtual_size hdr_set_l1_table_offset hdr_set_l1_size
      hdr_set_alloc_offset hdr_set_comp_type hdr_set_free_list
  create_header-alloc_offset h = omega arith

  create_header-free_list : hdr_free_list (create_header virtual_size cluster_bits l) ≡ 0
  unfolding create_header hdr_free_list get64 get32 put64 put32 hdr_set_magic hdr_set_version
      hdr_set_cluster_bits hdr_set_virtual_size hdr_set_l1_table_offset hdr_set_l1_size
      hdr_set_alloc_offset hdr_set_comp_type hdr_set_free_list
  create_header-free_list = refl

cluster_size_bounds : (bits : ℕ) → 12 ≤ bits → bits ≤ 24 → (4096 ≤ 2 ^ bits) × (2 ^ bits ≤ 2 ^ 24)
cluster_size_bounds bits low high =
    let two : 0 < 2 = omega arith in (pow-le-pow_right two low, pow-le-pow_right two high)

pred_mul : (t c : ℕ) → 0 < t → (t - 1) * c + c ≡ t * c
pred_mul zero c h = absurd (omega arith)
pred_mul (suc t) c h = grind arith

zero_or_pos : (n : ℕ) → (n ≡ 0) ⊎ (0 < n)
zero_or_pos zero = inl refl
zero_or_pos (suc n) = inr (omega arith)

at_least_one_pos : (n : ℕ) → 0 < n → at_least_one n ≡ n
at_least_one_pos n h = ground arith

module _ (size bits : ℕ) (some_size : 0 < size) (low : 12 ≤ bits) (high : bits ≤ 24) where
  abbrev covered : ℕ
  covered = (2 ^ bits - l2_trailer_size) / 8 * 2 ^ bits

  covered_pos : 0 < covered
  covered_pos =
      let (a, b) = cluster_size_bounds bits low high in
      mul-pos (omega (arith, a)) (omega (arith, a))

  alloc_offset_bounds :
      let l = layout_of size bits in
      (header_size + l.l1_size * 8 ≤ l.alloc_offset)
      × (l.alloc_offset < header_size + l.l1_size * 8 + 2 ^ bits)
  unfolding layout_of
  alloc_offset_bounds =
      let (a, b) = cluster_size_bounds bits low high in
      round_up (header_size + (layout_of size bits).l1_size * 8) (2 ^ bits) (omega (arith, a))

  abbrev tables : ℕ
  tables = (size + covered - 1) / covered

  tables_pos : 0 < tables
  tables_pos =
      let (over, under) = round_up size covered covered_pos in
      let none_covered : 0 * covered ≡ 0 = omega arith in
      elim (zero_or_pos tables) [
        | inl z ↦ absurd (omega (arith, over, none_covered, ap (λ n. n * covered) z, some_size))
        | inr h ↦ h
      ]

  l1_size_tables :
      size + covered ≤ 2 ^ 64 → tables < 2 ^ 32 → (layout_of size bits).l1_size ≡ tables
  unfolding layout_of
  l1_size_tables fits few =
      let wide : (size + covered - 1) % 2 ^ 64 ≡ size + covered - 1 =
        omega (arith, fits, some_size) in
      ap at_least_one {y = tables} (ap (λ n. n / covered % 2 ^ 32) wide ∙ mod-eq_of_lt few)
      ∙ at_least_one_pos tables tables_pos

  -- The header that `lbdctl create` writes, for a size and a cluster size that it accepts, describes
  -- the image, where the number of tables fits a u32 and the size with one table more a u64.
  pub create_header-Describes :
      size + covered ≤ 2 ^ 64
      → tables < 2 ^ 32
      → Describes (create_header size bits (layout_of size bits)) size bits (layout_of size bits)
  unfolding layout_of
  create_header-Describes fits few =
      let l : Layout = layout_of size bits in
      let (a, b) = cluster_size_bounds bits low high in
      let one : l.l1_size ≡ tables = l1_size_tables fits few in
      let (over, under) = round_up size covered covered_pos in
      let (room, next) = alloc_offset_bounds in
      let same_l1_size : hdr_l1_size (create_header size bits l) ≡ l.l1_size =
        create_header-l1_size size bits l (omega (arith, one, few)) in
      record {
        valid = record {
          magic = create_header-magic size bits l;
          version = create_header-version size bits l;
          low = omega (arith, same_bits, low);
          high = omega (arith, same_bits, high);
        };
        same_bits = same_bits;
        same_size = create_header-virtual_size size bits l (omega (arith, fits, covered_pos));
        same_offset = create_header-l1_table_offset size bits l (unfold layout_of in omega arith);
        same_l1_size = same_l1_size;
        same_alloc = create_header-alloc_offset size bits l (omega (arith, next, one, few, b));
        no_free = create_header-free_list size bits l;
        covers = subst (λ (n : ℕ). size ≤ n * covered) (sym (same_l1_size ∙ one)) over;
        no_more =
            subst (λ (n : ℕ). (n - 1) * covered < size) (sym (same_l1_size ∙ one))
              (omega (arith, under, pred_mul tables covered tables_pos));
        aligned = mul-mod_left ((header_size + l.l1_size * 8 + 2 ^ bits - 1) / 2 ^ bits) (2 ^ bits);
        behind_l1 = room;
        next_cluster = next;
      }
    where
      same_bits : hdr_cluster_bits (create_header size bits (layout_of size bits)) ≡ bits
      same_bits = create_header-cluster_bits size bits (layout_of size bits) (omega (arith, high))

pub length-create_header :
    (size bits : ℕ) (l : Layout) → length (create_header size bits l) ≡ header_size
unfolding create_header put64 put32 hdr_set_magic hdr_set_version hdr_set_cluster_bits
    hdr_set_virtual_size hdr_set_l1_table_offset hdr_set_l1_size hdr_set_alloc_offset
    hdr_set_comp_type hdr_set_free_list
length-create_header size bits l = simp (length-overlay_at, length-replicate)

-- ===== src/Image.antt =====
-- `lbdctl create` (src/lbdctl.c): the arguments, the layout of an empty image, and how it is written.
pub mod Header
pub mod Fresh
use lbd.Prelude.{
  ℕ, zero, suc, ◌+◌, ◌-◌, ◌*◌, ◌/◌, ◌%◌, ◌^◌, Bool, true, false, not, ◌||◌, ◌&&◌, List, [], ◌∷◌,
  Option, none, some, ltb, ◌==◌, if◌then◌else◌, length, replicate,
}
use lbd.Format.{qcow2_magic, qcow2_version, comp_lz4, header_size, l2_trailer_size}
use lbd.Format.Header.{
  hdr_set_magic, hdr_set_version, hdr_set_cluster_bits, hdr_set_virtual_size,
  hdr_set_l1_table_offset, hdr_set_l1_size, hdr_set_alloc_offset, hdr_set_comp_type,
  hdr_set_free_list,
}

-- `strcmp(a, b) == 0` of strings as lists of bytes.
unfoldable pub same_string : List ℕ → List ℕ → Bool
same_string [] [] = true
same_string (c ∷ cs) (b ∷ bs) = let rest = same_string cs bs in if c == b then rest else false
same_string _ _ = false

-- "--size" and "--cluster-bits"
abbrev pub size_option : List ℕ
size_option = 45 ∷ 45 ∷ 115 ∷ 105 ∷ 122 ∷ 101 ∷ []

abbrev pub cluster_bits_option : List ℕ
cluster_bits_option =
    45 ∷ 45 ∷ 99 ∷ 108 ∷ 117 ∷ 115 ∷ 116 ∷ 101 ∷ 114 ∷ 45 ∷ 98 ∷ 105 ∷ 116 ∷ 115 ∷ []

-- The suffixes k, m, g and t in either case.
abbrev pub scale : ℕ → ℕ
scale c =
    if c == 107 || c == 75
    then 1024
    else if c == 109 || c == 77
    then 1024 * 1024
    else if c == 103 || c == 71
    then 1024 * 1024 * 1024
    else if c == 116 || c == 84
    then 1024 * 1024 * 1024 * 1024
    else 1

-- The calls for numbers that are not under src: `strtoull` gives the value and the byte behind it,
-- and `atoi` the bit pattern of an `int`.
pub record Numbers : Type 0 where
  pub strtoull : List ℕ → ℕ × ℕ
  pub atoi : List ℕ → ℕ

unfoldable pub parse_size : Numbers → List ℕ → ℕ
parse_size ns s = let (val, end) = ns.strtoull s in val * scale end % 2 ^ 64

pub record CreateArgs : Type 0 where
  pub path : Option (List ℕ)
  pub virtual_size : ℕ
  pub cluster_bits : ℕ

-- The loop over `argv`; none where it returns 1.
unfoldable pub parse_args : Numbers → List (List ℕ) → CreateArgs → Option CreateArgs
unfolding same_string parse_size
parse_args ns [] a = some a
parse_args ns (s ∷ []) a =
    if same_string s size_option || same_string s cluster_bits_option
    then none
    else elim a.path [ none ↦ some (record a { path = some s }) | some p ↦ none ]
parse_args ns (s ∷ v ∷ rest) a =
    if same_string s size_option
    then parse_args ns rest (record a { virtual_size = parse_size ns v })
    else if same_string s cluster_bits_option
    then parse_args ns rest (record a { cluster_bits = ns.atoi v })
    else elim a.path [
      | none ↦ parse_args ns (v ∷ rest) (record a { path = some s })
      | some p ↦ none
    ]

-- The numbers of an image; `l1_size` is a u32.
pub record Layout : Type 0 where
  pub cluster_size : ℕ
  pub l2_entries : ℕ
  pub l1_size : ℕ
  pub l1_table_offset : ℕ
  pub alloc_offset : ℕ

abbrev pub at_least_one : ℕ → ℕ
at_least_one n = if n == 0 then 1 else n

unfoldable pub layout_of : (virtual_size cluster_bits : ℕ) → Layout
layout_of virtual_size cluster_bits =
    let cluster_size = 2 ^ cluster_bits in
    let l2_entries = (cluster_size - l2_trailer_size) / 8 in
    let covered = l2_entries * cluster_size in
    let l1_size = at_least_one ((virtual_size + covered - 1) % 2 ^ 64 / covered % 2 ^ 32) in
    record {
      cluster_size = cluster_size;
      l2_entries = l2_entries;
      l1_size = l1_size;
      l1_table_offset = header_size;
      alloc_offset = (header_size + l1_size * 8 + cluster_size - 1) / cluster_size * cluster_size;
    }

unfoldable pub create_header : (virtual_size cluster_bits : ℕ) → Layout → List ℕ
create_header virtual_size cluster_bits l =
    let h₀ = replicate header_size 0 in
    let h₁ = hdr_set_magic h₀ qcow2_magic in
    let h₂ = hdr_set_version h₁ qcow2_version in
    let h₃ = hdr_set_cluster_bits h₂ cluster_bits in
    let h₄ = hdr_set_virtual_size h₃ virtual_size in
    let h₅ = hdr_set_l1_table_offset h₄ l.l1_table_offset in
    let h₆ = hdr_set_l1_size h₅ l.l1_size in
    let h₇ = hdr_set_alloc_offset h₆ l.alloc_offset in
    let h₈ = hdr_set_comp_type h₇ comp_lz4 in hdr_set_free_list h₈ 0

-- The system calls for the one file that is written: whether it was opened and emptied; how many
-- bytes were written, none standing for -1; and whether memory or the new length was given.
pub record Output : Type 1 where
  pub World : Type 0
  pub open_trunc : List ℕ → World → Bool × World
  pub write : List ℕ → World → Option ℕ × World
  pub calloc : ℕ → World → Bool × World
  pub ftruncate : ℕ → World → Bool × World
  pub close : World → World

abbrev pub all_written : ℕ → Option ℕ → Bool
all_written n none = false
all_written n (some m) = m == n

module _ (out : Output) where
  -- The exit code 1, behind `close(fd)`.
  abbrev pub give_up : out.World → ℕ × out.World
  give_up w = (1, out.close w)

  abbrev pub extend_file : ℕ → out.World → ℕ × out.World
  extend_file alloc_offset w =
      let (done, w') = out.ftruncate alloc_offset w in
      if done then (0, out.close w') else give_up w'

  abbrev pub write_zeros : Layout → out.World → ℕ × out.World
  write_zeros l w =
      let (given, w₁) = out.calloc (l.l1_size * 8) w in
      let (n, w₂) = out.write (replicate (l.l1_size * 8) 0) w₁ in
      if not given
      then give_up w₁
      else if not (all_written (l.l1_size * 8) n)
      then give_up w₂
      else extend_file l.alloc_offset w₂

  unfoldable pub write_image : List ℕ → Layout → List ℕ → out.World → ℕ × out.World
  write_image path l hdr w =
      let (opened, w₁) = out.open_trunc path w in
      let (n, w₂) = out.write hdr w₁ in
      if not opened
      then (1, w₁)
      else if not (all_written header_size n)
      then give_up w₂
      else write_zeros l w₂

  abbrev pub create_with : CreateArgs → out.World → ℕ × out.World
  create_with a w = elim a.path [
    | none ↦ (1, w)
    | some path ↦
        if a.virtual_size == 0
        then (1, w)
        else if ltb a.cluster_bits 12 || ltb 24 a.cluster_bits
        then (1, w)
        else let l = layout_of a.virtual_size a.cluster_bits in
          write_image path l (create_header a.virtual_size a.cluster_bits l) w
  ]

  abbrev pub create_parsed : Option CreateArgs → out.World → ℕ × out.World
  create_parsed none w = (1, w)
  create_parsed (some a) w = create_with a w

  -- The exit code.
  unfoldable pub cmd_create : Numbers → List (List ℕ) → out.World → ℕ × out.World
  unfolding parse_args layout_of create_header write_image
  cmd_create ns argv w =
      create_parsed
        (parse_args ns argv (record { path = none; virtual_size = 0; cluster_bits = 16 })) w

-- ===== src/Image/Fresh.antt =====
-- What `lbdctl create` leaves in the file, where the system does what it is asked for.
use lbd.Prelude.{
  ℕ, ◌+◌, ◌-◌, ◌*◌, ◌/◌, ◌^◌, ◌≤◌, ◌<◌, ◌≡◌, refl, ap, ◌∙◌, subst, true, List, [], ◌++◌, none, some,
  arith, length, replicate, ◌==◌, ==_refl, length-append, length-replicate,
}
use lbd.Format.{header_size, l2_trailer_size}
use lbd.Image.{
  Numbers, parse_args, Layout, layout_of, create_header, Output, write_image, write_zeros,
  extend_file, create_parsed, cmd_create, all_written,
}
use lbd.Image.Header.{Describes, create_header-Describes, length-create_header}

-- A system that has room: a file that is opened is empty, what is written stands at its end, and a
-- file that is made longer is filled with zeros.
pub record Serves (out : Output) : Type 0 where
  pub content : out.World → List ℕ
  pub opens : (path : List ℕ) (w : out.World) → (out.open_trunc path w).0 ≡ true
  pub empties : (path : List ℕ) (w : out.World) → content (out.open_trunc path w).1 ≡ []
  pub writes : (bs : List ℕ) (w : out.World) → (out.write bs w).0 ≡ some (length bs)
  pub appends : (bs : List ℕ) (w : out.World) → content (out.write bs w).1 ≡ content w ++ bs
  pub gives : (n : ℕ) (w : out.World) → (out.calloc n w).0 ≡ true
  pub keeps : (n : ℕ) (w : out.World) → content (out.calloc n w).1 ≡ content w
  pub extends_to : (n : ℕ) (w : out.World) → (out.ftruncate n w).0 ≡ true
  pub fills :
      (n : ℕ) (w : out.World)
      → length (content w) ≤ n
      → content (out.ftruncate n w).1 ≡ content w ++ replicate (n - length (content w)) 0
  pub closes : (w : out.World) → content (out.close w) ≡ content w

module _ {out : Output} (s : Serves out) where
  -- The content of the file at exit code 0.
  abbrev Left : ℕ × out.World → List ℕ → Type 0
  Left r bytes = (r.0 ≡ 0) × (s.content r.1 ≡ bytes)

  extend_file-Left :
      (n : ℕ) (w : out.World)
      → length (s.content w) ≤ n
      → Left (extend_file out n w) (s.content w ++ replicate (n - length (s.content w)) 0)
  extend_file-Left n w h =
      rw (s.extends_to n w) (refl, s.closes (out.ftruncate n w).1 ∙ s.fills n w h)

  write_zeros-Left :
      (l : Layout) (w : out.World)
      → length (s.content w) + l.l1_size * 8 ≤ l.alloc_offset
      → Left (write_zeros out l w) (
          (s.content w ++ replicate (l.l1_size * 8) 0)
          ++ replicate (l.alloc_offset - (length (s.content w) + l.l1_size * 8)) 0)
  write_zeros-Left l w h =
      rw (s.gives n w, written)
        (
          left.0,
          left.1
              ∙ ap (λ (c : List ℕ). c ++ replicate (l.alloc_offset - length c) 0) stored
              ∙ ap (λ (m : ℕ). (s.content w ++ zeros) ++ replicate (l.alloc_offset - m) 0) long,
        )
    where
      n : ℕ
      n = l.l1_size * 8

      zeros : List ℕ
      zeros = replicate n 0

      w₁ : out.World
      w₁ = (out.calloc n w).1

      w₂ : out.World
      w₂ = (out.write zeros w₁).1

      written : all_written n (out.write zeros w₁).0 ≡ true
      written =
          ap (all_written n) (s.writes zeros w₁)
          ∙ ap (λ m. m == n) (length-replicate {A = ℕ} n 0)
          ∙ ==_refl n

      stored : s.content w₂ ≡ s.content w ++ zeros
      stored = s.appends zeros w₁ ∙ ap (λ c. c ++ zeros) (s.keeps n w)

      long : length (s.content w ++ zeros) ≡ length (s.content w) + n
      long = omega (arith, length-append (s.content w) zeros, length-replicate {A = ℕ} n 0)

      left :
          Left
            (extend_file out l.alloc_offset w₂)
            (s.content w₂ ++ replicate (l.alloc_offset - length (s.content w₂)) 0)
      left = extend_file-Left l.alloc_offset w₂ (omega (arith, ap length stored, long, h))

  write_image-Left :
      (path : List ℕ) (l : Layout) (hdr : List ℕ) (w : out.World)
      → length hdr ≡ header_size
      → header_size + l.l1_size * 8 ≤ l.alloc_offset
      → Left (write_image out path l hdr w) (
          (hdr ++ replicate (l.l1_size * 8) 0)
          ++ replicate (l.alloc_offset - (header_size + l.l1_size * 8)) 0)
  unfolding write_image
  write_image-Left path l hdr w e h =
      rw (s.opens path w, written)
        (subst
          (λ (c : List ℕ). Left (write_zeros out l w₂) (
            (c ++ replicate (l.l1_size * 8) 0)
            ++ replicate (l.alloc_offset - (header_size + l.l1_size * 8)) 0))
          stored
          (subst
            (λ (m : ℕ). Left (write_zeros out l w₂) (
              (s.content w₂ ++ replicate (l.l1_size * 8) 0)
              ++ replicate (l.alloc_offset - (m + l.l1_size * 8)) 0))
            (ap length stored ∙ e) (write_zeros-Left l w₂ (omega (arith, ap length stored, e, h)))))
    where
      w₂ : out.World
      w₂ = (out.write hdr (out.open_trunc path w).1).1

      written : all_written header_size (out.write hdr (out.open_trunc path w).1).0 ≡ true
      written =
          ap (all_written header_size) (s.writes hdr (out.open_trunc path w).1)
          ∙ ap (λ m. m == header_size) e

      stored : s.content w₂ ≡ hdr
      stored = s.appends hdr (out.open_trunc path w).1 ∙ ap (λ c. c ++ hdr) (s.empties path w)

  -- With arguments that say a path, a size and a cluster size from 12 to 24 bits, where the number of
  -- tables fits a u32 and the size with one table more a u64, on a system whose calls all succeed:
  -- `lbdctl create` succeeds, and the file holds a header that the kernel module takes and that says
  -- this size and cluster size, an L1 table of zeros with just as many entries as tables of that
  -- cluster size are needed for the device, and zeros up to where the free space begins, which is the
  -- first cluster behind the L1 table.
  pub cmd_create-Describes :
      (ns : Numbers) (argv : List (List ℕ)) (path : List ℕ) (size bits : ℕ) (w : out.World)
      → parse_args ns argv (record { path = none; virtual_size = 0; cluster_bits = 16 })
        ≡ some (record { path = some path; virtual_size = size; cluster_bits = bits })
      → 0 < size
      → 12 ≤ bits
      → bits ≤ 24
      → size + (2 ^ bits - l2_trailer_size) / 8 * 2 ^ bits ≤ 2 ^ 64
      → (size + (2 ^ bits - l2_trailer_size) / 8 * 2 ^ bits - 1)
          / ((2 ^ bits - l2_trailer_size) / 8 * 2 ^ bits)
        < 2 ^ 32
      → (hdr : List ℕ) × (l : Layout) × Describes hdr size bits l
        × ((cmd_create out ns argv w).0 ≡ 0)
        × (length hdr ≡ header_size)
        × (s.content (cmd_create out ns argv w).1
            ≡ (hdr ++ replicate (l.l1_size * 8) 0)
              ++ replicate (l.alloc_offset - (header_size + l.l1_size * 8)) 0)
  unfolding cmd_create
  cmd_create-Describes ns argv path size bits w said some_size low high fits few =
      let l : Layout = layout_of size bits in
      let hdr : List ℕ = create_header size bits l in
      let d = create_header-Describes size bits some_size low high fits few in
      let long = length-create_header size bits l in
      let left = write_image-Left path l hdr w long d.behind_l1 in
      let taken : create_parsed out
            (parse_args ns argv (record { path = none; virtual_size = 0; cluster_bits = 16 })) w
          ≡ write_image out path l hdr w =
        ap (λ a. create_parsed out a w) said ∙ accepted in
      (hdr, l, d, ap (λ r. r.0) taken ∙ left.0, long, ap (λ r. s.content r.1) taken ∙ left.1)
    where
      accepted :
          create_parsed out
            (some (record { path = some path; virtual_size = size; cluster_bits = bits }))
            w
          ≡ write_image out path
              (layout_of size bits)
              (create_header size bits (layout_of size bits))
              w
      accepted = ground arith

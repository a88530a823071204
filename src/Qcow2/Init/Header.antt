-- ===== src/Qcow2/Init/Header.antt =====
-- The validation of the header in `lbd_qcow2_init`.
use lbd.Prelude.{
  ℕ, zero, suc, ◌+◌, ◌-◌, ◌*◌, ◌/◌, ◌^◌, ◌≤◌, ◌≡◌, refl, ap, ◌∙◌, inl, inr, ◌⊎◌, true, false, ◌||◌,
  List, arith, ltb, Bool-cases, ◌==◌,
}
use lbd.Kernel.{Kernel, einval}
use lbd.Format.{qcow2_magic, qcow2_version}
use lbd.Format.Header.{
  hdr_magic, hdr_version, hdr_cluster_bits, hdr_virtual_size, hdr_alloc_offset, hdr_free_list,
}
use lbd.Qcow2.State.{Qcow2, Device, ok, err}
use lbd.Qcow2.Init.{check_header}

-- What the code asks of a header.
pub record Valid (hdr : List ℕ) : Type 0 where
  pub magic : hdr_magic hdr ≡ qcow2_magic
  pub version : hdr_version hdr ≡ qcow2_version
  pub low : 12 ≤ hdr_cluster_bits hdr
  pub high : hdr_cluster_bits hdr ≤ 24

-- A state whose clusters hold a table of eight-byte words and a trailer of eight bytes, of the sizes
-- that the header gives.
pub record Geometry (hdr : List ℕ) (q : Qcow2) : Type 0 where
  pub bits : q.cluster_bits ≡ hdr_cluster_bits hdr
  pub cluster : q.cluster_size ≡ 2 ^ q.cluster_bits
  pub table : 8 * q.l2_entries + 8 ≡ q.cluster_size
  pub entries : 511 ≤ q.l2_entries
  pub virtual : q.virtual_size ≡ hdr_virtual_size hdr
  pub cursor : q.alloc_offset ≡ hdr_alloc_offset hdr
  pub head : q.free_list_head ≡ hdr_free_list hdr

pow_pos : (n : ℕ) → 1 ≤ 2 ^ n
pow_pos zero = omega arith
pow_pos (suc n) = omega (arith, pow_pos n)

pow_split : (m : ℕ) → 2 ^ (m + 12) ≡ 2 ^ m * 4096
pow_split zero = omega arith
pow_split (suc m) =
    let e : suc m + 12 ≡ suc (m + 12) = omega arith in
    let s : 2 ^ suc (m + 12) ≡ 2 * 2 ^ (m + 12) = omega arith in
    ap (λ (n : ℕ). 2 ^ n) e ∙ omega (arith, pow_split m, s)

cluster_words : (b : ℕ) → 12 ≤ b → (8 * ((2 ^ b - 8) / 8) + 8 ≡ 2 ^ b) × (511 ≤ (2 ^ b - 8) / 8)
cluster_words b h =
    let e : b ≡ b - 12 + 12 = omega arith in
    let s : 2 ^ b ≡ 2 ^ (b - 12) * 4096 = ap (λ (n : ℕ). 2 ^ n) e ∙ pow_split (b - 12) in
    let p = pow_pos (b - 12) in (omega (arith, s, p), omega (arith, s, p))

module _ {k : Kernel} where
  -- Where the header is valid, it is accepted, and the state has its geometry, with tables of at
  -- least 511 entries that with the trailer fill a cluster; else the result is `-EINVAL`.
  pub check_header-Valid :
      (hdr : List ℕ) (d : Device k)
      → (Valid hdr × ((check_header hdr d).0 ≡ ok tt) × Geometry hdr (check_header hdr d).1.qcow2)
        ⊎ ((¬ Valid hdr) × ((check_header hdr d).0 ≡ err einval))
  unfolding check_header
  check_header-Valid hdr d = elim (Bool-cases (hdr_magic hdr == qcow2_magic)) [
    | inr m ↦ inr (λ v. ground (arith, v.magic), rw m refl)
    | inl m ↦ elim (Bool-cases (hdr_version hdr == qcow2_version)) [
      | inr n ↦ inr (λ v. ground (arith, v.version), rw (m, n) refl)
      | inl n ↦ elim (Bool-cases (ltb (hdr_cluster_bits hdr) 12 || ltb 24 (hdr_cluster_bits hdr))) [
        | inl o ↦ inr (λ v. ground (arith, v.low, v.high), rw (m, n, o) refl)
        | inr o ↦ inl (accepted m n o)
      ]
    ]
  ]
    where
      accepted :
          (hdr_magic hdr == qcow2_magic) ≡ true
          → (hdr_version hdr == qcow2_version) ≡ true
          → (ltb (hdr_cluster_bits hdr) 12 || ltb 24 (hdr_cluster_bits hdr)) ≡ false
          → Valid hdr × ((check_header hdr d).0 ≡ ok tt) × Geometry hdr (check_header hdr d).1.qcow2
      accepted m n o =
          let low : 12 ≤ hdr_cluster_bits hdr = ground arith in
          let high : hdr_cluster_bits hdr ≤ 24 = ground arith in
          let (table, entries) = cluster_words (hdr_cluster_bits hdr) low in
          rw (m, n, o)
            (
              record { magic = ground arith; version = ground arith; low = low; high = high },
              refl,
              record {
                bits = refl;
                cluster = refl;
                table = table;
                entries = entries;
                virtual = refl;
                cursor = refl;
                head = refl;
              },
            )

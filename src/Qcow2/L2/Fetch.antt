-- ===== src/Qcow2/L2/Fetch.antt =====
-- The table that `lbd_qcow2_l2_get` loads, as it is on disk.
use lbd.Prelude.{
  ℕ, ◌<◌, ◌≤◌, ◌/◌, ◌≡◌, ◌≢◌, refl, ap, ◌∙◌, sym, inl, inr, ◌⊎◌, true, not, ◌&&◌, List, Option,
  none, some, arith, ltb, ◌==◌, length, get_or, replicate, Bool-cases,
}
use lbd.Kernel.{Kernel}
use lbd.Qcow2.State.{L2Entry, Qcow2, Device, Outcome, ok, err, oops, and_then}
use lbd.Qcow2.L2.{l2_at, update_l2, read_l2_table, load_l2}
use lbd.Qcow2.L2.Load.{taken, set_taken, keep_table, read_l2_table_cases}

module _ {k : Kernel} where
  -- What a device has for the table `l1_index`: where the L1 table has no entry for it, zeros, and
  -- otherwise what reading it gives, where `none` stands for a read that failed or a bad CRC.
  abbrev pub Fetched : ℕ → Device k → Option (List ℕ) → Type 0
  Fetched l1_index d o =
      (((d.qcow2.l1_size ≤ l1_index) ⊎ (get_or d.qcow2.l1_table l1_index 0 ≡ 0))
        × (o ≡ some (replicate (d.qcow2.cluster_size / 8) 0)))
      ⊎ ((l1_index < d.qcow2.l1_size)
          × (get_or d.qcow2.l1_table l1_index 0 ≢ 0)
          × (old : List ℕ) × (d' : Device k) × (d'.world ≡ d.world)
          × ((read_l2_table d.backing_file d.qcow2.cluster_size d.qcow2.l2_entries
                (get_or d.qcow2.l1_table l1_index 0) old d').0
              ≡ ok o))

  -- The table of the entry that is returned, or NULL, is what the device had.
  abbrev pub LoadTable : ℕ → Device k → Outcome (Option ℕ) × Device k → Type 0
  LoadTable l1_index d (ok none, r) = Fetched l1_index d none
  LoadTable l1_index d (ok (some i), r) = Fetched l1_index d (some (l2_at r.qcow2 i).table)
  LoadTable l1_index d (err e, r) = ⊥
  LoadTable l1_index d (oops, r) = ⊥

  keep_table-LoadTable :
      (i l1_index : ℕ) (d d1 : Device k) (old : List ℕ) (r : Outcome (Option (List ℕ)) × Device k)
      → i < length d.qcow2.l2_cache
      → l1_index < d.qcow2.l1_size
      → get_or d.qcow2.l1_table l1_index 0 ≢ 0
      → d1.world ≡ d.world
      → read_l2_table d.backing_file d.qcow2.cluster_size d.qcow2.l2_entries
          (get_or d.qcow2.l1_table l1_index 0)
          old
          d1
        ≡ r
      → (r.0 ≡ ok none) ⊎ ((t : List ℕ) × (r.0 ≡ ok (some t)))
      → r.1.qcow2 ≡ taken i l1_index d.qcow2
      → LoadTable l1_index d (and_then r (keep_table i))
  keep_table-LoadTable i l1_index d d1 old (ok none, d') h a b w e was s =
      inr (a, b, old, d1, w, ap (λ x. x.0) e)
  keep_table-LoadTable i l1_index d d1 old (ok (some t), d') h a b w e was s =
      let f : L2Entry → L2Entry = λ e. record e { table = t; valid = true } in
      let at : (l2_at (update_l2 i f d'.qcow2) i).table ≡ t =
        ap (λ (q : Qcow2). (l2_at (update_l2 i f q) i).table) s
        ∙ ap (λ (e : L2Entry). e.table) (set_taken i l1_index f d.qcow2 h) in
      inr (a, b, old, d1, w, ap (λ x. x.0) e ∙ ap (λ t. ok (some t)) (sym at))
  keep_table-LoadTable i l1_index d d1 old (err x, d') h a b w e was s = absurd (ground arith)
  keep_table-LoadTable i l1_index d d1 old (oops, d') h a b w e was s = absurd (ground arith)

  pub load_l2-LoadTable :
      (i l1_index : ℕ) (d : Device k)
      → i < length d.qcow2.l2_cache
      → LoadTable l1_index d (load_l2 i l1_index d)
  unfolding load_l2
  load_l2-LoadTable i l1_index d h =
      let q = d.qcow2 in
      let phys = get_or q.l1_table l1_index 0 in
      let d1 : Device k = record d { qcow2 = taken i l1_index q } in
      let old = (l2_at d1.qcow2 i).table in
      let (cases, same) =
        read_l2_table_cases d.backing_file q.cluster_size q.l2_entries phys old d1 in
      elim (Bool-cases (ltb l1_index q.l1_size && not (phys == 0))) [
        | inr absent ↦ rw absent (
            inl (
              ground (arith, absent),
              ap (λ (e : L2Entry). some e.table)
                  (set_taken i l1_index
                    (λ e. record e { table = replicate (q.cluster_size / 8) 0; valid = true }) q h),
            ))
        | inl present ↦ rw present (
            keep_table-LoadTable i l1_index d d1 old _ h (ground (arith, present))
              (ground (arith, present)) refl refl cases same)
      ]

-- ===== src/Qcow2/L2/Load.antt =====
-- Eviction from the L2 cache, and the load of a table into an entry of it.
use lbd.Prelude.{
  ℕ, ◌<◌, ◌≡◌, refl, ap, ◌∙◌, sym, inl, inr, ◌⊎◌, true, false, not, ◌&&◌, List, Option, none, some,
  arith, ltb, ◌==◌, length, subst, get_or, modify, length-modify, get_or-modify_self,
  get_or-modify_ne, Bool-cases,
}
use lbd.Kernel.{Kernel}
use lbd.Qcow2.State.{
  L2Entry, Qcow2, Device, M, Outcome, ok, err, oops, and_then, write_all, read_all, inc64, ◌>>◌,
  pure, set_qcow2,
}
use lbd.Qcow2.L2.{no_entry, l2_at, update_l2, read_l2_table, flush_evicted, evict_l2, load_l2}
use lbd.Qcow2.L2.Invariant.{OnlyAt, OnlyAt-trans, OnlyAt-update_l2, Got, cleaned}

-- The entry as it is taken, before its table is there.
abbrev pub taken : ℕ → ℕ → Qcow2 → Qcow2
taken i l1_index q =
    record (update_l2 i (λ e. record e { lru = q.lru_tick })
      (update_l2 i (λ e. record e { l1_index = l1_index; dirty = false }) q)) {
        lru_tick = inc64 q.lru_tick;
      }

pub set_taken :
    (i l1_index : ℕ) (f : L2Entry → L2Entry) (q : Qcow2)
    → i < length q.l2_cache
    → l2_at (update_l2 i f (taken i l1_index q)) i
      ≡ f (record (l2_at q i) { l1_index = l1_index; dirty = false; lru = q.lru_tick })
set_taken i l1_index f q h =
    let one = modify q.l2_cache i (λ e. record e { l1_index = l1_index; dirty = false }) in
    let two = modify one i (λ e. record e { lru = q.lru_tick }) in
    let n1 : length one ≡ length q.l2_cache = length-modify q.l2_cache i _ in
    let n2 : length two ≡ length one = length-modify one i _ in
    get_or-modify_self two i f no_entry (omega arith)
    ∙ ap f (get_or-modify_self one i (λ e. record e { lru = q.lru_tick }) no_entry (omega arith))
    ∙ ap (λ e. f (record e { lru = q.lru_tick }))
        (get_or-modify_self q.l2_cache i (λ e. record e { l1_index = l1_index; dirty = false })
          no_entry h)

taken-OnlyAt :
    (i l1_index : ℕ) (f : L2Entry → L2Entry) (q : Qcow2)
    → OnlyAt i q (update_l2 i f (taken i l1_index q))
taken-OnlyAt i l1_index f q =
    OnlyAt-trans i q (taken i l1_index q) _
      (OnlyAt-trans i q (update_l2 i (λ e. record e { l1_index = l1_index; dirty = false }) q) _
        (OnlyAt-update_l2 i _ q)
        (record {
          size = length-modify _ i _;
          others = λ j h. get_or-modify_ne _ i j _ no_entry h;
        }))
      (OnlyAt-update_l2 i f (taken i l1_index q))

module _ {k : Kernel} where
  flush_evicted_keeps :
      (e : L2Entry) (d : Device k)
      → ((flush_evicted e d).0 ≡ ok tt) × ((flush_evicted e d).1.qcow2 ≡ d.qcow2)
  unfolding flush_evicted write_all
  flush_evicted_keeps e d = ground arith

  pub evict_l2_keeps :
      (i : ℕ) (d : Device k)
      → ((evict_l2 i d).0 ≡ ok tt) × ((evict_l2 i d).1.qcow2 ≡ cleaned i d.qcow2)
  unfolding evict_l2
  evict_l2_keeps i d = ground (arith, flush_evicted_keeps (l2_at d.qcow2 i) d)

  -- A table is read or it is not, and the driver's state stays.
  pub read_l2_table_cases :
      (f : k.File) (cluster_size l2_entries phys : ℕ) (old : List ℕ) (d : Device k)
      → (((read_l2_table f cluster_size l2_entries phys old d).0 ≡ ok none)
          ⊎ ((t : List ℕ) × ((read_l2_table f cluster_size l2_entries phys old d).0 ≡ ok (some t))))
        × ((read_l2_table f cluster_size l2_entries phys old d).1.qcow2 ≡ d.qcow2)
  unfolding read_l2_table read_all
  read_l2_table_cases f cluster_size l2_entries phys old d = ground arith

  -- What `load_l2` leaves: another table in the entry, or an invalid entry.
  pub record LoadedInto (i l1_index : ℕ) (q : Qcow2) (r : Outcome (Option ℕ) × Device k)
      : Type 0 where
    pub only : OnlyAt i q r.1.qcow2
    pub tick : r.1.qcow2.lru_tick ≡ inc64 q.lru_tick
    pub stamp : (l2_at r.1.qcow2 i).lru ≡ q.lru_tick
    pub index : (l2_at r.1.qcow2 i).l1_index ≡ l1_index
    pub got : Got l1_index r

  -- Writes to the entry that keep its index and its time stamp.
  written :
      (i l1_index : ℕ) (f : L2Entry → L2Entry) (q : Qcow2) (o : Outcome (Option ℕ)) (d : Device k)
      → i < length q.l2_cache
      → ((e : L2Entry) → ((f e).lru ≡ e.lru) × ((f e).l1_index ≡ e.l1_index))
      → d.qcow2 ≡ update_l2 i f (taken i l1_index q)
      → (o ≡ ok none) ⊎ ((o ≡ ok (some i)) × ((e : L2Entry) → (f e).valid ≡ true))
      → LoadedInto i l1_index q (o, d)
  written i l1_index f q o d h same eq out =
      let e0 : L2Entry = record (l2_at q i) {
        l1_index = l1_index;
        dirty = false;
        lru = q.lru_tick;
      } in
      let at : l2_at d.qcow2 i ≡ f e0 = rw eq (set_taken i l1_index f q h) in
      let num : (l2_at d.qcow2 i).l1_index ≡ l1_index = ap (λ e. e.l1_index) at ∙ (same e0).1 in
      let only : OnlyAt i q d.qcow2 = rw eq (taken-OnlyAt i l1_index f q) in
      record {
        only = only;
        tick = ap (λ (s : Qcow2). s.lru_tick) eq;
        stamp = ap (λ e. e.lru) at ∙ (same e0).0;
        index = num;
        got = elim out [
          | inl n ↦ subst (λ (r : Outcome (Option ℕ)). Got l1_index (r, d)) (sym n) tt
          | inr (s, v) ↦
              subst (λ (r : Outcome (Option ℕ)). Got l1_index (r, d)) (sym s)
                (omega (arith, only.size), ap (λ e. e.valid) at ∙ v e0, num)
        ];
      }

  -- The rest of `load_l2` behind the read of the table.
  abbrev pub keep_table : ℕ → Option (List ℕ) → M k (Option ℕ)
  keep_table i table = elim table [
    | none ↦ (do set_qcow2 (update_l2 i (λ e. record e { valid = false })); pure none)
    | some t ↦ (do
      set_qcow2 (update_l2 i (λ e. record e { table = t; valid = true }))
      pure (some i))
  ]

  keep_table-LoadedInto :
      (i l1_index : ℕ) (q : Qcow2) (r : Outcome (Option (List ℕ)) × Device k)
      → i < length q.l2_cache
      → (r.0 ≡ ok none) ⊎ ((t : List ℕ) × (r.0 ≡ ok (some t)))
      → r.1.qcow2 ≡ taken i l1_index q
      → LoadedInto i l1_index q (and_then r (keep_table i))
  keep_table-LoadedInto i l1_index q (ok none, d) h was s =
      written i l1_index (λ e. record e { valid = false }) q _ _ h (λ e. (refl, refl))
        (ap (update_l2 i (λ e. record e { valid = false })) s) (inl refl)
  keep_table-LoadedInto i l1_index q (ok (some t), d) h was s =
      written i l1_index (λ e. record e { table = t; valid = true }) q _ _ h (λ e. (refl, refl))
        (ap (update_l2 i (λ e. record e { table = t; valid = true })) s) (inr (refl, λ e. refl))
  keep_table-LoadedInto i l1_index q (err e, d) h was s = absurd (ground arith)
  keep_table-LoadedInto i l1_index q (oops, d) h was s = absurd (ground arith)

  pub load_l2-LoadedInto :
      (i l1_index : ℕ) (d : Device k)
      → i < length d.qcow2.l2_cache
      → LoadedInto i l1_index d.qcow2 (load_l2 i l1_index d)
  unfolding load_l2
  load_l2-LoadedInto i l1_index d h =
      let phys = get_or d.qcow2.l1_table l1_index 0 in
      let d1 : Device k = record d { qcow2 = taken i l1_index d.qcow2 } in
      let (cases, same) =
        read_l2_table_cases d.backing_file d.qcow2.cluster_size d.qcow2.l2_entries phys
          (l2_at d1.qcow2 i).table d1 in
      elim (Bool-cases (ltb l1_index d.qcow2.l1_size && not (phys == 0))) [
        | inr absent ↦
            rw absent
              (written i l1_index _ d.qcow2 _ _ h (λ e. (refl, refl)) refl (inr (refl, λ e. refl)))
        | inl present ↦ rw present (keep_table-LoadedInto i l1_index d.qcow2 _ h cases same)
      ]
  -- A hit: the entry takes a new time stamp.

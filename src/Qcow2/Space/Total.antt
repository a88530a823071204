-- ===== src/Qcow2/Space/Total.antt =====
-- `lbd_qcow2_alloc_space` where reads and writes may fail.
use lbd.Prelude.{
  ℕ, zero, suc, ◌≡◌, refl, ◌⊎◌, inl, inr, Bool, true, false, arith, add64, ◌-◌, not, ◌==◌, leb, ap,
  Option, none, some, ◌∙◌, if◌then◌else◌, List, Bool-cases,
}
use lbd.Kernel.{Kernel}
use lbd.Qcow2.State.{
  Device, Outcome, ok, err, oops, M, and_then, ignore, pure, ◌>>◌, set_stats, inc64,
}
use lbd.Format.{free_tombstone, get32, get64}
use lbd.Qcow2.Space.{
  free_entry_min, free_scan_limit, free_extent, write_free_list_head, alloc_append, unlink_extent,
  split_extent, take_extent, alloc_scan, alloc_space,
}
use lbd.Qcow2.Space.Tried.{
  Tried, Sure, write_all-Tried, read_all-Tried, Tried-and_then, attempt-Sure, Sure-and_then,
  ignore-Sure,
}

-- A position is given out, in one of two ways: the cursor stays and a reuse is counted, or the position
-- is the old cursor, which moved by the size, and none is counted.
pub record Gives {k : Kernel} (needed : ℕ) (d : Device k) (r : Outcome ℕ × Device k) : Type 0 where
  pub phys : ℕ
  pub given : r.0 ≡ ok phys
  pub cursor :
      ((r.1.qcow2.alloc_offset ≡ d.qcow2.alloc_offset)
        × (r.1.stats.alloc_reused ≡ inc64 d.stats.alloc_reused))
      ⊎ ((phys ≡ d.qcow2.alloc_offset)
          × (r.1.qcow2.alloc_offset ≡ add64 d.qcow2.alloc_offset needed)
          × (r.1.stats.alloc_reused ≡ d.stats.alloc_reused))

module _ {k : Kernel} where
  free_extent-Tried : (phys n : ℕ) (d : Device k) → Tried d (free_extent phys n d)
  unfolding free_extent write_free_list_head
  free_extent-Tried phys n d = Tried-and_then d _ _ (write_all-Tried _ _ _ d) (λ _ d'.
      let after = write_all-Tried _ _ _ _ in
      record { ends = after.ends; cursor = after.cursor; reused = after.reused })

  Gives-and_then :
      {A : Type 0} (needed : ℕ) (d : Device k) (r : Outcome A × Device k) (f : A → M k ℕ)
      → Sure d r
      → ((a : A) (d' : Device k) → Gives needed d' (f a d'))
      → Gives needed d (and_then r f)
  Gives-and_then needed d (ok a, d') f t g =
      let after = g a d' in
      record {
        phys = after.phys;
        given = after.given;
        cursor = elim after.cursor [
          | inl (same, more) ↦ inl (same ∙ t.cursor, more ∙ ap inc64 t.reused)
          | inr (at, moved, kept) ↦
              inr (at ∙ t.cursor, moved ∙ ap (λ c. add64 c needed) t.cursor, kept ∙ t.reused)
        ];
      }
  Gives-and_then needed d (err e, d') f t g = absurd (ground (arith, t.ends))
  Gives-and_then needed d (oops, d') f t g = absurd (ground (arith, t.ends))

  write_free_list_head-Tried : (d : Device k) → Tried d (write_free_list_head d)
  unfolding write_free_list_head
  write_free_list_head-Tried d = write_all-Tried _ _ _ d

  unlink_extent-Sure :
      (first : Bool) (prev next : ℕ) (d : Device k) → Sure d (unlink_extent first prev next d)
  unfolding unlink_extent
  unlink_extent-Sure true prev next d = record {
    value = true;
    ends = refl;
    cursor = refl;
    reused = refl;
  }
  unlink_extent-Sure false prev next d =
      Sure-and_then d _ _ (attempt-Sure d _ (write_all-Tried _ _ _ d))
        (λ o d'. record { value = _; ends = refl; cursor = refl; reused = refl })

  split_extent-Sure : (split rest : ℕ) (d : Device k) → Sure d (split_extent split rest d)
  unfolding split_extent
  split_extent-Sure split rest d = elim (Bool-cases (leb free_entry_min rest)) [
    | inr small ↦ rw small (ignore-Sure write_free_list_head d (write_free_list_head-Tried d))
    | inl big ↦
        rw big (Sure-and_then d _ _ (attempt-Sure d _ (free_extent-Tried split rest d)) freed)
  ]
    where
      freed :
          (o : Option (Unit {0})) (d' : Device k)
          → Sure d' (
              (elim o as (λ x. M k (Unit {0})) [
                | none ↦ ignore write_free_list_head
                | some _ ↦ pure tt
              ])
                d')
      freed none d' = ignore-Sure write_free_list_head d' (write_free_list_head-Tried d')
      freed (some u) d' = record { value = tt; ends = refl; cursor = refl; reused = refl }

  alloc_append-Gives : (needed : ℕ) (d : Device k) → Gives needed d (alloc_append needed d)
  unfolding alloc_append
  alloc_append-Gives needed d = record {
    phys = d.qcow2.alloc_offset;
    given = refl;
    cursor = inr (refl, refl, refl);
  }

  take_extent-Gives :
      (first : Bool) (prev cur needed n next : ℕ) (d : Device k)
      → Gives needed d (take_extent first prev cur needed n next d)
  unfolding take_extent
  take_extent-Gives first prev cur needed n next d =
      Gives-and_then needed d _ _ (unlink_extent-Sure first prev next d) taken
    where
      reused : M k ℕ
      reused = do
        split_extent (add64 cur needed) (n - needed)
        set_stats (λ s. record s { alloc_reused = inc64 s.alloc_reused })
        pure cur

      counted :
          {d' : Device k} (r : Outcome (Unit {0}) × Device k)
          → Sure d' r
          → Gives needed d' (
              and_then r (λ _. do
                set_stats (λ s. record s { alloc_reused = inc64 s.alloc_reused })
                pure cur))
      counted (ok a, d'') t = record {
        phys = cur;
        given = refl;
        cursor = inl (t.cursor, ap inc64 t.reused);
      }
      counted (err e, d'') t = absurd (ground (arith, t.ends))
      counted (oops, d'') t = absurd (ground (arith, t.ends))

      taken :
          (u : Bool) (d' : Device k)
          → Gives needed d' ((if u then reused else alloc_append needed) d')
      taken true d' =
          counted (split_extent (add64 cur needed) (n - needed) d')
            (split_extent-Sure (add64 cur needed) (n - needed) d')
      taken false d' = alloc_append-Gives needed d'

  -- The scan, whatever is on disk.
  alloc_scan-Gives :
      (left : ℕ) (first : Bool) (prev cur needed : ℕ) (d : Device k)
      → Gives needed d (alloc_scan left first prev cur needed d)
  unfolding alloc_scan
  alloc_scan-Gives zero first prev cur needed d = alloc_append-Gives needed d
  alloc_scan-Gives (suc left) first prev cur needed d = elim (Bool-cases (cur == 0)) [
    | inl e ↦ rw e (alloc_append-Gives needed d)
    | inr e ↦ rw e (
        Gives-and_then needed d _ _ (attempt-Sure d _ (read_all-Tried _ 16 cur d))
          (seen (λ next. alloc_scan-Gives left false cur next needed)))
  ]
    where
      fits : List ℕ → Bool → M k ℕ
      fits buf enough =
          if enough
          then take_extent first prev cur needed (get32 buf 4) (get64 buf 8)
          else alloc_scan left false cur (get64 buf 8) needed

      entered : List ℕ → Bool → M k ℕ
      entered buf other = if other then alloc_append needed else fits buf (leb needed (get32 buf 4))

      Again : Type 0
      Again =
          (next : ℕ) (d' : Device k) → Gives needed d' (alloc_scan left false cur next needed d')

      entered-Gives :
          Again
          → (buf : List ℕ) (other : Bool) (d' : Device k) → Gives needed d' (entered buf other d')
      entered-Gives again buf true d' = alloc_append-Gives needed d'
      entered-Gives again buf false d' = elim (Bool-cases (leb needed (get32 buf 4))) [
        | inl e ↦ rw e (take_extent-Gives first prev cur needed (get32 buf 4) (get64 buf 8) d')
        | inr e ↦ rw e (again (get64 buf 8) d')
      ]

      seen :
          Again
          → (entry : Option (List ℕ)) (d' : Device k)
          → Gives needed d' (
              (elim entry as (λ x. M k ℕ) [
                | none ↦ alloc_append needed
                | some buf ↦ entered buf (not (get32 buf 0 == free_tombstone))
              ])
                d')
      seen again none d' = alloc_append-Gives needed d'
      seen again (some buf) d' = entered-Gives again buf (not (get32 buf 0 == free_tombstone)) d'

  -- Whatever is on disk and whichever reads and writes fail, an allocation gives out a position; and
  -- either a reuse is counted and the cursor stays, or none is counted, the position is the old cursor,
  -- and the cursor moved by the size.
  pub alloc_space-Gives : (needed : ℕ) (d : Device k) → Gives needed d (alloc_space needed d)
  unfolding alloc_space
  alloc_space-Gives needed d =
      alloc_scan-Gives free_scan_limit true 0 d.qcow2.free_list_head needed d

-- ===== src/Qcow2/Space/Tried.antt =====
-- Calls that may fail with an error code, calls that cannot, and sequences of them.
use lbd.Prelude.{
  ℕ, ◌≡◌, refl, ◌⊎◌, inl, inr, arith, ◌==◌, none, some, ◌∙◌, List, length, Bool-cases,
}
use lbd.Kernel.{Kernel, Errno, eio, ReadRet, got, read_failed, WriteRet, wrote, write_failed}
use lbd.Qcow2.State.{
  Device, Outcome, ok, err, oops, M, and_then, attempted, ignore, whole_read, whole_write, read_all,
  write_all,
}

-- A write succeeds or fails with an error code.
whole_write_cases :
    (n : ℕ) (ret : WriteRet)
    → (whole_write n ret ≡ ok tt) ⊎ ((e : Errno) × (whole_write n ret ≡ err e))
whole_write_cases n (wrote m) = elim (Bool-cases (m == n)) [
  | inl e ↦ inl (rw e refl)
  | inr e ↦ inr (eio, rw e refl)
]
whole_write_cases n (write_failed e) = inr (e, refl)

whole_read_cases :
    (n : ℕ) (ret : ReadRet)
    → ((bs : List ℕ) × (whole_read n ret ≡ ok bs)) ⊎ ((e : Errno) × (whole_read n ret ≡ err e))
whole_read_cases n (got bs) = elim (Bool-cases (length bs == n)) [
  | inl e ↦ inl (bs, rw e refl)
  | inr e ↦ inr (eio, rw e refl)
]
whole_read_cases n (read_failed e) = inr (e, refl)

module _ {k : Kernel} where
  -- Success or an error code, and the cursor and the count of reuses stay.
  pub record Tried {A : Type 0} (d : Device k) (r : Outcome A × Device k) : Type 0 where
    pub ends : ((a : A) × (r.0 ≡ ok a)) ⊎ ((e : Errno) × (r.0 ≡ err e))
    pub cursor : r.1.qcow2.alloc_offset ≡ d.qcow2.alloc_offset
    pub reused : r.1.stats.alloc_reused ≡ d.stats.alloc_reused

  pub write_all-Tried :
      (f : k.File) (bs : List ℕ) (pos : ℕ) (d : Device k) → Tried d (write_all f bs pos d)
  unfolding write_all
  write_all-Tried f bs pos d = record {
    ends = elim (whole_write_cases (length bs) (k.kernel_write f bs pos d.world).0) [
      | inl o ↦ inl (tt, o)
      | inr o ↦ inr o
    ];
    cursor = refl;
    reused = refl;
  }

  pub read_all-Tried : (f : k.File) (n pos : ℕ) (d : Device k) → Tried d (read_all f n pos d)
  unfolding read_all
  read_all-Tried f n pos d = record {
    ends = whole_read_cases n (k.kernel_read f n pos d.world).0;
    cursor = refl;
    reused = refl;
  }

  -- A sequence of two such calls is one.
  pub Tried-and_then :
      {A B : Type 0} (d : Device k) (r : Outcome A × Device k) (f : A → M k B)
      → Tried d r
      → ((a : A) (d' : Device k) → Tried d' (f a d'))
      → Tried d (and_then r f)
  Tried-and_then d (ok a, d') f t g =
      let after = g a d' in
      record {
        ends = after.ends;
        cursor = after.cursor ∙ t.cursor;
        reused = after.reused ∙ t.reused;
      }
  Tried-and_then d (err e, d') f t g = record {
    ends = inr (e, refl);
    cursor = t.cursor;
    reused = t.reused;
  }
  Tried-and_then d (oops, d') f t g = elim t.ends [
    | inl o ↦ absurd (ground arith)
    | inr o ↦ absurd (ground arith)
  ]

  -- A result, and the cursor and the count of reuses stay.
  pub record Sure {A : Type 0} (d : Device k) (r : Outcome A × Device k) : Type 0 where
    pub value : A
    pub ends : r.0 ≡ ok value
    pub cursor : r.1.qcow2.alloc_offset ≡ d.qcow2.alloc_offset
    pub reused : r.1.stats.alloc_reused ≡ d.stats.alloc_reused

  pub attempt-Sure :
      {A : Type 0} (d : Device k) (r : Outcome A × Device k) → Tried d r → Sure d (attempted r)
  attempt-Sure d (ok a, d') t = record {
    value = some a;
    ends = refl;
    cursor = t.cursor;
    reused = t.reused;
  }
  attempt-Sure d (err e, d') t = record {
    value = none;
    ends = refl;
    cursor = t.cursor;
    reused = t.reused;
  }
  attempt-Sure d (oops, d') t = elim t.ends [
    | inl o ↦ absurd (ground arith)
    | inr o ↦ absurd (ground arith)
  ]

  pub Sure-and_then :
      {A B : Type 0} (d : Device k) (r : Outcome A × Device k) (f : A → M k B)
      → Sure d r
      → ((a : A) (d' : Device k) → Sure d' (f a d'))
      → Sure d (and_then r f)
  Sure-and_then d (ok a, d') f t g =
      let after = g a d' in
      record {
        value = after.value;
        ends = after.ends;
        cursor = after.cursor ∙ t.cursor;
        reused = after.reused ∙ t.reused;
      }
  Sure-and_then d (err e, d') f t g = absurd (ground (arith, t.ends))
  Sure-and_then d (oops, d') f t g = absurd (ground (arith, t.ends))

  pub ignore-Sure : (m : M k (Unit {0})) (d : Device k) → Tried d (m d) → Sure d (ignore m d)
  ignore-Sure m d t =
      Sure-and_then d _ _ (attempt-Sure d (m d) t)
        (λ o d'. record { value = tt; ends = refl; cursor = refl; reused = refl })

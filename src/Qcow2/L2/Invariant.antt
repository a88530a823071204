-- ===== src/Qcow2/L2/Invariant.antt =====
-- The invariant of the L2 cache, and the states that differ from one with it in one entry.
use lbd.Prelude.{
  ℕ, ◌-◌, ◌<◌, ◌^◌, ◌≡◌, ◌≢◌, refl, ap, ◌∙◌, sym, inl, inr, true, false, not, ◌&&◌, Option, none,
  some, arith, if◌then◌else◌, length, subst, length-modify, get_or-modify_ne, Bool-cases, eq_or_ne,
}
use lbd.Kernel.{Kernel}
use lbd.Qcow2.State.{L2Entry, Qcow2, Device, Outcome, ok, err, oops, inc64}
use lbd.Qcow2.L2.{no_entry, l2_at, update_l2}

-- The cache has an entry, its time stamps are below the counter, and no two valid entries hold the
-- same table.
pub record L2Inv (q : Qcow2) : Type 0 where
  pub some_entry : 0 < length q.l2_cache
  pub ticks : (j : ℕ) → j < length q.l2_cache → (l2_at q j).lru < q.lru_tick
  pub distinct :
      (i j : ℕ)
      → i < length q.l2_cache
      → j < length q.l2_cache
      → (l2_at q i).valid ≡ true
      → (l2_at q j).valid ≡ true
      → (l2_at q i).l1_index ≡ (l2_at q j).l1_index
      → i ≡ j

-- The entries other than `i` are the same.
pub record OnlyAt (i : ℕ) (q q' : Qcow2) : Type 0 where
  pub size : length q'.l2_cache ≡ length q.l2_cache
  pub others : (j : ℕ) → i ≢ j → l2_at q' j ≡ l2_at q j

pub OnlyAt-refl : (i : ℕ) (q : Qcow2) → OnlyAt i q q
OnlyAt-refl i q = record { size = refl; others = λ j h. refl }

pub OnlyAt-trans : (i : ℕ) (q r s : Qcow2) → OnlyAt i q r → OnlyAt i r s → OnlyAt i q s
OnlyAt-trans i q r s a b = record {
  size = b.size ∙ a.size;
  others = λ j h. b.others j h ∙ a.others j h;
}

pub OnlyAt-update_l2 : (i : ℕ) (f : L2Entry → L2Entry) (q : Qcow2) → OnlyAt i q (update_l2 i f q)
OnlyAt-update_l2 i f q = record {
  size = length-modify q.l2_cache i f;
  others = λ j h. get_or-modify_ne q.l2_cache i j f no_entry h;
}

-- The result of a function that looks up the table `l1_index`.
abbrev pub Got : {k : Kernel} → ℕ → Outcome (Option ℕ) × Device k → Type 0
Got l1_index (ok none, d) = Unit {0}
Got l1_index (ok (some i), d) =
    (i < length d.qcow2.l2_cache)
    × ((l2_at d.qcow2 i).valid ≡ true)
    × ((l2_at d.qcow2 i).l1_index ≡ l1_index)
Got l1_index (err e, d) = ⊥
Got l1_index (oops, d) = ⊥

-- Eviction clears a dirty flag at most.
abbrev pub cleaned : ℕ → Qcow2 → Qcow2
cleaned i q =
    if not ((l2_at q i).valid && (l2_at q i).dirty)
    then q
    else update_l2 i (λ e. record e { dirty = false }) q

-- An entry takes the time stamp, and no other valid entry has its index.
pub restamped :
    (i : ℕ) (q q' : Qcow2)
    → L2Inv q
    → q.lru_tick < 2 ^ 64 - 1
    → OnlyAt i q q'
    → q'.lru_tick ≡ inc64 q.lru_tick
    → (l2_at q' i).lru ≡ q.lru_tick
    → ((j : ℕ)
        → i ≢ j
        → j < length q.l2_cache
        → (l2_at q j).valid ≡ true
        → (l2_at q j).l1_index ≢ (l2_at q' i).l1_index)
    → L2Inv q'
restamped i q q' inv small only tick stamp alone = record {
  some_entry = omega (arith, inv.some_entry, only.size);
  ticks = λ j h. elim (eq_or_ne i j) [
    | inl e ↦ subst (λ (n : ℕ). (l2_at q' n).lru < q'.lru_tick) e (omega arith)
    | inr ne ↦ omega (
      arith,
      ap (λ (e : L2Entry). e.lru) (only.others j ne),
      inv.ticks j (omega (arith, only.size)),
    )
  ];
  distinct = λ a b ha hb va vb e. elim (eq_or_ne i a) [
    | inl at_a ↦ elim (eq_or_ne i b) [
      | inl at_b ↦ omega arith
      | inr ne_b ↦ absurd (apart b ne_b hb vb (sym e ∙ index_at a at_a))
    ]
    | inr ne_a ↦ elim (eq_or_ne i b) [
      | inl at_b ↦ absurd (apart a ne_a ha va (e ∙ index_at b at_b))
      | inr ne_b ↦
          inv.distinct a b (omega (arith, only.size)) (omega (arith, only.size))
            (sym (ap (λ (e : L2Entry). e.valid) (only.others a ne_a)) ∙ va)
            (sym (ap (λ (e : L2Entry). e.valid) (only.others b ne_b)) ∙ vb)
            (sym (ap (λ (e : L2Entry). e.l1_index) (only.others a ne_a))
              ∙ e
              ∙ ap (λ (e : L2Entry). e.l1_index) (only.others b ne_b))
    ]
  ];
}
  where
    index_at : (j : ℕ) → i ≡ j → (l2_at q' j).l1_index ≡ (l2_at q' i).l1_index
    index_at j e = ap (λ (n : ℕ). (l2_at q' n).l1_index) (sym e)

    apart :
        (j : ℕ)
        → i ≢ j
        → j < length q'.l2_cache
        → (l2_at q' j).valid ≡ true
        → (l2_at q' j).l1_index ≢ (l2_at q' i).l1_index
    apart j ne h v e =
        alone j ne (omega (arith, only.size))
          (sym (ap (λ (e : L2Entry). e.valid) (only.others j ne)) ∙ v)
          (sym (ap (λ (e : L2Entry). e.l1_index) (only.others j ne)) ∙ e)

pub cleaned-OnlyAt :
    (i : ℕ) (q : Qcow2) → OnlyAt i q (cleaned i q) × ((cleaned i q).lru_tick ≡ q.lru_tick)
cleaned-OnlyAt i q = elim (Bool-cases (not ((l2_at q i).valid && (l2_at q i).dirty))) [
  | inl stays ↦ rw stays (OnlyAt-refl i q, refl)
  | inr dirty ↦ rw dirty (OnlyAt-update_l2 i _ q, refl)
]

-- ===== src/Qcow2/Cluster/Zero.antt =====
-- `lbd_qcow2_cl_get_zero`: an entry of the cluster cache for a cluster that starts out zeroed.
use lbd.Prelude.{
  ℕ, zero, suc, ◌-◌, ◌^◌, ◌<◌, ◌≡◌, ◌≢◌, refl, ap, ◌∙◌, sym, subst, ◌⊎◌, inl, inr, true, false,
  List, [], ◌∷◌, Option, none, some, arith, length, get_or, modify, length-modify,
  get_or-modify_self, get_or-modify_ne, eq_or_ne, Option-cases, replicate,
}
use lbd.Kernel.{Kernel}
use lbd.Qcow2.State.{
  ClEntry, Qcow2, Device, Outcome, ok, M, pure, get_qcow2, set_qcow2, inc64, crash, ◌>>=◌, ◌>>◌,
}
use lbd.Qcow2.Cache.{find_entry, victim}
use lbd.Qcow2.Cache.Search.{find_entry-some, find_entry-none, victim-IsVictim}
use lbd.Qcow2.Cluster.{
  no_cluster, cl_at, update_cl, touch_cl, put_cl, cl_find, cl_alloc_entry, cl_claim, cl_get_zero,
}
use lbd.Qcow2.Cluster.Invalidate.{Distinct}

-- The cache has an entry, its time stamps are below the counter, and it holds no cluster twice.
pub record ClInv (q : Qcow2) : Type 0 where
  pub some_entry : 0 < length q.cl_cache
  pub ticks : (j : ℕ) → j < length q.cl_cache → (cl_at q j).lru < q.lru_tick
  pub distinct : Distinct q

-- Entry `i` holds the cluster.
pub record Holds (i cluster_index : ℕ) (q : Qcow2) : Type 0 where
  pub inside : i < length q.cl_cache
  pub valid : (cl_at q i).valid ≡ true
  pub index : (cl_at q i).cluster_index ≡ cluster_index

modify-modify :
    (xs : List ClEntry) (i : ℕ) (f g : ClEntry → ClEntry)
    → modify (modify xs i f) i g ≡ modify xs i (λ x. g (f x))
modify-modify [] i f g = refl
modify-modify (x ∷ xs) zero f g = refl
modify-modify (x ∷ xs) (suc i) f g = ap (λ (l : List ClEntry). x ∷ l) (modify-modify xs i f g)

-- One entry is replaced by a valid one that holds the cluster, with the counter as time stamp, where
-- no other valid entry holds it.
replaced :
    (i cluster_index : ℕ) (f : ClEntry → ClEntry) (q q' : Qcow2)
    → ClInv q
    → q.lru_tick < 2 ^ 64 - 1
    → i < length q.cl_cache
    → q'.cl_cache ≡ modify q.cl_cache i f
    → q'.lru_tick ≡ inc64 q.lru_tick
    → ((f (cl_at q i)).valid ≡ true)
      × ((f (cl_at q i)).cluster_index ≡ cluster_index)
      × ((f (cl_at q i)).lru ≡ q.lru_tick)
    → ((j : ℕ)
        → i ≢ j
        → j < length q.cl_cache
        → (cl_at q j).valid ≡ true
        → (cl_at q j).cluster_index ≢ cluster_index)
    → Holds i cluster_index q' × ClInv q' × (cl_at q' i ≡ f (cl_at q i))
replaced i c f q q' inv small h eq tick (v, num, stamp) alone = (
  record {
    inside = omega (arith, size, h);
    valid = ap (λ (e : ClEntry). e.valid) at ∙ v;
    index = ap (λ (e : ClEntry). e.cluster_index) at ∙ num;
  },
  record {
    some_entry = omega (arith, inv.some_entry, size);
    ticks = λ j l. elim (eq_or_ne i j) [
      | inl e ↦
          subst (λ (n : ℕ). (cl_at q' n).lru < q'.lru_tick) e
            (omega (arith, ap (λ (e : ClEntry). e.lru) at))
      | inr ne ↦
          omega (arith, ap (λ (e : ClEntry). e.lru) (other j ne), inv.ticks j (omega (arith, size)))
    ];
    distinct = λ a b ha hb va vb e. elim (eq_or_ne i a) [
      | inl at_a ↦ elim (eq_or_ne i b) [
        | inl at_b ↦ omega arith
        | inr ne ↦ absurd (apart b ne hb vb (sym e ∙ index_at a at_a))
      ]
      | inr na ↦ elim (eq_or_ne i b) [
        | inl at_b ↦ absurd (apart a na ha va (e ∙ index_at b at_b))
        | inr nb ↦
            inv.distinct a b (omega (arith, size)) (omega (arith, size))
              (sym (ap (λ (e : ClEntry). e.valid) (other a na)) ∙ va)
              (sym (ap (λ (e : ClEntry). e.valid) (other b nb)) ∙ vb)
              (sym (ap (λ (e : ClEntry). e.cluster_index) (other a na))
                ∙ e
                ∙ ap (λ (e : ClEntry). e.cluster_index) (other b nb))
      ]
    ];
  },
  at,
)
  where
    size : length q'.cl_cache ≡ length q.cl_cache
    size = ap length eq ∙ length-modify q.cl_cache i f

    at : cl_at q' i ≡ f (cl_at q i)
    at = ap (λ l. get_or l i no_cluster) eq ∙ get_or-modify_self q.cl_cache i f no_cluster h

    other : (j : ℕ) → i ≢ j → cl_at q' j ≡ cl_at q j
    other j ne =
        ap (λ l. get_or l j no_cluster) eq ∙ get_or-modify_ne q.cl_cache i j f no_cluster ne

    index_at : (j : ℕ) → i ≡ j → (cl_at q' j).cluster_index ≡ c
    index_at j e =
        ap (λ (n : ℕ). (cl_at q' n).cluster_index) (sym e)
        ∙ ap (λ (e : ClEntry). e.cluster_index) at
        ∙ num

    apart :
        (j : ℕ)
        → i ≢ j
        → j < length q'.cl_cache
        → (cl_at q' j).valid ≡ true
        → (cl_at q' j).cluster_index ≢ c
    apart j ne l w e =
        alone j ne (omega (arith, size)) (sym (ap (λ (e : ClEntry). e.valid) (other j ne)) ∙ w)
          (sym (ap (λ (e : ClEntry). e.cluster_index) (other j ne)) ∙ e)

-- The entry filled for a cluster that was not in the cache.
abbrev zeroed : ℕ → Qcow2 → ClEntry → ClEntry
zeroed cluster_index q e = record {
  cluster_index = cluster_index;
  valid = true;
  dirty = false;
  lru = q.lru_tick;
  bytes = replicate q.cluster_size 0;
}

modify_five :
    (xs : List ClEntry) (i : ℕ) (a b c d e : ClEntry → ClEntry)
    → modify (modify (modify (modify (modify xs i a) i b) i c) i d) i e
      ≡ modify xs i (λ x. e (d (c (b (a x)))))
modify_five xs i a b c d e =
    modify-modify _ i d e
    ∙ modify-modify _ i c (λ x. e (d x))
    ∙ modify-modify _ i b (λ x. e (d (c x)))
    ∙ modify-modify xs i a (λ x. e (d (c (b x))))

-- The contents of an entry: those it had where it held the cluster before, and zeros where no entry
-- held it.
abbrev pub Filled : (i cluster_index : ℕ) → Qcow2 → Qcow2 → Type 0
Filled i cluster_index q q' =
    (Holds i cluster_index q × ((cl_at q' i).bytes ≡ (cl_at q i).bytes))
    ⊎ (((j : ℕ)
          → j < length q.cl_cache
          → (cl_at q j).valid ≡ true
          → (cl_at q j).cluster_index ≢ cluster_index)
        × ((cl_at q' i).bytes ≡ replicate q.cluster_size 0))

module _ {k : Kernel} where
  -- `cl_claim` and `cl_get_zero` with the results of their searches.
  abbrev claim_found : ℕ → Option ℕ → M k ℕ
  claim_found cluster_index unused = do
    i ← elim unused as (λ x. M k ℕ) [
      | some i ↦ (do set_qcow2 (update_cl i (λ e. record e { valid = false })); pure i)
      | none ↦ crash
    ]
    set_qcow2 (update_cl i (λ e. record e { cluster_index = cluster_index }))
    touch_cl i
    set_qcow2 (update_cl i (λ e. record e { dirty = false }))
    pure i

  abbrev zero_found : Option ℕ → M k ℕ → M k ℕ
  zero_found first claim = do
    hit ← elim first as (λ x. M k (Option ℕ)) [
      | some i ↦ (do touch_cl i; pure (some i))
      | none ↦ pure none
    ]
    elim hit [
      | some i ↦ pure i
      | none ↦ (do i ← claim; q ← get_qcow2; put_cl i (replicate q.cluster_size 0) true; pure i)
    ]

  abbrev pub Ready : ℕ → Device k → Outcome ℕ × Device k → Type 0
  Ready cluster_index d r =
      (i : ℕ) × (r.0 ≡ ok i)
      × Holds i cluster_index r.1.qcow2
      × ClInv r.1.qcow2
      × Filled i cluster_index d.qcow2 r.1.qcow2

  zero_found-miss :
      (cluster_index i : ℕ) (d : Device k)
      → (zero_found none (claim_found cluster_index (some i)) d).1.qcow2.cl_cache
        ≡ modify d.qcow2.cl_cache i (zeroed cluster_index d.qcow2)
  zero_found-miss cluster_index i d = modify_five d.qcow2.cl_cache i _ _ _ _ _

  -- From a state that keeps the cache's invariant and whose counter of uses is not about to wrap, an
  -- entry is returned that holds the cluster, without a crash, and the invariant holds again: the entry
  -- that held the cluster before, with its contents, or an entry filled with zeros where none held it.
  pub cl_get_zero-Ready :
      (cluster_index : ℕ) (d : Device k)
      → ClInv d.qcow2
      → d.qcow2.lru_tick < 2 ^ 64 - 1
      → Ready cluster_index d (cl_get_zero cluster_index d)
  unfolding cl_get_zero cl_find cl_claim cl_alloc_entry
  cl_get_zero-Ready cluster_index d inv small =
      let q = d.qcow2 in
      let first = find_entry (λ e. e.valid) (λ e. e.cluster_index) q.cl_cache cluster_index in
      let second = victim (λ e. e.valid) (λ e. e.lru) q.cl_cache in
      let (i, found, is) =
        victim-IsVictim (λ (e : ClEntry). e.valid) no_cluster (λ e. e.lru) q.cl_cache inv.some_entry
          (λ j h. omega (arith, inv.ticks j h)) in
      elim (Option-cases first) [
        | inl miss ↦
            subst
              (λ (a : Option ℕ). Ready cluster_index d (zero_found a (cl_claim cluster_index) d))
              (sym miss)
              (subst
                (λ (b : Option ℕ).
                  Ready cluster_index d (zero_found none (claim_found cluster_index b) d))
                (sym found)
                (let (holds, inv', at) =
                    replaced i cluster_index (zeroed cluster_index q) q
                      (zero_found none (claim_found cluster_index (some i)) d).1.qcow2 inv small
                      is.inside (zero_found-miss cluster_index i d) refl (refl, refl, refl)
                      (λ j n l v.
                        find_entry-none (λ (e : ClEntry). e.valid) no_cluster (λ e. e.cluster_index)
                          q.cl_cache cluster_index miss j l v) in
                  (
                    i,
                    refl,
                    holds,
                    inv',
                    inr (
                      find_entry-none (λ (e : ClEntry). e.valid) no_cluster (λ e. e.cluster_index)
                          q.cl_cache cluster_index miss,
                      ap (λ (e : ClEntry). e.bytes) at,
                    ),
                  )))
        | inr (i, hit) ↦
            let (h, v, num) =
              find_entry-some (λ (e : ClEntry). e.valid) no_cluster (λ e. e.cluster_index)
                q.cl_cache cluster_index i hit in
            subst
              (λ (a : Option ℕ). Ready cluster_index d (zero_found a (cl_claim cluster_index) d))
              (sym hit)
              (let (holds, inv', at) =
                  replaced i cluster_index (λ e. record e { lru = q.lru_tick }) q
                    (zero_found (some i) (cl_claim cluster_index) d).1.qcow2 inv small h refl refl
                    (v, num, refl) (λ j n l w e. n (inv.distinct i j h l v w (num ∙ sym e))) in
                (
                  i,
                  refl,
                  holds,
                  inv',
                  inl (
                    record { inside = h; valid = v; index = num },
                    ap (λ (e : ClEntry). e.bytes) at,
                  ),
                ))
      ]

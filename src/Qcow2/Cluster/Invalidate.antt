-- ===== src/Qcow2/Cluster/Invalidate.antt =====
-- `lbd_qcow2_cl_invalidate`: a cluster that is trimmed leaves the cache.
use lbd.Prelude.{
  ℕ, ◌<◌, ◌≡◌, ◌≢◌, refl, ap, ◌∙◌, sym, subst, inl, inr, true, false, Option, none, some, arith,
  length, length-modify, get_or-modify_self, get_or-modify_ne, eq_or_ne, Option-cases,
}
use lbd.Kernel.{Kernel}
use lbd.Qcow2.State.{ClEntry, Qcow2, Device, Outcome, ok, M, pure, set_qcow2}
use lbd.Qcow2.Cache.{find_entry}
use lbd.Qcow2.Cache.Search.{find_entry-some, find_entry_misses}
use lbd.Qcow2.Cluster.{no_cluster, cl_at, update_cl, cl_invalidate}

-- No two valid entries hold the same cluster.
abbrev pub Distinct : Qcow2 → Type 0
Distinct q =
    (i j : ℕ)
    → i < length q.cl_cache
    → j < length q.cl_cache
    → (cl_at q i).valid ≡ true
    → (cl_at q j).valid ≡ true
    → (cl_at q i).cluster_index ≡ (cl_at q j).cluster_index
    → i ≡ j

abbrev dropped : ℕ → Qcow2 → Qcow2
dropped i q = update_cl i (λ e. record e { valid = false }) q

-- A valid entry afterwards is another one, and was there before.
dropped-valid :
    (i j : ℕ) (q : Qcow2)
    → i < length q.cl_cache
    → (cl_at (dropped i q) j).valid ≡ true
    → (i ≢ j) × (cl_at (dropped i q) j ≡ cl_at q j)
dropped-valid i j q h v = elim (eq_or_ne i j) [
  | inr ne ↦ (ne, get_or-modify_ne q.cl_cache i j _ no_cluster ne)
  | inl e ↦
      let at : cl_at (dropped i q) i ≡ record (cl_at q i) { valid = false } =
        get_or-modify_self q.cl_cache i _ no_cluster h in
      let v' : (cl_at (dropped i q) i).valid ≡ true =
        subst (λ (n : ℕ). (cl_at (dropped i q) n).valid ≡ true) (sym e) v in
      absurd (ground (arith, sym (ap (λ (e : ClEntry). e.valid) at) ∙ v'))
]

dropped-Distinct : (i : ℕ) (q : Qcow2) → i < length q.cl_cache → Distinct q → Distinct (dropped i q)
dropped-Distinct i q h distinct a b ha hb va vb e =
    let size : length (dropped i q).cl_cache ≡ length q.cl_cache = length-modify q.cl_cache i _ in
    let (na, sa) = dropped-valid i a q h va in
    let (nb, sb) = dropped-valid i b q h vb in
    distinct a b (omega (arith, size)) (omega (arith, size))
      (sym (ap (λ (e : ClEntry). e.valid) sa) ∙ va) (sym (ap (λ (e : ClEntry). e.valid) sb) ∙ vb)
      (sym (ap (λ (e : ClEntry). e.cluster_index) sa)
        ∙ e
        ∙ ap (λ (e : ClEntry). e.cluster_index) sb)

-- The entry dropped was the only one that held the cluster.
dropped_misses :
    (i cluster_index : ℕ) (q : Qcow2)
    → Distinct q
    → find_entry (λ e. e.valid) (λ e. e.cluster_index) q.cl_cache cluster_index ≡ some i
    → find_entry (λ e. e.valid) (λ e. e.cluster_index) (dropped i q).cl_cache cluster_index ≡ none
dropped_misses i cluster_index q distinct hit =
    let (h, v, num) =
      find_entry-some (λ (e : ClEntry). e.valid) no_cluster (λ e. e.cluster_index) q.cl_cache
        cluster_index i hit in
    let size : length (dropped i q).cl_cache ≡ length q.cl_cache = length-modify q.cl_cache i _ in
    find_entry_misses (λ (e : ClEntry). e.valid) no_cluster (λ e. e.cluster_index)
      (dropped i q).cl_cache cluster_index
      (λ j l w e.
        let (ne, same) = dropped-valid i j q h w in
        ne (
          distinct i j h (omega (arith, size)) v (sym (ap (λ (e : ClEntry). e.valid) same) ∙ w)
            (num ∙ sym e ∙ ap (λ (e : ClEntry). e.cluster_index) same)))

module _ {k : Kernel} where
  -- The rest of `cl_invalidate` behind the search.
  abbrev search_ends : Option ℕ → M k (Unit {0})
  search_ends hit = elim hit [
    | some i ↦ set_qcow2 (update_cl i (λ e. record e { valid = false }))
    | none ↦ pure tt
  ]

  -- In a cache that holds no cluster twice, invalidating a cluster succeeds; it is no longer
  -- found, and the cache holds no cluster twice.
  pub cl_invalidate-find_entry :
      (cluster_index : ℕ) (d : Device k)
      → Distinct d.qcow2
      → ((cl_invalidate cluster_index d).0 ≡ ok tt)
        × (find_entry
              (λ e. e.valid)
              (λ e. e.cluster_index)
              (cl_invalidate cluster_index d).1.qcow2.cl_cache
              cluster_index
            ≡ none)
        × Distinct (cl_invalidate cluster_index d).1.qcow2
  unfolding cl_invalidate
  cl_invalidate-find_entry cluster_index d distinct =
      let q = d.qcow2 in
      let first = find_entry (λ e. e.valid) (λ e. e.cluster_index) q.cl_cache cluster_index in
      elim (Option-cases first) [
        | inl miss ↦
            subst (λ (o : Option ℕ). Gone (search_ends o d)) (sym miss) (refl, miss, distinct)
        | inr (i, hit) ↦
            subst (λ (o : Option ℕ). Gone (search_ends o d)) (sym hit)
              (
                refl,
                dropped_misses i cluster_index q distinct hit,
                dropped-Distinct i q
                    (find_entry-some (λ (e : ClEntry). e.valid) no_cluster (λ e. e.cluster_index)
                      q.cl_cache cluster_index i hit).0
                    distinct,
              )
      ]
    where
      Gone : Outcome (Unit {0}) × Device k → Type 0
      Gone r =
          (r.0 ≡ ok tt)
          × (find_entry (λ e. e.valid) (λ e. e.cluster_index) r.1.qcow2.cl_cache cluster_index
              ≡ none)
          × Distinct r.1.qcow2

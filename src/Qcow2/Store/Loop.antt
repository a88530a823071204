-- ===== src/Qcow2/Store/Loop.antt =====
-- The loops of the write path and of the trim path end by themselves.
use lbd.Prelude.{
  ℕ, zero, suc, ◌+◌, ◌-◌, ◌/◌, ◌%◌, ◌^◌, ◌≤◌, ◌<◌, ◌≡◌, refl, inl, inr, ◌&&◌, List, arith, ◌==◌,
  if◌then◌else◌, length, length-drop, take, drop, Bool-cases,
}
use Prim.Native.Nat.{min}
use lbd.Kernel.{Kernel}
use lbd.Qcow2.State.{Device, M, pure, ignore}
use lbd.Qcow2.Space.{free_extent}
use lbd.Qcow2.Cluster.{cl_invalidate}
use lbd.Qcow2.Read.Size.{
  Keeps, and_then-SameSize, and_then-same, attempt-Keeps, if-Keeps, cl_load-Keeps, l2_get-Keeps,
}
use lbd.Qcow2.Store.{
  write_chunk, write_loop, set_l2_entry, clear_entry, discard_cluster, discard_part, discard_loop,
}
use lbd.Qcow2.Store.Size.{
  l2_alloc-Keeps, load_for_write-Keeps, update_cluster-Keeps, l2_flush-Keeps, free_extent-Keeps,
  read_old_alloc_size-Keeps,
}

module _ {k : Kernel} where
  ignore-Keeps : (m : M k (Unit {0})) → Keeps m → Keeps (ignore m)
  ignore-Keeps m h d = and_then-SameSize d _ (λ x. pure tt) (attempt-Keeps m h d) (λ x d'. refl)

  write_chunk-Keeps : (c off : ℕ) (bytes : List ℕ) → Keeps {k = k} (write_chunk c off bytes)
  unfolding write_chunk
  write_chunk-Keeps c off bytes d = grind (
    arith,
    l2_alloc-Keeps,
    load_for_write-Keeps,
    l2_get-Keeps,
    update_cluster-Keeps (λ m. m) (λ m h. h),
  )

  write_rounds :
      (f g off : ℕ) (bytes : List ℕ) (d : Device k)
      → length bytes ≤ f
      → length bytes ≤ g
      → 0 < d.qcow2.cluster_size
      → write_loop f off bytes d ≡ write_loop g off bytes d
  unfolding write_loop
  write_rounds zero zero off bytes d h h' size = refl
  write_rounds zero (suc g) off bytes d h h' size =
      let e : length bytes ≡ 0 = omega arith in rw e refl
  write_rounds (suc f) zero off bytes d h h' size =
      let e : length bytes ≡ 0 = omega arith in rw e refl
  write_rounds (suc f) (suc g) off bytes d h h' size = elim (Bool-cases (length bytes == 0)) [
    | inl e ↦ rw e refl
    | inr e ↦
        let cs = d.qcow2.cluster_size in
        let o = off % cs in
        let n = min (length bytes) (cs - o) in
        let c = off / 2 ^ d.qcow2.cluster_bits in
        let some_bytes : 0 < n = ground arith in
        rw e (
          and_then-same d (write_chunk c o (take n bytes) d)
            (λ x. write_loop f (off + n) (drop n bytes))
            (λ x. write_loop g (off + n) (drop n bytes)) (write_chunk-Keeps c o (take n bytes) d)
            (λ x d' s.
              write_rounds f g (off + n) (drop n bytes) d' (omega (arith, length-drop n bytes))
                (omega (arith, length-drop n bytes)) (omega (arith, s))))
  ]

  cl_invalidate-Keeps : (c : ℕ) → Keeps {k = k} (cl_invalidate c)
  unfolding cl_invalidate
  cl_invalidate-Keeps c d = ground arith

  ignored_free-Keeps : (p n : ℕ) → Keeps {k = k} (ignore (free_extent p n))
  ignored_free-Keeps p n = ignore-Keeps (free_extent p n) (free_extent-Keeps p n)

  clear_entry-Keeps : (i l : ℕ) → Keeps {k = k} (clear_entry i l)
  unfolding clear_entry set_l2_entry
  clear_entry-Keeps i l d =
      grind (arith, read_old_alloc_size-Keeps, ignored_free-Keeps, l2_flush-Keeps)

  discard_cluster-Keeps : (c : ℕ) → Keeps {k = k} (discard_cluster c)
  unfolding discard_cluster
  discard_cluster-Keeps c d = grind (arith, l2_get-Keeps, clear_entry-Keeps, cl_invalidate-Keeps)

  discard_part-Keeps : (c off n : ℕ) → Keeps {k = k} (discard_part c off n)
  unfolding discard_part
  discard_part-Keeps c off n d =
      grind (
        arith,
        l2_alloc-Keeps,
        cl_load-Keeps,
        l2_get-Keeps,
        update_cluster-Keeps ignore ignore-Keeps,
      )

  discard_rounds :
      (f g off rem : ℕ) (d : Device k)
      → rem ≤ f
      → rem ≤ g
      → 0 < d.qcow2.cluster_size
      → discard_loop f off rem d ≡ discard_loop g off rem d
  unfolding discard_loop
  discard_rounds zero zero off rem d h h' size = refl
  discard_rounds zero (suc g) off rem d h h' size = let e : rem ≡ 0 = omega arith in rw e refl
  discard_rounds (suc f) zero off rem d h h' size = let e : rem ≡ 0 = omega arith in rw e refl
  discard_rounds (suc f) (suc g) off rem d h h' size = elim (Bool-cases (rem == 0)) [
    | inl e ↦ rw e refl
    | inr e ↦
        let cs = d.qcow2.cluster_size in
        let o = off % cs in
        let n = min rem (cs - o) in
        let c = off / 2 ^ d.qcow2.cluster_bits in
        let some_bytes : 0 < n = ground arith in
        rw e (
          and_then-same d ((if o == 0 && n == cs then discard_cluster c else discard_part c o n) d)
            (λ x. discard_loop f (off + n) (rem - n)) (λ x. discard_loop g (off + n) (rem - n))
            (if-Keeps (o == 0 && n == cs) (discard_cluster c) (discard_part c o n)
              (discard_cluster-Keeps c) (discard_part-Keeps c o n) d)
            (λ x d' s.
              discard_rounds f g (off + n) (rem - n) d' (omega arith) (omega arith)
                (omega (arith, s))))
  ]

  -- Where clusters have bytes, the loops over a write and over a trim end by themselves within as many
  -- rounds as there are bytes left, whatever reads, writes and allocations give: more fuel changes
  -- neither their result nor the device.
  pub request_loops_enough :
      (fuel off remaining : ℕ) (bytes : List ℕ) (d : Device k)
      → length bytes ≤ fuel
      → remaining ≤ fuel
      → 0 < d.qcow2.cluster_size
      → (write_loop fuel off bytes d ≡ write_loop (length bytes) off bytes d)
        × (discard_loop fuel off remaining d ≡ discard_loop remaining off remaining d)
  request_loops_enough fuel off remaining bytes d h h' size = (
    write_rounds fuel (length bytes) off bytes d h (omega arith) size,
    discard_rounds fuel remaining off remaining d h' (omega arith) size,
  )

-- ===== src/Qcow2/Read/Loop.antt =====
-- The loop over a segment ends by itself.
use lbd.Prelude.{
  ℕ, zero, suc, ◌+◌, ◌-◌, ◌/◌, ◌%◌, ◌^◌, ◌≤◌, ◌<◌, ◌≡◌, refl, ap, inl, inr, List, ◌++◌, arith, ◌==◌,
  take, drop, replicate, Bool-cases,
}
use Prim.Native.Nat.{min}
use lbd.Kernel.{Kernel, eio}
use lbd.Qcow2.State.{Device, Outcome, M, pure, fail, ◌>>=◌, ◌>>◌, get_qcow2, and_then}
use lbd.Qcow2.Cluster.{Loaded, entry, null, enodata, cl_at, cl_load}
use lbd.Qcow2.Read.{
  MissAction, continue, retry, invalidate_for_retry, try_chunk, read_chunk, read_segment,
}
use lbd.Qcow2.Read.Size.{
  Keeps, and_then-SameSize, and_then-same, cl_load-Keeps, invalidate_for_retry-Keeps,
}

module _ {k : Kernel} (handle_miss : ℕ → M k MissAction)
    (kept : (c : ℕ) → Keeps (handle_miss c)) where
  try_chunk-Keeps :
      (again : M k (List ℕ)) (c off n : ℕ)
      → Keeps again
      → Keeps (try_chunk handle_miss again c off n)
  unfolding try_chunk
  try_chunk-Keeps again c off n h d =
      and_then-SameSize d (cl_load c d) after (cl_load-Keeps c d) after-Keeps
    where
      act : MissAction → M k (List ℕ)
      act continue = pure (replicate n 0)
      act retry = again

      act-Keeps : (a : MissAction) → Keeps (act a)
      act-Keeps continue d' = refl
      act-Keeps retry d' = h d'

      after : Loaded → M k (List ℕ)
      after (entry i) = (do q ← get_qcow2; pure (take n (drop off (cl_at q i).bytes)))
      after null = fail eio
      after enodata = handle_miss c >>= act

      after-Keeps : (l : Loaded) → Keeps (after l)
      after-Keeps (entry i) d' = refl
      after-Keeps null d' = refl
      after-Keeps enodata d' = and_then-SameSize d' (handle_miss c d') act (kept c d') act-Keeps

  read_chunk-Keeps : (left c off n : ℕ) → Keeps (read_chunk handle_miss left c off n)
  unfolding read_chunk
  read_chunk-Keeps zero c off n d = try_chunk-Keeps (pure (replicate n 0)) c off n (λ d'. refl) d
  read_chunk-Keeps (suc left) c off n d =
      try_chunk-Keeps (do invalidate_for_retry c; read_chunk handle_miss left c off n) c off n
        (λ d'.
          and_then-SameSize d' (invalidate_for_retry c d')
            (λ x. read_chunk handle_miss left c off n) (invalidate_for_retry-Keeps c d')
            (λ x. read_chunk-Keeps left c off n))
        d

  -- The body of a round with the loop that follows it.
  abbrev round : M k (List ℕ) → (chunk : List ℕ) → M k (List ℕ)
  round loop chunk = loop >>= λ rest. pure (chunk ++ rest)

  same_rounds :
      (f g off rem : ℕ) (d : Device k)
      → rem ≤ f
      → rem ≤ g
      → 0 < d.qcow2.cluster_size
      → read_segment handle_miss f off rem d ≡ read_segment handle_miss g off rem d
  unfolding read_segment
  same_rounds zero zero off rem d h h' size = refl
  same_rounds zero (suc g) off rem d h h' size = let e : rem ≡ 0 = omega arith in rw e refl
  same_rounds (suc f) zero off rem d h h' size = let e : rem ≡ 0 = omega arith in rw e refl
  same_rounds (suc f) (suc g) off rem d h h' size = elim (Bool-cases (rem == 0)) [
    | inl e ↦ rw e refl
    | inr e ↦
        let cs = d.qcow2.cluster_size in
        let o = off % cs in
        let b = min rem (cs - o) in
        let c = off / 2 ^ d.qcow2.cluster_bits in
        let some_bytes : 0 < b = ground arith in
        rw e (
          and_then-same d (read_chunk handle_miss 3 c o b d)
            (round (read_segment handle_miss f (off + b) (rem - b)))
            (round (read_segment handle_miss g (off + b) (rem - b))) (read_chunk-Keeps 3 c o b d)
            (λ chunk d' s.
              ap (λ (x : Outcome (List ℕ) × Device k). and_then x (λ rest. pure (chunk ++ rest)))
                (same_rounds f g (off + b) (rem - b) d' (omega arith) (omega arith)
                  (omega (arith, s)))))
  ]

  -- Where clusters have bytes, and the miss handler leaves their size alone, the loop over a segment
  -- ends by itself within as many rounds as there are bytes left, whatever the reads give: more fuel
  -- changes neither its result nor the device.
  pub read_segment_enough :
      (fuel off remaining : ℕ) (d : Device k)
      → remaining ≤ fuel
      → 0 < d.qcow2.cluster_size
      → read_segment handle_miss fuel off remaining d
        ≡ read_segment handle_miss remaining off remaining d
  read_segment_enough fuel off remaining d h size =
      same_rounds fuel remaining off remaining d h (omega arith) size

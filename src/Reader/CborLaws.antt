-- ===== src/Reader/CborLaws.antt =====
-- The CBOR readers of src/lbdctl.c on the bytes of heads, numbers and texts.
use lbd.Prelude.{
  ℕ, zero, suc, ◌+◌, ◌*◌, ◌/◌, ◌%◌, ◌^◌, ◌<◌, ◌≡◌, refl, sym, subst, inl, inr, false, List, [], ◌∷◌,
  arith, length, leb, ◌==◌, if◌then◌else◌, get_or, append-nil, ==_refl, lt_or_le, not-le→leb,
  lt→ltb,
}
use lbd.Format.{get16, get32, get64}
use lbd.Cbor.Head.{head_bytes, big_endian, arg_width, size_code}
use lbd.Cbor.Items.{map_of, uint, text, bytes_hdr}
use lbd.Cbor.Items.Laws.{item_bytes}
use lbd.Reader.{Input, pure, fail, ◌>>=◌, next_bytes}
use lbd.Reader.Cbor.{
  read_arg, cbor_read_head, of_major, cbor_read_uint, cbor_read_bytes_hdr, cbor_read_map,
  some_bytes, cbor_read_text,
}
use lbd.Reader.Laws.{Serves}
use lbd.Reader.Parses.{
  Parses, Parses-pure, Parses-bind, Parses-bytes, first_bytes-Parses, next_bytes-Parses,
}

length-big_endian : (n v : ℕ) → n ≡ length (big_endian n v)
unfolding big_endian
length-big_endian zero v = refl
length-big_endian (suc n) v = omega (arith, length-big_endian n v)

module _ {input : Input} (s : Serves input) where
  -- `n` bytes behind the head, of which `get` makes the number.
  read_big_endian :
      (n v : ℕ) (get : List ℕ → ℕ)
      → get (big_endian n v) ≡ v
      → Parses s (next_bytes input n >>= λ b. pure (get b)) (big_endian n v) v
  read_big_endian n v get e =
      subst (λ (u : ℕ). Parses s (next_bytes input n >>= λ b. pure (get b)) (big_endian n v) u) e
        (Parses-bytes s (append-nil (big_endian n v)) (
          Parses-bind s (λ b. pure (get b))
            (next_bytes-Parses s n (big_endian n v) (length-big_endian n v))
            (Parses-pure s (get (big_endian n v)))))

  by_code :
      (v c n : ℕ)
      → size_code v ≡ c
      → arg_width v ≡ n
      → Parses s (read_arg input c) (big_endian n v) v
      → Parses s (read_arg input (size_code v)) (big_endian (arg_width v) v) v
  by_code v c n e f p =
      subst (λ (c : ℕ). Parses s (read_arg input c) (big_endian (arg_width v) v) v) (sym e)
        (subst (λ (n : ℕ). Parses s (read_arg input c) (big_endian n v) v) (sym f) p)

  read_arg-Parses :
      (v : ℕ) → v < 2 ^ 64 → Parses s (read_arg input (size_code v)) (big_endian (arg_width v) v) v
  unfolding read_arg big_endian get16 get32 get64
  read_arg-Parses v h = elim (lt_or_le v 24) [
    | inl a ↦ by_code v v 0 (ground arith) (ground arith) (rw (lt→ltb v 24 a) (Parses-pure s v))
    | inr a ↦ elim (lt_or_le v (2 ^ 8)) [
      | inl b ↦
          by_code v 24 1 (ground arith) (ground arith)
            (read_big_endian 1 v (λ b. get_or b 0 0) (omega arith))
      | inr b ↦ elim (lt_or_le v (2 ^ 16)) [
        | inl c ↦
            by_code v 25 2 (ground arith) (ground arith)
              (read_big_endian 2 v (λ b. get16 b 0) (omega arith))
        | inr c ↦ elim (lt_or_le v (2 ^ 32)) [
          | inl d ↦
              by_code v 26 4 (ground arith) (ground arith)
                (read_big_endian 4 v (λ b. get32 b 0) (omega arith))
          | inr d ↦
              by_code v 27 8 (ground arith) (ground arith)
                (read_big_endian 8 v (λ b. get64 b 0) (omega arith))
        ]
      ]
    ]
  ]

  pub cbor_read_head-Parses :
      (major v : ℕ)
      → major < 8
      → v < 2 ^ 64
      → Parses s (cbor_read_head input) (head_bytes major v) (major, v)
  unfolding cbor_read_head head_bytes
  cbor_read_head-Parses major v m h =
      Parses-bind s
        (λ ib. read_arg input (get_or ib 0 0 % 32) >>= λ val. pure (get_or ib 0 0 / 32, val))
        (first_bytes-Parses s 1 ((major * 32 + size_code v) ∷ []) refl)
        (rw (low, high)
          (Parses-bytes s (append-nil (big_endian (arg_width v) v)) (
            Parses-bind s (λ val. pure (major, val)) (read_arg-Parses v h)
              (Parses-pure s (major, v)))))
    where
      code : size_code v < 32
      code = ground arith

      low : (major * 32 + size_code v) % 32 ≡ size_code v
      low = omega (arith, code)

      high : (major * 32 + size_code v) / 32 ≡ major
      high = omega (arith, code)

  of_major-Parses :
      (major v : ℕ)
      → major < 8
      → v < 2 ^ 64
      → Parses s (cbor_read_head input >>= of_major input major) (head_bytes major v) v
  of_major-Parses major v m h = Parses-bytes s (append-nil (head_bytes major v)) (
      Parses-bind s (of_major input major) (cbor_read_head-Parses major v m h)
        (rw (==_refl major) (Parses-pure s v)))

  pub cbor_read_uint-Parses :
      (v : ℕ) → v < 2 ^ 64 → Parses s (cbor_read_uint input) (item_bytes (uint v)) v
  unfolding cbor_read_uint item_bytes
  cbor_read_uint-Parses v h = of_major-Parses 0 v (omega arith) h

  pub cbor_read_map-Parses :
      (n : ℕ) → n < 2 ^ 64 → Parses s (cbor_read_map input) (item_bytes (map_of n)) n
  unfolding cbor_read_map item_bytes
  cbor_read_map-Parses n h = of_major-Parses 5 n (omega arith) h

  pub cbor_read_bytes_hdr-Parses :
      (n : ℕ) → n < 2 ^ 64 → Parses s (cbor_read_bytes_hdr input) (item_bytes (bytes_hdr n)) n
  unfolding cbor_read_bytes_hdr item_bytes
  cbor_read_bytes_hdr-Parses n h = of_major-Parses 2 n (omega arith) h

  pub some_bytes-Parses : (bs : List ℕ) → Parses s (some_bytes input (length bs)) bs bs
  some_bytes-Parses [] = Parses-pure s []
  some_bytes-Parses (b ∷ bs) =
      let e : (suc (length bs) == 0) ≡ false = ground arith in
      rw e (next_bytes-Parses s (length (b ∷ bs)) (b ∷ bs) refl)

  pub cbor_read_text-Parses :
      (cap : ℕ) (t : List ℕ)
      → length t < cap
      → length t < 2 ^ 64
      → Parses s (cbor_read_text input cap) (item_bytes (text t)) t
  unfolding cbor_read_text item_bytes
  cbor_read_text-Parses cap t c h =
      Parses-bind s (λ len. if leb cap len then fail else some_bytes input len)
        (of_major-Parses 3 (length t) (omega arith) h)
        (rw (not-le→leb cap (length t) (omega arith)) (some_bytes-Parses t))

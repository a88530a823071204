-- ===== src/Reader/Shrinks.antt =====
-- How many bytes each reader of `lbdctl log` (src/lbdctl.c) leaves in the file.
use lbd.Prelude.{
  ℕ, zero, suc, ◌-◌, ◌*◌, ◌/◌, ◌%◌, ◌≤◌, ◌<◌, ◌≡◌, refl, sym, ap, subst, ◌⊎◌, inl, inr, Bool, true,
  false, ◌||◌, List, [], ◌∷◌, ◌++◌, arith, length, ltb, leb, ◌==◌, if◌then◌else◌, get_or,
  length-append,
}
use lbd.Reader.{
  Input, Exact, whole, ended, short, Res, ok, at_end, bad, Reader, pure, fail, and_then, ◌>>=◌,
  malloc, Chunk, chunk, unreadable, take_chunk, read_rest, read_exact, or_end, or_bad, first_bytes,
  next_bytes,
}
use lbd.Reader.Cbor.{
  read_arg, cbor_read_head, of_major, cbor_read_uint, cbor_read_bytes_hdr, cbor_read_map,
  some_bytes, cbor_read_text,
}
use lbd.Reader.Skip.{skip_bytes, inner, skip_items, skip_body, cbor_skip}
use lbd.Reader.Laws.{Serves, if-pos}
use lbd.Reader.Parses.{first_bytes-Parses}
use lbd.Reader.EndOfFile.{first_bytes_at_end}

module _ {input : Input} (s : Serves input) where
  abbrev pub left : input.World → ℕ
  left w = length (s.rest w)

  pub record Shrinks {A : Type 0} (m : Reader input.World A) : Type 0 where
    pub shrinks : (w : input.World) → left (m w).1 ≤ left w

  -- The state behind a read that may or may not have come to the end.
  read_left : (n : ℕ) (w : input.World) → 0 < n → left (input.read n w).1 ≤ left w
  read_left n w h = elim (empty_or (s.rest w)) [
    | inl e ↦ omega (arith, ap length (s.ends n w e).1)
    | inr some_left ↦
        let a = s.reads n w h some_left in
        omega
          (arith, ap length a.split, length-append (a.first ∷ a.others) (s.rest (input.read n w).1))
  ]
    where
      empty_or : (l : List ℕ) → (l ≡ []) ⊎ (0 < length l)
      empty_or [] = inl refl
      empty_or (x ∷ xs) = inr (omega arith)

  read_rest_left :
      (rounds : ℕ) (done : List ℕ) (n : ℕ) (w : input.World)
      → left (read_rest input rounds done n w).1 ≤ left w
  unfolding read_rest take_chunk
  read_rest_left zero done n w = omega arith
  read_rest_left (suc rounds) done n w = elim (zero_or_pos n) [
    | inl z ↦ rw z (omega arith)
    | inr h ↦
        subst (λ (r : Exact × input.World). left r.1 ≤ left w)
          (sym (if-pos n (whole done, w) (taken (input.read n w)) h))
          (behind (λ bs w'. read_rest_left rounds (done ++ bs) (n - length bs) w') (input.read n w)
            (read_left n w h))
  ]
    where
      more : List ℕ → input.World → Exact × input.World
      more bs = read_rest input rounds (done ++ bs) (n - length bs)

      taken : Chunk × input.World → Exact × input.World
      taken = take_chunk input more (length done)

      zero_or_pos : (n : ℕ) → (n ≡ 0) ⊎ (0 < n)
      zero_or_pos zero = inl refl
      zero_or_pos (suc n) = inr (omega arith)

      behind :
          ((bs : List ℕ) (w' : input.World) → left (more bs w').1 ≤ left w')
          → (c : Chunk × input.World) → left c.1 ≤ left w
          → left (taken c).1 ≤ left w
      behind k (unreadable, w') h = h
      behind k (chunk [], w') h = h
      behind k (chunk (b ∷ bs), w') h = omega (arith, h, k (b ∷ bs) w')

  pub Shrinks-pure : {A : Type 0} (a : A) → Shrinks (pure a)
  Shrinks-pure a = record { shrinks = λ w. omega arith }

  pub Shrinks-fail : {A : Type 0} → Shrinks {A = A} fail
  Shrinks-fail = record { shrinks = λ w. omega arith }

  pub Shrinks-malloc : (n : ℕ) → Shrinks (malloc input n)
  Shrinks-malloc n = record { shrinks = λ w. omega (arith, ap length (s.keeps n w)) }

  and_then-Shrinks :
      {A B : Type 0} (r : Res A × input.World) (f : A → Reader input.World B) (w : input.World)
      → left r.1 ≤ left w
      → ((a : A) → Shrinks (f a))
      → left (and_then r f).1 ≤ left w
  and_then-Shrinks (ok a, w') f w h k = omega (arith, h, (k a).shrinks w')
  and_then-Shrinks (at_end, w') f w h k = h
  and_then-Shrinks (bad, w') f w h k = h

  pub Shrinks-bind :
      {A B : Type 0} {m : Reader input.World A} (f : A → Reader input.World B)
      → Shrinks m
      → ((a : A) → Shrinks (f a))
      → Shrinks (m >>= f)
  Shrinks-bind {m = m} f p k = record { shrinks = λ w. and_then-Shrinks (m w) f w (p.shrinks w) k }

  pub Shrinks-if :
      {A : Type 0} (b : Bool) {x y : Reader input.World A}
      → Shrinks x
      → Shrinks y
      → Shrinks (if b then x else y)
  Shrinks-if true p q = p
  Shrinks-if false p q = q

  or_bad-left : (r : Exact × input.World) → (or_bad r).1 ≡ r.1
  or_bad-left (whole bs, w) = refl
  or_bad-left (ended, w) = refl
  or_bad-left (short, w) = refl

  Shrinks-next : (n : ℕ) → Shrinks (next_bytes input n)
  unfolding next_bytes read_exact
  Shrinks-next n = record {
    shrinks = λ w.
        omega (arith, read_rest_left n [] n w, ap left (or_bad-left (read_rest input n [] n w)));
  }

  Shrinks-arg : (ai : ℕ) → Shrinks (read_arg input ai)
  unfolding read_arg
  Shrinks-arg ai = Shrinks-if (ltb ai 24) (Shrinks-pure ai) (
      Shrinks-if (ai == 24) (Shrinks-bind _ (Shrinks-next 1) (λ b. Shrinks-pure _)) (
        Shrinks-if (ai == 25) (Shrinks-bind _ (Shrinks-next 2) (λ b. Shrinks-pure _)) (
          Shrinks-if (ai == 26) (Shrinks-bind _ (Shrinks-next 4) (λ b. Shrinks-pure _)) (
            Shrinks-if (ai == 27) (Shrinks-bind _ (Shrinks-next 8) (λ b. Shrinks-pure _))
              Shrinks-fail))))

  -- The initial byte of a head is taken.
  first_byte-taken :
      (w : input.World)
      → ((first_bytes input 1 w).0 ≡ at_end) ⊎ (left (first_bytes input 1 w).1 < left w)
  first_byte-taken w = started (s.rest w) refl
    where
      started :
          (l : List ℕ)
          → s.rest w ≡ l
          → ((first_bytes input 1 w).0 ≡ at_end) ⊎ (left (first_bytes input 1 w).1 < left w)
      started [] e = inl (first_bytes_at_end s w e)
      started (x ∷ xs) e =
          let (w', r, t) = (first_bytes-Parses s 1 (x ∷ []) refl).takes w xs e in
          inr (omega (arith, ap (λ r. left r.1) r, ap length t, ap length e))

  -- The rest of a reader of a head.
  headed :
      {A : Type 0} (f : List ℕ → Reader input.World A) (w : input.World)
      → ((a : List ℕ) → Shrinks (f a))
      → ((and_then (first_bytes input 1 w) f).0 ≡ at_end)
        ⊎ (left (and_then (first_bytes input 1 w) f).1 < left w)
  headed f w k = behind (first_bytes input 1 w) (first_byte-taken w)
    where
      behind :
          (r : Res (List ℕ) × input.World)
          → (r.0 ≡ at_end) ⊎ (left r.1 < left w)
          → ((and_then r f).0 ≡ at_end) ⊎ (left (and_then r f).1 < left w)
      behind (ok a, w') (inl h) = absurd (cc)
      behind (ok a, w') (inr h) = inr (omega (arith, h, (k a).shrinks w'))
      behind (at_end, w') h = inl refl
      behind (bad, w') (inl h) = absurd (cc)
      behind (bad, w') (inr h) = inr h

  -- At the end of the file, or a head was tried and a byte of it is gone.
  pub cbor_read_head-taken :
      (w : input.World)
      → ((cbor_read_head input w).0 ≡ at_end) ⊎ (left (cbor_read_head input w).1 < left w)
  unfolding cbor_read_head
  cbor_read_head-taken w =
      headed (λ ib. read_arg input (get_or ib 0 0 % 32) >>= λ val. pure (get_or ib 0 0 / 32, val)) w
        (λ ib. Shrinks-bind _ (Shrinks-arg (get_or ib 0 0 % 32)) (λ val. Shrinks-pure _))

  or_end-left : (r : Exact × input.World) → (or_end r).1 ≡ r.1
  or_end-left (whole bs, w) = refl
  or_end-left (ended, w) = refl
  or_end-left (short, w) = refl

  Shrinks-first : (n : ℕ) → Shrinks (first_bytes input n)
  unfolding first_bytes read_exact
  Shrinks-first n = record {
    shrinks = λ w.
        omega (arith, read_rest_left n [] n w, ap left (or_end-left (read_rest input n [] n w)));
  }

  Shrinks-head : Shrinks (cbor_read_head input)
  unfolding cbor_read_head
  Shrinks-head =
      Shrinks-bind _ (Shrinks-first 1)
        λ ib. Shrinks-bind _ (Shrinks-arg (get_or ib 0 0 % 32)) (λ val. Shrinks-pure _)

  Shrinks-major : (m : ℕ) → Shrinks (cbor_read_head input >>= of_major input m)
  Shrinks-major m = Shrinks-bind (of_major input m) Shrinks-head λ h. of (h.0 == m) h.1
    where
      of : (b : Bool) (val : ℕ) → Shrinks (if b then pure val else fail)
      of b val = Shrinks-if b (Shrinks-pure val) Shrinks-fail

  pub Shrinks-uint : Shrinks (cbor_read_uint input)
  unfolding cbor_read_uint
  Shrinks-uint = Shrinks-major 0

  pub Shrinks-map : Shrinks (cbor_read_map input)
  unfolding cbor_read_map
  Shrinks-map = Shrinks-major 5

  pub Shrinks-bytes_hdr : Shrinks (cbor_read_bytes_hdr input)
  unfolding cbor_read_bytes_hdr
  Shrinks-bytes_hdr = Shrinks-major 2

  pub Shrinks-some_bytes : (n : ℕ) → Shrinks (some_bytes input n)
  Shrinks-some_bytes n = Shrinks-if (n == 0) (Shrinks-pure []) (Shrinks-next n)

  pub Shrinks-text : (room : ℕ) → Shrinks (cbor_read_text input room)
  unfolding cbor_read_text
  Shrinks-text room =
      Shrinks-bind _ (Shrinks-major 3)
        λ len. Shrinks-if (leb room len) Shrinks-fail (Shrinks-some_bytes len)

  Shrinks-skip_bytes : (rounds val : ℕ) → Shrinks (skip_bytes input rounds val)
  unfolding skip_bytes
  Shrinks-skip_bytes zero val = Shrinks-pure tt
  Shrinks-skip_bytes (suc rounds) val = Shrinks-if (val == 0) (Shrinks-pure tt) (
      Shrinks-bind _ (Shrinks-next (if ltb val 256 then val else 256))
        λ bs. Shrinks-skip_bytes rounds (val - (if ltb val 256 then val else 256)))

  inner-left : (r : Res (Unit {0}) × input.World) → (inner input r).1 ≡ r.1
  inner-left (ok tt, w) = refl
  inner-left (at_end, w) = refl
  inner-left (bad, w) = refl

  Shrinks-skip_items :
      (m : Reader input.World (Unit {0})) (n : ℕ) → Shrinks m → Shrinks (skip_items input m n)
  unfolding skip_items
  Shrinks-skip_items m zero p = Shrinks-pure tt
  Shrinks-skip_items m (suc n) p =
      Shrinks-bind (λ u. skip_items input m n)
        (record { shrinks = λ w. omega (arith, p.shrinks w, ap left (inner-left (m w))) })
        (λ u. Shrinks-skip_items m n p)

  Shrinks-skip_body :
      (m : Reader input.World (Unit {0})) (h : ℕ × ℕ) → Shrinks m → Shrinks (skip_body input m h)
  unfolding skip_body
  Shrinks-skip_body m (major, val) p =
      Shrinks-if (major == 0 || major == 1 || major == 7) (Shrinks-pure tt) (
        Shrinks-if (major == 2 || major == 3) (Shrinks-skip_bytes val val) (
          Shrinks-if (major == 4) (Shrinks-skip_items m val p)
            (Shrinks-if (major == 5) (Shrinks-skip_items m (2 * val) p) Shrinks-fail)))

  pub Shrinks-skip : (depth : ℕ) → Shrinks (cbor_skip input depth)
  unfolding cbor_skip
  Shrinks-skip zero = Shrinks-fail
  Shrinks-skip (suc depth) =
      Shrinks-bind (skip_body input (cbor_skip input depth)) Shrinks-head
        λ h. Shrinks-skip_body (cbor_skip input depth) h (Shrinks-skip depth)

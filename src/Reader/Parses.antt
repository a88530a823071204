-- ===== src/Reader/Parses.antt =====
-- Readers that take certain bytes off the front of a file, whatever follows, and fail where the file
-- ends within them.
use lbd.Prelude.{
  ℕ, zero, suc, ◌+◌, ◌-◌, ◌≤◌, ◌<◌, ◌≡◌, refl, sym, ap, ◌∙◌, subst, true, List, [], ◌∷◌, ◌++◌,
  arith, length, take, length-take, lt_or_le, length-append, append_assoc, ◌==◌, if◌then◌else◌, inl,
  inr,
}
use lbd.Reader.{
  Input, Exact, whole, ended, short, Res, ok, at_end, bad, Reader, pure, and_then, ◌>>=◌, read_rest,
  read_exact, or_end, or_bad, first_bytes, next_bytes,
}
use lbd.Reader.Laws.{Serves, read_rest-whole, read_rest-cut}

abbrev pub Failed : {A : Type 0} → Res A → Type 0
Failed (ok a) = ⊥
Failed at_end = Unit
Failed bad = Unit

-- A reader takes the bytes `xs` off the front of the file, whatever follows, and gives `a`; where the
-- file ends within them, it fails.
pub record Parses {input : Input} (s : Serves input) {A : Type 0} (m : Reader input.World A)
    (xs : List ℕ) (a : A) : Type 0 where
  pub takes :
      (w : input.World) (ys : List ℕ)
      → s.rest w ≡ xs ++ ys
      → (w' : input.World) × (m w ≡ (ok a, w')) × (s.rest w' ≡ ys)
  pub fails : (w : input.World) (i : ℕ) → i < length xs → s.rest w ≡ take i xs → Failed (m w).0

pub take-append_short : (i : ℕ) (xs ys : List ℕ) → i ≤ length xs → take i (xs ++ ys) ≡ take i xs
take-append_short zero xs ys h = refl
take-append_short (suc i) [] ys h = absurd (omega arith)
take-append_short (suc i) (x ∷ xs) ys h =
    ap (λ (l : List ℕ). x ∷ l) (take-append_short i xs ys (omega arith))

pub take-append_long :
    (i : ℕ) (xs ys : List ℕ) → length xs ≤ i → take i (xs ++ ys) ≡ xs ++ take (i - length xs) ys
take-append_long i [] ys h = let e : i - 0 ≡ i = omega arith in rw e refl
take-append_long zero (x ∷ xs) ys h = absurd (omega arith)
take-append_long (suc i) (x ∷ xs) ys h =
    let e : suc i - suc (length xs) ≡ i - length xs = omega arith in
    rw e (ap (λ (l : List ℕ). x ∷ l) (take-append_long i xs ys (omega arith)))

module _ {input : Input} (s : Serves input) where
  pub Parses-pure : {A : Type 0} (a : A) → Parses s (pure a) [] a
  Parses-pure a = record { takes = λ w ys e. (w, refl, e); fails = λ w i h e. absurd (omega arith) }

  Failed-and_then :
      {A B : Type 0} (r : Res A × input.World) (f : A → Reader input.World B)
      → Failed r.0
      → Failed (and_then r f).0
  Failed-and_then (ok a, w) f h = absurd h
  Failed-and_then (at_end, w) f h = tt
  Failed-and_then (bad, w) f h = tt

  pub Parses-bind :
      {A B : Type 0} {m : Reader input.World A} {xs ys : List ℕ} {a : A} {b : B}
      (f : A → Reader input.World B)
      → Parses s m xs a
      → Parses s (f a) ys b
      → Parses s (m >>= f) (xs ++ ys) b
  Parses-bind {A = A} {B = B} {m = m} {xs = xs} {ys = ys} {a = a} {b = b} f p q = record {
    takes = takes;
    fails = fails;
  }
    where
      takes :
          (w : input.World) (zs : List ℕ)
          → s.rest w ≡ (xs ++ ys) ++ zs
          → (w' : input.World) × (and_then (m w) f ≡ (ok b, w')) × (s.rest w' ≡ zs)
      takes w zs e =
          let (w', r, t) = p.takes w (ys ++ zs) (e ∙ append_assoc xs ys zs) in
          let (w'', r', t') = q.takes w' zs t in
          (w'', ap (λ (r : Res A × input.World). and_then r f) r ∙ r', t')

      fails :
          (w : input.World) (i : ℕ)
          → i < length (xs ++ ys)
          → s.rest w ≡ take i (xs ++ ys)
          → Failed (and_then (m w) f).0
      fails w i h e = elim (lt_or_le i (length xs)) [
        | inl l ↦
            Failed-and_then (m w) f (p.fails w i l (e ∙ take-append_short i xs ys (omega arith)))
        | inr l ↦
            let (w', r, t) = p.takes w (take (i - length xs) ys) (e ∙ take-append_long i xs ys l) in
            subst (λ (r : Res A × input.World). Failed (and_then r f).0) (sym r)
              (q.fails w' (i - length xs) (omega (arith, length-append xs ys)) t)
      ]

  pub Parses-bytes :
      {A : Type 0} {m : Reader input.World A} {xs ys : List ℕ} {a : A}
      → xs ≡ ys
      → Parses s m xs a
      → Parses s m ys a
  Parses-bytes {m = m} {a = a} e p = subst (λ (l : List ℕ). Parses s m l a) e p

  pub Parses-malloc :
      (n : ℕ) → Parses s (λ w. (ok (input.malloc n w).0, (input.malloc n w).1)) [] true
  Parses-malloc n = record {
    takes = λ w ys e. (
      (input.malloc n w).1,
      ap (λ b. (ok b, (input.malloc n w).1)) (s.gives n w),
      s.keeps n w ∙ e,
    );
    fails = λ w i h e. absurd (omega arith);
  }

  Failed-or_end :
      (n : ℕ) (r : Exact × input.World)
      → r.0 ≡ (if n == 0 then ended else short)
      → Failed (or_end r).0
  Failed-or_end n (whole bs, w) e = absurd (ground arith)
  Failed-or_end n (ended, w) e = tt
  Failed-or_end n (short, w) e = tt

  Failed-or_bad :
      (n : ℕ) (r : Exact × input.World)
      → r.0 ≡ (if n == 0 then ended else short)
      → Failed (or_bad r).0
  Failed-or_bad n (whole bs, w) e = absurd (ground arith)
  Failed-or_bad n (ended, w) e = tt
  Failed-or_bad n (short, w) e = tt

  pub first_bytes-Parses :
      (n : ℕ) (bs : List ℕ) → n ≡ length bs → Parses s (first_bytes input n) bs bs
  unfolding first_bytes read_exact
  first_bytes-Parses n bs l = record {
    takes = λ w ys e.
        let (w', r, t) = read_rest-whole s n [] bs ys n w l (omega arith) e in (w', ap or_end r, t);
    fails = λ w i h e.
        Failed-or_end (0 + length (s.rest w)) (read_rest input n [] n w)
          (read_rest-cut s n [] n w (omega (arith, ap length e, length-take i bs)) (omega arith));
  }

  pub next_bytes-Parses :
      (n : ℕ) (bs : List ℕ) → n ≡ length bs → Parses s (next_bytes input n) bs bs
  unfolding next_bytes read_exact
  next_bytes-Parses n bs l = record {
    takes = λ w ys e.
        let (w', r, t) = read_rest-whole s n [] bs ys n w l (omega arith) e in (w', ap or_bad r, t);
    fails = λ w i h e.
        Failed-or_bad (0 + length (s.rest w)) (read_rest input n [] n w)
          (read_rest-cut s n [] n w (omega (arith, ap length e, length-take i bs)) (omega arith));
  }

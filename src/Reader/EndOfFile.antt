-- ===== src/Reader/EndOfFile.antt =====
-- Which of its two errors `cbor_read_head` gives: the end of the file at its first byte only.
use lbd.Prelude.{
  ℕ, ◌+◌, ◌/◌, ◌%◌, ◌<◌, ◌≡◌, refl, sym, ap, ◌∙◌, subst, Bool, true, false, List, [], ◌∷◌, arith,
  length, ltb, ◌==◌, if◌then◌else◌, get_or,
}
use lbd.Reader.{
  Input, Exact, whole, ended, short, Res, ok, at_end, bad, Reader, pure, fail, and_then, ◌>>=◌,
  read_exact, read_rest, or_end, or_bad, first_bytes, next_bytes,
}
use lbd.Reader.Cbor.{read_arg, cbor_read_head}
use lbd.Reader.Laws.{Serves, read_rest-cut}
use lbd.Reader.Parses.{first_bytes-Parses}

-- The end of the file is found by the first byte of a head only.
abbrev pub NotEnd : {A : Type 0} → Res A → Type 0
NotEnd (ok a) = Unit
NotEnd at_end = ⊥
NotEnd bad = Unit

or_bad-NotEnd : {W : Type 0} (r : Exact × W) → NotEnd (or_bad r).0
or_bad-NotEnd (whole bs, w) = tt
or_bad-NotEnd (ended, w) = tt
or_bad-NotEnd (short, w) = tt

and_then-NotEnd :
    {W A B : Type 0} (r : Res A × W) (f : A → Reader W B)
    → NotEnd r.0
    → ((a : A) (w : W) → NotEnd (f a w).0)
    → NotEnd (and_then r f).0
and_then-NotEnd (ok a, w) f h k = k a w
and_then-NotEnd (at_end, w) f h k = absurd h
and_then-NotEnd (bad, w) f h k = tt

if-NotEnd :
    {W A : Type 0} (b : Bool) (x y : Reader W A) (w : W)
    → NotEnd (x w).0
    → NotEnd (y w).0
    → NotEnd ((if b then x else y) w).0
if-NotEnd true x y w h k = h
if-NotEnd false x y w h k = k

next-NotEnd :
    (input : Input) (n : ℕ) (get : List ℕ → ℕ) (w : input.World)
    → NotEnd (and_then (next_bytes input n w) (λ b. pure (get b))).0
unfolding next_bytes
next-NotEnd input n get w =
    and_then-NotEnd (or_bad (read_exact input n w)) (λ b. pure (get b))
      (or_bad-NotEnd (read_exact input n w)) (λ b w'. tt)

read_arg-NotEnd : (input : Input) (ai : ℕ) (w : input.World) → NotEnd (read_arg input ai w).0
unfolding read_arg
read_arg-NotEnd input ai w = if-NotEnd (ltb ai 24) (pure ai) _ w tt (
    if-NotEnd (ai == 24) _ _ w (next-NotEnd input 1 _ w) (
      if-NotEnd (ai == 25) _ _ w (next-NotEnd input 2 _ w) (
        if-NotEnd (ai == 26) _ _ w (next-NotEnd input 4 _ w)
          (if-NotEnd (ai == 27) _ fail w (next-NotEnd input 8 _ w) tt))))

module _ {input : Input} (s : Serves input) where
  -- At the end of the file.
  pub first_bytes_at_end : (w : input.World) → s.rest w ≡ [] → (first_bytes input 1 w).0 ≡ at_end
  unfolding first_bytes read_exact
  first_bytes_at_end w e = ended_first (read_rest input 1 [] 1 w) (
      read_rest-cut s 1 [] 1 w (omega (arith, ap length e)) (omega arith)
      ∙ ap (λ n. if n == 0 then ended else short) none_left)
    where
      none_left : 0 + length (s.rest w) ≡ 0
      none_left = omega (arith, ap length e)

      ended_first : (r : Exact × input.World) → r.0 ≡ ended → (or_end r).0 ≡ at_end
      ended_first (whole bs, w) h = absurd (cc)
      ended_first (ended, w) h = refl
      ended_first (short, w) h = absurd (cc)

  pub cbor_read_head_at_end :
      (w : input.World) → s.rest w ≡ [] → (cbor_read_head input w).0 ≡ at_end
  unfolding cbor_read_head
  cbor_read_head_at_end w e = stopped _ (first_bytes input 1 w) (first_bytes_at_end w e)
    where
      stopped :
          {B : Type 0} (f : List ℕ → Reader input.World B) (r : Res (List ℕ) × input.World)
          → r.0 ≡ at_end
          → (and_then r f).0 ≡ at_end
      stopped f (ok bs, w) h = absurd (cc)
      stopped f (at_end, w) h = refl
      stopped f (bad, w) h = absurd (cc)

  -- Inside of it.
  pub cbor_read_head-NotEnd :
      (w : input.World) → 0 < length (s.rest w) → NotEnd (cbor_read_head input w).0
  unfolding cbor_read_head
  cbor_read_head-NotEnd w h = started (s.rest w) refl h
    where
      after : List ℕ → Reader input.World (ℕ × ℕ)
      after ib = read_arg input (get_or ib 0 0 % 32) >>= λ val. pure (get_or ib 0 0 / 32, val)

      started :
          (l : List ℕ)
          → s.rest w ≡ l
          → 0 < length l
          → NotEnd (and_then (first_bytes input 1 w) after).0
      started [] e h = absurd (omega arith)
      started (x ∷ xs) e h =
          let (w', r, t) = (first_bytes-Parses s 1 (x ∷ []) refl).takes w xs e in
          subst (λ (r : Res (List ℕ) × input.World). NotEnd (and_then r after).0) (sym r)
            (and_then-NotEnd (read_arg input (get_or (x ∷ []) 0 0 % 32) w') _
              (read_arg-NotEnd input (get_or (x ∷ []) 0 0 % 32) w') (λ v w''. tt))

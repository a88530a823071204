-- ===== src/Reader/Laws.antt =====
-- What `lbdctl log` relies on where a descriptor is that of a file: a read returns some of the bytes
-- that are left, at most as many as asked for, or none at the end of the file, and memory is given.
use lbd.Prelude.{
  ℕ, zero, suc, ◌+◌, ◌-◌, ◌≤◌, ◌<◌, ◌≡◌, refl, sym, ap, ◌⊎◌, ◌∙◌, true, List, [], ◌∷◌, ◌++◌, arith,
  length, length-append, append_assoc, append-nil, ◌==◌, if◌then◌else◌, inl, inr,
}
use lbd.Reader.{Chunk, chunk, Input, whole, ended, short, take_chunk, read_rest}

-- Some bytes of `rest` arrived, at most `n`, and `left` is behind them.
pub record Arrived (rest : List ℕ) (n : ℕ) (c : Chunk) (left : List ℕ) : Type 0 where
  pub first : ℕ
  pub others : List ℕ
  pub came : c ≡ chunk (first ∷ others)
  pub within : suc (length others) ≤ n
  pub split : rest ≡ (first ∷ others) ++ left

pub record Serves (input : Input) : Type 0 where
  pub rest : input.World → List ℕ
  pub reads :
      (n : ℕ) (w : input.World)
      → 0 < n
      → 0 < length (rest w)
      → Arrived (rest w) n (input.read n w).0 (rest (input.read n w).1)
  pub ends :
      (n : ℕ) (w : input.World)
      → rest w ≡ []
      → ((input.read n w).0 ≡ chunk []) × (rest (input.read n w).1 ≡ [])
  pub gives : (n : ℕ) (w : input.World) → (input.malloc n w).0 ≡ true
  pub keeps : (n : ℕ) (w : input.World) → rest (input.malloc n w).1 ≡ rest w

split_at :
    (c zs xs ys : List ℕ)
    → c ++ zs ≡ xs ++ ys
    → length c ≤ length xs
    → (xs' : List ℕ) × (xs ≡ c ++ xs') × (zs ≡ xs' ++ ys)
split_at [] zs xs ys e h = (xs, refl, e)
split_at (c ∷ cs) zs [] ys e h = absurd (omega arith)
split_at (c ∷ cs) zs (x ∷ xs) ys e h =
    let (xs', p, q) = split_at cs zs xs ys (cc) (omega arith) in (xs', cc, q)

pub if-pos : {A : Type 0} (n : ℕ) (x y : A) → 0 < n → (if n == 0 then x else y) ≡ y
if-pos n x y h = ground arith

pub read_rest-chunk :
    (input : Input) (rounds : ℕ) (done : List ℕ) (left : ℕ) (w : input.World) (bs : List ℕ)
    → 0 < left
    → 0 < length bs
    → (input.read left w).0 ≡ chunk bs
    → read_rest input (suc rounds) done left w
      ≡ read_rest input rounds (done ++ bs) (left - length bs) (input.read left w).1
unfolding read_rest take_chunk
read_rest-chunk input rounds done left w [] h k e = absurd (omega arith)
read_rest-chunk input rounds done left w (b ∷ bs) h k e =
    if-pos left (whole done, w)
      (take_chunk input (λ bs. read_rest input rounds (done ++ bs) (left - length bs)) (length done)
        (input.read left w))
      h
    ∙ ap
        (λ c.
          take_chunk input (λ bs. read_rest input rounds (done ++ bs) (left - length bs))
            (length done) (c, (input.read left w).1))
        e

read_rest-nothing :
    (input : Input) (rounds : ℕ) (done : List ℕ) (left : ℕ) (w : input.World)
    → 0 < left
    → (input.read left w).0 ≡ chunk []
    → (read_rest input (suc rounds) done left w).0 ≡ (if length done == 0 then ended else short)
unfolding read_rest take_chunk
read_rest-nothing input rounds done left w h e =
    ap (λ p. p.0)
      (if-pos left (whole done, w)
        (take_chunk input (λ bs. read_rest input rounds (done ++ bs) (left - length bs))
          (length done) (input.read left w))
        h)
    ∙ ap
        (λ c.
          (take_chunk input (λ bs. read_rest input rounds (done ++ bs) (left - length bs))
            (length done) (c, (input.read left w).1)).0)
        e

module _ {input : Input} (s : Serves input) where
  pub read_rest-whole :
      (rounds : ℕ) (done xs ys : List ℕ) (left : ℕ) (w : input.World)
      → left ≡ length xs
      → left ≤ rounds
      → s.rest w ≡ xs ++ ys
      → (w' : input.World) × (read_rest input rounds done left w ≡ (whole (done ++ xs), w'))
        × (s.rest w' ≡ ys)
  read_rest-whole zero done [] ys left w l h e =
      (w, unfold read_rest in ap (λ l. (whole l, w)) (sym (append-nil done)), e)
  read_rest-whole zero done (x ∷ xs) ys left w l h e = absurd (omega arith)
  read_rest-whole (suc rounds) done [] ys left w l h e =
      (w, unfold read_rest in rw l (ap (λ l. (whole l, w)) (sym (append-nil done))), e)
  read_rest-whole (suc rounds) done (x ∷ xs) ys left w l h e =
      let a = s.reads left w (omega arith) (omega (arith, ap length e)) in
      let c : List ℕ = a.first ∷ a.others in
      let (xs', p, q) =
        split_at c (s.rest (input.read left w).1) (x ∷ xs) ys (sym a.split ∙ e)
          (omega (arith, a.within)) in
      let here : left - length c ≡ length xs' = omega (arith, ap length p, length-append c xs') in
      let (w', r, t) =
        read_rest-whole rounds (done ++ c) xs' ys (left - length c) (input.read left w).1 here
          (omega arith) q in
      (
        w',
        read_rest-chunk input rounds done left w c (omega arith) (omega arith) a.came
            ∙ r
            ∙ ap (λ l. (whole l, w')) (append_assoc done c xs' ∙ ap (λ l. done ++ l) (sym p)),
        t,
      )

  -- The file ends first.
  pub read_rest-cut :
      (rounds : ℕ) (done : List ℕ) (left : ℕ) (w : input.World)
      → length (s.rest w) < left
      → left ≤ rounds
      → (read_rest input rounds done left w).0
        ≡ (if length done + length (s.rest w) == 0 then ended else short)
  read_rest-cut zero done left w h k = absurd (omega arith)
  read_rest-cut (suc rounds) done left w h k = elim (empty_or (s.rest w)) [
    | inl e ↦
        let n : length done ≡ length done + length (s.rest w) = omega (arith, ap length e) in
        read_rest-nothing input rounds done left w (omega arith) (s.ends left w e).0
        ∙ ap (λ n. if n == 0 then ended else short) n
    | inr some_left ↦
        let a = s.reads left w (omega arith) some_left in
        let c : List ℕ = a.first ∷ a.others in
        let rest' = s.rest (input.read left w).1 in
        let n : length (s.rest w) ≡ length c + length rest' =
          ap length a.split ∙ length-append c rest' in
        let m : length (done ++ c) + length rest' ≡ length done + length (s.rest w) =
          omega (arith, length-append done c, n) in
        ap (λ p. p.0)
          (read_rest-chunk input rounds done left w c (omega arith) (omega arith) a.came)
        ∙ read_rest-cut rounds (done ++ c) (left - length c) (input.read left w).1
            (omega (arith, n)) (omega arith)
        ∙ ap (λ n. if n == 0 then ended else short) m
  ]
    where
      empty_or : (l : List ℕ) → (l ≡ []) ⊎ (0 < length l)
      empty_or [] = inl refl
      empty_or (x ∷ xs) = inr (omega arith)

-- ===== src/Prelude/Lists.antt =====
-- Lists measured and indexed by native numbers, under the library's names, and buffers: lists of
-- bytes that are read and written at an offset, as by `memcpy`.
use Prim.Native.Nat.{ℕ, zero, suc, ◌+◌, ◌-◌, ◌<◌, ◌≤◌, min}
use mathlib.Core.Path.{◌≡◌, refl, ap, ◌∙◌}
use mathlib.Core.Logic.{◌≢◌}
use mathlib.Core.List.{List, [], ◌∷◌, ◌++◌}
use mathlib.Core.Option.{Option, none, some}
use native.Mathlib.Omega.{arith}

module _ {ℓ} {A : Type ℓ} where
  abbrev pub length : List A → ℕ
  length [] = 0
  length (x ∷ xs) = suc (length xs)

  abbrev pub get_elem? : List A → ℕ → Option A
  get_elem? [] i = none
  get_elem? (x ∷ xs) zero = some x
  get_elem? (x ∷ xs) (suc i) = get_elem? xs i

  abbrev pub get_or : List A → ℕ → A → A
  get_or [] i d = d
  get_or (x ∷ xs) zero d = x
  get_or (x ∷ xs) (suc i) d = get_or xs i d

  -- A write out of bounds changes nothing.
  abbrev pub set : List A → ℕ → A → List A
  set [] i v = []
  set (x ∷ xs) zero v = v ∷ xs
  set (x ∷ xs) (suc i) v = x ∷ set xs i v

  abbrev pub modify : List A → ℕ → (A → A) → List A
  modify [] i f = []
  modify (x ∷ xs) zero f = f x ∷ xs
  modify (x ∷ xs) (suc i) f = x ∷ modify xs i f

  abbrev pub take : ℕ → List A → List A
  take zero xs = []
  take (suc n) [] = []
  take (suc n) (x ∷ xs) = x ∷ take n xs

  abbrev pub drop : ℕ → List A → List A
  drop zero xs = xs
  drop (suc n) [] = []
  drop (suc n) (x ∷ xs) = drop n xs

  abbrev pub replicate : ℕ → A → List A
  replicate zero a = []
  replicate (suc n) a = a ∷ replicate n a

  -- `memcpy(buf, src, n)` of the `n` bytes of `src`, clipped at the end of `buf`.
  abbrev pub overlay : List A → List A → List A
  overlay [] src = []
  overlay (x ∷ xs) [] = x ∷ xs
  overlay (x ∷ xs) (y ∷ ys) = y ∷ overlay xs ys

  -- `memcpy(buf + off, src, n)`.
  abbrev pub overlay_at : List A → ℕ → List A → List A
  overlay_at buf zero src = overlay buf src
  overlay_at [] (suc off) src = []
  overlay_at (x ∷ xs) (suc off) src = x ∷ overlay_at xs off src

module _ {ℓ} {A : Type ℓ} where
  pub length-append : (xs ys : List A) → length (xs ++ ys) ≡ length xs + length ys
  length-append [] ys = omega arith
  length-append (x ∷ xs) ys = omega (arith, length-append xs ys)

  pub length-set : (xs : List A) (i : ℕ) (v : A) → length (set xs i v) ≡ length xs
  length-set [] i v = refl
  length-set (x ∷ xs) zero v = refl
  length-set (x ∷ xs) (suc i) v = ap suc (length-set xs i v)

  pub length-replicate : (n : ℕ) (a : A) → length (replicate n a) ≡ n
  length-replicate zero a = refl
  length-replicate (suc n) a = ap suc (length-replicate n a)

  pub length-take : (n : ℕ) (xs : List A) → length (take n xs) ≡ min n (length xs)
  length-take zero xs = omega arith
  length-take (suc n) [] = omega arith
  length-take (suc n) (x ∷ xs) = omega (arith, length-take n xs)

  pub length-drop : (n : ℕ) (xs : List A) → length (drop n xs) ≡ length xs - n
  length-drop zero xs = omega arith
  length-drop (suc n) [] = omega arith
  length-drop (suc n) (x ∷ xs) = omega (arith, length-drop n xs)

  pub length-overlay : (xs ys : List A) → length (overlay xs ys) ≡ length xs
  length-overlay [] ys = refl
  length-overlay (x ∷ xs) [] = refl
  length-overlay (x ∷ xs) (y ∷ ys) = ap suc (length-overlay xs ys)

  pub length-overlay_at :
      (xs : List A) (off : ℕ) (ys : List A) → length (overlay_at xs off ys) ≡ length xs
  length-overlay_at xs zero ys = length-overlay xs ys
  length-overlay_at [] (suc off) ys = refl
  length-overlay_at (x ∷ xs) (suc off) ys = ap suc (length-overlay_at xs off ys)

  pub get_or-set_self :
      (xs : List A) (i : ℕ) (v d : A) → i < length xs → get_or (set xs i v) i d ≡ v
  get_or-set_self [] i v d h = elim h [ ]
  get_or-set_self (x ∷ xs) zero v d h = refl
  get_or-set_self (x ∷ xs) (suc i) v d h = get_or-set_self xs i v d (omega arith)

  pub get_or-set_ne :
      (xs : List A) (i j : ℕ) (v d : A) → i ≢ j → get_or (set xs i v) j d ≡ get_or xs j d
  get_or-set_ne [] i j v d h = refl
  get_or-set_ne (x ∷ xs) zero zero v d h = absurd (h refl)
  get_or-set_ne (x ∷ xs) zero (suc j) v d h = refl
  get_or-set_ne (x ∷ xs) (suc i) zero v d h = refl
  get_or-set_ne (x ∷ xs) (suc i) (suc j) v d h = get_or-set_ne xs i j v d (λ e. h (ap suc e))

  -- Reading back what was written at an offset.
  pub take-overlay :
      (xs ys : List A) → length ys ≤ length xs → take (length ys) (overlay xs ys) ≡ ys
  take-overlay [] [] h = refl
  take-overlay [] (y ∷ ys) h = absurd (omega arith)
  take-overlay (x ∷ xs) [] h = refl
  take-overlay (x ∷ xs) (y ∷ ys) h = ap (λ (l : List A). y ∷ l) (take-overlay xs ys (omega arith))

  pub take-drop-overlay_at :
      (xs : List A) (off : ℕ) (ys : List A)
      → off + length ys ≤ length xs
      → take (length ys) (drop off (overlay_at xs off ys)) ≡ ys
  take-drop-overlay_at xs zero ys h = take-overlay xs ys (omega arith)
  take-drop-overlay_at [] (suc off) [] h = refl
  take-drop-overlay_at [] (suc off) (y ∷ ys) h = absurd (omega arith)
  take-drop-overlay_at (x ∷ xs) (suc off) ys h = take-drop-overlay_at xs off ys (omega arith)

  -- A byte outside the written range stays.
  pub get_or-overlay_above :
      (xs ys : List A) (i : ℕ) (d : A) → length ys ≤ i → get_or (overlay xs ys) i d ≡ get_or xs i d
  get_or-overlay_above [] ys i d h = refl
  get_or-overlay_above (x ∷ xs) [] i d h = refl
  get_or-overlay_above (x ∷ xs) (y ∷ ys) zero d h = absurd (omega arith)
  get_or-overlay_above (x ∷ xs) (y ∷ ys) (suc i) d h = get_or-overlay_above xs ys i d (omega arith)

  pub get_or-overlay_at_above :
      (xs : List A) (off : ℕ) (ys : List A) (i : ℕ) (d : A)
      → off + length ys ≤ i
      → get_or (overlay_at xs off ys) i d ≡ get_or xs i d
  get_or-overlay_at_above xs zero ys i d h = get_or-overlay_above xs ys i d (omega arith)
  get_or-overlay_at_above [] (suc off) ys i d h = refl
  get_or-overlay_at_above (x ∷ xs) (suc off) ys zero d h = absurd (omega arith)
  get_or-overlay_at_above (x ∷ xs) (suc off) ys (suc i) d h =
      get_or-overlay_at_above xs off ys i d (omega arith)

  pub get_or-overlay_at_below :
      (xs : List A) (off : ℕ) (ys : List A) (i : ℕ) (d : A)
      → i < off
      → get_or (overlay_at xs off ys) i d ≡ get_or xs i d
  get_or-overlay_at_below xs zero ys i d h = absurd (omega arith)
  get_or-overlay_at_below [] (suc off) ys i d h = refl
  get_or-overlay_at_below (x ∷ xs) (suc off) ys zero d h = refl
  get_or-overlay_at_below (x ∷ xs) (suc off) ys (suc i) d h =
      get_or-overlay_at_below xs off ys i d (omega arith)

  pub get_or-overlay :
      (xs ys : List A) (i : ℕ) (d : A)
      → i < length ys
      → length ys ≤ length xs
      → get_or (overlay xs ys) i d ≡ get_or ys i d
  get_or-overlay [] [] i d h k = refl
  get_or-overlay [] (y ∷ ys) i d h k = absurd (omega arith)
  get_or-overlay (x ∷ xs) [] i d h k = absurd (omega arith)
  get_or-overlay (x ∷ xs) (y ∷ ys) zero d h k = refl
  get_or-overlay (x ∷ xs) (y ∷ ys) (suc i) d h k =
      get_or-overlay xs ys i d (omega arith) (omega arith)

  -- A byte inside the written range is the byte written, stated at its distance from the offset.
  pub get_or-overlay_at :
      (xs : List A) (off : ℕ) (ys : List A) (i : ℕ) (d : A)
      → i < length ys
      → off + length ys ≤ length xs
      → get_or (overlay_at xs off ys) (off + i) d ≡ get_or ys i d
  get_or-overlay_at xs zero ys i d h k =
      let e : 0 + i ≡ i = omega arith in
      ap (λ (n : ℕ). get_or (overlay xs ys) n d) e ∙ get_or-overlay xs ys i d h (omega arith)
  get_or-overlay_at [] (suc off) ys i d h k = absurd (omega arith)
  get_or-overlay_at (x ∷ xs) (suc off) ys i d h k =
      let e : suc off + i ≡ suc (off + i) = omega arith in
      ap (λ (n : ℕ). get_or (overlay_at (x ∷ xs) (suc off) ys) n d) e
      ∙ get_or-overlay_at xs off ys i d h (omega arith)

module _ {ℓ} {A : Type ℓ} where
  pub length-modify : (xs : List A) (i : ℕ) (f : A → A) → length (modify xs i f) ≡ length xs
  length-modify [] i f = refl
  length-modify (x ∷ xs) zero f = refl
  length-modify (x ∷ xs) (suc i) f = ap suc (length-modify xs i f)

  pub get_or-modify_self :
      (xs : List A) (i : ℕ) (f : A → A) (d : A)
      → i < length xs
      → get_or (modify xs i f) i d ≡ f (get_or xs i d)
  get_or-modify_self [] i f d h = elim h [ ]
  get_or-modify_self (x ∷ xs) zero f d h = refl
  get_or-modify_self (x ∷ xs) (suc i) f d h = get_or-modify_self xs i f d (omega arith)

  pub get_or-modify_ne :
      (xs : List A) (i j : ℕ) (f : A → A) (d : A)
      → i ≢ j
      → get_or (modify xs i f) j d ≡ get_or xs j d
  get_or-modify_ne [] i j f d h = refl
  get_or-modify_ne (x ∷ xs) zero zero f d h = absurd (h refl)
  get_or-modify_ne (x ∷ xs) zero (suc j) f d h = refl
  get_or-modify_ne (x ∷ xs) (suc i) zero f d h = refl
  get_or-modify_ne (x ∷ xs) (suc i) (suc j) f d h = get_or-modify_ne xs i j f d (λ e. h (ap suc e))

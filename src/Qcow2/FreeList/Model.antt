-- ===== src/Qcow2/FreeList/Model.antt =====
-- The allocator on a list of free extents and a cursor, and what it promises.
use lbd.Prelude.{
  ℕ, ◌+◌, ◌-◌, ◌≤◌, ◌<◌, ◌^◌, ◌≡◌, refl, List, [], ◌∷◌, ◌++◌, arith, leb, if◌then◌else◌, Option,
  none, some, inl, inr, add64, ◌⊎◌, Bool-cases, subst,
}
use lbd.Format.Bytes.{Apart}
use lbd.Qcow2.Space.{free_scan_limit, free_entry_min}
use lbd.Qcow2.FreeList.{Extent, ApartAll, Spaced}
use lbd.Qcow2.FreeList.Fit.{Found, find_fit, find_fit-append, Spaced-remove}

-- What is left of an extent goes to the front, if an entry fits in it.
abbrev pub split_list : ℕ → ℕ → List Extent → List Extent
split_list s rest xs = if leb free_entry_min rest then (s, rest) ∷ xs else xs

-- The position given out, the cursor, and the free extents afterwards.
abbrev pub Allocated : Type 0
Allocated = ℕ × ℕ × List Extent

abbrev pub allocated : ℕ → ℕ → List Extent → Option Found → Allocated
allocated needed cursor xs none = (cursor, add64 cursor needed, xs)
allocated needed cursor xs (some (front, p, n, rest)) =
    (p, cursor, split_list (p + needed) (n - needed) (front ++ rest))

-- First fit among the first eight extents; what is left of an extent is kept if an entry fits in it;
-- without a fit the space is taken at the cursor.
unfoldable pub allocate : ℕ → ℕ → List Extent → Allocated
allocate needed cursor xs = allocated needed cursor xs (find_fit free_scan_limit needed xs)

pub ApartAll-inside :
    (p n s r : ℕ) (xs : List Extent) → p ≤ s → s + r ≤ p + n → ApartAll p n xs → ApartAll s r xs
ApartAll-inside p n s r [] h g a = tt
ApartAll-inside p n s r ((q, m) ∷ xs) h g a =
    (ground (arith, a.0), ApartAll-inside p n s r xs h g a.1)

Apart-sym : (p n q m : ℕ) → Apart p n q m → Apart q m p n
Apart-sym p n q m (inl h) = inr h
Apart-sym p n q m (inr h) = inl h

-- The extent in the middle meets none of the others.
pub ApartAll-middle :
    (front : List Extent) (p n : ℕ) (rest : List Extent)
    → Spaced (front ++ (p, n) ∷ rest)
    → ApartAll p n (front ++ rest)
ApartAll-middle [] p n rest s = s.4
ApartAll-middle ((q, m) ∷ front) p n rest s =
    (Apart-sym q m p n (meets front s.4), ApartAll-middle front p n rest s.5)
  where
    meets : (ys : List Extent) → ApartAll q m (ys ++ (p, n) ∷ rest) → Apart q m p n
    meets [] a = a.0
    meets (e ∷ ys) a = meets ys a.1

pub Spaced-middle :
    (front : List Extent) (p n : ℕ) (rest : List Extent)
    → Spaced (front ++ (p, n) ∷ rest)
    → (56 ≤ p) × (16 ≤ n) × (n < 2 ^ 32) × (p + n < 2 ^ 64)
Spaced-middle [] p n rest s = (s.0, s.1, s.2, s.3)
Spaced-middle (e ∷ front) p n rest s = Spaced-middle front p n rest s.5

-- What is left of a free extent is an extent that meets no other.
pub Spaced-leftover :
    (front : List Extent) (p n : ℕ) (rest : List Extent) (needed : ℕ)
    → needed ≤ n
    → Spaced (front ++ (p, n) ∷ rest)
    → free_entry_min ≤ n - needed
    → Spaced ((p + needed, n - needed) ∷ front ++ rest)
Spaced-leftover front p n rest needed le s big =
    let (low, entry, word, top) = Spaced-middle front p n rest s in
    (
      omega arith,
      big,
      omega arith,
      omega arith,
      ApartAll-inside p n (p + needed) (n - needed) (front ++ rest) (omega arith) (omega arith)
          (ApartAll-middle front p n rest s),
      Spaced-remove front (p, n) rest s,
    )

-- Every extent ends at or before the cursor.
abbrev pub Below : ℕ → List Extent → Type 0
Below cursor [] = Unit {0}
Below cursor ((p, n) ∷ xs) = (p + n ≤ cursor) × Below cursor xs

abbrev pub free_bytes : List Extent → ℕ
free_bytes [] = 0
free_bytes ((p, n) ∷ xs) = n + free_bytes xs

Below-remove :
    (cursor : ℕ) (front : List Extent) (p n : ℕ) (rest : List Extent)
    → Below cursor (front ++ (p, n) ∷ rest)
    → (p + n ≤ cursor) × Below cursor (front ++ rest)
Below-remove cursor [] p n rest b = b
Below-remove cursor ((q, m) ∷ front) p n rest b =
    let (here, others) = Below-remove cursor front p n rest b.1 in (here, (b.0, others))

Below-ApartAll :
    (cursor needed : ℕ) (xs : List Extent) → Below cursor xs → ApartAll cursor needed xs
Below-ApartAll cursor needed [] b = tt
Below-ApartAll cursor needed ((p, n) ∷ xs) b = (inr b.0, Below-ApartAll cursor needed xs b.1)

Below-le :
    (cursor cursor' : ℕ) (xs : List Extent) → cursor ≤ cursor' → Below cursor xs → Below cursor' xs
Below-le cursor cursor' [] h b = tt
Below-le cursor cursor' ((p, n) ∷ xs) h b = (omega arith, Below-le cursor cursor' xs h b.1)

free_bytes_remove :
    (front : List Extent) (p n : ℕ) (rest : List Extent)
    → free_bytes (front ++ (p, n) ∷ rest) ≡ n + free_bytes (front ++ rest)
free_bytes_remove [] p n rest = refl
free_bytes_remove ((q, m) ∷ front) p n rest = omega (arith, free_bytes_remove front p n rest)

-- What an allocation of `needed` bytes at `phys` may do to a cursor and free extents: the space given
-- out meets no extent that is still free and lies below the new cursor, as these do; it was taken at
-- the cursor with the extents unchanged, or out of an extent, of which fewer than 16 bytes are lost.
pub record Grant (needed cursor : ℕ) (xs : List Extent) (phys cursor' : ℕ) (ys : List Extent)
    : Type 0 where
  pub apart : ApartAll phys needed ys
  pub inside : phys + needed ≤ cursor'
  pub below : Below cursor' ys
  pub accounted :
      ((phys ≡ cursor) × (cursor' ≡ cursor + needed) × (free_bytes ys ≡ free_bytes xs))
      ⊎ ((cursor' ≡ cursor)
          × (free_bytes ys + needed ≤ free_bytes xs)
          × (free_bytes xs < free_bytes ys + needed + free_entry_min))

split-Grant :
    (needed cursor : ℕ) (front : List Extent) (p n : ℕ) (rest : List Extent)
    → needed ≤ n
    → Spaced (front ++ (p, n) ∷ rest)
    → Below cursor (front ++ (p, n) ∷ rest)
    → Grant needed cursor
        (front ++ (p, n) ∷ rest)
        p
        cursor
        (split_list (p + needed) (n - needed) (front ++ rest))
split-Grant needed cursor front p n rest le s b =
    let (ends, others) = Below-remove cursor front p n rest b in
    let apart =
      ApartAll-inside p n p needed (front ++ rest) (omega arith) (omega arith)
        (ApartAll-middle front p n rest s) in
    let sum = free_bytes_remove front p n rest in
    elim (Bool-cases (leb free_entry_min (n - needed))) [
      | inl e ↦ record {
        apart = rw e (inl (omega arith), apart);
        inside = omega arith;
        below = rw e (omega arith, others);
        accounted = rw e (inr (refl, omega (arith, sum), omega (arith, sum)));
      }
      | inr e ↦ record {
        apart = rw e apart;
        inside = omega arith;
        below = rw e others;
        accounted = rw e (inr (refl, omega (arith, sum), ground (arith, sum)));
      }
    ]

pub allocated-Grant :
    (needed cursor : ℕ) (xs : List Extent) (r : Option Found)
    → find_fit free_scan_limit needed xs ≡ r
    → cursor + needed < 2 ^ 64
    → Spaced xs
    → Below cursor xs
    → let (phys, cursor', ys) = allocated needed cursor xs r in
      Grant needed cursor xs phys cursor' ys
allocated-Grant needed cursor xs none e room s b =
    let sum : add64 cursor needed ≡ cursor + needed = omega arith in
    rw sum (record {
      apart = Below-ApartAll cursor needed xs b;
      inside = omega arith;
      below = Below-le cursor (cursor + needed) xs (omega arith) b;
      accounted = inl (refl, refl, refl);
    })
allocated-Grant needed cursor xs (some (front, p, n, rest)) e room s b =
    let (at, le) = find_fit-append free_scan_limit needed xs front p n rest e in
    rw at
      (split-Grant needed cursor front p n rest le (subst Spaced at s) (subst (Below cursor) at b))

-- ===== src/Qcow2/FreeList/Fit.antt =====
-- The search of the allocator as a function on the list of extents: the first of the next `limit`
-- extents that is large enough, with the extents before and behind it.
use lbd.Prelude.{
  ℕ, zero, suc, ◌+◌, ◌≤◌, ◌<◌, ◌^◌, ◌≡◌, List, [], ◌∷◌, ◌++◌, arith, leb, if◌then◌else◌, Option,
  none, some, inl, inr, Option-cases,
}
use lbd.Format.{be64}
use lbd.Format.Bytes.{Apart}
use lbd.Disk.{window, patch, window-patch-Apart}
use lbd.Qcow2.FreeList.{Extent, next_of, FreeList, ApartAll, Spaced, FreeList-relink}

abbrev pub Found : Type 0
Found = List Extent × ℕ × ℕ × List Extent

abbrev pub behind : Extent → Option Found → Option Found
behind e none = none
behind e (some (front, p, n, rest)) = some (e ∷ front, p, n, rest)

unfoldable pub find_fit : ℕ → ℕ → List Extent → Option Found
find_fit zero needed xs = none
find_fit (suc limit) needed [] = none
find_fit (suc limit) needed ((p, n) ∷ xs) =
    if leb needed n then some ([], p, n, xs) else behind (p, n) (find_fit limit needed xs)

-- The extent found stands in the list and is large enough.
pub find_fit-append :
    (limit needed : ℕ) (xs front : List Extent) (p n : ℕ) (rest : List Extent)
    → find_fit limit needed xs ≡ some (front, p, n, rest)
    → (xs ≡ front ++ (p, n) ∷ rest) × (needed ≤ n)
unfolding find_fit
find_fit-append zero needed xs front p n rest h = cc
find_fit-append (suc limit) needed [] front p n rest h = cc
find_fit-append (suc limit) needed ((q, m) ∷ xs) front p n rest h =
    elim (Option-cases (find_fit limit needed xs)) [
      | inl e ↦ ground arith
      | inr ((front', p', n', rest'), e) ↦
          ground (arith, find_fit-append limit needed xs front' p' n' rest' e)
    ]

ApartAll-remove :
    (q m : ℕ) (front : List Extent) (e : Extent) (rest : List Extent)
    → ApartAll q m (front ++ e ∷ rest)
    → ApartAll q m (front ++ rest)
ApartAll-remove q m [] e rest a = a.1
ApartAll-remove q m (f ∷ front) e rest a = (a.0, ApartAll-remove q m front e rest a.1)

pub Spaced-remove :
    (front : List Extent) (e : Extent) (rest : List Extent)
    → Spaced (front ++ e ∷ rest)
    → Spaced (front ++ rest)
Spaced-remove [] e rest s = s.5
Spaced-remove ((p, n) ∷ front) e rest s =
    (s.0, s.1, s.2, s.3, ApartAll-remove p n front e rest s.4, Spaced-remove front e rest s.5)

-- The head of a list in a well-formed file is a u64.
pub FreeList-head_bound :
    (c : ℕ → ℕ) (size head : ℕ) (xs : List Extent)
    → Spaced xs
    → FreeList c size head xs
    → head < 2 ^ 64
FreeList-head_bound c size head [] s f = omega arith
FreeList-head_bound c size head ((p, n) ∷ xs) s f = ground (arith, f.0, s.3)

ApartAll-mem :
    (p n : ℕ) (front : List Extent) (q m : ℕ) (rest : List Extent)
    → ApartAll p n (front ++ (q, m) ∷ rest)
    → Apart p n q m
ApartAll-mem p n [] q m rest a = a.0
ApartAll-mem p n (e ∷ front) q m rest a = ApartAll-mem p n front q m rest a.1

Spaced-mem :
    (front : List Extent) (q m : ℕ) (rest : List Extent) → Spaced (front ++ (q, m) ∷ rest) → 16 ≤ m
Spaced-mem [] q m rest s = s.1
Spaced-mem (e ∷ front) q m rest s = Spaced-mem front q m rest s.5

-- The extent behind `(q, m)` is taken off the list by a write of its next pointer to `q`.
pub FreeList-unlink :
    (c : ℕ → ℕ) (size size' head : ℕ) (front : List Extent) (q m p n : ℕ) (rest : List Extent)
    → size ≤ size'
    → Spaced (front ++ (q, m) ∷ (p, n) ∷ rest)
    → FreeList c size head (front ++ (q, m) ∷ (p, n) ∷ rest)
    → FreeList (patch c (q + 8) (be64 (next_of c p))) size' head (front ++ (q, m) ∷ rest)
FreeList-unlink c size size' head [] q m p n rest g s f = rw f.0 (
    FreeList-relink c size size' q m (next_of c p) rest g
      (FreeList-head_bound c size (next_of c p) rest s.5.5 f.5.5)
      (Spaced-remove ((q, m) ∷ []) (p, n) rest s) f.1 f.2 f.3 f.4 f.5.5)
FreeList-unlink c size size' head ((a, b) ∷ front) q m p n rest g s f =
    let same : window (patch c (q + 8) (be64 (next_of c p))) a 16 ≡ window c a 16 =
      window-patch-Apart c (q + 8) (be64 (next_of c p)) a 16 (
        ground (
          arith,
          ApartAll-mem a b front q m ((p, n) ∷ rest) s.4,
          Spaced-mem front q m ((p, n) ∷ rest) s.5,
          s.1,
        )) in
    rw same (
      f.0,
      f.1,
      omega arith,
      f.3,
      f.4,
      FreeList-unlink c size size' (next_of c a) front q m p n rest g s.5 f.5,
    )

-- ===== src/Qcow2/FreeList.antt =====
-- The on-disk free list of src/lbd_qcow2.c as a list of extents.
pub mod Fit
pub mod Model
use lbd.Prelude.{
  ℕ, zero, suc, ◌+◌, ◌-◌, ◌≤◌, ◌<◌, ◌^◌, ◌≡◌, ◌≢◌, refl, ap, ◌∙◌, sym, List, [], ◌∷◌, ◌++◌, length,
  get_or, arith, ltb, leb, if◌then◌else◌, Option, none, some, Bool, true, false, inl, inr,
}
use lbd.Format.{be64, get32, get64, free_tombstone}
use lbd.Format.Bytes.{Apart}
use lbd.Disk.{
  window, patch, window-patch-Apart, window-patch_self, patch_in, patch_out, get_or-window,
}
use lbd.Qcow2.Space.{tombstone}

-- Position and size.
abbrev pub Extent : Type 0
Extent = ℕ × ℕ

abbrev pub next_of : (ℕ → ℕ) → ℕ → ℕ
next_of c p = get64 (window c p 16) 8

-- From `head` the next pointers lead through the tombstones of the extents, in order, to 0.
abbrev pub FreeList : (ℕ → ℕ) → ℕ → ℕ → List Extent → Type 0
FreeList c size head [] = head ≡ 0
FreeList c size head ((p, n) ∷ xs) =
    (head ≡ p)
    × (p ≢ 0)
    × (p + 16 ≤ size)
    × (get32 (window c p 16) 0 ≡ free_tombstone)
    × (get32 (window c p 16) 4 ≡ n)
    × FreeList c size (next_of c p) xs

-- The extent `(p, n)` meets none of the list.
abbrev pub ApartAll : ℕ → ℕ → List Extent → Type 0
ApartAll p n [] = Unit {0}
ApartAll p n ((q, m) ∷ xs) = Apart p n q m × ApartAll p n xs

-- The extents lie behind the fields of the header, hold a tombstone, fit their words, and do not
-- meet each other.
abbrev pub Spaced : List Extent → Type 0
Spaced [] = Unit {0}
Spaced ((p, n) ∷ xs) =
    (56 ≤ p) × (16 ≤ n) × (n < 2 ^ 32) × (p + n < 2 ^ 64) × ApartAll p n xs × Spaced xs

-- A write that meets no extent of the list keeps the list.
pub FreeList-patch :
    (c : ℕ → ℕ) (size size' at : ℕ) (bs : List ℕ) (head : ℕ) (xs : List Extent)
    → size ≤ size'
    → ApartAll at (length bs) xs
    → Spaced xs
    → FreeList c size head xs
    → FreeList (patch c at bs) size' head xs
FreeList-patch c size size' at bs head [] g a s f = f
FreeList-patch c size size' at bs head ((p, n) ∷ xs) g a s f =
    let same : window (patch c at bs) p 16 ≡ window c p 16 =
      window-patch-Apart c at bs p 16 (ground arith) in
    rw same (
      f.0,
      f.1,
      omega arith,
      f.3,
      f.4,
      FreeList-patch c size size' at bs (next_of c p) xs g a.1 s.5 f.5,
    )

-- A larger file, the same contents.
pub FreeList-grows :
    (c : ℕ → ℕ) (size size' head : ℕ) (xs : List Extent)
    → size ≤ size'
    → FreeList c size head xs
    → FreeList c size' head xs
FreeList-grows c size size' head [] g f = f
FreeList-grows c size size' head ((p, n) ∷ xs) g f =
    (f.0, f.1, omega arith, f.3, f.4, FreeList-grows c size size' (next_of c p) xs g f.5)

length-tombstone : (n next : ℕ) → length (tombstone n next) ≡ 16
length-tombstone n next = refl

tombstone_marker : (n next : ℕ) → get32 (tombstone n next) 0 ≡ free_tombstone
unfolding get32
tombstone_marker n next = omega arith

tombstone_size : (n next : ℕ) → n < 2 ^ 32 → get32 (tombstone n next) 4 ≡ n
unfolding get32
tombstone_size n next h = omega arith

tombstone_next : (n next : ℕ) → next < 2 ^ 64 → get64 (tombstone n next) 8 ≡ next
unfolding get64
tombstone_next n next h = omega arith

-- A tombstone written at an extent that meets none of the list puts it in front of the list.
pub FreeList-cons :
    (c : ℕ → ℕ) (size size' p n head : ℕ) (xs : List Extent)
    → size ≤ size'
    → p + 16 ≤ size'
    → head < 2 ^ 64
    → Spaced ((p, n) ∷ xs)
    → FreeList c size head xs
    → FreeList (patch c p (tombstone n head)) size' p ((p, n) ∷ xs)
FreeList-cons c size size' p n head xs g h w s f =
    let seen : window (patch c p (tombstone n head)) p 16 ≡ tombstone n head =
      window-patch_self c p (tombstone n head) in
    rw seen (
      refl,
      ground arith,
      h,
      tombstone_marker n head,
      tombstone_size n head s.2,
      rw (tombstone_next n head w) (
          FreeList-patch c size size' p (tombstone n head) head xs g (apart16 p n xs s.1 s.4) s.5
            f),
    )
  where
    apart16 : (p n : ℕ) (ys : List Extent) → 16 ≤ n → ApartAll p n ys → ApartAll p 16 ys
    apart16 p n [] l a = tt
    apart16 p n ((q, m) ∷ ys) l a = (ground arith, apart16 p n ys l a.1)

-- The next pointer of `q` is set to `v`: what its tombstone shows afterwards.
module _ (c : ℕ → ℕ) (q v : ℕ) where
  relink_byte :
      (i : ℕ)
      → i < 8
      → get_or (window (patch c (q + 8) (be64 v)) q 16) i 0 ≡ get_or (window c q 16) i 0
  relink_byte i h =
      get_or-window (patch c (q + 8) (be64 v)) q 16 i (omega arith)
      ∙ patch_out c (q + 8) (be64 v) (q + i) (ground arith)
      ∙ sym (get_or-window c q 16 i (omega arith))

  relink_tail :
      (i j : ℕ)
      → j ≡ 8 + i
      → i < 8
      → get_or (window (patch c (q + 8) (be64 v)) q 16) j 0 ≡ get_or (be64 v) i 0
  relink_tail i j e h =
      get_or-window (patch c (q + 8) (be64 v)) q 16 j (omega arith)
      ∙ patch_in c (q + 8) (be64 v) i (q + j) (omega arith) h

  relink_word :
      (i : ℕ)
      → i + 4 ≤ 8
      → get32 (window (patch c (q + 8) (be64 v)) q 16) i ≡ get32 (window c q 16) i
  unfolding get32
  relink_word i h = omega (
    arith,
    relink_byte (i + 0) (omega arith),
    relink_byte (i + 1) (omega arith),
    relink_byte (i + 2) (omega arith),
    relink_byte (i + 3) (omega arith),
  )

  relink_next : v < 2 ^ 64 → next_of (patch c (q + 8) (be64 v)) q ≡ v
  unfolding get64
  relink_next h =
      let tail : (i : ℕ)
          → i < 8
          → get_or (window (patch c (q + 8) (be64 v)) q 16) (8 + i) 0 ≡ get_or (be64 v) i 0 =
        λ i l. relink_tail i (8 + i) refl l in
      omega (
        arith,
        tail 0 (omega arith),
        tail 1 (omega arith),
        tail 2 (omega arith),
        tail 3 (omega arith),
        tail 4 (omega arith),
        tail 5 (omega arith),
        tail 6 (omega arith),
        tail 7 (omega arith),
      )

-- The extent `(q, m)` is linked to `v` instead of its successor, and the list behind it is `rest`.
pub FreeList-relink :
    (c : ℕ → ℕ) (size size' q m v : ℕ) (rest : List Extent)
    → size ≤ size'
    → v < 2 ^ 64
    → Spaced ((q, m) ∷ rest)
    → q ≢ 0
    → q + 16 ≤ size
    → get32 (window c q 16) 0 ≡ free_tombstone
    → get32 (window c q 16) 4 ≡ m
    → FreeList c size v rest
    → FreeList (patch c (q + 8) (be64 v)) size' q ((q, m) ∷ rest)
FreeList-relink c size size' q m v rest g w s ne fits mark sz f = (
  refl,
  ne,
  omega arith,
  relink_word c q v 0 (omega arith) ∙ mark,
  relink_word c q v 4 (omega arith) ∙ sz,
  rw (relink_next c q v w)
      (FreeList-patch c size size' (q + 8) (be64 v) v rest g (inner rest s.4) s.5 f),
)
  where
    inner : (ys : List Extent) → ApartAll q m ys → ApartAll (q + 8) 8 ys
    inner [] a = tt
    inner ((p, n) ∷ ys) a = (ground (arith, s.1), inner ys a.1)

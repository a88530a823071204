-- ===== src/Disk.antt =====
-- The contents of a file as a function of the position, and what the driver relies on where a disk
-- works: a read inside the file returns its bytes, a write stores all of its bytes and nothing else,
-- and memory has nothing to do with files.
use lbd.Prelude.{
  ℕ, zero, suc, ◌+◌, ◌-◌, ◌≤◌, ◌<◌, ◌≡◌, refl, ap, ◌∙◌, ◌&&◌, List, [], ◌∷◌, ◌++◌, ltb, leb,
  if◌then◌else◌, length, get_or, arith, ◌⊎◌, inl, inr,
}
use lbd.Format.Bytes.{Apart}
use lbd.Kernel.{Kernel, got, wrote}

-- `n` bytes from `pos + i` on.
unfoldable pub window_from : (ℕ → ℕ) → ℕ → ℕ → ℕ → List ℕ
window_from c pos i zero = []
window_from c pos i (suc n) = c (pos + i) ∷ window_from c pos (suc i) n

unfoldable pub window : (ℕ → ℕ) → ℕ → ℕ → List ℕ
unfolding window_from
window c pos n = window_from c pos 0 n

-- The contents after a write of `bs` at `pos`.
unfoldable pub patch : (ℕ → ℕ) → ℕ → List ℕ → ℕ → ℕ
patch c pos bs a = if leb pos a && ltb a (pos + length bs) then get_or bs (a - pos) 0 else c a

pub record Disk (k : Kernel) : Type 0 where
  pub peek : k.World → k.File → ℕ → ℕ
  pub size : k.World → k.File → ℕ
  pub read_whole :
      (f : k.File) (n pos : ℕ) (w : k.World)
      → pos + n ≤ size w f
      → (k.kernel_read f n pos w).0 ≡ got (window (peek w f) pos n)
  pub alloc_keeps : (f : k.File) (n : ℕ) (w : k.World) → peek (k.kvmalloc n w).1 f ≡ peek w f
  pub alloc_size : (f : k.File) (n : ℕ) (w : k.World) → size (k.kvmalloc n w).1 f ≡ size w f
  pub read_keeps :
      (f : k.File) (n pos : ℕ) (w : k.World) → peek (k.kernel_read f n pos w).1 f ≡ peek w f
  pub read_size :
      (f : k.File) (n pos : ℕ) (w : k.World) → size (k.kernel_read f n pos w).1 f ≡ size w f
  pub write_whole :
      (f : k.File) (bs : List ℕ) (pos : ℕ) (w : k.World)
      → (k.kernel_write f bs pos w).0 ≡ wrote (length bs)
  pub write_puts :
      (f : k.File) (bs : List ℕ) (pos : ℕ) (w : k.World)
      → peek (k.kernel_write f bs pos w).1 f ≡ patch (peek w f) pos bs
  pub write_grows :
      (f : k.File) (bs : List ℕ) (pos : ℕ) (w : k.World)
      → size w f ≤ size (k.kernel_write f bs pos w).1 f
  pub write_holds :
      (f : k.File) (bs : List ℕ) (pos : ℕ) (w : k.World)
      → pos + length bs ≤ size (k.kernel_write f bs pos w).1 f

pub patch_in :
    (c : ℕ → ℕ) (pos : ℕ) (bs : List ℕ) (i a : ℕ)
    → a ≡ pos + i
    → i < length bs
    → patch c pos bs a ≡ get_or bs i 0
unfolding patch
patch_in c pos bs i a e h =
    let d : a - pos ≡ i = omega arith in
    lbd.Prelude.sym (ground (arith, ap (λ (n : ℕ). get_or bs n 0) d))

pub patch_out :
    (c : ℕ → ℕ) (pos : ℕ) (bs : List ℕ) (a : ℕ) → Apart a 1 pos (length bs) → patch c pos bs a ≡ c a
unfolding patch
patch_out c pos bs a h = ground arith

pub length-window_from : (c : ℕ → ℕ) (pos i n : ℕ) → length (window_from c pos i n) ≡ n
unfolding window_from
length-window_from c pos i zero = refl
length-window_from c pos i (suc n) = ap suc (length-window_from c pos (suc i) n)

window_from-patch-Apart :
    (c : ℕ → ℕ) (at : ℕ) (bs : List ℕ) (pos i n : ℕ)
    → Apart (pos + i) n at (length bs)
    → window_from (patch c at bs) pos i n ≡ window_from c pos i n
unfolding window_from
window_from-patch-Apart c at bs pos i zero h = refl
window_from-patch-Apart c at bs pos i (suc n) h = rw (patch_out c at bs (pos + i) (omega arith)) (
    ap (λ (l : List ℕ). c (pos + i) ∷ l)
      (window_from-patch-Apart c at bs pos (suc i) n (omega arith)))

-- A window that a write does not meet stays.
pub window-patch-Apart :
    (c : ℕ → ℕ) (at : ℕ) (bs : List ℕ) (pos n : ℕ)
    → Apart pos n at (length bs)
    → window (patch c at bs) pos n ≡ window c pos n
unfolding window
window-patch-Apart c at bs pos n h = window_from-patch-Apart c at bs pos 0 n (omega arith)

window_from-values :
    (c : ℕ → ℕ) (pos i : ℕ) (bs : List ℕ)
    → ((j : ℕ) → j < length bs → c (pos + (i + j)) ≡ get_or bs j 0)
    → window_from c pos i (length bs) ≡ bs
unfolding window_from
window_from-values c pos i [] h = refl
window_from-values c pos i (b ∷ bs) h =
    let here : i + 0 ≡ i = omega arith in
    let first : c (pos + i) ≡ b =
      ap (λ (n : ℕ). c (pos + n)) (lbd.Prelude.sym here) ∙ h 0 (omega arith) in
    rw first (
      ap (λ (l : List ℕ). b ∷ l)
        (window_from-values c pos (suc i) bs (λ j l.
          let e : suc i + j ≡ i + suc j = omega arith in
          ap (λ (n : ℕ). c (pos + n)) e ∙ h (suc j) (omega arith))))

-- What a write stored is what the window there shows.
pub window-patch_self :
    (c : ℕ → ℕ) (pos : ℕ) (bs : List ℕ) → window (patch c pos bs) pos (length bs) ≡ bs
unfolding window
window-patch_self c pos bs =
    window_from-values (patch c pos bs) pos 0 bs
      (λ j h. patch_in c pos bs j (pos + (0 + j)) (omega arith) h)

pub length-window : (c : ℕ → ℕ) (pos n : ℕ) → length (window c pos n) ≡ n
unfolding window
length-window c pos n = length-window_from c pos 0 n

get_or-window_from :
    (c : ℕ → ℕ) (pos j n i : ℕ) → i < n → get_or (window_from c pos j n) i 0 ≡ c (pos + (j + i))
unfolding window_from
get_or-window_from c pos j zero i h = absurd (omega arith)
get_or-window_from c pos j (suc n) zero h =
    let e : j ≡ j + 0 = omega arith in ap (λ (m : ℕ). c (pos + m)) e
get_or-window_from c pos j (suc n) (suc i) h =
    let e : suc j + i ≡ j + suc i = omega arith in
    get_or-window_from c pos (suc j) n i (omega arith) ∙ ap (λ (m : ℕ). c (pos + m)) e

pub get_or-window : (c : ℕ → ℕ) (pos n i : ℕ) → i < n → get_or (window c pos n) i 0 ≡ c (pos + i)
unfolding window
get_or-window c pos n i h =
    let e : 0 + i ≡ i = omega arith in
    get_or-window_from c pos 0 n i h ∙ ap (λ (m : ℕ). c (pos + m)) e

window_from-append :
    (c : ℕ → ℕ) (pos i n m : ℕ)
    → window_from c pos i (n + m) ≡ window_from c pos i n ++ window_from c pos (i + n) m
unfolding window_from
window_from-append c pos i zero m =
    let a : 0 + m ≡ m = omega arith in let b : i + 0 ≡ i = omega arith in rw (a, b) refl
window_from-append c pos i (suc n) m =
    let a : suc n + m ≡ suc (n + m) = omega arith in
    let b : i + suc n ≡ suc i + n = omega arith in
    rw (a, b) (ap (λ (l : List ℕ). c (pos + i) ∷ l) (window_from-append c pos (suc i) n m))

-- A write at the end of what a window shows.
pub window-patch_end :
    (c : ℕ → ℕ) (n : ℕ) (bs : List ℕ) → window (patch c n bs) 0 (n + length bs) ≡ window c 0 n ++ bs
unfolding window
window-patch_end c n bs =
    let kept : window_from (patch c n bs) 0 0 n ≡ window_from c 0 0 n =
      window_from-patch-Apart c n bs 0 0 n (inl (omega arith)) in
    let added : window_from (patch c n bs) 0 (0 + n) (length bs) ≡ bs =
      window_from-values (patch c n bs) 0 (0 + n) bs
        (λ j h. patch_in c n bs j (0 + (0 + n + j)) (omega arith) h) in
    window_from-append (patch c n bs) 0 0 n (length bs)
    ∙ ap (λ (l : List ℕ). l ++ window_from (patch c n bs) 0 (0 + n) (length bs)) kept
    ∙ ap (λ (l : List ℕ). window_from c 0 0 n ++ l) added

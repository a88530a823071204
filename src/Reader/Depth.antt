-- ===== src/Reader/Depth.antt =====
-- `cbor_skip` (src/lbdctl.c) and the depth that a file's size bounds.
use lbd.Prelude.{
  ℕ, zero, suc, ◌*◌, ◌≤◌, ◌<◌, ◌≡◌, refl, ap, ◌∙◌, subst, ◌≢◌, ◌⊎◌, inl, inr, Bool, true, false,
  ◌||◌, arith, List, length, ◌==◌, if◌then◌else◌,
}
use lbd.Reader.{Input, Res, ok, at_end, bad, Reader, pure, fail, and_then}
use lbd.Reader.Cbor.{cbor_read_head}
use lbd.Reader.Skip.{skip_bytes, inner, skip_items, skip_body, cbor_skip}
use lbd.Reader.Laws.{Serves}
use lbd.Reader.Segment.{SegmentHeader, Shown, out_of_rounds, shown, cmd_log_cbor}
use lbd.Reader.Terminates.{cmd_log_cbor_ends}
use lbd.Reader.Shrinks.{left, Shrinks, cbor_read_head-taken, Shrinks-skip}

module _ {input : Input} (s : Serves input) where
  -- Two readers that do the same on at most so many bytes.
  abbrev Agree : ℕ → Reader input.World (Unit {0}) → Reader input.World (Unit {0}) → Type 0
  Agree n m m' = (w : input.World) → left s w ≤ n → m w ≡ m' w

  if-Agree :
      {A : Type 0} (b : Bool) (x x' y y' : Reader input.World A) (w : input.World)
      → x w ≡ x' w
      → y w ≡ y' w
      → (if b then x else y) w ≡ (if b then x' else y') w
  if-Agree true x x' y y' w p q = p
  if-Agree false x x' y y' w p q = q

  skip_items-Agree :
      (m m' : Reader input.World (Unit {0})) (n k : ℕ)
      → Shrinks s m
      → Agree k m m'
      → Agree k (skip_items input m n) (skip_items input m' n)
  unfolding skip_items
  skip_items-Agree m m' zero k p a w l = refl
  skip_items-Agree m m' (suc n) k p a w l =
      ap (λ r. and_then (inner input r) (λ u. skip_items input m n)) (a w l)
      ∙ behind (m' w)
          (subst (λ (r : Res (Unit {0}) × input.World). left s r.1 ≤ left s w) (a w l)
            (p.shrinks w))
          (skip_items-Agree m m' n k p a)
    where
      behind :
          (r : Res (Unit {0}) × input.World)
          → left s r.1 ≤ left s w
          → Agree k (skip_items input m n) (skip_items input m' n)
          → and_then (inner input r) (λ u. skip_items input m n)
            ≡ and_then (inner input r) (λ u. skip_items input m' n)
      behind (ok tt, w') h c = c w' (omega arith)
      behind (at_end, w') h c = refl
      behind (bad, w') h c = refl

  skip_body-Agree :
      (m m' : Reader input.World (Unit {0})) (h : ℕ × ℕ) (k : ℕ)
      → Shrinks s m
      → Agree k m m'
      → Agree k (skip_body input m h) (skip_body input m' h)
  unfolding skip_body
  skip_body-Agree m m' (major, val) k p a w l =
      if-Agree (major == 0 || major == 1 || major == 7) (pure tt) (pure tt) _ _ w refl (
        if-Agree (major == 2 || major == 3) (skip_bytes input val val) (skip_bytes input val val) _
          _ w refl
          (if-Agree (major == 4) (skip_items input m val) (skip_items input m' val) _ _ w
            (skip_items-Agree m m' val k p a w l)
            (if-Agree (major == 5) (skip_items input m (2 * val)) (skip_items input m' (2 * val))
              fail fail w (skip_items-Agree m m' (2 * val) k p a w l) refl)))

  -- Any two depths above the number of bytes that are left give the same.
  cbor_skip_deep :
      (depth depth' : ℕ) (w : input.World)
      → left s w < depth
      → left s w < depth'
      → cbor_skip input depth w ≡ cbor_skip input depth' w
  unfolding cbor_skip
  cbor_skip_deep zero depth' w h k = absurd (omega arith)
  cbor_skip_deep (suc depth) zero w h k = absurd (omega arith)
  cbor_skip_deep (suc depth) (suc depth') w h k =
      behind (cbor_read_head input w) (cbor_read_head-taken s w)
        (λ w' l. cbor_skip_deep depth depth' w' (omega (arith, h)) (omega (arith, k)))
    where
      behind :
          (r : Res (ℕ × ℕ) × input.World)
          → (r.0 ≡ at_end) ⊎ (left s r.1 < left s w)
          → ((w' : input.World)
              → left s w' < left s w
              → cbor_skip input depth w' ≡ cbor_skip input depth' w')
          → and_then r (skip_body input (cbor_skip input depth))
            ≡ and_then r (skip_body input (cbor_skip input depth'))
      behind (ok p, w') (inl e) c = absurd (cc)
      behind (ok p, w') (inr l) c =
          skip_body-Agree (cbor_skip input depth) (cbor_skip input depth') p (left s w')
            (Shrinks-skip s depth) (λ w'' m. c w'' (omega arith)) w' (omega arith)
      behind (at_end, w') l c = refl
      behind (bad, w') l c = refl

-- Whatever the file holds, where the rounds and the depth are both above the number of its bytes,
-- the loop over the entries of `lbdctl log` ends before its rounds are used up; and at every point
-- with no more bytes left, skipping an item gives what it gives at any other depth that is above
-- the number of bytes left there.
pub cmd_log_cbor_enough :
    {input : Input} (s : Serves input) (rounds depth : ℕ) (w : input.World)
    → length (s.rest w) < rounds
    → length (s.rest w) < depth
    → ((h : SegmentHeader) (es : List Shown)
        → (cmd_log_cbor input depth rounds w).0 ≢ shown h es out_of_rounds)
      × ((w' : input.World) (depth' : ℕ)
          → length (s.rest w') ≤ length (s.rest w)
          → length (s.rest w') < depth'
          → cbor_skip input depth w' ≡ cbor_skip input depth' w')
cmd_log_cbor_enough s rounds depth w h k = (
  λ hdr es. cmd_log_cbor_ends s depth rounds w hdr es h,
  λ w' depth' l d. cbor_skip_deep s depth depth' w' (omega arith) d,
)

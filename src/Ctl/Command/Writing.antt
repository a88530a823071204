-- ===== src/Ctl/Command/Writing.antt =====
-- What the writers of src/lbdctl.c put into a message.
use lbd.Prelude.{
  ℕ, zero, suc, ◌+◌, ◌^◌, ◌≤◌, ◌<◌, ◌≡◌, refl, ap, ◌∙◌, List, [], ◌∷◌, ◌++◌, arith, length, take,
  overlay, overlay_at, take-overlay, length-append, length-replicate, length-overlay_at,
}
use lbd.Cbor.Write.{Msg, store, cbor_write_head}
use lbd.Cbor.Head.{head_bytes, length-head_bytes-le}
use lbd.Cbor.EncLaws.{cbor_write_head-head_bytes}
use lbd.Ctl.Command.{fresh, message}

take-overlay_at :
    (xs : List ℕ) (off : ℕ) (ys : List ℕ)
    → off + length ys ≤ length xs
    → take (off + length ys) (overlay_at xs off ys) ≡ take off xs ++ ys
take-overlay_at xs zero ys h =
    let e : 0 + length ys ≡ length ys = omega arith in
    ap (λ (n : ℕ). take n (overlay xs ys)) e ∙ take-overlay xs ys (omega arith)
take-overlay_at [] (suc off) ys h = absurd (omega arith)
take-overlay_at (x ∷ xs) (suc off) ys h =
    let e : suc off + length ys ≡ suc (off + length ys) = omega arith in
    rw e (ap (λ (l : List ℕ). x ∷ l) (take-overlay_at xs off ys (omega arith)))

-- The message so far, in an array of `size` bytes.
pub record Holds (size : ℕ) (m : Msg) (bs : List ℕ) : Type 0 where
  pub array : length m.buf ≡ size
  pub used : m.pos ≡ length bs
  pub bytes : message m ≡ bs

pub fresh-Holds : (size : ℕ) → Holds size (fresh size) []
fresh-Holds size = record { array = length-replicate size 0; used = refl; bytes = refl }

pub store-Holds :
    (size : ℕ) (m : Msg) (bs xs : List ℕ)
    → Holds size m bs
    → length bs + length xs ≤ size
    → Holds size (store m xs) (bs ++ xs)
store-Holds size m bs xs h room = record {
  array = length-overlay_at m.buf m.pos xs ∙ h.array;
  used = omega (arith, h.used, length-append bs xs);
  bytes =
      take-overlay_at m.buf m.pos xs (omega (arith, h.used, h.array))
      ∙ ap (λ (l : List ℕ). l ++ xs) h.bytes;
}

pub cbor_write_head-Holds :
    (size : ℕ) (m : Msg) (bs : List ℕ) (major v : ℕ)
    → Holds size m bs
    → major < 8
    → v < 2 ^ 64
    → length bs + 9 ≤ size
    → Holds size (cbor_write_head m major v) (bs ++ head_bytes major v)
cbor_write_head-Holds size m bs major v h small fits room =
    rw (cbor_write_head-head_bytes major v small fits m)
      (store-Holds size m bs (head_bytes major v) h (omega (arith, length-head_bytes-le major v)))

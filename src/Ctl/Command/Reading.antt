-- ===== src/Ctl/Command/Reading.antt =====
-- The decoder on a buffer whose rest is known: what an item at the front of the rest is read as.
use lbd.Prelude.{
  ℕ, zero, suc, ◌+◌, ◌^◌, ◌≤◌, ◌<◌, ◌≡◌, refl, ap, sym, ◌∙◌, List, [], ◌∷◌, ◌++◌, Option, some,
  arith, length, get_or, take, drop, length-append, length-drop, append_assoc,
}
use lbd.Cbor.Dec.{CborDec, cbor_dec_head, cbor_dec_map, cbor_dec_uint, cbor_dec_text}
use lbd.Cbor.Head.{head_bytes, length-head_bytes}
use lbd.Cbor.RoundTrip.{At, dec, cbor_dec_head-head_bytes}
use lbd.Cbor.Text.{cbor_dec_text_run}

drop-nil : (n : ℕ) → drop {A = ℕ} n [] ≡ []
drop-nil zero = refl
drop-nil (suc n) = refl

drop_add : (buf : List ℕ) (a b : ℕ) → drop (a + b) buf ≡ drop b (drop a buf)
drop_add buf zero b = let e : 0 + b ≡ b = omega arith in ap (λ (n : ℕ). drop n buf) e
drop_add [] (suc a) b = let e : suc a + b ≡ suc (a + b) = omega arith in rw e (sym (drop-nil b))
drop_add (x ∷ xs) (suc a) b =
    let e : suc a + b ≡ suc (a + b) = omega arith in rw e (drop_add xs a b)

drop-append : (xs ys : List ℕ) → drop (length xs) (xs ++ ys) ≡ ys
drop-append [] ys = refl
drop-append (x ∷ xs) ys = drop-append xs ys

take-append : (xs ys : List ℕ) → take (length xs) (xs ++ ys) ≡ xs
take-append [] ys = refl
take-append (x ∷ xs) ys = ap (λ (l : List ℕ). x ∷ l) (take-append xs ys)

get_or-drop : (buf : List ℕ) (pos i : ℕ) → get_or buf (pos + i) 0 ≡ get_or (drop pos buf) i 0
get_or-drop buf zero i = let e : 0 + i ≡ i = omega arith in ap (λ (n : ℕ). get_or buf n 0) e
get_or-drop [] (suc pos) i = refl
get_or-drop (x ∷ xs) (suc pos) i =
    let e : suc pos + i ≡ suc (pos + i) = omega arith in rw e (get_or-drop xs pos i)

get_or-append : (xs ys : List ℕ) (i : ℕ) → i < length xs → get_or (xs ++ ys) i 0 ≡ get_or xs i 0
get_or-append [] ys i h = absurd (omega arith)
get_or-append (x ∷ xs) ys zero h = refl
get_or-append (x ∷ xs) ys (suc i) h = get_or-append xs ys i (omega arith)

-- The rest of the buffer is known, so the front of it stands there.
pub rest-At :
    (buf : List ℕ) (pos : ℕ) (bs rest : List ℕ) → drop pos buf ≡ bs ++ rest → At buf pos bs
rest-At buf pos bs rest h i l =
    get_or-drop buf pos i ∙ ap (λ (r : List ℕ). get_or r i 0) h ∙ get_or-append bs rest i l

pub rest_length :
    (buf : List ℕ) (pos : ℕ) (bs rest : List ℕ)
    → drop pos buf ≡ bs ++ rest
    → 0 < length bs
    → pos + length bs ≤ length buf
rest_length buf pos bs rest h some_bytes =
    omega (arith, sym (length-drop pos buf) ∙ ap length h, length-append bs rest)

pub rest_next :
    (buf : List ℕ) (pos : ℕ) (bs rest : List ℕ)
    → drop pos buf ≡ bs ++ rest
    → drop (pos + length bs) buf ≡ rest
rest_next buf pos bs rest h =
    drop_add buf pos (length bs) ∙ ap (λ (r : List ℕ). drop (length bs) r) h ∙ drop-append bs rest

-- A call that read the value `a` and left `rest`.
pub record Reads {A : Type 0} (buf : List ℕ) (r : Option A × CborDec) (a : A) (rest : List ℕ)
    : Type 0 where
  pub next : ℕ
  pub gives : r ≡ (some a, dec buf next (length buf))
  pub left : drop next buf ≡ rest

module _ (buf : List ℕ) (pos : ℕ) where
  pub head-Reads :
      (major v : ℕ) (rest : List ℕ)
      → major < 8
      → v < 2 ^ 64
      → drop pos buf ≡ head_bytes major v ++ rest
      → Reads buf (cbor_dec_head (dec buf pos (length buf))) (major, v) rest
  head-Reads major v rest m h at =
      let one = length-head_bytes major v in
      record {
        next = pos + length (head_bytes major v);
        gives =
            cbor_dec_head-head_bytes buf pos (length buf) major v m h
              (rest-At buf pos (head_bytes major v) rest at)
              (rest_length buf pos (head_bytes major v) rest at (omega arith));
        left = rest_next buf pos (head_bytes major v) rest at;
      }

  pub uint-Reads :
      (v : ℕ) (rest : List ℕ)
      → v < 2 ^ 64
      → drop pos buf ≡ head_bytes 0 v ++ rest
      → Reads buf (cbor_dec_uint (dec buf pos (length buf))) v rest
  unfolding cbor_dec_uint
  uint-Reads v rest h at =
      let r = head-Reads 0 v rest (omega arith) h at in
      record { next = r.next; gives = rw (cbor_dec_uint, r.gives) refl; left = r.left }

  pub map-Reads :
      (v : ℕ) (rest : List ℕ)
      → v < 2 ^ 64
      → drop pos buf ≡ head_bytes 5 v ++ rest
      → Reads buf (cbor_dec_map (dec buf pos (length buf))) v rest
  unfolding cbor_dec_map
  map-Reads v rest h at =
      let r = head-Reads 5 v rest (omega arith) h at in
      record { next = r.next; gives = rw (cbor_dec_map, r.gives) refl; left = r.left }

  pub text-Reads :
      (s : List ℕ) (cap : ℕ) (rest : List ℕ)
      → length s < cap
      → length buf < 2 ^ 64
      → drop pos buf ≡ head_bytes 3 (length s) ++ (s ++ rest)
      → Reads buf (cbor_dec_text (dec buf pos (length buf)) cap) s rest
  text-Reads s cap rest short small at =
      let hb = head_bytes 3 (length s) in
      let one = length-head_bytes 3 (length s) in
      let all : drop pos buf ≡ (hb ++ s) ++ rest = at ∙ sym (append_assoc hb s rest) in
      let fits = rest_length buf pos (hb ++ s) rest all (omega (arith, length-append hb s)) in
      let behind = rest_next buf pos hb (s ++ rest) at in
      let head =
        cbor_dec_head-head_bytes buf pos (length buf) 3 (length s) (omega arith)
          (omega (arith, length-append hb s)) (rest-At buf pos hb (s ++ rest) at)
          (omega (arith, length-append hb s)) in
      record {
        next = pos + length hb + length s;
        gives =
            cbor_dec_text_run buf pos (length buf) cap (length hb) s short
              (omega (arith, length-append hb s)) small
              (ap (λ (l : List ℕ). take (length s) l) behind ∙ take-append s rest) head;
        left = rest_next buf (pos + length hb) s rest behind;
      }

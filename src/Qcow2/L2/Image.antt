-- ===== src/Qcow2/L2/Image.antt =====
-- The image of an L2 table on disk: what `lbd_qcow2_l2_flush` writes is what `lbd_qcow2_l2_get`
-- reads, and its CRC is accepted.
use lbd.Prelude.{
  ℕ, zero, suc, ◌+◌, ◌-◌, ◌*◌, ◌%◌, ◌^◌, ◌≤◌, ◌<◌, ◌≡◌, refl, ap, sym, ◌∙◌, inl, List, [], ◌∷◌,
  ◌++◌, arith, length, take, drop, replicate, overlay, overlay_at, get_or, get_or-overlay,
  length-overlay, length-overlay_at, length-replicate, length-take, length-drop,
}
use lbd.Kernel.{Kernel}
use lbd.Format.{be32, be64, get32, get64, put32}
use lbd.Format.Bytes.{get32-put32, get64-overlay_at-Apart}
use lbd.Qcow2.L2.{words_be, words_of, crc_of, l2_image}

-- Every word fits 64 bits.
abbrev pub Words : List ℕ → Type 0
Words [] = Unit {0}
Words (w ∷ ws) = (w < 2 ^ 64) × Words ws

Words-take : (n : ℕ) (ws : List ℕ) → Words ws → Words (take n ws)
Words-take zero ws h = tt
Words-take (suc n) [] h = tt
Words-take (suc n) (w ∷ ws) h = (h.0, Words-take n ws h.1)

length-words_be : (ws : List ℕ) → length (words_be ws) ≡ 8 * length ws
unfolding words_be
length-words_be [] = refl
length-words_be (w ∷ ws) = omega (arith, length-words_be ws)

take-overlay_at :
    (n : ℕ) (xs : List ℕ) (at : ℕ) (ys : List ℕ) → n ≤ at → take n (overlay_at xs at ys) ≡ take n xs
take-overlay_at zero xs at ys h = refl
take-overlay_at (suc n) xs zero ys h = absurd (omega arith)
take-overlay_at (suc n) [] (suc at) ys h = refl
take-overlay_at (suc n) (x ∷ xs) (suc at) ys h =
    ap (λ (l : List ℕ). x ∷ l) (take-overlay_at n xs at ys (omega arith))

drop-overlay_at :
    (n m at : ℕ) (xs ys : List ℕ)
    → at ≡ n + m
    → drop n (overlay_at xs at ys) ≡ overlay_at (drop n xs) m ys
drop-overlay_at zero m at xs ys e = ap (λ (i : ℕ). overlay_at xs i ys) (omega arith)
drop-overlay_at (suc n) m zero xs ys e = absurd (omega arith)
drop-overlay_at (suc n) zero (suc at) [] ys e = refl
drop-overlay_at (suc n) (suc m) (suc at) [] ys e = refl
drop-overlay_at (suc n) m (suc at) (x ∷ xs) ys e = drop-overlay_at n m at xs ys (omega arith)

drop-overlay :
    (xs ys zs : List ℕ)
    → drop (length ys) (overlay xs (ys ++ zs)) ≡ overlay (drop (length ys) xs) zs
drop-overlay xs [] zs = refl
drop-overlay [] (y ∷ ys) zs = refl
drop-overlay (x ∷ xs) (y ∷ ys) zs = drop-overlay xs ys zs

-- The words below a write stay.
words_of-overlay_at :
    (n : ℕ) (raw : List ℕ) (at : ℕ) (ys : List ℕ)
    → 8 * n ≤ at
    → words_of n (overlay_at raw at ys) ≡ words_of n raw
unfolding words_of
words_of-overlay_at zero raw at ys h = refl
words_of-overlay_at (suc n) raw at ys h =
    let one : get64 (overlay_at raw at ys) 0 ≡ get64 raw 0 =
      get64-overlay_at-Apart raw at ys 0 (inl (omega arith)) in
    rw (one, drop-overlay_at 8 (at - 8) at raw ys (omega arith))
      (ap (λ (l : List ℕ). get64 raw 0 ∷ l)
        (words_of-overlay_at n (drop 8 raw) (at - 8) ys (omega arith)))

get64-overlay :
    (raw : List ℕ) (w : ℕ) (rest : List ℕ)
    → w < 2 ^ 64
    → 8 + length rest ≤ length raw
    → get64 (overlay raw (be64 w ++ rest)) 0 ≡ w
unfolding get64
get64-overlay raw w rest h room =
    let byte : (i : ℕ)
        → i < 8
        → get_or (overlay raw (be64 w ++ rest)) i 0 ≡ get_or (be64 w ++ rest) i 0 =
      λ i l. get_or-overlay raw (be64 w ++ rest) i 0 (omega arith) (omega arith) in
    omega (arith, byte 0, byte 1, byte 2, byte 3, byte 4, byte 5, byte 6, byte 7)

-- The words that were stored are read back.
words_of-overlay :
    (raw ws : List ℕ)
    → Words ws
    → 8 * length ws ≤ length raw
    → words_of (length ws) (overlay raw (words_be ws)) ≡ ws
unfolding words_of words_be
words_of-overlay raw [] h room = refl
words_of-overlay raw (w ∷ ws) h room =
    let longer = length-words_be ws in
    rw
      (
        get64-overlay raw w (words_be ws) h.0 (omega (arith, longer)),
        drop-overlay raw (be64 w) (words_be ws),
      )
      (ap (λ (l : List ℕ). w ∷ l)
        (words_of-overlay (drop 8 raw) ws h.1 (omega (arith, length-drop 8 raw))))

-- A CRC stored behind the bytes that it covers.
crc_stored :
    (k : Kernel) (raw : List ℕ) (at : ℕ)
    → at + 4 ≤ length raw
    → get32 (overlay_at raw at (be32 (crc_of k raw at))) at
      ≡ crc_of k (overlay_at raw at (be32 (crc_of k raw at))) at
unfolding crc_of put32
crc_stored k raw at room =
    get32-put32 raw at (crc_of k raw at) room (omega arith)
    ∙ sym (
        ap (λ (l : List ℕ). 2 ^ 32 - 1 - k.crc32c (2 ^ 32 - 1) l % 2 ^ 32)
          (take-overlay_at at raw at _ (omega arith)))

module _ (k : Kernel) (cluster_size l2_entries : ℕ) (table : List ℕ) where
  pub length-l2_image : length (l2_image k cluster_size l2_entries table) ≡ cluster_size
  unfolding l2_image
  length-l2_image = length-overlay_at _ _ _ ∙ length-overlay _ _ ∙ length-replicate cluster_size 0

  -- The words of a table are read back from its image, where they end before the CRC.
  pub words_of-l2_image :
      8 * l2_entries + 8 ≤ cluster_size
      → l2_entries ≤ length table
      → Words table
      → words_of l2_entries (l2_image k cluster_size l2_entries table) ≡ take l2_entries table
  unfolding l2_image
  words_of-l2_image room full words =
      let ws = take l2_entries table in
      let n : length ws ≡ l2_entries = omega (arith, length-take l2_entries table) in
      let zeros : List ℕ = replicate cluster_size 0 in
      let long : length zeros ≡ cluster_size = length-replicate cluster_size 0 in
      words_of-overlay_at l2_entries (overlay zeros (words_be ws)) (cluster_size - 4) _
        (omega arith)
      ∙ ap (λ (m : ℕ). words_of m (overlay zeros (words_be ws))) (sym n)
      ∙ words_of-overlay zeros ws (Words-take l2_entries table words) (omega (arith, n, long))

  -- The CRC in the last four bytes of an image is that of the bytes before it.
  pub get32-l2_image :
      4 ≤ cluster_size
      → get32 (l2_image k cluster_size l2_entries table) (cluster_size - 4)
        ≡ crc_of k (l2_image k cluster_size l2_entries table) (cluster_size - 4)
  unfolding l2_image
  get32-l2_image room =
      let raw = overlay (replicate cluster_size 0) (words_be (take l2_entries table)) in
      let long : length raw ≡ cluster_size =
        length-overlay _ (words_be (take l2_entries table)) ∙ length-replicate cluster_size 0 in
      crc_stored k raw (cluster_size - 4) (omega (arith, long))

-- ===== src/Cbor/Items/Laws.antt =====
-- What a sequence of items is on the wire, and that it is what the encoder stores where it has room.
use lbd.Prelude.{
  ℕ, ◌+◌, ◌^◌, ◌≤◌, ◌<◌, ◌≡◌, refl, ap, sym, ◌∙◌, List, [], ◌∷◌, ◌++◌, some, false, if◌then◌else◌,
  arith, ltb, length, replicate, length-append, length-replicate, take-overlay,
}
use lbd.Cbor.Enc.{CborEnc, cbor_put, cbor_puts, cbor_enc_text}
use lbd.Cbor.Head.{head_bytes, length-head_bytes, length-head_bytes-le}
use lbd.Cbor.EncLaws.{enc, cbor_puts-fits, cbor_enc_head-head_bytes}
use lbd.Cbor.Items.{Item, map_of, uint, text, bytes_hdr, enc_item, enc_items, encode}

unfoldable pub item_bytes : Item → List ℕ
item_bytes (map_of n) = head_bytes 5 n
item_bytes (uint v) = head_bytes 0 v
item_bytes (text s) = head_bytes 3 (length s) ++ s
item_bytes (bytes_hdr n) = head_bytes 2 n

unfoldable pub items_bytes : List Item → List ℕ
unfolding item_bytes
items_bytes [] = []
items_bytes (i ∷ is) = item_bytes i ++ items_bytes is

-- The number in an item fits 64 bits.
abbrev pub Fits : Item → Type 0
Fits (map_of n) = n < 2 ^ 64
Fits (uint v) = v < 2 ^ 64
Fits (text s) = length s < 2 ^ 64
Fits (bytes_hdr n) = n < 2 ^ 64

abbrev pub AllFit : List Item → Type 0
AllFit [] = Unit {0}
AllFit (i ∷ is) = Fits i × AllFit is

cbor_puts-append :
    (e : CborEnc) (xs ys : List ℕ) → cbor_puts e (xs ++ ys) ≡ cbor_puts (cbor_puts e xs) ys
unfolding cbor_puts
cbor_puts-append e [] ys = refl
cbor_puts-append e (x ∷ xs) ys = cbor_puts-append (cbor_put e x) xs ys

enc_item-item_bytes : (e : CborEnc) (i : Item) → Fits i → enc_item e i ≡ cbor_puts e (item_bytes i)
unfolding enc_item item_bytes cbor_enc_text
enc_item-item_bytes e (map_of n) h = cbor_enc_head-head_bytes 5 n (omega arith) h e
enc_item-item_bytes e (uint v) h = cbor_enc_head-head_bytes 0 v (omega arith) h e
enc_item-item_bytes e (text s) h =
    ap (λ (d : CborEnc). cbor_puts d s) (cbor_enc_head-head_bytes 3 (length s) (omega arith) h e)
    ∙ sym (cbor_puts-append e (head_bytes 3 (length s)) s)
enc_item-item_bytes e (bytes_hdr n) h = cbor_enc_head-head_bytes 2 n (omega arith) h e

enc_items-items_bytes :
    (e : CborEnc) (is : List Item) → AllFit is → enc_items e is ≡ cbor_puts e (items_bytes is)
unfolding enc_items items_bytes cbor_puts
enc_items-items_bytes e [] h = refl
enc_items-items_bytes e (i ∷ is) (h, hs) =
    ap (λ (d : CborEnc). enc_items d is) (enc_item-item_bytes e i h)
    ∙ enc_items-items_bytes (cbor_puts e (item_bytes i)) is hs
    ∙ sym (cbor_puts-append e (item_bytes i) (items_bytes is))

-- Items that fit into the array are encoded as their bytes.
pub encode-items_bytes :
    (limit : ℕ) (is : List Item)
    → AllFit is
    → length (items_bytes is) ≤ limit
    → encode limit is ≡ some (items_bytes is)
unfolding encode
encode-items_bytes limit is h room =
    let zeros : List ℕ = replicate limit 0 in
    let long : length zeros ≡ limit = length-replicate limit 0 in
    let run =
      enc_items-items_bytes (enc zeros 0 limit false) is h
      ∙ cbor_puts-fits zeros 0 limit (items_bytes is) (omega arith) in
    let n : 0 + length (items_bytes is) ≡ length (items_bytes is) = omega arith in
    rw (run, n) (ap some (take-overlay zeros (items_bytes is) (omega arith)))

-- The most that an item takes.
abbrev head_bound : ℕ → ℕ
head_bound v = if ltb v 24 then 1 else 9

abbrev item_bound : Item → ℕ
item_bound (map_of n) = head_bound n
item_bound (uint v) = head_bound v
item_bound (text s) = 9 + length s
item_bound (bytes_hdr n) = head_bound n

length-head_bytes_bound : (major v : ℕ) → length (head_bytes major v) ≤ head_bound v
length-head_bytes_bound major v = ground (arith, length-head_bytes major v)

abbrev pub items_bound : List Item → ℕ
items_bound [] = 0
items_bound (i ∷ is) = item_bound i + items_bound is

length-item_bytes-le : (i : Item) → length (item_bytes i) ≤ item_bound i
unfolding item_bytes
length-item_bytes-le (map_of n) = length-head_bytes_bound 5 n
length-item_bytes-le (uint v) = length-head_bytes_bound 0 v
length-item_bytes-le (text s) =
    omega (arith, length-append (head_bytes 3 (length s)) s, length-head_bytes-le 3 (length s))
length-item_bytes-le (bytes_hdr n) = length-head_bytes_bound 2 n

pub length-items_bytes-le : (is : List Item) → length (items_bytes is) ≤ items_bound is
unfolding items_bytes
length-items_bytes-le [] = omega arith
length-items_bytes-le (i ∷ is) = omega (
  arith,
  length-append (item_bytes i) (items_bytes is),
  length-item_bytes-le i,
  length-items_bytes-le is,
)

-- ===== src/Cbor/Head.antt =====
-- The bytes of a CBOR head as RFC 8949 describes them: the major type and a size code in one byte,
-- then the argument, big-endian, in 0, 1, 2, 4 or 8 bytes, whichever is the least that holds it.
use lbd.Prelude.{
  ℕ, zero, suc, ◌+◌, ◌*◌, ◌/◌, ◌%◌, ◌^◌, ◌≤◌, ◌≡◌, refl, List, [], ◌∷◌, ltb, if◌then◌else◌, length,
  arith,
}

-- `n` bytes of `v`, most significant first.
unfoldable pub big_endian : ℕ → ℕ → List ℕ
big_endian zero v = []
big_endian (suc n) v = v / 256 ^ n % 256 ∷ big_endian n v

abbrev pub arg_width : ℕ → ℕ
arg_width v =
    if ltb v 24
    then 0
    else if ltb v (2 ^ 8)
    then 1
    else if ltb v (2 ^ 16)
    then 2
    else if ltb v (2 ^ 32)
    then 4
    else 8

-- The low five bits of the initial byte.
abbrev pub size_code : ℕ → ℕ
size_code v =
    if ltb v 24
    then v
    else if ltb v (2 ^ 8)
    then 24
    else if ltb v (2 ^ 16)
    then 25
    else if ltb v (2 ^ 32)
    then 26
    else 27

unfoldable pub head_bytes : ℕ → ℕ → List ℕ
unfolding big_endian
head_bytes major v = (major * 32 + size_code v) ∷ big_endian (arg_width v) v

length-big_endian : (n v : ℕ) → length (big_endian n v) ≡ n
unfolding big_endian
length-big_endian zero v = refl
length-big_endian (suc n) v = omega (arith, length-big_endian n v)

pub length-head_bytes : (major v : ℕ) → length (head_bytes major v) ≡ suc (arg_width v)
unfolding head_bytes
length-head_bytes major v = omega (arith, length-big_endian (arg_width v) v)

pub length-head_bytes-le : (major v : ℕ) → length (head_bytes major v) ≤ 9
length-head_bytes-le major v = ground (arith, length-head_bytes major v)

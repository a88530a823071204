-- ===== src/Reader/Crc.antt =====
-- The two CRCs of src/lbdctl.c, by a table of 256 words each.
use Prim.Native.Nat.{bit_and, bit_xor}
use lbd.Prelude.{ℕ, zero, suc, ◌/◌, ◌%◌, ◌≡◌, refl, List, [], ◌∷◌, ◌==◌, if◌then◌else◌}

-- `c = (c >> 1) ^ (poly & (-(c & 1)))`, so many times
unfoldable pub crc_shift : (rounds poly c : ℕ) → ℕ
crc_shift zero poly c = c
crc_shift (suc rounds) poly c =
    crc_shift rounds poly (bit_xor (c / 2) (if c % 2 == 1 then poly else 0))

-- Entry `i` of the table.
unfoldable pub crc_entry : (poly i : ℕ) → ℕ
unfolding crc_shift
crc_entry poly i = crc_shift 8 poly i

unfoldable pub crc_over : (poly crc : ℕ) → List ℕ → ℕ
unfolding crc_entry
crc_over poly crc [] = crc
crc_over poly crc (b ∷ bs) =
    crc_over poly (bit_xor (crc_entry poly (bit_and (bit_xor crc b) 0xFF)) (crc / 256)) bs

unfoldable pub crc32_calc : List ℕ → ℕ
unfolding crc_over
crc32_calc bs = bit_xor (crc_over 0xEDB88320 0xFFFFFFFF bs) 0xFFFFFFFF

unfoldable pub crc32c_calc : List ℕ → ℕ
unfolding crc_over
crc32c_calc bs = bit_xor (crc_over 0x82F63B78 0xFFFFFFFF bs) 0xFFFFFFFF

-- The digits from 1 to 9, for which both CRCs are published.
abbrev digits : List ℕ
digits = 49 ∷ 50 ∷ 51 ∷ 52 ∷ 53 ∷ 54 ∷ 55 ∷ 56 ∷ 57 ∷ []

crc32_check : crc32_calc digits ≡ 0xCBF43926
unfolding crc32_calc
crc32_check = refl

crc32c_check : crc32c_calc digits ≡ 0xE3069283
unfolding crc32c_calc
crc32c_check = refl

-- ===== src/Log/Name.antt =====
-- The names of segments: TAI64N labels and file names.
use lbd.Prelude.{ℕ, zero, suc, ◌+◌, ◌/◌, ◌%◌, ◌^◌, List, [], ◌∷◌, ◌++◌, ltb, if◌then◌else◌}

-- A digit of `%x`: '0' to '9', 'a' to 'f'.
abbrev pub hex_digit : ℕ → ℕ
hex_digit n = if ltb n 10 then 48 + n else 87 + n

-- `%0<n>x` of a number below `16 ^ n`.
unfoldable pub hex : ℕ → ℕ → List ℕ
hex zero v = []
hex (suc n) v = hex_digit (v / 16 ^ n % 16) ∷ hex n v

-- `"%016llx%08lx"`; the nanoseconds of a `timespec64` are below 10 ^ 9.
unfoldable pub tai64n_label : ℕ → ℕ → List ℕ
unfolding hex
tai64n_label secs nsec = hex 16 ((secs + 0x4000000000000000) % 2 ^ 64) ++ hex 8 nsec

-- "disk.", ".log" and ".tmp"
abbrev pub disk_prefix : List ℕ
disk_prefix = 100 ∷ 105 ∷ 115 ∷ 107 ∷ 46 ∷ []

abbrev pub log_suffix : List ℕ
log_suffix = 46 ∷ 108 ∷ 111 ∷ 103 ∷ []

abbrev pub tmp_suffix : List ℕ
tmp_suffix = 46 ∷ 116 ∷ 109 ∷ 112 ∷ []

-- A label has 24 characters, so that nothing is cut off in the 48 bytes of a name.
unfoldable pub log_name_tmp : List ℕ → List ℕ
log_name_tmp label = disk_prefix ++ (label ++ (log_suffix ++ tmp_suffix))

unfoldable pub log_name_final : List ℕ → List ℕ
log_name_final label = disk_prefix ++ (label ++ log_suffix)

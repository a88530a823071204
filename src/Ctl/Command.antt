-- ===== src/Ctl/Command.antt =====
-- Commands to the control device: the parser in `lbd_ctl_write` of src/lbd_main.c, and the writers of
-- src/lbdctl.c. An `int` is its 32-bit pattern, and a C string is its bytes without the NUL.
pub mod Reading
pub mod Writing
pub mod RoundTrip
pub mod Sent
use lbd.Prelude.{
  ℕ, zero, suc, ◌+◌, ◌-◌, ◌%◌, ◌^◌, Bool, List, [], ◌∷◌, Option, none, some, ltb, leb, ◌==◌,
  if◌then◌else◌, length, take, replicate,
}
use lbd.Cbor.Dec.{CborDec, cbor_dec_init, cbor_dec_map, cbor_dec_uint, cbor_dec_text}
use lbd.Cbor.Write.{Msg, store, cbor_write_head}

-- `LBD_WATCH_KEY_CMD`, `LBD_WATCH_KEY_DEV` and `LBD_WATCH_KEY_PATH`
abbrev pub key_cmd : ℕ
key_cmd = 1

abbrev pub key_dev : ℕ
key_dev = 2

abbrev pub key_path : ℕ
key_path = 3

abbrev pub path_max : ℕ
path_max = 256

-- What a C function takes for the string in an array: the bytes before the first NUL.
abbrev pub c_string : List ℕ → List ℕ
c_string [] = []
c_string (b ∷ bs) = if b == 0 then [] else b ∷ c_string bs

-- `cmd` with `have_cmd`, `filter_dev`, and `path` with `have_path`.
pub record Parsed : Type 0 where
  pub cmd : Option (List ℕ)
  pub filter_dev : ℕ
  pub path : Option (List ℕ)

-- `int filter_dev = -1`
abbrev pub nothing_parsed : Parsed
nothing_parsed = record { cmd = none; filter_dev = 2 ^ 32 - 1; path = none }

-- A value that was decoded goes into a variable.
abbrev pub assigned : {A : Type 0} → (A → Parsed) → Option A × CborDec → Option Parsed × CborDec
assigned f (none, d) = (none, d)
assigned f (some a, d) = (some (f a), d)

-- The switch over the key.
unfoldable pub parse_value : ℕ → CborDec → Parsed → Option Parsed × CborDec
parse_value key d p =
    if key == key_cmd
    then assigned (λ s. record p { cmd = some (c_string s) }) (cbor_dec_text d 16)
    else if key == key_dev
    then assigned (λ v. record p { filter_dev = v % 2 ^ 32 }) (cbor_dec_uint d)
    else if key == key_path
    then assigned (λ s. record p { path = some (c_string s) }) (cbor_dec_text d path_max)
    else (none, d)

abbrev pub parse_keyed : Option ℕ × CborDec → Parsed → Option Parsed × CborDec
parse_keyed (none, d) p = (none, d)
parse_keyed (some key, d) p = parse_value key d p

-- The loop over `map_count` entries; every error is `-EINVAL`.
unfoldable pub parse_entries : ℕ → CborDec → Parsed → Option Parsed
unfolding parse_value
parse_entries zero d p = some p
parse_entries (suc n) d p =
    let (r, d') = parse_keyed (cbor_dec_uint d) p in
    elim r [ none ↦ none | some p' ↦ parse_entries n d' p' ]

abbrev pub parse_map : Option ℕ × CborDec → Option Parsed
parse_map (none, d) = none
parse_map (some n, d) = parse_entries n d nothing_parsed

-- `if (!have_cmd) return -EINVAL;`
abbrev pub with_cmd : Option Parsed → Option Parsed
with_cmd none = none
with_cmd (some p) = elim p.cmd [ none ↦ none | some s ↦ some p ]

-- Up to the choice of the command; `copy_from_user` succeeded.
unfoldable pub parse_command : List ℕ → Option Parsed
unfolding parse_entries
parse_command bytes =
    if ltb 512 (length bytes)
    then none
    else with_cmd (parse_map (cbor_dec_map (cbor_dec_init bytes (length bytes))))

-- The writers: a buffer on the stack, and what `write` gets of it.
abbrev pub fresh : ℕ → Msg
fresh size = record { buf = replicate size 0; pos = 0 }

abbrev pub message : Msg → List ℕ
message m = take m.pos m.buf

-- A head of major type 3, and `memcpy`.
abbrev pub write_text : Msg → List ℕ → Msg
write_text m s = store (cbor_write_head m 3 (length s)) s

-- The map and its first entry, the command.
abbrev pub write_cmd : ℕ → ℕ → List ℕ → Msg
write_cmd size entries cmd =
    write_text (cbor_write_head (cbor_write_head (fresh size) 5 entries) 0 key_cmd) cmd

-- "watch", "manage_misses" and "swap"
abbrev pub cmd_watch : List ℕ
cmd_watch = 119 ∷ 97 ∷ 116 ∷ 99 ∷ 104 ∷ []

abbrev pub cmd_manage_misses : List ℕ
cmd_manage_misses = 109 ∷ 97 ∷ 110 ∷ 97 ∷ 103 ∷ 101 ∷ 95 ∷ 109 ∷ 105 ∷ 115 ∷ 115 ∷ 101 ∷ 115 ∷ []

abbrev pub cmd_swap : List ℕ
cmd_swap = 115 ∷ 119 ∷ 97 ∷ 112 ∷ []

-- `(uint64_t)dev_index`
abbrev pub sign_extend : ℕ → ℕ
sign_extend v = if ltb v (2 ^ 31) then v else v + (2 ^ 64 - 2 ^ 32)

unfoldable pub write_watch_cmd : ℕ → List ℕ
write_watch_cmd dev_index = message (
    if ltb dev_index (2 ^ 31)
    then cbor_write_head (cbor_write_head (write_cmd 64 2 cmd_watch) 0 key_dev) 0 dev_index
    else write_cmd 64 1 cmd_watch)

unfoldable pub write_manage_misses_cmd : ℕ → List ℕ
write_manage_misses_cmd dev_index = message (
    cbor_write_head (cbor_write_head (write_cmd 64 2 cmd_manage_misses) 0 key_dev) 0
      (sign_extend dev_index))

unfoldable pub write_miss_response : List ℕ → List ℕ
write_miss_response action = message (write_cmd 64 1 action)

-- None where the path is too long for the buffer.
unfoldable pub write_swap_cmd : List ℕ → Option (List ℕ)
write_swap_cmd path =
    let m =
      cbor_write_head (cbor_write_head (write_cmd 512 2 cmd_swap) 0 key_path) 3 (length path) in
    if ltb 512 (m.pos + length path) then none else some (message (store m path))

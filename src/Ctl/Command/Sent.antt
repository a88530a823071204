-- ===== src/Ctl/Command/Sent.antt =====
-- The commands of lbdctl, from its writer to the kernel's parser.
use lbd.Prelude.{
  ℕ, ◌+◌, ◌-◌, ◌%◌, ◌^◌, ◌≤◌, ◌<◌, ◌≡◌, refl, ap, sym, ◌∙◌, inl, inr, List, [], ◌∷◌, ◌++◌,
  append_assoc, append-nil, none, some, false, arith, ltb, length, length-append, not-lt→ltb,
  Bool-cases, if◌then◌else◌,
}
use lbd.Cbor.Write.{Msg, store, cbor_write_head}
use lbd.Cbor.Head.{head_bytes, length-head_bytes-le}
use lbd.Ctl.Command.{
  c_string, fresh, message, write_cmd, cmd_watch, cmd_manage_misses, cmd_swap, sign_extend, key_dev,
  key_path, parse_command, write_watch_cmd, write_manage_misses_cmd, write_miss_response,
  write_swap_cmd,
}
use lbd.Ctl.Command.Writing.{Holds, fresh-Holds, store-Holds, cbor_write_head-Holds}
use lbd.Ctl.Command.RoundTrip.{
  cmd_entry, dev_entry, path_entry, command_bytes, parse_command-command_bytes,
}

-- The bytes up to the command.
abbrev cmd_bytes : ℕ → List ℕ → List ℕ
cmd_bytes n cmd = ((head_bytes 5 n ++ head_bytes 0 1) ++ head_bytes 3 (length cmd)) ++ cmd

length-cmd_bytes : (n : ℕ) (cmd : List ℕ) → length (cmd_bytes n cmd) ≤ 27 + length cmd
length-cmd_bytes n cmd = omega (
  arith,
  length-append (head_bytes 5 n) (head_bytes 0 1),
  length-append (head_bytes 5 n ++ head_bytes 0 1) (head_bytes 3 (length cmd)),
  length-append ((head_bytes 5 n ++ head_bytes 0 1) ++ head_bytes 3 (length cmd)) cmd,
  length-head_bytes-le 5 n,
  length-head_bytes-le 0 1,
  length-head_bytes-le 3 (length cmd),
)

write_cmd-Holds :
    (size n : ℕ) (cmd : List ℕ)
    → n < 2 ^ 64
    → length cmd < 2 ^ 64
    → 27 + length cmd ≤ size
    → Holds size (write_cmd size n cmd) (cmd_bytes n cmd)
write_cmd-Holds size n cmd small short room =
    let a = length-head_bytes-le 5 n in
    let b = length-head_bytes-le 0 1 in
    let c = length-head_bytes-le 3 (length cmd) in
    let ab = length-append (head_bytes 5 n) (head_bytes 0 1) in
    let abc = length-append (head_bytes 5 n ++ head_bytes 0 1) (head_bytes 3 (length cmd)) in
    let m1 = cbor_write_head (fresh size) 5 n in
    let m2 = cbor_write_head m1 0 1 in
    let m3 = cbor_write_head m2 3 (length cmd) in
    let h1 =
      cbor_write_head-Holds size (fresh size) [] 5 n (fresh-Holds size) (omega arith) small
        (omega arith) in
    let h2 =
      cbor_write_head-Holds size m1 (head_bytes 5 n) 0 1 h1 (omega arith) (omega arith)
        (omega arith) in
    let h3 =
      cbor_write_head-Holds size m2 (head_bytes 5 n ++ head_bytes 0 1) 3 (length cmd) h2
        (omega arith) short (omega arith) in
    store-Holds size m3 ((head_bytes 5 n ++ head_bytes 0 1) ++ head_bytes 3 (length cmd)) cmd h3
      (omega arith)

-- A command and a number.
write_dev-Holds :
    (cmd : List ℕ) (v : ℕ)
    → length cmd < 16
    → v < 2 ^ 64
    → Holds 64
        (cbor_write_head (cbor_write_head (write_cmd 64 2 cmd) 0 key_dev) 0 v)
        ((cmd_bytes 2 cmd ++ head_bytes 0 2) ++ head_bytes 0 v)
write_dev-Holds cmd v short small =
    let c = length-cmd_bytes 2 cmd in
    let m = write_cmd 64 2 cmd in
    let h = write_cmd-Holds 64 2 cmd (omega arith) (omega arith) (omega arith) in
    let h1 =
      cbor_write_head-Holds 64 m (cmd_bytes 2 cmd) 0 2 h (omega arith) (omega arith)
        (omega arith) in
    cbor_write_head-Holds 64 (cbor_write_head m 0 2) (cmd_bytes 2 cmd ++ head_bytes 0 2) 0 v h1
      (omega arith) small
      (omega (arith, length-append (cmd_bytes 2 cmd) (head_bytes 0 2), length-head_bytes-le 0 2))

-- The same bytes, as the parser's specification groups them.
cmd_bytes-then :
    (n : ℕ) (cmd rest : List ℕ)
    → cmd_bytes n cmd ++ rest
      ≡ head_bytes 5 n ++ (head_bytes 0 1 ++ (head_bytes 3 (length cmd) ++ (cmd ++ rest)))
cmd_bytes-then n cmd rest = simp append_assoc refl

-- A command and a number on the wire.
dev_command :
    (cmd : List ℕ) (v : ℕ)
    → (cmd_bytes 2 cmd ++ head_bytes 0 2) ++ head_bytes 0 v
      ≡ command_bytes (cmd_entry cmd ∷ dev_entry v ∷ [])
dev_command cmd v =
    append_assoc (cmd_bytes 2 cmd) (head_bytes 0 2) (head_bytes 0 v)
    ∙ cmd_bytes-then 2 cmd (head_bytes 0 2 ++ head_bytes 0 v)
    ∙ ap
        (λ (l : List ℕ).
          head_bytes 5 2
          ++ (head_bytes 0 1 ++ (head_bytes 3 (length cmd) ++ (cmd ++ (head_bytes 0 2 ++ l)))))
        (sym (append-nil (head_bytes 0 v)))

only_command : (cmd : List ℕ) → cmd_bytes 1 cmd ≡ command_bytes (cmd_entry cmd ∷ [])
only_command cmd = sym (append-nil (cmd_bytes 1 cmd)) ∙ cmd_bytes-then 1 cmd []

length-command_bytes_dev :
    (cmd : List ℕ) (v : ℕ)
    → length cmd < 16
    → length (command_bytes (cmd_entry cmd ∷ dev_entry v ∷ [])) ≤ 512
length-command_bytes_dev cmd v short = omega (
  arith,
  ap length (dev_command cmd v),
  length-cmd_bytes 2 cmd,
  length-append (cmd_bytes 2 cmd) (head_bytes 0 2),
  length-append (cmd_bytes 2 cmd ++ head_bytes 0 2) (head_bytes 0 v),
  length-head_bytes-le 0 2,
  length-head_bytes-le 0 v,
)

parse_dev :
    (cmd : List ℕ) (v : ℕ)
    → length cmd < 16
    → v < 2 ^ 64
    → parse_command (message (cbor_write_head (cbor_write_head (write_cmd 64 2 cmd) 0 key_dev) 0 v))
      ≡ some (record { cmd = some (c_string cmd); filter_dev = v % 2 ^ 32; path = none })
parse_dev cmd v short small =
    ap parse_command ((write_dev-Holds cmd v short small).bytes ∙ dev_command cmd v)
    ∙ parse_command-command_bytes (cmd_entry cmd ∷ dev_entry v ∷ []) (short, (small, tt))
        (length-command_bytes_dev cmd v short) (omega arith)

parse_only :
    (cmd : List ℕ)
    → length cmd < 16
    → parse_command (message (write_cmd 64 1 cmd))
      ≡ some (record { cmd = some (c_string cmd); filter_dev = 2 ^ 32 - 1; path = none })
parse_only cmd short =
    ap parse_command (
      (write_cmd-Holds 64 1 cmd (omega arith) (omega arith) (omega arith)).bytes ∙ only_command cmd)
    ∙ parse_command-command_bytes (cmd_entry cmd ∷ []) (short, tt)
        (omega (arith, ap length (only_command cmd), length-cmd_bytes 1 cmd)) (omega arith)

-- The kernel parses the watch and the manage_misses command of lbdctl as that command with the device
-- number of the `int`: a negative number, for which lbdctl watches all devices, arrives as -1 in the
-- former, and unchanged in the latter.
pub write_dev_cmd-parse_command :
    (dev_index : ℕ)
    → dev_index < 2 ^ 32
    → (parse_command (write_watch_cmd dev_index)
        ≡ some (record {
          cmd = some cmd_watch;
          filter_dev = if ltb dev_index (2 ^ 31) then dev_index else 2 ^ 32 - 1;
          path = none;
        }))
      × (parse_command (write_manage_misses_cmd dev_index)
          ≡ some (record { cmd = some cmd_manage_misses; filter_dev = dev_index; path = none }))
unfolding write_watch_cmd write_manage_misses_cmd
write_dev_cmd-parse_command dev_index small = (
  elim (Bool-cases (ltb dev_index (2 ^ 31))) [
    | inl one ↦
        let same : dev_index % 2 ^ 32 ≡ dev_index = omega arith in
        rw (write_watch_cmd, one)
          (parse_dev cmd_watch dev_index (omega arith) (omega arith)
            ∙ ap (λ (n : ℕ). some (record { cmd = some cmd_watch; filter_dev = n; path = none }))
                same)
    | inr all ↦ rw (write_watch_cmd, all) (parse_only cmd_watch (omega arith))
  ],
  let same : sign_extend dev_index % 2 ^ 32 ≡ dev_index = ground arith in
      parse_dev cmd_manage_misses (sign_extend dev_index) (omega arith) (ground arith)
      ∙ ap (λ (n : ℕ). some (record { cmd = some cmd_manage_misses; filter_dev = n; path = none }))
          same,
)

swap_command :
    (path : List ℕ)
    → ((cmd_bytes 2 cmd_swap ++ head_bytes 0 3) ++ head_bytes 3 (length path)) ++ path
      ≡ command_bytes (cmd_entry cmd_swap ∷ path_entry path ∷ [])
swap_command path =
    append_assoc (cmd_bytes 2 cmd_swap ++ head_bytes 0 3) (head_bytes 3 (length path)) path
    ∙ append_assoc (cmd_bytes 2 cmd_swap) (head_bytes 0 3) (head_bytes 3 (length path) ++ path)
    ∙ cmd_bytes-then 2 cmd_swap (head_bytes 0 3 ++ (head_bytes 3 (length path) ++ path))
    ∙ ap
        (λ (l : List ℕ).
          head_bytes 5 2
          ++ (head_bytes 0 1
              ++ (head_bytes 3 4
                  ++ (cmd_swap ++ (head_bytes 0 3 ++ (head_bytes 3 (length path) ++ l))))))
        (sym (append-nil path))

-- The message up to the path.
abbrev swap_head : List ℕ → Msg
swap_head path =
    cbor_write_head (cbor_write_head (write_cmd 512 2 cmd_swap) 0 key_path) 3 (length path)

abbrev swap_head_bytes : List ℕ → List ℕ
swap_head_bytes path = (cmd_bytes 2 cmd_swap ++ head_bytes 0 3) ++ head_bytes 3 (length path)

length-swap_head_bytes : (path : List ℕ) → length (swap_head_bytes path) ≤ 49
length-swap_head_bytes path = omega (
  arith,
  length-cmd_bytes 2 cmd_swap,
  length-append (cmd_bytes 2 cmd_swap) (head_bytes 0 3),
  length-append (cmd_bytes 2 cmd_swap ++ head_bytes 0 3) (head_bytes 3 (length path)),
  length-head_bytes-le 0 3,
  length-head_bytes-le 3 (length path),
)

swap_head-Holds :
    (path : List ℕ) → length path < 2 ^ 64 → Holds 512 (swap_head path) (swap_head_bytes path)
swap_head-Holds path small =
    let m = write_cmd 512 2 cmd_swap in
    let c = length-cmd_bytes 2 cmd_swap in
    let h = write_cmd-Holds 512 2 cmd_swap (omega arith) (omega arith) (omega arith) in
    let h1 =
      cbor_write_head-Holds 512 m (cmd_bytes 2 cmd_swap) 0 3 h (omega arith) (omega arith)
        (omega arith) in
    cbor_write_head-Holds 512 (cbor_write_head m 0 3) (cmd_bytes 2 cmd_swap ++ head_bytes 0 3) 3
      (length path) h1 (omega arith) small
      (omega
        (arith, length-append (cmd_bytes 2 cmd_swap) (head_bytes 0 3), length-head_bytes-le 0 3))

-- For a path of fewer than 256 bytes, lbdctl has room for the swap command, and the kernel parses it as
-- that command with the path, up to a NUL; and it parses every answer to a miss, of fewer than 16
-- bytes, as that command.
pub write_swap_cmd-parse_command :
    (path action : List ℕ)
    → length path < 256
    → length action < 16
    → ((bytes : List ℕ) × (write_swap_cmd path ≡ some bytes)
        × (parse_command bytes
            ≡ some (record {
              cmd = some cmd_swap;
              filter_dev = 2 ^ 32 - 1;
              path = some (c_string path);
            })))
      × (parse_command (write_miss_response action)
          ≡ some (record { cmd = some (c_string action); filter_dev = 2 ^ 32 - 1; path = none }))
unfolding write_swap_cmd write_miss_response
write_swap_cmd-parse_command path action short short_action =
    let m = swap_head path in
    let n = length-swap_head_bytes path in
    let h = swap_head-Holds path (omega arith) in
    let all = store-Holds 512 m (swap_head_bytes path) path h (omega arith) in
    let room : ltb 512 (m.pos + length path) ≡ false =
      not-lt→ltb 512 (m.pos + length path) (omega (arith, h.used)) in
    (
      (
        message (store m path),
        ap (λ b. if b then none else some (message (store m path))) room,
        ap parse_command (all.bytes ∙ swap_command path)
            ∙ parse_command-command_bytes (cmd_entry cmd_swap ∷ path_entry path ∷ [])
                (omega arith, (short, tt))
                (omega
                  (arith, ap length (swap_command path), length-append (swap_head_bytes path) path))
                (omega arith),
      ),
      parse_only action short_action,
    )

-- ===== src/Ctl/Command/RoundTrip.antt =====
-- What lbdctl writes is what the kernel parses.
use lbd.Prelude.{
  ℕ, ◌%◌, ◌^◌, ◌≤◌, ◌<◌, ◌≡◌, refl, ap, ◌∙◌, List, [], ◌∷◌, ◌++◌, Option, none, some, arith, length,
  drop, not-lt→ltb, Bool, true, false, if◌then◌else◌,
}
use lbd.Cbor.Dec.{CborDec, cbor_dec_init, cbor_dec_uint}
use lbd.Cbor.Head.{head_bytes}
use lbd.Cbor.RoundTrip.{dec}
use lbd.Ctl.Command.{
  Parsed, nothing_parsed, c_string, path_max, assigned, parse_value, parse_keyed, parse_entries,
  parse_map, with_cmd, parse_command,
}
use lbd.Ctl.Command.Reading.{Reads, uint-Reads, map-Reads, text-Reads}

-- A command is a map with these entries, in any order.
pub data Entry : Type 0 where
  cmd_entry : List ℕ → Entry
  dev_entry : ℕ → Entry
  path_entry : List ℕ → Entry

abbrev pub entry_key : Entry → ℕ
entry_key (cmd_entry s) = 1
entry_key (dev_entry v) = 2
entry_key (path_entry s) = 3

abbrev pub value_then : Entry → List ℕ → List ℕ
value_then (cmd_entry s) rest = head_bytes 3 (length s) ++ (s ++ rest)
value_then (dev_entry v) rest = head_bytes 0 v ++ rest
value_then (path_entry s) rest = head_bytes 3 (length s) ++ (s ++ rest)

abbrev pub entries_bytes : List Entry → List ℕ
entries_bytes [] = []
entries_bytes (e ∷ es) = head_bytes 0 (entry_key e) ++ value_then e (entries_bytes es)

-- The command on the wire.
abbrev pub command_bytes : List Entry → List ℕ
command_bytes es = head_bytes 5 (length es) ++ entries_bytes es

-- What the variables of the parser become.
abbrev pub said : Entry → Parsed → Parsed
said (cmd_entry s) p = record p { cmd = some (c_string s) }
said (dev_entry v) p = record p { filter_dev = v % 2 ^ 32 }
said (path_entry s) p = record p { path = some (c_string s) }

abbrev pub all_said : List Entry → Parsed → Parsed
all_said [] p = p
all_said (e ∷ es) p = all_said es (said e p)

abbrev pub EntryFits : Entry → Type 0
EntryFits (cmd_entry s) = length s < 16
EntryFits (dev_entry v) = v < 2 ^ 64
EntryFits (path_entry s) = length s < 256

abbrev pub AllFit : List Entry → Type 0
AllFit [] = Unit {0}
AllFit (e ∷ es) = EntryFits e × AllFit es

-- A command is among the entries.
abbrev pub has_cmd : List Entry → Bool
has_cmd [] = false
has_cmd (cmd_entry s ∷ es) = true
has_cmd (dev_entry v ∷ es) = has_cmd es
has_cmd (path_entry s ∷ es) = has_cmd es

with_cmd_given :
    (p : Parsed) (c : Option (List ℕ))
    → p.cmd ≡ c
    → with_cmd (some p) ≡ elim c as (λ c. Option Parsed) [ none ↦ none | some s ↦ some p ]
with_cmd_given p c h =
    ap (λ (c : Option (List ℕ)). elim c as (λ c. Option Parsed) [ none ↦ none | some s ↦ some p ]) h

-- A command that was there stays, in one form or another.
with_cmd-all_said-some :
    (es : List Entry) (p : Parsed) (s : List ℕ)
    → p.cmd ≡ some s
    → with_cmd (some (all_said es p)) ≡ some (all_said es p)
with_cmd-all_said-some [] p s h = with_cmd_given p (some s) h
with_cmd-all_said-some (cmd_entry c ∷ es) p s h = with_cmd-all_said-some es _ (c_string c) refl
with_cmd-all_said-some (dev_entry v ∷ es) p s h = with_cmd-all_said-some es _ s h
with_cmd-all_said-some (path_entry t ∷ es) p s h = with_cmd-all_said-some es _ s h

with_cmd-all_said :
    (es : List Entry) (p : Parsed)
    → p.cmd ≡ none
    → with_cmd (some (all_said es p)) ≡ (if has_cmd es then some (all_said es p) else none)
with_cmd-all_said [] p h = with_cmd_given p none h
with_cmd-all_said (cmd_entry c ∷ es) p h = with_cmd-all_said-some es _ (c_string c) refl
with_cmd-all_said (dev_entry v ∷ es) p h = with_cmd-all_said es _ h
with_cmd-all_said (path_entry t ∷ es) p h = with_cmd-all_said es _ h

-- The value of an entry is read into its variable.
parse_value-Reads :
    (buf : List ℕ) (pos : ℕ) (e : Entry) (p : Parsed) (rest : List ℕ)
    → EntryFits e
    → length buf < 2 ^ 64
    → drop pos buf ≡ value_then e rest
    → Reads buf (parse_value (entry_key e) (dec buf pos (length buf)) p) (said e p) rest
unfolding parse_value
parse_value-Reads buf pos (cmd_entry s) p rest fits small at =
    let r = text-Reads buf pos s 16 rest fits small at in
    record {
      next = r.next;
      gives = ap (assigned (λ s. record p { cmd = some (c_string s) })) r.gives;
      left = r.left;
    }
parse_value-Reads buf pos (dev_entry v) p rest fits small at =
    let r = uint-Reads buf pos v rest fits at in
    record {
      next = r.next;
      gives = ap (assigned (λ v. record p { filter_dev = v % 2 ^ 32 })) r.gives;
      left = r.left;
    }
parse_value-Reads buf pos (path_entry s) p rest fits small at =
    let r = text-Reads buf pos s path_max rest fits small at in
    record {
      next = r.next;
      gives = ap (assigned (λ s. record p { path = some (c_string s) })) r.gives;
      left = r.left;
    }

entry_key_small : (e : Entry) → entry_key e < 2 ^ 64
entry_key_small (cmd_entry s) = omega arith
entry_key_small (dev_entry v) = omega arith
entry_key_small (path_entry s) = omega arith

parse_keyed-Reads :
    (buf : List ℕ) (pos : ℕ) (e : Entry) (p : Parsed) (rest : List ℕ)
    → EntryFits e
    → length buf < 2 ^ 64
    → drop pos buf ≡ head_bytes 0 (entry_key e) ++ value_then e rest
    → Reads buf (parse_keyed (cbor_dec_uint (dec buf pos (length buf))) p) (said e p) rest
parse_keyed-Reads buf pos e p rest fits small at =
    let k = uint-Reads buf pos (entry_key e) (value_then e rest) (entry_key_small e) at in
    let v = parse_value-Reads buf k.next e p rest fits small k.left in
    record {
      next = v.next;
      gives = ap (λ (r : Option ℕ × CborDec). parse_keyed r p) k.gives ∙ v.gives;
      left = v.left;
    }

parse_entries-all_said :
    (buf : List ℕ) (pos : ℕ) (es : List Entry) (p : Parsed)
    → AllFit es
    → length buf < 2 ^ 64
    → drop pos buf ≡ entries_bytes es
    → parse_entries (length es) (dec buf pos (length buf)) p ≡ some (all_said es p)
unfolding parse_entries
parse_entries-all_said buf pos [] p fits small at = refl
parse_entries-all_said buf pos (e ∷ es) p (fit, fits) small at =
    let r = parse_keyed-Reads buf pos e p (entries_bytes es) fit small at in
    ap
      (λ (x : Option Parsed × CborDec). elim x.0 as (λ y. Option Parsed) [
        | none ↦ none
        | some q ↦ parse_entries (length es) x.1 q
      ])
      r.gives
    ∙ parse_entries-all_said buf r.next es (said e p) fits small r.left

-- A command of at most 512 bytes whose texts fit into the variables, with its entries in any order, is
-- parsed as its entries: of entries with the same key the last one counts, a text counts up to its
-- first NUL, and a device number modulo 2 ^ 32; without a command in it, it is refused.
pub parse_command-command_bytes :
    (es : List Entry)
    → AllFit es
    → length (command_bytes es) ≤ 512
    → length es < 2 ^ 64
    → parse_command (command_bytes es)
      ≡ (if has_cmd es then some (all_said es nothing_parsed) else none)
unfolding parse_command cbor_dec_init
parse_command-command_bytes es fits short few =
    let bytes = command_bytes es in
    let r = map-Reads bytes 0 (length es) (entries_bytes es) few refl in
    rw (not-lt→ltb 512 (length bytes) short) (
      ap (λ (x : Option ℕ × CborDec). with_cmd (parse_map x)) r.gives
      ∙ ap with_cmd
          (parse_entries-all_said bytes r.next es nothing_parsed fits (omega arith) r.left)
      ∙ with_cmd-all_said es nothing_parsed refl)

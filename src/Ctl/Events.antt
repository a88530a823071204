-- ===== src/Ctl/Events.antt =====
-- The decoders of events in src/lbdctl.c. Their macro for a head, `BUF_HEAD`, is `cbor_dec_head` of
-- src/cbor_dec.h once more, and so are their numbers and texts; `none` stands for -1.
pub mod RoundTrip
use lbd.Prelude.{
  ℕ, zero, suc, ◌+◌, ◌-◌, ◌%◌, ◌^◌, List, [], Option, none, some, ltb, ◌==◌, if◌then◌else◌,
}
use lbd.Cbor.Dec.{CborDec, expect_major, cbor_dec_head, cbor_dec_map, cbor_dec_uint, cbor_dec_text}

abbrev pub Decoder : Type 0 → Type 0
Decoder A = CborDec → Option A × CborDec

abbrev pub behind : {A B : Type 0} → Option A × CborDec → (A → Decoder B) → Option B × CborDec
behind (none, d) f = (none, d)
behind (some a, d) f = f a d

infixl 5 ◌>>=◌
abbrev pub ◌>>=◌ : {A B : Type 0} → Decoder A → (A → Decoder B) → Decoder B
◌>>=◌ m f d = behind (m d) f

abbrev pub pure : {A : Type 0} → A → Decoder A
pure a d = (some a, d)

-- A text whose bytes are passed over.
abbrev pub skip_to : CborDec → Option ℕ → Option (Unit {0}) × CborDec
skip_to d none = (none, d)
skip_to d (some slen) =
    if ltb d.len ((d.pos + slen) % 2 ^ 64)
    then (none, d)
    else (some tt, record d { pos = (d.pos + slen) % 2 ^ 64 })

unfoldable pub skip_text : Decoder (Unit {0})
unfolding cbor_dec_head
skip_text d = let (r, d') = cbor_dec_head d in skip_to d' (expect_major 3 r)

-- What `decode_watch_event` stores. `dev_index` is the bit pattern of an `int`.
pub record WatchEvent : Type 0 where
  pub dev_index : ℕ
  pub label : List ℕ
  pub dir : List ℕ
  pub log_seq : ℕ
  pub device_size : ℕ

abbrev pub no_watch_event : WatchEvent
no_watch_event = record {
  dev_index = 2 ^ 32 - 1;
  label = [];
  dir = [];
  log_seq = 0;
  device_size = 0;
}

module _ (label_cap dir_cap : ℕ) where
  -- The switch over the key; `LBD_EVENT_KEY_*` are 1 to 6.
  unfoldable pub watch_field : WatchEvent → ℕ → Decoder WatchEvent
  unfolding skip_text
  watch_field e key =
      if key == 1
      then (skip_text >>= λ _. pure e)
      else if key == 2
      then (do val ← cbor_dec_uint; pure (record e { dev_index = val % 2 ^ 32 }))
      else if key == 3
      then (do s ← (λ d. cbor_dec_text d label_cap); pure (record e { label = s }))
      else if key == 4
      then (do s ← (λ d. cbor_dec_text d dir_cap); pure (record e { dir = s }))
      else if key == 5
      then (do val ← cbor_dec_uint; pure (record e { log_seq = val }))
      else if key == 6
      then (do val ← cbor_dec_uint; pure (record e { device_size = val }))
      else (λ d. (none, d))

  unfoldable pub watch_fields : (map_count : ℕ) → WatchEvent → Decoder WatchEvent
  unfolding watch_field
  watch_fields zero e = pure e
  watch_fields (suc n) e = do key ← cbor_dec_uint; e' ← watch_field e key; watch_fields n e'

  unfoldable pub decode_watch_event : Decoder WatchEvent
  unfolding watch_fields
  decode_watch_event = do map_count ← cbor_dec_map; watch_fields map_count no_watch_event

pub record MissEvent : Type 0 where
  pub dev_index : ℕ
  pub cluster : ℕ

abbrev pub no_miss_event : MissEvent
no_miss_event = record { dev_index = 2 ^ 32 - 1; cluster = 0 }

-- `LBD_MISS_KEY_*` are 1 to 3.
unfoldable pub miss_field : MissEvent → ℕ → Decoder MissEvent
unfolding skip_text
miss_field e key =
    if key == 1
    then (skip_text >>= λ _. pure e)
    else if key == 2
    then (do val ← cbor_dec_uint; pure (record e { dev_index = val % 2 ^ 32 }))
    else if key == 3
    then (do val ← cbor_dec_uint; pure (record e { cluster = val }))
    else (λ d. (none, d))

unfoldable pub miss_fields : (map_count : ℕ) → MissEvent → Decoder MissEvent
unfolding miss_field
miss_fields zero e = pure e
miss_fields (suc n) e = do key ← cbor_dec_uint; e' ← miss_field e key; miss_fields n e'

unfoldable pub decode_miss_event : Decoder MissEvent
unfolding miss_fields
decode_miss_event = do map_count ← cbor_dec_map; miss_fields map_count no_miss_event

-- ===== src/Ctl/Events/RoundTrip.antt =====
-- The events that `lbd_ctl_read` encodes are those that lbdctl decodes.
use lbd.Prelude.{
  ℕ, suc, ◌+◌, ◌%◌, ◌^◌, ◌<◌, ◌≡◌, refl, sym, ap, ◌∙◌, subst, List, [], ◌++◌, some, arith, length,
  drop, append-nil, append_assoc, length-append, not-lt→ltb,
}
use lbd.Cbor.Dec.{cbor_dec_init, cbor_dec_map, cbor_dec_uint, cbor_dec_text}
use lbd.Cbor.Head.{head_bytes, length-head_bytes}
use lbd.Cbor.RoundTrip.{dec, cbor_dec_head-head_bytes}
use lbd.Cbor.Items.{map_of, uint, text, encode}
use lbd.Cbor.Items.Laws.{item_bytes, items_bytes}
use lbd.Ctl.Command.{sign_extend}
use lbd.Ctl.Command.Reading.{
  Reads, uint-Reads, map-Reads, text-Reads, rest_length, rest_next, rest-At,
}
use lbd.Ctl.Watcher.{WatcherEvent}
use lbd.Ctl.Miss.{MissHandler}
use lbd.Ctl.Read.{miss_items, event_items, log_rotated, block_miss}
use lbd.Ctl.Read.Deliver.{EventFits, MissFits, encode-miss_items, encode-event_items}
use lbd.Ctl.Events.{
  Decoder, behind, ◌>>=◌, pure, skip_text, WatchEvent, no_watch_event, watch_field, watch_fields,
  decode_watch_event, MissEvent, no_miss_event, miss_field, miss_fields, decode_miss_event,
}

-- A decoder takes the bytes `xs` from wherever they stand in a buffer, and gives `a`.
record Takes {A : Type 0} (m : Decoder A) (xs : List ℕ) (a : A) : Type 0 where
  reads :
      (buf : List ℕ) (pos : ℕ) (rest : List ℕ)
      → length buf < 2 ^ 64
      → drop pos buf ≡ xs ++ rest
      → Reads buf (m (dec buf pos (length buf))) a rest

Takes-pure : {A : Type 0} (a : A) → Takes (pure a) [] a
Takes-pure a = record {
  reads = λ buf pos rest small at. record { next = pos; gives = refl; left = at };
}

Takes-bind :
    {A B : Type 0} {m : Decoder A} {xs ys : List ℕ} {a : A} {b : B} (f : A → Decoder B)
    → Takes m xs a
    → Takes (f a) ys b
    → Takes (m >>= f) (xs ++ ys) b
Takes-bind {xs = xs} {ys = ys} f p q = record {
  reads = λ buf pos rest small at.
      let r = p.reads buf pos (ys ++ rest) small (at ∙ append_assoc xs ys rest) in
      let t = q.reads buf r.next rest small r.left in
      record { next = t.next; gives = ap (λ r. behind r f) r.gives ∙ t.gives; left = t.left };
}

Takes-set :
    {A B : Type 0} {m : Decoder A} {xs : List ℕ} {a : A} (set : A → B)
    → Takes m xs a
    → Takes (m >>= λ v. pure (set v)) xs (set a)
Takes-set {m = m} {xs = xs} {a = a} set p =
    subst (λ (l : List ℕ). Takes (m >>= λ v. pure (set v)) l (set a)) (append-nil xs)
      (Takes-bind (λ v. pure (set v)) p (Takes-pure (set a)))

uint-Takes : (v : ℕ) → v < 2 ^ 64 → Takes cbor_dec_uint (item_bytes (uint v)) v
unfolding item_bytes
uint-Takes v h = record { reads = λ buf pos rest small at. uint-Reads buf pos v rest h at }

map-Takes : (n : ℕ) → n < 2 ^ 64 → Takes cbor_dec_map (item_bytes (map_of n)) n
unfolding item_bytes
map-Takes v h = record { reads = λ buf pos rest small at. map-Reads buf pos v rest h at }

text-Takes :
    (room : ℕ) (t : List ℕ)
    → length t < room
    → Takes (λ d. cbor_dec_text d room) (item_bytes (text t)) t
unfolding item_bytes
text-Takes room t short = record {
  reads = λ buf pos rest small at.
      text-Reads buf pos t room rest short small
        (at ∙ append_assoc (head_bytes 3 (length t)) t rest);
}

skip_text-Takes : (t : List ℕ) → length t < 2 ^ 64 → Takes skip_text (item_bytes (text t)) tt
unfolding item_bytes skip_text head_bytes
skip_text-Takes t h = record { reads = reads }
  where
    hb : List ℕ
    hb = head_bytes 3 (length t)

    reads :
        (buf : List ℕ) (pos : ℕ) (rest : List ℕ)
        → length buf < 2 ^ 64
        → drop pos buf ≡ (hb ++ t) ++ rest
        → Reads buf (skip_text (dec buf pos (length buf))) tt rest
    reads buf pos rest small at =
        let one = length-head_bytes 3 (length t) in
        let both = length-append hb t in
        let fits = rest_length buf pos (hb ++ t) rest at (omega (arith, both)) in
        let behind_head = at ∙ append_assoc hb t rest in
        let next : (pos + length hb + length t) % 2 ^ 64 ≡ pos + length hb + length t =
          omega (arith, both) in
        let head =
          cbor_dec_head-head_bytes buf pos (length buf) 3 (length t) (omega arith) h
            (rest-At buf pos hb (t ++ rest) behind_head) (omega (arith, both)) in
        record {
          next = pos + length hb + length t;
          gives =
              rw
                (
                  skip_text,
                  head,
                  next,
                  not-lt→ltb (length buf) (pos + length hb + length t) (omega (arith, both)),
                )
                refl;
          left =
              rest_next buf (pos + length hb) t rest (rest_next buf pos hb (t ++ rest) behind_head);
        }

module _ (label_cap dir_cap : ℕ) where
  watch_fields-Takes :
      (n key : ℕ) (e : WatchEvent) {e' e'' : WatchEvent} {vs ys : List ℕ}
      → key < 2 ^ 64
      → Takes (watch_field label_cap dir_cap e key) vs e'
      → Takes (watch_fields label_cap dir_cap n e') ys e''
      → Takes (watch_fields label_cap dir_cap (suc n) e) (item_bytes (uint key) ++ (vs ++ ys)) e''
  unfolding watch_fields
  watch_fields-Takes n key e k p q =
      Takes-bind
        (λ key. watch_field label_cap dir_cap e key >>= λ e'. watch_fields label_cap dir_cap n e')
        (uint-Takes key k) (Takes-bind (λ e'. watch_fields label_cap dir_cap n e') p q)

  watch_fields-Takes_none : (e : WatchEvent) → Takes (watch_fields label_cap dir_cap 0 e) [] e
  unfolding watch_fields
  watch_fields-Takes_none e = Takes-pure e

-- The event as it is decoded.
abbrev pub told : WatcherEvent → WatchEvent
told ev = record {
  dev_index = ev.dev_index;
  label = ev.segment_label;
  dir = ev.log_dir;
  log_seq = ev.log_seq;
  device_size = ev.device_size;
}

sign_extend_word : (v : ℕ) → v < 2 ^ 32 → (sign_extend v < 2 ^ 64) × (sign_extend v % 2 ^ 32 ≡ v)
sign_extend_word v h = (ground arith, ground arith)

watch-Takes :
    (ev : WatcherEvent)
    → EventFits ev
    → Takes (decode_watch_event 32 256) (items_bytes (event_items ev)) (told ev)
unfolding decode_watch_event watch_field items_bytes event_items
watch-Takes ev (d, l, p, q, z) =
    let (wide, same) = sign_extend_word ev.dev_index d in
    Takes-bind (λ n. watch_fields 32 256 n no_watch_event) (map-Takes 6 (omega arith))
      (watch_fields-Takes 32 256 5 1 no_watch_event (omega arith)
        (Takes-set (λ u. no_watch_event) (skip_text-Takes log_rotated (omega arith)))
        (watch_fields-Takes 32 256 4 2 no_watch_event (omega arith)
          (Takes-set (λ v. record no_watch_event { dev_index = v % 2 ^ 32 })
            (uint-Takes (sign_extend ev.dev_index) wide))
          (rw same (
            watch_fields-Takes 32 256 3 3 e₁ (omega arith)
              (Takes-set (λ t. record e₁ { label = t })
                (text-Takes 32 ev.segment_label (omega arith)))
              (watch_fields-Takes 32 256 2 4 e₂ (omega arith)
                (Takes-set (λ t. record e₂ { dir = t }) (text-Takes 256 ev.log_dir p))
                (watch_fields-Takes 32 256 1 5 e₃ (omega arith)
                  (Takes-set (λ v. record e₃ { log_seq = v }) (uint-Takes ev.log_seq q))
                  (watch_fields-Takes 32 256 0 6 e₄ (omega arith)
                    (Takes-set (λ v. record e₄ { device_size = v }) (uint-Takes ev.device_size z))
                    (watch_fields-Takes_none 32 256 (told ev)))))))))
  where
    e₁ : WatchEvent
    e₁ = record no_watch_event { dev_index = ev.dev_index }

    e₂ : WatchEvent
    e₂ = record e₁ { label = ev.segment_label }

    e₃ : WatchEvent
    e₃ = record e₂ { dir = ev.log_dir }

    e₄ : WatchEvent
    e₄ = record e₃ { log_seq = ev.log_seq }

-- What a decoder gives on a whole message.
decoded :
    {A : Type 0} {m : Decoder A} {xs : List ℕ} {a : A}
    → Takes m xs a
    → length xs < 2 ^ 64
    → (m (cbor_dec_init xs (length xs))).0 ≡ some a
unfolding cbor_dec_init
decoded {xs = xs} p h = ap (λ r. r.0) (p.reads xs 0 [] h (sym (append-nil xs))).gives

-- The event of a rotated log, within the widths of its C types, is encoded by `lbd_ctl_read` into
-- its 512 bytes, and lbdctl decodes it, with its 32 bytes for the label and 256 for the directory, as
-- that event, a negative device number included.
pub decode_watch_event-event_items :
    (ev : WatcherEvent)
    → EventFits ev
    → (bytes : List ℕ) × (encode 512 (event_items ev) ≡ some bytes)
      × ((decode_watch_event 32 256 (cbor_dec_init bytes (length bytes))).0 ≡ some (told ev))
decode_watch_event-event_items ev h =
    let (enc, short) = encode-event_items ev h in
    (items_bytes (event_items ev), enc, decoded (watch-Takes ev h) (omega (arith, short)))

miss_fields-Takes :
    (n key : ℕ) (e : MissEvent) {e' e'' : MissEvent} {vs ys : List ℕ}
    → key < 2 ^ 64
    → Takes (miss_field e key) vs e'
    → Takes (miss_fields n e') ys e''
    → Takes (miss_fields (suc n) e) (item_bytes (uint key) ++ (vs ++ ys)) e''
unfolding miss_fields
miss_fields-Takes n key e k p q =
    Takes-bind (λ key. miss_field e key >>= λ e'. miss_fields n e') (uint-Takes key k)
      (Takes-bind (λ e'. miss_fields n e') p q)

miss_fields-Takes_none : (e : MissEvent) → Takes (miss_fields 0 e) [] e
unfolding miss_fields
miss_fields-Takes_none e = Takes-pure e

miss-Takes :
    (mh : MissHandler)
    → MissFits (some mh)
    → Takes decode_miss_event
        (items_bytes (miss_items mh))
        (record { dev_index = mh.dev_index; cluster = mh.miss_cluster })
unfolding decode_miss_event miss_field items_bytes miss_items
miss-Takes mh (d, c) =
    let (wide, same) = sign_extend_word mh.dev_index d in
    Takes-bind (λ n. miss_fields n no_miss_event) (map-Takes 3 (omega arith))
      (miss_fields-Takes 2 1 no_miss_event (omega arith)
        (Takes-set (λ u. no_miss_event) (skip_text-Takes block_miss (omega arith)))
        (miss_fields-Takes 1 2 no_miss_event (omega arith)
          (Takes-set (λ v. record no_miss_event { dev_index = v % 2 ^ 32 })
            (uint-Takes (sign_extend mh.dev_index) wide))
          (rw same (
            miss_fields-Takes 0 3 e₁ (omega arith)
              (Takes-set (λ v. record e₁ { cluster = v }) (uint-Takes mh.miss_cluster c))
              (miss_fields-Takes_none
                (record { dev_index = mh.dev_index; cluster = mh.miss_cluster }))))))
  where
    e₁ : MissEvent
    e₁ = record { dev_index = mh.dev_index; cluster = 0 }

-- A miss, within the widths of its C types, is encoded by `lbd_ctl_read` into its 512 bytes, and
-- lbdctl decodes it as the device and the cluster that the handler waits for.
pub decode_miss_event-miss_items :
    (mh : MissHandler)
    → MissFits (some mh)
    → (bytes : List ℕ) × (encode 512 (miss_items mh) ≡ some bytes)
      × ((decode_miss_event (cbor_dec_init bytes (length bytes))).0
          ≡ some (record { dev_index = mh.dev_index; cluster = mh.miss_cluster }))
decode_miss_event-miss_items mh h =
    let (enc, short) = encode-miss_items mh h in
    (items_bytes (miss_items mh), enc, decoded (miss-Takes mh h) (omega (arith, short)))

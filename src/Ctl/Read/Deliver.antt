-- ===== src/Ctl/Read/Deliver.antt =====
-- What `lbd_ctl_poll` (src/lbd_main.c) says of a read.
use lbd.Prelude.{
  ℕ, ◌^◌, ◌≤◌, ◌<◌, ◌≡◌, refl, ap, ◌∙◌, ◌⊎◌, inl, inr, Bool, true, false, List, ◌∷◌, drop, sym,
  Option, none, some, arith, if◌then◌else◌, length, not-lt→ltb,
}
use lbd.Kernel.{Errno}
use lbd.Cbor.Items.{encode}
use lbd.Cbor.Items.Laws.{items_bytes, encode-items_bytes, length-items_bytes-le}
use lbd.Ctl.Watcher.{WatcherEvent, Watcher, watcher_peek}
use lbd.Ctl.Watcher.Queue.{IsRing, events, first, watcher_pop-drop}
use lbd.Ctl.Miss.{MissHandler}
use lbd.Ctl.Read.{
  arrived, CtlState, ReadResult, read_failed, returned, miss_items, event_items, deliver, popped,
  read_event, read_watcher, read_miss, would_block, idle, miss_waits, event_waits, watcher_waits,
  ctl_has_event, ctl_read, ctl_poll,
}
use lbd.Ctl.Read.Loss.{watcher_peek-first}

-- The widths of the C types in what waits.
abbrev pub MissFits : Option MissHandler → Type 0
MissFits none = Unit {0}
MissFits (some mh) = (mh.dev_index < 2 ^ 32) × (mh.miss_cluster < 2 ^ 64)

abbrev pub EventFits : WatcherEvent → Type 0
EventFits ev =
    (ev.dev_index < 2 ^ 32)
    × (length ev.segment_label ≤ 24)
    × (length ev.log_dir < 256)
    × (ev.log_seq < 2 ^ 64)
    × (ev.device_size < 2 ^ 64)

abbrev pub WatcherFits : Option Watcher → Type 0
WatcherFits none = Unit {0}
WatcherFits (some w) = IsRing w × ((ev : WatcherEvent) → first (events w) ≡ some ev → EventFits ev)

pub encode-miss_items :
    (mh : MissHandler)
    → MissFits (some mh)
    → (encode 512 (miss_items mh) ≡ some (items_bytes (miss_items mh)))
      × (length (items_bytes (miss_items mh)) ≤ 512)
unfolding miss_items
encode-miss_items mh (d, c) =
    let short : length (items_bytes (miss_items mh)) ≤ 512 =
      ground (arith, length-items_bytes-le (miss_items mh)) in
    (encode-items_bytes 512 (miss_items mh) (ground arith) short, short)

pub encode-event_items :
    (ev : WatcherEvent)
    → EventFits ev
    → (encode 512 (event_items ev) ≡ some (items_bytes (event_items ev)))
      × (length (items_bytes (event_items ev)) ≤ 512)
unfolding event_items
encode-event_items ev (d, l, p, q, z) =
    let short : length (items_bytes (event_items ev)) ≤ 512 =
      ground (arith, length-items_bytes-le (event_items ev)) in
    (encode-items_bytes 512 (event_items ev) (ground arith) short, short)

-- The bytes are an event that waits: a miss, or the oldest event of the watcher.
abbrev pub Waiting : CtlState → List ℕ → Type 0
Waiting st bytes =
    ((mh : MissHandler) × (st.miss ≡ some mh)
      × (mh.has_event ≡ true)
      × (bytes ≡ items_bytes (miss_items mh)))
    ⊎ ((w : Watcher) × (ev : WatcherEvent) × (rest : List WatcherEvent) × (st.watcher ≡ some w)
        × (events w ≡ ev ∷ rest)
        × (bytes ≡ items_bytes (event_items ev)))

-- The call returned such an event.
abbrev pub Returns : CtlState → ReadResult → Type 0
Returns st r = (bytes : List ℕ) × Waiting st bytes × (r ≡ returned bytes)

deliver-Returns :
    (count : ℕ) (o : Option (List ℕ)) (bytes : List ℕ)
    → o ≡ some bytes
    → length bytes ≤ count
    → deliver count true o ≡ returned bytes
deliver-Returns count o bytes h fits =
    ap (deliver count true) h
    ∙ ap (λ (b : Bool). if b then read_failed lbd.Kernel.einval else returned bytes)
        (not-lt→ltb count (length bytes) fits)

module _ (nonblock : Bool) (count : ℕ) (came : List WatcherEvent) (st : CtlState)
    (room : 512 ≤ count) where
  read_watcher-Returns :
      (o : Option Watcher)
      → st.watcher ≡ o
      → watcher_waits o ≡ true
      → WatcherFits o
      → Returns st (read_watcher nonblock count true came st o).0
  read_watcher-Returns none s h fits = absurd (ground (arith, h))
  read_watcher-Returns (some w) s h (ring, fits) = go (watcher_peek w) refl h
    where
      go :
          (e : Option WatcherEvent)
          → watcher_peek w ≡ e
          → event_waits e ≡ true
          → Returns st (read_event nonblock count true came st w e).0
      go none p k = absurd (ground (arith, k))
      go (some ev) p k =
          let (enc, short) =
            encode-event_items ev (fits ev (sym (watcher_pop-drop w ring).0 ∙ p)) in
          let d =
            deliver-Returns count (encode 512 (event_items ev)) (items_bytes (event_items ev)) enc
              (omega arith) in
          (
            items_bytes (event_items ev),
            inr (w, ev, drop 1 (events w), s, watcher_peek-first w ev ring p, refl),
            ap (λ (r : ReadResult). (popped (arrived w came) st r).0) d,
          )

  read_miss-Returns :
      (o : Option MissHandler)
      → st.miss ≡ o
      → (if miss_waits o then true else watcher_waits st.watcher) ≡ true
      → MissFits o
      → WatcherFits st.watcher
      → Returns st (read_miss nonblock count true came st o).0
  read_miss-Returns none s h m fits = read_watcher-Returns st.watcher refl h fits
  read_miss-Returns (some mh) s h m fits = go mh.has_event refl h
    where
      go :
          (b : Bool)
          → mh.has_event ≡ b
          → (if b then true else watcher_waits st.watcher) ≡ true
          → Returns st
              (if b
                then (deliver count true (encode 512 (miss_items mh)), st)
                else read_watcher nonblock count true came st st.watcher).0
      go true e k =
          let (enc, short) = encode-miss_items mh m in
          (
            items_bytes (miss_items mh),
            inl (mh, s, e, refl),
            deliver-Returns count (encode 512 (miss_items mh)) (items_bytes (miss_items mh)) enc
                (omega arith),
          )
      go false e k = read_watcher-Returns st.watcher refl k fits

  -- Where poll reports the descriptor as readable, a read into at least 512 bytes that can be copied
  -- to returns the bytes of the miss that waits or of the oldest event of the watcher, and neither
  -- sleeps nor fails, for a valid ring and events whose numbers and texts are within the widths of
  -- their C types.
  pub ctl_poll-Returns :
      ctl_poll st ≡ true
      → MissFits st.miss
      → WatcherFits st.watcher
      → Returns st (ctl_read nonblock count true came st).0
  unfolding ctl_poll ctl_read ctl_has_event
  ctl_poll-Returns h m fits =
      go (idle st) (if miss_waits st.miss then true else watcher_waits st.watcher) refl h
    where
      go :
          (i b : Bool)
          → (if miss_waits st.miss then true else watcher_waits st.watcher) ≡ b
          → (if i then false else b) ≡ true
          → Returns st
              (if i
                then (read_failed lbd.Kernel.einval, st)
                else if b
                then read_miss nonblock count true came st st.miss
                else (would_block nonblock, st)).0
      go true b e k = absurd (ground (arith, k))
      go false false e k = absurd (ground (arith, k))
      go false true e k = read_miss-Returns st.miss refl e m fits

-- ===== src/Ctl/Read/Loss.antt =====
-- What `lbd_ctl_read` (src/lbd_main.c) makes of the queue of the watcher.
use lbd.Prelude.{
  ℕ, ◌≤◌, ◌<◌, ◌≡◌, refl, ap, ◌∙◌, ◌⊎◌, inl, inr, Bool, true, false, List, [], ◌∷◌, ◌++◌,
  append_assoc, append-nil, drop, length-append, sym, ◌+◌, Option, none, some, arith, if◌then◌else◌,
  length,
}
use lbd.Kernel.{Errno}
use lbd.Cbor.Items.{encode}
use lbd.Ctl.Watcher.{WatcherEvent, Watcher, watcher_enqueue, watcher_peek, watcher_pop}
use lbd.Ctl.Watcher.Queue.{IsRing, events, push, first, watcher_enqueue-push, watcher_pop-drop}
use lbd.Ctl.Miss.{MissHandler}
use lbd.Ctl.Read.{
  arrived, CtlState, ReadResult, sleeps, read_failed, returned, miss_items, event_items, deliver,
  popped, read_event, read_watcher, read_miss, would_block, ctl_has_event, ctl_read,
}

-- The oldest event.
first_cons : (q : List WatcherEvent) (ev : WatcherEvent) → first q ≡ some ev → q ≡ ev ∷ drop 1 q
first_cons [] ev h = absurd (cc)
first_cons (x ∷ q) ev h =
    ap (λ (o : Option WatcherEvent). elim o as (λ y. WatcherEvent) [ none ↦ x | some y ↦ y ] ∷ q) h

pub watcher_peek-first :
    (w : Watcher) (ev : WatcherEvent)
    → IsRing w
    → watcher_peek w ≡ some ev
    → events w ≡ ev ∷ drop 1 (events w)
watcher_peek-first w ev r h = first_cons (events w) ev (sym (watcher_pop-drop w r).0 ∙ h)

push_room : (q : List WatcherEvent) (ev : WatcherEvent) → length q < 64 → push q ev ≡ q ++ (ev ∷ [])
unfolding push
push_room q ev h = ground arith

-- Events that find room are behind those that waited.
arrived-events :
    (w : Watcher) (came : List WatcherEvent)
    → IsRing w
    → length (events w) + length came ≤ 64
    → IsRing (arrived w came) × (events (arrived w came) ≡ events w ++ came)
arrived-events w [] r room = (r, sym (append-nil (events w)))
arrived-events w (ev ∷ came) r room =
    let (s, e) = watcher_enqueue-push w ev r in
    let one : events (watcher_enqueue w ev) ≡ events w ++ (ev ∷ []) =
      e ∙ push_room (events w) ev (omega arith) in
    let (t, f) =
      arrived-events (watcher_enqueue w ev) came s
        (omega (arith, ap length one, length-append (events w) (ev ∷ []))) in
    (t, f ∙ ap (λ (l : List WatcherEvent). l ++ came) one ∙ append_assoc (events w) (ev ∷ []) came)

-- The result is no event of a watcher: the read failed or sleeps, or it returned a miss.
abbrev pub NoEvent : Option MissHandler → ReadResult → Type 0
NoEvent miss r =
    (r ≡ sleeps)
    ⊎ ((e : Errno) × (r ≡ read_failed e))
    ⊎ ((mh : MissHandler) × (bytes : List ℕ) × (miss ≡ some mh)
        × (encode 512 (miss_items mh) ≡ some bytes)
        × (r ≡ returned bytes))

-- What a read makes of the queue while events come in: all that waited and all that came waits still;
-- or all but the oldest event, which is what was returned, encoded.
abbrev pub NoLoss :
    Option MissHandler → Watcher → List WatcherEvent → ReadResult × CtlState → Type 0
NoLoss miss w came x =
    (w' : Watcher) × IsRing w'
    × (x.1 ≡ record { watcher = some w'; miss = miss })
    × ((NoEvent miss x.0 × ((events w' ≡ events w) ⊎ (events w' ≡ events w ++ came)))
        ⊎ ((ev : WatcherEvent) × (rest : List WatcherEvent) × (bytes : List ℕ) × (events w
              ≡ ev ∷ rest)
            × (events w' ≡ rest ++ came)
            × (encode 512 (event_items ev) ≡ some bytes)
            × (x.0 ≡ returned bytes)))

deliver-returned :
    (count : ℕ) (copied : Bool) (o : Option (List ℕ)) (bytes : List ℕ)
    → deliver count copied o ≡ returned bytes
    → o ≡ some bytes
deliver-returned count copied none bytes h = absurd (ground (arith, h))
deliver-returned count copied (some bs) bytes h = ground (arith, h)

would_block-NoEvent :
    (miss : Option MissHandler) (nonblock : Bool) → NoEvent miss (would_block nonblock)
would_block-NoEvent miss true = inr (inl (_, refl))
would_block-NoEvent miss false = inl refl

module _ (nonblock : Bool) (count : ℕ) (copied : Bool) (came : List WatcherEvent)
    (miss : Option MissHandler) (w : Watcher) (ring : IsRing w)
    (room : length (events w) + length came ≤ 64) where
  abbrev state : CtlState
  state = record { watcher = some w; miss = miss }

  untouched : (r : ReadResult) → NoEvent miss r → NoLoss miss w came (r, state)
  untouched r n = (w, ring, refl, inl (n, inl refl))

  read_event-NoLoss :
      (o : Option WatcherEvent)
      → watcher_peek w ≡ o
      → NoLoss miss w came (read_event nonblock count copied came state w o)
  read_event-NoLoss none e = untouched _ (would_block-NoEvent miss nonblock)
  read_event-NoLoss (some ev) e = go (deliver count copied (encode 512 (event_items ev))) refl
    where
      go :
          (r : ReadResult)
          → deliver count copied (encode 512 (event_items ev)) ≡ r
          → NoLoss miss w came (popped (arrived w came) state r)
      go sleeps d =
          let (s, f) = arrived-events w came ring room in
          (arrived w came, s, refl, inl (inl refl, inr f))
      go (read_failed x) d =
          let (s, f) = arrived-events w came ring room in
          (arrived w came, s, refl, inl (inr (inl (x, refl)), inr f))
      go (returned bytes) d =
          let (s, f) = arrived-events w came ring room in
          let (p, t, g) = watcher_pop-drop (arrived w came) s in
          let oldest = watcher_peek-first w ev ring e in
          (
            watcher_pop (arrived w came),
            t,
            refl,
            inr (
              ev,
              drop 1 (events w),
              bytes,
              oldest,
              g ∙ ap (drop 1) f ∙ ap (λ (l : List WatcherEvent). drop 1 (l ++ came)) oldest,
              deliver-returned count copied (encode 512 (event_items ev)) bytes d,
              refl,
            ),
          )

  read_miss-NoLoss :
      (o : Option MissHandler)
      → miss ≡ o
      → NoLoss miss w came (read_miss nonblock count copied came state o)
  read_miss-NoLoss none e = read_event-NoLoss (watcher_peek w) refl
  read_miss-NoLoss (some mh) e = go mh.has_event
    where
      sent :
          (r : ReadResult) → deliver count copied (encode 512 (miss_items mh)) ≡ r → NoEvent miss r
      sent sleeps d = inl refl
      sent (read_failed x) d = inr (inl (x, refl))
      sent (returned bytes) d = inr (
          inr (
            mh,
            bytes,
            e,
            deliver-returned count copied (encode 512 (miss_items mh)) bytes d,
            refl,
          ))

      go :
          (b : Bool)
          → NoLoss miss w came (
              if b
              then (deliver count copied (encode 512 (miss_items mh)), state)
              else read_watcher nonblock count copied came state (some w))
      go true = untouched _ (sent (deliver count copied (encode 512 (miss_items mh))) refl)
      go false = read_event-NoLoss (watcher_peek w) refl

  -- For a valid ring with room for what waits and for the events that come in between looking at the
  -- queue and taking the oldest off: however small the user's buffer is and wherever the read fails
  -- or would sleep, all events wait still, in order, and none was returned; or the oldest was
  -- returned, encoded, and all others wait, in order.
  pub ctl_read-NoLoss : NoLoss miss w came (ctl_read nonblock count copied came state)
  unfolding ctl_read
  ctl_read-NoLoss = go (ctl_has_event state)
    where
      go :
          (b : Bool)
          → NoLoss miss w came (
              if b
              then read_miss nonblock count copied came state miss
              else (would_block nonblock, state))
      go true = read_miss-NoLoss miss refl
      go false = untouched _ (would_block-NoEvent miss nonblock)

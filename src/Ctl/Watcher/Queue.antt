-- ===== src/Ctl/Watcher/Queue.antt =====
-- A watcher is a first-in, first-out queue of at most 64 events that drops its oldest event for a new
-- one.
use lbd.Prelude.{
  ℕ, zero, suc, ◌+◌, ◌-◌, ◌%◌, ◌≤◌, ◌<◌, ◌≡◌, refl, ap, sym, ◌∙◌, List, [], ◌∷◌, ◌++◌, Option, none,
  some, arith, ltb, ◌==◌, if◌then◌else◌, length, leb, ◌^◌, ◌||◌, get_or, set, drop, get_or-set_self,
  get_or-set_ne, length-set, map, Bool-cases, inl, inr,
}
use lbd.Ctl.Watcher.{
  WatcherEvent, no_event, Watcher, watcher_alloc, drop_oldest, watcher_enqueue, watcher_peek,
  watcher_pop, filtered_out, notify_watchers,
}

-- The indices are inside the ring, and the tail is where the events end.
pub record IsRing (w : Watcher) : Type 0 where
  pub slots : length w.queue ≡ 64
  pub head_in : w.head < 64
  pub tail_at : w.tail ≡ (w.head + w.count) % 64
  pub count_in : w.count ≤ 64

-- The `n` events from slot `h` on.
abbrev pub events_from : List WatcherEvent → ℕ → ℕ → List WatcherEvent
events_from q h zero = []
events_from q h (suc n) = get_or q h no_event ∷ events_from q ((h + 1) % 64) n

-- The events that wait, oldest first.
abbrev pub events : Watcher → List WatcherEvent
events w = events_from w.queue w.head w.count

-- The abstract queue.
unfoldable pub push : List WatcherEvent → WatcherEvent → List WatcherEvent
push q ev = (if length q == 64 then drop 1 q else q) ++ (ev ∷ [])

abbrev pub first : List WatcherEvent → Option WatcherEvent
first [] = none
first (ev ∷ q) = some ev

pub length-events_from : (q : List WatcherEvent) (h n : ℕ) → length (events_from q h n) ≡ n
length-events_from q h zero = refl
length-events_from q h (suc n) = ap suc (length-events_from q ((h + 1) % 64) n)

-- The oldest event and the others.
events_from_pos :
    (q : List WatcherEvent) (h n : ℕ)
    → 0 < n
    → events_from q h n ≡ get_or q h no_event ∷ events_from q ((h + 1) % 64) (n - 1)
events_from_pos q h zero p = absurd (omega arith)
events_from_pos q h (suc n) p = ap (λ (m : ℕ). events_from q h (suc m)) (omega arith)

-- A write behind the events appends one to them.
events_from-set :
    (q : List WatcherEvent) (ev : WatcherEvent) (n h i : ℕ)
    → length q ≡ 64
    → h < 64
    → n < 64
    → i ≡ (h + n) % 64
    → events_from (set q i ev) h (suc n) ≡ events_from q h n ++ (ev ∷ [])
events_from-set q ev zero h i s l m e =
    let at : i ≡ h = omega arith in rw (at, get_or-set_self q h ev no_event (omega arith)) refl
events_from-set q ev (suc n) h i s l m e = rw (get_or-set_ne q i h ev no_event (omega arith)) (
    ap (λ (es : List WatcherEvent). get_or q h no_event ∷ es)
      (events_from-set q ev n ((h + 1) % 64) i s (omega arith) (omega arith) (omega arith)))

pub watcher_alloc-IsRing : (filter_dev : ℕ) → IsRing (watcher_alloc filter_dev)
unfolding watcher_alloc
watcher_alloc-IsRing filter_dev = record {
  slots = refl;
  head_in = omega arith;
  tail_at = omega arith;
  count_in = omega arith;
}

-- Room for one event: the oldest of 64 is gone.
drop_oldest-events :
    (w : Watcher)
    → IsRing w
    → IsRing (drop_oldest w)
      × ((drop_oldest w).count < 64)
      × (events (drop_oldest w) ≡ (if length (events w) == 64 then drop 1 (events w) else events w))
drop_oldest-events w r =
    ground
      (arith, length-events_from w.queue w.head w.count, events_from_pos w.queue w.head w.count)

-- An enqueued event is the last of the queue; the oldest one made room for it where 64 waited.
pub watcher_enqueue-push :
    (w : Watcher) (ev : WatcherEvent)
    → IsRing w
    → IsRing (watcher_enqueue w ev) × (events (watcher_enqueue w ev) ≡ push (events w) ev)
unfolding watcher_enqueue push
watcher_enqueue-push w ev r =
    let (s, room, e) = drop_oldest-events w r in
    let v = drop_oldest w in
    let one : v.count + 1 ≡ suc v.count = omega arith in
    (
      record {
        slots = length-set v.queue v.tail ev ∙ s.slots;
        head_in = s.head_in;
        tail_at = omega (arith, s.tail_at);
        count_in = omega arith;
      },
      rw one (events_from-set v.queue ev v.count v.head v.tail s.slots s.head_in room s.tail_at)
          ∙ ap (λ (es : List WatcherEvent). es ++ (ev ∷ [])) e,
    )

-- `peek` shows the oldest event, and `pop` takes it away; on an empty queue they do nothing.
pub watcher_pop-drop :
    (w : Watcher)
    → IsRing w
    → (watcher_peek w ≡ first (events w))
      × IsRing (watcher_pop w)
      × (events (watcher_pop w) ≡ drop 1 (events w))
unfolding watcher_peek watcher_pop
watcher_pop-drop w r = elim (Bool-cases (ltb 0 w.count)) [
  | inl some_left ↦
      let p : 0 < w.count = ground arith in
      rw (some_left, events_from_pos w.queue w.head w.count p)
        (
          refl,
          record {
            slots = r.slots;
            head_in = omega arith;
            tail_at = omega (arith, r.tail_at);
            count_in = omega arith;
          },
          refl,
        )
  | inr empty ↦
      let z : w.count ≡ 0 = ground arith in
      rw empty (
        ap (λ (n : ℕ). first (events_from w.queue w.head n)) (sym z),
        r,
        ap (events_from w.queue w.head) z
            ∙ sym (ap (λ (n : ℕ). drop 1 (events_from w.queue w.head n)) z),
      )
]

filter_dev-watcher_enqueue :
    (w : Watcher) (ev : WatcherEvent) → (watcher_enqueue w ev).filter_dev ≡ w.filter_dev
unfolding watcher_enqueue
filter_dev-watcher_enqueue w ev = ground arith

abbrev pub AllRing : List Watcher → Type 0
AllRing [] = Unit {0}
AllRing (w ∷ ws) = IsRing w × AllRing ws

-- What a watcher's queue becomes of an event: it takes the event if it watches all devices, that is if
-- its filter is negative as an `int`, or that one.
abbrev pub notified : WatcherEvent → Watcher → List WatcherEvent
notified ev w =
    if leb (2 ^ 31) w.filter_dev || (w.filter_dev == ev.dev_index)
    then push (events w) ev
    else events w

notified-filtered_out :
    (ev : WatcherEvent) (w : Watcher)
    → notified ev w ≡ (if filtered_out w ev.dev_index then events w else push (events w) ev)
notified-filtered_out ev w = ground arith

-- A notification reaches every watcher whose filter lets it pass, and no other, whatever waits in the
-- queues; the rings stay valid and the filters stay.
pub notify_watchers-push :
    (ev : WatcherEvent) (ws : List Watcher)
    → AllRing ws
    → AllRing (notify_watchers ev ws)
      × (map events (notify_watchers ev ws) ≡ map (notified ev) ws)
      × (map (λ w. w.filter_dev) (notify_watchers ev ws) ≡ map (λ w. w.filter_dev) ws)
unfolding notify_watchers
notify_watchers-push ev [] r = (tt, refl, refl)
notify_watchers-push ev (w ∷ ws) (r, rs) =
    let (all, es, fs) = notify_watchers-push ev ws rs in
    let (s, e) = watcher_enqueue-push w ev r in
    elim (Bool-cases (filtered_out w ev.dev_index)) [
      | inl out ↦ rw (notified-filtered_out ev w, out, es, fs) ((r, all), refl, refl)
      | inr hit ↦
          rw (notified-filtered_out ev w, hit, es, fs)
            (
              (s, all),
              ap (λ (l : List WatcherEvent). l ∷ map (notified ev) ws) e,
              ap (λ (f : ℕ). f ∷ map (λ (w : Watcher). w.filter_dev) ws)
                  (filter_dev-watcher_enqueue w ev),
            )
    ]

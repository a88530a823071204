-- ===== src/Ctl/Watcher.antt =====
-- `struct lbd_watcher` of src/lbd_main.c: a ring of 64 events, of which the oldest is dropped when it
-- is full. An `int` is its 32-bit pattern.
pub mod Queue
use lbd.Prelude.{
  ℕ, ◌+◌, ◌-◌, ◌%◌, ◌^◌, List, [], ◌∷◌, Bool, true, false, not, ◌&&◌, Option, none, some, ltb, leb,
  ◌==◌, if◌then◌else◌, get_or, set, replicate,
}

abbrev pub watcher_queue_size : ℕ
watcher_queue_size = 64

-- `struct lbd_watcher_event`; the strings are lists of bytes without the NUL.
pub record WatcherEvent : Type 0 where
  pub dev_index : ℕ
  pub log_seq : ℕ
  pub device_size : ℕ
  pub segment_label : List ℕ
  pub log_dir : List ℕ

-- A slot that `kzalloc` gave and nobody wrote.
abbrev pub no_event : WatcherEvent
no_event = record { dev_index = 0; log_seq = 0; device_size = 0; segment_label = []; log_dir = [] }

-- `struct lbd_watcher`, less the lock and the wait queue.
pub record Watcher : Type 0 where
  pub queue : List WatcherEvent
  pub head : ℕ
  pub tail : ℕ
  pub count : ℕ
  pub filter_dev : ℕ

unfoldable pub watcher_alloc : ℕ → Watcher
watcher_alloc filter_dev = record {
  queue = replicate watcher_queue_size no_event;
  head = 0;
  tail = 0;
  count = 0;
  filter_dev = filter_dev;
}

-- `if (w->count == LBD_WATCHER_QUEUE_SIZE)`: room is made.
abbrev pub drop_oldest : Watcher → Watcher
drop_oldest w =
    if w.count == watcher_queue_size
    then record w { head = (w.head + 1) % watcher_queue_size; count = w.count - 1 }
    else w

unfoldable pub watcher_enqueue : Watcher → WatcherEvent → Watcher
watcher_enqueue w ev =
    let v = drop_oldest w in
    record v {
      queue = set v.queue v.tail ev;
      tail = (v.tail + 1) % watcher_queue_size;
      count = v.count + 1;
    }

unfoldable pub watcher_peek : Watcher → Option WatcherEvent
watcher_peek w = if ltb 0 w.count then some (get_or w.queue w.head no_event) else none

unfoldable pub watcher_pop : Watcher → Watcher
watcher_pop w =
    if ltb 0 w.count
    then record w { head = (w.head + 1) % watcher_queue_size; count = w.count - 1 }
    else w

-- `w->filter_dev >= 0 && w->filter_dev != dev->index`
abbrev pub filtered_out : Watcher → ℕ → Bool
filtered_out w index = ltb w.filter_dev (2 ^ 31) && not (w.filter_dev == index)

-- The loop over the list `lbd_watchers`.
unfoldable pub notify_watchers : WatcherEvent → List Watcher → List Watcher
notify_watchers ev [] = []
notify_watchers ev (w ∷ ws) =
    (if filtered_out w ev.dev_index then w else watcher_enqueue w ev) ∷ notify_watchers ev ws

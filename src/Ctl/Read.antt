-- ===== src/Ctl/Read.antt =====
-- Reading events from the control device: `lbd_ctl_has_event`, `lbd_ctl_read` and `lbd_ctl_poll` of
-- src/lbd_main.c, on what a descriptor's `struct lbd_ctl_state` points to. A read that would sleep is
-- a result of its own; it starts anew when it is woken. `watcher_peek` and `watcher_pop` lock the
-- watcher each on its own, so that `lbd_watcher_enqueue` may come in between: `came` are these events.
pub mod Loss
pub mod Deliver
use lbd.Prelude.{
  ℕ, Bool, true, false, List, [], ◌∷◌, Option, none, some, ltb, if◌then◌else◌, length,
}
use lbd.Kernel.{Errno, einval, efault, other}
use lbd.Cbor.Items.{Item, map_of, uint, text, encode}
use lbd.Ctl.Watcher.{WatcherEvent, Watcher, watcher_enqueue, watcher_peek, watcher_pop}
use lbd.Ctl.Command.{sign_extend}
use lbd.Ctl.Miss.{MissHandler}

-- `struct lbd_ctl_state`, with what its pointers point to.
pub record CtlState : Type 0 where
  pub watcher : Option Watcher
  pub miss : Option MissHandler

-- `-EAGAIN`
abbrev pub eagain : Errno
eagain = other 11

pub data ReadResult : Type 0 where
  sleeps : ReadResult
  read_failed : Errno → ReadResult
  returned : List ℕ → ReadResult

abbrev pub miss_waits : Option MissHandler → Bool
miss_waits none = false
miss_waits (some mh) = mh.has_event

abbrev pub event_waits : Option WatcherEvent → Bool
event_waits none = false
event_waits (some ev) = true

abbrev pub watcher_waits : Option Watcher → Bool
watcher_waits none = false
watcher_waits (some w) = event_waits (watcher_peek w)

unfoldable pub ctl_has_event : CtlState → Bool
unfolding watcher_peek
ctl_has_event st = if miss_waits st.miss then true else watcher_waits st.watcher

-- "block_miss" and "log_rotated"
abbrev pub block_miss : List ℕ
block_miss = 98 ∷ 108 ∷ 111 ∷ 99 ∷ 107 ∷ 95 ∷ 109 ∷ 105 ∷ 115 ∷ 115 ∷ []

abbrev pub log_rotated : List ℕ
log_rotated = 108 ∷ 111 ∷ 103 ∷ 95 ∷ 114 ∷ 111 ∷ 116 ∷ 97 ∷ 116 ∷ 101 ∷ 100 ∷ []

-- `LBD_MISS_KEY_*` are 1 to 3, and `LBD_EVENT_KEY_*` 1 to 6, in order.
unfoldable pub miss_items : MissHandler → List Item
miss_items mh =
    map_of 3
    ∷ uint 1
    ∷ text block_miss
    ∷ uint 2
    ∷ uint (sign_extend mh.dev_index)
    ∷ uint 3
    ∷ uint mh.miss_cluster
    ∷ []

unfoldable pub event_items : WatcherEvent → List Item
event_items ev =
    map_of 6
    ∷ uint 1
    ∷ text log_rotated
    ∷ uint 2
    ∷ uint (sign_extend ev.dev_index)
    ∷ uint 3
    ∷ text ev.segment_label
    ∷ uint 4
    ∷ text ev.log_dir
    ∷ uint 5
    ∷ uint ev.log_seq
    ∷ uint 6
    ∷ uint ev.device_size
    ∷ []

-- An encoded event goes to the user's `count` bytes; `copied` is whether `copy_to_user` succeeds.
abbrev pub deliver : (count : ℕ) (copied : Bool) → Option (List ℕ) → ReadResult
deliver count copied none = read_failed einval
deliver count copied (some bytes) =
    if ltb count (length bytes)
    then read_failed einval
    else if copied
    then returned bytes
    else read_failed efault

-- A watcher behind these events.
abbrev pub arrived : Watcher → List WatcherEvent → Watcher
arrived w [] = w
arrived w (ev ∷ evs) = arrived (watcher_enqueue w ev) evs

-- The event is taken off the queue once it is delivered; `w` is the watcher then.
abbrev pub popped : Watcher → CtlState → ReadResult → ReadResult × CtlState
popped w st (returned bytes) = (returned bytes, record st { watcher = some (watcher_pop w) })
popped w st sleeps = (sleeps, record st { watcher = some w })
popped w st (read_failed e) = (read_failed e, record st { watcher = some w })

abbrev pub would_block : Bool → ReadResult
would_block nonblock = if nonblock then read_failed eagain else sleeps

abbrev pub read_event :
    (nonblock : Bool) (count : ℕ) (copied : Bool) (came : List WatcherEvent)
    → CtlState
    → Watcher
    → Option WatcherEvent
    → ReadResult × CtlState
read_event nonblock count copied came st w none = (would_block nonblock, st)
read_event nonblock count copied came st w (some ev) =
    popped (arrived w came) st (deliver count copied (encode 512 (event_items ev)))

abbrev pub read_watcher :
    (nonblock : Bool) (count : ℕ) (copied : Bool) (came : List WatcherEvent)
    → CtlState
    → Option Watcher
    → ReadResult × CtlState
read_watcher nonblock count copied came st none = (read_failed eagain, st)
read_watcher nonblock count copied came st (some w) =
    read_event nonblock count copied came st w (watcher_peek w)

abbrev pub read_miss :
    (nonblock : Bool) (count : ℕ) (copied : Bool) (came : List WatcherEvent)
    → CtlState
    → Option MissHandler
    → ReadResult × CtlState
read_miss nonblock count copied came st none = read_watcher nonblock count copied came st st.watcher
read_miss nonblock count copied came st (some mh) =
    if mh.has_event
    then (deliver count copied (encode 512 (miss_items mh)), st)
    else read_watcher nonblock count copied came st st.watcher

-- Neither a watcher nor a miss handler.
abbrev pub idle : CtlState → Bool
idle st = elim st.watcher [ some w ↦ false | none ↦ elim st.miss [ some mh ↦ false | none ↦ true ] ]

unfoldable pub ctl_read :
    (nonblock : Bool) (count : ℕ) (copied : Bool) (came : List WatcherEvent)
    → CtlState
    → ReadResult × CtlState
unfolding ctl_has_event watcher_peek watcher_pop watcher_enqueue encode miss_items event_items
ctl_read nonblock count copied came st =
    if idle st
    then (read_failed einval, st)
    else if ctl_has_event st
    then read_miss nonblock count copied came st st.miss
    else (would_block nonblock, st)

-- Whether `lbd_ctl_poll` reports the descriptor as readable.
unfoldable pub ctl_poll : CtlState → Bool
unfolding watcher_peek
ctl_poll st =
    if idle st then false else if miss_waits st.miss then true else watcher_waits st.watcher

-- ===== src/Tests/Ring.antt =====
-- The watchers, the commands and the events at concrete inputs.
use lbd.Prelude.{drop, Option, ℕ, ◌≡◌, refl, List, [], ◌∷◌, none, some, arith, map, true, subst, ap}
use lbd.Ctl.Watcher.{
  WatcherEvent, Watcher, watcher_alloc, watcher_enqueue, watcher_peek, watcher_pop, notify_watchers,
}
use lbd.Ctl.Watcher.Queue.{
  IsRing, AllRing, events, push, notified, watcher_alloc-IsRing, watcher_enqueue-push,
  notify_watchers-push, first, watcher_pop-drop,
}
use lbd.Ctl.Command.{
  cmd_watch, cmd_manage_misses, cmd_swap, nothing_parsed, parse_command, write_watch_cmd,
  write_manage_misses_cmd, write_miss_response, write_swap_cmd,
}
use lbd.Prelude.{length}
use lbd.Cbor.Items.{encode}
use lbd.Cbor.Dec.{cbor_dec_init}
use lbd.Ctl.Miss.{MissHandler}
use lbd.Ctl.Events.{decode_watch_event, decode_miss_event}
use lbd.Ctl.Events.RoundTrip.{told, decode_watch_event-event_items, decode_miss_event-miss_items}
use lbd.Ctl.Read.{CtlState, ctl_read, ctl_poll, event_items, miss_items}
use lbd.Ctl.Read.Loss.{NoLoss, ctl_read-NoLoss}
use lbd.Ctl.Read.Deliver.{Returns, EventFits, ctl_poll-Returns}
use lbd.Ctl.Command.RoundTrip.{
  cmd_entry, dev_entry, all_said, command_bytes, parse_command-command_bytes,
}
use lbd.Ctl.Command.Sent.{write_dev_cmd-parse_command, write_swap_cmd-parse_command}

abbrev an_event : WatcherEvent
an_event = record {
  dev_index = 3;
  log_seq = 9;
  device_size = 4096;
  segment_label = 52 ∷ [];
  log_dir = 47 ∷ [];
}

-- A watcher of device 3.
abbrev a_watcher : Watcher
a_watcher = watcher_alloc 3

watcher_enqueue-push_example :
    IsRing (watcher_enqueue a_watcher an_event)
    × (events (watcher_enqueue a_watcher an_event) ≡ push (events a_watcher) an_event)
watcher_enqueue-push_example = watcher_enqueue-push a_watcher an_event (watcher_alloc-IsRing 3)

-- One watcher of device 3 and one of device 4.
abbrev two_watchers : List Watcher
two_watchers = a_watcher ∷ watcher_alloc 4 ∷ []

notify_watchers-push_example :
    AllRing (notify_watchers an_event two_watchers)
    × (map events (notify_watchers an_event two_watchers) ≡ map (notified an_event) two_watchers)
    × (map (λ w. w.filter_dev) (notify_watchers an_event two_watchers)
        ≡ map (λ w. w.filter_dev) two_watchers)
notify_watchers-push_example =
    notify_watchers-push an_event two_watchers
      (watcher_alloc-IsRing 3, (watcher_alloc-IsRing 4, tt))

parse_command-command_bytes_example :
    parse_command (command_bytes (dev_entry 5 ∷ cmd_entry cmd_watch ∷ []))
    ≡ some (all_said (dev_entry 5 ∷ cmd_entry cmd_watch ∷ []) nothing_parsed)
unfolding lbd.Cbor.Head.head_bytes lbd.Cbor.Head.big_endian
parse_command-command_bytes_example =
    parse_command-command_bytes (dev_entry 5 ∷ cmd_entry cmd_watch ∷ [])
      (omega arith, (omega arith, tt)) (omega arith) (omega arith)

write_dev_cmd-parse_command_example :
    (parse_command (write_watch_cmd 300)
      ≡ some (record { cmd = some cmd_watch; filter_dev = 300; path = none }))
    × (parse_command (write_manage_misses_cmd 300)
        ≡ some (record { cmd = some cmd_manage_misses; filter_dev = 300; path = none }))
write_dev_cmd-parse_command_example = write_dev_cmd-parse_command 300 (omega arith)

-- "/b" and "retry"
write_swap_cmd-parse_command_example :
    ((bytes : List ℕ) × (write_swap_cmd (47 ∷ 98 ∷ []) ≡ some bytes)
      × (parse_command bytes
          ≡ some (record {
            cmd = some cmd_swap;
            filter_dev = 4294967295;
            path = some (47 ∷ 98 ∷ []);
          })))
    × (parse_command (write_miss_response (114 ∷ 101 ∷ 116 ∷ 114 ∷ 121 ∷ []))
        ≡ some (record {
          cmd = some (114 ∷ 101 ∷ 116 ∷ 114 ∷ 121 ∷ []);
          filter_dev = 4294967295;
          path = none;
        }))
write_swap_cmd-parse_command_example =
    write_swap_cmd-parse_command (47 ∷ 98 ∷ []) (114 ∷ 101 ∷ 116 ∷ 114 ∷ 121 ∷ []) (omega arith)
      (omega arith)

-- A descriptor whose watcher holds an event.
abbrev a_reader : CtlState
a_reader = record { watcher = some (watcher_enqueue a_watcher an_event); miss = none }

one_waits-IsRing : IsRing (watcher_enqueue a_watcher an_event)
one_waits-IsRing = (watcher_enqueue-push a_watcher an_event (watcher_alloc-IsRing 3)).0

watcher_pop-drop_example :
    let w = watcher_enqueue a_watcher an_event in
    (watcher_peek w ≡ first (events w))
    × IsRing (watcher_pop w)
    × (events (watcher_pop w) ≡ drop 1 (events w))
watcher_pop-drop_example = watcher_pop-drop (watcher_enqueue a_watcher an_event) one_waits-IsRing

-- Another event comes while the first one is delivered.
ctl_read-NoLoss_example :
    NoLoss none
      (watcher_enqueue a_watcher an_event)
      (an_event ∷ [])
      (ctl_read true 512 true (an_event ∷ []) a_reader)
unfolding watcher_enqueue watcher_alloc
ctl_read-NoLoss_example =
    ctl_read-NoLoss true 512 true (an_event ∷ []) none (watcher_enqueue a_watcher an_event)
      one_waits-IsRing (omega arith)

ctl_poll-Returns_example : Returns a_reader (ctl_read true 512 true [] a_reader).0
unfolding ctl_poll watcher_peek watcher_enqueue watcher_alloc
ctl_poll-Returns_example = ctl_poll-Returns true 512 [] a_reader (omega arith) refl tt (
  one_waits-IsRing,
  λ ev h.
      subst EventFits
        (ap
          (λ (o : Option WatcherEvent). elim o as (λ x. WatcherEvent) [
            | none ↦ an_event
            | some e ↦ e
          ])
          h)
        (omega arith, omega arith, omega arith, omega arith, omega arith),
)

abbrev a_miss : MissHandler
a_miss = record { dev_index = 3; pending = none; miss_cluster = 7; has_event = true }

decode_watch_event-event_items_example :
    (bytes : List ℕ) × (encode 512 (event_items an_event) ≡ some bytes)
    × ((decode_watch_event 32 256 (cbor_dec_init bytes (length bytes))).0 ≡ some (told an_event))
decode_watch_event-event_items_example =
    decode_watch_event-event_items an_event
      (omega arith, omega arith, omega arith, omega arith, omega arith)

decode_miss_event-miss_items_example :
    (bytes : List ℕ) × (encode 512 (miss_items a_miss) ≡ some bytes)
    × ((decode_miss_event (cbor_dec_init bytes (length bytes))).0
        ≡ some (record { dev_index = 3; cluster = 7 }))
decode_miss_event-miss_items_example =
    decode_miss_event-miss_items a_miss (omega arith, omega arith)

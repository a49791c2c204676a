-- ===== src/Store/Observe.antt =====
-- The observe ring of pkg/bus/store.go: publishing an event, and trimming the ring.
pub mod Laws
use pinakes.Base.{
  ℕ, zero, suc, ◌+◌, ◌-◌, String, len, List, [], ◌∷◌, ◌++◌, Option, none, some, total, take, drop,
}
use pinakes.Types.{ObserveEvent, EventData}
use pinakes.Store.{Store, Env}
use pinakes.Store.Inbox.{drop_count}

abbrev option_size : Option ℕ → ℕ
option_size none = 0
option_size (some n) = n

unfoldable pub observe_event_size : Env → String → List String → EventData → ℕ
observe_event_size env conversation_id agent_ids content =
    64 + len conversation_id + total len agent_ids + option_size (env.json_length content)

abbrev pub event_size : ObserveEvent → ℕ
event_size e = e.size

-- trimObserveLocked
unfoldable pub trim_observe : Store → Store
trim_observe s =
    let dropped =
      drop_count event_size s.cfg.max_observe_events s.cfg.max_observe_bytes s.observe_bytes
        s.observe_events in
    record s {
      observe_bytes = s.observe_bytes - total event_size (take dropped s.observe_events);
      observe_events = drop dropped s.observe_events;
    }

-- publishLocked
unfoldable pub publish : EventData → String → List String → ℕ → Store → Store
publish content conversation_id agent_ids at s =
    let size = observe_event_size s.env conversation_id agent_ids content in
    let evt : ObserveEvent = record {
      id = suc s.next_observe_id;
      at = at;
      content = content;
      conversation_id = conversation_id;
      agent_ids = agent_ids;
      size = size;
    } in
    trim_observe (record s {
      next_observe_id = suc s.next_observe_id;
      observe_events = s.observe_events ++ evt ∷ [];
      observe_bytes = s.observe_bytes + size;
    })

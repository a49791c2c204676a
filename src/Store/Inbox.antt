-- ===== src/Store/Inbox.antt =====
-- The agent inboxes of pkg/bus/store.go: an append with eviction by count and by bytes, and the
-- removal of a prefix. The event at position i of an inbox has the cursor `base + i`.
pub mod Budget
pub mod Laws
use pinakes.Base.{
  ℕ, zero, suc, ◌+◌, ◌-◌, ◌≤◌, String, len, List, [], ◌∷◌, ◌++◌, total, length, take, drop, ltb,
  leb, Bool, ◌||◌, if◌then◌else◌, nat_eq,
}
use pinakes.Base.Dict.{Dict, lookup, lookup_or, insert}
use pinakes.Types.{InboxEvent, Attachment, Any, nil, json, unmarshalable}
use pinakes.Store.{Store, is_zero}

-- len(json.Marshal(meta)), and 0 for nil and where it fails
abbrev pub any_size : Any → ℕ
any_size nil = 0
any_size (json text) = len text
any_size unmarshalable = 0

abbrev pub attachment_size : Attachment → ℕ
attachment_size a = 32 + len a.url + len a.name + len a.content_type + len a.sha256

unfoldable pub inbox_event_size : InboxEvent → ℕ
inbox_event_size e =
    64
    + len e.message_id
    + len e.from
    + len e.conversation_id
    + len e.body
    + total attachment_size e.attachments
    + any_size e.meta

module _ {ℓ} {A : Type ℓ} where
  -- `if max > 0 && len(events) > max { drop = len(events) - max }`
  unfoldable pub over_count : (max_events : ℕ) → List A → ℕ
  over_count max_events events = if leb max_events 0 then 0 else length events - max_events

module _ {ℓ} {A : Type ℓ} (size : A → ℕ) where
  -- `for drop < len(events)-1 && remaining > maxBytes { remaining -= size(events[drop]); drop++ }`,
  -- on the events from `drop` on: how many more are dropped. The last one never is.
  unfoldable pub evict : (max_bytes remaining : ℕ) → List A → ℕ
  evict max_bytes remaining [] = 0
  evict max_bytes remaining (e ∷ []) = 0
  evict max_bytes remaining (e ∷ next ∷ rest) =
      let more = evict max_bytes (remaining - size e) (next ∷ rest) in
      if ltb max_bytes remaining then suc more else 0

  -- `if maxBytes > 0 { ... }`
  unfoldable pub evict_count : (max_bytes remaining : ℕ) → List A → ℕ
  evict_count max_bytes remaining events =
      if leb max_bytes 0 then 0 else evict max_bytes remaining events

  -- The number of oldest events that go, by the count first and then by the bytes.
  unfoldable pub drop_count : (max_events max_bytes bytes : ℕ) → List A → ℕ
  drop_count max_events max_bytes bytes events =
      let over = over_count max_events events in
      over + evict_count max_bytes (bytes - total size (take over events)) (drop over events)

-- dropInboxPrefixLocked
unfoldable pub drop_inbox_prefix : String → ℕ → Store → Store
drop_inbox_prefix agent_id n s =
    let events = lookup_or [] agent_id s.inboxes in
    if is_zero n || ltb (length events) n then s else record s {
      inbox_bytes =
          insert agent_id
            (lookup_or 0 agent_id s.inbox_bytes - total inbox_event_size (take n events))
            s.inbox_bytes;
      inboxes = insert agent_id (drop n events) s.inboxes;
      inbox_base = insert agent_id (lookup_or 0 agent_id s.inbox_base + n) s.inbox_base;
    }

-- appendInboxLocked
unfoldable pub append_inbox : String → InboxEvent → Store → Store
append_inbox agent_id evt s =
    let events = lookup_or [] agent_id s.inboxes ++ evt ∷ [] in
    let bytes = lookup_or 0 agent_id s.inbox_bytes + inbox_event_size evt in
    let dropped =
      drop_count inbox_event_size s.cfg.max_inbox_events_per_agent s.cfg.max_inbox_bytes_per_agent
        bytes events in
    drop_inbox_prefix agent_id dropped (record s {
      inboxes = insert agent_id events s.inboxes;
      inbox_bytes = insert agent_id bytes s.inbox_bytes;
    })

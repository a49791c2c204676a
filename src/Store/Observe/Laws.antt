-- ===== src/Store/Observe/Laws.antt =====
-- The observe ring: ids rise, the byte account is exact, the budgets hold, the newest event stays.
use pinakes.Base.{
  ℕ, zero, suc, ◌∙◌, ◌+◌, ◌-◌, ◌≤◌, ◌<◌, ◌≡◌, refl, sym, ap, String, List, [], ◌∷◌, ◌++◌, total,
  length, take, drop, length-append, length-drop, total-append, total-take-drop, drop-append, arith,
}
use pinakes.Types.{ObserveEvent, EventData}
use pinakes.Store.{Store}
use pinakes.Store.Inbox.{drop_count}
use pinakes.Store.Inbox.Budget.{Fits, drop_count-lt, drop_count-Fits, drop_count_least}
use pinakes.Store.Observe.{event_size, observe_event_size, trim_observe, publish}

-- The ids rise above `lo` and end at `hi` at most.
abbrev pub Rising : ℕ → ℕ → List ObserveEvent → Type 0
Rising lo hi [] = lo ≤ hi
Rising lo hi (e ∷ es) = (lo < e.id) × Rising e.id hi es

abbrev pub IsRing : Store → Type 0
IsRing s =
    Rising 0 s.next_observe_id s.observe_events
    × (s.observe_bytes ≡ total event_size s.observe_events)

Rising-weaken :
    (lo lo' hi : ℕ) (es : List ObserveEvent) → lo' ≤ lo → Rising lo hi es → Rising lo' hi es
Rising-weaken lo lo' hi [] h r = omega arith
Rising-weaken lo lo' hi (e ∷ es) h r = (omega (arith, h, r.0), r.1)

pub Rising-drop :
    (n lo hi : ℕ) (es : List ObserveEvent) → Rising lo hi es → Rising lo hi (drop n es)
Rising-drop zero lo hi es r = r
Rising-drop (suc n) lo hi [] r = r
Rising-drop (suc n) lo hi (e ∷ es) r =
    Rising-drop n lo hi es (Rising-weaken e.id lo hi es (omega (arith, r.0)) r.1)

Rising-append :
    (lo hi : ℕ) (es : List ObserveEvent) (e : ObserveEvent)
    → e.id ≡ suc hi
    → Rising lo hi es
    → Rising lo (suc hi) (es ++ e ∷ [])
Rising-append lo hi [] e same r = (omega (arith, same, r), omega (arith, same))
Rising-append lo hi (x ∷ es) e same r = (r.0, Rising-append x.id hi es e same r.1)

-- The event that `publish` makes.
pub made : EventData → String → List String → ℕ → Store → ObserveEvent
made content conversation_id agent_ids at s = record {
  id = suc s.next_observe_id;
  at = at;
  content = content;
  conversation_id = conversation_id;
  agent_ids = agent_ids;
  size = observe_event_size s.env conversation_id agent_ids content;
}

module _ (c : EventData) (cid : String) (ids : List String) (at : ℕ) (s : Store) where
  pub messages-publish : (publish c cid ids at s).messages ≡ s.messages
  unfolding publish trim_observe
  messages-publish = refl

  pub next_observe_id-publish : (publish c cid ids at s).next_observe_id ≡ suc s.next_observe_id
  unfolding publish trim_observe
  next_observe_id-publish = refl

  pub inboxes-publish :
      ((publish c cid ids at s).inboxes ≡ s.inboxes)
      × ((publish c cid ids at s).inbox_base ≡ s.inbox_base)
      × ((publish c cid ids at s).inbox_bytes ≡ s.inbox_bytes)
  unfolding publish trim_observe
  inboxes-publish = (refl, refl, refl)

module _ (c : EventData) (cid : String) (ids : List String) (at : ℕ) (s : Store)
    (ring : IsRing s) where
  pub trimmed : ℕ
  trimmed =
      drop_count event_size s.cfg.max_observe_events s.cfg.max_observe_bytes
        (s.observe_bytes + event_size (made c cid ids at s))
        (s.observe_events ++ made c cid ids at s ∷ [])

  whole_bytes :
      s.observe_bytes + event_size (made c cid ids at s)
      ≡ total event_size (s.observe_events ++ made c cid ids at s ∷ [])
  whole_bytes =
      omega (arith, ring.1, total-append event_size s.observe_events (made c cid ids at s ∷ []))

  pub trimmed-le : trimmed ≤ length s.observe_events
  unfolding trimmed
  trimmed-le = rw whole_bytes (
      omega (
        arith,
        length-append s.observe_events (made c cid ids at s ∷ []),
        drop_count-lt event_size s.cfg.max_observe_events s.cfg.max_observe_bytes
            (s.observe_events ++ made c cid ids at s ∷ [])
            (omega (arith, length-append s.observe_events (made c cid ids at s ∷ []))),
      ))

  -- The ring after a publish: the oldest events go, the new one stands last.
  pub events-publish :
      (publish c cid ids at s).observe_events
      ≡ drop trimmed s.observe_events ++ made c cid ids at s ∷ []
  unfolding publish trim_observe trimmed made
  events-publish = drop-append trimmed s.observe_events (made c cid ids at s ∷ []) trimmed-le

  bytes-publish :
      (publish c cid ids at s).observe_bytes
      ≡ s.observe_bytes
        + event_size (made c cid ids at s)
        - total event_size (take trimmed (s.observe_events ++ made c cid ids at s ∷ []))
  unfolding publish trim_observe trimmed made
  bytes-publish = refl

  -- A publish keeps the ids rising and the byte account exact.
  pub publish-IsRing : IsRing (publish c cid ids at s)
  unfolding made
  publish-IsRing =
      let e = made c cid ids at s in
      let es = s.observe_events in
      (
        rw (next_observe_id-publish c cid ids at s, events-publish)
            (Rising-append 0 s.next_observe_id (drop trimmed es) e refl
              (Rising-drop trimmed 0 s.next_observe_id es ring.0)),
        omega (
          arith,
          bytes-publish,
          whole_bytes,
          ap (total event_size) events-publish,
          ap (total event_size) (sym (drop-append trimmed es (e ∷ []) trimmed-le)),
          total-take-drop event_size trimmed (es ++ e ∷ []),
        ),
      )

  trimmed_lem :
      trimmed
      ≡ drop_count event_size s.cfg.max_observe_events s.cfg.max_observe_bytes
          (total event_size (s.observe_events ++ made c cid ids at s ∷ []))
          (s.observe_events ++ made c cid ids at s ∷ [])
  unfolding trimmed
  trimmed_lem = rw whole_bytes

  -- If the observe ring is sound, it is within its count budget after a publish, and within its
  -- byte budget or down to the newest event. It is the old ring with the new event, less some of
  -- the oldest; and with fewer of them gone it would not be within the budgets.
  pub publish-Fits :
      let fits = Fits event_size s.cfg.max_observe_events s.cfg.max_observe_bytes in
      let all = s.observe_events ++ made c cid ids at s ∷ [] in
      let left = (publish c cid ids at s).observe_events in
      fits left
      × (left ≡ drop (length all - length left) all)
      × ((j : ℕ) → j < length all - length left → ¬ fits (drop j all))
  publish-Fits =
      let me = s.cfg.max_observe_events in
      let mb = s.cfg.max_observe_bytes in
      let all = s.observe_events ++ made c cid ids at s ∷ [] in
      let whole : (publish c cid ids at s).observe_events ≡ drop trimmed all =
        events-publish
        ∙ sym (drop-append trimmed s.observe_events (made c cid ids at s ∷ []) trimmed-le) in
      let gone : length all - length (publish c cid ids at s).observe_events ≡ trimmed = omega (
        arith,
        ap length whole,
        length-drop trimmed all,
        trimmed-le,
        length-append s.observe_events (made c cid ids at s ∷ []),
      ) in
      (
        rw
            (
              events-publish,
              ← drop-append trimmed s.observe_events (made c cid ids at s ∷ []) trimmed-le,
              trimmed_lem,
            )
            (drop_count-Fits event_size me mb all),
        whole ∙ ap (λ (k : ℕ). drop k all) (sym gone),
        λ j h. drop_count_least event_size me mb all j (omega (arith, h, gone, trimmed_lem)),
      )

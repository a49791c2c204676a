-- ===== src/Store/Observing.antt =====
-- ObserveSince of pkg/bus/store.go: the events past an id that a filter and its actor let through.
pub mod Laws
use pinakes.Base.{
  ℕ, zero, suc, ◌+◌, ◌/◌, String, Bool, true, false, not, ◌&&◌, ◌||◌, List, [], ◌∷◌, Option, none,
  some, length, drop, select, contains, leb, ltb, nat_eq, ◌==◌, if◌then◌else◌,
}
use pinakes.Base.Int.{ℤ}
use pinakes.Types.{ObserveEvent, ObserveFilter}
use pinakes.Config.{Config}
use pinakes.Store.{Store}
use pinakes.Store.Access.{actor_can_access_all_names}
use pinakes.Store.Sweep.{sweep}
use pinakes.Store.Poll.{Round, has_any, clamp_wait}

unfoldable pub event_matches_filter : Config → ObserveFilter → ObserveEvent → Bool
event_matches_filter cfg filter e =
    let visible = actor_can_access_all_names cfg filter.actor_agent_id e.agent_ids in
    if not (filter.conversation_id == "") && not (e.conversation_id == filter.conversation_id)
    then false
    else if not (filter.agent_id == "")
    then (if contains e.agent_ids filter.agent_id then visible else false)
    else visible

-- Whether the event at an index passes the test of the search; out of range nothing is asked.
unfoldable pub past_at : ℕ → List ObserveEvent → ℕ → Bool
past_at after_id [] i = true
past_at after_id (e ∷ es) zero = ltb after_id e.id
past_at after_id (e ∷ es) (suc i) = past_at after_id es i

-- The loop of sort.Search between i and j: the first index at which the test holds.
unfoldable pub search_loop : ℕ → (ℕ → Bool) → (i j : ℕ) → ℕ
search_loop zero test i j = i
search_loop (suc fuel) test i j =
    let h = (i + j) / 2 in
    let right = search_loop fuel test (suc h) j in
    let left = search_loop fuel test i h in if ltb i j then (if test h then left else right) else i

-- sort.Search(n, test); a round at least halves what is left, so n rounds are enough
unfoldable pub sort_search : ℕ → (ℕ → Bool) → ℕ
sort_search n test = search_loop n test 0 n

-- The events that a round returns.
unfoldable pub events_since : Store → ℕ → ObserveFilter → List ObserveEvent
events_since s after_id filter =
    let idx = sort_search (length s.observe_events) (past_at after_id s.observe_events) in
    select (event_matches_filter s.cfg filter) (drop idx s.observe_events)

-- The id of the last event, or the old one.
abbrev pub last_id : ℕ → List ObserveEvent → ℕ
last_id id [] = id
last_id id (e ∷ es) = last_id e.id es

unfoldable pub observe_loop :
    ℕ
    → ObserveFilter
    → (wait deadline : ℕ) → Round
    → List Round
    → Store
    → (List ObserveEvent × ℕ) × Store
observe_loop after_id filter wait deadline r [] s =
    let swept = sweep r.now (r.others s) in
    let out = events_since swept after_id filter in ((out, last_id after_id out), swept)
observe_loop after_id filter wait deadline r (next ∷ rest) s =
    let swept = sweep r.now (r.others s) in
    let out = events_since swept after_id filter in
    elim (has_any out || nat_eq wait 0 || leb deadline r.later) [
      | true ↦ ((out, last_id after_id out), swept)
      | false ↦ observe_loop after_id filter wait deadline next rest swept
    ]

unfoldable pub observe_since :
    (start : ℕ)
    → ℕ
    → ObserveFilter
    → ℤ
    → Round
    → List Round
    → Store
    → (List ObserveEvent × ℕ) × Store
observe_since start after_id filter raw r rest s =
    let wait = clamp_wait raw s.cfg.inbox_wait_max in
    observe_loop after_id filter wait (start + wait) r rest s

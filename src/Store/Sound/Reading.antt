-- ===== src/Store/Sound/Reading.antt =====
-- PollInbox, ObserveSince and the queries keep the invariant.
use pinakes.Base.{ℕ, ◌+◌, String, List, [], ◌∷◌, arith}
use pinakes.Base.Int.{ℤ}
use pinakes.Base.Dict.Laws.{Entries}
use pinakes.Text.{trim_space}
use pinakes.Types.{ObserveFilter, ListConversationsFilter, ListConversationMessagesInput}
use pinakes.Store.{Store}
use pinakes.Store.Inbox.{drop_inbox_prefix}
use pinakes.Store.Inbox.Laws.{drop_inbox_prefix-IsAccounted, drop_inbox_prefix-blind}
use pinakes.Store.Observe.Laws.{IsRing}
use pinakes.Store.Sweep.{sweep}
use pinakes.Store.Poll.{
  PollInboxInput, Advance, Round, read_inbox, answer_from, poll_round, poll_loop, poll_inbox,
  clamp_wait,
}
use pinakes.Store.Observing.{observe_loop, observe_since}
use pinakes.Store.Listing.{
  list_conversation_messages, list_page, list_agents, list_conversations, snapshot_counts,
}
use pinakes.Store.Sound.{IsNumbered}
use pinakes.Store.Sound.Operations.{Sound, sweep-Sound}

drop_inbox_prefix-Sound :
    (a : String) (n : ℕ) (s : Store) → Sound s → Sound (drop_inbox_prefix a n s)
drop_inbox_prefix-Sound a n s h = record {
  holds = (
    drop_inbox_prefix-IsAccounted a n s h.holds.0,
    drop_inbox_prefix-blind (λ t. IsRing t) (λ i j k t r. r) a n s h.holds.1,
    drop_inbox_prefix-blind (λ t. Entries (IsNumbered t.next_message_id) t.messages)
        (λ i j k t r. r) a n s h.holds.2,
  );
}

read_inbox-Sound :
    (a : String) (cursor limit : ℤ) (advance : Advance) (s : Store)
    → Sound s
    → Sound (read_inbox a cursor limit advance s).1
unfolding read_inbox answer_from
read_inbox-Sound a cursor limit advance s h = grind (arith, drop_inbox_prefix-Sound)

pub poll_round-Sound :
    (now : ℕ) (a : String) (cursor limit : ℤ) (advance : Advance) (s : Store)
    → Sound s
    → Sound (poll_round now a cursor limit advance s).1
unfolding poll_round
poll_round-Sound now a cursor limit advance s h = grind (arith, read_inbox-Sound, sweep-Sound)

-- What the others do between the rounds keeps the invariant.
abbrev pub AllSound : List Round → Type 0
AllSound [] = Unit
AllSound (r ∷ rs) = ((s : Store) → Sound s → Sound (r.others s)) × AllSound rs

poll_loop-Sound :
    (input : PollInboxInput) (wait deadline : ℕ) (advance : Advance) (r : Round) (rs : List Round)
    → AllSound (r ∷ rs)
    → (s : Store) → Sound s
    → Sound (poll_loop input wait deadline advance r rs s).1
unfolding poll_loop
poll_loop-Sound input wait deadline advance r [] fair s h =
    poll_round-Sound r.now _ input.cursor input.limit advance _ (fair.0 s h)
poll_loop-Sound input wait deadline advance r (next ∷ rest) fair s h =
    let round =
      poll_round-Sound r.now (trim_space input.agent_id) input.cursor input.limit advance _
        (fair.0 s h) in
    ground (
      arith,
      round,
      poll_loop-Sound input wait deadline advance next rest fair.1
          (poll_round r.now (trim_space input.agent_id) input.cursor input.limit advance
            (r.others s)).1
          round,
    )

-- A poll keeps the invariant if the others do, whatever the rounds are.
pub poll_inbox-Sound :
    (start : ℕ) (input : PollInboxInput) (advance : Advance) (r : Round) (rs : List Round)
    (s : Store)
    → AllSound (r ∷ rs)
    → Sound s
    → Sound (poll_inbox start input advance r rs s).1
unfolding poll_inbox
poll_inbox-Sound start input advance r rs s fair h =
    let wait = clamp_wait input.wait s.cfg.inbox_wait_max in
    ground (arith, h, poll_loop-Sound input wait (start + wait) advance r rs fair s h)

pub list_conversation_messages-Sound :
    (now : ℕ) (input : ListConversationMessagesInput) (s : Store)
    → Sound s
    → Sound (list_conversation_messages now input s).1
unfolding list_conversation_messages list_page
list_conversation_messages-Sound now input s h = grind (arith, sweep-Sound)

observe_loop-Sound :
    (after_id : ℕ) (filter : ObserveFilter) (wait deadline : ℕ) (r : Round) (rs : List Round)
    → AllSound (r ∷ rs)
    → (s : Store) → Sound s
    → Sound (observe_loop after_id filter wait deadline r rs s).1
unfolding observe_loop
observe_loop-Sound after_id filter wait deadline r [] fair s h = sweep-Sound r.now _ (fair.0 s h)
observe_loop-Sound after_id filter wait deadline r (next ∷ rest) fair s h =
    let swept = sweep-Sound r.now (r.others s) (fair.0 s h) in
    ground (
      arith,
      swept,
      observe_loop-Sound after_id filter wait deadline next rest fair.1 (sweep r.now (r.others s))
          swept,
    )

pub observe_since-Sound :
    (start after_id : ℕ) (filter : ObserveFilter) (wait : ℤ) (r : Round) (rs : List Round)
    (s : Store)
    → AllSound (r ∷ rs)
    → Sound s
    → Sound (observe_since start after_id filter wait r rs s).1
unfolding observe_since
observe_since-Sound start after_id filter wait r rs s fair h =
    observe_loop-Sound after_id filter _ _ r rs fair s h

pub list_agents-Sound :
    (now : ℕ) (capability : String) (s : Store) → Sound s → Sound (list_agents now capability s).1
unfolding list_agents
list_agents-Sound now capability s h = sweep-Sound now s h

pub list_conversations-Sound :
    (now : ℕ) (filter : ListConversationsFilter) (s : Store)
    → Sound s
    → Sound (list_conversations now filter s).1
unfolding list_conversations
list_conversations-Sound now filter s h = sweep-Sound now s h

pub snapshot_counts-Sound : (now : ℕ) (s : Store) → Sound s → Sound (snapshot_counts now s).1
unfolding snapshot_counts
snapshot_counts-Sound now s h = sweep-Sound now s h

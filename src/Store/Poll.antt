-- ===== src/Store/Poll.antt =====
-- PollInbox of pkg/bus/store.go: one look at the inbox under the lock, and the wait between looks.
pub mod Laws
pub mod Joined
use pinakes.Base.{
  ℕ, zero, suc, ◌+◌, ◌-◌, String, Bool, true, false, not, ◌&&◌, ◌||◌, List, [], ◌∷◌, Option, none,
  some, length, take, drop, leb, ltb, nat_eq, ◌==◌, if◌then◌else◌,
}
use pinakes.Base.Int.{ℤ, pos, negsuc}
use pinakes.Base.Dict.{lookup, lookup_or}
use pinakes.Text.{trim_space}
use pinakes.Types.{Agent, InboxEvent}
use pinakes.Errors.{Result, ok, err, fail, validation, unauthorized, reject_if, ◌>>=◌, ◌>>◌}
use pinakes.Config.{Config}
use pinakes.Scope.{accepts_name}
use pinakes.Store.{Store, Operation, guarded}
use pinakes.Store.Status.{is_active}
use pinakes.Store.Access.{authorize_agent_for_name}
use pinakes.Store.Inbox.{drop_inbox_prefix}
use pinakes.Store.Sweep.{sweep}

pub record PollInboxInput : Type 0 where
  pub agent_id : String
  pub cursor : ℤ
  pub wait : ℤ
  pub limit : ℤ

unfoldable pub check_poll : Config → PollInboxInput → Result (Unit {0})
check_poll cfg input = do
  let agent_id = trim_space input.agent_id
  reject_if (agent_id == "") validation "agent_id is required"
  reject_if (not (accepts_name cfg agent_id)) validation
      "agent_id must be prefixed with personal., ucla., or shared."

-- The wait, cut to 0 .. InboxWaitMax.
unfoldable pub clamp_wait : ℤ → ℕ → ℕ
clamp_wait (negsuc n) max = 0
clamp_wait (pos n) max = if ltb max n then max else n

-- The cursor, brought between the base and the end of the inbox.
unfoldable pub clamp_between : ℤ → (base end : ℕ) → ℕ
clamp_between (negsuc n) base end = base
clamp_between (pos n) base end = if ltb n base then base else if ltb end n then end else n

-- `if limit > 0 && len(out) > limit { out = out[:limit] }`
unfoldable pub limit_events : ℤ → List InboxEvent → List InboxEvent
limit_events (pos zero) out = out
limit_events (pos (suc n)) out = if ltb (suc n) (length out) then take (suc n) out else out
limit_events (negsuc n) out = out

unfoldable pub may_poll : Store → String → Result (Unit {0})
may_poll s agent_id = elim (lookup agent_id s.agents) [
  | none ↦ fail unauthorized "agent is not registered/active"
  | some agent ↦
      if is_active agent.status
      then authorize_agent_for_name s.cfg agent agent_id
      else fail unauthorized "agent is not registered/active"
]

-- The barrier that a durable backend puts before the cursor advances.
abbrev pub Advance : Type 0
Advance = String → ℕ → Result (Unit {0})

-- The events from the cursor on, and the next cursor.
unfoldable pub answer_from : String → ℕ → ℤ → Store → Result (List InboxEvent × ℕ) × Store
answer_from agent_id cursor limit s =
    let out = limit_events limit (lookup_or [] agent_id s.inboxes) in
    (ok (out, cursor + length out), s)

-- What is below the cursor is received and goes; the rest, from the cursor on, is the answer.
unfoldable pub read_inbox : String → ℤ → ℤ → Advance → Operation (List InboxEvent × ℕ)
read_inbox agent_id raw limit advance s =
    let base = lookup_or 0 agent_id s.inbox_base in
    let events = lookup_or [] agent_id s.inboxes in
    let cursor = clamp_between raw base (base + length events) in
    if ltb base cursor
    then guarded (advance agent_id cursor)
        (λ (s : Store).
          answer_from agent_id cursor limit (drop_inbox_prefix agent_id (cursor - base) s))
        s
    else answer_from agent_id cursor limit s

-- One round of the loop.
unfoldable pub poll_round : ℕ → String → ℤ → ℤ → Advance → Operation (List InboxEvent × ℕ)
poll_round now agent_id cursor limit advance s =
    let swept = sweep now s in
    guarded (may_poll swept agent_id) (read_inbox agent_id cursor limit advance) swept

-- A round: the clock as the round starts and as it looks at the deadline, and what the other
-- operations did to the store since the last round. A list of rounds ends where the timer fires.
pub record Round : Type 0 where
  pub now : ℕ
  pub later : ℕ
  pub others : Store → Store

abbrev pub has_any {ℓ} : {A : Type ℓ} → List A → Bool
has_any [] = false
has_any (x ∷ xs) = true

-- The loop, from its first round; a round goes on only if it found nothing before the deadline.
unfoldable pub poll_loop :
    PollInboxInput
    → (wait deadline : ℕ) → Advance
    → Round
    → List Round
    → Operation (List InboxEvent × ℕ)
poll_loop input wait deadline advance r [] s =
    poll_round r.now (trim_space input.agent_id) input.cursor input.limit advance (r.others s)
poll_loop input wait deadline advance r (next ∷ rest) s =
    let (answer, s') =
      poll_round r.now (trim_space input.agent_id) input.cursor input.limit advance (r.others s) in
    elim answer [
      | err e ↦ (err e, s')
      | ok (events, cursor) ↦ elim (has_any events || nat_eq wait 0 || leb deadline r.later) [
        | true ↦ (ok (events, cursor), s')
        | false ↦ poll_loop input wait deadline advance next rest s'
      ]
    ]

unfoldable pub poll_inbox :
    (start : ℕ) → PollInboxInput → Advance → Round → List Round → Operation (List InboxEvent × ℕ)
poll_inbox start input advance r rest s =
    let wait = clamp_wait input.wait s.cfg.inbox_wait_max in
    guarded (check_poll s.cfg input) (poll_loop input wait (start + wait) advance r rest) s

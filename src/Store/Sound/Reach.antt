-- ===== src/Store/Sound/Reach.antt =====
-- The runs of a store: any sequence of its operations from a new store, at any times, with any inputs
-- and any durability barrier.
use pinakes.Base.{ℕ, refl, String, List, arith}
use pinakes.Base.Int.{ℤ}
use pinakes.Base.Dict.{lookup, lookup_or}
use pinakes.Types.{
  Message, RegisterAgentInput, CreateConversationInput, SendMessageInput, AckInput, EventInput,
  InjectInput,
}
use pinakes.Config.{Config}
use pinakes.Store.{Store, Env, new_store}
use pinakes.Store.Acceptance.{SendAcceptance, Barrier}
use pinakes.Store.Register.{register_agent}
use pinakes.Store.Listing.{create_conversation}
use pinakes.Store.Send.{send_message}
use pinakes.Store.Inject.{inject}
use pinakes.Store.Poll.{Advance, poll_round}
use pinakes.Store.Lifecycle.{ack, post_event}
use pinakes.Store.Sweep.{sweep}
use pinakes.Store.Sound.Operations.{
  Sound, register_agent-Sound, create_conversation-Sound, sweep-Sound,
}
use pinakes.Store.Sound.Sending.{send_message-Sound, inject-Sound}
use pinakes.Store.Sound.Lifecycle.{ack-Sound, post_event-Sound}
use pinakes.Store.Sound.Reading.{poll_round-Sound}

-- One step under the lock. A long poll is a sequence of rounds, between which others step; the queries
-- and an ObserveSince change the store by their sweep alone.
pub data Step (s : Store) : Store → Type 0 where
  registers : (now : ℕ) (input : RegisterAgentInput) → Step s (register_agent now input s).1
  creates : (now : ℕ) (input : CreateConversationInput) → Step s (create_conversation now input s).1
  sends :
      (now : ℕ) (input : SendMessageInput) (commit : Barrier SendAcceptance)
      → Step s (send_message now input commit s).1
  injects :
      (now : ℕ) (input : InjectInput) (commit : Barrier SendAcceptance)
      → Step s (inject now input commit s).1
  polls :
      (now : ℕ) (agent_id : String) (cursor limit : ℤ) (advance : Advance)
      → Step s (poll_round now agent_id cursor limit advance s).1
  acks : (now : ℕ) (input : AckInput) (commit : Barrier Message) → Step s (ack now input commit s).1
  posts :
      (now : ℕ) (input : EventInput) (commit : Barrier Message)
      → Step s (post_event now input commit s).1
  sweeps : (now : ℕ) → Step s (sweep now s)

pub data Reach (s : Store) : Store → Type 0 where
  start : Reach s s
  next : {t u : Store} → Reach s t → Step t u → Reach s u

Step-Sound : {s t : Store} → Step s t → Sound s → Sound t
Step-Sound {s} (registers now input) h = register_agent-Sound now input s h
Step-Sound {s} (creates now input) h = create_conversation-Sound now input s h
Step-Sound {s} (sends now input commit) h = send_message-Sound now input commit s h
Step-Sound {s} (injects now input commit) h = inject-Sound now input commit s h
Step-Sound {s} (polls now a cursor limit advance) h =
    poll_round-Sound now a cursor limit advance s h
Step-Sound {s} (acks now input commit) h = ack-Sound now input commit s h
Step-Sound {s} (posts now input commit) h = post_event-Sound now input commit s h
Step-Sound {s} (sweeps now) h = sweep-Sound now s h

new_store-Sound :
    (cfg : Config) (env : Env) (allowlist : List String) (epoch : String)
    → Sound (new_store cfg env allowlist epoch)
unfolding new_store lookup_or lookup
new_store-Sound cfg env allowlist epoch = record { holds = ((λ a. refl), (omega arith, refl), tt) }

Reach-Sound : {s t : Store} → Sound s → Reach s t → Sound t
Reach-Sound h start = h
Reach-Sound h (next r step) = Step-Sound step (Reach-Sound h r)

-- Every store reached from a new one by any sequence of operations, at any times, with any inputs
-- and any durability barrier, is sound: the byte account of every inbox is the sum over its
-- events, the ids of the observe ring rise up to the counter and its byte account is exact, and
-- every message stands under its own id, which the counter gave out.
pub reachable-Sound :
    (cfg : Config) (env : Env) (allowlist : List String) (epoch : String) (s : Store)
    → Reach (new_store cfg env allowlist epoch) s
    → Sound s
reachable-Sound cfg env allowlist epoch s r =
    Reach-Sound (new_store-Sound cfg env allowlist epoch) r

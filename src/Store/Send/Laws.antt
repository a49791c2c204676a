-- ===== src/Store/Send/Laws.antt =====
-- SendMessage: what an accepted send has checked and done, and what a refused one leaves.
use pinakes.Base.{
  ℕ, ◌+◌, ◌≡◌, ◌⊎◌, inl, inr, sym, ap, ◌∙◌, true, Option, none, some, String, arith, if_keeps, ltb,
  length, Option-cases,
}
use pinakes.Base.Dict.{lookup}
use pinakes.Base.Dict.Laws.{lookup-insert_self}
use pinakes.Types.{Agent, Message, InboxEvent, SendMessageInput, InjectInput}
use pinakes.Errors.{Result, ok, err, Error, Result-cases}
use pinakes.Store.{Store, PushJob}
use pinakes.Store.Status.{is_active}
use pinakes.Store.Access.{authorize_agent_for_name, authorize_send_target}
use pinakes.Store.Inbox.Laws.{append_inbox-blind}
use pinakes.Store.Observe.{publish, trim_observe}
use pinakes.Store.Push.{enqueue_push_job}
use pinakes.Store.Sweep.{sweep}
use pinakes.Store.Acceptance.{
  SendAcceptance, Barrier, install, hand_in, publish_message, schedule_push, message_id,
}
use pinakes.Store.Send.{
  SendRequest, Sent, accepted, route, answer_again, plan_send, plan, new_message, send_new,
  send_once, send_locked, send_message, accept,
}
use pinakes.Store.Inject.{inject, inject_locked}

-- A send that fails leaves the store as it was, or as the sweep alone leaves it.
pub send_refused :
    (now : ℕ) (input : SendMessageInput) (commit : Barrier SendAcceptance) (s : Store) (e : Error)
    → (send_message now input commit s).0 ≡ err e
    → ((send_message now input commit s).1 ≡ s)
      ⊎ ((send_message now input commit s).1 ≡ sweep now s)
unfolding send_message send_locked send_once send_new
send_refused now input commit s e h = ground (arith, h)

-- An injection that fails leaves the store as it was, or as the sweep alone leaves it.
pub inject_refused :
    (now : ℕ) (input : InjectInput) (commit : Barrier SendAcceptance) (s : Store) (e : Error)
    → (inject now input commit s).0 ≡ err e
    → ((inject now input commit s).1 ≡ s) ⊎ ((inject now input commit s).1 ≡ sweep now s)
unfolding inject inject_locked
inject_refused now input commit s e h = ground (arith, h)

-- The fields of a store that an acceptance leaves behind it.
record Leaves (a : SendAcceptance) (t : Store) : Type 0 where
  message : lookup a.message.message_id t.messages ≡ some a.message
  conversation : lookup a.conversation.conversation_id t.conversations ≡ some a.conversation

publish-Leaves :
    (a : SendAcceptance) (m : Message) (now : ℕ) (s : Store)
    → Leaves a s
    → Leaves a (publish_message m now s)
unfolding publish_message publish trim_observe
publish-Leaves a m now s h = record { message = h.message; conversation = h.conversation }

hand_in-Leaves :
    (a : SendAcceptance) (to : String) (e : Option InboxEvent) (s : Store)
    → Leaves a s
    → Leaves a (hand_in to e s)
hand_in-Leaves a to none s h = h
hand_in-Leaves a to (some e) s h =
    append_inbox-blind (Leaves a)
      (λ i j k s h. record { message = h.message; conversation = h.conversation }) to e s h

install-Leaves : (a : SendAcceptance) (s : Store) → Leaves a (install a s)
unfolding install
install-Leaves a s = hand_in-Leaves a a.message.to a.inbox_event _ (record {
  message = lookup-insert_self a.message.message_id a.message s.messages;
  conversation = lookup-insert_self a.conversation.conversation_id a.conversation s.conversations;
})

schedule-Leaves :
    (a : SendAcceptance) (job : Option PushJob) (s : Store)
    → Leaves a s
    → Leaves a (schedule_push job s)
unfolding schedule_push enqueue_push_job
schedule-Leaves a none s h = h
schedule-Leaves a (some job) s h =
    let same = λ (r : Option String × Store). Leaves a r.1 in
    if_keeps same s.push_closed _ _ (record { message = h.message; conversation = h.conversation })
      (if_keeps same (ltb (length s.push_queue) s.cfg.push_queue_size) _ _
        (record { message = h.message; conversation = h.conversation })
        (record { message = h.message; conversation = h.conversation }))

accept-Leaves : (now : ℕ) (a : SendAcceptance) (s : Store) → Leaves a (accept now a s)
unfolding accept
accept-Leaves now a s =
    schedule-Leaves a a.push_job _ (publish-Leaves a a.message now _ (install-Leaves a s))

-- What an accepted send has gone through.
pub record Accepts (r : SendRequest) (m : Message) (s t : Store) : Type 0 where
  pub sender : Agent
  pub registered : lookup r.from s.agents ≡ some sender
  pub present : is_active sender.status ≡ true
  pub publishes : authorize_agent_for_name s.cfg sender r.from ≡ ok tt
  pub sends : authorize_send_target s.cfg sender r.to ≡ ok tt
  pub target : Agent
  pub known : lookup r.to s.agents ≡ some target
  pub addressed :
      (m.from ≡ r.from) × (m.to ≡ r.to) × (m.message_id ≡ message_id (s.next_message_id + 1))
  pub stored : lookup m.message_id t.messages ≡ some m

pub record Routed (r : SendRequest) (s : Store) (target : Agent) : Type 0 where
  pub sender : Agent
  pub registered : lookup r.from s.agents ≡ some sender
  pub present : is_active sender.status ≡ true
  pub publishes : authorize_agent_for_name s.cfg sender r.from ≡ ok tt
  pub sends : authorize_send_target s.cfg sender r.to ≡ ok tt
  pub known : lookup r.to s.agents ≡ some target

pub route_lem :
    (r : SendRequest) (s : Store) (target : Agent) → route s r ≡ ok target → Routed r s target
unfolding route
route_lem r s target h = elim (Option-cases (lookup r.from s.agents)) [
  | inl e ↦ absurd (ground (arith, h, e))
  | inr (sender, e) ↦ record {
    sender = sender;
    registered = e;
    present = ground (arith, h, e);
    publishes = ground (arith, h, e);
    sends = ground (arith, h, e);
    known = ground (arith, h, e);
  }
]

-- The message of a plan goes from the sender to the target under the next id.
pub plan_send_lem :
    (now : ℕ) (input : SendMessageInput) (r : SendRequest) (s : Store) (target : Agent)
    (a : SendAcceptance)
    → plan_send now input r s target ≡ ok a
    → (a.message.from ≡ r.from)
      × (a.message.to ≡ r.to)
      × (a.message.message_id ≡ message_id (s.next_message_id + 1))
unfolding plan_send plan new_message
plan_send_lem now input r s target a h = ground (arith, h)

send_new-stored :
    (now : ℕ) (input : SendMessageInput) (r : SendRequest) (commit : Barrier SendAcceptance)
    (target : Agent) (m : Message) (s : Store)
    → (send_new now input r commit target s).0 ≡ ok (accepted m)
    → ((m.from ≡ r.from) × (m.to ≡ r.to) × (m.message_id ≡ message_id (s.next_message_id + 1)))
      × (lookup m.message_id (send_new now input r commit target s).1.messages ≡ some m)
unfolding send_new
send_new-stored now input r commit target m s h =
    grind (arith, h, accept-Leaves now, plan_send_lem now input r s target)

pub send_locked-routed :
    (now : ℕ) (input : SendMessageInput) (r : SendRequest) (commit : Barrier SendAcceptance)
    (target : Agent) (m : Message) (s : Store)
    → route s r ≡ ok target
    → (send_locked now input r commit s).0 ≡ ok (accepted m)
    → send_locked now input r commit s ≡ send_new now input r commit target s
unfolding send_locked send_once answer_again
send_locked-routed now input r commit target m s routed h = grind (arith, h, routed)

pub refused_route :
    (now : ℕ) (input : SendMessageInput) (r : SendRequest) (commit : Barrier SendAcceptance)
    (m : Message) (s : Store) (e : Error)
    → route s r ≡ err e
    → ¬ ((send_locked now input r commit s).0 ≡ ok (accepted m))
unfolding send_locked
refused_route now input r commit m s e refused h = ground (arith, h, refused)

-- If a send under the lock is accepted with message m, then its sender is registered and active
-- and may publish under its own name and to the target, the target is registered, m goes from the
-- sender to the target, its id is the next one of the counter, and m stands under that id in the
-- store after it.
pub send_locked-Accepts :
    (now : ℕ) (input : SendMessageInput) (r : SendRequest) (commit : Barrier SendAcceptance)
    (m : Message) (s : Store)
    → (send_locked now input r commit s).0 ≡ ok (accepted m)
    → Accepts r m s (send_locked now input r commit s).1
send_locked-Accepts now input r commit m s h = elim (Result-cases (route s r)) [
  | inr (e, refused) ↦ absurd (refused_route now input r commit m s e refused h)
  | inl (target, routed) ↦
      let same = send_locked-routed now input r commit target m s routed h in
      let w = route_lem r s target routed in
      let (addressed, stored) =
        send_new-stored now input r commit target m s (ap (λ x. x.0) (sym same) ∙ h) in
      record {
        sender = w.sender;
        registered = w.registered;
        present = w.present;
        publishes = w.publishes;
        sends = w.sends;
        target = target;
        known = w.known;
        addressed = addressed;
        stored = ap (λ (x : Result Sent × Store). lookup m.message_id x.1.messages) same ∙ stored;
      }
]

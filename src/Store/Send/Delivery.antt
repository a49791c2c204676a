-- ===== src/Store/Send/Delivery.antt =====
-- Where an accepted send goes: into the inbox of an active target, or into the queue of one that has
-- expired but is within its grace period.
use pinakes.Base.{
  ℕ, ◌+◌, ◌≤◌, ◌≡◌, ◌⊎◌, inl, inr, refl, sym, ap, subst, ◌∙◌, true, false, Option, none, some,
  String, List, [], arith, length, ltb, total, not, Bool-cases, if_keeps, if◌then◌else◌,
}
use pinakes.Base.Dict.{Dict, lookup, lookup_or}
use pinakes.Types.{Agent, Message, InboxEvent, SendMessageInput}
use pinakes.Errors.{Result, ok, Result-cases}
use pinakes.Store.{Store, PushJob}
use pinakes.Store.Status.{is_active}
use pinakes.Store.Inbox.{inbox_event_size}
use pinakes.Store.Inbox.Laws.{IsAccounted, Appends, evicts, append_inbox-Appends}
use pinakes.Store.Observe.{publish, trim_observe}
use pinakes.Store.Push.{enqueue_push_job}
use pinakes.Store.Sweep.{message_event}
use pinakes.Store.Acceptance.{
  SendAcceptance, Barrier, install, hand_in, publish_message, schedule_push,
}
use pinakes.Store.Send.{
  SendRequest, Sent, accepted, route, plan_send, plan, new_message, check_grace, send_new,
  send_locked, accept,
}
use pinakes.Store.Send.Laws.{send_locked-routed, route_lem, refused_route, plan_send_lem}

-- All inboxes are as before.
pub record Unmoved (s t : Store) : Type 0 where
  pub events : t.inboxes ≡ s.inboxes
  pub base : t.inbox_base ≡ s.inbox_base
  pub bytes : t.inbox_bytes ≡ s.inbox_bytes

publish-Unmoved : (m : Message) (now : ℕ) (s : Store) → Unmoved s (publish_message m now s)
unfolding publish_message publish trim_observe
publish-Unmoved m now s = record { events = refl; base = refl; bytes = refl }

schedule-Unmoved : (job : Option PushJob) (s : Store) → Unmoved s (schedule_push job s)
unfolding schedule_push enqueue_push_job
schedule-Unmoved none s = record { events = refl; base = refl; bytes = refl }
schedule-Unmoved (some job) s =
    let same = λ (r : Option String × Store). Unmoved s r.1 in
    let u : Unmoved s s = record { events = refl; base = refl; bytes = refl } in
    if_keeps same s.push_closed _ _ (record { events = refl; base = refl; bytes = refl })
      (if_keeps same (ltb (length s.push_queue) s.cfg.push_queue_size) _ _
        (record { events = refl; base = refl; bytes = refl })
        (record { events = refl; base = refl; bytes = refl }))

join-Unmoved : {s t u : Store} → Unmoved s t → Unmoved t u → Unmoved s u
join-Unmoved h k = record {
  events = k.events ∙ h.events;
  base = k.base ∙ h.base;
  bytes = k.bytes ∙ h.bytes;
}

carry-Appends :
    (a : String) (e : InboxEvent) (n : ℕ) (s t u : Store)
    → Unmoved t u
    → Appends a e n s t
    → Appends a e n s u
carry-Appends a e n s t u k h = record {
  newest = h.newest;
  events = ap (lookup_or [] a) k.events ∙ h.events;
  base = ap (lookup_or 0 a) k.base ∙ h.base;
  bytes =
      ap (lookup_or 0 a) k.bytes
      ∙ h.bytes
      ∙ ap (λ (d : Dict (List InboxEvent)). total inbox_event_size (lookup_or [] a d))
          (sym k.events);
  others = λ b ne.
      let (p, q, r) = h.others b ne in
      (
        ap (lookup_or [] b) k.events ∙ p,
        ap (lookup_or 0 b) k.base ∙ q,
        ap (lookup_or 0 b) k.bytes ∙ r,
      );
}

plan_send_event :
    (now : ℕ) (input : SendMessageInput) (r : SendRequest) (s : Store) (target : Agent)
    (a : SendAcceptance)
    → plan_send now input r s target ≡ ok a
    → (a.inbox_event ≡ (if is_active target.status then some (message_event a.message) else none))
      × (a.message.queued_for_agent ≡ not (is_active target.status))
      × ((is_active target.status ≡ true) ⊎ (now ≤ target.expires_at + s.cfg.grace_period))
unfolding plan_send plan new_message check_grace
plan_send_event now input r s target a h = ground (arith, h)

-- Where the message of an accepted send is.
pub data Lands (now : ℕ) (r : SendRequest) (m : Message) (s t : Store) : Type 0 where
  in_inbox :
      (target : Agent) (n : ℕ)
      → lookup r.to s.agents ≡ some target
      → is_active target.status ≡ true
      → Appends r.to (message_event m) n s t
      → Lands now r m s t
  in_queue :
      (target : Agent)
      → lookup r.to s.agents ≡ some target
      → is_active target.status ≡ false
      → now ≤ target.expires_at + s.cfg.grace_period
      → m.queued_for_agent ≡ true
      → Unmoved s t
      → Lands now r m s t

hand_in-Appends :
    (to : String) (e : InboxEvent) (event : Option InboxEvent) (s : Store)
    → IsAccounted s
    → event ≡ some e
    → (n : ℕ) × Appends to e n s (hand_in to event s)
hand_in-Appends to e event s acc same = (
  evicts to e s,
  subst (λ x. Appends to e (evicts to e s) s (hand_in to x s)) (sym same)
      (append_inbox-Appends to e s acc),
)

-- The change of the inboxes by an acceptance.
install-inbox :
    (a : SendAcceptance) (s : Store) (e : InboxEvent)
    → IsAccounted s
    → a.inbox_event ≡ some e
    → (n : ℕ) × Appends a.message.to e n s (install a s)
unfolding install
install-inbox a s e acc event =
    let (n, w) = hand_in-Appends a.message.to e a.inbox_event _ acc event in
    (
      n,
      record {
        newest = w.newest;
        events = w.events;
        base = w.base;
        bytes = w.bytes;
        others = w.others;
      },
    )

install-Unmoved : (a : SendAcceptance) (s : Store) → a.inbox_event ≡ none → Unmoved s (install a s)
unfolding install
install-Unmoved a s event = rw event (record { events = refl; base = refl; bytes = refl })

after_install : (now : ℕ) (a : SendAcceptance) (s : Store) → Unmoved (install a s) (accept now a s)
unfolding accept
after_install now a s =
    join-Unmoved (publish-Unmoved a.message now _) (schedule-Unmoved a.push_job _)

accept-Lands :
    (now : ℕ) (input : SendMessageInput) (r : SendRequest) (s : Store)
    → IsAccounted s
    → (target : Agent) → lookup r.to s.agents ≡ some target
    → (a : SendAcceptance) → plan_send now input r s target ≡ ok a
    → Lands now r a.message s (accept now a s)
accept-Lands now input r s acc target known a planned =
    let (event, queued, grace) = plan_send_event now input r s target a planned in
    elim (Bool-cases (is_active target.status)) [
      | inl present ↦
          let (n, w) = install-inbox a s (message_event a.message) acc (event ∙ rw present) in
          let to : a.message.to ≡ r.to = (plan_send_lem now input r s target a planned).1 in
          in_inbox target n known present (
            carry-Appends r.to (message_event a.message) n s _ _ (after_install now a s)
              (subst (λ x. Appends x (message_event a.message) n s (install a s)) to w))
      | inr gone ↦
          in_queue target known gone (ground (arith, grace, gone)) (queued ∙ rw gone)
            (join-Unmoved (install-Unmoved a s (event ∙ rw gone)) (after_install now a s))
    ]

send_new-Lands :
    (now : ℕ) (input : SendMessageInput) (r : SendRequest) (commit : Barrier SendAcceptance)
    (target : Agent) (m : Message) (s : Store)
    → IsAccounted s
    → lookup r.to s.agents ≡ some target
    → (send_new now input r commit target s).0 ≡ ok (accepted m)
    → Lands now r m s (send_new now input r commit target s).1
unfolding send_new
send_new-Lands now input r commit target m s acc known h =
    elim (Result-cases (plan_send now input r s target)) [
      | inr (e, refused) ↦ absurd (ground (arith, h, refused))
      | inl (a, planned) ↦ elim (Result-cases (commit a)) [
        | inr (e, refused) ↦ absurd (ground (arith, h, planned, refused))
        | inl (_, done) ↦
            let same : a.message ≡ m = ground (arith, h, planned, done) in
            rw (planned, done)
              (subst (λ x. Lands now r x s (accept now a s)) same
                (accept-Lands now input r s acc target known a planned))
      ]
    ]

-- If the byte accounts are exact and a send under the lock is accepted with message m, then
-- either the target is active and the only change of the inboxes is the append of the event of m
-- to the inbox of the target, or the target has expired within its grace period, m is marked as
-- queued, and no inbox changes.
pub send_locked-Lands :
    (now : ℕ) (input : SendMessageInput) (r : SendRequest) (commit : Barrier SendAcceptance)
    (m : Message) (s : Store)
    → IsAccounted s
    → (send_locked now input r commit s).0 ≡ ok (accepted m)
    → Lands now r m s (send_locked now input r commit s).1
send_locked-Lands now input r commit m s acc h = elim (Result-cases (route s r)) [
  | inr (e, refused) ↦ absurd (refused_route now input r commit m s e refused h)
  | inl (target, routed) ↦
      let same = send_locked-routed now input r commit target m s routed h in
      let landed =
        send_new-Lands now input r commit target m s acc (route_lem r s target routed).known
          (ap (λ x. x.0) (sym same) ∙ h) in
      subst (λ (x : Result Sent × Store). Lands now r m s x.1) (sym same) landed
]

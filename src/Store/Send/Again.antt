-- ===== src/Store/Send/Again.antt =====
-- A send that is repeated within the idempotency window.
use pinakes.Base.{
  ℕ, ◌≡◌, refl, subst, sym, false, if_keeps, Option, none, some, String, arith, length, ltb,
}
use pinakes.Base.Dict.Laws.{lookup-insert_self}
use pinakes.Types.{Agent, Message, InboxEvent, SendMessageInput}
use pinakes.Errors.{ok}
use pinakes.Store.{Store, PushJob, IdempotencyEntry, older_than}
use pinakes.Store.Push.{enqueue_push_job}
use pinakes.Store.Sweep.{sweep}
use pinakes.Store.Acceptance.{
  SendAcceptance, Barrier, install, hand_in, publish_message, schedule_push,
}
use pinakes.Store.Send.{
  SendRequest, Sent, accepted, dedupe_key, earlier, answer_again, plan_send, plan, send_new,
  send_once, send_locked, accept,
}
use pinakes.Store.Send.Memory.{
  Same, self-Same, join-Same, publish-Same, append_inbox-Same, Remembers, carry, sweep-Remembers,
}

-- An acceptance leaves its key behind it.
schedule-Same : (job : Option PushJob) (s : Store) → Same s (schedule_push job s)
unfolding schedule_push enqueue_push_job
schedule-Same none s = self-Same s
schedule-Same (some job) s =
    let same = λ (r : Option String × Store). Same s r.1 in
    if_keeps same s.push_closed _ _ (record { config = refl; keys = refl })
      (if_keeps same (ltb (length s.push_queue) s.cfg.push_queue_size) _ _
        (record { config = refl; keys = refl }) (record { config = refl; keys = refl }))

hand_in-Same : (to : String) (e : Option InboxEvent) (s : Store) → Same s (hand_in to e s)
hand_in-Same to none s = self-Same s
hand_in-Same to (some e) s = append_inbox-Same to e s

accept-Remembers :
    (now : ℕ) (a : SendAcceptance) (key : String) (e : IdempotencyEntry) (s : Store)
    → a.idempotency ≡ some (key, e)
    → Remembers s.cfg.idempotency_window key e (accept now a s)
unfolding accept install publish_message
accept-Remembers now a key e s kept =
    carry s.cfg.idempotency_window key e _ _
      (join-Same (hand_in-Same a.message.to a.inbox_event _)
        (join-Same (publish-Same _ _ _ now _) (schedule-Same a.push_job _)))
      (record { span = refl; entry = rw kept (lookup-insert_self key e s.idempotency) })

plan_send-key :
    (now : ℕ) (input : SendMessageInput) (r : SendRequest) (s : Store) (target : Agent)
    (a : SendAcceptance)
    → plan_send now input r s target ≡ ok a
    → a.idempotency
      ≡ some (
        dedupe_key r.from r.to r.request_id,
        record { message_id = a.message.message_id; created_at = now },
      )
unfolding plan_send plan
plan_send-key now input r s target a h = ground (arith, h)

-- The entry of a message.
abbrev pub entry_of : ℕ → Message → IdempotencyEntry
entry_of now m = record { message_id = m.message_id; created_at = now }

planned-Remembers :
    (now : ℕ) (input : SendMessageInput) (r : SendRequest) (s : Store) (target : Agent)
    (a : SendAcceptance)
    → plan_send now input r s target ≡ ok a
    → Remembers s.cfg.idempotency_window
        (dedupe_key r.from r.to r.request_id)
        (entry_of now a.message)
        (accept now a s)
planned-Remembers now input r s target a h =
    accept-Remembers now a _ (entry_of now a.message) s (plan_send-key now input r s target a h)

send_new-Remembers :
    (now : ℕ) (input : SendMessageInput) (r : SendRequest) (commit : Barrier SendAcceptance)
    (target : Agent) (m : Message) (s : Store)
    → (send_new now input r commit target s).0 ≡ ok (accepted m)
    → Remembers s.cfg.idempotency_window
        (dedupe_key r.from r.to r.request_id)
        (entry_of now m)
        (send_new now input r commit target s).1
unfolding send_new
send_new-Remembers now input r commit target m s h =
    grind (arith, h, planned-Remembers now input r s target)

send_locked-Remembers :
    (now : ℕ) (input : SendMessageInput) (r : SendRequest) (commit : Barrier SendAcceptance)
    (m : Message) (s : Store)
    → (send_locked now input r commit s).0 ≡ ok (accepted m)
    → Remembers s.cfg.idempotency_window
        (dedupe_key r.from r.to r.request_id)
        (entry_of now m)
        (send_locked now input r commit s).1
unfolding send_locked send_once answer_again
send_locked-Remembers now input r commit m s h =
    grind (arith, h, send_new-Remembers now input r commit)

earlier_lem :
    (now : ℕ) (r : SendRequest) (e : IdempotencyEntry) (window : ℕ) (s : Store)
    → older_than now e.created_at window ≡ false
    → Remembers window (dedupe_key r.from r.to r.request_id) e s
    → earlier now s r ≡ some e
unfolding earlier
earlier_lem now r e window s fresh h = rw (h.entry, earlier) (rw (h.span, fresh))

again_locked :
    (now : ℕ) (input : SendMessageInput) (r : SendRequest) (commit : Barrier SendAcceptance)
    (e : IdempotencyEntry) (again : Sent) (s : Store)
    → earlier now s r ≡ some e
    → (send_locked now input r commit s).0 ≡ ok again
    → (again ≡ answer_again s r e) × ((send_locked now input r commit s).1 ≡ s)
unfolding send_locked send_once
again_locked now input r commit e again s known h = grind (arith, h, known)

-- If a send under the lock is accepted with message m, then after a sweep within the idempotency
-- window a send under the lock with the same key that succeeds is answered from memory, by the
-- message that stands under the id of m or by that id alone where it is pruned, and changes
-- nothing: no second message is made.
pub send_again :
    (now later : ℕ) (input input' : SendMessageInput) (r r' : SendRequest)
    (commit commit' : Barrier SendAcceptance) (m : Message) (again : Sent) (s : Store)
    → (send_locked now input r commit s).0 ≡ ok (accepted m)
    → dedupe_key r'.from r'.to r'.request_id ≡ dedupe_key r.from r.to r.request_id
    → older_than later now s.cfg.idempotency_window ≡ false
    → let t = sweep later (send_locked now input r commit s).1 in
      (send_locked later input' r' commit' t).0 ≡ ok again
      → (again ≡ answer_again t r' (record { message_id = m.message_id; created_at = now }))
        × ((send_locked later input' r' commit' t).1 ≡ t)
send_again now later input input' r r' commit commit' m again s h same fresh h' =
    let e = entry_of now m in
    let t = sweep later (send_locked now input r commit s).1 in
    let kept =
      sweep-Remembers later s.cfg.idempotency_window _ e _ fresh
        (send_locked-Remembers now input r commit m s h) in
    again_locked later input' r' commit' e again t
      (earlier_lem later r' e s.cfg.idempotency_window t fresh
        (subst (λ k. Remembers s.cfg.idempotency_window k e t) (sym same) kept))
      h'

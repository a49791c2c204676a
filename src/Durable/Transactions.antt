-- ===== src/Durable/Transactions.antt =====
-- pkg/bus/sqlite.go and sqlite_delivery.go: what each transaction does to the deliveries and the cursors.
use pinakes.Base.{
  ℕ, ◌+◌, ◌-◌, String, ◌≡◌, refl, sym, subst, Bool, true, inl, some, List, [], ◌∷◌, ◌==◌, ◌&&◌,
  if_keeps, arith,
}
use pinakes.Base.Dict.{Dict}
use pinakes.Types.{Agent, Message, Conversation}
use pinakes.Config.{Config}
use pinakes.Store.{is_zero}
use pinakes.Durable.{
  Tables, Delivery, is_open, is_attempting, is_pending, received_row, update_where, text_le,
}
use pinakes.Durable.Accept.{persist_ack, persist_conversation}
use pinakes.Durable.Push.{
  attempted, after_success, after_failure, expired_row, claimed_row, claim_one, expired_tables,
  recovered_row, restarted_row, cut, push_cycle_backoff, record_push_success, record_push_failure,
  expire_deliveries, claim_each, claim_due_pushes, recover_on_close, recover_on_start,
}
use pinakes.Durable.Prune.{
  prune_db, prune_age, prune_retention, delete_conversations, delete_messages, past_age,
  past_retention, swept,
}
use pinakes.Durable.Rows.{
  Carried, Carried-refl, Carried-trans, update_where-Carried, select-Carried,
}
use pinakes.Durable.Moves.{Moved, Carried-Moved}

-- An update of open rows that keeps the target, the number and the message.
updates :
    (p : Delivery → Bool) (f : Delivery → Delivery)
    → ((d : Delivery) → (f d).target_agent_id ≡ d.target_agent_id)
    → ((d : Delivery) → (f d).delivery_seq ≡ d.delivery_seq)
    → ((d : Delivery) → (f d).message_id ≡ d.message_id)
    → ((d : Delivery) → p d ≡ true → is_open d.status ≡ true)
    → (ds : List Delivery) → Carried ds (update_where p f ds)
updates p f target seq message found ds =
    update_where-Carried p f
      (λ d hit. record {
        target = target d;
        seq = seq d;
        message = message d;
        final = inl (found d hit);
      })
      ds

attempting_rows :
    (d : Delivery) (b : Bool) → (b && is_attempting d.status) ≡ true → is_open d.status ≡ true
attempting_rows d b h = ground arith

pub receipts-Carried :
    (now : ℕ) (p : Delivery → Bool) (ds : List Delivery)
    → ((d : Delivery) → p d ≡ true → is_open d.status ≡ true)
    → Carried ds (update_where p (received_row now) ds)
receipts-Carried now p ds found =
    updates p (received_row now) (λ d. refl) (λ d. refl) (λ d. refl) found ds

pub pushed-Moved :
    (now : ℕ) (id : String) (attempts : ℕ) (t : Tables)
    → Moved t (record_push_success now id attempts t)
unfolding record_push_success
pushed-Moved now id attempts t = Carried-Moved t (record_push_success now id attempts t) refl (
    updates (attempted id) (after_success now attempts) (λ d. refl) (λ d. refl) (λ d. refl)
      (λ d. attempting_rows d (d.message_id == id)) t.deliveries)

pub push_failed-Moved :
    (cfg : Config) (now : ℕ) (id : String) (attempts : ℕ) (reason : String) (t : Tables)
    → Moved t (record_push_failure cfg now id attempts reason t)
unfolding record_push_failure
push_failed-Moved cfg now id attempts reason t =
    Carried-Moved t (record_push_failure cfg now id attempts reason t) refl (
      updates (attempted id)
        (after_failure now (now + push_cycle_backoff cfg attempts) attempts (cut 200 reason))
        (λ d. refl) (λ d. refl) (λ d. refl) (λ d. attempting_rows d (d.message_id == id))
        t.deliveries)

pub expire-Carried : (now : ℕ) (ds : List Delivery) → Carried ds (expire_deliveries now ds)
unfolding expire_deliveries
expire-Carried now ds =
    updates (λ d. is_open d.status && text_le d.expires_at now) expired_row (λ d. refl) (λ d. refl)
      (λ d. refl) (λ d hit. ground arith) ds

pub closed-Moved : (now : ℕ) (t : Tables) → Moved t (recover_on_close now t)
unfolding recover_on_close
closed-Moved now t = Carried-Moved t (recover_on_close now t) refl (
    updates (λ d. is_attempting d.status) (recovered_row now) (λ d. refl) (λ d. refl) (λ d. refl)
      (λ d. attempting_rows d true) t.deliveries)

pub started-Moved : (t : Tables) → Moved t (recover_on_start t)
unfolding recover_on_start
started-Moved t = Carried-Moved t (recover_on_start t) refl (
    updates (λ d. is_attempting d.status) restarted_row (λ d. refl) (λ d. refl) (λ d. refl)
      (λ d. attempting_rows d true) t.deliveries)

acked-tables :
    (now : ℕ) (fault : Bool) (m : Message) (t u : Tables)
    → persist_ack now fault m t ≡ some u
    → (u.cursors ≡ t.cursors)
      × (u.deliveries
          ≡ update_where
              (λ d. d.message_id == m.message_id && is_open d.status)
              (received_row now)
              t.deliveries)
unfolding persist_ack
acked-tables now fault m t u h = ground arith

pub acked-Moved :
    (now : ℕ) (fault : Bool) (m : Message) (t u : Tables)
    → persist_ack now fault m t ≡ some u
    → Moved t u
acked-Moved now fault m t u h = Carried-Moved t u (acked-tables now fault m t u h).0 (
    subst (Carried t.deliveries) (sym (acked-tables now fault m t u h).1) (
      receipts-Carried now (λ d. d.message_id == m.message_id && is_open d.status) t.deliveries
        (λ d hit. ground arith)))

created-tables :
    (c : Conversation) (next_conv next_msg : ℕ) (fault : Bool) (t u : Tables)
    → persist_conversation c next_conv next_msg fault t ≡ some u
    → (u.cursors ≡ t.cursors) × (u.deliveries ≡ t.deliveries)
unfolding persist_conversation
created-tables c next_conv next_msg fault t u h = ground arith

pub created-Moved :
    (c : Conversation) (next_conv next_msg : ℕ) (fault : Bool) (t u : Tables)
    → persist_conversation c next_conv next_msg fault t ≡ some u
    → Moved t u
created-Moved c next_conv next_msg fault t u h =
    let same = created-tables c next_conv next_msg fault t u h in
    Carried-Moved t u same.0 (subst (Carried t.deliveries) (sym same.1) (Carried-refl t.deliveries))

claim_each-Carried :
    (now : ℕ) (ds : List Delivery) (t : Tables)
    → Carried t.deliveries (claim_each now ds t).deliveries
unfolding claim_each
claim_each-Carried now [] t = Carried-refl t.deliveries
claim_each-Carried now (d ∷ ds) t =
    Carried-trans t.deliveries (claim_one now d t).deliveries
      (claim_each now ds (claim_one now d t)).deliveries
      (updates (λ e. e.message_id == d.message_id && is_pending e.status) claimed_row (λ d. refl)
        (λ d. refl) (λ d. refl) (λ d hit. ground arith) t.deliveries)
      (claim_each-Carried now ds (claim_one now d t))

claim_each-cursors :
    (now : ℕ) (ds : List Delivery) (t : Tables) → (claim_each now ds t).cursors ≡ t.cursors
unfolding claim_each
claim_each-cursors now [] t = refl
claim_each-cursors now (d ∷ ds) t = claim_each-cursors now ds (claim_one now d t)

pub claimed-Moved :
    (now : ℕ) (agents : Dict Agent) (t : Tables) → Moved t (claim_due_pushes now agents t).1
unfolding claim_due_pushes
claimed-Moved now agents t =
    Carried-Moved t (claim_due_pushes now agents t).1
      (claim_each-cursors now (claim_due_pushes now agents t).0 (expired_tables now t))
      (Carried-trans t.deliveries (expire_deliveries now t.deliveries)
        (claim_due_pushes now agents t).1.deliveries (expire-Carried now t.deliveries)
        (claim_each-Carried now (claim_due_pushes now agents t).0 (expired_tables now t)))

delete_messages-Carried :
    (p : Message → Bool) (t : Tables) → Carried t.deliveries (delete_messages p t).deliveries
unfolding delete_messages
delete_messages-Carried p t = select-Carried _ t.deliveries

pruned-tables :
    (cfg : Config) (now : ℕ) (t : Tables)
    → ((prune_db cfg now t).cursors ≡ t.cursors)
      × ((prune_db cfg now t).deliveries
          ≡ (prune_retention cfg now (prune_age cfg now (swept now t))).deliveries)
unfolding prune_db prune_age prune_retention delete_conversations delete_messages
pruned-tables cfg now t = ground arith

prune_age-Carried :
    (cfg : Config) (now : ℕ) (t : Tables) → Carried t.deliveries (prune_age cfg now t).deliveries
unfolding prune_age
prune_age-Carried cfg now t =
    if_keeps (λ u. Carried t.deliveries u.deliveries) (is_zero cfg.message_max_age) t
      (delete_messages (past_age (now - cfg.message_max_age)) t) (Carried-refl t.deliveries)
      (delete_messages-Carried (past_age (now - cfg.message_max_age)) t)

prune_retention-Carried :
    (cfg : Config) (now : ℕ) (t : Tables)
    → Carried t.deliveries (prune_retention cfg now t).deliveries
unfolding prune_retention
prune_retention-Carried cfg now t =
    if_keeps (λ u. Carried t.deliveries u.deliveries) (is_zero cfg.message_retention) t
      (delete_messages (past_retention (now - cfg.message_retention)) t) (Carried-refl t.deliveries)
      (delete_messages-Carried (past_retention (now - cfg.message_retention)) t)

pub pruned-Moved : (cfg : Config) (now : ℕ) (t : Tables) → Moved t (prune_db cfg now t)
pruned-Moved cfg now t = Carried-Moved t (prune_db cfg now t) (pruned-tables cfg now t).0 (
    subst (Carried t.deliveries) (sym (pruned-tables cfg now t).1) (
      Carried-trans t.deliveries (prune_age cfg now (swept now t)).deliveries
        (prune_retention cfg now (prune_age cfg now (swept now t))).deliveries
        (Carried-trans t.deliveries (swept now t).deliveries
          (prune_age cfg now (swept now t)).deliveries (expire-Carried now t.deliveries)
          (prune_age-Carried cfg now (swept now t)))
        (prune_retention-Carried cfg now (prune_age cfg now (swept now t)))))

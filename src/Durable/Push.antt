-- ===== src/Durable/Push.antt =====
-- pkg/bus/sqlite_delivery.go: the receipts of push callbacks, the claim of due pushes, and the
-- recovery of pushes that were cut off.
pub mod Backoff
use pinakes.Base.{
  ℕ, zero, suc, ◌+◌, ◌*◌, ◌-◌, String, Bool, true, false, not, List, [], ◌∷◌, ◌++◌, ◌&&◌, ◌||◌,
  ◌==◌, nat_eq, ltb, leb, Option, none, some, take, select, if◌then◌else◌,
}
use pinakes.Base.Dict.{Dict, lookup, insert}
use pinakes.Types.{Message, Agent, push, pull, AgentMode, waiting}
use pinakes.Types
use pinakes.Store.{is_zero}
use pinakes.Store.Status.{is_request, is_active}
use pinakes.Config.{Config}
use pinakes.Durable.{
  Tables, Delivery, DeliveryStatus, pending, attempting, received, failed, update_where, is_open,
  is_attempting, is_pending, text_rank, text_le, text_lt,
}

-- The loop of pushCycleBackoff, with the rounds that are left; 30 seconds at most once it doubles.
-- A base of less than 2^62 nanoseconds does not wrap.
unfoldable pub double_backoff : ℕ → ℕ → ℕ
double_backoff zero backoff = backoff
double_backoff (suc rounds) backoff =
    let more = double_backoff rounds (backoff * 2) in
    if leb 30_000_000_000 (backoff * 2) then 30_000_000_000 else more

unfoldable pub push_cycle_backoff : Config → (attempts : ℕ) → ℕ
unfolding double_backoff
push_cycle_backoff cfg attempts =
    double_backoff (attempts - 1)
      (if is_zero cfg.push_base_backoff then 500_000_000 else cfg.push_base_backoff)

abbrev pub attempted : String → Delivery → Bool
attempted message_id d = d.message_id == message_id && is_attempting d.status

abbrev pub after_success : ℕ → ℕ → Delivery → Delivery
after_success now attempts d = record d {
  status = received;
  received_at = now;
  attempt_count = d.attempt_count + attempts;
  next_attempt_at = 0;
  last_error = "";
}

-- recordPushSuccess, its UPDATE
unfoldable pub record_push_success : ℕ → String → (attempts : ℕ) → Tables → Tables
record_push_success now message_id attempts t = record t {
  deliveries = update_where (attempted message_id) (after_success now attempts) t.deliveries;
}

-- The row after a push that failed: it waits for its next attempt, or its deadline has passed.
abbrev pub after_failure : ℕ → ℕ → ℕ → String → Delivery → Delivery
after_failure now next_attempt attempts reason d = record d {
  status = if text_le d.expires_at now then failed else pending;
  next_attempt_at = if text_le d.expires_at now then 0 else next_attempt;
  attempt_count = d.attempt_count + attempts;
  last_error = reason;
}

-- failure[:200], of a text of ASCII characters
unfoldable pub cut : ℕ → String → String
cut zero s = ""
cut (suc n) String.[] = ""
cut (suc n) (String.◌∷◌ c s) = String.◌∷◌ c (cut n s)

-- recordPushFailure, its UPDATE; the reason is cut to 200 bytes
unfoldable pub record_push_failure : Config → ℕ → String → (attempts : ℕ) → String → Tables → Tables
unfolding push_cycle_backoff cut
record_push_failure cfg now message_id attempts reason t = record t {
  deliveries =
      update_where (attempted message_id)
        (after_failure now (now + push_cycle_backoff cfg attempts) attempts (cut 200 reason))
        t.deliveries;
}

abbrev pub expired_row : Delivery → Delivery
expired_row d = record d {
  status = failed;
  next_attempt_at = 0;
  last_error = "transport deadline expired";
}

-- The deliveries whose transport deadline has passed.
unfoldable pub expire_deliveries : ℕ → List Delivery → List Delivery
expire_deliveries now ds =
    update_where (λ d. is_open d.status && text_le d.expires_at now) expired_row ds

abbrev pub is_push_mode : AgentMode → Bool
is_push_mode push = true
is_push_mode pull = false

-- a.mode = 'push' AND a.status = 'active' AND a.expires_at > now AND a.callback_url <> ''
abbrev pub takes_pushes : ℕ → Option Agent → Bool
takes_pushes now none = false
takes_pushes now (some a) =
    is_push_mode a.mode
    && (is_active a.status && (text_lt now a.expires_at && not (a.callback_url == "")))

abbrev pub is_found : {A : Type 0} → Option A → Bool
is_found none = false
is_found (some a) = true

-- The row of a delivery that is due, with its message and its agent in the tables.
abbrev pub is_due : ℕ → Dict Agent → Dict Message → Delivery → Bool
is_due now agents messages d =
    is_pending d.status
    && ((is_zero d.next_attempt_at || text_le d.next_attempt_at now)
        && (text_lt now d.expires_at
            && (is_found (lookup d.message_id messages)
                && takes_pushes now (lookup d.target_agent_id agents))))

-- ORDER BY next_attempt_at, delivery_seq
abbrev pub comes_first : Delivery → Delivery → Bool
comes_first d e =
    text_lt d.next_attempt_at e.next_attempt_at
    || (nat_eq (text_rank d.next_attempt_at) (text_rank e.next_attempt_at)
        && leb d.delivery_seq e.delivery_seq)

unfoldable pub order_in : (Delivery → Delivery → Bool) → Delivery → List Delivery → List Delivery
order_in first d [] = d ∷ []
order_in first d (e ∷ ds) =
    let later = e ∷ order_in first d ds in if first d e then d ∷ e ∷ ds else later

unfoldable pub order_by : (Delivery → Delivery → Bool) → List Delivery → List Delivery
unfolding order_in
order_by first [] = []
order_by first (d ∷ ds) = order_in first d (order_by first ds)

abbrev pub is_new : Types.MessageState → Bool
is_new Types.pending = true
is_new other = false

-- A message that is handed to its target: an offer of a poll, or a claimed push.
abbrev pub offered : ℕ → Message → Message
offered now m = record m {
  queued_for_agent = false;
  state = if is_request m.type && is_new m.state then waiting else m.state;
  delivered_at = if is_zero m.delivered_at then now else m.delivered_at;
}

abbrev pub offer_message : ℕ → String → Dict Message → Dict Message
offer_message now message_id messages = elim (lookup message_id messages) [
  | none ↦ messages
  | some m ↦ insert message_id (offered now m) messages
]

abbrev pub claimed_row : Delivery → Delivery
claimed_row d = record d { status = attempting }

abbrev pub claim_one : ℕ → Delivery → Tables → Tables
claim_one now d t = record t {
  deliveries =
      update_where (λ e. e.message_id == d.message_id && is_pending e.status) claimed_row
        t.deliveries;
  messages = offer_message now d.message_id t.messages;
}

-- The loop over the candidates: each is claimed, and its message offered.
unfoldable pub claim_each : ℕ → List Delivery → Tables → Tables
claim_each now [] t = t
claim_each now (d ∷ ds) t = claim_each now ds (claim_one now d t)

abbrev pub expired_tables : ℕ → Tables → Tables
expired_tables now t = record t { deliveries = expire_deliveries now t.deliveries }

-- claimDuePushes: the claimed rows and the tables
unfoldable pub claim_due_pushes : ℕ → Dict Agent → Tables → List Delivery × Tables
unfolding expire_deliveries order_by claim_each
claim_due_pushes now agents t =
    let candidates = take 32 (
      order_by comes_first
        (select (is_due now agents t.messages) (expired_tables now t).deliveries)) in
    (candidates, claim_each now candidates (expired_tables now t))

abbrev pub recovered_row : ℕ → Delivery → Delivery
recovered_row now d = record d {
  status = pending;
  next_attempt_at = if is_zero d.next_attempt_at then now else d.next_attempt_at;
  last_error = if d.last_error == "" then "shutdown recovery" else d.last_error;
}

abbrev pub restarted_row : Delivery → Delivery
restarted_row d = record d { status = pending }

-- The UPDATE of Close, and that of NewSQLiteStore, which leaves the other columns as they are.
unfoldable pub recover_on_close : ℕ → Tables → Tables
recover_on_close now t = record t {
  deliveries = update_where (λ d. is_attempting d.status) (recovered_row now) t.deliveries;
}

unfoldable pub recover_on_start : Tables → Tables
recover_on_start t = record t {
  deliveries = update_where (λ d. is_attempting d.status) restarted_row t.deliveries;
}

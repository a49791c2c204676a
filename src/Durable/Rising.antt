-- ===== src/Durable/Rising.antt =====
-- pkg/bus/sqlite_delivery.go: the order of the rows of a look.
use pinakes.Base.{
  ℕ, ◌+◌, ◌≤◌, String, ◌≡◌, ◌≢◌, subst, Bool, true, false, Bool-cases, Option-cases, inl, inr, none,
  some, List, [], ◌∷◌, All, select, arith, eq_iff,
}
use pinakes.Base.Dict.{Dict, lookup}
use pinakes.Types.{Message}
use pinakes.Durable.{Delivery}
use pinakes.Durable.Push.{order_in, order_by}
use pinakes.Durable.Read.{is_offered, by_seq, Sequenced, join_messages}
use pinakes.Durable.Rows.{IsKeyed}

-- Rows whose numbers rise, from a bound on.
abbrev pub Rising : ℕ → List Delivery → Type 0
Rising low [] = Unit
Rising low (d ∷ ds) = (low ≤ d.delivery_seq) × Rising (d.delivery_seq + 1) ds

abbrev pub RisingItems : ℕ → List Sequenced → Type 0
RisingItems low [] = Unit
RisingItems low (i ∷ is) = (low ≤ i.seq) × RisingItems (i.seq + 1) is

by_seq_le : (d e : Delivery) → by_seq d e ≡ true → d.delivery_seq ≤ e.delivery_seq
by_seq_le d e h = ground arith

by_seq_lt :
    (d e : Delivery)
    → e.delivery_seq ≢ d.delivery_seq
    → by_seq d e ≡ false
    → e.delivery_seq + 1 ≤ d.delivery_seq
by_seq_lt d e apart h = ground arith

Rising-order_in :
    (low : ℕ) (d : Delivery) (ds : List Delivery)
    → low ≤ d.delivery_seq
    → All (λ e. e.delivery_seq ≢ d.delivery_seq) ds
    → Rising low ds
    → Rising low (order_in by_seq d ds)
unfolding order_in
Rising-order_in low d [] h apart rising = (h, tt)
Rising-order_in low d (e ∷ ds) h apart rising = elim (Bool-cases (by_seq d e)) [
  | inl first ↦ rw first (h, (omega (arith, apart.0, by_seq_le d e first), rising.1))
  | inr later ↦ rw later (
    rising.0,
    Rising-order_in (e.delivery_seq + 1) d ds (by_seq_lt d e apart.0 later) apart.1 rising.1,
  )
]

All-order_in :
    (P : Delivery → Type 0) (d : Delivery) (ds : List Delivery)
    → P d
    → All P ds
    → All P (order_in by_seq d ds)
unfolding order_in
All-order_in P d [] p all = (p, tt)
All-order_in P d (e ∷ ds) p all = elim (Bool-cases (by_seq d e)) [
  | inl first ↦ rw first (p, all)
  | inr later ↦ rw later (all.0, All-order_in P d ds p all.1)
]

All-order_by : (P : Delivery → Type 0) (ds : List Delivery) → All P ds → All P (order_by by_seq ds)
unfolding order_by
All-order_by P [] all = tt
All-order_by P (d ∷ ds) all = All-order_in P d (order_by by_seq ds) all.0 (All-order_by P ds all.1)

All-select :
    (P Q : Delivery → Type 0) (p : Delivery → Bool)
    → ((d : Delivery) → p d ≡ true → P d → Q d)
    → (ds : List Delivery) → All P ds
    → All Q (select p ds)
All-select P Q p to [] all = tt
All-select P Q p to (d ∷ ds) all = elim (Bool-cases (p d)) [
  | inl stays ↦ rw stays (to d stays all.0, All-select P Q p to ds all.1)
  | inr goes ↦ rw goes (All-select P Q p to ds all.1)
]

is_offered_target :
    (now : ℕ) (agent_id : String) (cursor : ℕ) (d : Delivery)
    → is_offered now agent_id cursor d ≡ true
    → d.target_agent_id ≡ agent_id
is_offered_target now agent_id cursor d h = ground (arith, eq_iff d.target_agent_id agent_id)

is_offered_from :
    (now : ℕ) (agent_id : String) (cursor : ℕ) (d : Delivery)
    → is_offered now agent_id cursor d ≡ true
    → cursor ≤ d.delivery_seq
is_offered_from now agent_id cursor d h = ground arith

-- The rows of the query, in order.
pub Rising-offered :
    (now : ℕ) (agent_id : String) (cursor : ℕ) (ds : List Delivery)
    → IsKeyed agent_id ds
    → Rising cursor (order_by by_seq (select (is_offered now agent_id cursor) ds))
unfolding order_by
Rising-offered now agent_id cursor [] keyed = tt
Rising-offered now agent_id cursor (d ∷ ds) keyed =
    elim (Bool-cases (is_offered now agent_id cursor d)) [
      | inl stays ↦ rw stays (
          Rising-order_in cursor d (order_by by_seq (select (is_offered now agent_id cursor) ds))
            (is_offered_from now agent_id cursor d stays)
            (All-order_by (λ e. e.delivery_seq ≢ d.delivery_seq)
              (select (is_offered now agent_id cursor) ds)
              (All-select (λ e. e.target_agent_id ≡ agent_id → e.delivery_seq ≢ d.delivery_seq)
                (λ e. e.delivery_seq ≢ d.delivery_seq) (is_offered now agent_id cursor)
                (λ e hit apart. apart (is_offered_target now agent_id cursor e hit)) ds
                (keyed.0 (is_offered_target now agent_id cursor d stays))))
            (Rising-offered now agent_id cursor ds keyed.1))
      | inr goes ↦ rw goes (Rising-offered now agent_id cursor ds keyed.1)
    ]

RisingItems-le :
    (low high : ℕ) (items : List Sequenced)
    → low ≤ high
    → RisingItems high items
    → RisingItems low items
RisingItems-le low high [] h rising = tt
RisingItems-le low high (i ∷ items) h rising = (omega (arith, h, rising.0), rising.1)

join_missing :
    (messages : Dict Message) (d : Delivery) (ds : List Delivery)
    → lookup d.message_id messages ≡ none
    → join_messages messages ds ≡ join_messages messages (d ∷ ds)
unfolding join_messages
join_missing messages d ds e = ground arith

join_found :
    (messages : Dict Message) (d : Delivery) (ds : List Delivery) (m : Message)
    → lookup d.message_id messages ≡ some m
    → record { seq = d.delivery_seq; message = m } ∷ join_messages messages ds
      ≡ join_messages messages (d ∷ ds)
unfolding join_messages
join_found messages d ds m e = ground arith

pub RisingItems-join_messages :
    (messages : Dict Message) (low : ℕ) (ds : List Delivery)
    → Rising low ds
    → RisingItems low (join_messages messages ds)
unfolding join_messages
RisingItems-join_messages messages low [] rising = tt
RisingItems-join_messages messages low (d ∷ ds) rising =
    elim (Option-cases (lookup d.message_id messages)) [
      | inl missing ↦ subst (RisingItems low) (join_missing messages d ds missing) (
          RisingItems-le low (d.delivery_seq + 1) (join_messages messages ds)
            (omega (arith, rising.0))
            (RisingItems-join_messages messages (d.delivery_seq + 1) ds rising.1))
      | inr (m, found) ↦
          subst (RisingItems low) (join_found messages d ds m found)
            (rising.0, RisingItems-join_messages messages (d.delivery_seq + 1) ds rising.1)
    ]

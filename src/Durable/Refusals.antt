-- ===== src/Durable/Refusals.antt =====
-- pkg/bus/sqlite_delivery.go: which sends persistAcceptance refuses.
use pinakes.Base.{
  ℕ, ◌<◌, String, ◌≡◌, ◌↔◌, refl, Bool, true, false, not, ◌&&◌, ◌||◌, ◌==◌, none, some, List, [],
  ◌∷◌, All, arith, eq_iff,
}
use pinakes.Store.Acceptance.{SendAcceptance}
use pinakes.Durable.{Tables, Delivery, Receipt, delivery_clash}
use pinakes.Durable.Accept.{
  new_delivery, save_message, add_delivery, add_receipt, persist_acceptance,
}
use pinakes.Durable.Rows.{map_All}
use pinakes.Durable.Moves.{cursor_of, number_of, lower, Sound}

-- Some delivery carries the message.
abbrev pub has_delivery : String → List Delivery → Bool
has_delivery id [] = false
has_delivery id (d ∷ ds) = d.message_id == id || has_delivery id ds

-- Some receipt is for the request id of the two agents.
abbrev pub has_receipt : (from to request_id : String) → List Receipt → Bool
has_receipt from to request_id [] = false
has_receipt from to request_id (r ∷ rs) =
    (r.from_agent == from && (r.to_agent == to && r.request_id == request_id))
    || has_receipt from to request_id rs

-- The send has a request id that a receipt has already.
abbrev pub repeats : SendAcceptance → List Receipt → Bool
repeats a rs = elim a.idempotency [
  | none ↦ false
  | some entry ↦ has_receipt a.message.from a.message.to a.message.request_id rs
]

clash-has_delivery :
    (new : Delivery) (ds : List Delivery)
    → All (λ d. d.target_agent_id ≡ new.target_agent_id → d.delivery_seq < new.delivery_seq) ds
    → delivery_clash new ds ≡ has_delivery new.message_id ds
clash-has_delivery new [] below = refl
clash-has_delivery new (d ∷ ds) below = ground (
  arith,
  eq_iff d.target_agent_id new.target_agent_id,
  below.0,
  clash-has_delivery new ds below.1,
)

new_number :
    (a : SendAcceptance) (t : Tables)
    → Sound t
    → delivery_clash (new_delivery a (number_of a.message.to t.cursors)) t.deliveries
      ≡ has_delivery a.message.message_id t.deliveries
unfolding cursor_of
new_number a t sound =
    clash-has_delivery (new_delivery a (number_of a.message.to t.cursors)) t.deliveries (
      map_All (lower (new_delivery a (number_of a.message.to t.cursors)) t refl) t.deliveries
        sound.below)

-- In tables in which the numbers of the deliveries of a target stand once and are below its next
-- number, and no target has acknowledged more than its next number, persistAcceptance refuses a
-- send exactly if the driver fails, or the message has a target and a delivery already, or a
-- receipt stands for the request id that the send has, however old that receipt is.
pub persist_acceptance_iff :
    (window : ℕ) (fault : Bool) (a : SendAcceptance) (t : Tables)
    → Sound t
    → (persist_acceptance window fault a t ≡ none) ↔ (
        (fault
          || ((not (a.message.to == "") && has_delivery a.message.message_id t.deliveries)
              || repeats a t.receipts))
        ≡ true)
unfolding persist_acceptance save_message add_delivery add_receipt
persist_acceptance_iff window fault a t sound = ground (arith, new_number a t sound)

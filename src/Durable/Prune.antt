-- ===== src/Durable/Prune.antt =====
-- pkg/bus/sqlite.go: pruneDB.
use pinakes.Base.{
  ℕ, ◌-◌, String, Bool, false, not, List, [], ◌∷◌, ◌&&◌, ◌||◌, ◌==◌, select, if◌then◌else◌,
}
use pinakes.Base.Dict.{Dict, lookup, keep_if}
use pinakes.Types.{Message, Conversation}
use pinakes.Config.{Config}
use pinakes.Store.{is_zero}
use pinakes.Store.Status.{is_terminal}
use pinakes.Durable.{Tables, Delivery, is_open, text_lt}
use pinakes.Durable.Push.{expire_deliveries, is_found}

-- message_id IN (SELECT message_id FROM deliveries WHERE status IN ('pending', 'attempting'))
abbrev pub awaits_delivery : String → List Delivery → Bool
awaits_delivery id [] = false
awaits_delivery id (d ∷ ds) = (is_open d.status && d.message_id == id) || awaits_delivery id ds

-- DELETE FROM messages, and with each message its delivery.
unfoldable pub delete_messages : (Message → Bool) → Tables → Tables
delete_messages p t =
    let kept = keep_if (λ m. awaits_delivery m.message_id t.deliveries || not (p m)) t.messages in
    record t {
      messages = kept;
      deliveries = select (λ d. is_found (lookup d.message_id kept)) t.deliveries;
    }

-- Past the age cap.
abbrev pub past_age : ℕ → Message → Bool
past_age cutoff m = not (is_zero m.created_at) && text_lt m.created_at cutoff

-- Ended, and past the retention since its end.
abbrev pub past_retention : ℕ → Message → Bool
past_retention cutoff m =
    is_terminal m.state
    && text_lt (if is_zero m.terminal_at then m.created_at else m.terminal_at) cutoff

abbrev pub has_message : String → Dict Message → Bool
has_message id [] = false
has_message id ((k, m) ∷ ms) = m.conversation_id == id || has_message id ms

abbrev past_conversation : ℕ → Dict Message → Conversation → Bool
past_conversation cutoff messages c =
    not (is_zero c.last_message_at)
    && (text_lt c.last_message_at cutoff && not (has_message c.conversation_id messages))

-- The retention rules, each where its bound is positive.
unfoldable pub prune_age : Config → ℕ → Tables → Tables
unfolding delete_messages
prune_age cfg now t =
    if is_zero cfg.message_max_age
    then t
    else delete_messages (past_age (now - cfg.message_max_age)) t

unfoldable pub prune_retention : Config → ℕ → Tables → Tables
unfolding delete_messages
prune_retention cfg now t =
    if is_zero cfg.message_retention
    then t
    else delete_messages (past_retention (now - cfg.message_retention)) t

unfoldable pub delete_conversations : Config → ℕ → Tables → Tables
delete_conversations cfg now t =
    let kept = record t {
      conversations =
          keep_if (λ c. not (past_conversation (now - cfg.conversation_retention) t.messages c))
            t.conversations;
    } in
    if is_zero cfg.conversation_retention then t else kept

abbrev prune_links : Tables → Tables
prune_links t = record t { links = select (λ l. is_found (lookup l.message_id t.messages)) t.links }

-- The deliveries and the receipts whose time has passed.
abbrev pub swept : ℕ → Tables → Tables
swept now t = record t {
  deliveries = expire_deliveries now t.deliveries;
  receipts = select (λ r. not (text_lt r.expires_at now)) t.receipts;
}

-- pruneDB up to the vacuum, which gives back pages.
unfoldable pub prune_db : Config → ℕ → Tables → Tables
unfolding prune_age prune_retention delete_conversations expire_deliveries
prune_db cfg now t =
    prune_links
      (delete_conversations cfg now (prune_retention cfg now (prune_age cfg now (swept now t))))

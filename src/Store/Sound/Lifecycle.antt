-- ===== src/Store/Sound/Lifecycle.antt =====
-- Ack, PostEvent, PollInbox and the queries keep the invariant.
use pinakes.Base.{ℕ, ◌≡◌, sym, ◌∙◌, if_keeps, String, some, arith}
use pinakes.Base.Dict.{lookup}
use pinakes.Base.Dict.Laws.{Entries-insert, Entries-lookup}
use pinakes.Text.{trim_space}
use pinakes.Types.{Message, AckInput, EventInput}
use pinakes.Errors.{ok}
use pinakes.Store.{Store}
use pinakes.Store.Acceptance.{Barrier}
use pinakes.Store.Lifecycle.{
  EventKind, progress, put_message, ack_target, acked, finish_ack, ack_to, ack_locked, ack,
  event_target, advanced, publish_event, post_to, post_locked, post_event,
}
use pinakes.Store.Sound.{IsNumbered}
use pinakes.Store.Sound.Operations.{Sound, sweep-Sound, publish-Sound}

-- A message that is put back under its id keeps its own id.
put_message-Sound :
    (id : String) (m next : Message) (s : Store)
    → Sound s
    → lookup id s.messages ≡ some m
    → next.message_id ≡ m.message_id
    → Sound (put_message id next s)
unfolding put_message
put_message-Sound id m next s h found same =
    let r = Entries-lookup (IsNumbered s.next_message_id) id m s.messages h.holds.2 found in
    record {
      holds = (
        h.holds.0,
        h.holds.1,
        Entries-insert (IsNumbered s.next_message_id) id next s.messages
            (record {
              own_key = r.own_key ∙ sym same;
              number = r.number;
              printed = same ∙ r.printed;
              given = r.given;
            })
            h.holds.2,
      );
    }

acked-message_id :
    (now : ℕ) (status : String) (m : Message) → (acked now status m).message_id ≡ m.message_id
unfolding acked
acked-message_id now status m = ground arith

ack_target-lookup :
    (input : AckInput) (s : Store) (m : Message)
    → ack_target input s ≡ ok m
    → lookup (trim_space input.message_id) s.messages ≡ some m
unfolding ack_target
ack_target-lookup input s m h = ground arith

finish_ack-Sound :
    (now : ℕ) (input : AckInput) (m next : Message) (s : Store)
    → Sound s
    → lookup (trim_space input.message_id) s.messages ≡ some m
    → next.message_id ≡ m.message_id
    → Sound (finish_ack now input m next s)
unfolding finish_ack
finish_ack-Sound now input m next s h found same =
    publish-Sound _ _ _ now _
      (publish-Sound _ _ _ now _ (put_message-Sound _ m next s h found same))

ack_to-Sound :
    (now : ℕ) (input : AckInput) (commit : Barrier Message) (m : Message) (s : Store)
    → Sound s
    → lookup (trim_space input.message_id) s.messages ≡ some m
    → Sound (ack_to now input commit m s).1
unfolding ack_to
ack_to-Sound now input commit m s h found =
    grind (arith, finish_ack-Sound, acked-message_id now (trim_space input.status) m)

ack_locked-Sound :
    (now : ℕ) (input : AckInput) (commit : Barrier Message) (s : Store)
    → Sound s
    → Sound (ack_locked now input commit s).1
unfolding ack_locked
ack_locked-Sound now input commit s h = grind (arith, ack_to-Sound, ack_target-lookup input s)

pub ack-Sound :
    (now : ℕ) (input : AckInput) (commit : Barrier Message) (s : Store)
    → Sound s
    → Sound (ack now input commit s).1
unfolding ack
ack-Sound now input commit s h = grind (arith, ack_locked-Sound, sweep-Sound)

advanced-message_id :
    (now gap : ℕ) (kind : EventKind) (m next : Message)
    → advanced now gap kind m ≡ ok next
    → next.message_id ≡ m.message_id
unfolding advanced
advanced-message_id now gap progress m next h = ground arith
advanced-message_id now gap _ m next h = ground arith

event_target-lookup :
    (input : EventInput) (s : Store) (m : Message)
    → event_target input s ≡ ok m
    → lookup (trim_space input.message_id) s.messages ≡ some m
unfolding event_target
event_target-lookup input s m h = ground arith

publish_event-Sound :
    (now : ℕ) (input : EventInput) (kind : EventKind) (m next : Message) (s : Store)
    → Sound s
    → Sound (publish_event now input kind m next s)
unfolding publish_event
publish_event-Sound now input progress m next s h =
    publish-Sound _ _ _ now _ (if_keeps Sound _ _ s (publish-Sound _ _ _ now s h) h)
publish_event-Sound now input _ m next s h = publish-Sound _ _ _ now s h

store_event-Sound :
    (now : ℕ) (input : EventInput) (kind : EventKind) (m next : Message) (s : Store)
    → Sound s
    → lookup (trim_space input.message_id) s.messages ≡ some m
    → next.message_id ≡ m.message_id
    → Sound (publish_event now input kind m next (put_message (trim_space input.message_id) next s))
store_event-Sound now input kind m next s h found same =
    publish_event-Sound now input kind m next _
      (put_message-Sound (trim_space input.message_id) m next s h found same)

post_to-Sound :
    (now : ℕ) (input : EventInput) (kind : EventKind) (commit : Barrier Message) (m : Message)
    (s : Store)
    → Sound s
    → lookup (trim_space input.message_id) s.messages ≡ some m
    → Sound (post_to now input kind commit m s).1
unfolding post_to
post_to-Sound now input kind commit m s h found =
    grind (arith, store_event-Sound, advanced-message_id now s.cfg.progress_min_interval kind m)

post_locked-Sound :
    (now : ℕ) (input : EventInput) (kind : EventKind) (commit : Barrier Message) (s : Store)
    → Sound s
    → Sound (post_locked now input kind commit s).1
unfolding post_locked
post_locked-Sound now input kind commit s h =
    grind (arith, post_to-Sound, event_target-lookup input s)

pub post_event-Sound :
    (now : ℕ) (input : EventInput) (commit : Barrier Message) (s : Store)
    → Sound s
    → Sound (post_event now input commit s).1
unfolding post_event
post_event-Sound now input commit s h = grind (arith, post_locked-Sound, sweep-Sound)

-- ===== src/Store/Lifecycle/Moves.antt =====
-- Ack and PostEvent: where they move the messages of the store, and two progress events in a row.
use pinakes.Base.{
  ℕ, ◌≡◌, ◌⊎◌, inl, inr, refl, sym, subst, ap, ◌∙◌, some, String, eq_iff, if◌then◌else◌, if_keeps,
  Bool-cases, ◌==◌,
}
use pinakes.Base.Dict.{lookup}
use pinakes.Base.Dict.Laws.{lookup-insert}
use pinakes.Text.{trim_space}
use pinakes.Types.{Message, AckInput, EventInput}
use pinakes.Errors.{Result-cases}
use pinakes.Store.{Store}
use pinakes.Store.Status.{is_terminal}
use pinakes.Store.Observe.Laws.{messages-publish}
use pinakes.Store.Acceptance.{Barrier}
use pinakes.Store.Lifecycle.{
  put_message, ack_target, acked, finish_ack, ack_to, ack_locked, EventKind, progress, event_target,
  advanced, publish_event, starts_execution, post_to, post_locked,
}
use pinakes.Store.Lifecycle.Laws.{
  Allowed, acked-Allowed, advanced-Allowed, ack_target_lem, event_target_lem,
}

-- The message of a store under the id: the one that it was, or one whose state is moved as allowed.
pub record Follows (id : String) (m : Message) (t : Store) : Type 0 where
  pub after : Message
  pub found : lookup id t.messages ≡ some after
  pub moved : (after ≡ m) ⊎ Allowed m.state after.state

-- A message that is put in the place of one from which it may follow.
put-Follows :
    (key id : String) (m old new : Message) (s t : Store)
    → lookup id s.messages ≡ some m
    → lookup key s.messages ≡ some old
    → Allowed old.state new.state
    → t.messages ≡ (put_message key new s).messages
    → Follows id m t
unfolding put_message
put-Follows key id m old new s t found here move same =
    let seen : lookup id t.messages ≡ (if key == id then some new else lookup id s.messages) =
      ap (lookup id) same ∙ lookup-insert key id new s.messages in
    elim (Bool-cases (key == id)) [
      | inl hit ↦ record {
        after = new;
        found = rw hit at seen;
        moved = inr (
            subst (λ (x : Message). Allowed x.state new.state)
              (same_entry
                (sym here ∙ ap (λ k. lookup k s.messages) ((eq_iff key id).0 hit) ∙ found))
              move);
      }
      | inr miss ↦ record { after = m; found = rw miss at seen ∙ found; moved = inl refl }
    ]
  where
    same_entry : some old ≡ some m → old ≡ m
    same_entry e = cc

messages-finish_ack :
    (now : ℕ) (input : AckInput) (m next : Message) (s : Store)
    → (finish_ack now input m next s).messages
      ≡ (put_message (trim_space input.message_id) next s).messages
unfolding finish_ack
messages-finish_ack now input m next s = simp messages-publish

messages-publish_event :
    (now : ℕ) (input : EventInput) (kind : EventKind) (m next : Message) (s : Store)
    → (publish_event now input kind m next s).messages ≡ s.messages
unfolding publish_event
messages-publish_event now input progress m next s =
    messages-publish _ _ _ now _
    ∙ if_keeps (λ (t : Store). t.messages ≡ s.messages) (starts_execution m.state) _ _
        (messages-publish _ _ _ now s) refl
messages-publish_event now input _ m next s = messages-publish _ _ _ now s

ack_to-Follows :
    (now : ℕ) (input : AckInput) (commit : Barrier Message) (s : Store) (id : String)
    (m old : Message)
    → lookup id s.messages ≡ some m
    → lookup (trim_space input.message_id) s.messages ≡ some old
    → Follows id m (ack_to now input commit old s).1
unfolding ack_to
ack_to-Follows now input commit s id m old found here =
    let kept : Follows id m s = record { after = m; found = found; moved = inl refl } in
    let next = acked now (trim_space input.status) old in
    elim (Bool-cases (is_terminal old.state)) [
      | inl ended ↦ rw ended kept
      | inr going ↦
          let moved : Follows id m (finish_ack now input old next s) =
            put-Follows (trim_space input.message_id) id m old next s
              (finish_ack now input old next s) found here
              (acked-Allowed now (trim_space input.status) old going)
              (messages-finish_ack now input old next s) in
          elim (Result-cases (commit next)) [
            | inl (_, fine) ↦ rw (going, fine) moved
            | inr (e, stuck) ↦ rw (going, stuck) kept
          ]
    ]

post_to-Follows :
    (now : ℕ) (input : EventInput) (kind : EventKind) (commit : Barrier Message) (s : Store)
    (id : String) (m old : Message)
    → lookup id s.messages ≡ some m
    → lookup (trim_space input.message_id) s.messages ≡ some old
    → Follows id m (post_to now input kind commit old s).1
unfolding post_to
post_to-Follows now input kind commit s id m old found here =
    let kept : Follows id m s = record { after = m; found = found; moved = inl refl } in
    elim (Bool-cases (is_terminal old.state)) [
      | inl ended ↦ rw ended kept
      | inr going ↦ elim (Result-cases (advanced now s.cfg.progress_min_interval kind old)) [
        | inr (e, soon) ↦ rw (going, soon) kept
        | inl (next, fine) ↦
            let key = trim_space input.message_id in
            let moved : Follows id m
                (publish_event now input kind old next (put_message key next s)) =
              put-Follows key id m old next s
                (publish_event now input kind old next (put_message key next s)) found here
                (advanced-Allowed now s.cfg.progress_min_interval kind old next going fine)
                (messages-publish_event now input kind old next (put_message key next s)) in
            elim (Result-cases (commit next)) [
              | inl (_, saved) ↦ rw (going, fine, saved) moved
              | inr (e, stuck) ↦ rw (going, fine, stuck) kept
            ]
      ]
    ]

-- After any ack and after any event under the lock, be it taken or refused, each message of the
-- store still stands under its id and is as it was, or its state has moved as allowed: from
-- pending to pending, executing or an end; from waiting or executing to executing or an end; from
-- an end nowhere.
pub reports-Follows :
    (now : ℕ) (report : AckInput) (event : EventInput) (kind : EventKind) (commit : Barrier Message)
    (s : Store) (id : String) (m : Message)
    → lookup id s.messages ≡ some m
    → Follows id m (ack_locked now report commit s).1
      × Follows id m (post_locked now event kind commit s).1
unfolding ack_locked post_locked
reports-Follows now report event kind commit s id m found =
    let kept : Follows id m s = record { after = m; found = found; moved = inl refl } in
    (
      elim (Result-cases (ack_target report s)) [
        | inl (old, fine) ↦ rw fine (
            ack_to-Follows now report commit s id m old found
              (ack_target_lem report s old fine).found)
        | inr (e, stuck) ↦ rw stuck kept
      ],
      elim (Result-cases (event_target event s)) [
        | inl (old, fine) ↦ rw fine (
            post_to-Follows now event kind commit s id m old found
              (event_target_lem event s old fine).found)
        | inr (e, stuck) ↦ rw stuck kept
      ],
    )

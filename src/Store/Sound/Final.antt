-- ===== src/Store/Sound/Final.antt =====
-- The messages that no operation of the store changes: those that are completed, rejected or failed,
-- and those that are no requests.
use pinakes.Base.{
  ℕ, ◌+◌, ◌≤◌, ◌≡◌, ◌≢◌, ◌⊎◌, inl, inr, refl, sym, ap, subst, ◌∙◌, false≢true, Bool, true, false,
  Bool-cases, some, String, List, [], ◌∷◌, arith, ◌==◌, eq_iff,
}
use pinakes.Base.Dict.{Dict, lookup, insert, keep_if, sweep_values}
use pinakes.Base.Dict.Laws.{
  Entries, Entries-lookup, Entries-insert, Entries-keep_if, Entries-sweep_values,
}
use pinakes.Types.{Agent, Message}
use pinakes.Config.{Config}
use pinakes.Store.{Store, Env, new_store}
use pinakes.Store.Status.{is_terminal, is_request}
use pinakes.Store.Acceptance.{message_id}
use pinakes.Store.Sweep.{sweep_message, verdict, settle}
use pinakes.Store.Sound.{IsNumbered}
use pinakes.Store.Sound.Parts.{message_id-inj}
use pinakes.Store.Sound.History.{Rule, Keeps, keeping, kept, Move, by_ack, by_event}
use pinakes.Store.Sound.Runs.{Reach-Keeps}
use pinakes.Store.Sound.Reach.{Reach, reachable-Sound}

-- No key stands twice.
abbrev IsDistinct : Dict Message → Type 0
IsDistinct [] = Unit
IsDistinct ((k, m) ∷ rest) = Entries (λ j x. k ≢ j) rest × IsDistinct rest

insert-IsDistinct :
    (k : String) (v : Message) (m : Dict Message) → IsDistinct m → IsDistinct (insert k v m)
unfolding insert
insert-IsDistinct k v [] h = (tt, tt)
insert-IsDistinct k v ((j, w) ∷ m) h = elim (Bool-cases (j == k)) [
  | inl same ↦ rw same (subst (λ i. Entries (λ l x. i ≢ l) m) ((eq_iff j k).0 same) h.0, h.1)
  | inr other ↦ rw other (
    Entries-insert (λ l x. j ≢ l) k v m (λ same. false≢true (sym other ∙ (eq_iff j k).1 same)) h.0,
    insert-IsDistinct k v m h.1,
  )
]

keep_if-IsDistinct :
    (p : Message → Bool) (m : Dict Message) → IsDistinct m → IsDistinct (keep_if p m)
unfolding keep_if
keep_if-IsDistinct p [] h = h
keep_if-IsDistinct p ((j, w) ∷ m) h = elim (Bool-cases (p w)) [
  | inl stays ↦ rw stays (Entries-keep_if (λ l x. j ≢ l) p m h.0, keep_if-IsDistinct p m h.1)
  | inr goes ↦ rw goes (keep_if-IsDistinct p m h.1)
]

sweep_values-IsDistinct :
    (f : String → Message → Store → Message × Store) (m : Dict Message) (s : Store)
    → IsDistinct m
    → IsDistinct (sweep_values f m s).0
unfolding sweep_values
sweep_values-IsDistinct f [] s h = h
sweep_values-IsDistinct f ((j, w) ∷ m) s h = (
  Entries-sweep_values f (λ l x. j ≢ l) (λ k v t ne. ne) m (f j w s).1 h.0,
  sweep_values-IsDistinct f m (f j w s).1 h.1,
)

IsDistinct-Rule : Rule (λ n m. IsDistinct m)
IsDistinct-Rule = record {
  settles = λ now t n agents m s h. sweep_values-IsDistinct (sweep_message now t agents) m s h;
  prunes = λ p n m h. keep_if-IsDistinct p m h;
  accepts = λ new n m e h. insert-IsDistinct new.message_id new m h;
  moves = λ id old new n m found move h. insert-IsDistinct id new m h;
}

other_keys :
    (k : String) (v : Message) (m : Dict Message)
    → Entries (λ l x. k ≢ l) m
    → Entries (λ l x. l ≡ k → x ≡ v) m
other_keys k v [] h = tt
other_keys k v ((j, w) ∷ m) h = (λ same. absurd (h.0 (sym same)), other_keys k v m h.1)

-- Under distinct keys, what the lookup finds is every entry of the key.
Entries-of :
    (k : String) (v : Message) (m : Dict Message)
    → IsDistinct m
    → lookup k m ≡ some v
    → Entries (λ l x. l ≡ k → x ≡ v) m
unfolding lookup
Entries-of k v [] h e = tt
Entries-of k v ((j, w) ∷ m) h e = elim (Bool-cases (j == k)) [
  | inl same ↦
      let hit : some w ≡ some v = rw same at e in
      (
        λ _. cc hit,
        other_keys k v m (subst (λ i. Entries (λ l x. i ≢ l) m) ((eq_iff j k).0 same) h.0),
      )
  | inr other ↦ (
    λ same. absurd (false≢true (sym other ∙ (eq_iff j k).1 same)),
    Entries-of k v m h.1 (rw other at e),
  )
]

-- What no operation changes: a message that has ended, and one that is no request.
abbrev IsFixed : Message → Type 0
IsFixed m = (is_terminal m.state ≡ true) ⊎ (is_request m.type ≡ false)

-- The sweep leaves it as it is.
settle_end :
    (now t : ℕ) (agents : Dict Agent) (m : Message)
    → IsFixed m
    → settle now m (verdict now t agents m) ≡ m
unfolding verdict
settle_end now t agents m (inl h) = ground (arith, h)
settle_end now t agents m (inr h) = ground (arith, h)

not_moved : (old new : Message) → Move old new → ¬ (IsFixed old)
not_moved old _ (by_ack now status asks going) (inl h) = false≢true (sym going ∙ h)
not_moved old _ (by_ack now status asks going) (inr h) = false≢true (sym h ∙ asks)
not_moved old _ (by_event now gap kind new asks going moved) (inl h) = false≢true (sym going ∙ h)
not_moved old _ (by_event now gap kind new asks going moved) (inr h) = false≢true (sym h ∙ asks)

module _ (id : String) (m : Message) (fixed : IsFixed m) where
  -- The counter gave the id out.
  record IsGiven (n : ℕ) : Type 0 where
    number : ℕ
    printed : id ≡ message_id number
    given : number ≤ n

  -- Whatever stands under the id is m, and the counter has given the id out.
  abbrev IsFinal : ℕ → Dict Message → Type 0
  IsFinal n messages = Entries (λ k x. k ≡ id → x ≡ m) messages × IsGiven n

  IsFinal-Rule : Rule IsFinal
  unfolding sweep_message
  IsFinal-Rule = record {
    settles = λ now t n agents messages s h. (
      Entries-sweep_values (sweep_message now t agents) (λ k x. k ≡ id → x ≡ m)
          (λ k v s same e.
            ap (λ x. settle now x (verdict now t agents x)) (same e)
            ∙ settle_end now t agents m fixed)
          messages s h.0,
      h.1,
    );
    prunes = λ p n messages h. (Entries-keep_if (λ k x. k ≡ id → x ≡ m) p messages h.0, h.1);
    accepts = λ new n messages next h.
        let r = h.1 in
        (
          Entries-insert (λ k x. k ≡ id → x ≡ m) new.message_id new messages
              (λ e. absurd (
                omega (arith, r.given, message_id-inj (n + 1) r.number (sym next ∙ e ∙ r.printed))))
              h.0,
          record { number = r.number; printed = r.printed; given = omega (arith, r.given) },
        );
    moves = λ key old new n messages found move h. (
      Entries-insert (λ k x. k ≡ id → x ≡ m) key new messages
          (λ e. absurd (
            not_moved old new move (
              subst IsFixed
                (sym (Entries-lookup (λ k x. k ≡ id → x ≡ m) key old messages h.0 found e)) fixed)))
          h.0,
      h.1,
    );
  }

new_store-IsDistinct :
    (cfg : Config) (env : Env) (allowlist : List String) (epoch : String)
    → Keeps (λ n m. IsDistinct m) (new_store cfg env allowlist epoch)
unfolding new_store
new_store-IsDistinct cfg env allowlist epoch = keeping tt

stays_fixed :
    (cfg : Config) (env : Env) (allowlist : List String) (epoch : String) (s t : Store)
    (id : String) (m x : Message)
    → Reach (new_store cfg env allowlist epoch) s
    → lookup id s.messages ≡ some m
    → IsFixed m
    → Reach s t
    → lookup id t.messages ≡ some x
    → x ≡ m
stays_fixed cfg env allowlist epoch s t id m x before found fixed after seen =
    let distinct =
      kept (Reach-Keeps IsDistinct-Rule before (new_store-IsDistinct cfg env allowlist epoch)) in
    let n =
      Entries-lookup (IsNumbered s.next_message_id) id m s.messages
        (reachable-Sound cfg env allowlist epoch s before).holds.2 found in
    let start : Keeps (IsFinal id m fixed) s = keeping (
      Entries-of id m s.messages distinct found,
      record { number = n.number; printed = n.own_key ∙ n.printed; given = n.given },
    ) in
    Entries-lookup (λ k x. k ≡ id → x ≡ m) id x t.messages
      (kept (Reach-Keeps (IsFinal-Rule id m fixed) after start)).0 seen refl

-- A message of a reachable store that has ended (completed, rejected or failed) is, wherever a
-- later store still has a message under its id, the same message in every field: no operation
-- changes it, and no other message ever takes its id.
pub ended_is_final :
    (cfg : Config) (env : Env) (allowlist : List String) (epoch : String) (s t : Store)
    (id : String) (m x : Message)
    → Reach (new_store cfg env allowlist epoch) s
    → lookup id s.messages ≡ some m
    → is_terminal m.state ≡ true
    → Reach s t
    → lookup id t.messages ≡ some x
    → x ≡ m
ended_is_final cfg env allowlist epoch s t id m x before found ended after seen =
    stays_fixed cfg env allowlist epoch s t id m x before found (inl ended) after seen

-- A message of a reachable store that is no request is, wherever a later store still has a
-- message under its id, the same message in every field, be it queued for its target or not: no
-- operation changes it.
pub only_requests_change :
    (cfg : Config) (env : Env) (allowlist : List String) (epoch : String) (s t : Store)
    (id : String) (m x : Message)
    → Reach (new_store cfg env allowlist epoch) s
    → lookup id s.messages ≡ some m
    → is_request m.type ≡ false
    → Reach s t
    → lookup id t.messages ≡ some x
    → x ≡ m
only_requests_change cfg env allowlist epoch s t id m x before found kind after seen =
    stays_fixed cfg env allowlist epoch s t id m x before found (inr kind) after seen

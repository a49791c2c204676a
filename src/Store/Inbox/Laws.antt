-- ===== src/Store/Inbox/Laws.antt =====
-- The inbox operations: exact byte accounts, and an inbox as a window on everything appended to it.
use pinakes.Base.{
  ℕ, zero, suc, ◌+◌, ◌-◌, ◌≤◌, ◌<◌, ◌≡◌, refl, sym, ap, subst, ◌∙◌, false≢true, ◌≢◌, inl, inr,
  String, true, false, ◌||◌, List, [], ◌∷◌, ◌++◌, total, length, take, drop, length-drop,
  drop-append, length-append, total-append, total-take-drop, ltb, arith, Bool-cases, ◌==◌, eq_iff,
}
use pinakes.Base.Dict.{Dict, lookup_or, insert}
use pinakes.Base.Dict.Laws.{lookup_or-insert_self, lookup_or-insert_ne}
use pinakes.Types.{InboxEvent}
use pinakes.Store.{Store, is_zero}
use pinakes.Store.Inbox.{inbox_event_size, drop_count, drop_inbox_prefix, append_inbox}
use pinakes.Store.Inbox.Budget.{Fits, drop_count-lt, drop_count-Fits, drop_count_least}

-- The inbox of an agent: its events, the cursor of the first, and the bytes on account.
abbrev pub events_of : String → Store → List InboxEvent
events_of a s = lookup_or [] a s.inboxes

abbrev pub base_of : String → Store → ℕ
base_of a s = lookup_or 0 a s.inbox_base

abbrev pub bytes_of : String → Store → ℕ
bytes_of a s = lookup_or 0 a s.inbox_bytes

abbrev pub IsAccounted : Store → Type 0
IsAccounted s = (a : String) → bytes_of a s ≡ total inbox_event_size (events_of a s)

-- What an operation on one inbox does: n oldest events go, and the cursors of the others stay.
pub record Drops (a : String) (n : ℕ) (s t : Store) : Type 0 where
  pub events : events_of a t ≡ drop n (events_of a s)
  pub base : base_of a t ≡ base_of a s + n
  pub bytes : bytes_of a t ≡ bytes_of a s - total inbox_event_size (take n (events_of a s))
  pub others :
      (b : String)
      → a ≢ b
      → (events_of b t ≡ events_of b s)
        × (base_of b t ≡ base_of b s)
        × (bytes_of b t ≡ bytes_of b s)

pub drop_inbox_prefix-Drops :
    (a : String) (n : ℕ) (s : Store)
    → n ≤ length (events_of a s)
    → Drops a n s (drop_inbox_prefix a n s)
unfolding drop_inbox_prefix
drop_inbox_prefix-Drops a zero s h = record {
  events = refl;
  base = omega arith;
  bytes = omega arith;
  others = λ b ne. (refl, refl, refl);
}
drop_inbox_prefix-Drops a (suc n) s h =
    let enough : ltb (length (events_of a s)) (suc n) ≡ false = ground arith in
    rw enough (record {
      events = lookup_or-insert_self [] a _ s.inboxes;
      base = lookup_or-insert_self 0 a _ s.inbox_base;
      bytes = lookup_or-insert_self 0 a _ s.inbox_bytes;
      others = λ b ne. (
        lookup_or-insert_ne [] a b _ s.inboxes ne,
        lookup_or-insert_ne 0 a b _ s.inbox_base ne,
        lookup_or-insert_ne 0 a b _ s.inbox_bytes ne,
      );
    })

-- The store between the append and the eviction.
appended : String → InboxEvent → Store → Store
appended a e s = record s {
  inboxes = insert a (events_of a s ++ e ∷ []) s.inboxes;
  inbox_bytes = insert a (bytes_of a s + inbox_event_size e) s.inbox_bytes;
}

pub evicts : String → InboxEvent → Store → ℕ
evicts a e s =
    drop_count inbox_event_size s.cfg.max_inbox_events_per_agent s.cfg.max_inbox_bytes_per_agent
      (bytes_of a s + inbox_event_size e) (events_of a s ++ e ∷ [])

-- An append leaves a window on the old inbox and the new event: n oldest events go, never the new one,
-- the cursors of the others stay, the bytes are those of the window, and no other inbox changes.
pub record Appends (a : String) (e : InboxEvent) (n : ℕ) (s t : Store) : Type 0 where
  pub newest : n ≤ length (events_of a s)
  pub events : events_of a t ≡ drop n (events_of a s) ++ e ∷ []
  pub base : base_of a t ≡ base_of a s + n
  pub bytes : bytes_of a t ≡ total inbox_event_size (events_of a t)
  pub others :
      (b : String)
      → a ≢ b
      → (events_of b t ≡ events_of b s)
        × (base_of b t ≡ base_of b s)
        × (bytes_of b t ≡ bytes_of b s)

module _ (a : String) (e : InboxEvent) (s : Store) (acc : IsAccounted s) where
  all_bytes : bytes_of a s + inbox_event_size e ≡ total inbox_event_size (events_of a s ++ e ∷ [])
  all_bytes = omega (arith, acc a, total-append inbox_event_size (events_of a s) (e ∷ []))

  evicts-le : evicts a e s ≤ length (events_of a s)
  unfolding evicts
  evicts-le = rw all_bytes (
      omega (
        arith,
        length-append (events_of a s) (e ∷ []),
        drop_count-lt inbox_event_size s.cfg.max_inbox_events_per_agent
            s.cfg.max_inbox_bytes_per_agent (events_of a s ++ e ∷ [])
            (omega (arith, length-append (events_of a s) (e ∷ []))),
      ))

  pub append_inbox-Appends : Appends a e (evicts a e s) s (append_inbox a e s)
  unfolding append_inbox appended evicts
  append_inbox-Appends =
      let n = evicts a e s in
      let t = appended a e s in
      let whole : events_of a t ≡ events_of a s ++ e ∷ [] =
        lookup_or-insert_self [] a _ s.inboxes in
      let bytes : bytes_of a t ≡ bytes_of a s + inbox_event_size e =
        lookup_or-insert_self 0 a _ s.inbox_bytes in
      let here : n ≤ length (events_of a t) =
        omega (arith, evicts-le, ap length whole, length-append (events_of a s) (e ∷ [])) in
      let d = drop_inbox_prefix-Drops a n t here in
      record {
        newest = evicts-le;
        events = d.events ∙ ap (drop n) whole ∙ drop-append n (events_of a s) (e ∷ []) evicts-le;
        base = d.base;
        bytes = omega (
          arith,
          d.bytes,
          bytes,
          all_bytes,
          ap (total inbox_event_size) whole,
          ap (total inbox_event_size) d.events,
          total-take-drop inbox_event_size n (events_of a t),
        );
        others = λ b ne.
            let (p, q, r) = d.others b ne in
            (
              p ∙ lookup_or-insert_ne [] a b _ s.inboxes ne,
              q,
              r ∙ lookup_or-insert_ne 0 a b _ s.inbox_bytes ne,
            );
      }

-- The next cursor of an inbox: it never falls, and an append moves it by one.
abbrev pub end_of : String → Store → ℕ
end_of a s = base_of a s + length (events_of a s)

module _ (a : String) (e : InboxEvent) (s : Store) (acc : IsAccounted s) where
  -- If the byte accounts are exact, an append makes an inbox a window: some n oldest events go,
  -- the new one stands last, the base rises by n and the end by one, the byte account is exact,
  -- and no other inbox changes.
  pub append_inbox-window :
      (n : ℕ) × Appends a e n s (append_inbox a e s)
      × (end_of a (append_inbox a e s) ≡ end_of a s + 1)
  append_inbox-window =
      let w = append_inbox-Appends a e s acc in
      let n = evicts a e s in
      (
        n,
        w,
        omega (
          arith,
          w.base,
          w.newest,
          ap length w.events,
          length-append (drop n (events_of a s)) (e ∷ []),
          length-drop n (events_of a s),
        ),
      )

  pub append_inbox-IsAccounted : IsAccounted (append_inbox a e s)
  append_inbox-IsAccounted b =
      let w = append_inbox-Appends a e s acc in
      elim (Bool-cases (a == b)) [
        | inl same ↦
            subst
              (λ c.
                bytes_of c (append_inbox a e s)
                ≡ total inbox_event_size (events_of c (append_inbox a e s)))
              ((eq_iff a b).0 same) w.bytes
        | inr other ↦
            let (p, q, r) = w.others b (λ same. false≢true (sym other ∙ (eq_iff a b).1 same)) in
            r ∙ acc b ∙ ap (total inbox_event_size) (sym p)
      ]

  evicts_lem :
      evicts a e s
      ≡ drop_count inbox_event_size s.cfg.max_inbox_events_per_agent s.cfg.max_inbox_bytes_per_agent
          (total inbox_event_size (events_of a s ++ e ∷ []))
          (events_of a s ++ e ∷ [])
  unfolding evicts
  evicts_lem = rw (all_bytes a e s acc)

  window-eq_drop :
      events_of a (append_inbox a e s)
      ≡ drop
          (drop_count inbox_event_size s.cfg.max_inbox_events_per_agent
            s.cfg.max_inbox_bytes_per_agent
            (total inbox_event_size (events_of a s ++ e ∷ []))
            (events_of a s ++ e ∷ []))
          (events_of a s ++ e ∷ [])
  window-eq_drop =
      let w = append_inbox-Appends a e s acc in
      w.events
      ∙ sym (drop-append (evicts a e s) (events_of a s) (e ∷ []) w.newest)
      ∙ ap (λ (k : ℕ). drop k (events_of a s ++ e ∷ [])) evicts_lem

  -- What has gone is what the base says.
  gone_lem :
      base_of a (append_inbox a e s) - base_of a s
      ≡ drop_count inbox_event_size s.cfg.max_inbox_events_per_agent s.cfg.max_inbox_bytes_per_agent
          (total inbox_event_size (events_of a s ++ e ∷ []))
          (events_of a s ++ e ∷ [])
  gone_lem = omega (arith, (append_inbox-Appends a e s acc).base, evicts_lem)

  -- If the byte accounts are exact, an inbox is within its count budget after an append, and
  -- within its byte budget or down to the newest event. It is the old inbox with the new event,
  -- less as many of the oldest as the base has risen by; and with fewer of them gone it would not
  -- be within the budgets.
  pub append_inbox-Fits :
      let t = append_inbox a e s in
      let fits =
        Fits inbox_event_size s.cfg.max_inbox_events_per_agent s.cfg.max_inbox_bytes_per_agent in
      let gone = base_of a t - base_of a s in
      fits (events_of a t)
      × (events_of a t ≡ drop gone (events_of a s ++ e ∷ []))
      × ((j : ℕ) → j < gone → ¬ fits (drop j (events_of a s ++ e ∷ [])))
  append_inbox-Fits =
      let me = s.cfg.max_inbox_events_per_agent in
      let mb = s.cfg.max_inbox_bytes_per_agent in
      let all = events_of a s ++ e ∷ [] in
      (
        rw window-eq_drop (drop_count-Fits inbox_event_size me mb all),
        window-eq_drop ∙ ap (λ (k : ℕ). drop k all) (sym gone_lem),
        λ j h. drop_count_least inbox_event_size me mb all j (omega (arith, h, gone_lem)),
      )

-- Dropping a prefix keeps the accounts exact.
module _ (a : String) (n : ℕ) (s : Store) (acc : IsAccounted s) where
  Drops-IsAccounted : (t : Store) → Drops a n s t → IsAccounted t
  Drops-IsAccounted t d b = elim (Bool-cases (a == b)) [
    | inl same ↦
        subst (λ c. bytes_of c t ≡ total inbox_event_size (events_of c t)) ((eq_iff a b).0 same)
          (omega (
            arith,
            d.bytes,
            acc a,
            ap (total inbox_event_size) d.events,
            total-take-drop inbox_event_size n (events_of a s),
          ))
    | inr other ↦
        let (p, q, r) = d.others b (λ same. false≢true (sym other ∙ (eq_iff a b).1 same)) in
        r ∙ acc b ∙ ap (total inbox_event_size) (sym p)
  ]

  too_many : ltb (length (events_of a s)) n ≡ true → IsAccounted (drop_inbox_prefix a n s)
  unfolding drop_inbox_prefix
  too_many more = elim (Bool-cases (is_zero n)) [
    | inl none_left ↦ rw none_left acc
    | inr some_left ↦ rw (some_left, more) acc
  ]

  pub drop_inbox_prefix-IsAccounted : IsAccounted (drop_inbox_prefix a n s)
  drop_inbox_prefix-IsAccounted = elim (Bool-cases (ltb (length (events_of a s)) n)) [
    | inl more ↦ too_many more
    | inr enough ↦
        Drops-IsAccounted (drop_inbox_prefix a n s) (drop_inbox_prefix-Drops a n s (ground arith))
  ]

-- What does not look at the inboxes is untouched by their operations.
module _ {ℓ} (P : Store → Type ℓ)
    (blind : (i : Dict (List InboxEvent)) (j k : Dict ℕ) (s : Store)
      → P s
      → P (record s { inboxes = i; inbox_base = j; inbox_bytes = k })) where
  pub drop_inbox_prefix-blind : (a : String) (n : ℕ) (s : Store) → P s → P (drop_inbox_prefix a n s)
  unfolding drop_inbox_prefix
  drop_inbox_prefix-blind a n s h =
      elim (Bool-cases (is_zero n || ltb (length (lookup_or [] a s.inboxes)) n)) [
        | inl same ↦ rw same h
        | inr cut ↦ rw cut (blind _ _ _ s h)
      ]

  pub append_inbox-blind : (a : String) (e : InboxEvent) (s : Store) → P s → P (append_inbox a e s)
  unfolding append_inbox
  append_inbox-blind a e s h = drop_inbox_prefix-blind a _ _ (blind _ s.inbox_base _ s h)

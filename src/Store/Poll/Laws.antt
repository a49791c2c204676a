-- ===== src/Store/Poll/Laws.antt =====
-- PollInbox: what a round answers, and that what a failure leaves.
use pinakes.Base.{
  ℕ, zero, suc, ◌+◌, ◌-◌, ◌≤◌, ◌≡◌, inl, inr, refl, sym, ap, subst, true, false, String, List, [],
  ◌∷◌, take, drop, length, arith, ltb, Bool-cases,
}
use pinakes.Base.Int.{ℤ, pos, negsuc}
use pinakes.Types.{InboxEvent}
use pinakes.Errors.{ok, err, Error, Result-cases}
use pinakes.Store.{Store}
use pinakes.Store.Inbox.{drop_inbox_prefix}
use pinakes.Store.Inbox.Laws.{events_of, base_of, Drops, drop_inbox_prefix-Drops}
use pinakes.Store.Sweep.{sweep}
use pinakes.Store.Poll.{Advance, clamp_between, limit_events, answer_from, read_inbox, poll_round}

clamp_bounds :
    (raw : ℤ) (base end : ℕ)
    → base ≤ end
    → (base ≤ clamp_between raw base end) × (clamp_between raw base end ≤ end)
unfolding clamp_between
clamp_bounds (negsuc n) base end h = (omega arith, h)
clamp_bounds (pos n) base end h = ground (arith, h)

take_all : (n : ℕ) (es : List InboxEvent) → length es ≤ n → take n es ≡ es
take_all zero [] h = refl
take_all (suc n) [] h = refl
take_all zero (e ∷ es) h = absurd (omega arith)
take_all (suc n) (e ∷ es) h = ap (λ xs. e ∷ xs) (take_all n es (omega arith))

length-take : (n : ℕ) (es : List InboxEvent) → n ≤ length es → length (take n es) ≡ n
length-take zero es h = refl
length-take (suc n) [] h = absurd (omega arith)
length-take (suc n) (e ∷ es) h = ap suc (length-take n es (omega arith))

pub limit_shape :
    (limit : ℤ) (es : List InboxEvent)
    → limit_events limit es ≡ take (length (limit_events limit es)) es
unfolding limit_events
limit_shape (pos zero) es = sym (take_all (length es) es (omega arith))
limit_shape (pos (suc n)) es = elim (Bool-cases (ltb (suc n) (length es))) [
  | inl long ↦ rw long (ap (λ (k : ℕ). take k es) (sym (length-take (suc n) es (ground arith))))
  | inr short ↦ rw short (sym (take_all (length es) es (omega arith)))
]
limit_shape (negsuc n) es = sym (take_all (length es) es (omega arith))

-- What a look at an inbox has done: the answer starts at the cursor, which lies within the inbox, and is
-- a first part of what stands there; what lies below the cursor is gone, nothing else.
pub record Reads (a : String) (raw limit : ℤ) (out : List InboxEvent) (next : ℕ) (s t : Store)
    : Type 0 where
  pub cursor : ℕ
  pub asked : cursor ≡ clamp_between raw (base_of a s) (base_of a s + length (events_of a s))
  pub left : events_of a t ≡ drop (cursor - base_of a s) (events_of a s)
  pub base : base_of a t ≡ cursor
  pub answer : out ≡ limit_events limit (events_of a t)
  pub advances : next ≡ cursor + length out

module _ (a : String) (raw limit : ℤ) (advance : Advance) (s : Store) where
  abbrev at_cursor : ℕ
  at_cursor = clamp_between raw (base_of a s) (base_of a s + length (events_of a s))

  read_at :
      ltb (base_of a s) at_cursor ≡ false
      → read_inbox a raw limit advance s ≡ answer_from a at_cursor limit s
  unfolding read_inbox
  read_at h = rw h

  read_past :
      ltb (base_of a s) at_cursor ≡ true
      → advance a at_cursor ≡ ok tt
      → read_inbox a raw limit advance s
        ≡ answer_from a at_cursor limit (drop_inbox_prefix a (at_cursor - base_of a s) s)
  unfolding read_inbox
  read_past h e = rw (h, e)

  read_stuck :
      (e : Error)
      → ltb (base_of a s) at_cursor ≡ true
      → advance a at_cursor ≡ err e
      → (read_inbox a raw limit advance s).0 ≡ err e
  unfolding read_inbox
  read_stuck e h stuck = rw (h, stuck)

  Reads-of :
      (out : List InboxEvent) (next : ℕ) (t : Store)
      → base_of a s ≤ at_cursor
      → Drops a (at_cursor - base_of a s) s t
      → (answer_from a at_cursor limit t).0 ≡ ok (out, next)
      → Reads a raw limit out next s (answer_from a at_cursor limit t).1
  unfolding answer_from
  Reads-of out next t le d h =
      let same : (limit_events limit (events_of a t) ≡ out)
          × (at_cursor + length (limit_events limit (events_of a t)) ≡ next) =
        (cc h, cc h) in
      record {
        cursor = at_cursor;
        asked = refl;
        left = d.events;
        base = omega (arith, d.base, le);
        answer = sym same.0;
        advances = omega (arith, same.1, ap length same.0);
      }

  -- A look at an inbox that answers does so from the asked cursor, brought between base and end
  -- of the inbox: what lies below it is gone and the base is the cursor, the answer is what is
  -- left, cut to the limit, and the next cursor is the cursor plus the length of the answer.
  pub read_inbox-Reads :
      (out : List InboxEvent) (next : ℕ)
      → (read_inbox a raw limit advance s).0 ≡ ok (out, next)
      → Reads a raw limit out next s (read_inbox a raw limit advance s).1
  read_inbox-Reads out next h =
      let (low, high) =
        clamp_bounds raw (base_of a s) (base_of a s + length (events_of a s)) (omega arith) in
      elim (Bool-cases (ltb (base_of a s) at_cursor)) [
        | inr at ↦
            rw (read_at at)
              (Reads-of out next s low (no_drop (ground (arith, low))) (rw (read_at at) at h))
        | inl past ↦ elim (Result-cases (advance a at_cursor)) [
          | inr (e, stuck) ↦ absurd (cc (read_stuck e past stuck, h))
          | inl (_, e) ↦ rw (read_past past e) (
              Reads-of out next _ low
                (drop_inbox_prefix-Drops a (at_cursor - base_of a s) s (omega (arith, high)))
                (rw (read_past past e) at h))
        ]
      ]
    where
      no_drop : at_cursor ≡ base_of a s → Drops a (at_cursor - base_of a s) s s
      no_drop e =
          let none_below : 0 ≡ at_cursor - base_of a s = omega (arith, e) in
          subst (λ n. Drops a n s s) none_below
            (record {
              events = refl;
              base = omega arith;
              bytes = omega arith;
              others = λ b ne. (refl, refl, refl);
            })

-- A round of a poll that fails, be it by its cursor barrier, leaves the store as the sweep alone
-- leaves it: no event is lost.
pub poll_refused :
    (now : ℕ) (a : String) (cursor limit : ℤ) (advance : Advance) (s : Store) (e : Error)
    → (poll_round now a cursor limit advance s).0 ≡ err e
    → (poll_round now a cursor limit advance s).1 ≡ sweep now s
unfolding poll_round read_inbox answer_from
poll_refused now a cursor limit advance s e h = ground (arith, h)

-- ===== src/Store/Poll/Joined.antt =====
-- PollInbox: two looks at an inbox, with appends between them, lose no event and repeat none.
use pinakes.Base.{
  ℕ, zero, suc, ◌+◌, ◌-◌, ◌≤◌, ◌≡◌, refl, sym, ap, ◌∙◌, String, List, [], ◌∷◌, ◌++◌, take, drop,
  length, arith, append_assoc, append-nil, length-append, length-drop, drop-append, drop-add,
}
use pinakes.Base.Int.{ℤ, pos}
use pinakes.Types.{InboxEvent}
use pinakes.Errors.{ok}
use pinakes.Store.{Store}
use pinakes.Store.Inbox.{append_inbox}
use pinakes.Store.Inbox.Laws.{
  events_of, base_of, IsAccounted, evicts, append_inbox-Appends, append_inbox-IsAccounted,
  drop_inbox_prefix-IsAccounted,
}
use pinakes.Store.Poll.{Advance, clamp_between, answer_from, read_inbox}
use pinakes.Store.Poll.Laws.{read_inbox-Reads, limit_shape}

take_and_drop : (n : ℕ) (es : List InboxEvent) → take n es ++ drop n es ≡ es
take_and_drop zero es = refl
take_and_drop (suc n) [] = refl
take_and_drop (suc n) (e ∷ es) = ap (λ xs. e ∷ xs) (take_and_drop n es)

take-le : (n : ℕ) (es : List InboxEvent) → length (take n es) ≤ length es
take-le zero es = omega arith
take-le (suc n) [] = omega arith
take-le (suc n) (e ∷ es) = omega (arith, take-le n es)

clamp_inside : (n base end : ℕ) → base ≤ n → n ≤ end → clamp_between (pos n) base end ≡ n
unfolding clamp_between
clamp_inside n base end h k = ground (arith, h, k)

-- The store after events have been appended to an inbox, one after the other.
abbrev pub append_all : String → List InboxEvent → Store → Store
append_all a [] s = s
append_all a (e ∷ es) s = append_all a es (append_inbox a e s)

-- What appends leave: a window on the inbox and what was appended to it.
record Window (a : String) (more : List InboxEvent) (n : ℕ) (s t : Store) : Type 0 where
  within : n ≤ length (events_of a s) + length more
  events : events_of a t ≡ drop n (events_of a s ++ more)
  base : base_of a t ≡ base_of a s + n

append_all-Window :
    (a : String) (more : List InboxEvent) (s : Store)
    → IsAccounted s
    → (n : ℕ) × Window a more n s (append_all a more s)
append_all-Window a [] s acc = (
  0,
  record { within = omega arith; events = sym (append-nil (events_of a s)); base = omega arith },
)
append_all-Window a (e ∷ more) s acc =
    let w = append_inbox-Appends a e s acc in
    let n = evicts a e s in
    let (k, v) =
      append_all-Window a more (append_inbox a e s) (append_inbox-IsAccounted a e s acc) in
    (
      n + k,
      record {
        within = omega (
          arith,
          v.within,
          w.newest,
          ap length w.events,
          length-append (drop n (events_of a s)) (e ∷ []),
          length-drop n (events_of a s),
        );
        events =
            v.events
            ∙ ap (drop k) (
                ap (λ xs. xs ++ more) w.events
                ∙ append_assoc (drop n (events_of a s)) (e ∷ []) more
                ∙ sym (drop-append n (events_of a s) (e ∷ more) w.newest))
            ∙ sym (drop-add n k (events_of a s ++ e ∷ more));
        base = omega (arith, v.base, w.base);
      },
    )

read_inbox-IsAccounted :
    (a : String) (raw limit : ℤ) (advance : Advance) (s : Store)
    → IsAccounted s
    → IsAccounted (read_inbox a raw limit advance s).1
unfolding read_inbox answer_from
read_inbox-IsAccounted a raw limit advance s acc b = ground (
  arith,
  acc b,
  drop_inbox_prefix-IsAccounted a
      (clamp_between raw (base_of a s) (base_of a s + length (events_of a s)) - base_of a s) s acc
      b,
)

-- In a store with exact byte accounts, of two looks at an inbox that answer, where the second
-- asks from the cursor that the first returned and, between them, nothing but appends changes the
-- inbox and no eviction passes that cursor: what the first left with what was appended is the
-- first answer followed by what the second leaves, so that no event is lost and none repeated;
-- the second answer is a first part of what it leaves, the base is then the cursor of the first,
-- and the next cursor is past the second answer.
pub polls_join :
    (a : String) (raw limit limit' : ℤ) (advance advance' : Advance) (s v : Store)
    (out out' more : List InboxEvent) (next next' : ℕ)
    → IsAccounted s
    → (read_inbox a raw limit advance s).0 ≡ ok (out, next)
    → let t = (read_inbox a raw limit advance s).1 in
      let u = (read_inbox a (pos next) limit' advance' v).1 in
      events_of a v ≡ events_of a (append_all a more t)
      → base_of a v ≡ base_of a (append_all a more t)
      → base_of a v ≤ next
      → (read_inbox a (pos next) limit' advance' v).0 ≡ ok (out', next')
      → (events_of a t ++ more ≡ out ++ events_of a u)
        × (out' ≡ take (length out') (events_of a u))
        × (base_of a u ≡ next)
        × (next' ≡ next + length out')
polls_join a raw limit limit' advance advance' s v out out' more next next' acc h same base kept
      h' =
    let t = (read_inbox a raw limit advance s).1 in
    let u = (read_inbox a (pos next) limit' advance' v).1 in
    let first = read_inbox-Reads a raw limit advance s out next h in
    let second = read_inbox-Reads a (pos next) limit' advance' v out' next' h' in
    let (n, w) = append_all-Window a more t (read_inbox-IsAccounted a raw limit advance s acc) in
    let part : out ≡ take (length out) (events_of a t) =
      first.answer
      ∙ limit_shape limit (events_of a t)
      ∙ ap (λ (xs : List InboxEvent). take (length xs) (events_of a t)) (sym first.answer) in
    let short : length out ≤ length (events_of a t) =
      omega (arith, ap length part, take-le (length out) (events_of a t)) in
    let size : length (events_of a v) ≡ length (events_of a t) + length more - n = omega (
      arith,
      ap length same,
      ap length w.events,
      length-drop n (events_of a t ++ more),
      length-append (events_of a t) more,
    ) in
    let here : second.cursor ≡ next =
      second.asked
      ∙ clamp_inside next (base_of a v) (base_of a v + length (events_of a v)) kept
          (omega (arith, first.base, first.advances, short, size, base, w.base, w.within)) in
    let gone : n ≤ length out = omega (arith, kept, base, w.base, first.base, first.advances) in
    let gap : n + (second.cursor - base_of a v) ≡ length out =
      omega (arith, here, base, w.base, first.base, first.advances, gone) in
    let left : events_of a u ≡ drop (length out) (events_of a t) ++ more =
      second.left
      ∙ ap (drop (second.cursor - base_of a v)) (same ∙ w.events)
      ∙ sym (drop-add n (second.cursor - base_of a v) (events_of a t ++ more))
      ∙ ap (λ (k : ℕ). drop k (events_of a t ++ more)) gap
      ∙ drop-append (length out) (events_of a t) more short in
    (
      ap (λ (xs : List InboxEvent). xs ++ more)
            (sym (take_and_drop (length out) (events_of a t))
              ∙ ap (λ (xs : List InboxEvent). xs ++ drop (length out) (events_of a t)) (sym part))
          ∙ append_assoc out (drop (length out) (events_of a t)) more
          ∙ ap (λ (xs : List InboxEvent). out ++ xs) (sym left),
      second.answer
          ∙ limit_shape limit' (events_of a u)
          ∙ ap (λ (xs : List InboxEvent). take (length xs) (events_of a u)) (sym second.answer),
      second.base ∙ here,
      omega (arith, second.advances, here),
    )

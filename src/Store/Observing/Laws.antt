-- ===== src/Store/Observing/Laws.antt =====
-- ObserveSince: the binary search finds the first index, and what is returned is every event past
-- the id that the filter lets through, and no event twice.
use pinakes.Base.{
  ℕ, zero, suc, ◌+◌, ◌-◌, ◌/◌, ◌≤◌, ◌<◌, ◌≡◌, refl, sym, ap, ◌∙◌, Bool, true, false, ◌&&◌, List, [],
  ◌∷◌, length, drop, select, ltb, arith, Bool-cases, inl, inr, ltb→lt, lt→ltb, false≢true,
}
use pinakes.Types.{ObserveEvent, ObserveFilter}
use pinakes.Store.{Store}
use pinakes.Store.Observe.Laws.{Rising, IsRing}
use pinakes.Store.Observing.{
  event_matches_filter, past_at, search_loop, sort_search, events_since, last_id,
}

-- A test that stays true once it is true, as sort.Search wants it.
abbrev pub IsMonotone : (ℕ → Bool) → Type 0
IsMonotone test = (i k : ℕ) → i ≤ k → test i ≡ true → test k ≡ true

-- r is the first index at which the test holds.
abbrev pub IsFirst : (ℕ → Bool) → ℕ → Type 0
IsFirst test r = ((k : ℕ) → k < r → test k ≡ false) × ((k : ℕ) → r ≤ k → test k ≡ true)

below_false :
    (test : ℕ → Bool)
    → IsMonotone test
    → (h : ℕ) → test h ≡ false
    → (k : ℕ) → k < suc h
    → test k ≡ false
below_false test mono h miss k lt = elim (Bool-cases (test k)) [
  | inl hit ↦ absurd (false≢true (sym miss ∙ mono k h (omega arith) hit))
  | inr e ↦ e
]

search_loop-IsFirst :
    (fuel : ℕ) (test : ℕ → Bool) (i j : ℕ)
    → IsMonotone test
    → j - i ≤ fuel
    → i ≤ j
    → ((k : ℕ) → k < i → test k ≡ false)
    → ((k : ℕ) → j ≤ k → test k ≡ true)
    → IsFirst test (search_loop fuel test i j)
unfolding search_loop
search_loop-IsFirst zero test i j mono f le below past = (below, λ k h. past k (omega arith))
search_loop-IsFirst (suc fuel) test i j mono f le below past = elim (Bool-cases (ltb i j)) [
  | inr done ↦ rw done (below, λ k h. past k (ground arith))
  | inl more ↦
      let h = (i + j) / 2 in
      let lt = ltb→lt i j more in
      rw more (elim (Bool-cases (test h)) [
        | inl hit ↦ rw hit (
            search_loop-IsFirst fuel test i h mono (omega arith) (omega arith) below
              (λ k le. mono h k le hit))
        | inr miss ↦ rw miss (
            search_loop-IsFirst fuel test (suc h) j mono (omega arith) (omega arith)
              (below_false test mono h miss) past)
      ])
]

-- For a monotone test that holds from n on, the fuel of the search is enough: it returns the
-- first index at which the test holds.
pub sort_search-IsFirst :
    (n : ℕ) (test : ℕ → Bool)
    → IsMonotone test
    → ((k : ℕ) → n ≤ k → test k ≡ true)
    → IsFirst test (sort_search n test)
unfolding sort_search
sort_search-IsFirst n test mono past =
    search_loop-IsFirst n test 0 n mono (omega arith) (omega arith) (λ k h. absurd (omega arith))
      past

past_at-IsMonotone :
    (a lo hi : ℕ) (es : List ObserveEvent) → Rising lo hi es → IsMonotone (past_at a es)
unfolding past_at
past_at-IsMonotone a lo hi [] r i k le hit = refl
past_at-IsMonotone a lo hi (e ∷ es) r zero zero le hit = hit
past_at-IsMonotone a lo hi (e ∷ es) r zero (suc k) le hit =
    all_past a e.id hi es (ltb→lt _ _ hit) r.1 k
  where
    all_past :
        (a lo hi : ℕ) (es : List ObserveEvent)
        → a < lo
        → Rising lo hi es
        → (k : ℕ) → past_at a es k ≡ true
    all_past a lo hi [] h r k = refl
    all_past a lo hi (e ∷ es) h r zero = lt→ltb _ _ (omega (arith, r.0))
    all_past a lo hi (e ∷ es) h r (suc k) = all_past a e.id hi es (omega (arith, r.0)) r.1 k
past_at-IsMonotone a lo hi (e ∷ es) r (suc i) zero le hit = absurd (omega arith)
past_at-IsMonotone a lo hi (e ∷ es) r (suc i) (suc k) le hit =
    past_at-IsMonotone a e.id hi es r.1 i k (omega arith) hit

past_at_end : (a : ℕ) (es : List ObserveEvent) (k : ℕ) → length es ≤ k → past_at a es k ≡ true
unfolding past_at
past_at_end a [] k h = refl
past_at_end a (e ∷ es) zero h = absurd (omega arith)
past_at_end a (e ∷ es) (suc k) h = past_at_end a es k (omega arith)

abbrev newer : ℕ → ObserveEvent → Bool
newer a e = ltb a e.id

drop_first :
    (a r : ℕ) (es : List ObserveEvent) → IsFirst (past_at a es) r → drop r es ≡ select (newer a) es
unfolding past_at
drop_first a zero [] f = refl
drop_first a (suc r) [] f = refl
drop_first a zero (e ∷ es) f = rw (f.1 0 (omega arith)) (
    ap (λ xs. e ∷ xs)
      (drop_first a zero es (λ k h. absurd (omega arith), λ k h. f.1 (suc k) (omega arith))))
drop_first a (suc r) (e ∷ es) f =
    rw (f.0 0 (omega arith))
      (drop_first a r es (λ k h. f.0 (suc k) (omega arith), λ k h. f.1 (suc k) (omega arith)))

select-select :
    (p q : ObserveEvent → Bool) (es : List ObserveEvent)
    → select p (select q es) ≡ select (λ e. q e && p e) es
select-select p q [] = refl
select-select p q (e ∷ es) = ground (arith, select-select p q es)

-- Of a sound ring, the binary search and the loop of ObserveSince return exactly the events past
-- the given id that the filter lets through, in order.
pub events_since-eq_select :
    (s : Store) (a : ℕ) (filter : ObserveFilter)
    → IsRing s
    → events_since s a filter
      ≡ select (λ e. ltb a e.id && event_matches_filter s.cfg filter e) s.observe_events
unfolding events_since
events_since-eq_select s a filter ring =
    ap (select (event_matches_filter s.cfg filter)) (
      drop_first a (sort_search (length s.observe_events) (past_at a s.observe_events))
        s.observe_events
        (sort_search-IsFirst (length s.observe_events) (past_at a s.observe_events)
          (past_at-IsMonotone a 0 s.next_observe_id s.observe_events ring.0)
          (past_at_end a s.observe_events)))
    ∙ select-select (event_matches_filter s.cfg filter) (newer a) s.observe_events

module _ (m : ObserveEvent → Bool) where
  abbrev since : ℕ → List ObserveEvent → List ObserveEvent
  since a = select (λ e. ltb a e.id && m e)

  le-last_id :
      (x a lo hi : ℕ) (es : List ObserveEvent)
      → x ≤ lo
      → Rising lo hi es
      → x ≤ last_id x (since a es)
  le-last_id x a lo hi [] h r = omega arith
  le-last_id x a lo hi (e ∷ es) h r = ground (
    arith,
    r.0,
    le-last_id e.id a e.id hi es (omega arith) r.1,
    le-last_id x a e.id hi es (omega (arith, r.0)) r.1,
  )

  le-last_since :
      (a lo hi : ℕ) (es : List ObserveEvent) → Rising lo hi es → a ≤ last_id a (since a es)
  le-last_since a lo hi [] r = omega arith
  le-last_since a lo hi (e ∷ es) r =
      ground (arith, le-last_id e.id a e.id hi es (omega arith) r.1, le-last_since a e.id hi es r.1)

  since_below :
      (a b lo hi : ℕ) (es : List ObserveEvent)
      → a ≤ lo
      → b ≤ lo
      → Rising lo hi es
      → since a es ≡ since b es
  since_below a b lo hi [] h k r = refl
  since_below a b lo hi (e ∷ es) h k r =
      rw (lt→ltb a e.id (omega (arith, r.0)), lt→ltb b e.id (omega (arith, r.0)))
        (ground (arith, since_below a b e.id hi es (omega (arith, r.0)) (omega (arith, r.0)) r.1))

  since_skip :
      (z : ℕ) (e : ObserveEvent) (es : List ObserveEvent)
      → (ltb z e.id && m e) ≡ false
      → since z (e ∷ es) ≡ since z es
  since_skip z e es out = rw out

  since_take :
      (z : ℕ) (e : ObserveEvent) (es : List ObserveEvent)
      → (ltb z e.id && m e) ≡ true
      → since z (e ∷ es) ≡ e ∷ since z es
  since_take z e es into = rw into

  not_newer : (z : ℕ) (e : ObserveEvent) → e.id ≤ z → (ltb z e.id && m e) ≡ false
  not_newer z e h = ground arith

  -- Past the last event of an answer there is nothing that the same filter lets through.
  nothing_new :
      (a lo hi : ℕ) (es : List ObserveEvent)
      → Rising lo hi es
      → since (last_id a (since a es)) es ≡ []
  nothing_new a lo hi [] r = refl
  nothing_new a lo hi (e ∷ es) r = elim (Bool-cases (ltb a e.id && m e)) [
    | inr out ↦
        ap (λ xs. since (last_id a xs) (e ∷ es)) (since_skip a e es out)
        ∙ since_skip (last_id a (since a es)) e es (ground (arith, le-last_since a e.id hi es r.1))
        ∙ nothing_new a e.id hi es r.1
    | inl into ↦
        let same = since_below a e.id e.id hi es (ground arith) (omega arith) r.1 in
        ap (λ xs. since (last_id a xs) (e ∷ es)) (since_take a e es into ∙ ap (λ xs. e ∷ xs) same)
        ∙ since_skip (last_id e.id (since e.id es)) e es
            (not_newer _ e (le-last_id e.id e.id e.id hi es (omega arith) r.1))
        ∙ nothing_new e.id e.id hi es r.1
  ]

-- Of a sound ring, ObserveSince returns no event twice: asked again from the id that it returned,
-- with the same filter, it finds nothing.
pub events_since_once :
    (s : Store) (a : ℕ) (filter : ObserveFilter)
    → IsRing s
    → events_since s (last_id a (events_since s a filter)) filter ≡ []
events_since_once s a filter ring =
    events_since-eq_select s (last_id a (events_since s a filter)) filter ring
    ∙ ap (λ xs. since (event_matches_filter s.cfg filter) (last_id a xs) s.observe_events)
        (events_since-eq_select s a filter ring)
    ∙ nothing_new (event_matches_filter s.cfg filter) a 0 s.next_observe_id s.observe_events ring.0

-- ===== src/Migrate/Inspect/Laws.antt =====
-- What inspect counts and finds: each identity of each column, as often as it stands there.
use mathlib.Core.List
use pinakes.Base.{
  ℕ, String, Bool, true, false, List, [], ◌∷◌, ◌++◌, ◌+◌, ◌||◌, ◌==◌, ◌≡◌, ◌≢◌, refl, subst, sym,
  ap, ◌∙◌, arith, eq_iff, contains, Option, none, some, if◌then◌else◌, All, inl, inr, Bool-cases,
  eq_false,
}
use pinakes.Base.Dict.{Dict, lookup_or, insert}
use pinakes.Base.Dict.Laws.{lookup_or-insert}
use pinakes.Migrate.{accepted, refuse, >>=-eq-accepted, accepted-inj}
use pinakes.Migrate.Inspect.{
  ConversationRow, ConversationPlan, Inspection, occurrences_of, add_occurrence, add_all,
  participants_surface, participants_of, add_conversation, inspect_conversations,
}

-- How often a text stands in a list.
abbrev pub count : String → List String → ℕ
count x [] = 0
count x (y ∷ ys) = (if y == x then 1 else 0) + count x ys

if_true {ℓ} : {A : Type ℓ} {b : Bool} (p q : A) → b ≡ true → (if b then p else q) ≡ p
if_true p q h = ap (λ (b : Bool). if b then p else q) h

if_false {ℓ} : {A : Type ℓ} {b : Bool} (p q : A) → b ≡ false → (if b then p else q) ≡ q
if_false p q h = ap (λ (b : Bool). if b then p else q) h

module _ (x : String) (nonblank : x ≢ "") where
  add_occurrence-present :
      (surface y : String) (i : Inspection)
      → lookup_or false x (add_occurrence surface y i).present
        ≡ (y == x || lookup_or false x i.present)
  unfolding add_occurrence
  add_occurrence-present surface y i = elim (Bool-cases (y == "")) [
    | inl blank ↦ rw (blank, eq_false y x (λ e. nonblank (sym e ∙ (eq_iff y "").0 blank)))
    | inr full ↦ rw (full, lookup_or-insert) (or_if (y == x) _)
  ]
    where
      or_if : (b c : Bool) → (if b then true else c) ≡ (b || c)
      or_if true c = refl
      or_if false c = refl

  pub add_all-present :
      (surface : String) (ys : List String) (i : Inspection)
      → lookup_or false x (add_all surface ys i).present
        ≡ (contains ys x || lookup_or false x i.present)
  unfolding add_all
  add_all-present surface [] i = refl
  add_all-present surface (y ∷ ys) i =
      add_all-present surface ys (add_occurrence surface y i)
      ∙ ap (λ b. contains ys x || b) (add_occurrence-present surface y i)
      ∙ or_swap (contains ys x) (y == x) _
    where
      or_swap : (a b c : Bool) → (a || (b || c)) ≡ ((b || a) || c)
      or_swap a b c = ground arith

  counted :
      (y : String) (m : Dict ℕ)
      → lookup_or 0 x (insert y (lookup_or 0 y m + 1) m)
        ≡ (if y == x then 1 else 0) + lookup_or 0 x m
  counted y m = ground (arith, lookup_or-insert 0 y x (lookup_or 0 y m + 1) m, eq_iff y x)

  add_occurrence-occurrences :
      (surface y s : String) (i : Inspection)
      → occurrences_of (add_occurrence surface y i) s x
        ≡ (if surface == s then (if y == x then 1 else 0) else 0) + occurrences_of i s x
  unfolding add_occurrence
  add_occurrence-occurrences surface y s i = elim (Bool-cases (y == "")) [
    | inl blank ↦
        rw (blank, eq_false y x (λ e. nonblank (sym e ∙ (eq_iff y "").0 blank)))
          (none_more (surface == s) _)
    | inr full ↦ elim (Bool-cases (surface == s)) [
      | inl here ↦
          let m = lookup_or [] surface i.occurrences in
          rw (full, here)
            (ap (lookup_or 0 x) (
                lookup_or-insert [] surface s (insert y (lookup_or 0 y m + 1) m) i.occurrences
                ∙ if_true _ _ here)
              ∙ counted y m
              ∙ ap
                  (λ (k : String).
                    (if y == x then 1 else 0) + lookup_or 0 x (lookup_or [] k i.occurrences))
                  ((eq_iff surface s).0 here))
      | inr elsewhere ↦
          let m = lookup_or [] surface i.occurrences in
          rw (full, elsewhere)
            (ap (lookup_or 0 x) (
                lookup_or-insert [] surface s (insert y (lookup_or 0 y m + 1) m) i.occurrences
                ∙ if_false _ _ elsewhere)
              ∙ omega arith)
    ]
  ]
    where
      none_more : (b : Bool) (n : ℕ) → n ≡ (if b then 0 else 0) + n
      none_more b n = ground arith

  pub add_all-occurrences :
      (surface s : String) (ys : List String) (i : Inspection)
      → occurrences_of (add_all surface ys i) s x
        ≡ (if surface == s then count x ys else 0) + occurrences_of i s x
  unfolding add_all
  add_all-occurrences surface s [] i = no_more (surface == s) _
    where
      no_more : (b : Bool) (n : ℕ) → n ≡ (if b then 0 else 0) + n
      no_more b n = ground arith
  add_all-occurrences surface s (y ∷ ys) i =
      add_all-occurrences surface s ys (add_occurrence surface y i)
      ∙ ap (λ (n : ℕ). (if surface == s then count x ys else 0) + n)
          (add_occurrence-occurrences surface y s i)
      ∙ join (surface == s) _ _ _
    where
      join :
          (b : Bool) (m k n : ℕ)
          → (if b then m else 0) + ((if b then k else 0) + n) ≡ (if b then k + m else 0) + n
      join b m k n = ground arith

abbrev pub stored : Option (List String) → List String
stored none = []
stored (some participants) = participants

-- The participants that the rows hold.
abbrev pub all_participants : List ConversationRow → List String
all_participants [] = []
all_participants (row ∷ rows) = stored row.participants ++ all_participants rows

-- The rows as the plan lists them, with nothing changed yet.
abbrev pub unchanged_plans : List ConversationRow → List ConversationPlan
unchanged_plans [] = []
unchanged_plans (row ∷ rows) =
    record { id = row.conversation_id; participants = stored row.participants; changed = false }
    ∷ unchanged_plans rows

abbrev pub IsDecoded : ConversationRow → Type 0
IsDecoded row = row.participants ≡ some (stored row.participants)

pub record Gathered (rows : List ConversationRow) (i after : Inspection) : Type 0 where
  pub decoded : All IsDecoded rows
  pub listed : after.conversations ≡ i.conversations ++ unchanged_plans rows
  pub found :
      (x : String)
      → x ≢ ""
      → lookup_or false x after.present
        ≡ (contains (all_participants rows) x || lookup_or false x i.present)
  pub counts :
      (x s : String)
      → x ≢ ""
      → occurrences_of after s x
        ≡ (if participants_surface == s then count x (all_participants rows) else 0)
          + occurrences_of i s x

pub add_all-conversations :
    (surface : String) (ys : List String) (i : Inspection)
    → (add_all surface ys i).conversations ≡ i.conversations
unfolding add_all add_occurrence
add_all-conversations surface [] i = refl
add_all-conversations surface (y ∷ ys) i =
    add_all-conversations surface ys (add_occurrence surface y i) ∙ kept (y == "") _ i refl
  where
    kept :
        (b : Bool) (new old : Inspection)
        → new.conversations ≡ old.conversations
        → (if b then old else new).conversations ≡ old.conversations
    kept true new old h = refl
    kept false new old h = h

contains-append :
    (x : String) (ys zs : List String) → contains (ys ++ zs) x ≡ (contains ys x || contains zs x)
contains-append x [] zs = refl
contains-append x (y ∷ ys) zs = ground (arith, contains-append x ys zs)

count-append : (x : String) (ys zs : List String) → count x (ys ++ zs) ≡ count x ys + count x zs
count-append x [] zs = omega arith
count-append x (y ∷ ys) zs = ground (arith, count-append x ys zs)

participants_of-stored :
    (o : Option (List String)) (ps : List String) → participants_of o ≡ accepted ps → o ≡ some ps
unfolding refuse
participants_of-stored none ps h = cc
participants_of-stored (some qs) ps h = cc

-- One row more before the rows gathered so far.
Gathered-cons :
    (row : ConversationRow) (rows : List ConversationRow) (i after : Inspection)
    → IsDecoded row
    → Gathered rows (add_conversation row.conversation_id (stored row.participants) i) after
    → Gathered (row ∷ rows) i after
unfolding add_conversation
Gathered-cons row rows i after d g =
    let ps = stored row.participants in
    record {
      decoded = (d, g.decoded);
      listed =
          g.listed
          ∙ ap
              (λ cs.
                (cs ++ record { id = row.conversation_id; participants = ps; changed = false } ∷ [])
                ++ unchanged_plans rows)
              (add_all-conversations participants_surface ps i)
          ∙ List.append_assoc i.conversations _ (unchanged_plans rows);
      found = λ x nb.
          g.found x nb
          ∙ ap (λ b. contains (all_participants rows) x || b)
              (add_all-present x nb participants_surface ps i)
          ∙ or_join (contains (all_participants rows) x) (contains ps x) _
          ∙ ap (λ b. b || lookup_or false x i.present)
              (sym (contains-append x ps (all_participants rows)));
      counts = λ x s nb.
          g.counts x s nb
          ∙ ap
              (λ (n : ℕ).
                (if participants_surface == s then count x (all_participants rows) else 0) + n)
              (add_all-occurrences x nb participants_surface s ps i)
          ∙ if_join (participants_surface == s) (count x ps) (count x (all_participants rows))
              (occurrences_of i s x)
          ∙ ap (λ (n : ℕ). (if participants_surface == s then n else 0) + occurrences_of i s x)
              (sym (count-append x ps (all_participants rows)));
    }
  where
    or_join : (a b c : Bool) → (a || (b || c)) ≡ ((b || a) || c)
    or_join a b c = ground arith

    if_join :
        (b : Bool) (m k n : ℕ)
        → (if b then k else 0) + ((if b then m else 0) + n) ≡ (if b then m + k else 0) + n
    if_join b m k n = ground arith

pub inspect_conversations-Gathered :
    (rows : List ConversationRow) (i after : Inspection)
    → inspect_conversations rows i ≡ accepted after
    → Gathered rows i after
unfolding inspect_conversations
inspect_conversations-Gathered [] i after h = subst (Gathered [] i) (accepted-inj h) (record {
  decoded = tt;
  listed = sym (List.append-nil i.conversations);
  found = λ x nb. refl;
  counts = λ x s nb. no_more (participants_surface == s) _;
})
  where
    no_more : (b : Bool) (n : ℕ) → n ≡ (if b then 0 else 0) + n
    no_more b n = ground arith
inspect_conversations-Gathered (row ∷ rows) i after h =
    let (ps, e, more) = >>=-eq-accepted (participants_of row.participants) _ h in
    let held = participants_of-stored row.participants ps e in
    let same : ps ≡ stored row.participants = sym (ap stored held) in
    Gathered-cons row rows i after (held ∙ ap Option.some same) (
      subst (λ qs. Gathered rows (add_conversation row.conversation_id qs i) after) same
        (inspect_conversations-Gathered rows (add_conversation row.conversation_id ps i) after
          more))

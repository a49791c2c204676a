-- ===== src/Migrate/Apply/Conversations.antt =====
-- The planned conversations are written each to its own row.
use mathlib.Core.List
use pinakes.Base.{
  String, Bool, true, false, List, [], ◌∷◌, map, ◌++◌, ◌+◌, ◌&&◌, ◌||◌, ◌==◌, ◌≡◌, refl, sym, ap,
  ◌∙◌, arith, eq_iff, eq_refl, All, Option, some, nat_eq, if◌then◌else◌, Bool-cases, inl, inr,
}
use pinakes.Base.Dict.{Dict, lookup, lookup_or}
use pinakes.Migrate.{Outcome, accepted, refuse, ◌>>=◌, >>=-eq-accepted, accepted-inj}
use pinakes.Types
use pinakes.Migrate.Inspect.{ConversationRow, ConversationPlan}
use pinakes.Migrate.Inspect.Laws.{stored, unchanged_plans, IsDecoded}
use pinakes.Migrate.Plan.{renamed_by, plan_one, any_renamed, is_found, plan_conversations, in_scope}
use pinakes.Migrate.Apply
use pinakes.Migrate.Apply.{
  Written, written, failed, set_participants, conversations_of, apply_conversation,
  apply_conversations,
}

if_refuse :
    {A : Type 0} (b : Bool) (code location detail : String) (k : Outcome A) {a : A}
    → (if b then refuse code location detail else k) ≡ accepted a
    → (b ≡ false) × (k ≡ accepted a)
unfolding refuse
if_refuse true c l d k h = cc
if_refuse false c l d k h = (refl, h)

-- Planning renames the participants of every conversation.
pub plan_conversations-map :
    (known : Dict String) (plans planned : List ConversationPlan)
    → plan_conversations known plans ≡ accepted planned
    → planned ≡ map (plan_one known) plans
unfolding plan_conversations refuse
plan_conversations-map known [] planned h = sym (accepted-inj h)
plan_conversations-map known (c ∷ rest) planned h =
    let planned_one = plan_one known c in
    let (pure, more) =
      if_refuse
        (in_scope planned_one.participants Types.personal
          && in_scope planned_one.participants Types.ucla)
        _ _ _ (plan_conversations known rest >>= λ ps. accepted (planned_one ∷ ps)) h in
    let (ps, e, last) =
      >>=-eq-accepted (plan_conversations known rest) (λ ps. accepted (planned_one ∷ ps)) more in
    sym (accepted-inj last) ∙ ap (λ qs. planned_one ∷ qs) (plan_conversations-map known rest ps e)

-- A row with its participants renamed.
abbrev pub rename_row : (String → String) → ConversationRow → ConversationRow
rename_row f row = record row { participants = some (map f (stored row.participants)) }

-- No two rows have one id.
abbrev pub DistinctIds : List ConversationRow → Type 0
DistinctIds [] = Unit
DistinctIds (row ∷ rows) = (conversations_of row.conversation_id rows ≡ 0) × DistinctIds rows

conversations_of-append :
    (id : String) (xs ys : List ConversationRow)
    → conversations_of id (xs ++ ys) ≡ conversations_of id xs + conversations_of id ys
conversations_of-append id [] ys = omega arith
conversations_of-append id (x ∷ xs) ys = omega (arith, conversations_of-append id xs ys)

set_participants-absent :
    (id : String) (ps : List String) (rows : List ConversationRow)
    → conversations_of id rows ≡ 0
    → set_participants id ps rows ≡ rows
set_participants-absent id ps [] h = refl
set_participants-absent id ps (row ∷ rows) h = ground (arith, set_participants-absent id ps rows)

set_participants-append :
    (id : String) (ps : List String) (xs ys : List ConversationRow)
    → set_participants id ps (xs ++ ys) ≡ set_participants id ps xs ++ set_participants id ps ys
set_participants-append id ps [] ys = refl
set_participants-append id ps (x ∷ xs) ys = λ i.
    (if x.conversation_id == id then record x { participants = some ps } else x)
    ∷ set_participants-append id ps xs ys i

-- Participants of which none is renamed stay as they are.
map-not_renamed :
    (known : Dict String) (ps : List String)
    → any_renamed known ps ≡ false
    → map (renamed_by known) ps ≡ ps
unfolding lookup_or
map-not_renamed known [] h = refl
map-not_renamed known (p ∷ ps) h =
    λ i. one i ∷ map-not_renamed known ps (or_right (is_found (lookup p known)) _ h) i
  where
    or_right : (a b : Bool) → (a || b) ≡ false → b ≡ false
    or_right a b e = ground arith

    one : renamed_by known p ≡ p
    one = ground arith

module _ (known : Dict String) where
  abbrev written_row : ConversationRow → ConversationRow
  written_row row = rename_row (renamed_by known) row

  -- The step for one row, after the rows before it.
  write_row :
      (done : List ConversationRow) (row : ConversationRow) (rows : List ConversationRow)
      → conversations_of row.conversation_id done ≡ 0
      → conversations_of row.conversation_id rows ≡ 0
      → IsDecoded row
      → (if any_renamed known (stored row.participants)
          then apply_conversation
              (plan_one known (record {
                id = row.conversation_id;
                participants = stored row.participants;
                changed = false;
              }))
              (done ++ row ∷ rows)
          else written (done ++ row ∷ rows))
        ≡ written (done ++ written_row row ∷ rows)
  write_row done row rows before after d =
      elim (Bool-cases (any_renamed known (stored row.participants))) [
        | inr same ↦
            rw same (λ i. written (done ++ record row { participants = kept_row same i } ∷ rows))
        | inl changes ↦
            rw (changes, once)
              (ap Written.written (
                set_participants-append row.conversation_id ps done (row ∷ rows) ∙ (λ i.
                  set_participants-absent row.conversation_id ps done before i
                  ++ own_row i ∷ set_participants-absent row.conversation_id ps rows after i)))
      ]
    where
      ps : List String
      ps = map (renamed_by known) (stored row.participants)

      kept_row : any_renamed known (stored row.participants) ≡ false → row.participants ≡ some ps
      kept_row e = d ∙ ap Option.some (sym (map-not_renamed known (stored row.participants) e))

      own_row :
          (if row.conversation_id == row.conversation_id
            then record row { participants = some ps }
            else row)
          ≡ record row { participants = some ps }
      own_row =
          ap (λ (b : Bool). if b then record row { participants = some ps } else row)
            (eq_refl row.conversation_id)

      once : nat_eq (conversations_of row.conversation_id (done ++ row ∷ rows)) 1 ≡ true
      once = ground (
        arith,
        conversations_of-append row.conversation_id done (row ∷ rows),
        eq_refl row.conversation_id,
        before,
        after,
      )

  -- The rows that are left do not have the id of a row that was written.
  still_apart :
      (done : List ConversationRow) (row : ConversationRow) (rows : List ConversationRow)
      → conversations_of row.conversation_id rows ≡ 0
      → All (λ r. conversations_of r.conversation_id done ≡ 0) rows
      → All (λ r. conversations_of r.conversation_id (done ++ written_row row ∷ []) ≡ 0) rows
  still_apart done row [] h all = tt
  still_apart done row (r ∷ rows) h (a, more) = (
    ground (
      arith,
      conversations_of-append r.conversation_id done (written_row row ∷ []),
      eq_iff r.conversation_id row.conversation_id,
      eq_iff row.conversation_id r.conversation_id,
      a,
      h,
    ),
    still_apart done row rows (omega (arith, h)) more,
  )

  apply_conversations-after :
      (done rows : List ConversationRow)
      → All (λ r. conversations_of r.conversation_id done ≡ 0) rows
      → DistinctIds rows
      → All IsDecoded rows
      → apply_conversations (map (plan_one known) (unchanged_plans rows)) (done ++ rows)
        ≡ written (done ++ map written_row rows)
  unfolding apply_conversations
  apply_conversations-after done [] apart ids d = refl
  apply_conversations-after done (row ∷ rows) (a, apart) (id, ids) (d, ds) =
      ap (λ w. then_all w) (write_row done row rows a id d)
      ∙ ap (apply_conversations (map (plan_one known) (unchanged_plans rows)))
          (sym (List.append_assoc done (written_row row ∷ []) rows))
      ∙ apply_conversations-after (done ++ written_row row ∷ []) rows
          (still_apart done row rows id apart) ids ds
      ∙ ap Written.written (List.append_assoc done (written_row row ∷ []) (map written_row rows))
    where
      then_all : Written (List ConversationRow) → Written (List ConversationRow)
      then_all w = Apply.◌>>=◌ w (apply_conversations (map (plan_one known) (unchanged_plans rows)))

  pub apply_conversations-map :
      (rows : List ConversationRow)
      → DistinctIds rows
      → All IsDecoded rows
      → apply_conversations (map (plan_one known) (unchanged_plans rows)) rows
        ≡ written (map (rename_row (renamed_by known)) rows)
  apply_conversations-map rows ids d = apply_conversations-after [] rows (none_done rows) ids d
    where
      none_done :
          (rs : List ConversationRow) → All (λ r. conversations_of r.conversation_id [] ≡ 0) rs
      none_done [] = tt
      none_done (r ∷ rs) = (refl, none_done rs)

-- ===== src/Durable/Moves.antt =====
-- pkg/bus/sqlite.go and sqlite_delivery.go: what a transaction does to the deliveries and the cursors.
use pinakes.Base.{
  ℕ, ◌+◌, ◌≤◌, ◌<◌, String, ◌≡◌, refl, sym, ◌∙◌, subst, ap, Bool, true, false, ◌⊎◌, inl, inr, some,
  [], ◌∷◌, ◌++◌, ◌==◌, All, if◌then◌else◌, if_keeps, eq_refl, arith, eq_iff,
}
use pinakes.Base.Dict.{Dict, lookup_or, insert}
use pinakes.Base.Dict.Laws.{lookup_or-insert, lookup-insert}
use pinakes.Store.Acceptance.{SendAcceptance}
use pinakes.Durable.{
  Tables, Delivery, pending, attempting, Cursor, no_cursor, ensure_cursor, is_open,
}
use pinakes.Durable.Accept.{
  save_message, add_delivery, add_receipt, new_delivery, persist_acceptance, is_push,
}
use pinakes.Durable.Rows.{
  IsKeyed, snoc-IsKeyed, All-snoc, Some, Continues, Carried, Carried-refl, map_All, Some-elim,
}

-- The cursor of a target: the row, or the one that the next delivery would make.
unfoldable pub cursor_of : String → Tables → Cursor
unfolding lookup_or
cursor_of target t = lookup_or no_cursor target t.cursors

-- A row that a send has put at the end of the deliveries of its target.
pub record New (t u : Tables) (e : Delivery) : Type 0 where
  pub seq : e.delivery_seq ≡ (cursor_of e.target_agent_id t).next_seq
  pub counted : e.delivery_seq < (cursor_of e.target_agent_id u).next_seq
  pub started : is_open e.status ≡ true

-- The numbers of the deliveries lie below the next one of their target, so does what it has
-- acknowledged, and the numbers of a target stand once.
pub record Sound (t : Tables) : Type 0 where
  pub below : All (λ d. d.delivery_seq < (cursor_of d.target_agent_id t).next_seq) t.deliveries
  pub ahead : (a : String) → (cursor_of a t).acknowledged_cursor ≤ (cursor_of a t).next_seq
  pub keyed : (a : String) → IsKeyed a t.deliveries

-- The second tables follow the first: each delivery continues one of the first, or is new, and the
-- cursors of a target do not go back.
pub record Moved (t u : Tables) : Type 0 where
  pub rows : All (λ e. Some (λ d. Continues d e) t.deliveries ⊎ New t u e) u.deliveries
  pub numbers : (a : String) → (cursor_of a t).next_seq ≤ (cursor_of a u).next_seq
  pub receipts :
      (a : String) → (cursor_of a t).acknowledged_cursor ≤ (cursor_of a u).acknowledged_cursor
  pub ahead :
      ((a : String) → (cursor_of a t).acknowledged_cursor ≤ (cursor_of a t).next_seq)
      → (a : String) → (cursor_of a u).acknowledged_cursor ≤ (cursor_of a u).next_seq
  pub keyed : Sound t → (a : String) → IsKeyed a u.deliveries

pub Moved-Sound : (t u : Tables) → Sound t → Moved t u → Sound u
Moved-Sound t u sound moved = record {
  below = map_All from u.deliveries moved.rows;
  ahead = moved.ahead sound.ahead;
  keyed = moved.keyed sound;
}
  where
    below :
        (e d : Delivery)
        → d.delivery_seq < (cursor_of d.target_agent_id t).next_seq
        → Continues d e
        → e.delivery_seq < (cursor_of e.target_agent_id u).next_seq
    below e d h c = omega (
      arith,
      h,
      c.seq,
      ap (λ a. (cursor_of a t).next_seq) c.target,
      moved.numbers e.target_agent_id,
    )

    from :
        (e : Delivery)
        → Some (λ d. Continues d e) t.deliveries ⊎ New t u e
        → e.delivery_seq < (cursor_of e.target_agent_id u).next_seq
    from e (inl old) = Some-elim (below e) t.deliveries sound.below old
    from e (inr new) = new.counted

-- A statement that leaves the cursors alone.
pub Carried-Moved :
    (t u : Tables) → u.cursors ≡ t.cursors → Carried t.deliveries u.deliveries → Moved t u
unfolding cursor_of
Carried-Moved t u same carried = record {
  rows = map_All (λ e old. inl old) u.deliveries carried.rows;
  numbers = λ a. omega (arith, ap (λ c. (lookup_or no_cursor a c).next_seq) same);
  receipts = λ a. omega (arith, ap (λ c. (lookup_or no_cursor a c).acknowledged_cursor) same);
  ahead = λ h a.
      subst
        (λ c. (lookup_or no_cursor a c).acknowledged_cursor ≤ (lookup_or no_cursor a c).next_seq)
        (sym same) (h a);
  keyed = λ sound a. carried.keyed a (sound.keyed a);
}

pub cursor_of-ensure :
    (target a : String) (cursors : Dict Cursor)
    → lookup_or no_cursor a (ensure_cursor target cursors) ≡ lookup_or no_cursor a cursors
unfolding ensure_cursor lookup_or
cursor_of-ensure target a cursors =
    ground (arith, lookup-insert target a no_cursor cursors, eq_iff target a)

-- The number that a send to a target takes.
abbrev pub number_of : String → Dict Cursor → ℕ
number_of target cursors = (lookup_or no_cursor target (ensure_cursor target cursors)).next_seq

-- The cursors after a send to a target.
abbrev pub numbered : String → Dict Cursor → Dict Cursor
numbered target cursors =
    let cursor = lookup_or no_cursor target (ensure_cursor target cursors) in
    insert target (record cursor { next_seq = cursor.next_seq + 1 }) (ensure_cursor target cursors)

next_numbered :
    (target a : String) (cursors : Dict Cursor)
    → lookup_or no_cursor a (numbered target cursors) ≡ (
        if target == a
        then record (lookup_or no_cursor a cursors) {
          next_seq = (lookup_or no_cursor a cursors).next_seq + 1;
        }
        else lookup_or no_cursor a cursors)
next_numbered target a cursors = ground (
  arith,
  eq_iff target a,
  cursor_of-ensure target a cursors,
  lookup_or-insert no_cursor target a
      (record (lookup_or no_cursor target (ensure_cursor target cursors)) {
        next_seq = (lookup_or no_cursor target (ensure_cursor target cursors)).next_seq + 1;
      })
      (ensure_cursor target cursors),
)

pub persist_acceptance-tables :
    (window : ℕ) (fault : Bool) (a : SendAcceptance) (t u : Tables)
    → persist_acceptance window fault a t ≡ some u
    → (u.cursors ≡ (if a.message.to == "" then t.cursors else numbered a.message.to t.cursors))
      × (u.deliveries ≡ (
          if a.message.to == ""
          then t.deliveries
          else t.deliveries ++ new_delivery a (number_of a.message.to t.cursors) ∷ []))
unfolding persist_acceptance save_message add_delivery add_receipt
persist_acceptance-tables window fault a t u h = ground arith

is_open_new : (a : SendAcceptance) (seq : ℕ) → is_open (new_delivery a seq).status ≡ true
is_open_new a seq = if_keeps (λ s. is_open s ≡ true) (is_push a) attempting pending refl refl

-- The number of a delivery that stands already is below the new one of its target.
pub lower :
    (new : Delivery) (t : Tables)
    → new.delivery_seq ≡ number_of new.target_agent_id t.cursors
    → (d : Delivery) → d.delivery_seq < (cursor_of d.target_agent_id t).next_seq
    → d.target_agent_id ≡ new.target_agent_id
    → d.delivery_seq < new.delivery_seq
unfolding cursor_of
lower new t n d h same = omega (
  arith,
  h,
  n,
  ap (λ b. (cursor_of b t).next_seq) same,
  ap (λ c. c.next_seq) (cursor_of-ensure new.target_agent_id new.target_agent_id t.cursors),
)

-- A row that is added under the next number of its target.
added-Moved :
    (new : Delivery) (t u : Tables)
    → new.delivery_seq ≡ number_of new.target_agent_id t.cursors
    → is_open new.status ≡ true
    → u.cursors ≡ numbered new.target_agent_id t.cursors
    → u.deliveries ≡ t.deliveries ++ new ∷ []
    → Moved t u
unfolding cursor_of
added-Moved new t u n o c d = record {
  rows = subst (All (λ e. Some (λ d. Continues d e) t.deliveries ⊎ New t u e)) (sym d) (
      All-snoc _ t.deliveries new
        (map_All (λ e old. inl old) t.deliveries (Carried-refl t.deliveries).rows)
        (inr (record {
          seq =
              n
              ∙ ap (λ c. c.next_seq)
                  (cursor_of-ensure new.target_agent_id new.target_agent_id t.cursors);
          counted = ground (
            arith,
            n,
            after new.target_agent_id,
            cursor_of-ensure new.target_agent_id new.target_agent_id t.cursors,
            eq_refl new.target_agent_id,
          );
          started = o;
        })));
  numbers = λ b. ground (arith, after b);
  receipts = λ b. ground (arith, after b);
  ahead = λ h b. ground (arith, after b, h b);
  keyed = λ sound b. subst (IsKeyed b) (sym d) (
      snoc-IsKeyed b t.deliveries new (sound.keyed b)
        (map_All (lower new t n) t.deliveries sound.below));
}
  where
    after :
        (b : String)
        → lookup_or no_cursor b u.cursors ≡ (
            if new.target_agent_id == b
            then record (lookup_or no_cursor b t.cursors) {
              next_seq = (lookup_or no_cursor b t.cursors).next_seq + 1;
            }
            else lookup_or no_cursor b t.cursors)
    after b = ap (lookup_or no_cursor b) c ∙ next_numbered new.target_agent_id b t.cursors

-- A transaction that adds a row, or leaves the deliveries and cursors as they are.
pub unless_added-Moved :
    (stays : Bool) (new : Delivery) (t u : Tables)
    → new.delivery_seq ≡ number_of new.target_agent_id t.cursors
    → is_open new.status ≡ true
    → u.cursors ≡ (if stays then t.cursors else numbered new.target_agent_id t.cursors)
    → u.deliveries ≡ (if stays then t.deliveries else t.deliveries ++ new ∷ [])
    → Moved t u
unless_added-Moved true new t u n o c d =
    Carried-Moved t u c (subst (Carried t.deliveries) (sym d) (Carried-refl t.deliveries))
unless_added-Moved false new t u n o c d = added-Moved new t u n o c d

pub persist_acceptance-Moved :
    (window : ℕ) (fault : Bool) (a : SendAcceptance) (t u : Tables)
    → persist_acceptance window fault a t ≡ some u
    → Moved t u
persist_acceptance-Moved window fault a t u h =
    let tables = persist_acceptance-tables window fault a t u h in
    unless_added-Moved (a.message.to == "") (new_delivery a (number_of a.message.to t.cursors)) t u
      refl (is_open_new a (number_of a.message.to t.cursors)) tables.0 tables.1

-- ===== src/Durable/Looked.antt =====
-- pkg/bus/sqlite_delivery.go: what a look does to the deliveries and the cursors.
use pinakes.Base.{
  ℕ, ◌≤◌, String, ◌≡◌, sym, ◌∙◌, subst, ap, Bool, inl, some, List, ◌==◌, ◌&&◌, if◌then◌else◌,
  if_keeps, arith, ltb, eq_iff,
}
use pinakes.Base.Int.{ℤ, pos, negsuc}
use pinakes.Base.Dict.{Dict, lookup_or, insert}
use pinakes.Base.Dict.Laws.{lookup_or-insert}
use pinakes.Config.{Config}
use pinakes.Durable.{Tables, Delivery, Cursor, no_cursor, ensure_cursor, received_row, update_where}
use pinakes.Durable.Read.{
  read_durable_inbox, Look, bounded_cursor, acknowledge, offer_from, receipted_by,
}
use pinakes.Durable.Rows.{Carried, Carried-refl, map_All}
use pinakes.Durable.Moves.{cursor_of, cursor_of-ensure, Moved}
use pinakes.Durable.Transactions.{receipts-Carried}

bounded_cursor_le : (requested : ℤ) (c : Cursor) → bounded_cursor requested c ≤ c.next_seq
unfolding bounded_cursor
bounded_cursor_le (pos n) c = ground arith
bounded_cursor_le (negsuc n) c = ground arith

-- The row of the cursor of an agent that polls, and the place of its request.
abbrev row_of : String → Tables → Cursor
row_of agent_id t = lookup_or no_cursor agent_id (ensure_cursor agent_id t.cursors)

abbrev row_place : String → ℤ → Tables → ℕ
row_place agent_id requested t = bounded_cursor requested (row_of agent_id t)

looked-tables :
    (cfg : Config) (now : ℕ) (fault : Bool) (agent_id : String) (requested limit : ℤ) (t : Tables)
    (look : Look)
    → read_durable_inbox cfg now fault agent_id requested limit t ≡ some look
    → (look.tables.cursors ≡ (
        if ltb (row_of agent_id t).acknowledged_cursor (row_place agent_id requested t)
        then insert agent_id
            (record (row_of agent_id t) { acknowledged_cursor = row_place agent_id requested t })
            (ensure_cursor agent_id t.cursors)
        else ensure_cursor agent_id t.cursors))
      × (look.tables.deliveries ≡ (
          if ltb (row_of agent_id t).acknowledged_cursor (row_place agent_id requested t)
          then update_where
              (receipted_by agent_id (row_place agent_id requested t))
              (received_row now)
              t.deliveries
          else t.deliveries))
unfolding read_durable_inbox acknowledge offer_from
looked-tables cfg now fault agent_id requested limit t look h = ground arith

looked-rows :
    (now : ℕ) (agent_id : String) (cursor : ℕ) (moves : Bool) (ds : List Delivery)
    → Carried ds
        (if moves then update_where (receipted_by agent_id cursor) (received_row now) ds else ds)
looked-rows now agent_id cursor moves ds =
    if_keeps (Carried ds) moves (update_where (receipted_by agent_id cursor) (received_row now) ds)
      ds (receipts-Carried now (receipted_by agent_id cursor) ds (λ d hit. ground arith))
      (Carried-refl ds)

looked-cursor :
    (agent_id a : String) (c : Cursor) (row_place : ℕ) (moves : Bool) (cursors : Dict Cursor)
    → lookup_or no_cursor a (
        if moves
        then insert agent_id
            (record c { acknowledged_cursor = row_place })
            (ensure_cursor agent_id cursors)
        else ensure_cursor agent_id cursors)
      ≡ (if moves && (agent_id == a)
          then record c { acknowledged_cursor = row_place }
          else lookup_or no_cursor a cursors)
looked-cursor agent_id a c row_place moves cursors = ground (
  arith,
  cursor_of-ensure agent_id a cursors,
  eq_iff agent_id a,
  lookup_or-insert no_cursor agent_id a (record c { acknowledged_cursor = row_place })
      (ensure_cursor agent_id cursors),
)

pub looked-Moved :
    (cfg : Config) (now : ℕ) (fault : Bool) (agent_id : String) (requested limit : ℤ) (t : Tables)
    (look : Look)
    → read_durable_inbox cfg now fault agent_id requested limit t ≡ some look
    → Moved t look.tables
unfolding cursor_of
looked-Moved cfg now fault agent_id requested limit t look h = record {
  rows = map_All (λ e old. inl old) look.tables.deliveries carried.rows;
  keyed = λ sound a. carried.keyed a (sound.keyed a);
  numbers = λ a. ground (arith, after a, cursor_of-ensure agent_id a t.cursors, eq_iff agent_id a);
  receipts = λ a. ground (arith, after a, cursor_of-ensure agent_id a t.cursors, eq_iff agent_id a);
  ahead = λ ahead a. ground (
    arith,
    after a,
    ahead a,
    bounded_cursor_le requested (row_of agent_id t),
    cursor_of-ensure agent_id a t.cursors,
    eq_iff agent_id a,
  );
}
  where
    carried : Carried t.deliveries look.tables.deliveries
    carried =
        subst (Carried t.deliveries)
          (sym (looked-tables cfg now fault agent_id requested limit t look h).1)
          (looked-rows now agent_id (row_place agent_id requested t)
            (ltb (row_of agent_id t).acknowledged_cursor (row_place agent_id requested t))
            t.deliveries)

    after :
        (a : String)
        → lookup_or no_cursor a look.tables.cursors ≡ (
            if ltb (row_of agent_id t).acknowledged_cursor (row_place agent_id requested t)
              && (agent_id == a)
            then record (row_of agent_id t) { acknowledged_cursor = row_place agent_id requested t }
            else lookup_or no_cursor a t.cursors)
    after a =
        ap (lookup_or no_cursor a) (looked-tables cfg now fault agent_id requested limit t look h).0
        ∙ looked-cursor agent_id a (row_of agent_id t) (row_place agent_id requested t)
            (ltb (row_of agent_id t).acknowledged_cursor (row_place agent_id requested t)) t.cursors

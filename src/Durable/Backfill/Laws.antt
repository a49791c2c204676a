-- ===== src/Durable/Backfill/Laws.antt =====
-- pkg/bus/sqlite_delivery.go: the backfill of an old database leaves its tables sound.
use pinakes.Base.{
  ℕ, ◌≡◌, Bool, true, false, not, List, [], ◌∷◌, ◌++◌, ltb, Option, none, some, select, refl,
  if◌then◌else◌, arith, subst,
}
use pinakes.Types.{Message}
use pinakes.Config.{Config}
use pinakes.Durable.{Tables, Receipt}
use pinakes.Durable.Accept.{◌>>=◌}
use pinakes.Durable.Moves.{
  Sound, Moved, Moved-Sound, cursor_of, number_of, numbered, unless_added-Moved,
}
use pinakes.Durable.Backfill.{
  legacy_expiry, legacy_delivery, backfill_delivery, backfill_deliveries, lacks_delivery, in_order,
  stored, fill_state, backfill_legacy_delivery_state,
}

backfill_delivery-tables :
    (cfg : Config) (now : ℕ) (m : Message) (t u : Tables)
    → backfill_delivery cfg now m t ≡ some u
    → (u.cursors
        ≡ (if not (ltb now (legacy_expiry cfg m)) then t.cursors else numbered m.to t.cursors))
      × (u.deliveries ≡ (
          if not (ltb now (legacy_expiry cfg m))
          then t.deliveries
          else t.deliveries ++ legacy_delivery cfg m (number_of m.to t.cursors) ∷ []))
unfolding backfill_delivery
backfill_delivery-tables cfg now m t u h = ground arith

backfill_delivery-Moved :
    (cfg : Config) (now : ℕ) (m : Message) (t u : Tables)
    → backfill_delivery cfg now m t ≡ some u
    → Moved t u
backfill_delivery-Moved cfg now m t u h =
    let tables = backfill_delivery-tables cfg now m t u h in
    unless_added-Moved (not (ltb now (legacy_expiry cfg m)))
      (legacy_delivery cfg m (number_of m.to t.cursors)) t u refl refl tables.0 tables.1

-- A chain that has a result has one at its first step.
>>=-some :
    {A B : Type 0} (o : Option A) (f : A → Option B) (b : B)
    → (o >>= f) ≡ some b
    → (a : A) × (o ≡ some a) × (f a ≡ some b)
>>=-some none f b h = cc
>>=-some (some a) f b h = (a, refl, h)

some_inj : {A : Type 0} (a b : A) → some a ≡ some b → a ≡ b
some_inj a b h = cc

backfill_deliveries-Sound :
    (cfg : Config) (now : ℕ) (ms : List Message) (t u : Tables)
    → backfill_deliveries cfg now ms t ≡ some u
    → Sound t
    → Sound u
unfolding backfill_deliveries
backfill_deliveries-Sound cfg now [] t u h sound = subst Sound (some_inj t u h) sound
backfill_deliveries-Sound cfg now (m ∷ ms) t u h sound =
    let (v, first, rest) =
      >>=-some (backfill_delivery cfg now m t) (λ v. backfill_deliveries cfg now ms v) u h in
    backfill_deliveries-Sound cfg now ms v u rest
      (Moved-Sound t v sound (backfill_delivery-Moved cfg now m t v first))

-- Of a receipt that is put aside for the deliveries and the cursors.
Sound-receipts : (t : Tables) (rs : List Receipt) → Sound t → Sound (record t { receipts = rs })
unfolding cursor_of
Sound-receipts t rs sound = record { below = sound.below; ahead = sound.ahead; keyed = sound.keyed }

finished :
    (fault : Bool) (v u : Tables) (rs : List Receipt)
    → (if fault then none else some (record v { receipts = rs })) ≡ some u
    → Sound v
    → Sound u
finished true v u rs h sound = cc
finished false v u rs h sound =
    subst Sound (some_inj (record v { receipts = rs }) u h) (Sound-receipts v rs sound)

fill_state-Sound :
    (cfg : Config) (now : ℕ) (fault : Bool) (t u : Tables)
    → fill_state cfg now fault t ≡ some u
    → Sound t
    → Sound u
unfolding fill_state
fill_state-Sound cfg now fault t u h sound =
    let (v, first, rest) =
      >>=-some
        (backfill_deliveries cfg now
          (in_order (select (lacks_delivery t.deliveries) (stored t.messages))) t)
        _ u h in
    finished fault v u _ rest (
      backfill_deliveries-Sound cfg now
        (in_order (select (lacks_delivery t.deliveries) (stored t.messages))) t v first sound)

-- A start on an old database leaves its tables sound.
pub backfill_legacy_delivery_state-Sound :
    (cfg : Config) (now : ℕ) (applied fault : Bool) (t u : Tables)
    → backfill_legacy_delivery_state cfg now applied fault t ≡ some u
    → Sound t
    → Sound u
unfolding backfill_legacy_delivery_state
backfill_legacy_delivery_state-Sound cfg now true fault t u h sound =
    subst Sound (some_inj t u h) sound
backfill_legacy_delivery_state-Sound cfg now false fault t u h sound =
    fill_state-Sound cfg now fault t u h sound

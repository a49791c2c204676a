-- ===== src/Durable/Rows.antt =====
-- pkg/bus/sqlite_delivery.go: what an UPDATE or a DELETE of deliveries does to the rows.
use pinakes.Base.{
  String, ℕ, ◌<◌, ◌≢◌, ◌++◌, if◌then◌else◌, if_keeps, arith, sym, ◌≡◌, refl, ◌∙◌, subst, Bool, true,
  Bool-cases, ◌⊎◌, inl, inr, List, [], ◌∷◌, All, select,
}
use pinakes.Durable.{Delivery, is_open, update_where}

-- A property of one element of a list.
abbrev pub Some : {A : Type 0} → (A → Type 0) → List A → Type 0
Some P [] = ⊥
Some P (x ∷ xs) = P x ⊎ Some P xs

-- The second row continues the first: it is the same delivery, and the same row if the first was
-- received or failed.
pub record Continues (d e : Delivery) : Type 0 where
  pub target : e.target_agent_id ≡ d.target_agent_id
  pub seq : e.delivery_seq ≡ d.delivery_seq
  pub message : e.message_id ≡ d.message_id
  pub final : (is_open d.status ≡ true) ⊎ (e ≡ d)

pub Continues-refl : (d : Delivery) → Continues d d
Continues-refl d = record { target = refl; seq = refl; message = refl; final = inr refl }

pub Continues-trans : (d e f : Delivery) → Continues d e → Continues e f → Continues d f
Continues-trans d e f p q = record {
  target = q.target ∙ p.target;
  seq = q.seq ∙ p.seq;
  message = q.message ∙ p.message;
  final = both p.final q.final;
}
  where
    both :
        (is_open d.status ≡ true) ⊎ (e ≡ d)
        → (is_open e.status ≡ true) ⊎ (f ≡ e)
        → (is_open d.status ≡ true) ⊎ (f ≡ d)
    both (inl h) k = inl h
    both (inr h) (inl k) = inl (subst (λ x. is_open x.status ≡ true) h k)
    both (inr h) (inr k) = inr (k ∙ h)

-- PRIMARY KEY (target_agent_id, delivery_seq), for the rows of one target.
abbrev pub IsKeyed : String → List Delivery → Type 0
IsKeyed target [] = Unit
IsKeyed target (d ∷ ds) =
    (d.target_agent_id ≡ target
      → All (λ e. e.target_agent_id ≡ target → e.delivery_seq ≢ d.delivery_seq) ds)
    × IsKeyed target ds

-- Each row of the second list continues one of the first, and the key of a target still stands once.
pub record Carried (ds es : List Delivery) : Type 0 where
  pub rows : All (λ e. Some (λ d. Continues d e) ds) es
  pub keyed : (a : String) → IsKeyed a ds → IsKeyed a es

-- What holds of every element and of one gives what both give.
pub Some-elim :
    {A : Type 0} {P Q : A → Type 0} {R : Type 0}
    → ((x : A) → P x → Q x → R)
    → (xs : List A) → All P xs
    → Some Q xs
    → R
Some-elim f [] all some = elim some [ ]
Some-elim f (x ∷ xs) all (inl q) = f x all.0 q
Some-elim f (x ∷ xs) all (inr more) = Some-elim f xs all.1 more

pub map_All :
    {A : Type 0} {P Q : A → Type 0} → ((x : A) → P x → Q x) → (xs : List A) → All P xs → All Q xs
map_All f [] all = tt
map_All f (x ∷ xs) all = (f x all.0, map_All f xs all.1)

map_Some :
    {A : Type 0} {P Q : A → Type 0} → ((x : A) → P x → Q x) → (xs : List A) → Some P xs → Some Q xs
map_Some f [] some = elim some [ ]
map_Some f (x ∷ xs) (inl p) = inl (f x p)
map_Some f (x ∷ xs) (inr more) = inr (map_Some f xs more)

-- The row does not have the number at the target.
abbrev pub Lacks : String → ℕ → Delivery → Type 0
Lacks target seq e = e.target_agent_id ≡ target → e.delivery_seq ≢ seq

Lacks-Continues :
    (a : String) (seq : ℕ) (d e : Delivery) → Lacks a seq d → Continues d e → Lacks a seq e
Lacks-Continues a seq d e lacks c same eq = lacks (sym c.target ∙ same) (sym c.seq ∙ eq)

-- A list that goes on with a row that continues the first.
more_rows :
    (d : Delivery) (ds es : List Delivery)
    → All (λ e. Some (λ x. Continues x e) ds) es
    → All (λ e. Some (λ x. Continues x e) (d ∷ ds)) es
more_rows d ds es all = map_All (λ e old. inr old) es all

Carried-cons :
    (d e : Delivery) (ds es : List Delivery)
    → Continues d e
    → Carried ds es
    → Carried (d ∷ ds) (e ∷ es)
Carried-cons d e ds es c carried = record {
  rows = (inl c, more_rows d ds es carried.rows);
  keyed = λ a key. (
    (λ same.
        map_All
          (λ x old.
            Some-elim
              (λ y lacks to.
                λ also eq. Lacks-Continues a d.delivery_seq y x lacks to also (eq ∙ c.seq))
              ds (key.0 (sym c.target ∙ same)) old)
          es carried.rows),
    carried.keyed a key.1,
  );
}

Carried-drop : (d : Delivery) (ds es : List Delivery) → Carried ds es → Carried (d ∷ ds) es
Carried-drop d ds es carried = record {
  rows = more_rows d ds es carried.rows;
  keyed = λ a key. carried.keyed a key.1;
}

Carried-nil : Carried [] []
Carried-nil = record { rows = tt; keyed = λ a key. tt }

pub Carried-refl : (ds : List Delivery) → Carried ds ds
Carried-refl [] = Carried-nil
Carried-refl (d ∷ ds) = Carried-cons d d ds ds (Continues-refl d) (Carried-refl ds)

pub Carried-trans : (ds es fs : List Delivery) → Carried ds es → Carried es fs → Carried ds fs
Carried-trans ds es fs p q = record {
  rows = map_All through fs q.rows;
  keyed = λ a key. q.keyed a (p.keyed a key);
}
  where
    through : (f : Delivery) → Some (λ e. Continues e f) es → Some (λ d. Continues d f) ds
    through f old =
        Some-elim (λ e from to. map_Some (λ d h. Continues-trans d e f h to) ds from) es p.rows old

-- An update of rows that continues each row that it finds.
pub update_where-Carried :
    (p : Delivery → Bool) (f : Delivery → Delivery)
    → ((d : Delivery) → p d ≡ true → Continues d (f d))
    → (ds : List Delivery) → Carried ds (update_where p f ds)
update_where-Carried p f keeps [] = Carried-nil
update_where-Carried p f keeps (d ∷ ds) =
    Carried-cons d (if p d then f d else d) ds (update_where p f ds)
      (elim (Bool-cases (p d)) [
        | inl hit ↦ rw hit (keeps d hit)
        | inr miss ↦ rw miss (Continues-refl d)
      ])
      (update_where-Carried p f keeps ds)

pub select-Carried : (p : Delivery → Bool) (ds : List Delivery) → Carried ds (select p ds)
select-Carried p [] = Carried-nil
select-Carried p (d ∷ ds) =
    if_keeps (Carried (d ∷ ds)) (p d) (d ∷ select p ds) (select p ds)
      (Carried-cons d d ds (select p ds) (Continues-refl d) (select-Carried p ds))
      (Carried-drop d ds (select p ds) (select-Carried p ds))

pub All-snoc :
    (P : Delivery → Type 0) (xs : List Delivery) (y : Delivery)
    → All P xs
    → P y
    → All P (xs ++ y ∷ [])
All-snoc P [] y all p = (p, tt)
All-snoc P (x ∷ xs) y all p = (all.0, All-snoc P xs y all.1 p)

-- A row that is added under a number past those of its target.
pub snoc-IsKeyed :
    (a : String) (ds : List Delivery) (new : Delivery)
    → IsKeyed a ds
    → All (λ d. d.target_agent_id ≡ new.target_agent_id → d.delivery_seq < new.delivery_seq) ds
    → IsKeyed a (ds ++ new ∷ [])
snoc-IsKeyed a [] new key below = ((λ same. tt), tt)
snoc-IsKeyed a (d ∷ ds) new key below = (
  (λ same.
      All-snoc (Lacks a d.delivery_seq) ds new (key.0 same)
        (λ also eq. omega (arith, eq, below.0 (same ∙ sym also)))),
  snoc-IsKeyed a ds new key.1 below.1,
)

-- ===== src/Migrate.antt =====
-- internal/nsmigrate: the migration of agent identities into namespaces. The types and the refusals
-- of manifest.go; the children read, write, invert and apply a manifest.
pub mod Rows
pub mod Manifest
pub mod Inspect
pub mod Plan
pub mod Apply
use pinakes.Base.{ℕ, String, Bool, true, false, List, [], ◌∷◌, ◌≡◌, ◌⊎◌, inl, inr, refl}

pub data Authority : Type 0 where
  jk ucla : Authority

abbrev pub authority_text : Authority → String
authority_text jk = "jk"
authority_text ucla = "ucla"

pub data Disposition : Type 0 where
  migrate retire split unchanged : Disposition

abbrev pub disposition_text : Disposition → String
disposition_text migrate = "migrate"
disposition_text retire = "retire"
disposition_text split = "split"
disposition_text unchanged = "unchanged"

pub record ManifestRow : Type 0 where
  pub source_authority : Authority
  pub source_id : String
  pub target_id : String
  pub disposition : Disposition
  pub owner_repo : String
  pub evidence : String
  pub control_plane : Bool
  pub line : ℕ

pub record Refusal : Type 0 where
  pub code : String
  pub location : String
  pub detail : String

-- A value, or a RefusalError with its refusals.
pub data Outcome {ℓ} (A : Type ℓ) : Type ℓ where
  accepted : A → Outcome A
  refused : List Refusal → Outcome A

unfoldable pub refuse {ℓ} : {A : Type ℓ} → String → String → String → Outcome A
refuse code location detail =
    refused (record { code = code; location = location; detail = detail } ∷ [])

infixl 5 ◌>>=◌ ◌>>◌
abbrev pub ◌>>=◌ {ℓ κ} : {A : Type ℓ} {B : Type κ} → Outcome A → (A → Outcome B) → Outcome B
accepted a >>= f = f a
refused e >>= f = refused e

abbrev pub ◌>>◌ {ℓ κ} : {A : Type ℓ} {B : Type κ} → Outcome A → Outcome B → Outcome B
m >> k = m >>= λ _. k

-- A guard: refuses where the test holds.
abbrev pub refuse_if : Bool → String → String → String → Outcome (Unit {0})
refuse_if true code location detail = refuse code location detail
refuse_if false code location detail = accepted tt

-- What an accepted chain passed through.
pub >>=-eq-accepted {ℓ κ} :
    {A : Type ℓ} {B : Type κ} (m : Outcome A) (f : A → Outcome B) {b : B}
    → (m >>= f) ≡ accepted b
    → (a : A) × (m ≡ accepted a) × (f a ≡ accepted b)
>>=-eq-accepted (accepted a) f h = (a, refl, h)
>>=-eq-accepted (refused e) f h = cc

pub refuse_if-eq-accepted {ℓ} :
    {B : Type ℓ} (t : Bool) (code location detail : String) (k : Outcome B) {b : B}
    → (refuse_if t code location detail >> k) ≡ accepted b
    → (t ≡ false) × (k ≡ accepted b)
unfolding refuse
refuse_if-eq-accepted true code location detail k h = cc
refuse_if-eq-accepted false code location detail k h = (refl, h)

pub accepted-inj : {A : Type 0} {a b : A} → Outcome.accepted a ≡ accepted b → a ≡ b
accepted-inj h = cc

pub Outcome-cases :
    {A : Type 0} (o : Outcome A)
    → ((a : A) × (o ≡ accepted a)) ⊎ ((e : List Refusal) × (o ≡ refused e))
Outcome-cases (accepted a) = inl (a, refl)
Outcome-cases (refused e) = inr (e, refl)

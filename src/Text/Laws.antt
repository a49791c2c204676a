-- ===== src/Text/Laws.antt =====
-- Trimming twice is trimming once: a stored name needs no second TrimSpace.
use Prim.Native.Char.{Char, code}
use pinakes.Base.{String, Bool, true, false, not, ◌≡◌, refl, ap, ◌∙◌, arith, Bool-cases, inl, inr}
use pinakes.Text.{is_space, trim_left, trim_right, trim_space, put_unless_space}

abbrev tight_left : String → Bool
tight_left String.[] = true
tight_left (String.◌∷◌ c s) = not (is_space (code c))

tight_left-trim_left : (s : String) → tight_left (trim_left s) ≡ true
unfolding trim_left
tight_left-trim_left String.[] = refl
tight_left-trim_left (String.◌∷◌ c s) = ground (arith, tight_left-trim_left s)

trim_left-eq_self : (s : String) → tight_left s ≡ true → trim_left s ≡ s
unfolding trim_left
trim_left-eq_self String.[] h = refl
trim_left-eq_self (String.◌∷◌ c s) h = ground arith

trim_right-put :
    (c : Char) (s : String)
    → trim_right s ≡ s
    → trim_right (put_unless_space c s) ≡ put_unless_space c s
unfolding trim_right
trim_right-put c String.[] h = elim (Bool-cases (is_space (code c))) [
  | inl space ↦ rw space
  | inr other ↦ rw other (rw other)
]
trim_right-put c (String.◌∷◌ d s) h = rw h

trim_right-trim_right : (s : String) → trim_right (trim_right s) ≡ trim_right s
unfolding trim_right
trim_right-trim_right String.[] = refl
trim_right-trim_right (String.◌∷◌ c s) = trim_right-put c (trim_right s) (trim_right-trim_right s)

tight_left-put :
    (c : Char) (s : String) → is_space (code c) ≡ false → tight_left (put_unless_space c s) ≡ true
tight_left-put c String.[] h = rw (h, put_unless_space) (rw h)
tight_left-put c (String.◌∷◌ d s) h = rw h

-- What has no space at its left end has none after trimming its right end.
tight_left-trim_right : (s : String) → tight_left s ≡ true → tight_left (trim_right s) ≡ true
unfolding trim_right
tight_left-trim_right String.[] h = refl
tight_left-trim_right (String.◌∷◌ c s) h = tight_left-put c (trim_right s) (ground arith)

pub trim_space-trim_space : (s : String) → trim_space (trim_space s) ≡ trim_space s
unfolding trim_space
trim_space-trim_space s =
    ap trim_right (
      trim_left-eq_self (trim_right (trim_left s))
        (tight_left-trim_right (trim_left s) (tight_left-trim_left s)))
    ∙ trim_right-trim_right (trim_left s)

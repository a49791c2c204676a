-- ===== src/Text/Decimal.antt =====
-- The counters of the bus in decimal, as `fmt` prints them.
use Prim.Native.Char.{Char, code}
use Prim.Native.String.{char_at, ◌++◌}
use text.Mathlib.TextLemmas.{cons-append, nil-append}
use pinakes.Base.{
  ℕ, String, zero, suc, ◌+◌, ◌-◌, ◌*◌, ◌/◌, ◌%◌, ◌<◌, ◌≡◌, refl, sym, ap, ◌∙◌, arith, ltb, ltb→lt,
  Bool-cases, inl, inr, if◌then◌else◌,
}

unfoldable pub digit : ℕ → Char
digit d = char_at "0123456789" d

-- `more` holds the digits already printed; the fuel is the number itself.
unfoldable pub digits : ℕ → ℕ → String → String
digits zero n more = String.◌∷◌ (digit (n % 10)) more
digits (suc f) n more =
    let rest = digits f (n / 10) (String.◌∷◌ (digit (n % 10)) more) in
    if ltb n 10 then String.◌∷◌ (digit n) more else rest

-- strconv.FormatInt(n, 10), n not negative
unfoldable pub format_int : ℕ → String
unfolding digits digit
format_int n = digits n n ""

zeros : ℕ → String
zeros zero = ""
zeros (suc k) = String.◌∷◌ "0" (zeros k)

-- fmt.Sprintf("%06d", n)
unfoldable pub format_padded : ℕ → String
unfolding format_int zeros
format_padded n = zeros (6 - Prim.Native.String.count (format_int n)) ++ format_int n

-- The number that a run of digits stands for.
value : ℕ → String → ℕ
value acc String.[] = acc
value acc (String.◌∷◌ c s) = value (acc * 10 + (code c - 48)) s

code-digit : (d : ℕ) → d < 10 → code (digit d) ≡ 48 + d
unfolding digit
code-digit zero h = refl
code-digit (suc zero) h = refl
code-digit (suc (suc zero)) h = refl
code-digit (suc (suc (suc zero))) h = refl
code-digit (suc (suc (suc (suc zero)))) h = refl
code-digit (suc (suc (suc (suc (suc zero))))) h = refl
code-digit (suc (suc (suc (suc (suc (suc zero)))))) h = refl
code-digit (suc (suc (suc (suc (suc (suc (suc zero))))))) h = refl
code-digit (suc (suc (suc (suc (suc (suc (suc (suc zero)))))))) h = refl
code-digit (suc (suc (suc (suc (suc (suc (suc (suc (suc zero))))))))) h = refl
code-digit (suc (suc (suc (suc (suc (suc (suc (suc (suc (suc d)))))))))) h = absurd (omega arith)

value-digit :
    (acc d : ℕ) (s : String) → d < 10 → value acc (String.◌∷◌ (digit d) s) ≡ value (acc * 10 + d) s
unfolding value
value-digit acc d s h = rw (code-digit d h) (ap (λ (k : ℕ). value k s) (omega arith))

-- Reading what `digits` prints gives the number, followed by what was printed before.
value-digits : (f n : ℕ) (more : String) → n < suc f → value 0 (digits f n more) ≡ value n more
unfolding digits
value-digits zero n more h =
    value-digit 0 (n % 10) more (omega arith) ∙ ap (λ (k : ℕ). value k more) (omega arith)
value-digits (suc f) n more h = elim (Bool-cases (ltb n 10)) [
  | inl small ↦
      rw small
        (value-digit 0 n more (ltb→lt n 10 small) ∙ ap (λ (k : ℕ). value k more) (omega arith))
  | inr big ↦ rw big (
      value-digits f (n / 10) _ (omega (arith, h))
      ∙ value-digit (n / 10) (n % 10) more (omega arith)
      ∙ ap (λ (k : ℕ). value k more) (omega arith))
]

value-zeros : (k : ℕ) (s : String) → value 0 (zeros k ++ s) ≡ value 0 s
unfolding zeros value
value-zeros zero s = ap (value 0) (nil-append s)
value-zeros (suc k) s = ap (value 0) (cons-append "0" (zeros k) s) ∙ value-zeros k s

value-format_padded : (n : ℕ) → value 0 (format_padded n) ≡ n
unfolding format_padded value
value-format_padded n =
    value-zeros (6 - Prim.Native.String.count (format_int n)) (format_int n)
    ∙ value-digits n n "" (omega arith)

-- Two counters that print as the same padded decimal are equal, so that ids of messages and
-- conversations do not collide.
pub format_padded-inj : (m n : ℕ) → format_padded m ≡ format_padded n → m ≡ n
format_padded-inj m n h = sym (value-format_padded m) ∙ ap (value 0) h ∙ value-format_padded n

padded : format_padded 42 ≡ "000042"
unfolding format_padded
padded = refl

-- ===== src/Store/Inbox/Budget.antt =====
-- The eviction count: it meets the budgets, keeps the newest item, and drops no more than it must.
use pinakes.Base.{
  ℕ, zero, suc, ◌-◌, ◌≤◌, ◌<◌, ◌≡◌, ap, ◌∙◌, ◌⊎◌, inl, inr, List, [], ◌∷◌, total, length,
  length-drop, drop-add, take, drop, total-take-drop, ltb, arith, Bool-cases, ltb→lt,
}
use pinakes.Store.Inbox.{evict, evict_count, over_count, drop_count}

module _ {ℓ} {A : Type ℓ} (size : A → ℕ) where
  evict-lt : (m r : ℕ) (xs : List A) → 0 < length xs → evict size m r xs < length xs
  unfolding evict
  evict-lt m r [] h = absurd (omega arith)
  evict-lt m r (x ∷ []) h = omega arith
  evict-lt m r (x ∷ y ∷ ys) h = ground (arith, evict-lt m (r - size x) (y ∷ ys))

  -- Within the bytes, or only one item left.
  evict_fits :
      (m r : ℕ) (xs : List A)
      → r ≡ total size xs
      → (total size (drop (evict size m r xs) xs) ≤ m) ⊎ (length (drop (evict size m r xs) xs) ≤ 1)
  unfolding evict
  evict_fits m r [] e = inr (omega arith)
  evict_fits m r (x ∷ []) e = inr (omega arith)
  evict_fits m r (x ∷ y ∷ ys) e =
      let rest = evict_fits m (r - size x) (y ∷ ys) (omega arith) in
      elim (Bool-cases (ltb m r)) [
        | inl big ↦ rw big rest
        | inr small ↦ rw small (inl (ground arith))
      ]

  -- Every smaller count leaves too many bytes.
  evict_least :
      (m r j : ℕ) (xs : List A)
      → r ≡ total size xs
      → j < evict size m r xs
      → m < total size (drop j xs)
  unfolding evict
  evict_least m r j [] e h = absurd (omega arith)
  evict_least m r j (x ∷ []) e h = absurd (omega arith)
  evict_least m r zero (x ∷ y ∷ ys) e h = ground arith
  evict_least m r (suc j) (x ∷ y ∷ ys) e h = ground (arith, evict_least m (r - size x) j (y ∷ ys))

-- The two budgets, of which 0 is none.
pub record Fits {ℓ} {A : Type ℓ} (size : A → ℕ) (max_events max_bytes : ℕ) (xs : List A)
    : Type 0 where
  pub count : 0 < max_events → length xs ≤ max_events
  pub bytes : 0 < max_bytes → (total size xs ≤ max_bytes) ⊎ (length xs ≤ 1)

module _ {ℓ} {A : Type ℓ} where
  over_count-lt : (me : ℕ) (xs : List A) → 0 < length xs → over_count me xs < length xs
  unfolding over_count
  over_count-lt me xs h = ground arith

  over_count_fits : (me : ℕ) (xs : List A) → 0 < me → length xs - over_count me xs ≤ me
  unfolding over_count
  over_count_fits me xs h = ground arith

  over_count_least :
      (me j : ℕ) (xs : List A) → j < over_count me xs → (0 < me) × (me < length xs - j)
  unfolding over_count
  over_count_least me j xs h = ground arith

module _ {ℓ} {A : Type ℓ} (size : A → ℕ) where
  -- What is left in bytes after the count has had its way.
  left-eq_total :
      (n : ℕ) (xs : List A) → total size xs - total size (take n xs) ≡ total size (drop n xs)
  left-eq_total n xs = omega (arith, total-take-drop size n xs)

  evict_count-lt : (mb r : ℕ) (xs : List A) → 0 < length xs → evict_count size mb r xs < length xs
  unfolding evict_count
  evict_count-lt mb r xs h = ground (arith, evict-lt size mb r xs)

  evict_count_least :
      (mb r j : ℕ) (xs : List A)
      → r ≡ total size xs
      → j < evict_count size mb r xs
      → (0 < mb) × (mb < total size (drop j xs)) × (1 < length (drop j xs))
  unfolding evict_count evict
  evict_count_least mb r j [] e h = ground arith
  evict_count_least mb r j (x ∷ xs) e h =
      ground (
        arith,
        evict_least size mb r j (x ∷ xs),
        evict-lt size mb r (x ∷ xs),
        length-drop j (x ∷ xs),
      )

  evict_count_fits :
      (mb r : ℕ) (xs : List A)
      → r ≡ total size xs
      → 0 < mb
      → (total size (drop (evict_count size mb r xs) xs) ≤ mb)
        ⊎ (length (drop (evict_count size mb r xs) xs) ≤ 1)
  unfolding evict_count
  evict_count_fits mb r xs e h = ground (arith, evict_fits size mb r xs e)

module _ {ℓ} {A : Type ℓ} (size : A → ℕ) (me mb : ℕ) where
  -- The newest item stays.
  pub drop_count-lt :
      (xs : List A) → 0 < length xs → drop_count size me mb (total size xs) xs < length xs
  unfolding drop_count
  drop_count-lt xs h =
      let o = over_count me xs in
      omega (
        arith,
        over_count-lt me xs h,
        length-drop o xs,
        evict_count-lt size mb (total size xs - total size (take o xs)) (drop o xs)
            (omega (arith, length-drop o xs, over_count-lt me xs h)),
      )

  pub drop_count-Fits :
      (xs : List A) → Fits size me mb (drop (drop_count size me mb (total size xs) xs) xs)
  unfolding drop_count
  drop_count-Fits xs =
      let o = over_count me xs in
      let ys = drop o xs in
      let r = total size xs - total size (take o xs) in
      let k = evict_count size mb r ys in
      rw (drop-add o k xs) (record {
        count = λ h. omega (arith, over_count_fits me xs h, length-drop k ys, length-drop o xs);
        bytes = λ h. evict_count_fits size mb r ys (left-eq_total size o xs) h;
      })

  pub drop_count_least :
      (xs : List A) (j : ℕ)
      → j < drop_count size me mb (total size xs) xs
      → ¬ Fits size me mb (drop j xs)
  unfolding drop_count
  drop_count_least xs j h f = elim (Bool-cases (ltb j (over_count me xs))) [
    | inl few ↦
        let (p, q) = over_count_least me j xs (ltb→lt _ _ few) in
        omega (arith, f.count p, length-drop j xs)
    | inr enough ↦
        let o = over_count me xs in
        let r = total size xs - total size (take o xs) in
        let o-le : o ≤ j = ground arith in
        let more : j - o < evict_count size mb r (drop o xs) = omega (arith, h) in
        let (p, q, two) =
          evict_count_least size mb r (j - o) (drop o xs) (left-eq_total size o xs) more in
        let same : drop j xs ≡ drop (j - o) (drop o xs) =
          ap (λ (n : ℕ). drop n xs) (omega arith) ∙ drop-add o (j - o) xs in
        omega (arith, f.bytes p, ap (total size) same, ap length same)
  ]

-- ===== src/Store/Conversations/Laws.antt =====
-- The list of participants of a conversation: a merge keeps it, adds every name that is missing, and
-- does nothing when it is made again.
use pinakes.Base.{
  ◌≡◌, ◌⊎◌, inl, inr, refl, sym, ap, subst, ◌∙◌, true, ◌||◌, Bool-cases, String, List, [], ◌∷◌,
  ◌++◌, map, All, contains, append-nil, append_assoc, arith, ◌==◌, eq_iff,
}
use pinakes.Text.{trim_space}
use pinakes.Text.Laws.{trim_space-trim_space}
use pinakes.Types.{Conversation}
use pinakes.Store.Conversations.{merge_loop, merge_participants}

-- A name that is blank or stands in a list of trimmed names.
abbrev pub IsIn : List String → String → Type 0
IsIn names raw = ((trim_space raw == "") ≡ true) ⊎ (contains names (trim_space raw) ≡ true)

-- The trimmed names of the merged list are those that the loop has seen.
abbrev Matches : List String → List String → Type 0
Matches seen merged = (x : String) → contains seen x ≡ contains (map trim_space merged) x

contains-append :
    (xs ys : List String) (x : String) → contains (xs ++ ys) x ≡ (contains xs x || contains ys x)
contains-append [] ys x = refl
contains-append (y ∷ xs) ys x = ground (arith, contains-append xs ys x)

map-append :
    (xs ys : List String) → map trim_space (xs ++ ys) ≡ map trim_space xs ++ map trim_space ys
map-append [] ys = refl
map-append (x ∷ xs) ys = ap (λ zs. trim_space x ∷ zs) (map-append xs ys)

Matches-next :
    (seen merged : List String) (raw : String)
    → Matches seen merged
    → Matches (trim_space raw ∷ seen) (merged ++ trim_space raw ∷ [])
Matches-next seen merged raw h x =
    rw
      (
        map-append merged (trim_space raw ∷ []),
        contains-append (map trim_space merged) (trim_space (trim_space raw) ∷ []) x,
        trim_space-trim_space raw,
        h x,
      )
      (ground arith)

-- The merged list begins with the old one.
merge_loop-prefix :
    (seen merged raws : List String)
    → (added : List String) × (merge_loop seen merged raws ≡ merged ++ added)
unfolding merge_loop
merge_loop-prefix seen merged [] = ([], sym (append-nil merged))
merge_loop-prefix seen merged (raw ∷ rest) =
    let name = trim_space raw in
    let skip = merge_loop-prefix seen merged rest in
    elim (Bool-cases (name == "")) [
      | inl blank ↦ rw blank skip
      | inr named ↦ elim (Bool-cases (contains seen name)) [
        | inl known ↦ rw (named, known) skip
        | inr new ↦
            let (added, e) = merge_loop-prefix (name ∷ seen) (merged ++ name ∷ []) rest in
            rw (named, new) (name ∷ added, e ∙ append_assoc merged (name ∷ []) added)
      ]
    ]

merge_loop_grows :
    (seen merged raws : List String) (x : String)
    → contains (map trim_space merged) x ≡ true
    → contains (map trim_space (merge_loop seen merged raws)) x ≡ true
merge_loop_grows seen merged raws x h =
    let (added, e) = merge_loop-prefix seen merged raws in
    rw
      (
        e,
        map-append merged added,
        contains-append (map trim_space merged) (map trim_space added) x,
        h,
      )
      refl

contains_last :
    (names : List String) (x : String)
    → contains (map trim_space (names ++ trim_space x ∷ [])) (trim_space x) ≡ true
contains_last names x =
    rw
      (
        map-append names (trim_space x ∷ []),
        contains-append (map trim_space names) (trim_space (trim_space x) ∷ []) (trim_space x),
        trim_space-trim_space x,
      )
      (ground (arith, eq_iff (trim_space x) (trim_space x)))

merge_loop-All :
    (seen merged raws : List String)
    → Matches seen merged
    → All (IsIn (map trim_space (merge_loop seen merged raws))) raws
unfolding merge_loop
merge_loop-All seen merged [] h = tt
merge_loop-All seen merged (raw ∷ rest) h =
    let name = trim_space raw in
    let skip = merge_loop-All seen merged rest h in
    let taken =
      λ (out : List String). IsIn (map trim_space out) raw × All (IsIn (map trim_space out)) rest in
    elim (Bool-cases (name == "")) [
      | inl blank ↦
          let same : merge_loop seen merged (raw ∷ rest) ≡ merge_loop seen merged rest =
            rw blank refl in
          subst taken (sym same) (inl blank, skip)
      | inr named ↦ elim (Bool-cases (contains seen name)) [
        | inl known ↦
            let same : merge_loop seen merged (raw ∷ rest) ≡ merge_loop seen merged rest =
              rw (named, known) refl in
            subst taken (sym same)
              (inr (merge_loop_grows seen merged rest name (sym (h name) ∙ known)), skip)
        | inr new ↦
            let same : merge_loop seen merged (raw ∷ rest)
                ≡ merge_loop (name ∷ seen) (merged ++ name ∷ []) rest =
              rw (named, new) refl in
            subst taken (sym same) (
              inr (
                  merge_loop_grows (name ∷ seen) (merged ++ name ∷ []) rest name
                    (contains_last merged raw)),
              merge_loop-All (name ∷ seen) (merged ++ name ∷ []) rest
                  (Matches-next seen merged raw h),
            )
      ]
    ]

merge_loop_known :
    (seen merged raws : List String) → All (IsIn seen) raws → merge_loop seen merged raws ≡ merged
unfolding merge_loop
merge_loop_known seen merged [] h = refl
merge_loop_known seen merged (raw ∷ rest) h =
    ground (arith, h.0, merge_loop_known seen merged rest h.1)

-- Merging names into a conversation keeps its participants as the beginning of the list, leaves
-- each name blank or on the trimmed list, and changes nothing when it is made a second time.
pub merge_participants_lem :
    (c : Conversation) (names : List String)
    → let d = merge_participants c names in
      ((added : List String) × (d.participants ≡ c.participants ++ added))
      × All (IsIn (map trim_space d.participants)) names
      × (merge_participants d names ≡ d)
unfolding merge_participants
merge_participants_lem c names =
    let seen = map trim_space c.participants in
    let all = merge_loop-All seen c.participants names (λ x. refl) in
    (
      merge_loop-prefix seen c.participants names,
      all,
      ap (λ xs. record c { participants = xs })
          (merge_loop_known _ (merge_loop seen c.participants names) names all),
    )

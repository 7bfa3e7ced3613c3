-- ===== src/Stats/Ranking.antt =====
-- The rows of the breakdown by their rank.
use mathlib.Core.List.{Permᴰ}
use mathlib.Core.List.Permᴰ
use multi_rpc.Prelude.{
  ℕ, zero, suc, ◌<◌, ◌≤◌, ◌≡◌, refl, sym, subst, some, List, [], ◌∷◌, ◌++◌, take, drop, length, All,
  Text, arith, Bool-cases, inl, inr, leb→le, le→leb, Text, ltb, ltb→lt, take-append-drop, leb, ap,
}
use multi_rpc.Stats.{
  MethodCount, insert_count, sort_counts, fold_others, with_percentages,
  transform_methods_breakdown,
}

-- Each row has at least the count of every later one.
abbrev pub IsDescending : List MethodCount → Type 0
IsDescending [] = Unit
IsDescending (m ∷ ms) = All (λ o. o.count ≤ m.count) ms × IsDescending ms

insert-Perm : (m : MethodCount) (xs : List MethodCount) → Permᴰ (insert_count m xs) (m ∷ xs)
unfolding insert_count
insert-Perm m [] = Permᴰ.refl (m ∷ [])
insert-Perm m (x ∷ xs) = elim (Bool-cases (leb x.count m.count)) [
  | inl y ↦ rw y (Permᴰ.refl (m ∷ x ∷ xs))
  | inr n ↦ rw n (Permᴰ.trans (Permᴰ.cons refl (insert-Perm m xs)) (Permᴰ.swap refl refl))
]

pub sort-Perm : (xs : List MethodCount) → Permᴰ (sort_counts xs) xs
unfolding sort_counts
sort-Perm [] = Permᴰ.nil
sort-Perm (m ∷ ms) = Permᴰ.trans (insert-Perm m (sort_counts ms)) (Permᴰ.cons refl (sort-Perm ms))

insert-All :
    (b : ℕ) (m : MethodCount) (xs : List MethodCount)
    → m.count ≤ b
    → All (λ o. o.count ≤ b) xs
    → All (λ o. o.count ≤ b) (insert_count m xs)
unfolding insert_count
insert-All b m [] h hs = (h, tt)
insert-All b m (x ∷ xs) h (g, gs) = elim (Bool-cases (leb x.count m.count)) [
  | inl y ↦ rw y (h, (g, gs))
  | inr n ↦ rw n (g, insert-All b m xs h gs)
]

All-weaken :
    (a b : ℕ) (xs : List MethodCount)
    → a ≤ b
    → All (λ o. o.count ≤ a) xs
    → All (λ o. o.count ≤ b) xs
All-weaken a b [] h hs = tt
All-weaken a b (x ∷ xs) h (g, gs) = (omega arith, All-weaken a b xs h gs)

insert-IsDescending :
    (m : MethodCount) (xs : List MethodCount) → IsDescending xs → IsDescending (insert_count m xs)
unfolding insert_count
insert-IsDescending m [] d = (tt, tt)
insert-IsDescending m (x ∷ xs) (h, d) = elim (Bool-cases (leb x.count m.count)) [
  | inl y ↦
      let le = leb→le x.count m.count y in rw y ((le, All-weaken x.count m.count xs le h), (h, d))
  | inr n ↦ rw n (
    insert-All x.count m xs (ground (arith, le→leb x.count m.count)) h,
    insert-IsDescending m xs d,
  )
]

pub sort-IsDescending : (xs : List MethodCount) → IsDescending (sort_counts xs)
unfolding sort_counts
sort-IsDescending [] = tt
sort-IsDescending (m ∷ ms) = insert-IsDescending m (sort_counts ms) (sort-IsDescending ms)

take-take_append {ℓ} :
    {A : Type ℓ} (n : ℕ) (xs ys : List A) → n < length xs → take n (take n xs ++ ys) ≡ take n xs
take-take_append zero xs ys h = refl
take-take_append (suc n) [] ys h = ground arith
take-take_append (suc n) (x ∷ xs) ys h = ap (λ l. x ∷ l) (take-take_append n xs ys (omega arith))

-- folding the others leaves the first five rows
take-fold_others : (ms : List MethodCount) → take 5 (fold_others ms) ≡ take 5 ms
unfolding fold_others
take-fold_others ms = elim (Bool-cases (ltb 5 (length ms))) [
  | inl y ↦ rw y (take-take_append 5 ms _ (ltb→lt 5 (length ms) y))
  | inr n ↦ rw n refl
]

fold_others-append : (ms : List MethodCount) → take 5 (fold_others ms) ++ drop 5 ms ≡ ms
fold_others-append ms = rw (take-fold_others ms) (take-append-drop 5 ms)

-- The first five rows of the breakdown of given methods, followed by some other rows, are the methods
-- with their shares in another order, and in this order no row has a smaller count than a later one.
pub transform-ranking :
    (ratio : ℕ → ℕ → ℕ) (methods : List (Text × ℕ))
    → (others : List MethodCount) × Permᴰ
        (take 5 (transform_methods_breakdown ratio (some methods)) ++ others)
        (with_percentages ratio methods)
      × IsDescending (take 5 (transform_methods_breakdown ratio (some methods)) ++ others)
unfolding transform_methods_breakdown
transform-ranking ratio methods =
    let ms = with_percentages ratio methods in
    let sorted = sort_counts ms in
    let rows = sym (fold_others-append sorted) in
    (
      drop 5 sorted,
      subst (λ l. Permᴰ l ms) rows (sort-Perm ms),
      subst IsDescending rows (sort-IsDescending ms),
    )

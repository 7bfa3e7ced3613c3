-- ===== src/Stats/Breakdown.antt =====
-- The totals of the breakdown.
use mathlib.Core.List.{Permᴰ}
use multi_rpc.Prelude.{
  ℕ, ◌+◌, ◌≤◌, ◌≡◌, ◌∙◌, refl, ap, some, List, [], ◌∷◌, ◌++◌, map, take, drop, length, Text, arith,
  Bool-cases, inl, inr, ltb, lt→ltb, take-append-drop, length-append, length-take,
}
use multi_rpc.Stats.{
  MethodCount, count_of, sum_of, percentage_of, entry, sort_counts, fold_others, with_percentage,
  with_percentages, transform_methods_breakdown,
}
use multi_rpc.Stats.Ranking.{sort-Perm}

-- the requests of an object of methods
unfoldable pub requests : List (Text × ℕ) → ℕ
requests [] = 0
requests ((method, count) ∷ ms) = count + requests ms

sum-append :
    (f : MethodCount → ℕ) (xs ys : List MethodCount)
    → sum_of f (xs ++ ys) ≡ sum_of f xs + sum_of f ys
sum-append f [] ys = omega arith
sum-append f (x ∷ xs) ys = rw (sum-append f xs ys) (omega arith)

sum-Perm :
    (f : MethodCount → ℕ) {xs ys : List MethodCount} → Permᴰ xs ys → sum_of f xs ≡ sum_of f ys
sum-Perm f Permᴰ.nil = refl
sum-Perm f (Permᴰ.cons e h) = ground (arith, ap f e, sum-Perm f h)
sum-Perm f (Permᴰ.swap e e') = ground (arith, ap f e, ap f e')
sum-Perm f (Permᴰ.trans h h') = sum-Perm f h ∙ sum-Perm f h'

-- the row of the others stands for the rows after the fifth
sum-folded :
    (f : MethodCount → ℕ) (others : MethodCount) (ms : List MethodCount)
    → f others ≡ sum_of f (drop 5 ms)
    → sum_of f (take 5 ms ++ others ∷ []) ≡ sum_of f ms
sum-folded f others ms e =
    sum-append f (take 5 ms) (others ∷ [])
    ∙ ground (arith, e, sum-append f (take 5 ms) (drop 5 ms), ap (sum_of f) (take-append-drop 5 ms))

fold_others-sum :
    (ms : List MethodCount)
    → (sum_of count_of (fold_others ms) ≡ sum_of count_of ms)
      × (sum_of percentage_of (fold_others ms) ≡ sum_of percentage_of ms)
unfolding fold_others
fold_others-sum ms = elim (Bool-cases (ltb 5 (length ms))) [
  | inl y ↦ rw y (sum-folded count_of _ ms refl, sum-folded percentage_of _ ms refl)
  | inr n ↦ rw n (refl, refl)
]

length-folded :
    (others : MethodCount) (ms : List MethodCount) → length (take 5 ms ++ others ∷ []) ≤ 6
length-folded others ms = ground (arith, length-append (take 5 ms) (others ∷ []), length-take 5 ms)

length-fold_others : (ms : List MethodCount) → length (fold_others ms) ≤ 6
unfolding fold_others
length-fold_others ms = elim (Bool-cases (ltb 5 (length ms))) [
  | inl y ↦ rw y (length-folded _ ms)
  | inr n ↦ rw n (ground (arith, lt→ltb 5 (length ms)))
]

with_percentage-count :
    (ratio : ℕ → ℕ → ℕ) (total : ℕ) (methods : List (Text × ℕ))
    → sum_of count_of (map (with_percentage ratio total) (map entry methods)) ≡ requests methods
unfolding requests
with_percentage-count ratio total [] = refl
with_percentage-count ratio total ((method, count) ∷ ms) =
    ap (λ n. count + n) (with_percentage-count ratio total ms)

-- For any object of methods, the counts of the breakdown add up to the counts of the object, its
-- percentages to those of the object's methods, and it has at most six rows.
pub transform-total :
    (ratio : ℕ → ℕ → ℕ) (methods : List (Text × ℕ))
    → let rows = transform_methods_breakdown ratio (some methods) in
      (sum_of count_of rows ≡ requests methods)
      × (sum_of percentage_of rows ≡ sum_of percentage_of (with_percentages ratio methods))
      × (length rows ≤ 6)
unfolding transform_methods_breakdown with_percentages
transform-total ratio methods =
    let ms = with_percentages ratio methods in
    let (counts, shares) = fold_others-sum (sort_counts ms) in
    let same = sort-Perm ms in
    (
      counts ∙ sum-Perm count_of same ∙ with_percentage-count ratio _ methods,
      shares ∙ sum-Perm percentage_of same,
      length-fold_others (sort_counts ms),
    )

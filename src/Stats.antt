-- ===== src/Stats.antt =====
-- web-ui/src/app/api/rpc/stats/route.ts: the statistics of the proxy. What the backend's JSON holds is
-- `BackendMetrics` and `BackendStats`; a percentage with decimals is of an abstract type. The draws of
-- `Math.random()` are arguments.
pub mod Breakdown
pub mod Ranking
pub mod Series
pub mod Current
use multi_rpc.Prelude.{
  ℕ, zero, suc, ◌+◌, ◌-◌, ◌*◌, ◌/◌, Bool, true, false, Option, none, some, List, [], ◌∷◌, ◌++◌, map,
  take, drop, length, Text, lit, remove_first, Result, ok, err, if◌then◌else◌, ltb, leb, text_eq,
}
use multi_rpc.Middleware.{Privy}

pub record MethodCount : Type 0 where
  pub method : Text
  pub count : ℕ
  pub percentage : ℕ

abbrev pub sum_of : (MethodCount → ℕ) → List MethodCount → ℕ
sum_of f [] = 0
sum_of f (m ∷ ms) = f m + sum_of f ms

abbrev pub count_of : MethodCount → ℕ
count_of m = m.count

abbrev pub percentage_of : MethodCount → ℕ
percentage_of m = m.percentage

abbrev pub entry : Text × ℕ → MethodCount
entry (method, count) = record { method = method; count = count; percentage = 0 }

-- `sort((a, b) => b.count - a.count)`, which is stable
unfoldable pub insert_count : MethodCount → List MethodCount → List MethodCount
insert_count m [] = m ∷ []
insert_count m (x ∷ xs) =
    let rest = insert_count m xs in if leb x.count m.count then m ∷ x ∷ xs else x ∷ rest

unfoldable pub sort_counts : List MethodCount → List MethodCount
sort_counts [] = []
sort_counts (m ∷ ms) = insert_count m (sort_counts ms)

-- the five largest, and the sum of the others
unfoldable pub fold_others : List MethodCount → List MethodCount
fold_others ms =
    if ltb 5 (length ms)
    then take 5 ms
      ++ record {
        method = lit "Others";
        count = sum_of count_of (drop 5 ms);
        percentage = sum_of percentage_of (drop 5 ms);
      }
        ∷ []
    else ms

abbrev row : Text → ℕ → ℕ → MethodCount
row method count percentage = record { method = method; count = count; percentage = percentage }

unfoldable pub default_breakdown : List MethodCount
default_breakdown =
    row (lit "getAccountInfo") 25000 20
    ∷ row (lit "getTransaction") 18750 15
    ∷ row (lit "getBalance") 15000 12
    ∷ row (lit "getSlot") 12500 10
    ∷ row (lit "getBlockHeight") 10000 8
    ∷ row (lit "Others") 43750 35
    ∷ []

-- `ratio total count` is `Math.round((count / total) * 100)`, in the floating point of the host.
module _ (ratio : ℕ → ℕ → ℕ) where
  -- `total > 0 ? … : 0`
  unfoldable pub percent : ℕ → ℕ → ℕ
  percent total count = if ltb 0 total then ratio total count else 0

  abbrev pub with_percentage : ℕ → MethodCount → MethodCount
  with_percentage total m = record m { percentage = percent total m.count }

  -- the methods of the object with their shares
  unfoldable pub with_percentages : List (Text × ℕ) → List MethodCount
  with_percentages methods =
      let counts = map entry methods in map (with_percentage (sum_of count_of counts)) counts

  -- `transformMethodsBreakdown(methods)`: the entries of the object, or nothing if it is none
  unfoldable pub transform_methods_breakdown : Option (List (Text × ℕ)) → List MethodCount
  transform_methods_breakdown none = default_breakdown
  transform_methods_breakdown (some methods) = fold_others (sort_counts (with_percentages methods))

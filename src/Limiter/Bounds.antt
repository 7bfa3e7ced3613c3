-- ===== src/Limiter/Bounds.antt =====
-- What the limiter promises of a whole run of calls.
use native.Mathlib.Nat.{add-div_right}
use multi_rpc.Prelude.{
  ℕ, suc, ◌+◌, ◌-◌, ◌*◌, ◌/◌, ◌≤◌, ◌<◌, ◌≡◌, refl, false, some, List, [], ◌∷◌, ◌&&◌, arith, Text,
  Dict, text_eq_iff, if◌then◌else◌, leb_ℤ, pos, ◌≤ℤ◌, ℤ,
}
use multi_rpc.Limiter.{Entry, check, result_of}
use multi_rpc.Limiter.Counts.{
  Call, IsTimely, TimelyFrom, index_of, check_call, belongs, seen, Counts, Counts-empty,
  check-Counts, check-result,
}

-- how many calls of the caller `s` in window `w` a run of calls admits
abbrev pub admitted : ℕ → Text → ℕ → List Call → Dict Entry → ℕ
admitted window s w [] cache = 0
admitted window s w (c ∷ cs) cache =
    (if belongs window s w c && (check_call window c cache).0.allowed then 1 else 0)
    + admitted window s w cs (check_call window c cache).1

-- every call of the caller `s` asks with a limit of at most `n`
abbrev pub LimitedTo : ℕ → Text → List Call → Type 0
LimitedTo n s [] = Unit
LimitedTo n s (c ∷ cs) = (c.identifier ≡ s → c.limit ≤ℤ pos n) × LimitedTo n s cs

module _ (window : ℕ) (wide : 0 < window) (s : Text) (w n : ℕ) where
  check-allowed :
      (start : ℕ) (history : List Call) (cache : Dict Entry) (c : Call)
      → IsTimely start c
      → Counts window start history cache
      → (check_call window c cache).0.allowed
        ≡ leb_ℤ (pos (suc (seen window c.identifier (index_of window c) history))) c.limit
  unfolding result_of
  check-allowed start history cache c t k = rw (check-result window start history cache c wide t k)

  admitted-from :
      (start : ℕ) (history : List Call) (cache : Dict Entry) (cs : List Call)
      → TimelyFrom start cs
      → LimitedTo n s cs
      → Counts window start history cache
      → admitted window s w cs cache ≤ n - seen window s w history
  admitted-from start history cache [] t l k = omega arith
  admitted-from start history cache (c ∷ cs) t l k = ground (
    arith,
    check-allowed start history cache c t.0 k,
    text_eq_iff c.identifier s,
    l.0,
    admitted-from c.cleanup_now (c ∷ history) (check_call window c cache).1 cs t.1 l.1
        (check-Counts window start history cache c wide t.0 k),
  )

  -- Of any run of calls from the empty cache, with a clock that does not run backwards and in
  -- whatever order the callers come, at most `n` calls of one caller are admitted in one window, if
  -- that caller always asks with a limit of at most `n`.
  pub admitted-le :
      (cs : List Call) → TimelyFrom 0 cs → LimitedTo n s cs → admitted window s w cs [] ≤ n
  admitted-le cs t l = omega (arith, admitted-from 0 [] [] cs t l (Counts-empty window))

-- A check of a window of positive length that refuses tells the caller to retry after the length of
-- the window, and at the time that it reports a later window has begun.
pub check-refused :
    (identifier : Text) (limit : ℤ) (window now cleanup_now : ℕ) (cache : Dict Entry)
    → 0 < window
    → (check identifier limit window now cleanup_now cache).0.allowed ≡ false
    → let result = (check identifier limit window now cleanup_now cache).0 in
      (result.retry_after ≡ some window)
      × (result.reset ≡ now + window * 1000)
      × (now / (window * 1000) < result.reset / (window * 1000))
unfolding check result_of
check-refused identifier limit window now cleanup_now cache positive h =
    let wide : 0 < window * 1000 = omega arith in
    let whole : (now + window * 1000 - now + 999) / 1000 ≡ window = omega arith in
    (ground arith, refl, omega (arith, add-div_right now wide))

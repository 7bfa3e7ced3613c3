-- ===== src/Limiter/Refinement.antt =====
-- The limiter refines a counter of calls: an abstract limiter that counts, for each caller and each
-- window, all calls that were ever made, with no cache, no keys and no cleanup.
use multi_rpc.Prelude.{
  ℕ, suc, ◌+◌, ◌-◌, ◌*◌, ◌/◌, ◌<◌, ◌≡◌, refl, not, none, some, List, [], ◌∷◌, ◌&&◌, ◌==◌, arith,
  Text, Dict, text_eq, pos, leb_ℤ, if◌then◌else◌, ◌∙◌, ap, Bool-cases, inl, inr,
}
use multi_rpc.Limiter.{Entry, RateLimitResult, result_of, room_left}
use multi_rpc.Limiter.Counts.{
  Call, TimelyFrom, index_of, check_call, seen, Counts, Counts-empty, check-Counts, check-result,
}

-- the answers of the limiter to a run of calls
unfoldable pub answers : ℕ → List Call → Dict Entry → List RateLimitResult
answers window [] cache = []
answers window (c ∷ cs) cache =
    let (result, cache') = check_call window c cache in result ∷ answers window cs cache'

-- how many calls of each caller were made in each window
abbrev pub Tally : Type 0
Tally = Text → ℕ → ℕ

abbrev pub tally : Text → ℕ → Tally → Tally
tally s w f t v = if text_eq s t && w == v then suc (f t v) else f t v

-- The abstract answer to a caller whose calls before this one in the window number `n`.
abbrev pub spec_answer : ℕ → Call → ℕ → RateLimitResult
spec_answer window c n = record {
  allowed = not (leb_ℤ c.limit (pos n));
  limit = c.limit;
  remaining = room_left c.limit (suc n);
  reset = c.now + window * 1000;
  retry_after = if leb_ℤ c.limit (pos n) then some window else none;
}

unfoldable pub spec_answers : ℕ → List Call → Tally → List RateLimitResult
spec_answers window [] f = []
spec_answers window (c ∷ cs) f =
    spec_answer window c (f c.identifier (index_of window c))
    ∷ spec_answers window cs (tally c.identifier (index_of window c) f)

result_of-spec_answer :
    (window : ℕ) (c : Call) (n : ℕ)
    → result_of (suc n) c.limit (c.now + window * 1000) c.now ≡ spec_answer window c n
unfolding result_of
result_of-spec_answer window c n =
    let whole : (c.now + window * 1000 - c.now + 999) / 1000 ≡ window = omega arith in
    let same : leb_ℤ (pos (suc n)) c.limit ≡ not (leb_ℤ c.limit (pos n)) = ground arith in
    rw (whole, same)
      (elim (Bool-cases (leb_ℤ c.limit (pos n))) [ inl y ↦ rw y refl | inr k ↦ rw k refl ])

module _ (window : ℕ) (wide : 0 < window) where
  -- The limiter's state against the abstract one: some history has both the counters and the tally.
  answers-from :
      (start : ℕ) (history : List Call) (cache : Dict Entry) (f : Tally) (cs : List Call)
      → TimelyFrom start cs
      → Counts window start history cache
      → ((s : Text) (w : ℕ) → seen window s w history ≡ f s w)
      → answers window cs cache ≡ spec_answers window cs f
  unfolding answers spec_answers
  answers-from start history cache f [] t k same = refl
  answers-from start history cache f (c ∷ cs) t k same =
      let first : (check_call window c cache).0
          ≡ spec_answer window c (f c.identifier (index_of window c)) =
        check-result window start history cache c wide t.0 k
        ∙ result_of-spec_answer window c (seen window c.identifier (index_of window c) history)
        ∙ ap (spec_answer window c) (same c.identifier (index_of window c)) in
      rw first (
        ap
          (λ (rest : List RateLimitResult).
            spec_answer window c (f c.identifier (index_of window c)) ∷ rest)
          (answers-from c.cleanup_now (c ∷ history) (check_call window c cache).1
            (tally c.identifier (index_of window c) f) cs t.1
            (check-Counts window start history cache c wide t.0 k)
            (λ s w. ground (arith, same s w))))

  -- Over any run of calls from the empty cache, with a clock that does not run backwards, the limiter
  -- answers each call as the abstract one does: it admits a call exactly while fewer calls of that
  -- caller were made in its window than the call's limit, and tells a caller that it refuses to come
  -- back after the length of the window.
  pub answers-spec_answers :
      (cs : List Call) → TimelyFrom 0 cs → answers window cs [] ≡ spec_answers window cs (λ _ _. 0)
  answers-spec_answers cs t =
      answers-from 0 [] [] (λ _ _. 0) cs t (Counts-empty window) (λ _ _. refl)

-- ===== src/Limiter/Counts.antt =====
-- The counters of the limiter against the history of its calls: although old entries are dropped
-- along the way, each counter of a window that is not over is the number of its calls.
use native.Mathlib.Nat.{div-mul-le_self, lt-div-mul-add}
use native.Mathlib.Numerals.{add-one}
use multi_rpc.Prelude.{
  ℕ, ℤ, suc, ◌+◌, ◌*◌, ◌/◌, ◌≤◌, ◌<◌, ◌≡◌, refl, Bool, true, Option, none, some, List, [], ◌∷◌,
  ◌&&◌, arith, Text, Dict, Distinct, get, set, modify, remove_where, change, text_eq, text_eq_iff,
  get-set, get-modify, get-remove_where, set-Distinct, modify-Distinct, remove_where-Distinct,
  if◌then◌else◌, ◌==◌, ltb, Option-cases, keep_unless, ◌∙◌, inl, inr,
}
use multi_rpc.Limiter.{
  Entry, RateLimitResult, cache_key, current_entry, cleanup, check, increment, result_of,
}
use multi_rpc.Limiter.Keys.{text_eq-cache_key}

pub record Call : Type 0 where
  pub identifier : Text
  pub limit : ℤ
  pub now : ℕ
  pub cleanup_now : ℕ

-- The clock does not run backwards.
pub record IsTimely (start : ℕ) (c : Call) : Type 0 where
  pub after : start ≤ c.now
  pub within : c.now ≤ c.cleanup_now

abbrev pub TimelyFrom : ℕ → List Call → Type 0
TimelyFrom start [] = Unit
TimelyFrom start (c ∷ cs) = IsTimely start c × TimelyFrom c.cleanup_now cs

abbrev pub count_at : Option Entry → ℕ
count_at none = 0
count_at (some e) = e.count

-- What one check does to the cache.
module _ (key : Text) (reset_at cleanup_now : ℕ) (cache : Dict Entry) where
  after : Dict Entry
  after = modify key increment (current_entry key reset_at cleanup_now cache).1

  current-count : (current_entry key reset_at cleanup_now cache).0.count ≡ count_at (get key cache)
  unfolding current_entry
  current-count = ground arith

  after-Distinct : Distinct cache → Distinct after
  unfolding after current_entry cleanup
  after-Distinct d = elim (Option-cases (get key cache)) [
    | inl miss ↦
        rw (miss, current_entry)
          (modify-Distinct key increment _ (remove_where-Distinct _ _ (set-Distinct key _ cache d)))
    | inr (e, hit) ↦ rw (hit, current_entry) (modify-Distinct key increment cache d)
  ]

  -- The entry under a key `k` afterwards.
  module _ (k : Text) where
    get-after_miss :
        Distinct cache
        → get key cache ≡ none
        → get k after ≡ (
            if text_eq key k
            then change increment (
                keep_unless
                  (λ (e : Entry). ltb e.reset_at cleanup_now)
                  (some (record { count = 0; reset_at = reset_at })))
            else keep_unless (λ (e : Entry). ltb e.reset_at cleanup_now) (get k cache))
    unfolding after current_entry cleanup
    get-after_miss d miss =
        let fresh : Entry = record { count = 0; reset_at = reset_at } in
        rw (miss, current_entry)
          (ground (
            arith,
            get-modify key k increment
                (remove_where (λ e. ltb e.reset_at cleanup_now) (set key fresh cache)),
            get-remove_where (λ e. ltb e.reset_at cleanup_now) k (set key fresh cache)
                (set-Distinct key fresh cache d),
            get-set key k fresh cache,
          ))

    get-after_hit :
        (e : Entry)
        → get key cache ≡ some e
        → get k after ≡ (if text_eq key k then change increment (get k cache) else get k cache)
    unfolding after current_entry
    get-after_hit e hit = rw (hit, current_entry) (get-modify key k increment cache)

    -- `bound` is the end of the window of `k`.
    module _ (bound : ℕ) (d : Distinct cache) (own : text_eq key k ≡ true → bound ≤ reset_at) where
      count-after :
          ((e : Entry) → get k cache ≡ some e → bound ≤ e.reset_at)
          → cleanup_now < bound
          → count_at (get k after)
            ≡ (if text_eq key k then suc (count_at (get k cache)) else count_at (get k cache))
      count-after old live = elim (Option-cases (get key cache)) [
        | inl miss ↦ elim (Option-cases (get k cache)) [
          | inl new ↦ ground (arith, get-after_miss d miss)
          | inr (e, there) ↦ ground (arith, get-after_miss d miss, old e there, text_eq_iff key k)
        ]
        | inr (e, hit) ↦ ground (arith, get-after_hit e hit, text_eq_iff key k)
      ]

      lasts-after :
          ((e : Entry) → get k cache ≡ some e → bound ≤ e.reset_at)
          → (e : Entry) → get k after ≡ some e
          → bound ≤ e.reset_at
      lasts-after old e h = elim (Option-cases (get key cache)) [
        | inl miss ↦ elim (Option-cases (get k cache)) [
          | inl new ↦ ground (arith, get-after_miss d miss)
          | inr (e', there) ↦ ground (arith, get-after_miss d miss, old e' there, text_eq_iff key k)
        ]
        | inr (e', hit) ↦ elim (Option-cases (get k cache)) [
          | inl new ↦ ground (arith, get-after_hit e' hit)
          | inr (e'', there) ↦ ground (arith, get-after_hit e' hit, old e'' there)
        ]
      ]

module _ (window : ℕ) where
  abbrev pub width : ℕ
  width = window * 1000

  abbrev pub index_of : Call → ℕ
  index_of c = c.now / width

  unfoldable pub check_call : Call → Dict Entry → RateLimitResult × Dict Entry
  check_call c = check c.identifier c.limit window c.now c.cleanup_now

  unfoldable pub run : List Call → Dict Entry → Dict Entry
  run [] cache = cache
  run (c ∷ cs) cache = run cs (check_call c cache).1

  -- whether a call is the caller's, in the window with this index
  abbrev pub belongs : Text → ℕ → Call → Bool
  belongs s w c = text_eq c.identifier s && index_of c == w

  -- how many calls of a history are
  abbrev pub seen : Text → ℕ → List Call → ℕ
  seen s w [] = 0
  seen s w (c ∷ cs) = if belongs s w c then suc (seen s w cs) else seen s w cs

  pub record Counts (start : ℕ) (history : List Call) (cache : Dict Entry) : Type 0 where
    pub distinct : Distinct cache
    pub counted :
        (s : Text) (w : ℕ)
        → start < (w + 1) * width
        → count_at (get (cache_key s w) cache) ≡ seen s w history
    pub lasting :
        (s : Text) (w : ℕ) (e : Entry)
        → get (cache_key s w) cache ≡ some e
        → (w + 1) * width ≤ e.reset_at

  pub Counts-empty : Counts 0 [] []
  unfolding get
  Counts-empty = record {
    distinct = tt;
    counted = λ s w h. refl;
    lasting = λ s w e h. ground arith;
  }

  -- The time lies in the window of its index.
  pub in_window :
      (now : ℕ) → 0 < window → (now / width * width ≤ now) × (now < (now / width + 1) * width)
  in_window now h =
      (div-mul-le_self now width, grind (arith, lt-div-mul-add {a = now} {b = width} (omega arith)))

  -- A counter that the check shares outlives the window.
  shared-bound :
      (s : Text) (w : ℕ) (c : Call)
      → 0 < window
      → text_eq (cache_key c.identifier (index_of c)) (cache_key s w) ≡ true
      → (w + 1) * width ≤ c.now + width
  shared-bound s w c pos same =
      let same' : index_of c ≡ w =
        ground (arith, text_eq-cache_key c.identifier s (index_of c) w) in
      let low : index_of c * width ≤ c.now = (in_window c.now pos).0 in
      rw (← same') (omega (arith, low))

  check_call-after :
      (c : Call) (cache : Dict Entry)
      → (check_call c cache).1
        ≡ after (cache_key c.identifier (index_of c)) (c.now + width) c.cleanup_now cache
  unfolding check_call check after
  check_call-after c cache = refl

  -- One check keeps the account, and reports it.
  pub check-Counts :
      (start : ℕ) (history : List Call) (cache : Dict Entry) (c : Call)
      → 0 < window
      → IsTimely start c
      → Counts start history cache
      → Counts c.cleanup_now (c ∷ history) (check_call c cache).1
  check-Counts start history cache c pos timely k = rw (check_call-after c cache) (record {
    distinct = after-Distinct key (c.now + width) c.cleanup_now cache k.distinct;
    counted = λ s w live.
        count-after key (c.now + width) c.cleanup_now cache (cache_key s w) ((w + 1) * width)
          k.distinct (shared-bound s w c pos) (k.lasting s w) live
        ∙ ground (
          arith,
          text_eq-cache_key c.identifier s (index_of c) w,
          k.counted s w (omega (arith, timely.after, timely.within)),
        );
    lasting = λ s w.
        lasts-after key (c.now + width) c.cleanup_now cache (cache_key s w) ((w + 1) * width)
          k.distinct (shared-bound s w c pos) (k.lasting s w);
  })
    where
      key : Text
      key = cache_key c.identifier (index_of c)

  pub check-result :
      (start : ℕ) (history : List Call) (cache : Dict Entry) (c : Call)
      → 0 < window
      → IsTimely start c
      → Counts start history cache
      → (check_call c cache).0
        ≡ result_of (suc (seen c.identifier (index_of c) history)) c.limit (c.now + width) c.now
  unfolding check_call check
  check-result start history cache c pos timely k =
      let key : Text = cache_key c.identifier (index_of c) in
      let high : c.now < (index_of c + 1) * width = (in_window c.now pos).1 in
      rw (
        current-count key (c.now + width) c.cleanup_now cache,
        k.counted c.identifier (index_of c) (omega (arith, timely.after)),
        add-one,
      )

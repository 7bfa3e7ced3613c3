-- ===== src/Batcher/Resting.antt =====
-- The batcher comes to rest when the answers come in.
use multi_rpc.Prelude.{
  ℕ, zero, suc, ◌≤◌, Bool, true, false, List, [], ◌∷◌, ◌++◌, take, drop, length, Text, Result, ◌≡◌,
  refl, arith, All,
}
use multi_rpc.Json.{Json}
use multi_rpc.ApiCache.{Fetched}
use multi_rpc.Batcher.{
  Batcher, Event, called, timed_out, fetched, looped, step, run, start_batch, answer, finish,
  schedule_batch, fetch_data, settle,
}
use multi_rpc.Batcher.Serving.{IsServed, Queue, state, HasRequest, drop-full, take-full}

-- what happens when nobody calls `add` and each fetch comes to `outcome`
abbrev pub Quiet : Fetched Json → List Event → Type 0
Quiet outcome [] = Unit
Quiet outcome (called endpoint params t ∷ es) = ⊥
Quiet outcome (timed_out ∷ es) = Quiet outcome es
Quiet outcome (fetched o ∷ es) = (o ≡ outcome) × Quiet outcome es
Quiet outcome (looped ∷ es) = Quiet outcome es

length-drop : {A : Type 0} (n : ℕ) (xs : List A) → length (drop n xs) ≤ length xs
length-drop zero xs = omega arith
length-drop (suc n) [] = omega arith
length-drop (suc n) (x ∷ xs) = omega (arith, length-drop n xs)

module _ (stringify : Json → Text) (outcome : Fetched Json) where
  abbrev Rests : Batcher → Type 0
  Rests b = (es : List Event) × Quiet outcome es × ((run stringify es b).processing ≡ false)

  -- One event more in front.
  answer-Rests : (b : Batcher) → Rests (answer outcome b) → Rests b
  unfolding run step
  answer-Rests b (es, quiet, rest) = (fetched outcome ∷ es, (refl, quiet), rest)

  timed_out-Rests : (b : Batcher) → Rests (start_batch b) → Rests b
  unfolding run step
  timed_out-Rests b (es, quiet, rest) = (timed_out ∷ es, quiet, rest)

  looped-Rests : (b : Batcher) → Rests (finish b) → Rests b
  unfolding run step
  looped-Rests b (es, quiet, rest) = (looped ∷ es, quiet, rest)

  -- A batch under way is worked off.
  batch-Rests :
      (q : Queue) (b : Queue)
      → All HasRequest b
      → ((d : List (ℕ × Result Json)) → Rests (state q true false true [] d))
      → (d : List (ℕ × Result Json)) → Rests (state q true false true b d)
  unfolding answer
  batch-Rests q [] full last d = last d
  batch-Rests q ((k, []) ∷ b) full last d = let wrong = full.0 in cc wrong
  batch-Rests q ((k, r ∷ rs) ∷ b) full last d =
      answer-Rests (state q true false true ((k, r ∷ rs) ∷ b) d)
        (batch-Rests q b full.1 last (d ++ settle (fetch_data outcome) (r ∷ rs)))

  -- The queue gets shorter with every batch.
  queue-Rests :
      (n : ℕ) (q : Queue)
      → length q ≤ n
      → All HasRequest q
      → (d : List (ℕ × Result Json)) → Rests (state q true false true [] d)
  unfolding finish schedule_batch start_batch run
  queue-Rests n [] short full d = looped-Rests (state [] true false true [] d) ([], tt, refl)
  queue-Rests zero (e ∷ q) short full d = absurd (the_none short)
    where
      the_none : suc (length q) ≤ 0 → ⊥
      the_none h = omega arith
  queue-Rests (suc n) (e ∷ q) short full d = looped-Rests (state (e ∷ q) true false true [] d) (
      timed_out-Rests (state (e ∷ q) true true false [] d) (
        batch-Rests (drop 10 (e ∷ q)) (take 10 (e ∷ q)) (take-full 10 (e ∷ q) full)
          (queue-Rests n (drop 10 (e ∷ q)) (omega (arith, length-drop 9 q))
            (drop-full 10 (e ∷ q) full))
          d))

  state-Rests :
      (q : Queue) (p t r : Bool) (b : Queue) (d : List (ℕ × Result Json))
      → IsServed (state q p t r b d)
      → Rests (state q p t r b d)
  unfolding start_batch run
  state-Rests q false t r b d s = ([], tt, refl)
  state-Rests q true true r b d s = timed_out-Rests (state q true true r b d) (
      batch-Rests (drop 10 q) (take 10 q) (take-full 10 q s.queue_full)
        (queue-Rests (length q) (drop 10 q) (length-drop 10 q) (drop-full 10 q s.queue_full)) d)
  state-Rests q true false true b d s =
      batch-Rests q b s.batch_full (queue-Rests (length q) q (omega arith) s.queue_full) d
  state-Rests q true false false b d s = let wrong = s.busy in cc wrong

  -- From every served state, if nobody calls `add` any more and each fetch comes to its end, all
  -- with the same outcome whatever it is, the batcher comes to rest after finitely many events.
  pub run-rests :
      (b : Batcher)
      → IsServed b
      → (es : List Event) × Quiet outcome es × ((run stringify es b).processing ≡ false)
  run-rests b s = state-Rests b.queue b.processing b.timer b.running b.batch b.settled s

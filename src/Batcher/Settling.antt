-- ===== src/Batcher/Settling.antt =====
-- Every promise is settled once.
use multi_rpc.Prelude.{
  ℕ, zero, suc, ◌+◌, true, false, ◌==◌, List, [], ◌∷◌, ◌++◌, take, drop, Text, text_eq, Dict, get,
  set, Result, if◌then◌else◌, All, lit, ◌≡◌, refl, arith, Bool-cases, inl, inr, ◌∙◌,
}
use multi_rpc.Json.{Json}
use multi_rpc.Batcher.Serving.{
  IsServed, HasRequest, is_empty, run-IsServed, step-IsServed, idle-IsServed,
}
use multi_rpc.ApiCache.{Fetched}
use multi_rpc.Batcher.{
  Batcher, BatchRequest, idle, schedule_batch, enqueue, add, start_batch, answer, finish, Event,
  called, timed_out, fetched, looped, step, run, group, settle_first, end_batch, reschedule,
  fetch_data, settle, params_or_empty,
}

abbrev pub one_if : ℕ → ℕ → ℕ
one_if t u = if t == u then 1 else 0

-- how often the ticket `t` is among the requests
abbrev pub in_group : ℕ → List BatchRequest → ℕ
in_group t [] = 0
in_group t (r ∷ rs) = one_if t r.ticket + in_group t rs

abbrev pub waiting : ℕ → Dict (List BatchRequest) → ℕ
waiting t [] = 0
waiting t ((k, rs) ∷ d) = in_group t rs + waiting t d

-- how often the promise of `t` was settled
abbrev pub settlements : ℕ → List (ℕ × Result Json) → ℕ
settlements t [] = 0
settlements t ((u, outcome) ∷ ss) = one_if t u + settlements t ss

-- how often `add` was called for it
abbrev pub calls : ℕ → List Event → ℕ
calls t [] = 0
calls t (called endpoint params u ∷ es) = one_if t u + calls t es
calls t (timed_out ∷ es) = calls t es
calls t (fetched outcome ∷ es) = calls t es
calls t (looped ∷ es) = calls t es

abbrev pub account : ℕ → Batcher → ℕ
account t b = waiting t b.queue + waiting t b.batch + settlements t b.settled

in_group-append :
    (t : ℕ) (rs : List BatchRequest) (r : BatchRequest)
    → in_group t (rs ++ r ∷ []) ≡ in_group t rs + one_if t r.ticket
in_group-append t [] r = omega arith
in_group-append t (x ∷ rs) r = ground (arith, in_group-append t rs r)

waiting-set :
    (t : ℕ) (k : Text) (v : List BatchRequest) (d : Dict (List BatchRequest))
    → waiting t (set k v d) + in_group t (group (get k d)) ≡ waiting t d + in_group t v
unfolding set get
waiting-set t k v [] = omega arith
waiting-set t k v ((j, w) ∷ d) = elim (Bool-cases (text_eq j k)) [
  | inl y ↦ rw y (omega arith)
  | inr n ↦ rw n (omega (arith, waiting-set t k v d))
]

waiting-enqueue :
    (t : ℕ) (r : BatchRequest) (d : Dict (List BatchRequest))
    → waiting t (enqueue r d) ≡ waiting t d + one_if t r.ticket
unfolding enqueue
waiting-enqueue t r d = omega (
  arith,
  waiting-set t r.id (group (get r.id d) ++ r ∷ []) d,
  in_group-append t (group (get r.id d)) r,
)

waiting-take-drop :
    (t n : ℕ) (d : Dict (List BatchRequest))
    → waiting t (take n d) + waiting t (drop n d) ≡ waiting t d
waiting-take-drop t zero d = omega arith
waiting-take-drop t (suc n) [] = omega arith
waiting-take-drop t (suc n) (e ∷ d) = omega (arith, waiting-take-drop t n d)

settlements-append :
    (t : ℕ) (ss more : List (ℕ × Result Json))
    → settlements t (ss ++ more) ≡ settlements t ss + settlements t more
settlements-append t [] more = omega arith
settlements-append t (s ∷ ss) more = omega (arith, settlements-append t ss more)

settlements-settle :
    (t : ℕ) (outcome : Result Json) (rs : List BatchRequest)
    → settlements t (settle outcome rs) ≡ in_group t rs
settlements-settle t outcome [] = refl
settlements-settle t outcome (r ∷ rs) = omega (arith, settlements-settle t outcome rs)

schedule_batch-account : (t : ℕ) (b : Batcher) → account t (schedule_batch b) ≡ account t b
unfolding schedule_batch
schedule_batch-account t b = elim (Bool-cases b.processing) [
  | inl y ↦ ground arith
  | inr n ↦ ground arith
]

settle_first-account :
    (t : ℕ) (outcome : Result Json) (d : Dict (List BatchRequest)) (b : Batcher)
    → b.batch ≡ d
    → All HasRequest d
    → account t (settle_first outcome d b) ≡ account t b
settle_first-account t outcome [] b same full = refl
settle_first-account t outcome ((k, []) ∷ d) b same full = let wrong = full.0 in cc wrong
settle_first-account t outcome ((k, r ∷ rs) ∷ d) b same full = rw same (
    omega (
      arith,
      settlements-append t b.settled (settle outcome (r ∷ rs)),
      settlements-settle t outcome (r ∷ rs),
    ))

end_batch-account :
    (t : ℕ) (d : Dict (List BatchRequest)) (b : Batcher) → account t (end_batch d b) ≡ account t b
end_batch-account t (e ∷ d) b = refl
end_batch-account t [] b = go b.queue
  where
    go :
        (q : Dict (List BatchRequest))
        → account t (reschedule q (record b { processing = false; running = false })) ≡ account t b
    go [] = refl
    go (e ∷ q) = schedule_batch-account t (record b { processing = false; running = false })

add-account :
    (stringify : Json → Text) (t : ℕ) (endpoint : Text) (params : Json) (u : ℕ) (b : Batcher)
    → account t (add stringify endpoint params u b) ≡ account t b + one_if t u
unfolding add
add-account stringify t endpoint params u b =
    let r : BatchRequest = record {
      id = endpoint ++ lit "-" ++ stringify (params_or_empty params);
      endpoint = endpoint;
      params = params;
      ticket = u;
    } in
    schedule_batch-account t (record b { queue = enqueue r b.queue })
    ∙ omega (arith, waiting-enqueue t r b.queue)

start_batch-account : (t : ℕ) (b : Batcher) → IsServed b → account t (start_batch b) ≡ account t b
unfolding start_batch
start_batch-account t b s = elim (Bool-cases b.timer) [
  | inl y ↦
      let nothing : is_empty b.batch ≡ true = ground (arith, s.one, s.batched) in
      let none_left : waiting t b.batch ≡ 0 = empty-waiting t b.batch nothing in
      ground (arith, waiting-take-drop t 10 b.queue)
  | inr n ↦ ground arith
]
  where
    empty-waiting : (t : ℕ) (d : Dict (List BatchRequest)) → is_empty d ≡ true → waiting t d ≡ 0
    empty-waiting t [] h = refl
    empty-waiting t (e ∷ d) h = cc h

answer-account :
    (t : ℕ) (outcome : Fetched Json) (b : Batcher)
    → IsServed b
    → account t (answer outcome b) ≡ account t b
unfolding answer
answer-account t outcome b s = elim (Bool-cases b.running) [
  | inl y ↦ ground (arith, settle_first-account t (fetch_data outcome) b.batch b refl s.batch_full)
  | inr n ↦ ground arith
]

finish-account : (t : ℕ) (b : Batcher) → account t (finish b) ≡ account t b
unfolding finish
finish-account t b = elim (Bool-cases b.running) [
  | inl y ↦ ground (arith, end_batch-account t b.batch b)
  | inr n ↦ ground arith
]

step-account :
    (stringify : Json → Text) (t : ℕ) (e : Event) (b : Batcher)
    → IsServed b
    → account t (step stringify e b) ≡ account t b + calls t (e ∷ [])
unfolding step
step-account stringify t (called endpoint params u) b s =
    omega (arith, add-account stringify t endpoint params u b)
step-account stringify t timed_out b s = omega (arith, start_batch-account t b s)
step-account stringify t (fetched outcome) b s = omega (arith, answer-account t outcome b s)
step-account stringify t looped b s = omega (arith, finish-account t b)

calls-cons :
    (t : ℕ) (e : Event) (es : List Event) → calls t (e ∷ es) ≡ calls t (e ∷ []) + calls t es
calls-cons t (called endpoint params u) es = omega arith
calls-cons t timed_out es = omega arith
calls-cons t (fetched outcome) es = omega arith
calls-cons t looped es = omega arith

-- Over any run from a served state, each call of `add` is accounted for once: it waits in the queue
-- or in the batch, or its promise has been settled.
pub run-account :
    (stringify : Json → Text) (t : ℕ) (es : List Event) (b : Batcher)
    → IsServed b
    → account t (run stringify es b) ≡ account t b + calls t es
unfolding run
run-account stringify t [] b s = omega arith
run-account stringify t (e ∷ es) b s = omega (
  arith,
  run-account stringify t es (step stringify e b) (step-IsServed stringify e b s),
  step-account stringify t e b s,
  calls-cons t e es,
)

empty-or_busy :
    (t : ℕ) (b : Batcher)
    → IsServed b
    → b.processing ≡ false
    → (waiting t b.queue ≡ 0) × (waiting t b.batch ≡ 0)
empty-or_busy t b s rest =
    (empty b.queue (ground (arith, s.queued)), empty b.batch (ground (arith, s.busy, s.batched)))
  where
    empty : (d : Dict (List BatchRequest)) → is_empty d ≡ true → waiting t d ≡ 0
    empty [] h = refl
    empty (e ∷ d) h = cc h

-- Whenever the batcher is at rest, after any run from its start, every promise that was given out has
-- been settled, and no more often than it was asked for.
pub run-settled :
    (stringify : Json → Text) (t : ℕ) (es : List Event)
    → (run stringify es idle).processing ≡ false
    → settlements t (run stringify es idle).settled ≡ calls t es
run-settled stringify t es rest =
    let b = run stringify es idle in
    let (none_queued, none_left) =
      empty-or_busy t b (run-IsServed stringify es idle idle-IsServed) rest in
    omega (arith, run-account stringify t es idle idle-IsServed, none_queued, none_left)

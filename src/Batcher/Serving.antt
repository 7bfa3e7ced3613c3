-- ===== src/Batcher/Serving.antt =====
-- Nothing waits without a timer or a batch under way.
use multi_rpc.Prelude.{
  ℕ, zero, suc, Bool, true, false, ◌&&◌, ◌||◌, List, [], ◌∷◌, ◌++◌, take, drop, Text, Dict, set,
  Result, ◌≡◌, refl, arith, All,
}
use multi_rpc.Json.{Json}
use multi_rpc.ApiCache.{Fetched}
use multi_rpc.Batcher.{
  Batcher, BatchRequest, idle, schedule_batch, enqueue, add, start_batch, answer, finish, Event,
  called, timed_out, fetched, looped, step, run,
}

abbrev pub is_empty : {A : Type 0} → List A → Bool
is_empty [] = true
is_empty (x ∷ xs) = false

abbrev pub HasRequest : Text × List BatchRequest → Type 0
HasRequest entry = is_empty entry.1 ≡ false

-- `processing` is up while a timer is pending or a batch is under way, and not both are; what waits in
-- the queue has one of them to come, what is left of a batch has the latter; every entry has a request.
pub record IsServed (b : Batcher) : Type 0 where
  pub busy : b.processing ≡ (b.timer || b.running)
  pub one : (b.timer && b.running) ≡ false
  pub queued : (is_empty b.queue || b.processing) ≡ true
  pub batched : (is_empty b.batch || b.running) ≡ true
  pub queue_full : All HasRequest b.queue
  pub batch_full : All HasRequest b.batch

set-full :
    (k : Text) (v : List BatchRequest) (d : Dict (List BatchRequest))
    → is_empty v ≡ false
    → All HasRequest d
    → All HasRequest (set k v d)
unfolding set
set-full k v [] h a = (h, tt)
set-full k v ((k', v') ∷ d) h a = ground (arith, set-full k v d h a.1)

pub drop-full :
    (n : ℕ) (d : Dict (List BatchRequest)) → All HasRequest d → All HasRequest (drop n d)
drop-full zero d a = a
drop-full (suc n) [] a = a
drop-full (suc n) (e ∷ d) a = drop-full n d a.1

pub take-full :
    (n : ℕ) (d : Dict (List BatchRequest)) → All HasRequest d → All HasRequest (take n d)
take-full zero d a = tt
take-full (suc n) [] a = tt
take-full (suc n) (e ∷ d) a = (a.0, take-full n d a.1)

append-not_empty : (rs : List BatchRequest) (r : BatchRequest) → is_empty (rs ++ r ∷ []) ≡ false
append-not_empty [] r = refl
append-not_empty (x ∷ rs) r = refl

abbrev pub Queue : Type 0
Queue = Dict (List BatchRequest)

abbrev pub state :
    Queue → (processing timer running : Bool) → Queue → List (ℕ × Result Json) → Batcher
state queue processing timer running batch settled = record {
  queue = queue;
  processing = processing;
  timer = timer;
  running = running;
  batch = batch;
  settled = settled;
}

add-IsServed :
    (q q' : Queue) (p t r : Bool) (b : Queue) (d : List (ℕ × Result Json))
    → All HasRequest q'
    → IsServed (state q p t r b d)
    → IsServed (schedule_batch (state q' p t r b d))
unfolding schedule_batch
add-IsServed q q' true t r b d a s = record {
  busy = s.busy;
  one = s.one;
  queued = ground arith;
  batched = s.batched;
  queue_full = a;
  batch_full = s.batch_full;
}
add-IsServed q q' false t r b d a s = record {
  busy = refl;
  one = ground (arith, s.busy);
  queued = ground arith;
  batched = s.batched;
  queue_full = a;
  batch_full = s.batch_full;
}

start_batch-IsServed :
    (q : Queue) (p t r : Bool) (b : Queue) (d : List (ℕ × Result Json))
    → IsServed (state q p t r b d)
    → IsServed (start_batch (state q p t r b d))
unfolding start_batch
start_batch-IsServed q p true r b d s = record {
  busy = ground (arith, s.busy);
  one = refl;
  queued = ground (arith, s.busy);
  batched = ground arith;
  queue_full = drop-full 10 q s.queue_full;
  batch_full = take-full 10 q s.queue_full;
}
start_batch-IsServed q p false r b d s = s

answer-IsServed :
    (outcome : Fetched Json) (q : Queue) (p t r : Bool) (b : Queue) (d : List (ℕ × Result Json))
    → IsServed (state q p t r b d)
    → IsServed (answer outcome (state q p t r b d))
unfolding answer
answer-IsServed outcome q p t false b d s = s
answer-IsServed outcome q p t true [] d s = s
answer-IsServed outcome q p t true ((k, []) ∷ b) d s = let wrong = s.batch_full.0 in cc wrong
answer-IsServed outcome q p t true ((k, x ∷ xs) ∷ b) d s = record {
  busy = s.busy;
  one = s.one;
  queued = s.queued;
  batched = ground arith;
  queue_full = s.queue_full;
  batch_full = s.batch_full.1;
}

finish-IsServed :
    (q : Queue) (p t r : Bool) (b : Queue) (d : List (ℕ × Result Json))
    → IsServed (state q p t r b d)
    → IsServed (finish (state q p t r b d))
unfolding finish schedule_batch
finish-IsServed q p t false b d s = s
finish-IsServed q p t true (e ∷ b) d s = s
finish-IsServed [] p t true [] d s = record {
  busy = ground (arith, s.one);
  one = ground (arith, s.one);
  queued = refl;
  batched = refl;
  queue_full = s.queue_full;
  batch_full = s.batch_full;
}
finish-IsServed (e ∷ q) p t true [] d s = record {
  busy = refl;
  one = refl;
  queued = refl;
  batched = refl;
  queue_full = s.queue_full;
  batch_full = s.batch_full;
}

pub step-IsServed :
    (stringify : Json → Text) (e : Event) (b : Batcher) → IsServed b → IsServed (step stringify e b)
unfolding step add enqueue
step-IsServed stringify (called endpoint params ticket) b s =
    add-IsServed b.queue _ b.processing b.timer b.running b.batch b.settled
      (set-full _ _ b.queue (append-not_empty _ _) s.queue_full) s
step-IsServed stringify timed_out b s =
    start_batch-IsServed b.queue b.processing b.timer b.running b.batch b.settled s
step-IsServed stringify (fetched outcome) b s =
    answer-IsServed outcome b.queue b.processing b.timer b.running b.batch b.settled s
step-IsServed stringify looped b s =
    finish-IsServed b.queue b.processing b.timer b.running b.batch b.settled s

-- From a served state, whatever happens, in whatever order, the batcher stays served: no request
-- waits in the queue or in a batch without a timer or a batch under way that is to take it up.
pub run-IsServed :
    (stringify : Json → Text) (es : List Event) (b : Batcher)
    → IsServed b
    → IsServed (run stringify es b)
unfolding run
run-IsServed stringify [] b s = s
run-IsServed stringify (e ∷ es) b s =
    run-IsServed stringify es (step stringify e b) (step-IsServed stringify e b s)

pub idle-IsServed : IsServed idle
idle-IsServed = record {
  busy = refl;
  one = refl;
  queued = refl;
  batched = refl;
  queue_full = tt;
  batch_full = tt;
}

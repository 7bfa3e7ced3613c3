-- ===== src/Batcher.antt =====
-- web-ui/src/lib/request-batcher.ts: `RequestBatcher`. A request that waits is known by a ticket, for
-- the promise that `add` returned. The pending `setTimeout` and the suspended `processBatch` are part
-- of the state: `timer`, `running` and `batch`. `JSON.stringify` is a parameter.
pub mod Settling
pub mod Serving
pub mod Resting
use multi_rpc.Prelude.{
  ℕ, zero, suc, Bool, true, false, ◌&&◌, Option, none, some, List, [], ◌∷◌, ◌++◌, map, take, drop,
  Text, lit, Dict, get, set, Result, ok, err, if◌then◌else◌, pos,
}
use multi_rpc.Json.{Json, Fields}
use multi_rpc.ApiCache.{Fetched, threw, not_ok, answered}

pub record BatchRequest : Type 0 where
  pub id : Text
  pub endpoint : Text
  pub params : Json
  pub ticket : ℕ

pub record Batcher : Type 0 where
  pub queue : Dict (List BatchRequest)
  pub processing : Bool
  -- a call of `processBatch` is due
  pub timer : Bool
  -- `processBatch` is under way, with these entries left
  pub running : Bool
  pub batch : Dict (List BatchRequest)
  -- the promises that were resolved or rejected
  pub settled : List (ℕ × Result Json)

abbrev pub idle : Batcher
idle = record {
  queue = [];
  processing = false;
  timer = false;
  running = false;
  batch = [];
  settled = [];
}

abbrev pub max_batch_size : ℕ
max_batch_size = 10

-- `params || {}`
abbrev pub params_or_empty : Json → Json
params_or_empty Json.undefined = Json.obj Fields.end
params_or_empty Json.null = Json.obj Fields.end
params_or_empty (Json.bool false) = Json.obj Fields.end
params_or_empty (Json.bool true) = Json.bool true
params_or_empty (Json.num (pos zero)) = Json.obj Fields.end
params_or_empty (Json.num n) = Json.num n
params_or_empty (Json.str []) = Json.obj Fields.end
params_or_empty (Json.str (c ∷ s)) = Json.str (c ∷ s)
params_or_empty (Json.arr v) = Json.arr v
params_or_empty (Json.obj v) = Json.obj v

abbrev pub group : Option (List BatchRequest) → List BatchRequest
group none = []
group (some requests) = requests

-- `scheduleBatch()`
unfoldable pub schedule_batch : Batcher → Batcher
schedule_batch b = if b.processing then b else record b { processing = true; timer = true }

-- the push of `add`
unfoldable pub enqueue : BatchRequest → Dict (List BatchRequest) → Dict (List BatchRequest)
enqueue r queue = set r.id (group (get r.id queue) ++ r ∷ []) queue

-- `add(endpoint, params)`
unfoldable pub add : (Json → Text) → Text → Json → ℕ → Batcher → Batcher
add stringify endpoint params ticket b =
    let r : BatchRequest = record {
      id = endpoint ++ lit "-" ++ stringify (params_or_empty params);
      endpoint = endpoint;
      params = params;
      ticket = ticket;
    } in
    schedule_batch (record b { queue = enqueue r b.queue })

-- the beginning of `processBatch`: the first entries of the queue become the batch
unfoldable pub start_batch : Batcher → Batcher
start_batch b =
    if b.timer
    then record b {
      timer = false;
      running = true;
      batch = take max_batch_size b.queue;
      queue = drop max_batch_size b.queue;
    }
    else b

-- `fetchData`, by what its `fetch` comes to
unfoldable pub fetch_data : Fetched Json → Result Json
fetch_data (threw message) = err message
fetch_data (not_ok status_text) = err (lit "Failed to fetch: " ++ status_text)
fetch_data (answered outcome) = outcome

abbrev pub settle : Result Json → List BatchRequest → List (ℕ × Result Json)
settle outcome requests = map (λ r. (r.ticket, outcome)) requests

-- one turn of the loop; an entry with no request would end `processBatch` with an exception
abbrev pub settle_first : Result Json → Dict (List BatchRequest) → Batcher → Batcher
settle_first outcome [] b = b
settle_first outcome ((key, []) ∷ rest) b = record b { running = false; batch = [] }
settle_first outcome ((key, r ∷ requests) ∷ rest) b = record b {
  batch = rest;
  settled = b.settled ++ settle outcome (r ∷ requests);
}

unfoldable pub answer : Fetched Json → Batcher → Batcher
answer outcome b = if b.running then settle_first (fetch_data outcome) b.batch b else b

abbrev pub reschedule : Dict (List BatchRequest) → Batcher → Batcher
reschedule [] b = b
reschedule (entry ∷ queue) b = schedule_batch b

abbrev pub end_batch : Dict (List BatchRequest) → Batcher → Batcher
end_batch [] b = reschedule b.queue (record b { processing = false; running = false })
end_batch (entry ∷ batch) b = b

-- the end of `processBatch`, after the last turn
unfoldable pub finish : Batcher → Batcher
finish b = if b.running then end_batch b.batch b else b

-- What may happen next: a call of `add`, the timer, the answer to the fetch that is awaited, and the
-- end of the loop. An event that cannot happen in a state leaves it.
pub data Event : Type 0 where
  called : (endpoint : Text) (params : Json) (ticket : ℕ) → Event
  timed_out : Event
  fetched : Fetched Json → Event
  looped : Event

unfoldable pub step : (Json → Text) → Event → Batcher → Batcher
step stringify (called endpoint params ticket) b = add stringify endpoint params ticket b
step stringify timed_out b = start_batch b
step stringify (fetched outcome) b = answer outcome b
step stringify looped b = finish b

unfoldable pub run : (Json → Text) → List Event → Batcher → Batcher
run stringify [] b = b
run stringify (e ∷ es) b = run stringify es (step stringify e b)

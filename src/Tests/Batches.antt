-- ===== src/Tests/Batches.antt =====
-- Requests that share a fetch.
use multi_rpc.Prelude.{◌≡◌, refl, false, List, [], ◌∷◌, Text, lit, ok, get, set, text_eq}
use multi_rpc.Json.{Json}
use multi_rpc.ApiCache.{answered, threw}
use multi_rpc.Batcher.{
  Event, called, timed_out, fetched, looped, idle, run, step, add, enqueue, schedule_batch,
  start_batch, answer, fetch_data, finish,
}
use multi_rpc.Batcher.Serving.{IsServed, run-IsServed, idle-IsServed}
use multi_rpc.Batcher.Resting.{Quiet, run-rests}
use multi_rpc.Batcher.Settling.{calls, settlements, run-settled}

abbrev no_text : Json → Text
no_text v = []

-- two calls with the same parameters, answered by one fetch
abbrev events : List Event
events =
    called (lit "/api/a") Json.undefined 1
    ∷ called (lit "/api/a") Json.undefined 2
    ∷ timed_out
    ∷ fetched (answered (ok Json.null))
    ∷ looped
    ∷ []

run-IsServed_example : IsServed (run no_text events idle)
run-IsServed_example = run-IsServed no_text events idle idle-IsServed

at_rest : (run no_text events idle).processing ≡ false
unfolding run step add enqueue schedule_batch start_batch answer fetch_data finish get set text_eq
at_rest = refl

run-settled_example : settlements 2 (run no_text events idle).settled ≡ calls 2 events
run-settled_example = run-settled no_text 2 events at_rest

abbrev one_call : List Event
one_call = called (lit "/api/a") Json.undefined 1 ∷ []

run-rests_example :
    (es : List Event) × Quiet (threw (lit "offline")) es
    × ((run no_text es (run no_text one_call idle)).processing ≡ false)
run-rests_example =
    run-rests no_text (threw (lit "offline")) (run no_text one_call idle)
      (run-IsServed no_text one_call idle idle-IsServed)

-- ===== src/Tests/Proxy.antt =====
-- Requests to the RPC proxy, and its choices of endpoints.
use multi_rpc.Prelude.{
  ℕ, ◌≡◌, ◌⊎◌, refl, true, false, none, some, List, [], ◌∷◌, lit, pos, text_eq, starts_with, any,
  ok, get, set, modify, remove_where, to_decimal,
}
use multi_rpc.Json.{Json, Items, Fields, elements, is_array, property, items, lookup_field}
use multi_rpc.Limiter.{check, cache_key, current_entry, result_of, cleanup, get_rate_limit_headers}
use multi_rpc.Limiter.Usage.{record_usage}
use multi_rpc.Rpc.Balancer.{
  Env, rpc_backend_url, first_url, rpc_endpoints, known_healthy, may_be_healthy, healthy_endpoints,
  get_next_endpoint, rotate,
}
use multi_rpc.Rpc.Balancer.Choosing.{get_next_endpoint-choice}
use multi_rpc.Rpc.Post.{
  RpcCall, upstream, Response, batch, Shared, authenticate, authenticate_by, post, handle, limit,
  admit, serve, process, process_one, ask, next_endpoint, note_usage, note_for, success,
}
use multi_rpc.Rpc.Post.Replies.{Served, post-Served}
use multi_rpc.Tests.Memory.{memory}
use multi_rpc.Platform.{KeyRow}

abbrev env : Env
env name = none

abbrev alone : List KeyRow → Shared → Shared
alone w shared = shared

abbrev shared : Shared
shared = record { limiter = []; balancer = record { current_index = 0; health_status = [] } }

abbrev slot : ℕ → Json
slot n = Json.obj (
    Fields.field (lit "id") (Json.num (pos n))
      (Fields.field (lit "method") (Json.str (lit "getSlot")) Fields.end))

abbrev bearer : RpcCall
bearer = record {
  api_key = none;
  authorization = some (lit "Bearer x");
  body = ok (Json.arr (Items.cons (slot 1) (Items.cons (slot 2) Items.nil)));
}

abbrev served : Response
served = record {
  status = 200;
  body = batch (upstream (slot 1) ∷ upstream (slot 2) ∷ []);
  headers =
      (lit "X-RateLimit-Limit", lit "100")
      ∷ (lit "X-RateLimit-Remaining", lit "99")
      ∷ (lit "X-RateLimit-Reset", lit "2000")
      ∷ (lit "X-Response-Time", lit "0ms")
      ∷ [];
}

answered : (post memory env alone bearer shared []).0 ≡ ok served
unfolding post handle authenticate authenticate_by admit limit check cache_key current_entry
    result_of get text_eq to_decimal serve process process_one next_endpoint get_next_endpoint set
    rpc_backend_url rotate healthy_endpoints rpc_endpoints first_url ask note_usage note_for success
    elements is_array items property lookup_field record_usage get_rate_limit_headers cleanup
    remove_where modify starts_with
answered = refl

post-Served_example :
    Served memory env alone bearer (record { shared = shared; world = []; responses = [] }) served
post-Served_example = post-Served memory env alone bearer shared [] served answered refl

get_next_endpoint-choice_example :
    let lb = shared.balancer in
    let url = (get_next_endpoint env 5 lb).url in
    ((known_healthy (get (rpc_backend_url env) lb.health_status) ≡ true)
      × (url ≡ rpc_backend_url env))
    ⊎ ((known_healthy (get (rpc_backend_url env) lb.health_status) ≡ false)
        × (any (λ ep. text_eq ep.url url) (rpc_endpoints env) ≡ true)
        × (may_be_healthy (get url lb.health_status) ≡ true))
    ⊎ ((known_healthy (get (rpc_backend_url env) lb.health_status) ≡ false)
        × (any (λ ep. may_be_healthy (get ep.url lb.health_status)) (rpc_endpoints env) ≡ false)
        × (url ≡ first_url env))
get_next_endpoint-choice_example = get_next_endpoint-choice env 5 shared.balancer

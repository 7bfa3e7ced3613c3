-- ===== src/RpcClient.antt =====
-- web-ui/src/lib/rpc-client.ts: `RpcClient` and `solanaRpcMethods`. `fetch` is a parameter: it is given
-- the address, the headers and the body, if there is one.
pub mod Answers
use multi_rpc.Prelude.{
  ℕ, Bool, true, false, Option, none, some, List, [], ◌∷◌, ◌++◌, Text, lit, pos, Result, ok, err,
  Act, ◌>>=◌, return, throw, to_decimal, if◌then◌else◌,
}
use multi_rpc.Json.{Json, Items, Fields}

pub record HttpAnswer : Type 0 where
  pub is_ok : Bool
  pub status : ℕ
  pub json : Result Json

pub record RpcClient : Type 0 where
  pub api_key : Text
  pub base_url : Text

-- `{ jsonrpc: "2.0", id: 1, method, … }`
abbrev call_with : Text → Fields → Json
call_with method rest = Json.obj (
    Fields.field (lit "jsonrpc") (Json.str (lit "2.0")) (
      Fields.field (lit "id") (Json.num (pos 1))
        (Fields.field (lit "method") (Json.str method) rest)))

unfoldable pub rpc_request : Text → Json
rpc_request method = call_with method Fields.end

unfoldable pub rpc_request_with : Text → Items → Json
rpc_request_with method params =
    call_with method (Fields.field (lit "params") (Json.arr params) Fields.end)

abbrev text_and : Text → Fields → Items
text_and t options = Items.cons (Json.str t) (Items.cons (Json.obj options) Items.nil)

unfoldable pub get_balance : Text → Json
get_balance address = rpc_request_with (lit "getBalance") (Items.cons (Json.str address) Items.nil)

unfoldable pub get_account_info : Text → Json
get_account_info address =
    rpc_request_with (lit "getAccountInfo")
      (text_and address (Fields.field (lit "encoding") (Json.str (lit "base58")) Fields.end))

unfoldable pub get_transaction : Text → Json
get_transaction signature = rpc_request_with (lit "getTransaction") (
    text_and signature (
      Fields.field (lit "encoding") (Json.str (lit "json"))
        (Fields.field (lit "maxSupportedTransactionVersion") (Json.num (pos 0)) Fields.end)))

unfoldable pub send_transaction : Text → Json
send_transaction transaction =
    rpc_request_with (lit "sendTransaction")
      (text_and transaction (Fields.field (lit "skipPreflight") (Json.bool false) Fields.end))

module _ {World : Type 0}
    (fetch : Text → List (Text × Text) → Option Json → Act World HttpAnswer) where
  abbrev key_header : RpcClient → List (Text × Text)
  key_header client = (lit "X-API-Key", client.api_key) ∷ []

  abbrev json_of : HttpAnswer → Act World Json
  json_of answer w = (answer.json, w)

  -- what each method does with the answer
  abbrev checked : HttpAnswer → Act World Json
  checked answer =
      if answer.is_ok
      then json_of answer
      else throw (lit "HTTP error! status: " ++ to_decimal answer.status)

  abbrev post_json : RpcClient → Json → Act World Json
  post_json client body = do
    answer ←
        fetch client.base_url ((lit "Content-Type", lit "application/json") ∷ key_header client)
          (some body)
    checked answer

  abbrev get_json : RpcClient → Text → Act World Json
  get_json client path = do
    answer ← fetch (client.base_url ++ path) (key_header client) none
    checked answer

  -- `sendRequest(request)`
  unfoldable pub send_request : RpcClient → Json → Act World Json
  send_request client request = post_json client request

  -- `batchRequest(requests)`
  unfoldable pub batch_request : RpcClient → Items → Act World Json
  batch_request client requests = post_json client (Json.arr requests)

  -- `getStats()`
  unfoldable pub get_stats : RpcClient → Act World Json
  get_stats client = get_json client (lit "/api/stats")

  -- `getEndpointHealth()`
  unfoldable pub get_endpoint_health : RpcClient → Act World Json
  get_endpoint_health client = get_json client (lit "/admin/health")

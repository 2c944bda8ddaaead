-- ===== src/Onchain/Client.antt =====
-- internal/payment/onchain/client.go: bitcoind's JSON-RPC interface.
use blockade.Prelude.{
  rpc, rpc_code, Result, ok, err, context, Go, Bytes, bytes, String, Option, none, some, List, [],
  ◌∷◌, ◌++◌,
}
use blockade.Prelude.Int.{ℤ}
use blockade.Prelude.State.{pure, lift, within, ◌>>=◌}
use blockade.Std.Base64
use blockade.Std.Http.{Header, set}
use blockade.Std.Json
use blockade.Std.Json.{text, number}

-- rpcRequest; jsonrpc and id are the same in every request.
pub record RpcRequest : Type 0 where
  pub method : String
  pub params : List Json.Value

pub record RpcError : Type 0 where
  pub code : ℤ
  pub message : Bytes

-- rpcResponse; `J` is a raw JSON value.
pub record RpcResponse (J : Type 0) : Type 0 where
  pub result : J
  pub rpc_error : Option RpcError

-- http.Request, as it is sent.
pub record HttpRequest : Type 0 where
  pub method : String
  pub url : Bytes
  pub header : Header
  pub body : Bytes

-- The network with bitcoind behind it, over its state `E`, and the parts of the standard library that
-- depend on floating-point numbers and on the JSON that arrives.
pub record Net (J F E : Type 0) : Type 0 where
  -- whether http.NewRequestWithContext can parse the URL
  pub parse_url : Bytes → Result (Unit {0})
  -- http.Client.Do, with the body that comes back
  pub exchange : HttpRequest → Go E Bytes
  -- json.NewDecoder(body).Decode(&rpcResp)
  pub decode : Bytes → Result (RpcResponse J)
  -- json.Unmarshal of a raw value into a string and into a float64
  pub to_text : J → Result Bytes
  pub to_float : J → Result F
  -- int64(math.Round(x * 1e8))
  pub to_sats : F → ℤ

-- Client, with the network as its `http` field.
pub record Rpc (J F E : Type 0) : Type 0 where
  pub endpoint : Bytes
  pub auth_hdr : Bytes
  pub net : Net J F E

unfoldable pub new_client : {J F E : Type 0} → Net J F E → Bytes → Bytes → Bytes → Rpc J F E
new_client net host user pass = record {
  endpoint = bytes "http://" ++ (host ++ bytes "/wallet/paywall");
  auth_hdr = bytes "Basic " ++ Base64.encode (user ++ (b':' ∷ pass));
  net = net;
}

-- json.Marshal of a request, which cannot fail on texts and integers.
unfoldable pub marshal_request : RpcRequest → Bytes
unfolding Json.quote Json.array
marshal_request r =
    bytes "{\"jsonrpc\":\"1.1\",\"id\":\"btc-paywall\",\"method\":"
    ++ (Json.quote (bytes r.method) ++ (bytes ",\"params\":" ++ (Json.array r.params ++ bytes "}")))

module _ {J F E : Type 0} (client : Rpc J F E) where
  unfoldable pub http_request : String → List Json.Value → HttpRequest
  unfolding marshal_request set
  http_request method params = record {
    method = "POST";
    url = client.endpoint;
    header = set "Authorization" client.auth_hdr (set "Content-Type" (bytes "application/json") []);
    body = marshal_request (record { method = method; params = params });
  }

  -- `fmt.Errorf("rpc %s: %w", method, err)`
  abbrev pub in_rpc : {A : Type 0} → String → Result A → Result A
  in_rpc method (ok a) = ok a
  in_rpc method (err e) = err (rpc method e)

  unfoldable pub call : {A : Type 0} → String → List Json.Value → (J → Result A) → Go E A
  call method params unmarshal = do
    _ ← lift (client.net.parse_url client.endpoint)
    body ← λ e.
        let (r, e') = client.net.exchange (http_request method params) e in (in_rpc method r, e')
    resp ← lift (in_rpc method (context "decode response" (client.net.decode body)))
    elim resp.rpc_error [
      | some e ↦ lift (err (rpc_code method e.code e.message))
      | none ↦ lift (unmarshal resp.result)
    ]

  unfoldable pub get_new_address : Go E Bytes
  get_new_address =
      within "getnewaddress"
        (call "getnewaddress" (text [] ∷ text (bytes "bech32") ∷ []) client.net.to_text)

  unfoldable pub get_received_sats : Bytes → ℤ → Go E ℤ
  get_received_sats addr min_conf = do
    btc_amount ←
        within "getreceivedbyaddress"
          (call "getreceivedbyaddress" (text addr ∷ number min_conf ∷ []) client.net.to_float)
    pure (client.net.to_sats btc_amount)

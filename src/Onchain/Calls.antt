-- ===== src/Onchain/Calls.antt =====
-- NewClient and the calls of internal/payment/onchain/client.go: what is sent to bitcoind, and which
-- answers succeed.
use blockade.Prelude.{
  Option-cases, All, All-append, Result, ok, Result-cases, Bytes, IsBytes, bytes, String, ◌≡◌, refl,
  ◌∙◌, ◌↔◌, inl, inr, none, List, [], ◌∷◌, ◌++◌, arith,
}
use blockade.Prelude.Int.{ℤ}
use blockade.Std.Strings.{decimal_ℤ}
use blockade.Std.Base64
use blockade.Std.Base64.Laws
use blockade.Std.Http.{get, set}
use blockade.Std.Json
use blockade.Std.Json.{text, number}
use blockade.Std.Json.Laws.{IsPlain, escapes-plain}
use mathlib.Core.List.{append_assoc}
use blockade.Onchain.Client.{
  Net, Rpc, RpcResponse, HttpRequest, new_client, marshal_request, http_request, call,
  get_received_sats,
}

-- The request for what an address has received: a POST to the wallet's endpoint at the host, whose
-- credentials decode to the user and the password, and whose body names the method, the address and
-- the number of confirmations.
pub record Asks (host user pass addr : Bytes) (min_conf : ℤ) (r : HttpRequest) : Type 0 where
  pub posts : r.method ≡ "POST"
  pub goes_to : r.url ≡ bytes "http://" ++ (host ++ bytes "/wallet/paywall")
  pub authorizes :
      (c : Bytes) × (get "Authorization" r.header ≡ bytes "Basic " ++ c)
      × (Base64.decode c ≡ ok (user ++ (b':' ∷ pass)))
  pub says :
      r.body
      ≡ bytes
          "{\"jsonrpc\":\"1.1\",\"id\":\"btc-paywall\",\"method\":\"getreceivedbyaddress\",\"params\":[\""
        ++ (addr ++ (bytes "\"," ++ (decimal_ℤ min_conf ++ bytes "]}")))

module _ {J F E : Type 0} (net : Net J F E) where
  basic_auth :
      (host user pass : Bytes)
      → IsBytes user
      → IsBytes pass
      → (c : Bytes) × ((new_client net host user pass).auth_hdr ≡ bytes "Basic " ++ c)
        × (Base64.decode c ≡ ok (user ++ (b':' ∷ pass)))
  unfolding new_client
  basic_auth host user pass hu hp = (
    _,
    refl,
    Base64.Laws.decode-encode (user ++ (b':' ∷ pass))
        (All-append _ user (b':' ∷ pass) hu (omega arith, hp)),
  )

  body-says :
      (addr : Bytes) (min_conf : ℤ)
      → All IsPlain addr
      → marshal_request
          (record { method = "getreceivedbyaddress"; params = text addr ∷ number min_conf ∷ [] })
        ≡ bytes
            "{\"jsonrpc\":\"1.1\",\"id\":\"btc-paywall\",\"method\":\"getreceivedbyaddress\",\"params\":[\""
          ++ (addr ++ (bytes "\"," ++ (decimal_ℤ min_conf ++ bytes "]}")))
  unfolding marshal_request Json.array Json.quote
  body-says addr min_conf plain = simp (escapes-plain addr plain, append_assoc)

  http_request-Asks :
      (host user pass addr : Bytes) (min_conf : ℤ)
      → IsBytes user
      → IsBytes pass
      → All IsPlain addr
      → Asks host user pass addr min_conf (
          http_request
            (new_client net host user pass)
            "getreceivedbyaddress"
            (text addr ∷ number min_conf ∷ []))
  unfolding http_request new_client get set
  http_request-Asks host user pass addr min_conf hu hp plain = record {
    posts = refl;
    goes_to = refl;
    authorizes = basic_auth host user pass hu hp;
    says = body-says addr min_conf plain;
  }

module _ {J F E : Type 0} (client : Rpc J F E) where
  -- bitcoind answered the call without an error, and the answer reads as `a`.
  pub record Answered {A : Type 0} (method : String) (params : List Json.Value)
      (unmarshal : J → Result A) (e : E) (a : A) (body : Bytes) (resp : RpcResponse J)
      : Type 0 where
    pub parses : client.net.parse_url client.endpoint ≡ ok tt
    pub comes : (client.net.exchange (http_request client method params) e).0 ≡ ok body
    pub decodes : client.net.decode body ≡ ok resp
    pub clean : resp.rpc_error ≡ none
    pub reads : unmarshal resp.result ≡ ok a

  module _ {A : Type 0} (method : String) (params : List Json.Value)
      (unmarshal : J → Result A) where
    call-Answered :
        (e : E) (a : A)
        → (call client method params unmarshal e).0 ≡ ok a
        → (body : Bytes) × (resp : RpcResponse J) × Answered method params unmarshal e a body resp
    unfolding call
    call-Answered e a h = elim (Result-cases (client.net.parse_url client.endpoint)) [
      | inr (x, p) ↦ absurd (ground (arith, p))
      | inl (u, p) ↦
          elim (Result-cases (client.net.exchange (http_request client method params) e).0) [
            | inr (x, q) ↦ absurd (ground (arith, p, q))
            | inl (body, q) ↦ elim (Result-cases (client.net.decode body)) [
              | inr (x, d) ↦ absurd (ground (arith, p, q, d))
              | inl (resp, d) ↦ elim (Option-cases resp.rpc_error) [
                | inr (x, c) ↦ absurd (ground (arith, p, q, d, c))
                | inl c ↦ (
                  body,
                  resp,
                  record {
                    parses = p;
                    comes = q;
                    decodes = d;
                    clean = c;
                    reads = ground (arith, p, q, d, c);
                  },
                )
              ]
            ]
          ]
    ]

    call_answers :
        (e : E) (a : A) (body : Bytes) (resp : RpcResponse J)
        → Answered method params unmarshal e a body resp
        → (call client method params unmarshal e).0 ≡ ok a
    unfolding call
    call_answers e a body resp y = ground (arith, y.parses, y.comes, y.decodes, y.clean, y.reads)

  -- GetReceivedSats returns an amount exactly if the URL parses, bitcoind's response comes back and
  -- decodes with no error in it, and its result reads as a number that rounds to that amount.
  pub get_received_sats_iff :
      (addr : Bytes) (min_conf : ℤ) (e : E) (sats : ℤ)
      → ((get_received_sats client addr min_conf e).0 ≡ ok sats) ↔ (
          (amount : F) × (body : Bytes) × (resp : RpcResponse J) × (sats
            ≡ client.net.to_sats amount)
          × Answered "getreceivedbyaddress"
              (text addr ∷ number min_conf ∷ [])
              client.net.to_float
              e
              amount
              body
              resp)
  unfolding get_received_sats
  get_received_sats_iff addr min_conf e sats =
      let ps = text addr ∷ number min_conf ∷ [] in
      let m : String = "getreceivedbyaddress" in
      (
        λ h. elim (Result-cases (call client m ps client.net.to_float e).0) [
          | inr (x, q) ↦ absurd (ground (arith, q))
          | inl (amount, q) ↦
              let (body, resp, y) = call-Answered m ps client.net.to_float e amount q in
              (amount, body, resp, ground (arith, q), y)
        ],
        λ (amount, body, resp, s, y).
            ground (arith, s, call_answers m ps client.net.to_float e amount body resp y),
      )

module _ {J F E : Type 0} (net : Net J F E) where
  -- Where the endpoint parses, a call to bitcoind makes one exchange, of the call's request.
  call-exchanges :
      (host user pass : Bytes) {A : Type 0} (method : String) (params : List Json.Value)
      (unmarshal : J → Result A) (e : E)
      → net.parse_url (bytes "http://" ++ (host ++ bytes "/wallet/paywall")) ≡ ok tt
      → (call (new_client net host user pass) method params unmarshal e).1
        ≡ (net.exchange (http_request (new_client net host user pass) method params) e).1
  unfolding call new_client
  call-exchanges host user pass method params unmarshal e parses = ground (arith, parses)

  only_call :
      (client : Rpc J F E) (addr : Bytes) (min_conf : ℤ) (e : E)
      → (get_received_sats client addr min_conf e).1
        ≡ (call client "getreceivedbyaddress"
            (text addr ∷ number min_conf ∷ [])
            client.net.to_float
            e).1
  unfolding get_received_sats
  only_call client addr min_conf e = ground arith

  -- What GetReceivedSats asks bitcoind for. With credentials of bytes, an address that needs no
  -- escape and a host that makes a URL, it makes one exchange. Its request is a POST to the wallet's
  -- endpoint, authorized by the user and the password that the client was made with, for what that
  -- address has received with that number of confirmations; and the amount that it returns, if it
  -- returns one, is read from the answer to that request.
  pub get_received_sats-Asks :
      (host user pass addr : Bytes) (min_conf : ℤ) (e : E)
      → IsBytes user
      → IsBytes pass
      → All IsPlain addr
      → net.parse_url (bytes "http://" ++ (host ++ bytes "/wallet/paywall")) ≡ ok tt
      → (r : HttpRequest) × Asks host user pass addr min_conf r
        × ((get_received_sats (new_client net host user pass) addr min_conf e).1
            ≡ (net.exchange r e).1)
        × ((sats : ℤ)
            → (get_received_sats (new_client net host user pass) addr min_conf e).0 ≡ ok sats
            → (body : Bytes) × (resp : RpcResponse J) × (amount : F) × ((net.exchange r e).0
                ≡ ok body)
              × (net.decode body ≡ ok resp)
              × (net.to_float resp.result ≡ ok amount)
              × (sats ≡ net.to_sats amount))
  unfolding new_client
  get_received_sats-Asks host user pass addr min_conf e hu hp plain parses =
      let client = new_client net host user pass in
      let params = text addr ∷ number min_conf ∷ [] in
      (
        http_request client "getreceivedbyaddress" params,
        http_request-Asks net host user pass addr min_conf hu hp plain,
        only_call client addr min_conf e
            ∙ call-exchanges host user pass "getreceivedbyaddress" params net.to_float e parses,
        λ sats got.
            let (amount, body, resp, s, y) =
              (get_received_sats_iff client addr min_conf e sats).0 got in
            (body, resp, amount, y.comes, y.decodes, y.reads, s),
      )

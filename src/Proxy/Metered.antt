-- ===== src/Proxy/Metered.antt =====
-- serveMetered and completeEnrollment of internal/proxy/proxy.go: the three tiers of the cost curve.
use blockade.Prelude.{
  if◌then◌else◌, ok, err, ◌==◌, Bytes, bytes, ℕ, ◌/◌, Option, none, some, [], ◌∷◌,
}
use blockade.Prelude.Int.{ℤ, pos, ◌+ℤ◌, leb_ℤ, wrap64}
use blockade.Std.Http.{
  Request, Writer, str, error_line, json, get, del, set_header, write_header, write, error,
  error_with,
}
use blockade.Price.{with_price, curve_price}
use blockade.Store.Principal.{PrincipalRecord}
use blockade.Proxy.Handler.{
  Handler, State, Route, Metering, authorization_header, credential_header, forward, with_proof,
  challenge, rate_limited, client_ip, anon_count, increment_anon_count, track_pending_enrollment,
  is_pending_enrollment, remove_pending_enrollment,
}

module _ {V P N F : Type 0} (h : Handler V P N F) (m : Metering V P) where
  -- The price of the next request of a principal.
  unfoldable pub next_price : PrincipalRecord → ℤ
  next_price rec =
      curve_price (wrap64 (rec.request_count +ℤ pos 1)) m.curve.floor_toll_sats
        m.curve.escalation_slope

  -- After VerifyProof in tier 3: count the request, and send it on without its credentials.
  unfoldable pub count_and_forward :
      Bytes → Request → Writer → Route → State V P N → Writer × State V P N
  count_and_forward principal_id r w rt s =
      let (counted, p) = m.principals.increment_request_count principal_id s.principal_state in
      let s' : State V P N = record s { principal_state = p } in
      elim counted [
        | err e ↦ (error "metering error" 500 w, s')
        | ok n ↦
            forward h rt
              (record r { header = del credential_header (del authorization_header r.header) }) w s'
      ]

  -- Tier 3 for a principal that is known.
  unfoldable pub serve_principal :
      ℕ
      → Bytes
      → PrincipalRecord
      → Option Bytes
      → Request
      → Writer
      → Route
      → State V P N
      → Writer × State V P N
  serve_principal now principal_id rec none r w rt = challenge h now (next_price rec) r w
  serve_principal now principal_id rec (some token) r w rt =
      with_proof h now token w (count_and_forward principal_id r w rt)

  -- Tier 3.
  unfoldable pub serve_credentialed :
      ℕ → Bytes → Option Bytes → Request → Writer → Route → State V P N → Writer × State V P N
  serve_credentialed now cred_b64 token r w rt s =
      elim (m.cred_issuer.validate_credential cred_b64) [
        | err e ↦ (error "invalid credential" 401 w, s)
        | ok principal_id ↦
            let (found, p) = m.principals.get_principal principal_id s.principal_state in
            let s' : State V P N = record s { principal_state = p } in
            elim found [
              | err e ↦ (error "principal lookup error" 500 w, s')
              | ok none ↦ (error "unknown principal" 401 w, s')
              | ok (some rec) ↦ serve_principal now principal_id rec token r w rt s'
            ]
      ]

  -- completeEnrollment after CompleteEnrollment succeeded; `now / 10 ^ 9` is its Unix time.
  unfoldable pub enrolled : ℕ → Bytes → Bytes → Bytes → Writer → State V P N → Writer × State V P N
  unfolding remove_pending_enrollment
  enrolled now ph_hex principal_id cred_b64 w s =
      let (created, p) =
        m.principals.create_principal principal_id (pos (now / 1_000_000_000)) s.principal_state in
      let s' : State V P N = record s {
        pending_enrollments = remove_pending_enrollment ph_hex s.pending_enrollments;
        principal_state = p;
      } in
      elim created [
        | err e ↦ (error "failed to create principal" 500 w, s')
        | ok u ↦ (
          write (json (("credential", str cred_b64) ∷ ("principal_id", str principal_id) ∷ [])) (
              write_header 200 (
                set_header "Content-Type" (bytes "application/json")
                  (set_header credential_header cred_b64 w))),
          s',
        )
      ]

  unfoldable pub complete_enrollment :
      ℕ → Bytes → Bytes → Writer → State V P N → Writer × State V P N
  complete_enrollment now token ph_hex w s =
      let (completed, b) = m.cred_issuer.complete_enrollment now token s.backend in
      let s' : State V P N = record s { backend = b } in
      elim completed [
        | err e ↦ (error_with (error_line "enrollment verification failed: " e) 401 w, s')
        | ok (principal_id, cred_b64) ↦ enrolled now ph_hex principal_id cred_b64 w s'
      ]

  -- h.isPendingEnrollment of the token's payment hash, where it has one: the hash.
  unfoldable pub pending_hash : Bytes → State V P N → Option Bytes
  unfolding is_pending_enrollment
  pending_hash token s = elim (m.cred_issuer.payment_hash_from_token token) [
    | err e ↦ none
    | ok ph_hex ↦ if is_pending_enrollment ph_hex s.pending_enrollments then some ph_hex else none
  ]

  -- An anonymous request that has paid: it is counted for its address and sent on.
  unfoldable pub count_anonymous : Request → Writer → Route → State V P N → Writer × State V P N
  count_anonymous r w rt s =
      forward h rt (record r { header = del authorization_header r.header }) w
        (record s { anon_counts = increment_anon_count (client_ip r) s.anon_counts })

  -- A token without a credential.
  unfoldable pub serve_token :
      ℕ → Bytes → Request → Writer → Route → State V P N → Writer × State V P N
  serve_token now token r w rt s = elim (pending_hash token s) [
    | some ph_hex ↦ complete_enrollment now token ph_hex w s
    | none ↦ with_proof h now token w (count_anonymous r w rt) s
  ]

  -- The enrolment challenge, whose payment hash is tracked.
  unfoldable pub enrollment_challenge : ℕ → Request → Writer → State V P N → Writer × State V P N
  unfolding track_pending_enrollment
  enrollment_challenge now r w s =
      let (issued, b) =
        m.cred_issuer.issue_enrollment_challenge now (with_price m.curve.enrollment_stake_sats r) w
          s.backend in
      let s' : State V P N = record s { backend = b } in
      elim issued [
        | err e ↦ (error "failed to create enrollment challenge" 500 w, s')
        | ok (ph_hex, w') ↦ (
          w',
          record s' { pending_enrollments = track_pending_enrollment ph_hex s.pending_enrollments },
        )
      ]

  -- Neither: h.getAnonCount(ip) >= h.curve.AnonymousCap decides which challenge it is.
  unfoldable pub anonymous_challenge : ℕ → Request → Writer → State V P N → Writer × State V P N
  anonymous_challenge now r w s =
      if leb_ℤ m.curve.anonymous_cap (anon_count (client_ip r) s.anon_counts)
      then enrollment_challenge now r w s
      else challenge h now m.curve.floor_toll_sats r w s

  unfoldable pub serve_anonymous :
      ℕ → Option Bytes → Request → Writer → Route → State V P N → Writer × State V P N
  serve_anonymous now (some token) r w rt = serve_token now token r w rt
  serve_anonymous now none r w rt = rate_limited h now r w (anonymous_challenge now r w)

  unfoldable pub serve_metered : ℕ → Request → Writer → Route → State V P N → Writer × State V P N
  serve_metered now r w rt =
      let cred_b64 = get credential_header r.header in
      let token = h.verifier.extract_token (get authorization_header r.header) in
      if cred_b64 == []
      then serve_anonymous now token r w rt
      else serve_credentialed now cred_b64 token r w rt

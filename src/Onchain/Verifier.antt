-- ===== src/Onchain/Verifier.antt =====
-- internal/payment/onchain/verifier.go. The goroutine of cleanupLoop is `cleanup`, one tick of its
-- ticker; times are in nanoseconds.
use blockade.Prelude.{
  ltb, if◌then◌else◌, ok, Go, ◌==◌, Bytes, bytes, ℕ, ◌+◌, Bool, true, false, Option, none, some, [],
  ◌++◌,
}
use blockade.Prelude.Int.{ℤ, ltb_ℤ}
use blockade.Prelude.State.{pure, lift, within, ◌>>=◌}
use blockade.Std.Strings.{has_prefix, trim_prefix, trim_space, decimal, decimal_ℤ}
use blockade.Std.Http.{Request, Writer, set_header, write_header}
use blockade.Price.{positive_price}
use blockade.Store.Types.{PendingEntry, Store, PendingStore}
use blockade.Payment.{PaymentVerifier}
use blockade.Onchain.Client.{Rpc, get_new_address, get_received_sats}

pub record Verifier (J F E S : Type 0) : Type 0 where
  pub btc : Rpc J F E
  pub min_conf : ℤ
  pub st : Store S
  pub ps : PendingStore S

-- bitcoind's state, and the state that holds both stores.
pub record World (E S : Type 0) : Type 0 where
  pub env : E
  pub store : S

abbrev pub auth_scheme : Bytes
auth_scheme = bytes "BTC-Onchain "

-- time.Hour, in nanoseconds and in seconds
abbrev pub pending_ttl : ℕ
pending_ttl = 3_600_000_000_000

abbrev pub pending_ttl_seconds : ℕ
pending_ttl_seconds = 3600

-- fmt.Sprintf(`BTC-Onchain address="%s", amount_sats="%d", expires_in="%d"`, …)
unfoldable pub onchain_challenge : Bytes → ℤ → Bytes
onchain_challenge addr sats =
    bytes "BTC-Onchain address=\""
    ++ (addr
        ++ (bytes "\", amount_sats=\""
            ++ (decimal_ℤ sats
                ++ (bytes "\", expires_in=\"" ++ (decimal pending_ttl_seconds ++ bytes "\"")))))

unfoldable pub extract_token : Bytes → Option Bytes
extract_token auth_header =
    if has_prefix auth_header auth_scheme then some (trim_prefix auth_header auth_scheme) else none

module _ {E S A : Type 0} where
  abbrev pub on_env : Go E A → Go (World E S) A
  on_env m w = let (r, e) = m w.env in (r, record w { env = e })

  abbrev pub on_store : Go S A → Go (World E S) A
  on_store m w = let (r, s) = m w.store in (r, record w { store = s })

module _ {J F E S : Type 0} (v : Verifier J F E S) where
  unfoldable pub issue_challenge : ℕ → Request → Writer → Go (World E S) Writer
  issue_challenge now r w = do
    price_sats ← lift (positive_price r)
    addr ← within "generate address" (on_env (get_new_address v.btc))
    _ ←
        within "store pending address"
          (on_store (v.ps.add_pending addr price_sats (now + pending_ttl)))
    pure (write_header 402 (set_header "Www-Authenticate" (onchain_challenge addr price_sats) w))

  -- The end of VerifyProof: the address is taken from the pending set and marked.
  unfoldable pub settle : ℕ → Bytes → Go (World E S) Bool
  settle now addr = do
    _ ← within "delete pending address" (on_store (v.ps.delete_pending addr))
    _ ← within "mark address used" (on_store (v.st.mark_used now addr))
    pure true

  -- `_ = v.ps.DeletePending(addr)`: an error is dropped.
  unfoldable pub expire : Bytes → Go (World E S) Bool
  expire addr w = (ok false, record w { store = (v.ps.delete_pending addr w.store).1 })

  -- From the payment check on, for a pending entry.
  unfoldable pub check_received : ℕ → Bytes → PendingEntry → Go (World E S) Bool
  check_received now addr entry = do
    received ← within "check received" (on_env (get_received_sats v.btc addr v.min_conf))
    if ltb_ℤ received entry.sats then pure false else settle now addr

  -- now.After(entry.ExpiresAt)
  unfoldable pub check_entry : ℕ → Bytes → Option PendingEntry → Go (World E S) Bool
  check_entry now addr none = pure false
  check_entry now addr (some entry) =
      if ltb entry.expires_at now then expire addr else check_received now addr entry

  -- The critical section of `mu`.
  unfoldable pub verify_pending : ℕ → Bytes → Go (World E S) Bool
  verify_pending now addr = do
    entry ← within "get pending address" (on_store (v.ps.get_pending addr))
    check_entry now addr entry

  unfoldable pub verify_address : ℕ → Bytes → Go (World E S) Bool
  verify_address now addr = do
    used ← within "check used address" (on_store (v.st.is_used addr))
    if used then pure false else verify_pending now addr

  unfoldable pub verify_proof : ℕ → Bytes → Go (World E S) Bool
  verify_proof now token =
      let addr = trim_space token in if addr == [] then pure false else verify_address now addr

  -- One tick of cleanupLoop; an error is dropped.
  unfoldable pub cleanup : ℕ → World E S → World E S
  cleanup now w = record w { store = (v.ps.prune_expired_pending now w.store).1 }

  abbrev pub onchain_verifier : PaymentVerifier (World E S)
  onchain_verifier = record {
    issue_challenge = issue_challenge;
    verify_proof = verify_proof;
    extract_token = extract_token;
  }

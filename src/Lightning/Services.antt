-- ===== src/Lightning/Services.antt =====
-- What internal/payment/lightning uses and does not implement: the macaroon library, lnd's RPC
-- interface (the calls of client.go), and the operating system's entropy.
use blockade.Prelude.{Result, ok, Go, Bytes, IsBytes, ℕ, ◌≡◌}
use blockade.Prelude.Int.{ℤ}

-- gopkg.in/macaroon.v2, by the calls that the program makes. `verify` is given the root key; the
-- program's caveat checker accepts every caveat, and it passes no discharges.
pub record MacaroonLib (M : Type 0) : Type 0 where
  -- macaroon.New(rootKey, id, location, LatestVersion)
  pub mint : Bytes → Bytes → Bytes → Result M
  pub marshal_binary : M → Result Bytes
  pub unmarshal_binary : Bytes → Result M
  pub id : M → Bytes
  pub verify : Bytes → M → Result (Unit {0})

-- What the library documents of these calls: a macaroon has the identifier that it was made with,
-- its binary form decodes to it, and it verifies under the key that it was made with and under no
-- other.
pub record MacaroonLaws {M : Type 0} (lib : MacaroonLib M) : Type 0 where
  pub id_mint : (k i l : Bytes) (m : M) → lib.mint k i l ≡ ok m → lib.id m ≡ i
  pub marshal_bytes : (m : M) (raw : Bytes) → lib.marshal_binary m ≡ ok raw → IsBytes raw
  pub unmarshal_marshal :
      (m : M) (raw : Bytes) → lib.marshal_binary m ≡ ok raw → lib.unmarshal_binary raw ≡ ok m
  pub verify_mint : (k i l : Bytes) (m : M) → lib.mint k i l ≡ ok m → lib.verify k m ≡ ok tt
  pub verify_key :
      (k i l k' : Bytes) (m : M) → lib.mint k i l ≡ ok m → lib.verify k' m ≡ ok tt → k' ≡ k

-- lnrpc.Invoice_InvoiceState
pub data InvoiceState : Type 0 where
  open_state settled canceled accepted : InvoiceState

-- lnrpc.Invoice, the fields that are read.
pub record Invoice : Type 0 where
  pub state : InvoiceState
  pub r_preimage : Bytes

-- The services over the state `E` of the world outside: lnd, and crypto/rand's source.
pub record Services (E : Type 0) : Type 0 where
  -- AddInvoice(value, memo): the payment request and the payment hash.
  pub rpc_add_invoice : ℤ → Bytes → Go E (Bytes × Bytes)
  -- LookupInvoice(r_hash)
  pub rpc_lookup_invoice : Bytes → Go E Invoice
  -- rand.Read into a slice of that length
  pub rand_read : ℕ → Go E Bytes

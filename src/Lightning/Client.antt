-- ===== src/Lightning/Client.antt =====
-- internal/payment/lightning/client.go: what the paywall asks of lnd. NewClient is in Lightning/Dial;
-- Close is not modelled.
use blockade.Prelude.{if◌then◌else◌, Go, Bytes, Bool, true, false, Option, none, some}
use blockade.Prelude.Int.{ℤ}
use blockade.Prelude.State.{pure, within, ◌>>=◌}
use blockade.Lightning.Services.{InvoiceState, settled, Services}

abbrev is_settled_state : InvoiceState → Bool
is_settled_state settled = true
is_settled_state _ = false

module _ {E : Type 0} (sv : Services E) where
  unfoldable pub add_invoice : ℤ → Bytes → Go E (Bytes × Bytes)
  add_invoice amount_sats memo = within "AddInvoice" (sv.rpc_add_invoice amount_sats memo)

  unfoldable pub is_settled : Bytes → Go E Bool
  is_settled payment_hash = do
    resp ← within "LookupInvoice" (sv.rpc_lookup_invoice payment_hash)
    pure (is_settled_state resp.state)

  -- The preimage if the invoice is settled.
  unfoldable pub lookup_settlement : Bytes → Go E (Option Bytes)
  lookup_settlement payment_hash = do
    resp ← within "LookupInvoice" (sv.rpc_lookup_invoice payment_hash)
    if is_settled_state resp.state then pure (some resp.r_preimage) else pure none

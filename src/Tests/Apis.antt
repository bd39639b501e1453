-- ===== src/Tests/Apis.antt =====
-- server/src/server: an invoice is ordered and another one deleted; a socket that fails; a token.
use xmrgateway.Prelude.{
  ℕ, ◌+◌, ◌≡◌, sym, ap, ◌⊎◌, Bool, true, false, String, Option, none, some, List, [], ◌∷◌, retain,
}
use mathlib.Core.Option.{some-injective}
use xmrgateway.Invoice.{Invoice, id}
use xmrgateway.Gateway.{Gateway}
use xmrgateway.Server.InvoiceIds.{to_base64}
use xmrgateway.Server.Api.{
  Web, InvoiceDescription, NewInvoiceParams, invoice_update, post_invoice, delete_invoice,
}
use xmrgateway.Server.Responses.{Response, plain, nothing}
use xmrgateway.Server.Api.WebSocket.{Message, text, is_text, noting, stream, stream_lem}
use xmrgateway.Server.Auth.{Shows, denied, guarded, guarded_lem}
use xmrgateway.Tests.Shop.{ordered, memory, shop, chan, maps, address_of}
use xmrgateway.Tests.Codec.{codec}
use xmrgateway.Tests.Gateways.{height_known}

-- Descriptions are written only without a callback.
abbrev written : InvoiceDescription → Option String
written d = elim d.callback [ none ↦ some d.order | some c ↦ none ]

abbrev read : String → Option InvoiceDescription
read s = some (record { order = s; callback = none })

read-written : (d : InvoiceDescription) (s : String) → written d ≡ some s → read s ≡ some d
read-written d s = by_callback d.order d.callback s
  where
    by_callback :
        (order : String) (callback : Option String) (s : String)
        → written (record { order = order; callback = callback }) ≡ some s
        → read s ≡ some (record { order = order; callback = callback })
    by_callback order none s e = ap read (sym (some-injective order s e))
    by_callback order (some c) s e = absurd (cc)

abbrev web : Web
web = record {
  to_string = written;
  from_str = read;
  from_str-to_string = read-written;
  is_uri = λ s. true;
  uri = λ inv. "monero:";
  render_invoice = λ u. some "pay";
  render_missing = λ i. some "missing";
  render_error = λ e. some "error";
}

abbrev tea : NewInvoiceParams
tea = record {
  piconeros_due = 70;
  confirmations_required = 1;
  expiration_in = 20;
  order = "tea";
  callback = none;
}

abbrev after_tea : Response × Gateway memory chan maps
after_tea = post_invoice codec web ℕ memory chan maps address_of 0 height_known tea shop

abbrev deleted : String
deleted = to_base64 codec (id ordered)

abbrev after : Response × Gateway memory chan maps
after = delete_invoice codec web ℕ memory chan maps deleted shop

abbrev confirmed : Invoice
confirmed = record ordered { amount_paid = 100; paid_height = some 3; current_height = 9 }

-- A socket that takes one message.
abbrev fragile : Message → List Message → Bool
fragile m log = elim log [ [] ↦ true | n ∷ rest ↦ false ]

stream_lem_example :
    retain is_text (stream codec web (noting codec web fragile) (confirmed ∷ ordered ∷ []) [])
    ≡ text (invoice_update codec web confirmed) ∷ text (invoice_update codec web ordered) ∷ []
stream_lem_example = stream_lem codec web fragile (confirmed ∷ ordered ∷ []) []

abbrev count : ℕ → Response × ℕ
count n = (plain 200 nothing, n + 1)

guarded_lem_example :
    (Shows (some "secret") (some "Bearer guess")
      × (guarded (some "secret") (some "Bearer guess") count 4 ≡ count 4))
    ⊎ ((Shows (some "secret") (some "Bearer guess") → ⊥)
        × (guarded (some "secret") (some "Bearer guess") count 4 ≡ (denied, 4)))
guarded_lem_example = guarded_lem (some "secret") (some "Bearer guess") count 4

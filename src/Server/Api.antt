-- ===== src/Server/Api.antt =====
-- server/src/server/api: the handlers of the internal and the external API. What JSON, templates and the
-- parser of URIs do is a parameter.
pub mod Life
pub mod WebSocket
use xmrgateway.Prelude.{
  ℕ, Bool, true, false, String, Option, none, some, List, map, Result, ok, err, ◌>>=◌, ◌≡◌, nat_eq,
}
use xmrgateway.External.Channel.{Channel}
use xmrgateway.External.IndexMap.{IndexMap}
use xmrgateway.Invoice.{SubIndex, InvoiceId, Invoice, id, confirmations, expiration_in}
use xmrgateway.Storage.Traits.{Storage}
use xmrgateway.Pubsub.{SenderId}
use xmrgateway.Gateway.{
  Gateway, GatewayError, new_invoice, gateway_remove_invoice, gateway_get_invoice,
  gateway_get_invoice_ids, gateway_subscribe,
}
use xmrgateway.Server.InvoiceIds.{Base64, ParseError, to_base64, invoice_id_from_str}
use xmrgateway.Server.Responses.{
  InvoiceUpdate, ApiError, accept_xmr, description_serialization, invalid_callback,
  invalid_response, invoice_not_found, invalid_invoice_id, missing_resource, templating_error, Body,
  nothing, text, update, invoice_id, invoice_ids, page, Response, plain, status_code, message,
  into_response, required,
}

pub record InvoiceDescription : Type 0 where
  pub order : String
  pub callback : Option String

-- The crates serde_json, hyper and tera, and the payment URI of an invoice, which goes through
-- floating-point numbers. What was serialized is read back.
pub record Web : Type 0 where
  pub to_string : InvoiceDescription → Option String
  pub from_str : String → Option InvoiceDescription
  pub from_str-to_string :
      (d : InvoiceDescription) (s : String) → to_string d ≡ some s → from_str s ≡ some d
  pub is_uri : String → Bool
  pub uri : Invoice → String
  pub render_invoice : InvoiceUpdate → Option String
  pub render_missing : String → Option String
  pub render_error : String → Option String

pub record NewInvoiceParams : Type 0 where
  pub piconeros_due : ℕ
  pub confirmations_required : ℕ
  pub expiration_in : ℕ
  pub order : String
  pub callback : Option String

module _ (b64 : Base64) (web : Web) where
  -- `InvoiceDescription::from_json_or_any`
  abbrev pub from_json_or_any : String → InvoiceDescription
  from_json_or_any value = elim (web.from_str value) [
    | some d ↦ d
    | none ↦ record { order = value; callback = none }
  ]

  -- `From<Invoice> for InvoiceUpdate`
  unfoldable pub invoice_update : Invoice → InvoiceUpdate
  invoice_update value =
      let d = from_json_or_any value.description in
      record {
        update_id = to_base64 b64 (id value);
        address = value.address;
        uri = web.uri value;
        amount_requested = value.amount_requested;
        amount_paid = value.amount_paid;
        confirmations_required = value.confirmations_required;
        confirmations = confirmations value;
        expiration_in = expiration_in value;
        current_height = value.current_height;
        order = d.order;
        callback = d.callback;
      }

  -- A callback that was given has to be a URI.
  abbrev pub checked_callback :
      {G : Type 0} → Option String → Result (ApiError G (ParseError b64)) (Unit {0})
  checked_callback none = ok tt
  checked_callback (some callback) = elim (web.is_uri callback) [
    | true ↦ ok tt
    | false ↦ err invalid_callback
  ]

  module _ (D : Type 0) {E : Type 0} (st : Storage E) (ch : Channel Invoice)
      (ix : IndexMap SenderId ch.Sender) where
    abbrev pub Failure : Type 0
    Failure = ApiError (GatewayError E D) (ParseError b64)

    abbrev pub parsed : String → Result Failure InvoiceId
    parsed t = elim (invoice_id_from_str b64 t) [ err e ↦ err (invalid_invoice_id e) | ok i ↦ ok i ]

    abbrev pub described : NewInvoiceParams → Result Failure String
    described payload = checked_callback payload.callback >>= λ u.
        required description_serialization
          (web.to_string (record { order = payload.order; callback = payload.callback }))

    -- `POST /invoice`, with the draw of the subaddress and the daemon's answer.
    unfoldable pub post_invoice :
        (SubIndex → String)
        → ℕ
        → Result D ℕ
        → NewInvoiceParams
        → Gateway st ch ix
        → Response × Gateway st ch ix
    post_invoice get_subaddress map_index daemon_height payload g = elim (described payload) [
      | err e ↦ (into_response {P = ParseError b64} (err e), g)
      | ok description ↦
          let (result, g') =
            new_invoice st ch ix get_subaddress map_index daemon_height payload.piconeros_due
              payload.confirmations_required payload.expiration_in description g in
          (
            elim result [
              | err e ↦ into_response {P = ParseError b64} (err (accept_xmr e))
              | ok i ↦ plain 200 (invoice_id (to_base64 b64 i))
            ],
            g',
          )
    ]

    -- `DELETE /invoice`
    unfoldable pub delete_invoice : String → Gateway st ch ix → Response × Gateway st ch ix
    delete_invoice t g = elim (parsed t) [
      | err e ↦ (into_response (err e), g)
      | ok i ↦
          let (result, g') = gateway_remove_invoice st ch ix {D = D} i g in
          (
            elim result [
              | err e ↦ into_response {P = ParseError b64} (err (accept_xmr e))
              | ok none ↦ plain 404 nothing
              | ok (some old) ↦ plain 200 nothing
            ],
            g',
          )
    ]

    -- `GET /invoice/ids`
    unfoldable pub get_ids : Gateway st ch ix → Response
    get_ids g = elim (gateway_get_invoice_ids st ch ix {D = D} g) [
      | err e ↦ into_response {P = ParseError b64} (err (accept_xmr e))
      | ok ids ↦ plain 200 (invoice_ids (map (to_base64 b64) ids))
    ]

    -- `GET /invoice`
    unfoldable pub get_invoice_status : String → Gateway st ch ix → Response
    get_invoice_status t g = elim (parsed t) [
      | err e ↦ into_response (err e)
      | ok i ↦ elim (gateway_get_invoice st ch ix {D = D} i g) [
        | err e ↦ into_response {P = ParseError b64} (err (accept_xmr e))
        | ok none ↦
            into_response {G = GatewayError E D} {P = ParseError b64} (err (invoice_not_found i))
        | ok (some inv) ↦ plain 200 (update (invoice_update inv))
      ]
    ]

    -- `GET /invoice/ws`, whose response 101 leads to the tasks of the socket.
    unfoldable pub websocket :
        String → SenderId → ch.Sender → Gateway st ch ix → Response × Gateway st ch ix
    websocket t sender_id tx g = elim (parsed t) [
      | err e ↦ (into_response (err e), g)
      | ok i ↦ elim (gateway_subscribe st ch ix i sender_id tx g) [
        | none ↦ (record { status = 404; no_store = false; body = nothing }, g)
        | some g' ↦ (record { status = 101; no_store = false; body = nothing }, g')
      ]
    ]

    -- A page with a status, or the failure of its template.
    abbrev rendered : ℕ → Option String → Response
    rendered status none =
        into_response {G = GatewayError E D} {P = ParseError b64} (err templating_error)
    rendered status (some html) = plain status (page html)

    -- `GET /pay`, with how an error is displayed.
    unfoldable pub pay : (GatewayError E D → String) → String → Gateway st ch ix → Response
    pay error_text t g = elim (parsed t) [
      | err e ↦ into_response (err e)
      | ok i ↦ elim (gateway_get_invoice st ch ix {D = D} i g) [
        | err e ↦ rendered 500 (web.render_error (error_text e))
        | ok none ↦ rendered 404 (web.render_missing (to_base64 b64 i))
        | ok (some inv) ↦ rendered 200 (web.render_invoice (invoice_update inv))
      ]
    ]

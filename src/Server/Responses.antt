-- ===== src/Server/Responses.antt =====
-- server/src/server/api/mod.rs: what the handlers answer. A response is its status, whether it has
-- `Cache-Control: no-store`, and its body before serialization.
use xmrgateway.Prelude.{ℕ, Bool, true, false, String, Option, none, some, List, Result, ok, err}
use xmrgateway.Invoice.{InvoiceId}

pub record InvoiceUpdate : Type 0 where
  pub update_id : String
  pub address : String
  pub uri : String
  pub amount_requested : ℕ
  pub amount_paid : ℕ
  pub confirmations_required : ℕ
  pub confirmations : Option ℕ
  pub expiration_in : ℕ
  pub current_height : ℕ
  pub order : String
  pub callback : Option String

pub data ApiError (G P : Type 0) : Type 0 where
  accept_xmr : G → ApiError G P
  description_serialization : ApiError G P
  invalid_callback : ApiError G P
  invalid_response : ApiError G P
  invoice_not_found : InvoiceId → ApiError G P
  invalid_invoice_id : P → ApiError G P
  missing_resource : ApiError G P
  templating_error : ApiError G P

pub data Body : Type 0 where
  nothing : Body
  text : String → Body
  update : InvoiceUpdate → Body
  invoice_id : String → Body
  invoice_ids : List String → Body
  page : String → Body

pub record Response : Type 0 where
  pub status : ℕ
  pub no_store : Bool
  pub body : Body

abbrev pub plain : ℕ → Body → Response
plain status body = record { status = status; no_store = true; body = body }

module _ {G P : Type 0} where
  abbrev pub status_code : ApiError G P → ℕ
  status_code (accept_xmr e) = 500
  status_code invalid_response = 500
  status_code templating_error = 500
  status_code (invalid_invoice_id e) = 400
  status_code description_serialization = 400
  status_code invalid_callback = 400
  status_code missing_resource = 404
  status_code (invoice_not_found i) = 404

  abbrev pub message : ApiError G P → String
  message (accept_xmr e) = "Internal payment gateway error"
  message description_serialization = "Failed to serialize invoice description"
  message invalid_callback = "Callback is not a valid URI"
  message invalid_response = "Failed to build HTTP response"
  message (invoice_not_found i) = "Invoice not found"
  message (invalid_invoice_id e) = "Invalid invoice ID"
  message missing_resource = "Missing static resource"
  message templating_error = "Failed to render template"

  -- A handler's result as a response.
  abbrev pub into_response : Result (ApiError G P) Response → Response
  into_response (ok r) = r
  into_response (err e) = record {
    status = status_code e;
    no_store = false;
    body = text (message e);
  }

  abbrev pub required : {A : Type 0} → ApiError G P → Option A → Result (ApiError G P) A
  required e none = err e
  required e (some a) = ok a

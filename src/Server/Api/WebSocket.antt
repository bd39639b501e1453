-- ===== src/Server/Api/WebSocket.antt =====
-- server/src/server/api/external.rs: the task of a web socket that forwards updates. What the socket makes
-- of a message, and whether sending it fails, is a parameter; failures are only logged.
use xmrgateway.Prelude.{
  ◌≡◌, sym, ap, ◌∙◌, Bool, true, false, Bool-cases, inl, inr, String, List, [], ◌∷◌, ◌++◌, map,
  if◌then◌else◌, retain, retain-append,
}
use mathlib.Core.List.{append_assoc, append-nil}
use xmrgateway.Invoice.{Invoice, is_confirmed, is_expired}
use xmrgateway.Server.InvoiceIds.{Base64}
use xmrgateway.Server.Api.{Web, invoice_update}
use xmrgateway.Server.Responses.{InvoiceUpdate}

-- A message, and the closing of the sink.
pub data Message : Type 0 where
  text : InvoiceUpdate → Message
  close_frame : String → Message
  close : Message

module _ (b64 : Base64) (web : Web) {S : Type 0} (send : Message → S → Bool × S) where
  abbrev both : Message → Message → S → S
  both m n s = (send n (send m s).1).1

  -- One round of the loop, for the update that was received.
  unfoldable pub forward : Invoice → S → S
  forward invoice s =
      let sent = (send (text (invoice_update b64 web invoice)) s).1 in
      if is_confirmed invoice
      then both (close_frame "Invoice Complete") close sent
      else (if is_expired invoice then both (close_frame "Invoice Expired") close sent else sent)

  -- The loop, until the subscription ends.
  unfoldable pub stream : List Invoice → S → S
  unfolding forward
  stream [] s = s
  stream (invoice ∷ rest) s = stream rest (forward invoice s)

abbrev pub is_text : Message → Bool
is_text (text u) = true
is_text (close_frame reason) = false
is_text close = false

module _ (b64 : Base64) (web : Web) (succeeds : Message → List Message → Bool) where
  -- A socket that notes what it is given, and fails as it likes.
  abbrev pub noting : Message → List Message → Bool × List Message
  noting m log = (succeeds m log, log ++ m ∷ [])

  forward-texts :
      (invoice : Invoice) (log : List Message)
      → retain is_text (forward b64 web noting invoice log)
        ≡ retain is_text log ++ text (invoice_update b64 web invoice) ∷ []
  unfolding forward
  forward-texts invoice log =
      let u = text (invoice_update b64 web invoice) in
      let sent = retain-append is_text log (u ∷ []) in
      let frame : (reason : String)
          → retain is_text (((log ++ u ∷ []) ++ close_frame reason ∷ []) ++ close ∷ [])
            ≡ retain is_text (log ++ u ∷ []) =
        λ reason.
          retain-append is_text ((log ++ u ∷ []) ++ close_frame reason ∷ []) (close ∷ [])
          ∙ append-nil _
          ∙ retain-append is_text (log ++ u ∷ []) (close_frame reason ∷ [])
          ∙ append-nil _ in
      elim (Bool-cases (is_confirmed invoice)) [
        | inl c ↦ rw (c, forward) (frame "Invoice Complete" ∙ sent)
        | inr c ↦ elim (Bool-cases (is_expired invoice)) [
          | inl x ↦ rw (c, forward, x) (frame "Invoice Expired" ∙ sent)
          | inr x ↦ rw (c, forward, x) sent
        ]
      ]

  -- Every update that the subscription gives is handed to the socket as a text, once and in order,
  -- whether sending fails, and also after an update whose invoice is confirmed or expired.
  pub stream_lem :
      (updates : List Invoice) (log : List Message)
      → retain is_text (stream b64 web noting updates log)
        ≡ retain is_text log ++ map (λ invoice. text (invoice_update b64 web invoice)) updates
  unfolding stream
  stream_lem [] log = sym (append-nil _)
  stream_lem (invoice ∷ rest) log =
      stream_lem rest (forward b64 web noting invoice log)
      ∙ ap (λ l. l ++ map (λ invoice. text (invoice_update b64 web invoice)) rest)
          (forward-texts invoice log)
      ∙ append_assoc (retain is_text log) _ _

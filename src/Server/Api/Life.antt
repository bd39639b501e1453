-- ===== src/Server/Api/Life.antt =====
-- server/src/server/api: an invoice through the API, from its creation to its removal.
use xmrgateway.Prelude.{nat_eq}
use xmrgateway.External.Channel.{Channel}
use xmrgateway.External.IndexMap.{IndexMap}
use xmrgateway.Invoice.{Invoice}
use xmrgateway.Invoice.Order.{invoice_id_eq}
use xmrgateway.Storage.Traits.{Storage}
use xmrgateway.Gateway.{Gateway}

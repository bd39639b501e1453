-- ===== src/Lib.antt =====
-- The library `acceptxmr` and the server around it accept payments in Monero without a wallet: a
-- scanner follows the daemon's chain and its transaction pool, finds the outputs that belong to the
-- subaddresses of open invoices, and updates the invoices in the store and their subscribers.
--
-- Files and what they model:
-- - Invoice (library/src/invoice.rs): `Invoice`, `InvoiceId`, `SubIndex`, `Transfer`. Order and Equality
--   hold `Ord` and `PartialEq`, Bytes and Keys the integer keys, Status the queries.
-- - Scanner/Update (library/src/scanner.rs): `Scanner::update_invoices`. The list of found transfers is
--   its argument `transfers`, the rows are what the store hands to the closure.
-- - Pubsub (library/src/pubsub.rs): `Publisher`, with each of its two loops as `send_loop`. The fuel of
--   a loop is one more than the number of subscribers, each of which a round takes away or steps over.
-- - Caching/BlockCache (library/src/caching/block_cache.rs): `BlockCache`, its blocks newest first. A
--   failure leaves the state behind that the code leaves; a panic is the error `panicked`.
-- - Caching/TxpoolCache (library/src/caching/txpool_cache.rs): `TxpoolCache`.
-- - Caching/SubaddressCache (library/src/caching/subaddress_cache.rs): `SubaddressCache`, with
--   `generate_range` in Start and `init` in Load. The loop of `extend_by` recurses on the rounds left, that
--   of `generate_range` on 2^32 less the first minor index, after which the minor index is saturated.
-- - Scanner (library/src/scanner.rs): Caches is `update_caches`, Burning `output_key_is_unique`, Scan the
--   scans of blocks and pool, Pass the whole of `scan`, and Pass/Start `Scanner::new`. The loops run over
--   the lists, that of `scan_blocks` over the indices from the highest down. `Run` is a scanner through
--   its passes.
-- - Storage/Traits and Storage/Lowest (library/src/storage/invoice_storage.rs, height_storage.rs, mod.rs):
--   the storage traits as the record `Storage`, and `lowest_height`.
-- - Storage/Manager (library/src/storage/mod.rs): `Manager::handle`, the methods of `Client`, and in Queue
--   the loop of the manager beside its clients as a relation between systems. Answers is about what the
--   clients of an in-memory store are answered.
-- - Storage/OutputKeys (library/src/storage/output_key_storage.rs): the trait `OutputKeyStorage`.
-- - Storage/InMemory (library/src/storage/stores/in_memory.rs): `InMemory`, an ordered list of entries.
--   Books is the store as no more than what it answers, Instance makes a `Storage` of it,
--   and Least and Walks are about the methods of the traits on it.
-- - Storage/Sled (library/src/storage/stores/sled.rs): `Sled` over its trees; Views compares its invoices
--   with a map, Prefixes is about the search for a subaddress index.
-- - Gateway (library/src/payment_gateway.rs): the operations of `PaymentGateway` on invoices, Control its
--   `run`, `status` and `stop` over the handle of the scanning thread, Scanning the loop of that thread,
--   Build the builder. `Served` is a gateway through its operations.
-- - DaemonClient (library/src/monerod_client): Header splits a challenge into its parts, Challenge reads it,
--   Digest is `AuthInfo`, which answers it (authentication.rs). Request is `RpcClient::request`, whose loop
--   recurses on the daemon's replies, and Rpc the requests of `Client` for `RpcClient`, the loop over chunks
--   of hashes with as many rounds as its range has (mod.rs).
-- - Server/InvoiceIds (server/src/server/api/types/invoice_id.rs): the text of an identifier.
-- - Server/Updates (server/src/lib.rs): the task that watches the updates of all invoices.
-- - Server/Callbacks (server/src/callbacks.rs): the queue of callbacks, its tasks in any order.
-- - Server/Responses (server/src/server/api/mod.rs): what the handlers answer, with their errors.
-- - Server/Api (server/src/server/api/mod.rs, internal.rs, external.rs): the handlers of both APIs, where
--   `post_invoice` is the handler `new_invoice` and `get_ids` the handler `invoice_ids`; WebSocket is the task
--   that forwards updates. Server/Auth (server/src/server/auth.rs): the guard by a bearer token.
-- - Server/Settings (server/src/config): the settings with their defaults.
-- - Server/Config (server/src/config, server/src/lib.rs): their reading, their overrides and checks,
--   `load_config`, and the builder that `build_gateway` makes; a panic is the lack of a result.
-- - External: what the code relies on of tokio's channels (Channel), of the crate indexmap (IndexMap) and
--   of the crate monero and the daemon (Monero). Each is a record, with an instance that meets it.
-- - Std: the standard library's maps and texts. Prelude: shared names and lemmas. Tests: concrete runs.
--
-- Numbers are natural numbers; where the source adds or subtracts 64-bit integers without a check, the
-- model wraps (`add64`, `sub64`), as a release build does. Asynchronous calls run to their end one after
-- the other.
--
-- What the crates for digests, hexadecimal, JSON, YAML, URIs and templates do is a parameter where it is
-- used, as are the standard library's unstable sort, the disk, the environment, the daemon's replies, the sockets and the trees of the crate sled.
--
-- Not modelled: the waiting of the scanning thread between passes; the connectors of the RPC client; the
-- SQLite store, whose work is that of its crate and of SQL; the requests of the callbacks; routes,
-- listeners, TLS, documentation, templates and logging of the server; the command line; the payment URI,
-- the floating-point amounts and the display of an invoice; the receiving end of a subscription; and the
-- decryption of outputs, which is the crate monero's.
pub mod Prelude
pub mod Std
pub mod External
pub mod Invoice
pub mod Storage
pub mod Pubsub
pub mod Caching
pub mod Scanner
pub mod Tests
pub mod DaemonClient
pub mod Gateway
pub mod Server

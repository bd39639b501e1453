-- ===== src/Scanner/Pass.antt =====
-- library/src/scanner.rs: `Scanner::scan`, one pass of the scanner. The scans of the blocks and of the
-- pool run one after the other. The storage is that of a manager that serves.
pub mod Start
pub mod Run
pub mod Restart
pub mod Saved
pub mod Held
pub mod Later
use xmrgateway.Prelude.{
  ℕ, ◌+◌, Bool, true, false, nat_eq, Option, none, some, List, [], ◌∷◌, ◌++◌, Result, ok, err,
  add64, sub64,
}
use xmrgateway.External.Monero.{Monero, Daemon}
use xmrgateway.External.Channel.{Channel}
use xmrgateway.External.IndexMap.{IndexMap}
use xmrgateway.Invoice.{SubIndex, Invoice}
use xmrgateway.Storage.Traits.{Storage, try_for_each}
use xmrgateway.Pubsub.{Publisher, SenderId, send_updates}
use xmrgateway.Scanner.Caches.{Caches, update_caches}
use xmrgateway.Scanner.Update.{Found, update_one}
use xmrgateway.Scanner.Scan.{Outputs, ScanError, storage, caches, scan_blocks, scan_txpool}

-- The closure of `update_invoices`, whose state is the list of updated invoices.
unfoldable pub note_update {ℓ} :
    {E : Type ℓ} {X : Type 0}
    → List Found
    → ℕ
    → ℕ
    → Result E Invoice
    → List Invoice
    → Result X (Unit {0}) × List Invoice
note_update found height deepest (err e) updated = (ok tt, updated)
note_update found height deepest (ok inv) updated = elim (update_one found height deepest inv) [
  | none ↦ (ok tt, updated)
  | some new ↦ (ok tt, updated ++ new ∷ [])
]

module _ {E : Type 0} (st : Storage E) where
  -- The call of `update_invoices` on the store.
  unfoldable pub update_stored : ℕ → List Found → ℕ → st.Store → Result E (List Invoice)
  update_stored height found blocks_updated s =
      let (result, updated) =
        try_for_each st (note_update found height (add64 (sub64 height blocks_updated) 1)) s [] in
      elim result [ err e ↦ err e | ok u ↦ ok updated ]

module _ {E : Type 0} (st : Storage E) (ch : Channel Invoice)
    (ix : IndexMap SenderId ch.Sender) where
  -- The loop of `scan` that saves the updates and publishes what was saved.
  unfoldable pub save_updates :
      List Invoice
      → st.Store × (ch.World × Publisher ix.Map)
      → st.Store × (ch.World × Publisher ix.Map)
  save_updates [] s = s
  save_updates (invoice ∷ rest) (store, sent) =
      let (result, next) = st.update invoice store in
      save_updates rest
        (next, elim result [ err e ↦ sent | ok old ↦ send_updates ch ix invoice sent ])

module _ (mo : Monero) {E : Type 0} (st : Storage E) (ch : Channel Invoice)
    (ix : IndexMap SenderId ch.Sender) where
  -- The scanner, with the queues of its subscribers.
  pub record Scanner : Type 0 where
    pub store : st.Store
    pub held : Caches mo
    pub published : ch.World × Publisher ix.Map
    pub first_scan : Bool

module _ (mo : Monero) {E C D : Type 0} (st : Storage E) (outs : Outputs mo C)
    (ch : Channel Invoice) (ix : IndexMap SenderId ch.Sender) (daemon : Daemon mo D) where
  abbrev Pass : Type 0
  Pass = Scanner mo st ch ix

  -- The two scans, both of them run to their end.
  unfoldable pub scan_caches :
      ℕ → List mo.Transaction → Pass → Result (ScanError E D C) (List Found) × Pass
  unfolding scan_blocks scan_txpool
  scan_caches blocks_updated new_transactions sc =
      let (blocks, s) = scan_blocks mo st outs D sc.first_scan blocks_updated sc.held.0 sc.store in
      let (pool, (txpool, s')) = scan_txpool mo st outs D new_transactions sc.held.1 s in
      let next = record sc { store = s'; held = (sc.held.0, txpool) } in
      elim blocks [
        | err e ↦ (err e, next)
        | ok found ↦ elim pool [
          | err e ↦ (err e, next)
          | ok more ↦ (ok (found ++ more), record next { first_scan = false })
        ]
      ]

  -- The end of a scan, from the update of the invoices on.
  unfoldable pub scan_update : ℕ → List Found → Pass → Result (ScanError E D C) (Unit {0}) × Pass
  scan_update blocks_updated found sc =
      elim (update_stored st sc.held.0.height found blocks_updated sc.store) [
        | err e ↦ (err (storage e), sc)
        | ok updated ↦
            let (s, published) = save_updates st ch ix updated (sc.store, sc.published) in
            let (noted, s') = st.upsert_height sc.held.0.height s in
            let next = record sc { store = s'; published = published } in
            elim noted [
              | err e ↦ (err (storage e), next)
              | ok old ↦ elim (st.flush s') [
                | err e ↦ (err (storage e), next)
                | ok u ↦ (ok tt, next)
              ]
            ]
      ]

  unfoldable pub scan : Pass → Result (ScanError E D C) (Unit {0}) × Pass
  unfolding scan_caches scan_update
  scan sc =
      let (moved, held) = update_caches mo daemon sc.held in
      elim moved [
        | err e ↦ (err (caches e), record sc { held = held })
        | ok (blocks_updated, new_transactions) ↦
            let (received, next) =
              scan_caches blocks_updated new_transactions (record sc { held = held }) in
            elim received [
              | err e ↦ (err e, next)
              | ok found ↦ scan_update blocks_updated found next
            ]
      ]

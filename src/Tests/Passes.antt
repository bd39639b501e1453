-- ===== src/Tests/Passes.antt =====
-- library/src/scanner.rs on a chain whose block 4 pays sixty to the second subaddress of account 0.
use xmrgateway.Prelude.{
  ℕ, ◌-◌, ◌<◌, ◌≡◌, refl, nat_eq, true, false, none, some, List, [], ◌∷◌, ◌++◌, u64_mod, ok,
  if◌then◌else◌, ◌==◌, arith,
}
use xmrgateway.Std.HashMap.{lookup, insert, extend, retain_keys}
use xmrgateway.Std.BTreeMap.{find, put, range_from}
use xmrgateway.External.Monero.{Daemon, numbers}
use xmrgateway.Invoice.{Invoice, transfer_new, id, cmp_sub_index, cmp_invoice_id, cmp_by_height}
use xmrgateway.Invoice.Equality.{SameTransfers}
use xmrgateway.Storage.Traits.{walk, lower, try_for_each, lowest_height}
use xmrgateway.Storage.InMemory.{
  in_memory_new, invoice_get, invoice_insert, invoice_update, get_ids, contains_sub_index,
  output_key_insert, output_key_get, height_get,
}
use xmrgateway.Pubsub.{publisher_new, insert_invoice}
use xmrgateway.Tests.Shop.{two, ordered, memory, holding, chan, maps, quiet, nobody}
use xmrgateway.Caching.BlockCache.{
  Block, fetch, init, init_blocks, fix_from, fix_blocks, check_and_fix_reorg, advance, update_to,
  update, remove_last,
}
use xmrgateway.Caching.TxpoolCache.{txpool_init, txpool_update, insert_transfers}
use xmrgateway.Scanner.Caches.{update_caches}
use xmrgateway.Scanner.Burning.{key_is_unique, output_key_is_unique}
use xmrgateway.Scanner.Update.{Found, is_settled_below, is_credited, update_one}
use xmrgateway.Scanner.Update.Ledger.{IsFresh, IsBelow, credited, stored_after}
use xmrgateway.Scanner.Scan.{
  OwnedTxOut, Outputs, push_amount, found_at, check_transactions, scan_output, scan_outputs,
  scan_owned, scan_transactions, scan_blocks_below, scan_blocks, scan_txpool,
}
use xmrgateway.Scanner.Pass.{Scanner, scan_caches, scan}
use xmrgateway.Gateway.Scanning.{Checkers, Round, empty, stop_signal, checker_new}
use xmrgateway.Scanner.Pass.Held.{IsSteady}
use xmrgateway.Scanner.Pass.Later.{deepest_of, pass_lem}
use xmrgateway.Scanner.Pass.Start.{scanner_new, last_height, start_height, track_all}
use xmrgateway.Scanner.Pass.Run.{started, passed, Run-IsSteady}
use xmrgateway.Scanner.Pass.Restart.{first_pass_lem}

abbrev daemon : Daemon numbers (Unit {0})
daemon = record {
  daemon_height = ok 5;
  block = λ h. ok (h, (h, h - 1));
  block_transactions = λ b. ok (if b.0 == 4 then 7 ∷ [] else []);
  txpool = ok [];
  txpool_hashes = ok [];
  transactions_by_hashes = λ hs. ok [];
}

abbrev output : OwnedTxOut
output = record {
  key = record { bytes = 1 ∷ [] };
  index = 0;
  sub_index = record { major = 0; minor = 2 };
  amount = some 60;
}

abbrev outputs : Outputs numbers (Unit {0})
outputs = record {
  unlock_time = λ tx. 0;
  check_outputs = λ tx. ok (if tx == 7 then output ∷ [] else []);
  to_bytes = λ hash. hash ∷ [];
}

abbrev block_at : ℕ → Block numbers
block_at h = record { hash = h; height = h; inner = (h, h - 1); transactions = [] }

abbrev later : Scanner numbers memory chan maps
later = record {
  store = holding;
  held = (
    record { height = 3; daemon_height = 4; blocks = block_at 3 ∷ block_at 2 ∷ block_at 1 ∷ [] },
    record { transactions = []; discovered_transfers = [] },
  );
  published = (quiet, nobody);
  first_scan = false;
}

program : Unit {0}
unfolding find put range_from cmp_sub_index cmp_invoice_id in_memory_new invoice_get invoice_update
    get_ids contains_sub_index output_key_insert output_key_get height_get invoice_insert lookup
    insert extend retain_keys walk lower try_for_each lowest_height fetch init init_blocks fix_from
    fix_blocks check_and_fix_reorg advance update_to update remove_last txpool_init txpool_update
    insert_transfers update_caches key_is_unique output_key_is_unique push_amount found_at
    check_transactions scan_output scan_outputs scan_owned scan_transactions scan_blocks_below
    scan_blocks scan_txpool scan_caches scanner_new last_height start_height track_all publisher_new
    insert_invoice is_settled_below is_credited cmp_by_height
program = tt

moved : (update_caches numbers daemon later.held).0 ≡ ok (1, [])
unfolding program
moved = refl

abbrev found : List Found
found = (two, transfer_new 60 (some 4)) ∷ []

block_found :
    (scan_caches numbers memory outputs chan maps daemon 1 []
      (record later { held = (update_caches numbers daemon later.held).1 })).0
    ≡ ok found
unfolding program
block_found = refl

small : (bh : ℕ) → daemon.daemon_height ≡ ok bh → bh < u64_mod
small bh e = ground arith

later-IsSteady : IsSteady numbers later.held
later-IsSteady = record {
  blocks = record {
    bounded = omega arith;
    nonempty = omega arith;
    deep = omega arith;
    heights = (refl, (refl, (refl, tt)));
  };
  pool = tt;
}

pass_lem_example :
    IsFresh (deepest_of (update_caches numbers daemon later.held).1.0.height 1) found
    × ((old new : Invoice)
        → update_one found
            (update_caches numbers daemon later.held).1.0.height
            (deepest_of (update_caches numbers daemon later.held).1.0.height 1)
            old
          ≡ some new
        → update_one found
            (update_caches numbers daemon later.held).1.0.height
            (deepest_of (update_caches numbers daemon later.held).1.0.height 1)
            new
          ≡ none)
pass_lem_example =
    pass_lem numbers memory outputs chan maps daemon later 1 [] small later-IsSteady refl moved
      block_found

abbrev fresh : Scanner numbers memory chan maps
fresh = record {
  store = holding;
  held = (
    record { height = 2; daemon_height = 5; blocks = block_at 2 ∷ block_at 1 ∷ block_at 0 ∷ [] },
    record { transactions = []; discovered_transfers = [] },
  );
  published = (quiet, record { invoice_subs = (id ordered, []) ∷ []; global_subs = [] });
  first_scan = true;
}

new_scanner :
    (scanner_new numbers memory chan maps daemon 3 none holding (quiet, nobody)).0 ≡ ok fresh
unfolding program
new_scanner = refl

Run-IsSteady_example : IsSteady numbers (scan numbers memory outputs chan maps daemon fresh).1.held
Run-IsSteady_example =
    Run-IsSteady numbers (Unit {0}) memory outputs chan maps 3 (omega arith) (omega arith)
      (scan numbers memory outputs chan maps daemon fresh).1
      (passed daemon small (started daemon none holding (quiet, nobody) small new_scanner))

-- A new scanner with the invoice's payment, which an earlier one has stored, in the second of its
-- blocks; the top block is new.
abbrev restarted : Scanner numbers memory chan maps
restarted = record fresh {
  held = (
    record {
      height = 5;
      daemon_height = 6;
      blocks = block_at 5 ∷ record (block_at 4) { transactions = 7 ∷ [] } ∷ block_at 3 ∷ [];
    },
    record { transactions = []; discovered_transfers = [] },
  );
}

restarted-IsSteady : IsSteady numbers restarted.held
restarted-IsSteady = record {
  blocks = record {
    bounded = omega arith;
    nonempty = omega arith;
    deep = omega arith;
    heights = (refl, (refl, (refl, tt)));
  };
  pool = tt;
}

found_again : (scan_caches numbers memory outputs chan maps daemon 1 [] restarted).0 ≡ ok found
unfolding program
found_again = refl

first_pass_lem_example :
    (cached : List Found) × (new : List Found) × (found ≡ cached ++ new)
    × IsBelow (deepest_of 5 1) cached
    × IsFresh (deepest_of 5 1) new
    × ((old : Invoice) (older : List Found)
        → IsBelow (deepest_of 5 1) older
        → old.transfers ≡ credited old.index old.creation_height (older ++ cached)
        → SameTransfers
            (stored_after old (update_one found 5 (deepest_of 5 1) old)).transfers
            (credited old.index old.creation_height ((older ++ cached) ++ (cached ++ new))))
first_pass_lem_example =
    first_pass_lem numbers memory outputs chan maps daemon 1 [] restarted refl restarted-IsSteady
      (omega arith) (omega arith) found_again

-- A checker as the ends of its ranges, with a table entry for each minor index.
abbrev checkers : Checkers (ℕ × ℕ)
checkers = record {
  new = λ major_start major_end minor_start minor_end. (major_end, minor_end);
  table_length = λ c. c.1;
}

abbrev up_to_99 : ℕ × ℕ
up_to_99 = checker_new checkers 0 99

abbrev idle : Round numbers (Unit {0})
idle = record {
  received = empty;
  tested_minor_index = 100;
  loaded_minor_index = 101;
  daemon = daemon;
}

abbrev told : Round numbers (Unit {0})
told = record {
  received = stop_signal;
  tested_minor_index = 101;
  loaded_minor_index = 101;
  daemon = daemon;
}

-- ===== src/Watcher/Scan.antt =====
-- `scanBlock` of packages/deposit-watcher/src/real-watcher.ts: the outputs of a block that pay the
-- operator become deposits, go back on the credit path, or are reported. The clock is read once for
-- a poll, by the caller.
use v.Base.{ℕ, ◌+◌, Bool, true, false, ◌||◌, Option, none, some, List, [], ◌∷◌, ◌++◌, if◌then◌else◌}
use v.Base.Int.{ℤ, sub_ℕ}
use v.Base.Text.{Text, text_eq}
use v.Storage.Types.{
  DepositOrigin, InsertDepositInput, DepositRecord, duplicate_deposit, solvency_violated,
  credit_failed,
}
use v.Storage.State.{Storage, Result, ok, throw}
use v.Storage.Deposits.{insert_deposit, get_deposit, RemineUpdate, remine_deposit}
use v.Watcher.Types.{
  WatcherPollResult, TxOutput, Transaction, Block, Node, World, Outcome, done, thrown, Watch, pure,
  ◌>>=◌, reads, call,
}
use v.Watcher.Attribution.{
  AttributionResult, attributed, unattributed, AttributionCaches, attribute_sender,
}

pub record RealWatcherConfig : Type 0 where
  pub pay_to_identity : Text
  pub chain_name : Text
  pub currency : Text
  pub min_confirmations : ℕ
  pub reorg_lookback_blocks : ℕ
  pub max_blocks_per_poll : ℕ
  pub start_height : Option ℕ

-- The result so far and the caches of the attribution.
abbrev pub Scanned : Type 0
Scanned = WatcherPollResult × AttributionCaches

unfoldable pub pays_to : Text → List Text → Bool
pays_to pay_to_address [] = false
pays_to pay_to_address (a ∷ as') = text_eq a pay_to_address || pays_to pay_to_address as'

abbrev pub amount_of : TxOutput → Option ℤ → ℤ
amount_of vout (some value_sat) = value_sat
amount_of vout none = vout.value_rounded

-- The insertion, with a duplicate taken as one that another writer recorded.
abbrev pub skip_duplicate : World → Result DepositRecord × Storage → Outcome Bool × World
skip_duplicate w (ok _, s) = (done true, record w { storage = s })
skip_duplicate w (throw (duplicate_deposit key), s) = (done false, record w { storage = s })
skip_duplicate w (throw (solvency_violated id), s) =
    (thrown (solvency_violated id), record w { storage = s })
skip_duplicate w (throw (credit_failed reason), s) =
    (thrown (credit_failed reason), record w { storage = s })

unfoldable pub insert_or_skip : InsertDepositInput → Watch Bool
insert_or_skip input w = skip_duplicate w (insert_deposit input w.storage)

module _ (lower trim : Text → Text) (node : Node) (config : RealWatcherConfig) (now : ℕ) where
  module _ (block : Block) (height tip : ℕ) (pay_to_address : Text) where
    abbrev pub remine_update : RemineUpdate
    remine_update = record {
      block_height = height;
      block_hash = block.hash;
      confirmations = sub_ℕ tip height;
    }

    abbrev pub deposit_input : Transaction → TxOutput → Text → InsertDepositInput
    deposit_input tx vout identity_key = record {
      identity_id = identity_key;
      amount_sats = amount_of vout vout.value_sat;
      currency = config.currency;
      txid = tx.txid;
      vout = vout.n;
      block_height = height;
      block_hash = block.hash;
      confirmations = sub_ℕ tip height;
      detected_at = now;
      origin = DepositOrigin.real;
      created_by = none;
      note = none;
    }

    abbrev pub count_remined : Option DepositRecord → Scanned → Scanned
    count_remined none (result, caches) = (result, caches)
    count_remined (some _) (result, caches) =
        (record result { remined = result.remined + 1 }, caches)

    abbrev pub count_inserted : Scanned → Bool → Scanned
    count_inserted (result, caches) inserted =
        if inserted
        then (record result { inserted = result.inserted + 1 }, caches)
        else (result, caches)

    abbrev pub record_attribution :
        Transaction
        → TxOutput
        → WatcherPollResult
        → AttributionResult × AttributionCaches
        → Watch Scanned
    record_attribution tx vout result (unattributed reason, caches) = pure (
      record result {
        unattributed =
            result.unattributed ++ record { txid = tx.txid; vout = vout.n; reason = reason } ∷ [];
      },
      caches,
    )
    record_attribution tx vout result (attributed key address, caches) =
        insert_or_skip (deposit_input tx vout key) >>= λ inserted.
        pure (count_inserted (result, caches) inserted)

    -- An output whose row names the same block is left alone.
    abbrev pub scan_existing : Transaction → TxOutput → Scanned → DepositRecord → Watch Scanned
    scan_existing tx vout found existing =
        if text_eq existing.block_hash block.hash
        then pure found
        else call (remine_deposit tx.txid vout.n remine_update) >>= λ remined.
            pure (count_remined remined found)

    abbrev pub scan_row : Transaction → TxOutput → Scanned → Option DepositRecord → Watch Scanned
    scan_row tx vout found (some existing) = scan_existing tx vout found existing
    scan_row tx vout found none =
        attribute_sender lower trim node config.chain_name tx found.1
        >>= record_attribution tx vout found.0

    unfoldable pub scan_output : Transaction → TxOutput → Scanned → Watch Scanned
    unfolding insert_or_skip
    scan_output tx vout found =
        if pays_to pay_to_address vout.script_addresses
        then reads (get_deposit tx.txid vout.n) >>= scan_row tx vout found
        else pure found

    unfoldable pub scan_outputs : Transaction → List TxOutput → Scanned → Watch Scanned
    unfolding scan_output
    scan_outputs tx [] found = pure found
    scan_outputs tx (vout ∷ vouts) found = scan_output tx vout found >>= scan_outputs tx vouts

    unfoldable pub scan_txs : List Transaction → Scanned → Watch Scanned
    unfolding scan_outputs
    scan_txs [] found = pure found
    scan_txs (tx ∷ txs) found = scan_outputs tx tx.outputs found >>= scan_txs txs

    unfoldable pub scan_block : Scanned → Watch Scanned
    unfolding scan_txs
    scan_block found = scan_txs block.txs found

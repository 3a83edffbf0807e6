-- ===== src/Watcher/History.antt =====
-- Every part of a poll (packages/deposit-watcher/src/real-watcher.ts and attribution.ts) changes the
-- storage by the storage's own methods only, and gets no exception from them.
use v.Base.{ℕ, zero, suc, ◌+◌, ◌≡◌, refl, sym, ap, false, Option, none, some, List, [], ◌∷◌, ltb}
use mathlib.Core.Path.{subst}
use v.Base.Text.{Text, text_eq}
use v.Base.Int.{ℤ, pos, sub_ℕ, ltb_ℤ}
use v.Base.Dict.{get}
use v.Storage.Types.{
  DepositRecord, InsertDepositInput, WatcherCursor, duplicate_deposit, solvency_violated,
  credit_failed,
}
use v.Storage.State.{Storage, Result, ok, throw}
use v.Storage.Refine.{Refines}
use v.Storage.Refine.Deposits
use v.Storage.Deposits.{
  insert_deposit, get_deposit, RemineUpdate, remine_deposit, update_deposit_confirmations,
  credit_deposit, mark_deposit_reorged, list_uncredited_deposits, list_deposits_at_or_above,
}
use v.Storage.Records.{get_watcher_cursor, set_watcher_cursor}
use v.Storage.History.{
  insert, remine, confirm, credit, reorg, set_cursor, perform, run_calls, settle,
}
use v.Storage.History.Invariants.{any_remine}
use v.Storage.Deposits.{deposit_key}
use v.Watcher.Types.{
  WatcherPollResult, TxInput, TxOutput, Transaction, Block, Node, World, call, empty_result,
}
use v.Watcher.Attribution.{
  AttributionResult, attributed, unattributed, AttributionCaches, fetch_source, add_source, add_own,
  collect_addresses, fetch_identity_key, decide_sender, identity_addresses, attribute_sender,
}
use v.Watcher.Scan.{
  RealWatcherConfig, Scanned, pays_to, skip_duplicate, insert_or_skip, record_attribution, scan_row,
  scan_output, scan_outputs, scan_txs, scan_block,
}
use v.Watcher.Poll.{
  cursor_key, fetch_pay_to_address, resolve_pay_to_address, check_deposits, check_reorg,
  scan_blocks, scan_range, scan_new, scan_end, track_confirmations, continue_poll, place_cursor,
  bootstrap, poll_from, poll,
}
use v.Watcher.Traced.{
  Kept, Goes, pure-Kept, ask-Kept, reads-Kept, set_watcher-Kept, bind-Kept, then-Kept, fails-Kept,
  if-Kept, call-Kept,
}

-- The methods that a poll calls.
remine-Kept : (txid : Text) (vout : ℕ) (u : RemineUpdate) → Kept (call (remine_deposit txid vout u))
unfolding perform
remine-Kept txid vout u =
    call-Kept (remine txid vout u) (remine_deposit txid vout u) (λ s. refl)
      (λ s h.
        Deposits.remine-Completes false s h txid vout u
          (any_remine (get (deposit_key txid vout) s.deposits_by_key)))

confirm-Kept : (id : ℕ) (n : ℤ) → Kept (call (update_deposit_confirmations id n))
unfolding perform
confirm-Kept id n =
    call-Kept (confirm id n) (update_deposit_confirmations id n) (λ s. refl)
      (λ s h. Deposits.confirmations-Completes false s h id n)

credit-Kept : (id at : ℕ) → Kept (call (credit_deposit id at))
unfolding perform
credit-Kept id at =
    call-Kept (credit id at) (credit_deposit id at) (λ s. refl)
      (λ s h. Deposits.credit-Completes false s h id at)

reorg-Kept : (id at : ℕ) → Kept (call (mark_deposit_reorged id at))
unfolding perform
reorg-Kept id at =
    call-Kept (reorg id at) (mark_deposit_reorged id at) (λ s. refl)
      (λ s h. Deposits.reorg-Completes false s h id at)

cursor-Kept : (key : Text) (c : WatcherCursor) → Kept (call (set_watcher_cursor key c))
unfolding perform
cursor-Kept key c =
    call-Kept (set_cursor key c) (set_watcher_cursor key c) (λ s. refl)
      (λ s h. Deposits.cursor-Completes false s h key c)

module _ (lower trim : Text → Text) (node : Node) (chain_name : Text) where
  fetch_source-Kept :
      (txid : Text) (caches : AttributionCaches) (o : Option Transaction)
      → Kept (fetch_source lower trim node chain_name txid caches o)
  fetch_source-Kept txid caches (some t) = pure-Kept (t, caches)
  fetch_source-Kept txid caches none =
      bind-Kept (ask-Kept (node.get_raw_transaction txid)) (λ source. pure-Kept _)

  add_source-Kept :
      (addresses : List Text) (txid : Option Text) (vout : Option ℕ) (caches : AttributionCaches)
      → Kept (add_source lower trim node chain_name addresses txid vout caches)
  add_source-Kept addresses (some txid) (some vout) caches =
      bind-Kept (fetch_source-Kept txid caches (get txid caches.source_txs)) (λ found. pure-Kept _)
  add_source-Kept addresses (some txid) none caches = pure-Kept _
  add_source-Kept addresses none vout caches = pure-Kept _

  add_own-Kept :
      (vin : TxInput) (addresses : List Text) (address : Option Text) (more : Option (List Text))
      (caches : AttributionCaches)
      → Kept (add_own lower trim node chain_name vin addresses address more caches)
  add_own-Kept vin addresses (some address) more caches = pure-Kept _
  add_own-Kept vin addresses none (some more) caches = pure-Kept _
  add_own-Kept vin addresses none none caches = add_source-Kept addresses vin.txid vin.vout caches

  collect-Kept :
      (vins : List TxInput) (addresses : List Text) (caches : AttributionCaches)
      → Kept (collect_addresses lower trim node chain_name vins addresses caches)
  unfolding collect_addresses
  collect-Kept [] addresses caches = pure-Kept _
  collect-Kept (vin ∷ vins) addresses caches =
      bind-Kept
        (if-Kept vin.is_coinbase (pure-Kept _)
          (add_own-Kept vin addresses vin.address vin.addresses caches))
        (λ found. collect-Kept vins found.0 found.1)

  fetch_identity_key-Kept :
      (address : Text) (caches : AttributionCaches) (o : Option Text)
      → Kept (fetch_identity_key lower trim node chain_name address caches o)
  fetch_identity_key-Kept address caches (some key) = pure-Kept _
  fetch_identity_key-Kept address caches none =
      bind-Kept (ask-Kept (node.get_identity address)) (λ identity. pure-Kept _)

  decide-Kept :
      (addresses : List Text) (caches : AttributionCaches)
      → Kept (decide_sender lower trim node chain_name addresses caches)
  decide-Kept [] caches = pure-Kept _
  decide-Kept (address ∷ []) caches =
      fetch_identity_key-Kept address caches (get address caches.identity_keys)
  decide-Kept (_ ∷ _ ∷ _) caches = pure-Kept _

  attribute-Kept :
      (tx : Transaction) (caches : AttributionCaches)
      → Kept (attribute_sender lower trim node chain_name tx caches)
  unfolding attribute_sender
  attribute-Kept tx caches =
      bind-Kept (collect-Kept tx.vin [] caches)
        (λ found. decide-Kept (identity_addresses found.0) found.1)

-- An insertion with its duplicate caught.
insert_result-Goes :
    (input : InsertDepositInput) (s : Storage) (r : Result DepositRecord × Storage) (w : World)
    → perform (insert input) s ≡ settle r
    → Refines false s r
    → Goes s (skip_duplicate w r)
unfolding run_calls
insert_result-Goes input s (ok d, t) w e h = (insert input ∷ [], sym (ap (λ p. p.1) e))
insert_result-Goes input s (throw (duplicate_deposit key), t) w e h = ([], h)
insert_result-Goes input s (throw (solvency_violated id), t) w e h = absurd h
insert_result-Goes input s (throw (credit_failed reason), t) w e h = absurd h

insert-Kept : (input : InsertDepositInput) → Kept (insert_or_skip input)
unfolding insert_or_skip perform
insert-Kept input = record {
  goes = λ w sound.
      insert_result-Goes input w.storage (insert_deposit input w.storage) w refl
        (Deposits.insert_deposit-Refines false w.storage sound.0 input);
}

module _ (lower trim : Text → Text) (node : Node) (config : RealWatcherConfig) (now : ℕ) where
  module _ (block : Block) (height tip : ℕ) (pay_to : Text) where
    record_attribution-Kept :
        (tx : Transaction) (vout : TxOutput) (result : WatcherPollResult)
        (a : AttributionResult × AttributionCaches)
        → Kept
            (record_attribution lower trim node config now block height tip pay_to tx vout result a)
    record_attribution-Kept tx vout result (unattributed reason, caches) = pure-Kept _
    record_attribution-Kept tx vout result (attributed key address, caches) =
        bind-Kept (insert-Kept _) (λ inserted. pure-Kept _)

    scan_row-Kept :
        (tx : Transaction) (vout : TxOutput) (found : Scanned) (row : Option DepositRecord)
        → Kept (scan_row lower trim node config now block height tip pay_to tx vout found row)
    scan_row-Kept tx vout found (some existing) =
        if-Kept (text_eq existing.block_hash block.hash) (pure-Kept found)
          (bind-Kept (remine-Kept tx.txid vout.n _) (λ remined. pure-Kept _))
    scan_row-Kept tx vout found none =
        bind-Kept (attribute-Kept lower trim node config.chain_name tx found.1)
          (record_attribution-Kept tx vout found.0)

    scan_outputs-Kept :
        (tx : Transaction) (vouts : List TxOutput) (found : Scanned)
        → Kept (scan_outputs lower trim node config now block height tip pay_to tx vouts found)
    unfolding scan_outputs scan_output
    scan_outputs-Kept tx [] found = pure-Kept found
    scan_outputs-Kept tx (vout ∷ vouts) found =
        bind-Kept
          (if-Kept (pays_to pay_to vout.script_addresses)
            (bind-Kept (reads-Kept (get_deposit tx.txid vout.n)) (scan_row-Kept tx vout found))
            (pure-Kept found))
          (scan_outputs-Kept tx vouts)

    scan_txs-Kept :
        (txs : List Transaction) (found : Scanned)
        → Kept (scan_txs lower trim node config now block height tip pay_to txs found)
    unfolding scan_txs
    scan_txs-Kept [] found = pure-Kept found
    scan_txs-Kept (tx ∷ txs) found =
        bind-Kept (scan_outputs-Kept tx tx.outputs found) (scan_txs-Kept txs)

    scan_block-Kept :
        (found : Scanned)
        → Kept (scan_block lower trim node config now block height tip pay_to found)
    unfolding scan_block
    scan_block-Kept found = scan_txs-Kept block.txs found

  pay_to-Kept : (known : Option Text) → Kept (fetch_pay_to_address lower trim node config now known)
  pay_to-Kept (some address) = pure-Kept address
  pay_to-Kept none =
      bind-Kept (ask-Kept (node.get_identity config.pay_to_identity))
        (λ identity. then-Kept (set_watcher-Kept _) (pure-Kept _))

  resolve-Kept : Kept (resolve_pay_to_address lower trim node config now)
  unfolding resolve_pay_to_address
  resolve-Kept = record { goes = λ w sound. (pay_to-Kept w.watcher.pay_to_address).goes w sound }

  check_deposits-Kept :
      (lookback_floor : ℕ) (ds : List DepositRecord) (result : WatcherPollResult)
      → Kept (check_deposits lower trim node config now lookback_floor ds result)
  unfolding check_deposits
  check_deposits-Kept lookback_floor [] result = pure-Kept result
  check_deposits-Kept lookback_floor (d ∷ ds) result =
      bind-Kept
        (bind-Kept (ask-Kept (node.get_block_hash d.block_height)) (λ hash.
          if-Kept (text_eq d.block_hash hash) (pure-Kept result)
            (bind-Kept (reorg-Kept d.id now) (λ marked. pure-Kept _))))
        (check_deposits-Kept lookback_floor ds)

  check_reorg-Kept :
      (cursor : WatcherCursor) (result : WatcherPollResult) (hash : Text)
      → Kept (check_reorg lower trim node config now cursor result hash)
  unfolding check_reorg
  check_reorg-Kept cursor result hash =
      if-Kept (text_eq hash cursor.last_block_hash) (pure-Kept _) (
        bind-Kept (reads-Kept (list_deposits_at_or_above 1))
          (λ deposits. bind-Kept (check_deposits-Kept _ deposits _) (λ result'. pure-Kept _)))

  scan_blocks-Kept :
      (tip n : ℕ) (pay_to : Text) (height : ℕ) (last : Text) (found : Scanned)
      → Kept (scan_blocks lower trim node config now tip n pay_to height last found)
  unfolding scan_blocks
  scan_blocks-Kept tip zero pay_to height last found = pure-Kept _
  scan_blocks-Kept tip (suc n) pay_to height last found =
      bind-Kept (ask-Kept (node.get_block_verbose height)) (λ block.
        bind-Kept (scan_block-Kept block height tip pay_to found)
          (scan_blocks-Kept tip n pay_to (height + 1) block.hash))

  scan_new-Kept :
      (tip : ℕ) (pay_to : Text) (scan_from : ℕ) (result : WatcherPollResult)
      → Kept (scan_new lower trim node config now tip pay_to scan_from result)
  unfolding scan_new scan_range
  scan_new-Kept tip pay_to scan_from result =
      if-Kept (ltb scan_from (scan_end lower trim node config now tip scan_from))
        (bind-Kept (scan_blocks-Kept tip _ pay_to scan_from [] _)
          (λ scanned. then-Kept (cursor-Kept cursor_key _) (pure-Kept _)))
        (pure-Kept result)

  track-Kept :
      (tip : ℕ) (ds : List DepositRecord) (result : WatcherPollResult)
      → Kept (track_confirmations lower trim node config now tip ds result)
  unfolding track_confirmations
  track-Kept tip [] result = pure-Kept result
  track-Kept tip (d ∷ ds) result =
      bind-Kept
        (then-Kept (confirm-Kept d.id (sub_ℕ tip d.block_height)) (
          if-Kept (ltb_ℤ (sub_ℕ tip d.block_height) (pos config.min_confirmations))
            (pure-Kept result) (bind-Kept (credit-Kept d.id now) (λ credited. pure-Kept _))))
        (track-Kept tip ds)

  continue-Kept :
      (tip : ℕ) (pay_to : Text) (result : WatcherPollResult) (cursor : WatcherCursor)
      → Kept (continue_poll lower trim node config now tip pay_to result cursor)
  unfolding continue_poll
  continue-Kept tip pay_to result cursor =
      bind-Kept
        (bind-Kept (ask-Kept (node.get_block_hash cursor.last_block))
          (check_reorg-Kept cursor result))
        (λ checked. bind-Kept (scan_new-Kept tip pay_to checked.0 checked.1) (λ scanned.
          bind-Kept (reads-Kept list_uncredited_deposits) (λ deposits.
            bind-Kept (track-Kept tip deposits scanned)
              (λ tracked. then-Kept (set_watcher-Kept _) (pure-Kept tracked)))))

  place_cursor-Kept : (height : ℕ) → Kept (place_cursor lower trim node config now height)
  place_cursor-Kept height =
      bind-Kept (ask-Kept (node.get_block_hash height))
        (λ hash. then-Kept (cursor-Kept cursor_key _) (pure-Kept _))

  poll_from-Kept :
      (tip : ℕ) (pay_to : Text) (cursor : Option WatcherCursor) (start_height : Option ℕ)
      → start_height ≡ config.start_height
      → Kept (poll_from lower trim node config now tip pay_to cursor)
  poll_from-Kept tip pay_to (some cursor) h e = continue-Kept tip pay_to (empty_result tip) cursor
  poll_from-Kept tip pay_to none h e =
      subst (λ h'. Kept (bootstrap lower trim node config now tip pay_to h')) e (bootstrap-Kept h)
    where
      bootstrap-Kept :
          (start_height : Option ℕ)
          → Kept (bootstrap lower trim node config now tip pay_to start_height)
      bootstrap-Kept none =
          then-Kept (then-Kept (place_cursor-Kept tip) (set_watcher-Kept _)) (pure-Kept _)
      bootstrap-Kept (some zero) = fails-Kept
      bootstrap-Kept (some (suc height)) =
          bind-Kept (place_cursor-Kept height) (continue-Kept tip pay_to (empty_result tip))

  pub poll-Kept : Kept (poll lower trim node config now)
  unfolding poll
  poll-Kept = bind-Kept (ask-Kept node.get_block_count) (λ tip. bind-Kept resolve-Kept (λ pay_to.
      bind-Kept (reads-Kept (get_watcher_cursor cursor_key))
        (λ cursor. poll_from-Kept tip pay_to cursor config.start_height refl)))

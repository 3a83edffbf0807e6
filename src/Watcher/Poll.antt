-- ===== src/Watcher/Poll.antt =====
-- `poll` and the life cycle of `RealDepositWatcher`
-- (packages/deposit-watcher/src/real-watcher.ts).
use v.Base.{
  ℕ, zero, suc, ◌+◌, ◌-◌, Bool, true, false, Option, none, some, List, [], ◌∷◌, ◌++◌, leb, ltb,
  if◌then◌else◌,
}
use v.Base.Int.{ℤ, pos, sub_ℕ, ltb_ℤ}
use v.Base.Text.{Text, codes, text_eq}
use v.Storage.Types.{DepositRecord, WatcherCursor, CreditDepositResult, MarkReorgedResult}
use v.Storage.Deposits.{
  list_uncredited_deposits, list_deposits_at_or_above, update_deposit_confirmations, credit_deposit,
  mark_deposit_reorged,
}
use v.Storage.Records.{get_watcher_cursor, set_watcher_cursor}
use v.Watcher.Types.{
  OpsFlag, reorg_detected, negative_balance, deep_reorg, scan_capped, WatcherPollResult,
  empty_result, Node, RealDepositWatcher, World, fails, Outcome, done, node_failed, thrown, Watch,
  pure, ◌>>=◌, ◌>>◌, ask, reads, call, set_watcher,
}
use v.Watcher.Attribution.{empty_attribution_caches}
use v.Watcher.Scan.{RealWatcherConfig, Scanned, scan_block}

abbrev pub cursor_key : Text
cursor_key = codes "deposits"

-- The constructor's defaults; `...deps.config` overrides them.
abbrev pub given_or : Option ℕ → ℕ → ℕ
given_or none value = value
given_or (some given) value = given

abbrev pub config_of :
    (pay_to_identity chain_name currency : Text)
    (min_confirmations reorg_lookback_blocks max_blocks_per_poll start_height : Option ℕ)
    → RealWatcherConfig
config_of pay_to_identity chain_name currency confirmations lookback max_blocks start_height =
    record {
      pay_to_identity = pay_to_identity;
      chain_name = chain_name;
      currency = currency;
      min_confirmations = given_or confirmations 10;
      reorg_lookback_blocks = given_or lookback 20;
      max_blocks_per_poll = given_or max_blocks 200;
      start_height = start_height;
    }

abbrev pub max_ℕ : ℕ → ℕ → ℕ
max_ℕ a b = if leb a b then b else a

abbrev pub min_ℕ : ℕ → ℕ → ℕ
min_ℕ a b = if leb a b then a else b

abbrev pub flag : OpsFlag → WatcherPollResult → WatcherPollResult
flag f result = record result { ops_flags = result.ops_flags ++ f ∷ [] }

-- The flag of a reversed credit that left a debt.
abbrev pub flag_debt : DepositRecord → Bool → Option ℤ → WatcherPollResult → WatcherPollResult
flag_debt deposit true (some balance) result =
    if ltb_ℤ balance (pos 0)
    then flag (negative_balance deposit.identity_id balance deposit.id) result
    else result
flag_debt deposit _ _ result = result

abbrev pub flag_depth : ℕ → DepositRecord → WatcherPollResult → WatcherPollResult
flag_depth lookback_floor deposit result =
    if ltb deposit.block_height lookback_floor
    then flag (deep_reorg deposit.block_height) result
    else result

abbrev pub count_reorged :
    ℕ → DepositRecord → WatcherPollResult → MarkReorgedResult → WatcherPollResult
count_reorged lookback_floor deposit result (MarkReorgedResult.done was_credited balance) =
    flag_depth lookback_floor deposit
      (flag_debt deposit was_credited balance (record result { reorged = result.reorged + 1 }))
count_reorged lookback_floor deposit result (MarkReorgedResult.not_done _) = result

-- `updateDepositConfirmations` and, at depth, `creditDeposit`.
abbrev pub count_credited :
    DepositRecord → WatcherPollResult → CreditDepositResult → WatcherPollResult
count_credited deposit result (CreditDepositResult.done balance_after _) = record result {
  credited =
      result.credited
      ++ record {
        deposit_id = deposit.id;
        identity_id = deposit.identity_id;
        balance_after_sats = balance_after;
      }
        ∷ [];
}
count_credited deposit result (CreditDepositResult.not_done _) = result

module _ (lower trim : Text → Text) (node : Node) (config : RealWatcherConfig) (now : ℕ) where
  abbrev pub cursor_at : ℕ → Text → WatcherCursor
  cursor_at height hash = record { last_block = height; last_block_hash = hash; updated_at = now }

  abbrev pub fetch_pay_to_address : Option Text → Watch Text
  fetch_pay_to_address (some address) = pure address
  fetch_pay_to_address none = ask (node.get_identity config.pay_to_identity) >>= λ identity.
      set_watcher (λ f. record f { pay_to_address = some (identity.identity_address) })
      >> pure identity.identity_address

  -- `resolvePayToAddress`
  unfoldable pub resolve_pay_to_address : Watch Text
  resolve_pay_to_address w = fetch_pay_to_address w.watcher.pay_to_address w

  -- One round of the loop over the recorded deposits. A node that answers the same question in the
  -- same way during a poll makes the cache of hashes invisible.
  abbrev pub check_deposit : ℕ → DepositRecord → WatcherPollResult → Watch WatcherPollResult
  check_deposit lookback_floor deposit result =
      ask (node.get_block_hash deposit.block_height) >>= λ hash.
      if text_eq deposit.block_hash hash
      then pure result
      else call (mark_deposit_reorged deposit.id now) >>= λ marked.
          pure (count_reorged lookback_floor deposit result marked)

  unfoldable pub check_deposits :
      ℕ → List DepositRecord → WatcherPollResult → Watch WatcherPollResult
  check_deposits lookback_floor [] result = pure result
  check_deposits lookback_floor (d ∷ ds) result =
      check_deposit lookback_floor d result >>= check_deposits lookback_floor ds

  abbrev pub lookback_floor_of : WatcherCursor → ℕ
  lookback_floor_of cursor = max_ℕ 1 (cursor.last_block - config.reorg_lookback_blocks)

  -- What follows the answer on the cursor's block: the height to scan from, and the result so far.
  unfoldable pub check_reorg :
      WatcherCursor → WatcherPollResult → Text → Watch (ℕ × WatcherPollResult)
  unfolding check_deposits
  check_reorg cursor result hash =
      if text_eq hash cursor.last_block_hash
      then pure (cursor.last_block + 1, result)
      else let lookback_floor = lookback_floor_of cursor in
        reads (list_deposits_at_or_above 1) >>= λ deposits.
        check_deposits lookback_floor deposits
          (flag (reorg_detected cursor.last_block lookback_floor) result)
        >>= λ result'. pure (lookback_floor, result')

  -- The blocks from a height on, that many; the last hash that was seen.
  unfoldable pub scan_blocks : ℕ → ℕ → Text → ℕ → Text → Scanned → Watch (Text × Scanned)
  scan_blocks tip zero pay_to_address height last found = pure (last, found)
  scan_blocks tip (suc n) pay_to_address height last found =
      ask (node.get_block_verbose height) >>= λ block.
      scan_block lower trim node config now block height tip pay_to_address found
      >>= scan_blocks tip n pay_to_address (height + 1) block.hash

  abbrev pub cap_flag : ℕ → WatcherPollResult → WatcherPollResult
  cap_flag remaining result =
      if ltb 0 remaining
      then flag (scan_capped config.max_blocks_per_poll remaining)
          (record result { remaining_blocks = remaining })
      else record result { remaining_blocks = remaining }

  -- `scanTo`, plus 1: the numbers have no -1.
  abbrev pub scan_end : ℕ → ℕ → ℕ
  scan_end tip scan_from = min_ℕ (tip + 1) (scan_from + config.max_blocks_per_poll)

  -- The blocks up to the end, the cursor on the last of them, and what is left.
  unfoldable pub scan_range :
      ℕ → Text → (scan_from end' : ℕ) → WatcherPollResult → Watch WatcherPollResult
  unfolding scan_blocks
  scan_range tip pay_to_address scan_from end' result =
      scan_blocks tip (end' - scan_from) pay_to_address scan_from []
        (record result { scanned = some (scan_from, end' - 1) }, empty_attribution_caches)
      >>= λ (last, found).
          call (set_watcher_cursor cursor_key (cursor_at (end' - 1) last))
          >> pure (cap_flag (tip + 1 - end') found.0)

  unfoldable pub scan_new : ℕ → Text → ℕ → WatcherPollResult → Watch WatcherPollResult
  unfolding scan_range
  scan_new tip pay_to_address scan_from result =
      if ltb scan_from (scan_end tip scan_from)
      then scan_range tip pay_to_address scan_from (scan_end tip scan_from) result
      else pure result

  -- One round of the loop over the uncredited deposits.
  abbrev pub credit_at_depth : ℕ → DepositRecord → WatcherPollResult → Watch WatcherPollResult
  credit_at_depth tip deposit result =
      if ltb_ℤ (sub_ℕ tip deposit.block_height) (pos config.min_confirmations)
      then pure result
      else call (credit_deposit deposit.id now) >>= λ credited.
          pure (count_credited deposit result credited)

  abbrev pub confirm_deposit : ℕ → DepositRecord → WatcherPollResult → Watch WatcherPollResult
  confirm_deposit tip deposit result =
      call (update_deposit_confirmations deposit.id (sub_ℕ tip deposit.block_height))
      >> credit_at_depth tip deposit result

  unfoldable pub track_confirmations :
      ℕ → List DepositRecord → WatcherPollResult → Watch WatcherPollResult
  track_confirmations tip [] result = pure result
  track_confirmations tip (d ∷ ds) result =
      confirm_deposit tip d result >>= track_confirmations tip ds

  -- `tip - Math.max(scanTo, cursor.lastBlock)`
  abbrev pub lag_of : ℕ → ℕ → WatcherCursor → ℤ
  lag_of tip scan_from cursor =
      sub_ℕ (tip + 1) (max_ℕ (scan_end tip scan_from) (cursor.last_block + 1))

  unfoldable pub continue_poll :
      ℕ → Text → WatcherPollResult → WatcherCursor → Watch WatcherPollResult
  unfolding check_reorg scan_new track_confirmations
  continue_poll tip pay_to_address result cursor =
      ask (node.get_block_hash cursor.last_block)
      >>= check_reorg cursor result
      >>= λ (scan_from, result'). scan_new tip pay_to_address scan_from result' >>= λ scanned.
          reads list_uncredited_deposits >>= λ deposits.
          track_confirmations tip deposits scanned >>= λ tracked.
          set_watcher (λ f. record f { lag_blocks = some (lag_of tip scan_from cursor) })
          >> pure tracked

  -- The first poll: a cursor at a height.
  abbrev pub place_cursor : ℕ → Watch WatcherCursor
  place_cursor height = ask (node.get_block_hash height) >>= λ hash.
      call (set_watcher_cursor cursor_key (cursor_at height hash)) >> pure (cursor_at height hash)

  -- A start height of 0 asks for the block -1, which a node does not have.
  abbrev pub bootstrap : ℕ → Text → Option ℕ → Watch WatcherPollResult
  bootstrap tip pay_to_address none =
      place_cursor tip
      >> set_watcher (λ f. record f { lag_blocks = some (pos 0) })
      >> pure (record (empty_result tip) { bootstrapped = true })
  bootstrap tip pay_to_address (some zero) = fails
  bootstrap tip pay_to_address (some (suc height)) =
      place_cursor height >>= continue_poll tip pay_to_address (empty_result tip)

  abbrev pub poll_from : ℕ → Text → Option WatcherCursor → Watch WatcherPollResult
  poll_from tip pay_to_address none = bootstrap tip pay_to_address config.start_height
  poll_from tip pay_to_address (some cursor) =
      continue_poll tip pay_to_address (empty_result tip) cursor

  unfoldable pub poll : Watch WatcherPollResult
  unfolding resolve_pay_to_address continue_poll
  poll = ask node.get_block_count >>= λ tip. resolve_pay_to_address >>= λ pay_to_address.
      reads (get_watcher_cursor cursor_key) >>= poll_from tip pay_to_address

  -- `pollOnce`: the `finally` runs whatever the poll did.
  unfoldable pub poll_once : Watch WatcherPollResult
  unfolding poll
  poll_once w =
      let (r, w') = poll (record w { watcher = record (w.watcher) { polling = true } }) in
      (r, record w' { watcher = record (w'.watcher) { polling = false; last_poll_at = some now } })

  abbrev pub is_failure : {A : Type 0} → Outcome A → Bool
  is_failure (done _) = false
  is_failure node_failed = true
  is_failure (thrown _) = true

  abbrev pub after_tick : Outcome WatcherPollResult × World → World
  after_tick (r, w) = record w { watcher = record (w.watcher) { has_error = is_failure r } }

  -- A tick of the timer: an error stays in the watcher's status.
  unfoldable pub tick : World → World
  unfolding poll_once
  tick w = if w.watcher.running then after_tick (poll_once w) else w

abbrev pub new_watcher : RealDepositWatcher
new_watcher = record {
  pay_to_address = none;
  running = false;
  polling = false;
  last_poll_at = none;
  lag_blocks = none;
  has_error = false;
}

-- `start` and `stop` set the flag that ticks read; the timer is left out.
unfoldable pub start : RealDepositWatcher → RealDepositWatcher
start f = record f { running = true }

unfoldable pub stop : RealDepositWatcher → RealDepositWatcher
stop f = record f { running = false }

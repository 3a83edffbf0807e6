-- ===== src/Watcher/Tests.antt =====
-- Runs of the watchers (packages/deposit-watcher/src) on a small chain.
use v.Base.{ℕ, ◌≡◌, refl, true, false, Option, none, some, List, [], ◌∷◌, if◌then◌else◌, ◌==◌}
use v.Base.Int.{pos, ◌+ℤ◌, ◌-ℤ◌, neg}
use v.Base.Text.{Text, codes, text_eq}
use v.Base.Decimal.{decimal, decimal_fuel}
use v.Base.Strings.{starts_with}
use v.Base.Dict.{get, set, has}
use v.Protocol.Headers.{normalize_identity_key}
use v.Storage.Types.{DepositRecord, WatcherCursor}
use v.Storage.State.{
  empty_storage, append_ledger, find_entry, assert_balance_invariant, set_deposit_in,
  deposit_by_id_in,
}
use v.Storage.Deposits.{
  deposit_key, insert_deposit, credit_deposit, get_deposit, remine_deposit, mark_deposit_reorged,
  update_deposit_confirmations, filter_deposits, list_uncredited_deposits,
  list_deposits_at_or_above,
}
use v.Storage.Records.{get_watcher_cursor, set_watcher_cursor}
use v.Storage.Step.Solvent.{Solvent}
use v.Storage.History.{Call, insert}
use v.Storage.History.Invariants.{after}
use v.Storage.Deposits.{sum_credited_deposits}
use v.Verifier.Types.{answered, app_error}
use v.Watcher.Types.{
  Transaction, ChainIdentity, Node, World, empty_result, pure, ◌>>=◌, ask, reads, call, set_watcher,
  fails,
}
use v.Watcher.Attribution.{
  strip_chain_suffix, add_address, add_addresses, output_addresses, collect_addresses,
  identity_addresses, friendly_key, attribute_sender,
}
use v.Watcher.Scan.{
  RealWatcherConfig, pays_to, insert_or_skip, scan_output, scan_outputs, scan_txs, scan_block,
}
use v.Watcher.Poll.{
  config_of, resolve_pay_to_address, check_deposits, check_reorg, scan_blocks, scan_range, scan_new,
  track_confirmations, continue_poll, poll, poll_once, tick, new_watcher, start,
}
use v.Watcher.Carried.{IsCarried, check_reorg-IsCarried}
use v.Watcher.Depth.{EndsAtDepth, track_credits_at_depth}
use v.Watcher.Simulated.{SimulatedDepositWatcher, SimulateDepositInput, simulate_deposit}
use v.Watcher.Minted.{Mints, simulate_deposit-Mints}
use v.Verifier.Samples.{alice, coins, funded}

abbrev operator : Text
operator = codes "iOp"

abbrev payer : Text
payer = codes "iPay"

-- A transaction that pays the operator.
abbrev payment : Transaction
payment = record {
  txid = codes "t1";
  vin =
      record {
        is_coinbase = false;
        address = some payer;
        addresses = none;
        txid = none;
        vout = none;
      }
      ∷ [];
  outputs =
      record {
        n = 0;
        value_sat = some (pos 70);
        value_rounded = pos 70;
        script_addresses = operator ∷ [];
      }
      ∷ [];
}

abbrev payer_identity : ChainIdentity
payer_identity = record {
  identity_address = operator;
  name = codes "op";
  fully_qualified_name = none;
}

-- A chain of two blocks, by the hash of the upper one and what it holds.
abbrev chain : Text → List Transaction → Node
chain hash txs = record {
  get_block_count = answered 2;
  get_block_hash = λ h. if h == 2 then answered hash else answered (codes "h1");
  get_block_verbose = λ h.
      if h == 2
      then answered (record { hash = hash; txs = txs })
      else answered (record { hash = codes "h1"; txs = [] });
  get_raw_transaction = λ txid. app_error;
  get_identity = λ name. answered payer_identity;
}

abbrev config : RealWatcherConfig
config = config_of (codes "op@") (codes "VRSC") (codes "VRSC") (some 1) none none (some 1)

abbrev world : World
world = record { watcher = new_watcher; storage = empty_storage }

-- The chain with the payment in block A, a chain without it, and the first chain again.
abbrev branch_a : Node
branch_a = chain (codes "a2") (payment ∷ [])

abbrev branch_b : Node
branch_b = chain (codes "b2") []

-- The timer's ticks at 10, 20 and 30, at the one branch, the other, and the first again.
abbrev run_ticks : World → World
run_ticks w =
    let first = tick (λ t. t) (λ t. t) branch_a config 10 w in
    let second = tick (λ t. t) (λ t. t) branch_b config 20 first in
    tick (λ t. t) (λ t. t) branch_a config 30 second

abbrev reorg_of : Option DepositRecord → Option ℕ
reorg_of none = none
reorg_of (some d) = d.reorged_at

returned_deposit_stays_reorged :
    reorg_of (
      get_deposit
        (codes "t1")
        0
        (run_ticks (record world { watcher = start world.watcher })).storage)
    ≡ some 20
unfolding decimal decimal_fuel starts_with get set has normalize_identity_key append_ledger
    find_entry assert_balance_invariant set_deposit_in deposit_by_id_in deposit_key insert_deposit
    credit_deposit get_deposit remine_deposit mark_deposit_reorged update_deposit_confirmations
    filter_deposits list_uncredited_deposits list_deposits_at_or_above get_watcher_cursor
    set_watcher_cursor pure ◌>>=◌ ask reads call set_watcher fails strip_chain_suffix add_address
    add_addresses output_addresses collect_addresses identity_addresses friendly_key
    attribute_sender pays_to insert_or_skip scan_output scan_outputs scan_txs scan_block
    resolve_pay_to_address check_deposits check_reorg scan_blocks scan_range scan_new
    track_confirmations continue_poll poll poll_once tick start text_eq ◌+ℤ◌ ◌-ℤ◌ neg
returned_deposit_stays_reorged = refl

abbrev busy_world : World
busy_world = record { watcher = new_watcher; storage = after funded }

abbrev seen : List Call
seen = insert coins ∷ []

abbrev seen_world : World
seen_world = record { watcher = new_watcher; storage = after seen }

track_credits_at_depth_example : EndsAtDepth 1 9 (
    track_confirmations
      (λ t. t)
      (λ t. t)
      branch_a
      config
      30
      9
      (list_uncredited_deposits (after seen))
      (empty_result 9)
      seen_world)
track_credits_at_depth_example =
    track_credits_at_depth (λ t. t) (λ t. t) branch_a config 30 9 seen (empty_result 9) seen_world
      refl refl

abbrev simulator : SimulatedDepositWatcher
simulator = record {
  currency = codes "V";
  min_confirmations = 10;
  running = true;
  last_poll_at = none;
  block_counter = 3;
}

abbrev injected : SimulateDepositInput
injected = record {
  identity = alice;
  amount_sats = pos 5;
  txid = none;
  created_by = some (codes "ops");
  note = none;
}

simulate_deposit-Mints_example :
    let p = simulate_deposit (λ t. t) (λ t. t) injected (codes "u") 8 (simulator, after funded) in
    Mints (normalize_identity_key (λ t. t) (λ t. t) alice) (pos 5) (p.0, p.1.1) (after funded)
    × (sum_credited_deposits true p.1.1 ≡ sum_credited_deposits true (after funded))
simulate_deposit-Mints_example =
    simulate_deposit-Mints (λ t. t) (λ t. t) injected (codes "u") 8 simulator funded

abbrev lost_cursor : WatcherCursor
lost_cursor = record { last_block = 2; last_block_hash = codes "a2"; updated_at = 10 }

hashes-differ : text_eq (codes "b2") (codes "a2") ≡ false
unfolding text_eq
hashes-differ = refl

check_reorg-IsCarried_example : IsCarried branch_b (
    check_reorg
      (λ t. t)
      (λ t. t)
      branch_b
      config
      20
      lost_cursor
      (empty_result 2)
      (codes "b2")
      seen_world)
check_reorg-IsCarried_example =
    check_reorg-IsCarried branch_b (λ t. t) (λ t. t) config 20 seen lost_cursor (empty_result 2)
      (codes "b2") seen_world refl hashes-differ

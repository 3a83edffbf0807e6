-- ===== src/Watcher/Simulated.antt =====
-- packages/deposit-watcher/src/simulated-watcher.ts: deposits that an operator injects.
use v.Base.{ℕ, ◌+◌, ◌-◌, Bool, false, ◌&&◌, not, Option, none, some, ◌++◌, if◌then◌else◌}
use v.Base.Int.{ℤ, pos}
use v.Base.Text.{Text, codes, text_eq}
use v.Base.Decimal.{decimal}
use v.Protocol.Headers.{normalize_identity_key}
use v.Storage.Types.{DepositOrigin, InsertDepositInput, InsertAndCreditResult}
use v.Storage.State.{Storage, Result}
use v.Storage.Deposits.{insert_and_credit_deposit}
use v.Watcher.Types.{WatcherPollResult, empty_result}

pub record SimulatedWatcherConfig : Type 0 where
  pub currency : Text
  pub min_confirmations : Option ℕ
  pub node_env : Option Text
  pub allow_in_production : Option Bool

pub record SimulateDepositInput : Type 0 where
  pub identity : Text
  pub amount_sats : ℤ
  pub txid : Option Text
  pub created_by : Option Text
  pub note : Option Text

pub record SimulatedDepositWatcher : Type 0 where
  pub currency : Text
  pub min_confirmations : ℕ
  pub running : Bool
  pub last_poll_at : Option ℕ
  pub block_counter : ℕ

abbrev pub is_production : Option Text → Bool
is_production none = false
is_production (some env) = text_eq env (codes "production")

abbrev pub or_environment : {A : Type 0} → Option A → Option A → Option A
or_environment none environment = environment
or_environment (some given) environment = some given

abbrev pub is_allowed : Option Bool → Bool
is_allowed none = false
is_allowed (some allowed) = allowed

abbrev pub confirmations_of : Option ℕ → ℕ
confirmations_of none = 10
confirmations_of (some n) = n

-- The constructor, with what the process environment says; nothing where it throws.
unfoldable pub new_simulated_watcher :
    (environment : Option Text) (allowed_in_environment : Bool)
    → SimulatedWatcherConfig
    → Option SimulatedDepositWatcher
new_simulated_watcher environment allowed_in_environment config =
    if is_production (or_environment config.node_env environment)
      && not (is_allowed (or_environment config.allow_in_production (some allowed_in_environment)))
    then none
    else some (record {
      currency = config.currency;
      min_confirmations = confirmations_of config.min_confirmations;
      running = false;
      last_poll_at = none;
      block_counter = 1;
    })

abbrev pub txid_of : Option Text → Text → Text
txid_of none uuid = codes "sim-" ++ uuid
txid_of (some txid) uuid = txid

module _ (lower trim : Text → Text) where
  -- The row that `simulateDeposit` inserts.
  abbrev pub simulated_input :
      SimulatedDepositWatcher → SimulateDepositInput → (uuid : Text) (now : ℕ) → InsertDepositInput
  simulated_input f input uuid now = record {
    identity_id = normalize_identity_key lower trim input.identity;
    amount_sats = input.amount_sats;
    currency = f.currency;
    txid = txid_of input.txid uuid;
    vout = 0;
    block_height = f.block_counter;
    block_hash = codes "sim-" ++ decimal f.block_counter;
    confirmations = pos f.min_confirmations;
    detected_at = now;
    origin = DepositOrigin.simulated;
    created_by = input.created_by;
    note = input.note;
  }

  unfoldable pub simulate_deposit :
      SimulateDepositInput
      → (uuid : Text) (now : ℕ) → SimulatedDepositWatcher × Storage
      → Result InsertAndCreditResult × (SimulatedDepositWatcher × Storage)
  unfolding insert_and_credit_deposit normalize_identity_key decimal
  simulate_deposit input uuid now (f, s) =
      let (r, t) = insert_and_credit_deposit (simulated_input f input uuid now) now s in
      (r, (record f { block_counter = f.block_counter + 1 }, t))

-- `pollOnce` reports the state.
unfoldable pub poll_simulated :
    ℕ → SimulatedDepositWatcher → WatcherPollResult × SimulatedDepositWatcher
poll_simulated now f = (empty_result (f.block_counter - 1), record f { last_poll_at = some now })

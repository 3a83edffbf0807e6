-- ===== src/Watcher/Types.antt =====
-- The results of a poll (packages/deposit-watcher/src/types.ts), what the node answers, and the
-- monad of a poll: it reads and writes the watcher's own fields and the storage, and what it wrote
-- before it fails stays written. The node is a parameter; during one poll it answers the same
-- question in the same way, but a block's hash and the whole block are two questions.
use v.Base.{ap, ◌≡◌, ℕ, Bool, false, Option, none, List, []}
use v.Base.Int.{ℤ}
use v.Base.Text.{Text}
use v.Storage.Types.{Thrown}
use v.Storage.State.{Storage, Result, ok, throw, Action}
use v.Verifier.Types.{RpcAnswer, answered, unavailable, app_error}

pub data UnattributedReason : Type 0 where
  no_identity_vin multiple_identities : UnattributedReason

-- The texts of `opsFlags`, by what they report.
pub data OpsFlag : Type 0 where
  reorg_detected : (cursor_height rescan_from : ℕ) → OpsFlag
  negative_balance : (identity_id : Text) (balance_sats : ℤ) (deposit_id : ℕ) → OpsFlag
  deep_reorg : (height : ℕ) → OpsFlag
  scan_capped : (cap remaining : ℕ) → OpsFlag

pub record CreditedDeposit : Type 0 where
  pub deposit_id : ℕ
  pub identity_id : Text
  pub balance_after_sats : ℤ

pub record UnattributedOutput : Type 0 where
  pub txid : Text
  pub vout : ℕ
  pub reason : UnattributedReason

pub record WatcherPollResult : Type 0 where
  pub bootstrapped : Bool
  pub tip : ℕ
  pub scanned : Option (ℕ × ℕ)
  pub inserted : ℕ
  pub remined : ℕ
  pub reorged : ℕ
  pub credited : List CreditedDeposit
  pub unattributed : List UnattributedOutput
  pub remaining_blocks : ℕ
  pub ops_flags : List OpsFlag

abbrev pub empty_result : ℕ → WatcherPollResult
empty_result tip = record {
  bootstrapped = false;
  tip = tip;
  scanned = none;
  inserted = 0;
  remined = 0;
  reorged = 0;
  credited = [];
  unattributed = [];
  remaining_blocks = 0;
  ops_flags = [];
}

-- The parts of the node's answers that the watcher reads. `value_rounded` is the output's float
-- value times 10 ^ 8, rounded.
pub record TxInput : Type 0 where
  pub is_coinbase : Bool
  pub address : Option Text
  pub addresses : Option (List Text)
  pub txid : Option Text
  pub vout : Option ℕ

pub record TxOutput : Type 0 where
  pub n : ℕ
  pub value_sat : Option ℤ
  pub value_rounded : ℤ
  pub script_addresses : List Text

pub record Transaction : Type 0 where
  pub txid : Text
  pub vin : List TxInput
  pub outputs : List TxOutput

pub record Block : Type 0 where
  pub hash : Text
  pub txs : List Transaction

pub record ChainIdentity : Type 0 where
  pub identity_address : Text
  pub name : Text
  pub fully_qualified_name : Option Text

pub record Node : Type 0 where
  pub get_block_count : RpcAnswer ℕ
  pub get_block_hash : ℕ → RpcAnswer Text
  pub get_block_verbose : ℕ → RpcAnswer Block
  pub get_raw_transaction : Text → RpcAnswer Transaction
  pub get_identity : Text → RpcAnswer ChainIdentity

-- The fields of `RealDepositWatcher` that change; an error is kept as a flag.
pub record RealDepositWatcher : Type 0 where
  pub pay_to_address : Option Text
  pub running : Bool
  pub polling : Bool
  pub last_poll_at : Option ℕ
  pub lag_blocks : Option ℤ
  pub has_error : Bool

pub record World : Type 0 where
  pub watcher : RealDepositWatcher
  pub storage : Storage

pub data Outcome (A : Type 0) : Type 0 where
  done : A → Outcome A
  node_failed : Outcome A
  thrown : Thrown → Outcome A

abbrev pub Watch : Type 0 → Type 0
Watch A = World → Outcome A × World

unfoldable pub pure : {A : Type 0} → A → Watch A
pure a w = (done a, w)

-- What follows a part of a poll.
abbrev pub resume : {A B : Type 0} → (A → Watch B) → Outcome A × World → Outcome B × World
resume f (done a, w) = f a w
resume f (node_failed, w) = (node_failed, w)
resume f (thrown t, w) = (thrown t, w)

infixl 5 ◌>>=◌ ◌>>◌
unfoldable pub ◌>>=◌ : {A B : Type 0} → Watch A → (A → Watch B) → Watch B
◌>>=◌ m f w = resume f (m w)

abbrev pub ◌>>◌ : {A B : Type 0} → Watch A → Watch B → Watch B
m >> k = m >>= λ _. k

unfoldable pub fails : {A : Type 0} → Watch A
fails w = (node_failed, w)

-- A call of the node.
unfoldable pub ask : {A : Type 0} → RpcAnswer A → Watch A
ask (answered a) w = (done a, w)
ask unavailable w = (node_failed, w)
ask app_error w = (node_failed, w)

unfoldable pub reads : {A : Type 0} → (Storage → A) → Watch A
reads f w = (done (f w.storage), w)

abbrev pub lift : {A : Type 0} → World → Result A × Storage → Outcome A × World
lift w (ok a, s) = (done a, record w { storage = s })
lift w (throw t, s) = (thrown t, record w { storage = s })

-- A call of the storage.
unfoldable pub call : {A : Type 0} → Action A → Watch A
call m w = lift w (m w.storage)

unfoldable pub set_watcher : (RealDepositWatcher → RealDepositWatcher) → Watch (Unit {0})
set_watcher f w = (done tt, record w { watcher = f w.watcher })

pub bind-done :
    {A B : Type 0} (m : Watch A) (f : A → Watch B) (w : World) (a : A) (w' : World)
    → m w ≡ (done a, w')
    → (m >>= f) w ≡ f a w'
unfolding ◌>>=◌
bind-done m f w a w' e = ap (resume f) e

pub call-done :
    {A : Type 0} (m : Action A) (w : World) (a : A) (s : Storage)
    → m w.storage ≡ (ok a, s)
    → call m w ≡ (done a, record w { storage = s })
unfolding call
call-done m w a s e = ap (lift w) e

pub bind-node_failed :
    {A B : Type 0} (m : Watch A) (f : A → Watch B) (w w' : World)
    → m w ≡ (node_failed, w')
    → (m >>= f) w ≡ (node_failed, w')
unfolding ◌>>=◌
bind-node_failed m f w w' e = ap (resume f) e

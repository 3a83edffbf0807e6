-- ===== src/Storage/Deposits.antt =====
-- The deposits of `InMemoryStorage`: insertion, re-mining, crediting and reorgs
-- (packages/storage/src/memory.ts).
use v.Base.{
  ℕ, ◌+◌, Bool, true, false, ◌&&◌, ◌||◌, not, Option, none, some, List, [], ◌∷◌, ◌++◌, leb,
  if◌then◌else◌,
}
use v.Base.Int.{ℤ, pos, ◌+ℤ◌, ◌-ℤ◌, neg}
use v.Base.Text.{Text, text_eq}
use v.Base.Decimal.{decimal}
use v.Base.Dict.{Dict, get, has, set, delete}
use v.Storage.Types.{
  IdentityRecord, InsertDepositInput, DepositRecord, DepositOrigin, LedgerKind, LedgerReason,
  CreditFailure, CreditDepositResult, InsertAndCreditResult, ReorgFailure, MarkReorgedResult,
  duplicate_deposit, credit_failed,
}
use v.Storage.State.{
  Storage, ok, throw, Action, pure, ◌>>=◌, ◌>>◌, set_identity, deposit_by_id, set_deposit,
  append_ledger, assert_balance_invariant,
}

-- `${txid}:${vout}`
unfoldable pub deposit_key : Text → ℕ → Text
deposit_key txid vout = txid ++ (b':' ∷ decimal vout)

abbrev pub is_set : Option ℕ → Bool
is_set none = false
is_set (some _) = true

-- The row that `insertDeposit` makes, and the storage that holds it.
abbrev pub new_deposit : InsertDepositInput → Storage → DepositRecord
new_deposit input s = record {
  id = s.next_deposit_id;
  input = input;
  credited_at = none;
  reorged_at = none;
}

abbrev pub with_new_deposit : InsertDepositInput → Storage → Storage
with_new_deposit input s = record s {
  next_deposit_id = s.next_deposit_id + 1;
  deposits_by_key = set (deposit_key input.txid input.vout) (new_deposit input s) s.deposits_by_key;
}

unfoldable pub insert_deposit : InsertDepositInput → Action DepositRecord
insert_deposit input s =
    let key = deposit_key input.txid input.vout in
    if has key s.deposits_by_key
    then (throw (duplicate_deposit key), s)
    else (ok (new_deposit input s), with_new_deposit input s)

unfoldable pub get_deposit : Text → ℕ → Storage → Option DepositRecord
get_deposit txid vout s = get (deposit_key txid vout) s.deposits_by_key

pub record RemineUpdate : Type 0 where
  pub block_height : ℕ
  pub block_hash : Text
  pub confirmations : ℤ

abbrev pub remined : RemineUpdate → DepositRecord → DepositRecord
remined update d = record d {
  input = record (d.input) {
    block_height = update.block_height;
    block_hash = update.block_hash;
    confirmations = update.confirmations;
  };
  credited_at = none;
  reorged_at = none;
}

unfoldable pub remine_deposit : Text → ℕ → RemineUpdate → Action (Option DepositRecord)
remine_deposit txid vout update s =
    let key = deposit_key txid vout in
    elim (get key s.deposits_by_key) [
      | none ↦ (ok none, s)
      | some d ↦ (
        ok (some (remined update d)),
        record s { deposits_by_key = set key (remined update d) s.deposits_by_key },
      )
    ]

unfoldable pub update_deposit_confirmations : ℕ → ℤ → Action (Unit {0})
update_deposit_confirmations id confirmations s = elim (deposit_by_id id s) [
  | none ↦ (ok tt, s)
  | some d ↦
      set_deposit id (record d { input = record (d.input) { confirmations = confirmations } }) s
]

-- `creditedAt === undefined && reorgedAt === undefined`
abbrev pub is_uncredited : DepositRecord → Bool
is_uncredited d = not (is_set d.credited_at) && not (is_set d.reorged_at)

unfoldable pub sum_pending_in : Text → Dict DepositRecord → ℤ
sum_pending_in identity_id [] = pos 0
sum_pending_in identity_id ((k, d) ∷ m) =
    let rest = sum_pending_in identity_id m in
    if text_eq d.identity_id identity_id && is_uncredited d then d.amount_sats +ℤ rest else rest

unfoldable pub sum_pending_deposit_sats : Text → Storage → ℤ
unfolding sum_pending_in
sum_pending_deposit_sats identity_id s = sum_pending_in identity_id s.deposits_by_key

-- The values of the map that pass a test, in its order.
unfoldable pub filter_deposits : (DepositRecord → Bool) → Dict DepositRecord → List DepositRecord
filter_deposits p [] = []
filter_deposits p ((k, d) ∷ m) = let rest = filter_deposits p m in if p d then d ∷ rest else rest

unfoldable pub list_uncredited_deposits : Storage → List DepositRecord
unfolding filter_deposits
list_uncredited_deposits s = filter_deposits is_uncredited s.deposits_by_key

unfoldable pub list_deposits_at_or_above : ℕ → Storage → List DepositRecord
unfolding filter_deposits
list_deposits_at_or_above block_height s =
    filter_deposits (λ d. leb block_height d.block_height && not (is_set d.reorged_at))
      s.deposits_by_key

-- The identity that a credit goes to: the one that is there, with its first deposit dated, or a
-- new one.
abbrev pub credit_target : DepositRecord → ℕ → Option IdentityRecord → IdentityRecord
credit_target d credited_at none = record {
  identity_id = d.identity_id;
  balance_sats = pos 0;
  created_at = credited_at;
  first_deposit_at = some credited_at;
  last_request_at = none;
}
credit_target d credited_at (some identity) = elim identity.first_deposit_at [
  | none ↦ record identity { first_deposit_at = some credited_at }
  | some _ ↦ identity
]

abbrev pub is_new : Option IdentityRecord → Bool
is_new none = true
is_new (some _) = false

abbrev pub credit_body : ℕ → ℕ → DepositRecord → Option IdentityRecord → Action CreditDepositResult
credit_body id credited_at d found = do
  set_deposit id (record d { credited_at = some credited_at })
  let identity = credit_target d credited_at found
  let balance_after = identity.balance_sats +ℤ d.amount_sats
  set_identity d.identity_id (record identity { balance_sats = balance_after })
  append_ledger d.identity_id LedgerKind.deposit LedgerReason.deposit_credited d.amount_sats
      balance_after credited_at none (some d.id)
  assert_balance_invariant d.identity_id
  pure (CreditDepositResult.done balance_after (is_new found))

-- `assertBalanceInvariant` passes where there is no identity.
abbrev pub credit_row : ℕ → ℕ → DepositRecord → Option IdentityRecord → Action CreditDepositResult
credit_row id credited_at d found =
    assert_balance_invariant d.identity_id >> credit_body id credited_at d found

unfoldable pub credit_deposit : ℕ → ℕ → Action CreditDepositResult
credit_deposit id credited_at s = elim (deposit_by_id id s) [
  | none ↦ (ok (CreditDepositResult.not_done CreditFailure.not_found), s)
  | some d ↦
      if is_set d.reorged_at
      then (ok (CreditDepositResult.not_done CreditFailure.reorged), s)
      else if is_set d.credited_at
      then (ok (CreditDepositResult.not_done CreditFailure.already_credited), s)
      else credit_row id credited_at d (get d.identity_id s.identities) s
]

-- What `insertAndCreditDeposit` does with the result of `creditDeposit`.
abbrev pub finish_mint :
    Text → ℕ → ℕ → DepositRecord → CreditDepositResult → Action InsertAndCreditResult
finish_mint key id credited_at d (CreditDepositResult.done balance_after created) s = (
  ok (record {
    deposit = record d { credited_at = some credited_at };
    balance_after_sats = balance_after;
    identity_created = created;
  }),
  s,
)
finish_mint key id credited_at d (CreditDepositResult.not_done reason) s =
    (throw (credit_failed reason), record s { deposits_by_key = delete key s.deposits_by_key })

unfoldable pub insert_and_credit_deposit : InsertDepositInput → ℕ → Action InsertAndCreditResult
unfolding credit_deposit
insert_and_credit_deposit input credited_at s =
    let key = deposit_key input.txid input.vout in
    if has key s.deposits_by_key
    then (throw (duplicate_deposit key), s)
    else (credit_deposit s.next_deposit_id credited_at
          >>= finish_mint key s.next_deposit_id credited_at (new_deposit input s))
        (with_new_deposit input s)

abbrev pub reverse_body : ℕ → DepositRecord → IdentityRecord → Action MarkReorgedResult
reverse_body reorged_at d identity = do
  let balance_after = identity.balance_sats -ℤ d.amount_sats
  set_identity d.identity_id (record identity { balance_sats = balance_after })
  append_ledger d.identity_id LedgerKind.reorg_adjust LedgerReason.reorg (neg d.amount_sats)
      balance_after reorged_at none (some d.id)
  assert_balance_invariant d.identity_id
  pure (MarkReorgedResult.done true (some balance_after))

abbrev pub reverse_credit : ℕ → DepositRecord → IdentityRecord → Action MarkReorgedResult
reverse_credit reorged_at d identity =
    assert_balance_invariant d.identity_id >> reverse_body reorged_at d identity

unfoldable pub mark_deposit_reorged : ℕ → ℕ → Action MarkReorgedResult
mark_deposit_reorged id reorged_at s = elim (deposit_by_id id s) [
  | none ↦ (ok (MarkReorgedResult.not_done ReorgFailure.not_found), s)
  | some d ↦
      if is_set d.reorged_at
      then (ok (MarkReorgedResult.not_done ReorgFailure.already_reorged), s)
      else (set_deposit id (record d { reorged_at = some reorged_at })
            >> (if is_set d.credited_at
                then elim (get d.identity_id s.identities) [
                  | none ↦ pure (MarkReorgedResult.done false none)
                  | some identity ↦ reverse_credit reorged_at d identity
                ]
                else pure (MarkReorgedResult.done false none)))
          s
]

abbrev pub is_simulated : DepositOrigin → Bool
is_simulated DepositOrigin.simulated = true
is_simulated DepositOrigin.real = false

unfoldable pub sum_credited_in : Bool → Dict DepositRecord → ℤ
sum_credited_in exclude_simulated [] = pos 0
sum_credited_in exclude_simulated ((k, d) ∷ m) =
    let rest = sum_credited_in exclude_simulated m in
    if not (is_set d.credited_at) || is_set d.reorged_at
    then rest
    else if exclude_simulated && is_simulated d.origin
    then rest
    else d.amount_sats +ℤ rest

unfoldable pub sum_credited_deposits : Bool → Storage → ℤ
unfolding sum_credited_in
sum_credited_deposits exclude_simulated s = sum_credited_in exclude_simulated s.deposits_by_key

-- ===== src/Watcher/Attribution.antt =====
-- Who sent a deposit: packages/deposit-watcher/src/attribution.ts.
use v.Base.{
  ℕ, zero, suc, ◌-◌, Bool, Option, none, some, List, [], ◌∷◌, ◌++◌, reverse, if◌then◌else◌,
}
use v.Base.Text.{Text, text_eq}
use v.Base.Lists.{length, take}
use v.Base.Dict.{Dict, get, set}
use v.Base.Strings.{starts_with}
use v.Protocol.Headers.{normalize_identity_key}
use v.Watcher.Types.{
  UnattributedReason, no_identity_vin, multiple_identities, TxInput, TxOutput, Transaction,
  ChainIdentity, Node, Watch, pure, ◌>>=◌, ask,
}

pub data AttributionResult : Type 0 where
  attributed : (identity_key identity_address : Text) → AttributionResult
  unattributed : UnattributedReason → AttributionResult

pub record AttributionCaches : Type 0 where
  pub source_txs : Dict Transaction
  pub identity_keys : Dict Text

abbrev pub empty_attribution_caches : AttributionCaches
empty_attribution_caches = record { source_txs = []; identity_keys = [] }

abbrev pub has_suffix : Text → Text → Bool
has_suffix suffix s = starts_with (reverse suffix) (reverse s)

-- `Set.add` on a set in insertion order.
unfoldable pub add_address : List Text → Text → List Text
add_address [] a = a ∷ []
add_address (x ∷ xs) a = if text_eq x a then x ∷ xs else x ∷ add_address xs a

unfoldable pub add_addresses : List Text → List Text → List Text
unfolding add_address
add_addresses set_so_far [] = set_so_far
add_addresses set_so_far (a ∷ as') = add_addresses (add_address set_so_far a) as'

-- `source.vout[i]?.scriptPubKey.addresses ?? []`
unfoldable pub output_addresses : List TxOutput → ℕ → List Text
output_addresses [] i = []
output_addresses (o ∷ os) zero = o.script_addresses
output_addresses (o ∷ os) (suc i) = output_addresses os i

unfoldable pub identity_addresses : List Text → List Text
unfolding starts_with
identity_addresses [] = []
identity_addresses (a ∷ as') =
    let rest = identity_addresses as' in if starts_with (b'i' ∷ []) a then a ∷ rest else rest

module _ (lower trim : Text → Text) (node : Node) (chain_name : Text) where
  unfoldable pub strip_chain_suffix : Text → Text
  unfolding starts_with
  strip_chain_suffix name =
      let suffix = b'.' ∷ (lower chain_name ++ b'@' ∷ []) in
      if has_suffix suffix (lower name)
      then take (length name - length suffix) name ++ b'@' ∷ []
      else name

  -- The transaction that an input spends, from the cache or from the node.
  abbrev pub fetch_source :
      Text → AttributionCaches → Option Transaction → Watch (Transaction × AttributionCaches)
  fetch_source txid caches (some source) = pure (source, caches)
  fetch_source txid caches none = ask (node.get_raw_transaction txid) >>= λ source.
      pure (source, record caches { source_txs = set txid source caches.source_txs })

  abbrev pub source_tx : Text → AttributionCaches → Watch (Transaction × AttributionCaches)
  source_tx txid caches = fetch_source txid caches (get txid caches.source_txs)

  -- What an input without addresses of its own adds.
  abbrev pub add_source :
      List Text → Option Text → Option ℕ → AttributionCaches → Watch (List Text × AttributionCaches)
  add_source addresses (some txid) (some vout) caches = source_tx txid caches >>= λ found.
      pure (add_addresses addresses (output_addresses found.0.outputs vout), found.1)
  add_source addresses _ _ caches = pure (addresses, caches)

  abbrev pub add_own :
      TxInput
      → List Text
      → Option Text
      → Option (List Text)
      → AttributionCaches
      → Watch (List Text × AttributionCaches)
  add_own vin addresses (some address) more caches = pure (add_address addresses address, caches)
  add_own vin addresses none (some more) caches = pure (add_addresses addresses more, caches)
  add_own vin addresses none none caches = add_source addresses vin.txid vin.vout caches

  -- One round of the loop over the inputs.
  abbrev pub add_input :
      TxInput → List Text → AttributionCaches → Watch (List Text × AttributionCaches)
  add_input vin addresses caches =
      if vin.is_coinbase
      then pure (addresses, caches)
      else add_own vin addresses vin.address vin.addresses caches

  unfoldable pub collect_addresses :
      List TxInput → List Text → AttributionCaches → Watch (List Text × AttributionCaches)
  unfolding add_addresses output_addresses get set
  collect_addresses [] addresses caches = pure (addresses, caches)
  collect_addresses (vin ∷ vins) addresses caches =
      add_input vin addresses caches >>= λ found. collect_addresses vins found.0 found.1

  unfoldable pub friendly_key : ChainIdentity → Text
  unfolding strip_chain_suffix normalize_identity_key
  friendly_key identity = elim identity.fully_qualified_name [
    | some name ↦ normalize_identity_key lower trim (strip_chain_suffix name)
    | none ↦ normalize_identity_key lower trim (identity.name ++ b'@' ∷ [])
  ]

  abbrev pub fetch_identity_key :
      Text → AttributionCaches → Option Text → Watch (AttributionResult × AttributionCaches)
  fetch_identity_key address caches (some key) = pure (attributed key address, caches)
  fetch_identity_key address caches none = ask (node.get_identity address) >>= λ identity. pure (
    attributed (friendly_key identity) address,
    record caches { identity_keys = set address (friendly_key identity) caches.identity_keys },
  )

  abbrev pub identity_key_of :
      Text → AttributionCaches → Watch (AttributionResult × AttributionCaches)
  identity_key_of address caches =
      fetch_identity_key address caches (get address caches.identity_keys)

  -- What the identities among the addresses decide.
  abbrev pub decide_sender :
      List Text → AttributionCaches → Watch (AttributionResult × AttributionCaches)
  decide_sender [] caches = pure (unattributed no_identity_vin, caches)
  decide_sender (address ∷ []) caches = identity_key_of address caches
  decide_sender (_ ∷ _ ∷ _) caches = pure (unattributed multiple_identities, caches)

  unfoldable pub attribute_sender :
      Transaction → AttributionCaches → Watch (AttributionResult × AttributionCaches)
  unfolding collect_addresses identity_addresses friendly_key
  attribute_sender tx caches = collect_addresses tx.vin [] caches >>= λ found.
      decide_sender (identity_addresses found.0) found.1

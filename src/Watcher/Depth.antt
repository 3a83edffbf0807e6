-- ===== src/Watcher/Depth.antt =====
-- What `track_confirmations` of packages/deposit-watcher/src/real-watcher.ts credits.
use v.Base.{
  ℕ, ◌+◌, ◌≤◌, ◌≡◌, refl, sym, ap, ◌∙◌, inl, inr, true, false, some, List, [], ◌∷◌, ◌++◌, ==_iff,
  arith, Bool-cases,
}
use mathlib.Core.Path.{subst}
use mathlib.Core.Option.{some-injective}
use v.Base.Text.{Text}
use v.Base.Int.{ℤ, pos, sub_ℕ, ltb_ℤ}
use v.Base.Dict.{Dict}
use v.Storage.Types.{DepositRecord, CreditDepositResult}
use v.Storage.State.{Storage, deposit_by_id, deposit_by_id_in, ok}
use v.Storage.Deposits.{
  is_set, is_uncredited, filter_deposits, list_uncredited_deposits, update_deposit_confirmations,
  credit_deposit,
}
use v.Storage.Calls.Deposits.{credited}
use v.Storage.Step.Solvent.{Solvent}
use v.Storage.Step.Distinct.{HasDistinctIds, AllFound, filter_deposits-AllFound, deposit_by_id-id}
use v.Storage.History.{Call}
use v.Storage.History.Invariants.{after, after-Solvent, after-HasDistinctIds}
use v.Watcher.Types.{
  CreditedDeposit, WatcherPollResult, Node, World, Outcome, done, node_failed, thrown, pure,
  bind-done, call-done,
}
use v.Watcher.Scan.{RealWatcherConfig}
use v.Watcher.Poll.{credit_at_depth, confirm_deposit, count_credited, track_confirmations}
use v.Watcher.Follows.{
  Agrees, Agrees-trans, Follows, deposit_by_id-set_deposit, confirm-Follows, credit-cases,
  credited-Follows,
}

-- The row that a list of deposits shows is still there under its id.
abbrev pub AllPlaced : Dict DepositRecord → List DepositRecord → Type 0
AllPlaced m [] = Unit
AllPlaced m (d ∷ ds) =
    ((e : DepositRecord) × (deposit_by_id_in d.id m ≡ some e) × Agrees d e) × AllPlaced m ds

AllPlaced-Follows :
    (m n : Dict DepositRecord) (ds : List DepositRecord)
    → Follows m n
    → AllPlaced m ds
    → AllPlaced n ds
AllPlaced-Follows m n [] f h = tt
AllPlaced-Follows m n (d ∷ ds) f ((e, there, agrees), more) =
    let (e', there', agrees') = f d.id e there in
    ((e', there', Agrees-trans d e e' agrees agrees'), AllPlaced-Follows m n ds f more)

AllFound-AllPlaced :
    (m : Dict DepositRecord) (ds : List DepositRecord) → AllFound m ds → AllPlaced m ds
AllFound-AllPlaced m [] h = tt
AllFound-AllPlaced m (d ∷ ds) (there, more) =
    ((d, there, (refl, refl, refl, refl, λ p. p)), AllFound-AllPlaced m ds more)

module _ (min_confirmations tip : ℕ) where
  -- The row of a credited deposit: it is credited and not reorged, and its block is deep enough.
  abbrev pub IsCreditedAtDepth : Dict DepositRecord → CreditedDeposit → Type 0
  IsCreditedAtDepth m c =
      (d : DepositRecord) × (deposit_by_id_in c.deposit_id m ≡ some d)
      × (d.identity_id ≡ c.identity_id)
      × (is_set d.credited_at ≡ true)
      × (is_set d.reorged_at ≡ false)
      × (d.block_height + min_confirmations ≤ tip)

  abbrev pub AllAtDepth : Dict DepositRecord → List CreditedDeposit → Type 0
  AllAtDepth m [] = Unit
  AllAtDepth m (c ∷ cs) = IsCreditedAtDepth m c × AllAtDepth m cs

  AllAtDepth-Follows :
      (m n : Dict DepositRecord) (cs : List CreditedDeposit)
      → Follows m n
      → AllAtDepth m cs
      → AllAtDepth n cs
  AllAtDepth-Follows m n [] f h = tt
  AllAtDepth-Follows m n (c ∷ cs) f ((d, there, sender, was, live, deep), more) =
      let (e, there', (same_sender, same_height, same_hash, same_reorg, still)) =
        f c.deposit_id d there in
      (
        (
          e,
          there',
          same_sender ∙ sender,
          still was,
          ap is_set same_reorg ∙ live,
          subst (λ h. h + min_confirmations ≤ tip) (sym same_height) deep,
        ),
        AllAtDepth-Follows m n cs f more,
      )

  AllAtDepth-append :
      (m : Dict DepositRecord) (cs : List CreditedDeposit) (c : CreditedDeposit)
      → AllAtDepth m cs
      → IsCreditedAtDepth m c
      → AllAtDepth m (cs ++ c ∷ [])
  AllAtDepth-append m [] c h p = (p, tt)
  AllAtDepth-append m (x ∷ cs) c h p = (h.0, AllAtDepth-append m cs c h.1 p)

  -- The loop returns, and what it reports as credited is.
  abbrev pub EndsAtDepth : Outcome WatcherPollResult × World → Type 0
  EndsAtDepth (done result, w) = AllAtDepth w.storage.deposits_by_key result.credited
  EndsAtDepth (node_failed, w) = ⊥
  EndsAtDepth (thrown t, w) = ⊥

module _ (lower trim : Text → Text) (node : Node) (config : RealWatcherConfig) (now tip : ℕ) where
  abbrev Ends : Outcome WatcherPollResult × World → Type 0
  Ends = EndsAtDepth config.min_confirmations tip

  -- The entry that a credit of the row makes.
  credited-IsCreditedAtDepth :
      (d e : DepositRecord) (m : Storage) (balance : ℤ)
      → deposit_by_id d.id m ≡ some e
      → Agrees d e
      → is_set e.reorged_at ≡ false
      → ltb_ℤ (sub_ℕ tip d.block_height) (pos config.min_confirmations) ≡ false
      → IsCreditedAtDepth config.min_confirmations tip
          (credited d.id e now m).deposits_by_key
          (record { deposit_id = d.id; identity_id = d.identity_id; balance_after_sats = balance })
  credited-IsCreditedAtDepth d e m balance found (sender, height, hash, reorg, was) live deep = (
    record e { credited_at = some now },
    deposit_by_id-set_deposit d.id d.id e (record e { credited_at = some now }) m.deposits_by_key
          found (deposit_by_id-id d.id e m.deposits_by_key found)
        ∙ rw ((==_iff d.id d.id).1 refl) refl,
    sender,
    refl,
    live,
    rw height (ground arith),
  )

  -- The rounds of the loop, by what the test and the credit say.
  confirmed-then :
      (d : DepositRecord) (result : WatcherPollResult) (w : World) (t : Storage)
      → update_deposit_confirmations d.id (sub_ℕ tip d.block_height) w.storage ≡ (ok tt, t)
      → confirm_deposit lower trim node config now tip d result w
        ≡ credit_at_depth lower trim node config now tip d result (record w { storage = t })
  confirmed-then d result w t e =
      bind-done _ _ w tt (record w { storage = t }) (call-done _ w tt t e)

  too-shallow :
      (d : DepositRecord) (result : WatcherPollResult) (w : World)
      → ltb_ℤ (sub_ℕ tip d.block_height) (pos config.min_confirmations) ≡ true
      → credit_at_depth lower trim node config now tip d result w ≡ (done result, w)
  unfolding pure
  too-shallow d result w e = rw e refl

  deep_enough-then :
      (d : DepositRecord) (result : WatcherPollResult) (w : World) (r : CreditDepositResult)
      (t : Storage)
      → ltb_ℤ (sub_ℕ tip d.block_height) (pos config.min_confirmations) ≡ false
      → credit_deposit d.id now w.storage ≡ (ok r, t)
      → credit_at_depth lower trim node config now tip d result w
        ≡ (done (count_credited d result r), record w { storage = t })
  unfolding pure
  deep_enough-then d result w r t e c =
      rw e (bind-done _ _ w r (record w { storage = t }) (call-done _ w r t c))

  track-EndsAtDepth :
      (ds : List DepositRecord) (result : WatcherPollResult) (w : World)
      → Solvent w.storage
      → AllPlaced w.storage.deposits_by_key ds
      → AllAtDepth config.min_confirmations tip w.storage.deposits_by_key result.credited
      → Ends (track_confirmations lower trim node config now tip ds result w)
  unfolding track_confirmations pure
  track-EndsAtDepth [] result w h placed deep = deep
  track-EndsAtDepth (d ∷ ds) result w h (at, placed) sofar =
      let (t, confirmed, follows, kept) =
        confirm-Follows d.id (sub_ℕ tip d.block_height) w.storage in
      let placed' =
        AllPlaced-Follows w.storage.deposits_by_key t.deposits_by_key (d ∷ ds) follows
          (at, placed) in
      let sofar' =
        AllAtDepth-Follows config.min_confirmations tip w.storage.deposits_by_key t.deposits_by_key
          result.credited follows sofar in
      let w' : World = record w { storage = t } in
      let first = confirmed-then d result w t confirmed in
      let loop = track_confirmations lower trim node config now tip ds in
      let round = confirm_deposit lower trim node config now tip d result in
      elim (Bool-cases (ltb_ℤ (sub_ℕ tip d.block_height) (pos config.min_confirmations))) [
        | inl shallow ↦
            subst Ends
              (sym (bind-done round loop w result w' (first ∙ too-shallow d result w' shallow)))
              (track-EndsAtDepth ds result w' (kept h) placed'.1 sofar')
        | inr deep ↦ elim (credit-cases d.id now t (kept h)) [
          | inl (reason, refused) ↦
              subst Ends
                (sym (
                  bind-done round loop w result w'
                    (first ∙ deep_enough-then d result w' _ t deep refused)))
                (track-EndsAtDepth ds result w' (kept h) placed'.1 sofar')
          | inr (e, found, live, (balance, created, done', solvent)) ↦
              let (e', found', agrees) = placed'.0 in
              let f = credited-Follows d.id now e t found in
              let agrees' = subst (Agrees d) (some-injective e' e (sym found' ∙ found)) agrees in
              let w'' : World = record w { storage = credited d.id e now t } in
              let entry = credited-IsCreditedAtDepth d e t balance found agrees' live deep in
              let result' = count_credited d result (CreditDepositResult.done balance created) in
              subst Ends
                (sym (
                  bind-done round loop w result' w''
                    (first ∙ deep_enough-then d result w' _ _ deep done')))
                (track-EndsAtDepth ds result' w'' solvent
                  (AllPlaced-Follows t.deposits_by_key w''.storage.deposits_by_key ds f placed'.1)
                  (AllAtDepth-append config.min_confirmations tip w''.storage.deposits_by_key
                    result.credited _
                    (AllAtDepth-Follows config.min_confirmations tip t.deposits_by_key
                      w''.storage.deposits_by_key result.credited f sofar')
                    entry))
        ]
      ]

  -- In a storage that some calls of its methods have built, the loop over the uncredited deposits
  -- returns, and every deposit that it reports as credited stands in the storage under its id and the
  -- reported identity, credited and not reorged, with a block that is at least the configured number
  -- of confirmations below the tip.
  pub track_credits_at_depth :
      (cs : List Call) (result : WatcherPollResult) (w : World)
      → w.storage ≡ after cs
      → result.credited ≡ []
      → EndsAtDepth config.min_confirmations tip (
          track_confirmations lower trim node config now tip
            (list_uncredited_deposits w.storage)
            result
            w)
  unfolding list_uncredited_deposits
  track_credits_at_depth cs result w built none_yet =
      let m = w.storage.deposits_by_key in
      track-EndsAtDepth (filter_deposits is_uncredited m) result w
        (subst Solvent (sym built) (after-Solvent cs))
        (AllFound-AllPlaced m (filter_deposits is_uncredited m) (
          filter_deposits-AllFound is_uncredited m
            (subst HasDistinctIds (sym built) (after-HasDistinctIds cs))))
        (subst (AllAtDepth config.min_confirmations tip m) (sym none_yet) tt)

-- ===== src/Watcher/Carried.antt =====
-- What the reorganisation check of packages/deposit-watcher/src/real-watcher.ts leaves: deposits that
-- the chain carries.
use v.Base.{
  ℕ, ◌≤◌, ◌≡◌, ◌⊎◌, refl, sym, ap, ◌∙◌, inl, inr, Bool, true, false, not, ◌&&◌, some, List, [], ◌∷◌,
  leb, arith, Bool-cases,
}
use mathlib.Core.Path.{subst}
use v.Base.Text.{Text, text_eq, text_eq_iff}
use v.Base.Dict.{Dict}
use v.Storage.Types.{DepositRecord, WatcherCursor, MarkReorgedResult}
use v.Storage.State.{Storage, ok, deposit_by_id, deposit_by_id_in}
use v.Storage.Deposits.{is_set, filter_deposits, list_deposits_at_or_above, mark_deposit_reorged}
use v.Storage.Step.Solvent.{Solvent}
use v.Storage.Step.Distinct.{AllFound, HasDistinctIds, deposit_by_id-id, filter_deposits-AllFound}
use v.Storage.History.{Call}
use v.Storage.History.Invariants.{after, after-Solvent, after-HasDistinctIds}
use v.Verifier.Types.{RpcAnswer, answered, unavailable, app_error}
use v.Watcher.Types.{
  reorg_detected, WatcherPollResult, Node, World, Outcome, done, node_failed, thrown, Watch, pure,
  ◌>>=◌, ask, reads, resume, bind-done, bind-node_failed, call-done,
}
use v.Watcher.Scan.{RealWatcherConfig}
use v.Watcher.Poll.{
  check_deposit, check_deposits, check_reorg, count_reorged, flag, lookback_floor_of,
}
use v.Watcher.Marked.{Marked, unmarked, Marked-trans, Gone, mark-cases, AllRows, AllRows-found}
use mathlib.Core.Option.{some-injective}

module _ (node : Node) where
  -- A row that is not reorged stands in a block of the chain.
  abbrev pub Settled : Dict DepositRecord → ℕ → Type 0
  Settled m id =
      (e : DepositRecord)
      → deposit_by_id_in id m ≡ some e
      → is_set e.reorged_at ≡ false
      → node.get_block_hash e.block_height ≡ answered e.block_hash

  Settled-Marked : (m n : Dict DepositRecord) (id : ℕ) → Marked m n → Settled m id → Settled n id
  Settled-Marked m n id f h e there live =
      let (d, in_m, height, hash, was_live) = f id e there in
      ap node.get_block_hash (sym height) ∙ h d in_m (was_live live) ∙ ap answered hash

  Gone-Settled : (m : Dict DepositRecord) (id : ℕ) → Gone id m → Settled m id
  Gone-Settled m id h e there live = absurd (cc (h e there, live))

  -- The loop gets no exception; where it returns, it has settled the rows of the list.
  abbrev Ends : {A : Type 0} → Dict DepositRecord → List DepositRecord → Outcome A × World → Type 0
  Ends m ds (done result, w) =
      AllRows (λ d. Settled w.storage.deposits_by_key d.id) ds × Marked m w.storage.deposits_by_key
  Ends m ds (node_failed, w) = Unit
  Ends m ds (thrown t, w) = ⊥

  Ends-cons :
      {A : Type 0} (l m : Dict DepositRecord) (d : DepositRecord) (ds : List DepositRecord)
      (p : Outcome A × World)
      → Marked l m
      → Settled m d.id
      → Ends m ds p
      → Ends l (d ∷ ds) p
  Ends-cons l m d ds (done result, w) f h (settled, g) = (
    (Settled-Marked m w.storage.deposits_by_key d.id g h, settled),
    Marked-trans l m w.storage.deposits_by_key f g,
  )
  Ends-cons l m d ds (node_failed, w) f h e = tt
  Ends-cons l m d ds (thrown t, w) f h e = e

  -- A listed row whose hash the node confirms is settled.
  match-Settled :
      (m n : Dict DepositRecord) (d : DepositRecord) (hash : Text)
      → deposit_by_id_in d.id m ≡ some d
      → Marked m n
      → node.get_block_hash d.block_height ≡ answered hash
      → text_eq d.block_hash hash ≡ true
      → Settled n d.id
  match-Settled m n d hash found f answer same e there live =
      let (c, in_m, height, c_hash, was_live) = f d.id e there in
      let c_is : c ≡ d = some-injective c d (sym in_m ∙ found) in
      let same_height : d.block_height ≡ e.block_height =
        sym (ap (λ r. r.block_height) c_is) ∙ height in
      let same_hash : d.block_hash ≡ e.block_hash = sym (ap (λ r. r.block_hash) c_is) ∙ c_hash in
      ap node.get_block_hash (sym same_height)
      ∙ answer
      ∙ ap answered (sym ((text_eq_iff d.block_hash hash).0 same) ∙ same_hash)

  module _ (lower trim : Text → Text) (config : RealWatcherConfig) (now : ℕ)
      (lookback_floor : ℕ) where
    abbrev round : DepositRecord → WatcherPollResult → Watch WatcherPollResult
    round d result = check_deposit lower trim node config now lookback_floor d result

    abbrev loop : List DepositRecord → WatcherPollResult → Watch WatcherPollResult
    loop ds result = check_deposits lower trim node config now lookback_floor ds result

    -- The rounds of the loop, by what the node says.
    round-fails :
        (d : DepositRecord) (result : WatcherPollResult) (w : World)
        → (node.get_block_hash d.block_height ≡ unavailable)
          ⊎ (node.get_block_hash d.block_height ≡ app_error)
        → round d result w ≡ (node_failed, w)
    unfolding ask
    round-fails d result w (inl e) =
        bind-node_failed (ask (node.get_block_hash d.block_height)) _ w w (ap (λ a. ask a w) e)
    round-fails d result w (inr e) =
        bind-node_failed (ask (node.get_block_hash d.block_height)) _ w w (ap (λ a. ask a w) e)

    round-matches :
        (d : DepositRecord) (result : WatcherPollResult) (w : World) (hash : Text)
        → node.get_block_hash d.block_height ≡ answered hash
        → text_eq d.block_hash hash ≡ true
        → round d result w ≡ (done result, w)
    unfolding ask pure
    round-matches d result w hash e same =
        bind-done (ask (node.get_block_hash d.block_height)) _ w hash w (ap (λ a. ask a w) e)
        ∙ rw same refl

    round-marks :
        (d : DepositRecord) (result : WatcherPollResult) (w : World) (hash : Text)
        (r : MarkReorgedResult) (t : Storage)
        → node.get_block_hash d.block_height ≡ answered hash
        → text_eq d.block_hash hash ≡ false
        → mark_deposit_reorged d.id now w.storage ≡ (ok r, t)
        → round d result w
          ≡ (done (count_reorged lookback_floor d result r), record w { storage = t })
    unfolding ask pure
    round-marks d result w hash r t e other marks =
        bind-done (ask (node.get_block_hash d.block_height)) _ w hash w (ap (λ a. ask a w) e)
        ∙ rw other (bind-done _ _ w r (record w { storage = t }) (call-done _ w r t marks))

    answer-cases :
        (a : RpcAnswer Text)
        → ((hash : Text) × (a ≡ answered hash)) ⊎ ((a ≡ unavailable) ⊎ (a ≡ app_error))
    answer-cases (answered hash) = inl (hash, refl)
    answer-cases unavailable = inr (inl refl)
    answer-cases app_error = inr (inr refl)

    check_deposits-Ends :
        (m : Dict DepositRecord) (ds : List DepositRecord) (result : WatcherPollResult) (w : World)
        → Solvent w.storage
        → AllFound m ds
        → Marked m w.storage.deposits_by_key
        → Ends w.storage.deposits_by_key ds (loop ds result w)
    unfolding check_deposits pure
    check_deposits-Ends m [] result w h found f = (tt, unmarked w.storage.deposits_by_key)
    check_deposits-Ends m (d ∷ ds) result w h (first, found) f =
        let n = w.storage.deposits_by_key in
        elim (answer-cases (node.get_block_hash d.block_height)) [
          | inr failed ↦
              subst (Ends n (d ∷ ds))
                (sym
                  (bind-node_failed (round d result) (loop ds) w w (round-fails d result w failed)))
                tt
          | inl (hash, e) ↦ elim (Bool-cases (text_eq d.block_hash hash)) [
            | inl same ↦
                subst (Ends n (d ∷ ds))
                  (sym (
                    bind-done (round d result) (loop ds) w result w
                      (round-matches d result w hash e same)))
                  (Ends-cons n n d ds (loop ds result w) (unmarked n)
                    (match-Settled m n d hash first f e same)
                    (check_deposits-Ends m ds result w h found f))
            | inr other ↦
                let (r, t, (marks, solvent, marked, gone)) = mark-cases d.id now w.storage h in
                let w' : World = record w { storage = t } in
                let result' = count_reorged lookback_floor d result r in
                subst (Ends n (d ∷ ds))
                  (sym (
                    bind-done (round d result) (loop ds) w result' w'
                      (round-marks d result w hash r t e other marks)))
                  (Ends-cons n t.deposits_by_key d ds (loop ds result' w') marked
                    (Gone-Settled t.deposits_by_key d.id gone)
                    (check_deposits-Ends m ds result' w' solvent found
                      (Marked-trans m n t.deposits_by_key f marked)))
          ]
        ]

  -- No exception; and after a return, every deposit from block 1 on that is not reorged stands in the
  -- block that the node has at its height.
  abbrev pub IsCarried : {A : Type 0} → Outcome A × World → Type 0
  IsCarried (done result, w) =
      (id : ℕ) (e : DepositRecord)
      → deposit_by_id id w.storage ≡ some e
      → 1 ≤ e.block_height
      → is_set e.reorged_at ≡ false
      → node.get_block_hash e.block_height ≡ answered e.block_hash
  IsCarried (node_failed, w) = Unit
  IsCarried (thrown t, w) = ⊥

  listed : DepositRecord → Bool
  listed d = leb 1 d.block_height && not (is_set d.reorged_at)

  listed_of :
      (d : DepositRecord) → 1 ≤ d.block_height → is_set d.reorged_at ≡ false → listed d ≡ true
  unfolding listed
  listed_of d high live = rw live (ground arith)

  Ends-IsCarried :
      {A B : Type 0} (f : A → Watch B) (m : Dict DepositRecord) (p : Outcome A × World)
      → ((a : A) (w : World) → (b : B) × (f a w ≡ (done b, w)))
      → Ends m (filter_deposits listed m) p
      → IsCarried (resume f p)
  Ends-IsCarried f m (done a, w) last (settled, marked) =
      let (b, e) = last a w in
      subst IsCarried (sym e) (λ id row there high live.
        let (d, in_m, height, hash, was_live) = marked id row there in
        AllRows-found (λ x. Settled w.storage.deposits_by_key x.id) listed id d m settled in_m
          (listed_of d (subst (λ h. 1 ≤ h) (sym height) high) (was_live live)) row
          (subst (λ i. deposit_by_id_in i w.storage.deposits_by_key ≡ some row)
            (sym (deposit_by_id-id id d m in_m)) there)
          live)
  Ends-IsCarried f m (node_failed, w) last h = tt
  Ends-IsCarried f m (thrown t, w) last h = h

  module _ (lower trim : Text → Text) (config : RealWatcherConfig) (now : ℕ) where
    -- In a storage that some calls of its methods have built, and where the node's block at the cursor's
    -- height is another one, the reorganisation check gets no exception from the storage; if no call of
    -- the node fails, then afterwards every recorded deposit from block 1 on that is not marked as
    -- reorged stands in the block that the node has at its height.
    pub check_reorg-IsCarried :
        (cs : List Call) (cursor : WatcherCursor) (result : WatcherPollResult) (hash : Text)
        (w : World)
        → w.storage ≡ after cs
        → text_eq hash cursor.last_block_hash ≡ false
        → IsCarried (check_reorg lower trim node config now cursor result hash w)
    unfolding check_reorg reads pure ◌>>=◌ list_deposits_at_or_above listed
    check_reorg-IsCarried cs cursor result hash w built other =
        let m = w.storage.deposits_by_key in
        let lookback_floor = lookback_floor_of lower trim node config now cursor in
        rw other (
          Ends-IsCarried _ m
            (check_deposits lower trim node config now lookback_floor (filter_deposits listed m)
              (flag (reorg_detected cursor.last_block lookback_floor) result) w)
            (λ a v. ((lookback_floor, a), refl))
            (check_deposits-Ends lower trim config now lookback_floor m (filter_deposits listed m) _
              w (subst Solvent (sym built) (after-Solvent cs))
              (filter_deposits-AllFound listed m
                (subst HasDistinctIds (sym built) (after-HasDistinctIds cs)))
              (unmarked m)))

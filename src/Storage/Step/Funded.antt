-- ===== src/Storage/Step/Funded.antt =====
-- Every reservation, every refunded request and every credit belongs to an identity that is there:
-- a reservation can always be given back, and a credit can always be taken back.
use v.Base.{
  ℕ, ◌≡◌, ◌≢◌, sym, true, false, Bool, inl, inr, none, some, [], ◌∷◌, arith, ltb, Bool-cases,
}
use mathlib.Core.Path.{subst}
use v.Base.Text.{Text, text_eq_refl}
use v.Base.Dict.{Dict, get, set, get-set}
use v.Base.Sums.{AllValues, AllValues-set, AllValues-map}
use v.Storage.Types.{IdentityRecord, SpentRequestStatus, SpentRequestRecord, DepositRecord}
use v.Storage.State.{Storage}
use v.Storage.Requests.{cleanup_rows}
use v.Storage.Deposits.{is_set}
use v.Storage.Step.{
  Step, burn, touch, debit, commit, refund, late_commit, purge, deposit, remine, confirm, credit,
  reverse, mark, aside, Steps, here, next,
}
use v.Storage.Step.Deposits.{AllValues-deposit_by_id, AllValues-set_deposit}

-- A row that may still give its money back, or take it again.
abbrev pub is_pending : SpentRequestStatus → Bool
is_pending SpentRequestStatus.reserved = true
is_pending SpentRequestStatus.error = true
is_pending _ = false

abbrev pub RowFunded : Dict IdentityRecord → SpentRequestRecord → Type 0
RowFunded ids row = is_pending row.status ≡ true → get row.identity_id ids ≢ none

abbrev pub DepositFunded : Dict IdentityRecord → DepositRecord → Type 0
DepositFunded ids d = is_set d.credited_at ≡ true → get d.identity_id ids ≢ none

abbrev pub Funded : Storage → Type 0
Funded s =
    AllValues (RowFunded s.identities) s.spent_requests
    × AllValues (DepositFunded s.identities) s.deposits_by_key

-- The identities never get fewer.
known-set :
    (j k : Text) (r : IdentityRecord) (ids : Dict IdentityRecord)
    → get j ids ≢ none
    → get j (set k r ids) ≢ none
known-set j k r ids h = rw (get-set j k r ids) (ground arith)

known_self :
    (k : Text) (r : IdentityRecord) (ids : Dict IdentityRecord) → get k (set k r ids) ≢ none
known_self k r ids = rw (get-set k k r ids, text_eq_refl k) (cc)

known_of_some :
    (k : Text) (i : IdentityRecord) (ids : Dict IdentityRecord)
    → get k ids ≡ some i
    → get k ids ≢ none
known_of_some k i ids e = ground arith

module _ (k : Text) (r : IdentityRecord) (ids : Dict IdentityRecord) where
  grow_rows :
      (m : Dict SpentRequestRecord)
      → AllValues (RowFunded ids) m
      → AllValues (RowFunded (set k r ids)) m
  grow_rows m =
      AllValues-map (RowFunded ids) (RowFunded (set k r ids)) m
        (λ row f pending. known-set row.identity_id k r ids (f pending))

  grow_deposits :
      (m : Dict DepositRecord)
      → AllValues (DepositFunded ids) m
      → AllValues (DepositFunded (set k r ids)) m
  grow_deposits m =
      AllValues-map (DepositFunded ids) (DepositFunded (set k r ids)) m
        (λ d f was. known-set d.identity_id k r ids (f was))

cleanup-AllValues :
    (P : SpentRequestRecord → Type 0) (cutoff : ℕ) (m : Dict SpentRequestRecord)
    → AllValues P m
    → AllValues P (cleanup_rows cutoff m).0
unfolding cleanup_rows
cleanup-AllValues P cutoff [] h = tt
cleanup-AllValues P cutoff ((k, row) ∷ m) h = elim (Bool-cases (ltb row.issued_at cutoff)) [
  | inl old ↦ rw old (cleanup-AllValues P cutoff m h.1)
  | inr young ↦ rw young (h.0, cleanup-AllValues P cutoff m h.1)
]

pub Step-Funded : {b : Bool} {s t : Storage} → Step b s t → Funded s → Funded t
Step-Funded {s} (burn k row fresh (inl st) e) (rows, ds) =
    subst Funded (sym e)
      (AllValues-set (RowFunded s.identities) k row s.spent_requests (rw st (λ p. cc)) rows, ds)
Step-Funded {s} (burn k row fresh (inr (st, zero_sats)) e) (rows, ds) =
    subst Funded (sym e)
      (AllValues-set (RowFunded s.identities) k row s.spent_requests (rw st (λ p. cc)) rows, ds)
Step-Funded {s} (touch k old new found same e) (rows, ds) = subst Funded (sym e) (
  grow_rows k new s.identities s.spent_requests rows,
  grow_deposits k new s.identities s.deposits_by_key ds,
)
Step-Funded {s} (debit k row i at fresh status found covered e) (rows, ds) = subst Funded (sym e) (
  AllValues-set _ k row s.spent_requests (λ p. known_self row.identity_id _ s.identities)
      (grow_rows row.identity_id _ s.identities s.spent_requests rows),
  grow_deposits row.identity_id _ s.identities s.deposits_by_key ds,
)
Step-Funded {s} (commit k row bytes found status e) (rows, ds) =
    subst Funded (sym e) (AllValues-set _ k _ s.spent_requests (λ p. cc) rows, ds)
Step-Funded {s} (refund k row i reason at found status known e) (rows, ds) = subst Funded (sym e) (
  AllValues-set _ k _ s.spent_requests (λ p. known_self row.identity_id _ s.identities)
      (grow_rows row.identity_id _ s.identities s.spent_requests rows),
  grow_deposits row.identity_id _ s.identities s.deposits_by_key ds,
)
Step-Funded {s} (late_commit k row i bytes at found status known e) (rows, ds) =
    subst Funded (sym e) (
      AllValues-set _ k _ s.spent_requests (λ p. known_self row.identity_id _ s.identities)
          (grow_rows row.identity_id _ s.identities s.spent_requests rows),
      grow_deposits row.identity_id _ s.identities s.deposits_by_key ds,
    )
Step-Funded {s} (purge cutoff untidy e) (rows, ds) =
    subst Funded (sym e) (cleanup-AllValues _ cutoff s.spent_requests rows, ds)
Step-Funded {s} (deposit input fresh e) (rows, ds) =
    subst Funded (sym e) (rows, AllValues-set _ _ _ s.deposits_by_key (λ p. cc) ds)
Step-Funded {s} (remine k d update found tidy e) (rows, ds) =
    subst Funded (sym e) (rows, AllValues-set _ k _ s.deposits_by_key (λ p. cc) ds)
Step-Funded {s} (confirm id d n found e) (rows, ds) = subst Funded (sym e) (
  rows,
  AllValues-set_deposit _ id _ s.deposits_by_key
      (AllValues-deposit_by_id _ id d s.deposits_by_key ds found) ds,
)
Step-Funded {s} (credit id d at found live fresh e) (rows, ds) = subst Funded (sym e) (
  grow_rows d.identity_id _ s.identities s.spent_requests rows,
  AllValues-set_deposit _ id _ s.deposits_by_key (λ p. known_self d.identity_id _ s.identities)
      (grow_deposits d.identity_id _ s.identities s.deposits_by_key ds),
)
Step-Funded {s} (reverse id d i at found live credited known e) (rows, ds) = subst Funded (sym e) (
  grow_rows d.identity_id _ s.identities s.spent_requests rows,
  AllValues-set_deposit _ id _ s.deposits_by_key (λ p. known_self d.identity_id _ s.identities)
      (grow_deposits d.identity_id _ s.identities s.deposits_by_key ds),
)
Step-Funded {s} (mark id d at found live unmoved e) (rows, ds) = subst Funded (sym e) (
  rows,
  AllValues-set_deposit _ id _ s.deposits_by_key
      (AllValues-deposit_by_id (DepositFunded s.identities) id d s.deposits_by_key ds found) ds,
)
Step-Funded (aside ids ledger rows deposits count) h = rw (ids, rows, deposits) h

pub Steps-Funded : {b : Bool} {s t : Storage} → Steps b s t → Funded s → Funded t
Steps-Funded here h = h
Steps-Funded (next r st) h = Step-Funded st (Steps-Funded r h)

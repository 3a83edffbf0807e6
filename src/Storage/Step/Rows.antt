-- ===== src/Storage/Step/Rows.antt =====
-- How the rows of the spent requests change: a burned id stays burned, and a row that is neither
-- reserved nor given back never changes again.
use v.Base.{◌≡◌, ◌≢◌, sym, true, false, inl, inr, none, some, arith, Bool-cases}
use mathlib.Core.Path.{subst}
use v.Base.Text.{Text, text_eq, text_eq_iff}
use v.Base.Dict.{Dict, get, set, get-set}
use v.Storage.Types.{SpentRequestRecord}
use v.Storage.State.{Storage}
use v.Storage.Step.{
  Step, burn, touch, debit, commit, refund, late_commit, purge, deposit, remine, confirm, credit,
  reverse, mark, aside, Steps, here, next,
}
use v.Storage.Step.Funded.{is_pending}

final_set :
    (j k : Text) (new row : SpentRequestRecord) (m : Dict SpentRequestRecord)
    → get j m ≡ some row
    → get k m ≢ some row
    → get j (set k new m) ≡ some row
final_set j k new row m found other = elim (Bool-cases (text_eq k j)) [
  | inl hit ↦ absurd (other (subst (λ i. get i m ≡ some row) (sym ((text_eq_iff k j).0 hit)) found))
  | inr miss ↦ rw (get-set j k new m, miss) found
]

present_set :
    (j k : Text) (new : SpentRequestRecord) (m : Dict SpentRequestRecord)
    → get j m ≢ none
    → get j (set k new m) ≢ none
present_set j k new m h = rw (get-set j k new m) (ground arith)

fresh_ne :
    (k : Text) (row : SpentRequestRecord) (m : Dict SpentRequestRecord)
    → get k m ≡ none
    → get k m ≢ some row
fresh_ne k row m e = cc

status_ne :
    (k : Text) (old row : SpentRequestRecord) (m : Dict SpentRequestRecord)
    → get k m ≡ some old
    → is_pending old.status ≡ true
    → is_pending row.status ≡ false
    → get k m ≢ some row
status_ne k old row m e pending final same = cc

-- A row that is neither reserved nor given back stays as it is.
Step-final :
    {s t : Storage}
    → Step true s t
    → (j : Text) (row : SpentRequestRecord) → is_pending row.status ≡ false
    → get j s.spent_requests ≡ some row
    → get j t.spent_requests ≡ some row
Step-final {s} (burn k new fresh status e) j row final h =
    rw e (final_set j k new row s.spent_requests h (fresh_ne k row s.spent_requests fresh))
Step-final (touch k old new found same e) j row final h = rw e h
Step-final {s} (debit k new i at fresh status found covered e) j row final h =
    rw e (final_set j k new row s.spent_requests h (fresh_ne k row s.spent_requests fresh))
Step-final {s} (commit k old bytes found status e) j row final h = rw e (
    final_set j k _ row s.spent_requests h
      (status_ne k old row s.spent_requests found (rw (status, is_pending)) final))
Step-final {s} (refund k old i reason at found status known e) j row final h = rw e (
    final_set j k _ row s.spent_requests h
      (status_ne k old row s.spent_requests found (rw (status, is_pending)) final))
Step-final {s} (late_commit k old i bytes at found status known e) j row final h = rw e (
    final_set j k _ row s.spent_requests h
      (status_ne k old row s.spent_requests found (rw (status, is_pending)) final))
Step-final (purge cutoff untidy e) j row final h = absurd (cc)
Step-final (deposit input fresh e) j row final h = rw e h
Step-final (remine k d update found tidy e) j row final h = rw e h
Step-final (confirm n d c found e) j row final h = rw e h
Step-final (credit n d at found live fresh e) j row final h = rw e h
Step-final (reverse n d i at found live credited known e) j row final h = rw e h
Step-final (mark n d at found live unmoved e) j row final h = rw e h
Step-final (aside ids ledger rows deposits count) j row final h = rw rows h

Step-present :
    {s t : Storage}
    → Step true s t
    → (j : Text) → get j s.spent_requests ≢ none
    → get j t.spent_requests ≢ none
Step-present {s} (burn k new fresh status e) j h = rw e (present_set j k new s.spent_requests h)
Step-present (touch k old new found same e) j h = rw e h
Step-present {s} (debit k new i at fresh status found covered e) j h =
    rw e (present_set j k new s.spent_requests h)
Step-present {s} (commit k old bytes found status e) j h =
    rw e (present_set j k _ s.spent_requests h)
Step-present {s} (refund k old i reason at found status known e) j h =
    rw e (present_set j k _ s.spent_requests h)
Step-present {s} (late_commit k old i bytes at found status known e) j h =
    rw e (present_set j k _ s.spent_requests h)
Step-present (purge cutoff untidy e) j h = absurd (cc)
Step-present (deposit input fresh e) j h = rw e h
Step-present (remine k d update found tidy e) j h = rw e h
Step-present (confirm n d c found e) j h = rw e h
Step-present (credit n d at found live fresh e) j h = rw e h
Step-present (reverse n d i at found live credited known e) j h = rw e h
Step-present (mark n d at found live unmoved e) j h = rw e h
Step-present (aside ids ledger rows deposits count) j h = rw rows h

pub Steps-final :
    {s t : Storage}
    → Steps true s t
    → (j : Text) (row : SpentRequestRecord) → is_pending row.status ≡ false
    → get j s.spent_requests ≡ some row
    → get j t.spent_requests ≡ some row
Steps-final here j row final h = h
Steps-final (next r st) j row final h = Step-final st j row final (Steps-final r j row final h)

pub Steps-present :
    {s t : Storage}
    → Steps true s t
    → (j : Text) → get j s.spent_requests ≢ none
    → get j t.spent_requests ≢ none
Steps-present here j h = h
Steps-present (next r st) j h = Step-present st j (Steps-present r j h)

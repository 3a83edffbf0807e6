-- ===== src/Protocol/Separation.antt =====
-- The contexts of the signed queries (packages/protocol/src/canonical.ts and version.ts).
use v.Base.{ℕ, zero, suc, ◌≡◌, ◌≢◌, sym, ap, [], ◌∷◌, arith}
use v.Base.Text.{Text}
use v.Base.Strings.{join}
use v.Protocol.Types.{
  Checked, valid, invalid, ◌>>◌, BalanceQueryPayload, balance_query_context, ledger_query_context,
}
use v.Protocol.Canonical.{
  check_query, query_lines, canonicalize_balance_query, canonicalize_ledger_query,
}

abbrev unit_at : ℕ → Text → ℕ
unit_at n [] = 0
unit_at zero (a ∷ s) = a
unit_at (suc n) (a ∷ s) = unit_at n s

then_valid : (m : Checked (Unit {0})) (a t : Text) → (m >> valid a) ≡ valid t → a ≡ t
then_valid (valid u) a t e = cc
then_valid (invalid code) a t e = absurd (cc e)

balance-unit :
    (p : BalanceQueryPayload) (t : Text)
    → canonicalize_balance_query p ≡ valid t
    → unit_at 5 t ≡ b'b'
unfolding canonicalize_balance_query join
balance-unit p t e =
    ap (unit_at 5)
      (sym (then_valid (check_query p) (join b'\n' (query_lines balance_query_context p)) t e))

ledger-unit :
    (p : BalanceQueryPayload) (t : Text)
    → canonicalize_ledger_query p ≡ valid t
    → unit_at 5 t ≡ b'l'
unfolding canonicalize_ledger_query join
ledger-unit p t e =
    ap (unit_at 5)
      (sym (then_valid (check_query p) (join b'\n' (query_lines ledger_query_context p)) t e))

differ : (n : ℕ) → n ≡ b'b' → n ≡ b'l' → ⊥
differ n e f = omega (arith, e, f)

-- The text that is signed for a balance query is never the text of a statement query, whatever the
-- fields of the two: a signature for the one is none for the other.
pub queries_are_separate :
    (p q : BalanceQueryPayload) (t : Text)
    → canonicalize_balance_query p ≡ valid t
    → canonicalize_ledger_query q ≢ valid t
queries_are_separate p q t e f = differ (unit_at 5 t) (balance-unit p t e) (ledger-unit q t f)

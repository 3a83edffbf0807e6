-- ===== src/Base/Sums.antt =====
-- Sums over the values of a map, and predicates of all its values.
use v.Base.Tests.{Bool-cases}
use v.Base.Int.{ℤ, pos, ◌+ℤ◌, int_laws}
use v.Base.Text.{Text, text_eq, text_eq_iff}
use v.Base.Dict.{Dict, get, set}
use mathlib.Core.Path.{◌≡◌, refl, subst}
use mathlib.Core.Logic.{inl, inr}
use mathlib.Core.Option.{Option, none, some, some-injective}
use mathlib.Core.List.{[], ◌∷◌}

module _ {ℓ} {V : Type ℓ} where
  unfoldable pub sum_by : (V → ℤ) → Dict V → ℤ
  sum_by w [] = pos 0
  sum_by w ((k, v) ∷ m) = w v +ℤ sum_by w m

  -- The weight of what a map holds at a key.
  abbrev pub weight_of : (V → ℤ) → Option V → ℤ
  weight_of w none = pos 0
  weight_of w (some v) = w v

  pub sum_by-set :
      (w : V → ℤ) (k : Text) (v : V) (m : Dict V)
      → sum_by w (set k v m) +ℤ weight_of w (get k m) ≡ sum_by w m +ℤ w v
  unfolding sum_by set get
  sum_by-set w k v [] = omega int_laws
  sum_by-set w k v ((j, x) ∷ m) = elim (Bool-cases (text_eq j k)) [
    | inl same ↦ rw same (omega int_laws)
    | inr other ↦ rw other (grind (int_laws, sum_by-set w k v m))
  ]

  pub set-set : (k : Text) (v x : V) (m : Dict V) → set k v (set k x m) ≡ set k v m
  unfolding set
  set-set k v x [] = rw ((text_eq_iff k k).1 refl)
  set-set k v x ((j, y) ∷ m) = elim (Bool-cases (text_eq j k)) [
    | inl same ↦ rw (same, same)
    | inr other ↦ rw (other, other, set-set k v x m)
  ]

module _ {ℓ κ} {V : Type ℓ} (P : V → Type κ) where
  abbrev pub AllValues : Dict V → Type κ
  AllValues [] = Unit
  AllValues ((k, v) ∷ m) = P v × AllValues m

  pub AllValues-set : (k : Text) (v : V) (m : Dict V) → P v → AllValues m → AllValues (set k v m)
  unfolding set
  AllValues-set k v [] p h = (p, tt)
  AllValues-set k v ((j, x) ∷ m) p h = elim (Bool-cases (text_eq j k)) [
    | inl same ↦ rw same (p, h.1)
    | inr other ↦ rw other (h.0, AllValues-set k v m p h.1)
  ]

  pub AllValues-get : (k : Text) (v : V) (m : Dict V) → AllValues m → get k m ≡ some v → P v
  unfolding get
  AllValues-get k v [] h e = cc
  AllValues-get k v ((j, x) ∷ m) h e = elim (Bool-cases (text_eq j k)) [
    | inl same ↦ subst P (some-injective x v (rw same at e)) h.0
    | inr other ↦ AllValues-get k v m h.1 (rw other at e)
  ]

pub AllValues-map {ℓ κ ν} :
    {V : Type ℓ} (P : V → Type κ) (Q : V → Type ν) (m : Dict V)
    → ((v : V) → P v → Q v)
    → AllValues P m
    → AllValues Q m
AllValues-map P Q [] f h = tt
AllValues-map P Q ((k, v) ∷ m) f h = (f v h.0, AllValues-map P Q m f h.1)

-- ===== src/Client/Ulid.antt =====
-- packages/client-fetch/src/ulid.ts: request ids. The clock's milliseconds and the 80 random bits are
-- arguments.
pub mod Valid
use v.Base.{ℕ, zero, suc, ◌/◌, ◌%◌, [], ◌∷◌, ◌++◌}
use v.Base.Text.{Text, codes}

abbrev pub crockford : Text
crockford = codes "0123456789ABCDEFGHJKMNPQRSTVWXYZ"

-- `s[i]`; the index is always in range here.
unfoldable pub unit_at : Text → ℕ → ℕ
unit_at [] i = 0
unit_at (c ∷ s) zero = c
unit_at (c ∷ s) (suc i) = unit_at s i

-- The last digits of a number, from the end of the array to its start.
unfoldable pub encode : ℕ → ℕ → Text
unfolding unit_at
encode zero n = []
encode (suc k) n = encode k (n / 32) ++ unit_at crockford (n % 32) ∷ []

unfoldable pub ulid : (timestamp random : ℕ) → Text
unfolding encode
ulid timestamp random = encode 10 timestamp ++ encode 16 random

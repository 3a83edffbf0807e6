-- ===== src/Protocol/Extensions.antt =====
-- The extension block: packages/protocol/src/extensions.ts.
use v.Base.{
  ℕ, Bool, true, false, not, ◌&&◌, ◌||◌, Option, none, some, List, [], ◌∷◌, ◌++◌, map,
  if◌then◌else◌, ◌==◌,
}
use v.Base.Text.{Text, codes, text_eq}
use v.Base.Strings.{
  starts_with, ends_with, has_unit, cut, split, join, all_units, some_units, is_empty, text_lt,
  is_digit, is_lower, is_upper, is_alnum,
}
use v.Protocol.Types.{
  V402ProtocolErrorCode, Checked, valid, invalid, ◌>>=◌, ◌>>◌, require, ExtensionField,
}

-- `[a-z0-9]+(?:-[a-z0-9]+)*`
abbrev pub is_word_unit : ℕ → Bool
is_word_unit c = is_lower c || is_digit c

unfoldable pub all_words : List Text → Bool
unfolding all_units
all_words [] = true
all_words (w ∷ ws) = some_units is_word_unit w && all_words ws

unfoldable pub is_kebab : Text → Bool
unfolding all_words split
is_kebab s = all_words (split b'-' s)

-- `(?:scheme|iana|x-…)`, before the first dot.
unfoldable pub is_extension_prefix : Text → Bool
unfolding is_kebab
is_extension_prefix (a ∷ b ∷ rest) =
    text_eq (a ∷ b ∷ rest) (codes "scheme")
    || text_eq (a ∷ b ∷ rest) (codes "iana")
    || (a == b'x' && b == b'-' && is_kebab rest)
is_extension_prefix _ = false

-- `[A-Za-z][A-Za-z0-9]*`, after it.
abbrev pub is_extension_name : Text → Bool
is_extension_name [] = false
is_extension_name (a ∷ s) = (is_upper a || is_lower a) && all_units is_alnum s

unfoldable pub is_valid_extension_key : Text → Bool
unfolding cut is_extension_prefix
is_valid_extension_key key = elim (cut (b'.' ∷ []) key) [
  | none ↦ false
  | some (prefix, name) ↦ is_extension_prefix prefix && is_extension_name name
]

abbrev pub is_valid_extension_value : Text → Bool
is_valid_extension_value value =
    not (is_empty value)
    && not (has_unit b'\r' value || has_unit b'\n' value)
    && not (starts_with (b' ' ∷ []) value)

unfoldable pub assert_valid_field : ExtensionField → Checked (Unit {0})
unfolding is_valid_extension_key
assert_valid_field field =
    require (is_valid_extension_key field.key) V402ProtocolErrorCode.invalid_extension_key
    >> require (is_valid_extension_value field.value) V402ProtocolErrorCode.invalid_extension_value

unfoldable pub has_key : Text → List ExtensionField → Bool
has_key key [] = false
has_key key (f ∷ fs) = text_eq f.key key || has_key key fs

-- The first loop of `serializeExtensionBlock`, with the fields seen so far.
unfoldable pub check_fields : List ExtensionField → List ExtensionField → Checked (Unit {0})
unfolding assert_valid_field has_key
check_fields seen [] = valid tt
check_fields seen (f ∷ fs) =
    let rest = check_fields (f ∷ seen) fs in
    assert_valid_field f
    >> require (not (has_key f.key seen)) V402ProtocolErrorCode.extensions_duplicate_key
    >> rest

-- `sort((a, b) => (a.key < b.key ? -1 : 1))` of fields whose keys differ.
unfoldable pub insert_field : ExtensionField → List ExtensionField → List ExtensionField
unfolding text_lt
insert_field f [] = f ∷ []
insert_field f (g ∷ gs) =
    let rest = insert_field f gs in if text_lt f.key g.key then f ∷ g ∷ gs else g ∷ rest

unfoldable pub sort_fields : List ExtensionField → List ExtensionField
unfolding insert_field
sort_fields [] = []
sort_fields (f ∷ fs) = insert_field f (sort_fields fs)

abbrev pub field_line : ExtensionField → Text
field_line f = f.key ++ b':' ∷ b' ' ∷ f.value

unfoldable pub serialize_extension_block : List ExtensionField → Checked Text
unfolding check_fields sort_fields join
serialize_extension_block fields =
    check_fields [] fields >> valid (join b'\n' (map field_line (sort_fields fields)))

-- One line: `separator <= 0` holds where there is none, and where the key is empty.
unfoldable pub parse_line : Text → Checked ExtensionField
unfolding assert_valid_field cut
parse_line line = elim (cut (codes ": ") line) [
  | none ↦ invalid V402ProtocolErrorCode.invalid_extension_block
  | some (key, value) ↦
      require (not (is_empty key)) V402ProtocolErrorCode.invalid_extension_block
      >> assert_valid_field (record { key = key; value = value })
      >> valid (record { key = key; value = value })
]

-- The check of a key against the key before it.
unfoldable pub check_order : Option Text → Text → Checked (Unit {0})
unfolding text_lt
check_order none key = valid tt
check_order (some previous) key = require (text_lt previous key) (
    if text_eq previous key
    then V402ProtocolErrorCode.extensions_duplicate_key
    else V402ProtocolErrorCode.extensions_unsorted)

-- The loop of `parseExtensionBlock`.
unfoldable pub parse_lines : Option Text → List Text → Checked (List ExtensionField)
unfolding parse_line check_order
parse_lines previous [] = valid []
parse_lines previous (line ∷ lines) = do
  field ← parse_line line
  check_order previous field.key
  fields ← parse_lines (some field.key) lines
  valid (field ∷ fields)

unfoldable pub parse_extension_block : Text → Checked (List ExtensionField)
unfolding parse_lines split has_unit ends_with
parse_extension_block [] = valid []
parse_extension_block (a ∷ block) =
    if has_unit b'\r' (a ∷ block) || ends_with b'\n' (a ∷ block)
    then invalid V402ProtocolErrorCode.invalid_extension_block
    else parse_lines none (split b'\n' (a ∷ block))

-- ===== src/Storage/Key.antt =====
-- The key validation that every storage backend shares: internal/storage/key.go.
pub mod Laws
use stratus_backend.Prelude.{
  ℕ, ◌≤◌, ◌≡◌, ◌≢◌, refl, Bool, true, false, ◌||◌, ◌&&◌, List, [], ◌∷◌, Option, none, some, ltb,
  leb, ◌==◌, if◌then◌else◌, length, All,
}
use stratus_backend.Prelude.Text.{
  Bytes, codes, beq, has_prefix, cut_prefix, has_suffix, contains, split,
}
use stratus_backend.Prelude.Segments.{has_control}
use stratus_backend.Prelude.Utf8.{runes}

abbrev pub max_key_len : ℕ
max_key_len = 1024

abbrev pub max_segment_len : ℕ
max_segment_len = 255

-- Why a key is refused: one constructor for each message that wraps ErrInvalidKey.
pub data KeyFault : Type 0 where
  empty too_long not_utf8 edge_slash backslash control : KeyFault
  empty_segment dot_segment long_segment reserved_dot : KeyFault

-- seg[0] == '.'
unfoldable pub starts_with_dot : Bytes → Bool
starts_with_dot [] = false
starts_with_dot (c ∷ s) = c == b'.'

-- One round of the loop over the segments; the flag is the source's `first`.
unfoldable pub segment_fault : Bool → Bytes → Option KeyFault
segment_fault first seg =
    if beq seg []
    then some empty_segment
    else if beq seg (codes ".") || beq seg (codes "..")
    then some dot_segment
    else if ltb max_segment_len (length seg)
    then some long_segment
    else if first && starts_with_dot seg
    then some reserved_dot
    else none

unfoldable pub segments_fault : Bool → List Bytes → Option KeyFault
segments_fault first [] = none
segments_fault first (seg ∷ segs) =
    let rest = segments_fault false segs in
    elim (segment_fault first seg) [ some e ↦ some e | none ↦ rest ]

-- ValidateKey, `none` for a nil error.
unfoldable pub validate_key : Bytes → Option KeyFault
validate_key key =
    if beq key []
    then some empty
    else if ltb max_key_len (length key)
    then some too_long
    else elim (runes key) [
      | none ↦ some not_utf8
      | some rs ↦
          if has_prefix key (codes "/") || has_suffix key (codes "/")
          then some edge_slash
          else if contains key b'\\'
          then some backslash
          else if has_control rs
          then some control
          else segments_fault true (split key b'/')
    ]

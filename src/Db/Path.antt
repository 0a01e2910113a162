-- ===== src/Db/Path.antt =====
-- Stored paths: internal/db/file.go.
pub mod Laws
pub mod Subtree
pub mod Copies
use stratus_backend.Prelude.{
  ℕ, zero, suc, ◌+◌, ◌≡◌, refl, Bool, true, false, not, ◌||◌, ◌&&◌, List, [], ◌∷◌, ◌++◌, Option,
  none, some, ltb, ◌==◌, if◌then◌else◌, length,
}
use mathlib.Core.List.{reverse}
use stratus_backend.Prelude.Int.{ℤ, pos, leb_ℤ}
use stratus_backend.Prelude.Text.{
  Bytes, codes, beq, has_prefix, cut_prefix, has_suffix, cut_suffix, split,
}
use stratus_backend.Prelude.Utf8.{runes}
use stratus_backend.Prelude.Segments.{has_control}
use stratus_backend.Prelude.Decimal.{format_int}

abbrev pub max_path_len : ℕ
max_path_len = 4096

-- Why a path is refused: one constructor for each message that wraps ErrInvalidPath.
pub data PathFault : Type 0 where
  empty too_long not_utf8 edge_slash control empty_segment dot_segment : PathFault

unfoldable pub segment_fault : Bytes → Option PathFault
segment_fault seg =
    if beq seg []
    then some empty_segment
    else if beq seg (codes ".") || beq seg (codes "..")
    then some dot_segment
    else none

unfoldable pub segments_fault : List Bytes → Option PathFault
segments_fault [] = none
segments_fault (seg ∷ segs) =
    let rest = segments_fault segs in elim (segment_fault seg) [ some e ↦ some e | none ↦ rest ]

-- ValidatePath, `none` for a nil error.
unfoldable pub validate_path : Bytes → Option PathFault
validate_path path =
    if beq path []
    then some empty
    else if ltb max_path_len (length path)
    then some too_long
    else elim (runes path) [
      | none ↦ some not_utf8
      | some rs ↦
          if has_prefix path (codes "/") || has_suffix path (codes "/")
          then some edge_slash
          else if has_control rs
          then some control
          else segments_fault (split path b'/')
    ]

-- ValidateDir: the root is "".
unfoldable pub validate_dir : Bytes → Option PathFault
validate_dir dir = if beq dir [] then none else validate_path dir

-- strings.LastIndexByte, as the text before the last separator and the text behind it.
unfoldable pub cut_last : Bytes → ℕ → Option (Bytes × Bytes)
cut_last [] sep = none
cut_last (c ∷ s) sep = elim (cut_last s sep) [
  | some (a, b) ↦ some (c ∷ a, b)
  | none ↦ if c == sep then some ([], s) else none
]

-- ParentOf
unfoldable pub parent_of : Bytes → Bytes
unfolding cut_last
parent_of path = elim (cut_last path b'/') [ none ↦ [] | some (a, b) ↦ a ]

pub data MoveFault : Type 0 where
  invalid : PathFault → MoveFault
  already_there inside_itself : MoveFault

-- ValidateMove
unfoldable pub validate_move : Bytes → Bytes → Option MoveFault
validate_move from to = elim (validate_path from) [
  | some e ↦ some (invalid e)
  | none ↦ elim (validate_path to) [
    | some e ↦ some (invalid e)
    | none ↦
        if beq from to
        then some already_there
        else if has_prefix to (from ++ codes "/")
        then some inside_itself
        else none
  ]
]

-- SubtreeRange: the bounds, and whether the range is the whole tree.
unfoldable pub subtree_range : Bytes → Bytes × Bytes × Bool
subtree_range [] = ([], [], true)
subtree_range (c ∷ dir) = ((c ∷ dir) ++ codes "/", (c ∷ dir) ++ (b'/' + 1) ∷ [], false)

-- path.Ext over the reversed name: what stands from the last dot on, in the last element.
ext_scan : Bytes → Bytes → Bytes
ext_scan [] acc = []
ext_scan (c ∷ r) acc =
    let rest = ext_scan r (c ∷ acc) in if c == b'/' then [] else if c == b'.' then c ∷ acc else rest

unfoldable pub ext : Bytes → Bytes
unfolding ext_scan
ext name = ext_scan (reverse name) []

-- strings.TrimSuffix
unfoldable pub trim_suffix : Bytes → Bytes → Bytes
trim_suffix s suffix = elim (cut_suffix s suffix) [ none ↦ s | some r ↦ r ]

-- CopyName
unfoldable pub copy_name : Bytes → ℤ → Bytes
copy_name name n =
    if leb_ℤ n (pos 1)
    then name
    else trim_suffix name (ext name) ++ (codes " (" ++ (format_int n ++ (codes ")" ++ ext name)))

second_sunset : copy_name (codes "2024/sunset.jpg") (pos 2) ≡ codes "2024/sunset (2).jpg"
unfolding copy_name ext trim_suffix cut_suffix format_int
second_sunset = refl

parent_of_nested : parent_of (codes "photos/2024/img.jpg") ≡ codes "photos/2024"
unfolding parent_of
parent_of_nested = refl

traversal : validate_path (codes "photos/../x") ≡ some dot_segment
unfolding validate_path runes has_control segments_fault segment_fault beq split cut_prefix
    cut_suffix
traversal = refl

-- ===== src/Web/Cursor.antt =====
-- The listing's cursor on the wire: internal/web/cursor.go, over the Cursor and the FileSortKey of
-- internal/db/file.go. A modification time is in milliseconds from the Unix epoch, the precision to
-- which every row is normalised.
pub mod RoundTrip
use stratus_backend.Prelude.{
  ℕ, ◌-◌, ◌≡◌, refl, Bool, true, false, List, [], ◌∷◌, ◌++◌, Option, none, some, if◌then◌else◌,
}
use stratus_backend.Prelude.Int.{ℤ, pos, negsuc}
use stratus_backend.Prelude.Text.{Bytes, codes, beq, cut}
use stratus_backend.Prelude.Decimal.{format_int, parse_int}
use stratus_backend.Prelude.Result.{Result, ok, err}
use stratus_backend.Db.Path.{PathFault, validate_path}

pub data FileSortKey : Type 0 where
  sort_name sort_size sort_mtime : FileSortKey

-- The zero time.Time, the first of January of the year 1.
abbrev pub zero_time : ℤ
zero_time = negsuc (62_135_596_800_000 - 1)

pub record Cursor : Type 0 where
  pub is_dir : Bool
  pub path : Bytes
  pub size : ℤ
  pub mtime : ℤ

abbrev pub start : Cursor
start = record { is_dir = false; path = []; size = pos 0; mtime = zero_time }

-- AtStart
unfoldable pub at_start : Cursor → Bool
at_start c = beq c.path []

-- Groups: the values of is_dir that a page reads, in order.
unfoldable pub groups : Cursor → List Bool
groups c =
    if at_start c then true ∷ false ∷ [] else if c.is_dir then true ∷ false ∷ [] else false ∷ []

unfoldable pub encode_cursor : FileSortKey → Cursor → Bytes
encode_cursor key c =
    let kind = if c.is_dir then codes "d/" else codes "f/" in
    elim key [
      | sort_size ↦ kind ++ (format_int c.size ++ (codes "/" ++ c.path))
      | sort_mtime ↦ kind ++ (format_int c.mtime ++ (codes "/" ++ c.path))
      | sort_name ↦ kind ++ c.path
    ]

pub data CursorFault : Type 0 where
  no_kind unknown_kind no_sort_value bad_number : CursorFault
  bad_path : PathFault → CursorFault

-- The path is what is left, and is checked as every path is.
unfoldable pub with_path : Cursor → Bytes → Result CursorFault Cursor
with_path c rest = elim (validate_path rest) [
  | some e ↦ err (bad_path e)
  | none ↦ ok (record c { path = rest })
]

with_value : FileSortKey → Cursor → ℤ → Cursor
with_value sort_name c n = c
with_value sort_size c n = record c { size = n }
with_value sort_mtime c n = record c { mtime = n }

-- The part that holds the value of the ordering, where the ordering has one.
unfoldable pub parse_value : FileSortKey → Cursor → Bytes → Result CursorFault Cursor
unfolding with_path with_value
parse_value sort_name c rest = with_path c rest
parse_value key c rest = elim (cut rest b'/') [
  | none ↦ err no_sort_value
  | some (value, p) ↦ elim (parse_int value) [
    | none ↦ err bad_number
    | some n ↦ with_path (with_value key c n) p
  ]
]

unfoldable pub parse_cursor : FileSortKey → Bytes → Result CursorFault Cursor
unfolding parse_value
parse_cursor key [] = ok start
parse_cursor key (b ∷ v) = elim (cut (b ∷ v) b'/') [
  | none ↦ err no_kind
  | some (kind, rest) ↦
      if beq kind (codes "d")
      then parse_value key (record start { is_dir = true }) rest
      else if beq kind (codes "f")
      then parse_value key start rest
      else err unknown_kind
]

-- ===== src/Web/Cursor/RoundTrip.antt =====
-- A cursor read back from a URL.
use stratus_backend.Prelude.{
  ◌≡◌, refl, Bool, true, false, [], ◌∷◌, ◌++◌, none, some, if◌then◌else◌, arith, ◌∙◌, ◌⊎◌, inl, inr,
  Option-cases, Bool-cases,
}
use stratus_backend.Prelude.Int.{ℤ}
use stratus_backend.Prelude.Text.{Bytes, codes, beq, cut, cut-append}
use stratus_backend.Prelude.Decimal.{
  format_int, parse_int, IsInt64, parse_int-format_int, format_int-Lacks,
}
use stratus_backend.Prelude.Result.{ok}
use stratus_backend.Db.Path.{validate_path}
use stratus_backend.Web.Cursor.{
  FileSortKey, sort_name, sort_size, sort_mtime, Cursor, start, encode_cursor, parse_cursor,
  parse_value, with_path, with_value,
}

-- What an ordering keeps of a cursor: the group, the path and its own column.
abbrev pub kept : FileSortKey → Cursor → Cursor
kept sort_name c = record start { is_dir = c.is_dir; path = c.path }
kept sort_size c = record start { is_dir = c.is_dir; path = c.path; size = c.size }
kept sort_mtime c = record start { is_dir = c.is_dir; path = c.path; mtime = c.mtime }

cut_value :
    (n : ℤ) (p : Bytes) → cut (format_int n ++ (codes "/" ++ p)) b'/' ≡ some (format_int n, p)
cut_value n p =
    cut-append (format_int n) p b'/' (format_int-Lacks n b'/' (omega arith) (omega arith))

parse_size :
    (c : Cursor) (n : ℤ) (p : Bytes)
    → IsInt64 n
    → parse_value sort_size c (format_int n ++ (codes "/" ++ p))
      ≡ with_path (record c { size = n }) p
unfolding parse_value
parse_size c n p h = rw (cut_value n p, parse_int-format_int n h, parse_value)

parse_mtime :
    (c : Cursor) (n : ℤ) (p : Bytes)
    → IsInt64 n
    → parse_value sort_mtime c (format_int n ++ (codes "/" ++ p))
      ≡ with_path (record c { mtime = n }) p
unfolding parse_value
parse_mtime c n p h = rw (cut_value n p, parse_int-format_int n h, parse_value)

with_path_valid :
    (c : Cursor) (p : Bytes) → validate_path p ≡ none → with_path c p ≡ ok (record c { path = p })
unfolding with_path
with_path_valid c p h = rw (h, with_path)

abbrev at_kind : Bool → Cursor
at_kind b = record start { is_dir = b }

abbrev kind_of : Bool → Bytes
kind_of b = if b then codes "d/" else codes "f/"

parse_kind :
    (key : FileSortKey) (b : Bool) (rest : Bytes)
    → parse_cursor key (kind_of b ++ rest) ≡ parse_value key (record start { is_dir = b }) rest
unfolding parse_cursor cut beq
parse_kind key true rest = refl
parse_kind key false rest = refl

-- A cursor at a stored path is read back as what the ordering keeps of it, under the ordering that
-- wrote it, where its size and its time fit an int64.
pub parse_cursor-encode_cursor :
    (key : FileSortKey) (c : Cursor)
    → validate_path c.path ≡ none
    → IsInt64 c.size
    → IsInt64 c.mtime
    → parse_cursor key (encode_cursor key c) ≡ ok (kept key c)
unfolding encode_cursor parse_value
parse_cursor-encode_cursor sort_name c v s t =
    parse_kind sort_name c.is_dir c.path ∙ with_path_valid (at_kind c.is_dir) c.path v
parse_cursor-encode_cursor sort_size c v s t =
    parse_kind sort_size c.is_dir (format_int c.size ++ (codes "/" ++ c.path))
    ∙ parse_size (at_kind c.is_dir) c.size c.path s
    ∙ with_path_valid (record start { is_dir = c.is_dir; size = c.size }) c.path v
parse_cursor-encode_cursor sort_mtime c v s t =
    parse_kind sort_mtime c.is_dir (format_int c.mtime ++ (codes "/" ++ c.path))
    ∙ parse_mtime (at_kind c.is_dir) c.mtime c.path t
    ∙ with_path_valid (record start { is_dir = c.is_dir; mtime = c.mtime }) c.path v

-- A cursor written under the order of sizes is accepted under the order of times, with the size
-- taken for the time in milliseconds.
pub parse_cursor_other_key :
    (c : Cursor)
    → validate_path c.path ≡ none
    → IsInt64 c.size
    → parse_cursor sort_mtime (encode_cursor sort_size c)
      ≡ ok (record start { is_dir = c.is_dir; path = c.path; mtime = c.size })
unfolding encode_cursor
parse_cursor_other_key c v s =
    parse_kind sort_mtime c.is_dir (format_int c.size ++ (codes "/" ++ c.path))
    ∙ parse_mtime (at_kind c.is_dir) c.size c.path s
    ∙ with_path_valid (record start { is_dir = c.is_dir; mtime = c.size }) c.path v

with_path_ok : (c d : Cursor) (p : Bytes) → with_path c p ≡ ok d → validate_path d.path ≡ none
unfolding with_path
with_path_ok c d p h = elim (Option-cases (validate_path p)) [
  | inl e ↦ let q : d.path ≡ p = ground arith in rw q e
  | inr (f, e) ↦ cc (rw (e, with_path) at h)
]

value_ok :
    (key : FileSortKey) (c d : Cursor) (rest : Bytes)
    → parse_value key c rest ≡ ok d
    → validate_path d.path ≡ none
unfolding parse_value
value_ok sort_name c d rest h = with_path_ok c d rest h
value_ok key c d rest h = elim (Option-cases (cut rest b'/')) [
  | inl e ↦ cc (rw (e, parse_value) at h)
  | inr ((value, p), e) ↦ elim (Option-cases (parse_int value)) [
    | inl f ↦ cc (rw (e, f, parse_value) at h)
    | inr (n, f) ↦ with_path_ok (with_value key c n) d p (rw (e, f, parse_value) at h)
  ]
]

-- Every cursor that is accepted is the start of the listing or stands at a path that can be stored.
pub parse_cursor-path :
    (key : FileSortKey) (v : Bytes) (d : Cursor)
    → parse_cursor key v ≡ ok d
    → (d ≡ start) ⊎ (validate_path d.path ≡ none)
unfolding parse_cursor
parse_cursor-path key [] d h = inl (cc)
parse_cursor-path key (b ∷ v) d h = inr (elim (Option-cases (cut (b ∷ v) b'/')) [
  | inl e ↦ cc (rw (e, parse_cursor) at h)
  | inr ((kind, rest), e) ↦ elim (Bool-cases (beq kind (codes "d"))) [
    | inl f ↦ value_ok key _ d rest (rw (e, f, parse_cursor) at h)
    | inr f ↦ elim (Bool-cases (beq kind (codes "f"))) [
      | inl g ↦ value_ok key _ d rest (rw (e, f, g, parse_cursor) at h)
      | inr g ↦ cc (rw (e, f, g, parse_cursor) at h)
    ]
  ]
])

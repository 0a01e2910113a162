-- ===== src/Web/Tests.antt =====
-- Cursors at concrete values.
use stratus_backend.Prelude.{◌≡◌, ◌⊎◌, refl, none, arith, true}
use stratus_backend.Prelude.Int.{pos}
use stratus_backend.Prelude.Text.{codes, beq, split, cut_prefix, cut_suffix}
use stratus_backend.Prelude.Utf8.{runes}
use stratus_backend.Prelude.Segments.{has_control}
use stratus_backend.Prelude.Result.{ok}
use stratus_backend.Db.Path.{validate_path, segments_fault, segment_fault}
use stratus_backend.Web.Cursor.{Cursor, sort_size, sort_mtime, start, encode_cursor, parse_cursor}
use stratus_backend.Web.Cursor.RoundTrip.{
  kept, parse_cursor-encode_cursor, parse_cursor_other_key, parse_cursor-path,
}

abbrev album : Cursor
album = record { is_dir = true; path = codes "photos"; size = pos 4096; mtime = pos 7 }

album_valid : validate_path (codes "photos") ≡ none
unfolding validate_path runes has_control beq split cut_prefix cut_suffix segments_fault
    segment_fault
album_valid = refl

parse_cursor-encode_cursor_example :
    parse_cursor sort_size (encode_cursor sort_size album) ≡ ok (kept sort_size album)
parse_cursor-encode_cursor_example =
    parse_cursor-encode_cursor sort_size album album_valid (omega arith) (omega arith)

parse_cursor_other_key_example :
    parse_cursor sort_mtime (encode_cursor sort_size album)
    ≡ ok (record start { is_dir = true; path = codes "photos"; mtime = pos 4096 })
parse_cursor_other_key_example = parse_cursor_other_key album album_valid (omega arith)

parse_cursor-path_example : (kept sort_size album ≡ start) ⊎ (validate_path (codes "photos") ≡ none)
parse_cursor-path_example =
    parse_cursor-path sort_size (encode_cursor sort_size album) (kept sort_size album)
      (parse_cursor-encode_cursor sort_size album album_valid (omega arith) (omega arith))

-- ===== src/Db/Path/Subtree.antt =====
-- The range of a subtree, and the moves that stay out of it.
use stratus_backend.Prelude.{
  ◌+◌, ◌≡◌, ◌≢◌, ◌↔◌, refl, sym, ◌∙◌, Bool, true, false, not, ◌&&◌, ◌||◌, [], ◌∷◌, ◌++◌, none,
  arith, ltb, ◌==◌, if◌then◌else◌,
}
use stratus_backend.Prelude.Text.{Bytes, codes, beq, cut_prefix, has_prefix}
use stratus_backend.Prelude.Segments.{beq-ne, ne-beq}
use stratus_backend.Db.Path.{validate_path, validate_move, subtree_range}
use stratus_backend.Db.Path.Laws.{IsPath, validate_path-none}

-- The order of the path column: byte by byte, a prefix first.
abbrev pub lex_ltb : Bytes → Bytes → Bool
lex_ltb [] [] = false
lex_ltb [] (b ∷ t) = true
lex_ltb (a ∷ s) [] = false
lex_ltb (a ∷ s) (b ∷ t) = ltb a b || (a == b && lex_ltb s t)

-- `path >= from AND path < to`, or every path for the whole tree.
abbrev pub in_range : Bytes × Bytes × Bool → Bytes → Bool
in_range (from, to, whole) path = whole || (not (lex_ltb path from) && lex_ltb path to)

lex_ltb-nil : (s : Bytes) → lex_ltb s [] ≡ false
lex_ltb-nil [] = refl
lex_ltb-nil (c ∷ s) = refl

slash_range :
    (dir path : Bytes)
    → not (lex_ltb path (dir ++ codes "/")) && lex_ltb path (dir ++ (b'/' + 1) ∷ [])
      ≡ has_prefix path (dir ++ codes "/")
unfolding cut_prefix
slash_range [] [] = refl
slash_range [] (c ∷ path) = ground (arith, lex_ltb-nil path)
slash_range (d ∷ dir) [] = refl
slash_range (d ∷ dir) (c ∷ path) = ground (arith, slash_range dir path)

-- The range of a directory holds exactly the paths that begin with its name and a slash; the range of
-- the root holds every path.
pub in_range-subtree_range :
    (dir path : Bytes)
    → in_range (subtree_range dir) path
      ≡ (if beq dir [] then true else has_prefix path (dir ++ codes "/"))
unfolding subtree_range beq
in_range-subtree_range [] path = refl
in_range-subtree_range (d ∷ dir) path = slash_range (d ∷ dir) path

move_parts :
    (from to : Bytes)
    → validate_move from to ≡ none
    → (validate_path from ≡ none)
      × (validate_path to ≡ none)
      × (beq from to ≡ false)
      × (has_prefix to (from ++ codes "/") ≡ false)
unfolding validate_move
move_parts from to h = ground arith

parts_move :
    (from to : Bytes)
    → validate_path from ≡ none
    → validate_path to ≡ none
    → beq from to ≡ false
    → has_prefix to (from ++ codes "/") ≡ false
    → validate_move from to ≡ none
unfolding validate_move
parts_move from to h k e p = ground arith

path-ne-nil : (path : Bytes) → validate_path path ≡ none → beq path [] ≡ false
unfolding validate_path
path-ne-nil path h = ground arith

subtree_prefix :
    (dir path : Bytes)
    → beq dir [] ≡ false
    → in_range (subtree_range dir) path ≡ has_prefix path (dir ++ codes "/")
subtree_prefix dir path e = rw (in_range-subtree_range dir path, e)

-- ValidateMove lets a move through exactly when both ends are paths, they differ, and the destination is
-- not in the range that SubtreeRange gives for the source.
pub validate_move-none :
    (from to : Bytes)
    → (validate_move from to ≡ none)
      ↔ (IsPath from × IsPath to × (from ≢ to) × (in_range (subtree_range from) to ≡ false))
validate_move-none from to = (
  λ h.
      let (a, b, c, d) = move_parts from to h in
      (
        (validate_path-none from).0 a,
        (validate_path-none to).0 b,
        ne-beq from to c,
        subtree_prefix from to (path-ne-nil from a) ∙ d,
      ),
  λ (a, b, c, d).
      let v = (validate_path-none from).1 a in
      parts_move from to v ((validate_path-none to).1 b) (beq-ne from to c)
        (sym (subtree_prefix from to (path-ne-nil from v)) ∙ d),
)

-- ===== src/Db/Migrate/Statements.antt =====
-- `statements` and `unclosedTrigger` of internal/db/migrate.go, over ASCII text: white space is the
-- ASCII white space, and upper case is that of ASCII letters.
use stratus_backend.Prelude.{
  ℕ, ◌-◌, ◌≡◌, refl, Bool, false, ◌||◌, ◌&&◌, List, [], ◌∷◌, ◌++◌, map, leb, ◌==◌, if◌then◌else◌,
  take,
}
use mathlib.Core.List.{reverse}
use stratus_backend.Prelude.Text.{Bytes, codes, beq, split}
use stratus_backend.Prelude.Int.{ℤ, pos, ◌+ℤ◌, ◌-ℤ◌, ltb_ℤ}

-- unicode.IsSpace, on ASCII.
unfoldable pub is_space : ℕ → Bool
is_space c = (leb 9 c && leb c 13) || c == b' '

unfoldable pub trim_left : Bytes → Bytes
trim_left [] = []
trim_left (c ∷ s) = let rest = trim_left s in if is_space c then rest else c ∷ s

-- strings.TrimSpace
unfoldable pub trim_space : Bytes → Bytes
unfolding trim_left
trim_space s = reverse (trim_left (reverse (trim_left s)))

to_upper : ℕ → ℕ
to_upper c = if leb b'a' c && leb c b'z' then c - 32 else c

-- A word so far, before the words behind it.
word_cons : Bytes → List Bytes → List Bytes
word_cons [] ws = ws
word_cons (c ∷ w) ws = (c ∷ w) ∷ ws

-- strings.Fields; `word` is the word so far, backwards.
fields_from : Bytes → Bytes → List Bytes
unfolding word_cons
fields_from word [] = word_cons (reverse word) []
fields_from word (c ∷ s) =
    let stop = word_cons (reverse word) (fields_from [] s) in
    let go = fields_from (c ∷ word) s in if is_space c then stop else go

unfoldable pub fields : Bytes → List Bytes
unfolding fields_from
fields s = fields_from [] s

-- The part of a line before `--`.
unfoldable pub strip_comment : Bytes → Bytes
strip_comment [] = []
strip_comment (c ∷ []) = c ∷ []
strip_comment (c ∷ d ∷ s) =
    let rest = c ∷ strip_comment (d ∷ s) in if c == b'-' && d == b'-' then [] else rest

unfoldable pub body_of : List Bytes → Bytes
body_of [] = []
body_of (line ∷ lines) = strip_comment line ++ (b'\n' ∷ body_of lines)

-- The BEGINs less the ENDs among the words.
depth_of : List Bytes → ℤ
depth_of [] = pos 0
depth_of (w ∷ ws) =
    if beq w (codes "BEGIN")
    then depth_of ws +ℤ pos 1
    else if beq w (codes "END")
    then depth_of ws -ℤ pos 1
    else depth_of ws

has_word : Bytes → List Bytes → Bool
has_word w [] = false
has_word w (x ∷ xs) = beq x w || has_word w xs

first_is : Bytes → List Bytes → Bool
first_is w [] = false
first_is w (x ∷ xs) = beq x w

unfoldable pub unclosed_trigger : Bytes → Bool
unfolding fields depth_of has_word first_is to_upper
unclosed_trigger stmt =
    let words = fields (map to_upper stmt) in
    first_is (codes "CREATE") words
    && (has_word (codes "TRIGGER") (take 3 words) && ltb_ℤ (pos 0) (depth_of words))

-- A statement is kept where something is left of it.
unfoldable pub kept : Bytes → List Bytes → List Bytes
kept stmt out = let trimmed = trim_space stmt in if beq trimmed [] then out else trimmed ∷ out

-- The loop over the pieces; `current` is the text gathered so far.
unfoldable pub gather : Bytes → List Bytes → List Bytes
unfolding kept
gather current [] = kept current []
gather current (piece ∷ pieces) =
    let text = current ++ piece in
    let open_body = gather (text ++ b';' ∷ []) pieces in
    let closed = kept text (gather [] pieces) in if unclosed_trigger text then open_body else closed

unfoldable pub statements : Bytes → List Bytes
unfolding gather body_of
statements sql = gather [] (split (body_of (split sql b'\n')) b';')

trigger_whole :
    statements (codes "CREATE TABLE a (b); -- one; two\nCREATE TRIGGER t BEGIN x; y; END; z")
    ≡ codes "CREATE TABLE a (b)" ∷ codes "CREATE TRIGGER t BEGIN x; y; END" ∷ codes "z" ∷ []
unfolding statements kept trim_space trim_left is_space unclosed_trigger fields fields_from
    strip_comment split beq ◌+ℤ◌ ◌-ℤ◌
trigger_whole = refl

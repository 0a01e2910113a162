-- ===== src/Files/Repo.antt =====
-- The tables of files, trash and uploads: internal/db/sqlite/sqlite.go and trash.go. The unique index
-- (owner_id, path) is kept by the operations; the foreign keys of owners are not modelled.
pub mod Trash
pub mod Uploads
use stratus_backend.Prelude.{
  ℕ, suc, ◌+◌, Bool, true, false, not, ◌&&◌, ◌||◌, ◌==◌, List, [], ◌∷◌, ◌++◌, map, Option, none,
  some, length, if◌then◌else◌,
}
use stratus_backend.Prelude.Int.{ℤ, leb_ℤ}
use stratus_backend.Prelude.Text.{Bytes, codes, beq}
use stratus_backend.Db.Path.{
  PathFault, MoveFault, invalid, already_there, inside_itself, validate_path, validate_dir,
  validate_move, parent_of,
}
use stratus_backend.Db.Path.Subtree.{lex_ltb}
use stratus_backend.Files.World.{
  Env, File, Trashed, Upload, Tables, FilesFault, not_found, conflict, invalid_path,
}
use stratus_backend.Files.Action.{
  Action, Session, ◌>>=◌, ◌>>◌, pure, raise, gets, demand, statement, change_tables,
}

-- The condition of a WHERE, an ORDER BY and a DELETE.
module _ {A : Type 0} where
  unfoldable pub where_ : (A → Bool) → List A → List A
  where_ p [] = []
  where_ p (x ∷ xs) = let rest = where_ p xs in if p x then x ∷ rest else rest

  unfoldable pub insert_by : (A → A → Bool) → A → List A → List A
  insert_by before x [] = x ∷ []
  insert_by before x (y ∷ ys) =
      let rest = insert_by before x ys in if before y x then y ∷ rest else x ∷ y ∷ ys

  unfoldable pub order_by : (A → A → Bool) → List A → List A
  unfolding insert_by
  order_by before [] = []
  order_by before (x ∷ xs) = insert_by before x (order_by before xs)

abbrev pub at : Bytes → Bytes → File → Bool
at owner path f = beq f.owner owner && beq f.path path

unfoldable pub find_file : Bytes → Bytes → List File → Option File
find_file owner path [] = none
find_file owner path (f ∷ fs) =
    let rest = find_file owner path fs in if at owner path f then some f else rest

-- ON CONFLICT DO UPDATE: the row keeps its id.
abbrev pub updated : File → File → File
updated f old = record old {
  blob_key = f.blob_key;
  size = f.size;
  mtime = f.mtime;
  etag = f.etag;
  mime_type = f.mime_type;
}

unfoldable pub replace_row : File → List File → List File
replace_row f [] = []
replace_row f (old ∷ fs) =
    let rest = replace_row f fs in if at f.owner f.path old then updated f old ∷ fs else old ∷ rest

unfoldable pub add_row : File → Tables → Tables
add_row f t = record t { rows = t.rows ++ f ∷ []; next_id = suc t.next_id }

abbrev pub valid : {S : Type 0} → Option PathFault → Action S (Unit {0})
valid none = pure tt
valid (some e) = raise invalid_path

-- The row that an INSERT of PutFile makes.
abbrev pub inserted : File → ℕ → File
inserted f n = record f { id = n; parent = parent_of f.path; is_dir = false }

unfoldable pub upserted : File → Option File → Action Session File
unfolding replace_row add_row
upserted f none = gets (λ s. s.tables.next_id) >>= λ n.
    change_tables (λ t. add_row (inserted f t.next_id) t) >> pure (record f { id = n })
upserted f (some old) =
    demand (not old.is_dir) conflict
    >> change_tables (λ t. record t { rows = replace_row f t.rows })
    >> pure (record f { id = old.id })

abbrev pub look_up : Bytes → Bytes → Session → Option File
look_up owner path s = find_file owner path s.tables.rows

abbrev pub or_not_found : {S A : Type 0} → Option A → Action S A
or_not_found none = raise not_found
or_not_found (some a) = pure a

-- The error of ValidateMove.
abbrev pub move_fault : Option MoveFault → Action Session (Unit {0})
move_fault none = pure tt
move_fault (some (invalid e)) = raise invalid_path
move_fault (some already_there) = raise conflict
move_fault (some inside_itself) = raise conflict

-- Under
unfoldable pub escaped : Bytes → Bytes
escaped [] = []
escaped (c ∷ s) =
    let rest = escaped s in
    if c == 0x25 || c == 0x5f || c == 0x5c then 0x5c ∷ c ∷ rest else c ∷ rest

unfoldable pub under : Bytes → Bytes
unfolding escaped
under dir = escaped (dir ++ codes "/") ++ codes "%"

-- Contains
unfoldable pub contains_term : Bytes → Bytes
unfolding escaped
contains_term term = codes "%" ++ (escaped term ++ codes "%")

-- The unique index (owner_id, path).
unfoldable pub unique_paths : List File → Bool
unfolding find_file
unique_paths [] = true
unique_paths (f ∷ fs) = elim (find_file f.owner f.path fs) [
  | none ↦ unique_paths fs
  | some g ↦ false
]

-- moveOne on a row
unfoldable pub move_one : Bytes → Bytes → Bytes → File → File
move_one owner from to f =
    if at owner from f then record f { path = to; parent = parent_of to } else f

-- The unique index refuses a second row at a path.
abbrev pub vacant : Option File → Action Session (Unit {0})
vacant none = pure tt
vacant (some f) = raise conflict

-- ORDER BY is_dir DESC, path
abbrev dir_first : File → File → Bool
dir_first f g =
    (f.is_dir && not g.is_dir) || (not (not f.is_dir && g.is_dir) && lex_ltb f.path g.path)

-- CheckAffected with isDirProbe, for a statement that changed no row.
unfoldable pub unaffected : Option File → FilesFault
unaffected none = not_found
unaffected (some f) = if f.is_dir then conflict else not_found

abbrev pub is_nil : {A : Type 0} → List A → Bool
is_nil [] = true
is_nil (x ∷ xs) = false

abbrev pub is_some : {A : Type 0} → Option A → Bool
is_some none = false
is_some (some a) = true

module _ (env : Env) where
  -- PutFile; the time is in milliseconds, as Normalize leaves it.
  unfoldable pub put_file : File → Action Session File
  unfolding upserted
  put_file f =
      valid (validate_path f.path) >> statement env >> gets (look_up f.owner f.path) >>= upserted f

  -- CreateDir
  unfoldable pub create_dir : Bytes → Bytes → Action Session File
  create_dir owner path = valid (validate_path path) >> statement env >>= λ t.
      gets (look_up owner path) >>= λ old.
      vacant old
      >> gets (λ s. record {
        id = s.tables.next_id;
        owner = owner;
        path = path;
        parent = parent_of path;
        blob_key = [];
        size = 0;
        mtime = env.clock t;
        etag = [];
        mime_type = [];
        is_dir = true;
      })
      >>= λ dir. change_tables (add_row dir) >> pure dir

  -- FileByPath
  unfoldable pub file_by_path : Bytes → Bytes → Action Session File
  file_by_path owner path =
      valid (validate_path path) >> statement env >> gets (look_up owner path) >>= or_not_found

  -- ListFiles
  unfoldable pub list_files : Bytes → Bytes → Action Session (List File)
  list_files owner dir =
      valid (validate_dir dir)
      >> statement env
      >> gets (λ s.
        order_by dir_first (where_ (λ f. beq f.owner owner && beq f.parent dir) s.tables.rows))

  -- BlobKeys
  unfoldable pub blob_keys : Action Session (List Bytes)
  blob_keys =
      statement env >> gets (λ s. map (λ f. f.blob_key) (where_ (λ f. not f.is_dir) s.tables.rows))

  -- moveTree on a row
  unfoldable pub move_below : Bytes → Bytes → Bytes → File → File
  unfolding under
  move_below owner from to f =
      if beq f.owner owner && env.like f.path (under from)
      then record f {
        path = to ++ env.substr f.path (suc (length from));
        parent = to ++ env.substr f.parent (suc (length from));
      }
      else f

  -- An UPDATE, which the unique index may refuse.
  unfoldable pub update_rows : (File → File) → Action Session (Unit {0})
  unfolding unique_paths
  update_rows f = statement env >> gets (λ s. unique_paths (map f s.tables.rows)) >>= λ ok.
      demand ok conflict >> change_tables (λ t. record t { rows = map f t.rows })

  -- MoveFile
  unfoldable pub move_file : Bytes → Bytes → Bytes → Action Session (Unit {0})
  unfolding update_rows move_one move_below unaffected
  move_file owner from to =
      move_fault (validate_move from to) >> gets (look_up owner from) >>= λ old.
      update_rows (move_one owner from to)
      >> (if is_some old then pure tt else statement env >> raise not_found)
      >> update_rows (move_below owner from to)

  -- DeleteFile
  unfoldable pub delete_file : Bytes → Bytes → Action Session (Unit {0})
  unfolding unaffected
  delete_file owner path =
      valid (validate_path path)
      >> statement env
      >> gets (λ s. where_ (λ f. beq f.owner owner && beq f.parent path) s.tables.rows)
      >>= λ children. gets (look_up owner path) >>= λ old.
          if is_some old && is_nil children
          then change_tables (λ t. record t { rows = where_ (λ f. not (at owner path f)) t.rows })
          else statement env >> raise (unaffected old)

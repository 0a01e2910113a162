-- ===== src/Files/Tests.antt =====
-- Runs of the file layer, and its theorems at concrete inputs.
use stratus_backend.Files.Action.{
  ◌>>=◌, pure, store_read, gets, demand, store_call, after, caught, change_tables, committed, raise,
  statement, try, tx,
}
use stratus_backend.Db.Path.{validate_path, segments_fault, segment_fault, cut_last, ext, parent_of}
use stratus_backend.Prelude.Utf8.{runes}
use stratus_backend.Prelude.Segments.{has_control}
use stratus_backend.Files.Store.{
  store_put, fits, delete_object, put_object, store_delete, store_list,
}
use stratus_backend.Files.Repo.{
  add_row, file_by_path, find_file, put_file, replace_row, upserted, where_,
}
use stratus_backend.Prelude.{false, ◌≡◌, refl, ◌∷◌, Bool, some, ◌+◌, ◌≤◌, true, [], none, All}
use stratus_backend.Prelude.Int.{pos}
use stratus_backend.Prelude.Text.{
  Bytes, codes, has_prefix, cut_prefix, contains, contains-Lacks, beq, cut_suffix, split, cons_head,
}
use stratus_backend.Prelude.Result.{Result, ok, err}
use stratus_backend.Files.Key.{
  derived_prefix, derived_key, parent_of_key, stale_generation, cached, cache_prefix, all_plain,
  by_extension, extension_of, is_one_of, kind_of, new_blob_key, without_dot,
}
use stratus_backend.Files.Key.Laws.{parent_of_key-derived_key}
use stratus_backend.Files.Collect.{collect}
use stratus_backend.Files.Rules.{Post}
use stratus_backend.Files.Outcomes.Originals.{collect-originals}
use stratus_backend.Files.Outcomes.Written.{IsWritten, write-IsWritten}
use stratus_backend.Files.World.{Env, World, FilesFault, kind_other}
use stratus_backend.Files.Count.{count, holds, holds_trashed, present}
use stratus_backend.Files.Service.{
  write, mkdir, move, remove, content_type, delete_listed, displaced, drop_blob, drop_superseded,
  finish_write, replace, require_parent, store_blob, write_file, written,
}
use stratus_backend.Files.Trash.{restore}
use stratus_backend.Files.History.{
  Reaches, start, next, wrote, removed, empty_world, DrawsNew, IsBacked, reached-stored, left_by,
  empty-Sound,
}
use stratus_backend.Files.Outcomes.{IsAtomic, LeavesStore, failed-IsAtomic, moved-LeavesStore}

-- Nothing fails but the calls that the list names.
abbrev calm : Env
calm = record {
  fails = λ t. false;
  carried_out = λ t. false;
  read = λ t. 0;
  kept = λ t. 0;
  random = λ t. codes "R";
  clock = λ t. pos t;
  hash_start = codes "#";
  hash_feed = λ state piece. state;
  hash_sum = λ state. state;
  is_hash = λ state. true;
  sniff = λ head. (codes "text/plain", kind_other);
  to_lower = λ s. s;
  date = λ moment. codes "2024/06/01";
  substr = λ s n. s;
  like = λ s pattern. false;
}

calm-DrawsNew : (path : Bytes) → DrawsNew calm path empty_world
unfolding count
calm-DrawsNew path moment kind = refl

abbrev after_write : World
after_write = left_by (write calm (codes "ana") (codes "a.txt") (codes "hello") none []) empty_world

abbrev after_remove : World
after_remove = left_by (remove calm (codes "ana") (codes "a.txt")) after_write

reached : Reaches empty_world after_remove
reached =
    next after_write after_remove
      (next empty_world after_write start (
        wrote calm (codes "ana") (codes "a.txt") (codes "hello") none [] empty_world
          (calm-DrawsNew (codes "a.txt"))))
      (removed calm (codes "ana") (codes "a.txt") after_write)

reached-stored_example :
    All (IsBacked after_remove.objects) after_remove.tables.rows
    × All (λ t. IsBacked after_remove.objects t.file) after_remove.tables.trash
    × ((k : Bytes)
        → count (holds k) after_remove.tables.rows
            + count (holds_trashed k) after_remove.tables.trash
          ≤ 1)
reached-stored_example = reached-stored after_remove reached

failed-IsAtomic_example :
    IsAtomic (write calm (codes "ana") (codes "a.txt") (codes "hello") none [])
    × IsAtomic (mkdir calm (codes "ana") (codes "a.txt"))
    × IsAtomic (move calm (codes "ana") (codes "a.txt") (codes "b.txt"))
    × IsAtomic (remove calm (codes "ana") (codes "a.txt"))
    × IsAtomic (restore calm (codes "ana") (codes "R"))
failed-IsAtomic_example =
    failed-IsAtomic calm (codes "ana") (codes "a.txt") (codes "b.txt") (codes "hello") []
      (codes "R") none

moved-LeavesStore_example :
    LeavesStore (mkdir calm (codes "ana") (codes "a.txt"))
    × LeavesStore (move calm (codes "ana") (codes "a.txt") (codes "b.txt"))
    × LeavesStore (remove calm (codes "ana") (codes "a.txt"))
    × LeavesStore (restore calm (codes "ana") (codes "R"))
moved-LeavesStore_example =
    moved-LeavesStore calm (codes "ana") (codes "a.txt") (codes "b.txt") (codes "R")

write-IsWritten_example :
    Post
      (λ _. IsWritten calm (codes "ana") (codes "a.txt") (codes "hello"))
      (λ _. Unit {0})
      (write calm (codes "ana") (codes "a.txt") (codes "hello") none [] empty_world)
write-IsWritten_example =
    write-IsWritten calm (codes "ana") (codes "a.txt") (codes "hello") none [] empty_world
      empty-Sound (calm-DrawsNew (codes "a.txt"))

abbrev orphaned : World
orphaned = record empty_world {
  objects = (record { key = codes "image/x"; content = codes "pixels"; mtime = pos 1 }) ∷ [];
}

not_derived : has_prefix (codes "image/x") derived_prefix ≡ false
unfolding cut_prefix
not_derived = refl

collect-originals_example :
    present (codes "image/x") (collect calm (pos 0) orphaned).0.objects
    ≡ present (codes "image/x") orphaned.objects
collect-originals_example = collect-originals calm (pos 0) (codes "image/x") orphaned not_derived

abbrev picture : Bytes
picture = codes "image/2024/06/01/R.jpg"

no_slash : contains (codes "cache-3") b'/' ≡ false
unfolding contains
no_slash = refl

parent_of_key-derived_key_example :
    (parent_of_key (derived_key picture (codes "cache-3")) ≡ some picture)
    × (stale_generation (derived_key picture (codes "cache-3")) ≡ false)
    × (cached (derived_key picture (codes "cache-3")) ≡ has_prefix (codes "cache-3") cache_prefix)
parent_of_key-derived_key_example =
    parent_of_key-derived_key picture (codes "cache-3")
      (contains-Lacks (codes "cache-3") b'/' no_slash)

abbrev is_ok : {A : Type 0} → Result FilesFault A → Bool
is_ok (ok a) = true
is_ok (err e) = false

-- The write of the history returns, and what it stored can be looked up.
write_returns :
    is_ok (write calm (codes "ana") (codes "a.txt") (codes "hello") none [] empty_world).1 ≡ true
unfolding write ◌>>=◌ validate_path beq runes cut_prefix cut_suffix has_control segments_fault split
    segment_fault pure store_read gets store_put demand fits store_call cut_last ext parent_of after
    caught change_tables committed raise statement try tx all_plain by_extension extension_of
    is_one_of kind_of new_blob_key without_dot add_row file_by_path find_file put_file replace_row
    upserted where_ content_type delete_listed displaced drop_blob drop_superseded finish_write
    replace require_parent store_blob write_file written delete_object put_object store_delete
    store_list cons_head
write_returns = refl

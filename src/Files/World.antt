-- ===== src/Files/World.antt =====
-- The state that the file layer works on: the tables of the database, the objects of the blob store
-- and the uploads it has begun; and the calls into both, any of which may fail.
use stratus_backend.Prelude.{ℕ, Bool, List, Option}
use stratus_backend.Prelude.Int.{ℤ}
use stratus_backend.Prelude.Text.{Bytes}

-- db.File, with the column parent_path of the row.
pub record File : Type 0 where
  pub id : ℕ
  pub owner : Bytes
  pub path : Bytes
  pub parent : Bytes
  pub blob_key : Bytes
  pub size : ℕ
  pub mtime : ℤ
  pub etag : Bytes
  pub mime_type : Bytes
  pub is_dir : Bool

-- db.Trashed
pub record Trashed : Type 0 where
  pub batch : Bytes
  pub file : File
  pub deleted_at : ℤ

-- db.Upload; the size is `none` where the client did not say it.
pub record Upload : Type 0 where
  pub id : Bytes
  pub owner : Bytes
  pub path : Bytes
  pub size : Option ℕ
  pub received : ℕ
  pub blob_key : Bytes
  pub store_id : Bytes
  pub digest : Bytes
  pub mime_type : Bytes
  pub expires_at : ℤ

-- What the database keeps, with the next row id.
pub record Tables : Type 0 where
  pub rows : List File
  pub trash : List Trashed
  pub uploads : List Upload
  pub next_id : ℕ

-- An object of the blob store.
pub record Object : Type 0 where
  pub key : Bytes
  pub content : Bytes
  pub mtime : ℤ

-- An upload that the blob store has begun.
pub record Part : Type 0 where
  pub key : Bytes
  pub id : Bytes
  pub content : Bytes

-- Both, the files announced to the watcher, and the number of calls so far.
pub record World : Type 0 where
  pub tables : Tables
  pub objects : List Object
  pub parts : List Part
  pub announced : List File
  pub tick : ℕ

pub data FilesFault : Type 0 where
  not_found conflict invalid_path broken size_mismatch upload_offset empty_index no_space :
      FilesFault
  out_of_fuel : FilesFault

-- db.Kind
pub data Kind : Type 0 where
  kind_other kind_image kind_audio kind_video : Kind

-- What is decided outside, by the number of the call: whether it fails, whether a call of the blob
-- store that fails has been carried out all the same, how many bytes of a piece were read and kept
-- when its append fails, rand.Text and time.Now in milliseconds. And the functions of other packages:
-- the marshalled states of a SHA-256 and its sum in hexadecimal, sniff.Sniff, strings.ToLower, a date
-- as year/month/day, and SQL's substr and LIKE.
pub record Env : Type 0 where
  pub fails : ℕ → Bool
  pub carried_out : ℕ → Bool
  pub read : ℕ → ℕ
  pub kept : ℕ → ℕ
  pub random : ℕ → Bytes
  pub clock : ℕ → ℤ
  pub hash_start : Bytes
  pub hash_feed : Bytes → Bytes → Bytes
  pub hash_sum : Bytes → Bytes
  pub is_hash : Bytes → Bool
  pub sniff : Bytes → Bytes × Kind
  pub to_lower : Bytes → Bytes
  pub date : ℤ → Bytes
  pub substr : Bytes → ℕ → Bytes
  pub like : Bytes → Bytes → Bool

-- etag of the digest of a whole text.
abbrev pub digest : Env → Bytes → Bytes
digest env content = env.hash_sum (env.hash_feed env.hash_start content)

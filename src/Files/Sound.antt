-- ===== src/Files/Sound.antt =====
-- The rule of the file layer: a blob that a row or the trash names is in the store and named once.
pub mod Stored
pub mod Blobs
pub mod Calls
pub mod Writes
pub mod Uploads
pub mod Published
pub mod Bin
pub mod Orphans
pub mod Sweep
use stratus_backend.Prelude.{ℕ, ◌+◌, ◌≤◌, ◌≡◌, true, List}
use stratus_backend.Prelude.Text.{Bytes, has_prefix}
use stratus_backend.Files.World.{Env, Object, Part, Tables, World}
use stratus_backend.Files.Key.{new_blob_key, derived_prefix}
use stratus_backend.Files.Count.{held, present, started}
use stratus_backend.Files.Rules.Calls.{Known}

-- The store alone: a key is that of one object or of one upload at most.
pub record IsSound (t : Tables) (os : List Object) (ps : List Part) : Type 0 where
  -- A blob that a row or the trash names is there, and is named once.
  pub backed : (k : Bytes) → held k t ≤ present k os
  -- A key is that of one object or one upload at most.
  pub single : (k : Bytes) → present k os + started k ps ≤ 1
  -- What is derived has no row and is not uploaded.
  pub original : (k : Bytes) → has_prefix k derived_prefix ≡ true → held k t + started k ps ≡ 0

-- A key that the store has not seen.
abbrev pub IsNew : Bytes → List Object → List Part → Type 0
IsNew k os ps = present k os + started k ps ≡ 0

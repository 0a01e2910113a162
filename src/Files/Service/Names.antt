-- ===== src/Files/Service/Names.antt =====
-- The search for a free name: FreeName and freeName of internal/files/files.go.
use stratus_backend.Prelude.{ℕ, zero, suc}
use stratus_backend.Prelude.Int.{pos}
use stratus_backend.Prelude.Text.{Bytes}
use stratus_backend.Prelude.Result.{Result, ok, err}
use stratus_backend.Db.Path.{copy_name}
use stratus_backend.Files.World.{Env, File, World, FilesFault, not_found, conflict}
use stratus_backend.Files.Action.{Action, ◌>>=◌, pure, raise, try, alone}
use stratus_backend.Files.Repo.{file_by_path}

abbrev pub max_copies : ℕ
max_copies = 100

module _ {S : Type 0} (stat : Bytes → Action S File) (target : Bytes) where
  -- What the switch does with the answer for one candidate, and else goes on with the rest.
  unfoldable pub answered : Bytes → Action S Bytes → Result FilesFault File → Action S Bytes
  answered candidate rest (ok f) = rest
  answered candidate rest (err not_found) = pure candidate
  answered candidate rest (err e) = raise e

  unfoldable pub free_from : ℕ → ℕ → Action S Bytes
  unfolding answered
  free_from zero n = raise conflict
  free_from (suc left) n =
      try (stat (copy_name target (pos n)))
      >>= answered (copy_name target (pos n)) (free_from left (suc n))

  -- freeName
  unfoldable pub free_name : Action S Bytes
  unfolding free_from
  free_name = free_from max_copies 1

-- FreeName
unfoldable pub free_name_of : Env → Bytes → Bytes → Action World Bytes
unfolding free_name
free_name_of env owner target = free_name (λ p. alone (file_by_path env owner p)) target

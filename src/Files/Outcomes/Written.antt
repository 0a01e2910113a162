-- ===== src/Files/Outcomes/Written.antt =====
-- What a write of internal/files/files.go leaves behind when it returns.
use stratus_backend.Prelude.{ℕ, ◌≡◌, sym, subst, ◌∙◌, false, [], ◌∷◌, ◌++◌, Option, some, length}
use stratus_backend.Prelude.Text.{Bytes, beq, has_prefix}
use stratus_backend.Prelude.Result.{Result, ok, err}
use stratus_backend.Files.World.{Env, File, World, FilesFault, digest}
use stratus_backend.Files.Action.{try, tx}
use stratus_backend.Files.Key.{derived_prefix}
use stratus_backend.Files.Repo.{find_file}
use stratus_backend.Files.History.{DrawsNew}
use stratus_backend.Files.Store.{store_delete}
use stratus_backend.Files.Service.{finish_write, write_file, write, written, replace}
use stratus_backend.Files.Rules.{
  Runs, Runs-pure, Runs-raise, Runs-bind, Runs-post, Runs-pre, Runs-fact, Runs-both, Runs-try,
  Caught, Post,
}
use stratus_backend.Files.Rules.Calls.{Runs-tx, About, Known}
use stratus_backend.Files.Sound.Blobs.{IsPlaced}
use stratus_backend.Files.Sound.Calls.{Sound, Fresh, Runs-store_blob}
use stratus_backend.Files.Outcomes.{Runs-any}
use stratus_backend.Files.Outcomes.Rows.{HasBlob, replace-HasRow}
use stratus_backend.Files.Outcomes.Kept.{
  Open, Holding, Describes, blob-HasBlob, superseded-Holding, displaced_other,
}

-- The row at the path says the size and the digest of the content, and its blob is in the store.
pub record IsWritten (env : Env) (owner path content : Bytes) (w : World) : Type 0 where
  pub row : File
  pub found : find_file owner path w.tables.rows ≡ some row
  pub sized : row.size ≡ length content
  pub tagged : row.etag ≡ digest env content
  pub stored : HasBlob row.blob_key content w.objects

described :
    (env : Env) (owner path content : Bytes) (f : File) (w : World)
    → Describes env owner path content f
    → Known (Holding f content) w
    → IsWritten env owner path content w
described env owner path content f w d (r, b) = record {
  row = r.row;
  found =
      subst (λ o. find_file o path w.tables.rows ≡ some r.row) d.owned
        (subst (λ p. find_file f.owner p w.tables.rows ≡ some r.row) d.placed r.found);
  sized = r.same_size ∙ d.sized;
  tagged = r.same_etag ∙ d.tagged;
  stored = subst (λ k. HasBlob k content w.objects) (sym r.same_key) b;
}

module _ (env : Env) (owner path content : Bytes) where
  -- Before the transaction of a write, and after it.
  abbrev Ready : File → About
  Ready f t os ps = IsPlaced f.blob_key t os ps × HasBlob f.blob_key content os

  abbrev Replaced : File → Bytes → About
  Replaced f superseded t os ps =
      Holding f content t os ps
      × (beq superseded [] ≡ false → beq superseded f.blob_key ≡ false)
      × (has_prefix f.blob_key derived_prefix ≡ false)

  replacing :
      (f : File)
      → Runs
          (Known (Ready f))
          (try (tx env (replace env f)))
          (Caught (λ answer. Known (Replaced f answer.1)) Open)
          Open
  replacing f = Runs-try Open _ (
      Runs-post _ Open _ (λ _ w p. p) (λ w p. tt)
        (Runs-tx env (Ready f) (λ answer. Replaced f answer.1) (replace env f)
          (λ w p.
            Runs-post _ _ _
              (λ answer s r. (
                (r.0, p.1),
                displaced_other env f answer.1 w.tables w.objects w.parts p.0 r.1,
                p.0.not_derived,
              ))
              (λ s r. r) (replace-HasRow env w.tables f))))

  finishing :
      (f : File) (r : Result FilesFault (File × Bytes))
      → Describes env owner path content f
      → Runs
          (Caught (λ answer. Known (Replaced f answer.1)) Open r)
          (finish_write env f.blob_key r)
          (λ _. IsWritten env owner path content)
          Open
  unfolding finish_write
  finishing f (err e) d =
      Runs-bind {R = λ _. Open} _ _ (Runs-any (try (store_delete env f.blob_key)))
        (λ _. Runs-raise e (λ w p. p))
  finishing f (ok (stored, superseded)) d =
      Runs-pre _ _ (λ w p. ((p.0, p.1), p.2))
        (Runs-fact _ _ (λ original.
          Runs-bind _ _ (superseded-Holding env f content original superseded)
            (λ _. Runs-pure _ (λ w p. described env owner path content f w d p))))

  -- From tables and a store where each blob that a row names is there and is named once, a write that
  -- returns has stored the content: the row at the path says its length and its digest, and the blob
  -- of that row holds it. The key that the write draws is new.
  pub write-IsWritten :
      (size : Option ℕ) (mime_type : Bytes) (w : World)
      → Sound w
      → DrawsNew env path w
      → Post
          (λ _. IsWritten env owner path content)
          (λ _. Unit {0})
          (write env owner path content size mime_type w)
  unfolding write write_file written
  write-IsWritten size mime_type w s new =
      (Runs-bind {P = λ v. Known (Fresh env path) v × Open v}
          {R = λ _. IsWritten env owner path content} _ _
          (Runs-bind _ _
            (Runs-post _ Open _ (λ f v p. ((p.0, p.1.0), p.1.1)) (λ v p. tt)
              (Runs-both _ (Runs-store_blob env owner path content size mime_type)
                (blob-HasBlob env owner path content size mime_type)))
            (λ f. Runs-fact _ _ (λ d. Runs-bind _ _ (replacing f) (λ r. finishing f r d))))
          (λ f.
            Runs-bind {R = λ _. IsWritten env owner path content} _ _
              (record { run = λ v p. announced v f p }) (λ _. Runs-pure _ (λ v p. p)))).run
        w ((s, new), tt)
    where
      announced :
          (v : World) (f : File)
          → IsWritten env owner path content v
          → IsWritten env owner path content (record v { announced = v.announced ++ f ∷ [] })
      announced v f p = record {
        row = p.row;
        found = p.found;
        sized = p.sized;
        tagged = p.tagged;
        stored = p.stored;
      }

-- ===== src/Files/History.antt =====
-- Histories of the file layer: operations of internal/files one after the other, each with failures of
-- its own, from an empty database and an empty store.
use stratus_backend.Prelude.{
  ℕ, ◌+◌, ◌≤◌, ◌≡◌, ◌⊎◌, refl, true, List, [], ◌∷◌, Option, some, inl, inr, Bool-cases, arith, All,
}
use stratus_backend.Prelude.Int.{ℤ}
use stratus_backend.Prelude.Text.{Bytes, beq, beq_self}
use stratus_backend.Prelude.Result.{Result, ok, err}
use stratus_backend.Files.World.{Env, File, Trashed, Object, World, Kind, FilesFault}
use stratus_backend.Files.Action.{Action}
use stratus_backend.Files.Key.{new_blob_key}
use stratus_backend.Files.Store.{find_object}
use stratus_backend.Files.Service.{write, reserve_file, mkdir, move, remove}
use stratus_backend.Files.Upload.{
  begin_upload, append_upload, complete_upload, abort_upload, collect_uploads,
}
use stratus_backend.Files.Trash.{destroy_trashed, empty_trash, restore}
use stratus_backend.Files.Collect.{collect}
use stratus_backend.Files.Rules.{Runs, Post}
use stratus_backend.Files.Count.{bit, count, holds, holds_trashed, present, has_key, count-cons}
use stratus_backend.Files.Sound.{IsNew}
use stratus_backend.Files.Sound.Calls.{Sound}
use stratus_backend.Files.Sound.Writes.{
  Runs-write, Runs-reserve_file, Runs-mkdir, Runs-move, Runs-remove,
}
use stratus_backend.Files.Sound.Uploads.{Runs-begin_upload, Runs-append_upload}
use stratus_backend.Files.Sound.Published.{
  Runs-complete_upload, Runs-abort_upload, Runs-collect_uploads,
}
use stratus_backend.Files.Sound.Bin.{Runs-destroy_trashed, Runs-empty_trash, Runs-restore}
use stratus_backend.Files.Sound.Sweep.{Runs-collect}

-- The keys that may be drawn for a file are not in the store: rand.Text does not repeat.
abbrev pub DrawsNew : Env → Bytes → World → Type 0
DrawsNew env path w =
    (moment : ℕ) (kind : Kind) → IsNew (new_blob_key env moment path kind) w.objects w.parts

abbrev pub left_by : {A : Type 0} → Action World A → World → World
left_by m w = (m w).0

-- One operation, which returns or fails.
pub data Step : World → World → Type 0 where
  wrote :
      (env : Env) (owner path body : Bytes) (size : Option ℕ) (mime_type : Bytes) (w : World)
      → DrawsNew env path w
      → Step w (left_by (write env owner path body size mime_type) w)
  reserved :
      (env : Env) (owner path mime_type : Bytes) (w : World)
      → DrawsNew env path w
      → Step w (left_by (reserve_file env owner path mime_type) w)
  made : (env : Env) (owner path : Bytes) (w : World) → Step w (left_by (mkdir env owner path) w)
  moved :
      (env : Env) (owner from to : Bytes) (w : World) → Step w (left_by (move env owner from to) w)
  removed :
      (env : Env) (owner path : Bytes) (w : World) → Step w (left_by (remove env owner path) w)
  began :
      (env : Env) (owner path : Bytes) (size : Option ℕ) (mime_type : Bytes) (w : World)
      → DrawsNew env path w
      → Step w (left_by (begin_upload env owner path size mime_type) w)
  appended :
      (env : Env) (owner id : Bytes) (offset : ℕ) (body : Bytes) (w : World)
      → Step w (left_by (append_upload env owner id offset body) w)
  completed :
      (env : Env) (owner id : Bytes) (w : World) → Step w (left_by (complete_upload env owner id) w)
  aborted :
      (env : Env) (owner id : Bytes) (w : World) → Step w (left_by (abort_upload env owner id) w)
  expired : (env : Env) (moment : ℤ) (w : World) → Step w (left_by (collect_uploads env moment) w)
  destroyed :
      (env : Env) (owner batch : Bytes) (w : World)
      → Step w (left_by (destroy_trashed env owner batch) w)
  emptied : (env : Env) (before : ℤ) (w : World) → Step w (left_by (empty_trash env before) w)
  put_back :
      (env : Env) (owner batch : Bytes) (w : World) → Step w (left_by (restore env owner batch) w)
  swept : (env : Env) (age : ℤ) (w : World) → Step w (left_by (collect env age) w)

pub data Reaches (v : World) : World → Type 0 where
  start : Reaches v v
  next : (w u : World) → Reaches v w → Step w u → Reaches v u

abbrev pub empty_world : World
empty_world = record {
  tables = record { rows = []; trash = []; uploads = []; next_id = 1 };
  objects = [];
  parts = [];
  announced = [];
  tick = 0;
}

after_run : {A : Type 0} (x : World × Result FilesFault A) → Post (λ _. Sound) Sound x → Sound x.0
after_run (w, ok a) h = h
after_run (w, err e) h = h

left_run :
    {A : Type 0} {P : World → Type 0} {m : Action World A}
    → Runs P m (λ _. Sound) Sound
    → (w : World) → P w
    → Sound (left_by m w)
left_run {m = m} r w p = after_run (m w) (r.run w p)

Step-Sound : (w u : World) → Sound w → Step w u → Sound u
Step-Sound w _ s (wrote env owner path body size mime_type _ new) =
    left_run (Runs-write env owner path body size mime_type) w (s, new)
Step-Sound w _ s (reserved env owner path mime_type _ new) =
    left_run (Runs-reserve_file env owner path mime_type) w (s, new)
Step-Sound w _ s (made env owner path _) = left_run (Runs-mkdir env owner path) w s
Step-Sound w _ s (moved env owner from to _) = left_run (Runs-move env owner from to) w s
Step-Sound w _ s (removed env owner path _) = left_run (Runs-remove env owner path) w s
Step-Sound w _ s (began env owner path size mime_type _ new) =
    left_run (Runs-begin_upload env owner path size mime_type) w (s, new)
Step-Sound w _ s (appended env owner id offset body _) =
    left_run (Runs-append_upload env owner id offset body) w s
Step-Sound w _ s (completed env owner id _) = left_run (Runs-complete_upload env owner id) w s
Step-Sound w _ s (aborted env owner id _) = left_run (Runs-abort_upload env owner id) w s
Step-Sound w _ s (expired env moment _) = left_run (Runs-collect_uploads env moment) w s
Step-Sound w _ s (destroyed env owner batch _) = left_run (Runs-destroy_trashed env owner batch) w s
Step-Sound w _ s (emptied env before _) = left_run (Runs-empty_trash env before) w s
Step-Sound w _ s (put_back env owner batch _) = left_run (Runs-restore env owner batch) w s
Step-Sound w _ s (swept env age _) = left_run (Runs-collect env age) w s

pub reached-Sound : (v w : World) → Sound v → Reaches v w → Sound w
reached-Sound v _ s start = s
reached-Sound v _ s (next w u r step) = Step-Sound w u (reached-Sound v w s r) step

pub empty-Sound : Sound empty_world
unfolding count
empty-Sound = record {
  backed = λ k. omega arith;
  single = λ k. omega arith;
  original = λ k h. refl;
}

-- An object of the store has the key.
pub IsStored : List Object → Bytes → Type 0
IsStored os k = (o : Object) × (find_object k os ≡ some o)

stored : (k : Bytes) (os : List Object) → 1 ≤ present k os → IsStored os k
unfolding count find_object IsStored
stored k [] h = ground (arith, h)
stored k (o ∷ os) h = elim (Bool-cases (beq o.key k)) [
  | inl e ↦ rw e (o, refl)
  | inr e ↦ let z : bit (has_key k o) ≡ 0 = rw e refl in rw e (stored k os (omega (arith, h, z)))
]

-- A directory, or a file whose blob is in the store.
abbrev pub IsBacked : List Object → File → Type 0
IsBacked os f = (f.is_dir ≡ true) ⊎ IsStored os f.blob_key

backed :
    (os : List Object) (f : File) (n : ℕ)
    → bit (holds f.blob_key f) + n ≤ present f.blob_key os
    → IsBacked os f
backed os f n h = elim (Bool-cases f.is_dir) [
  | inl e ↦ inl e
  | inr e ↦
      let z : bit (holds f.blob_key f) ≡ 1 = simp (e, beq_self f.blob_key) refl in
      inr (stored f.blob_key os (omega (arith, h, z)))
]

rows_stored :
    (os : List Object) (fs : List File)
    → ((k : Bytes) → count (holds k) fs ≤ present k os)
    → All (IsBacked os) fs
rows_stored os [] h = tt
rows_stored os (f ∷ fs) h = (
  backed os f (count (holds f.blob_key) fs)
      (let a = h f.blob_key in let b = count-cons (holds f.blob_key) f fs in omega (arith, a, b)),
  rows_stored os fs (λ k. let a = h k in let b = count-cons (holds k) f fs in omega (arith, a, b)),
)

trash_stored :
    (os : List Object) (ts : List Trashed)
    → ((k : Bytes) → count (holds_trashed k) ts ≤ present k os)
    → All (λ t. IsBacked os t.file) ts
trash_stored os [] h = tt
trash_stored os (t ∷ ts) h = (
  backed os t.file (count (holds_trashed t.file.blob_key) ts) (
      let a = h t.file.blob_key in
      let b = count-cons (holds_trashed t.file.blob_key) t ts in omega (arith, a, b)),
  trash_stored os ts
      (λ k. let a = h k in let b = count-cons (holds_trashed k) t ts in omega (arith, a, b)),
)

-- After any history of operations from an empty database and an empty store, whichever calls failed:
-- every file and every file in the trash has its blob in the store, and no blob belongs to two of them.
-- The history draws a new key for each write and each upload.
pub reached-stored :
    (w : World)
    → Reaches empty_world w
    → All (IsBacked w.objects) w.tables.rows
      × All (λ t. IsBacked w.objects t.file) w.tables.trash
      × ((k : Bytes) → count (holds k) w.tables.rows + count (holds_trashed k) w.tables.trash ≤ 1)
reached-stored w r =
    let s = reached-Sound empty_world w empty-Sound r in
    (
      rows_stored w.objects w.tables.rows (λ k. let a = s.backed k in omega (arith, a)),
      trash_stored w.objects w.tables.trash (λ k. let a = s.backed k in omega (arith, a)),
      λ k. let a = s.backed k in let b = s.single k in omega (arith, a, b),
    )

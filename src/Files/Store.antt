-- ===== src/Files/Store.antt =====
-- The blob store as internal/storage/storage.go describes it, on the lists of objects and of uploads it
-- has begun. A call that fails may have been carried out; only an append says how far it came.
use stratus_backend.Prelude.{
  ℕ, suc, ◌+◌, min, Bool, true, not, ◌&&◌, ◌==◌, List, [], ◌∷◌, ◌++◌, Option, none, some, length,
  take, if◌then◌else◌,
}
use stratus_backend.Prelude.Text.{Bytes, beq, has_prefix}
use stratus_backend.Prelude.Result.{Result, ok, err}
use stratus_backend.Files.World.{
  Env, Object, Part, World, FilesFault, not_found, size_mismatch, upload_offset, broken,
}
use stratus_backend.Files.Action.{
  Action, ◌>>=◌, ◌>>◌, pure, raise, gets, demand, store_read, store_call,
}
use stratus_backend.Files.Repo.{where_}

unfoldable pub find_object : Bytes → List Object → Option Object
find_object key [] = none
find_object key (o ∷ os) = let rest = find_object key os in if beq o.key key then some o else rest

abbrev pub without_object : Bytes → List Object → List Object
without_object key os = where_ (λ o. not (beq o.key key)) os

unfoldable pub put_object : Object → World → World
put_object o w = record w { objects = o ∷ without_object o.key w.objects }

unfoldable pub delete_object : Bytes → World → World
delete_object key w = record w { objects = without_object key w.objects }

abbrev pub is_part : Bytes → Bytes → Part → Bool
is_part key id p = beq p.key key && beq p.id id

unfoldable pub find_part : Bytes → Bytes → List Part → Option Part
find_part key id [] = none
find_part key id (p ∷ ps) =
    let rest = find_part key id ps in if is_part key id p then some p else rest

unfoldable pub start_part : Part → World → World
start_part p w = record w { parts = p ∷ w.parts }

abbrev pub without_part : Bytes → Bytes → List Part → List Part
without_part key id ps = where_ (λ p. not (is_part key id p)) ps

unfoldable pub abort_part : Bytes → Bytes → World → World
abort_part key id w = record w { parts = without_part key id w.parts }

unfoldable pub extend_part : Bytes → Bytes → Bytes → List Part → List Part
extend_part key id more [] = []
extend_part key id more (p ∷ ps) =
    let rest = extend_part key id more ps in
    if is_part key id p then record p { content = p.content ++ more } ∷ ps else p ∷ rest

unfoldable pub grow_part : Bytes → Bytes → Bytes → World → World
unfolding extend_part
grow_part key id more w = record w { parts = extend_part key id more w.parts }

unfoldable pub publish_part : Object → Bytes → World → World
unfolding put_object abort_part
publish_part o id w = put_object o (abort_part o.key id w)

unfoldable pub fits : Option ℕ → Bytes → Bool
fits none body = true
fits (some n) body = length body == n

abbrev pub or_missing : {A : Type 0} → Option A → Action World A
or_missing none = raise not_found
or_missing (some a) = pure a

module _ (env : Env) where
  -- Put: nothing is stored of a body that has another size than was said.
  unfoldable pub store_put : Bytes → Bytes → Option ℕ → Action World Object
  store_put key body size =
      demand (fits size body) size_mismatch
      >> gets (λ w. record { key = key; content = body; mtime = env.clock w.tick })
      >>= λ o. store_call env (put_object o) >> pure o

  -- Delete: no error for a key that is not there.
  unfoldable pub store_delete : Bytes → Action World ℕ
  store_delete key = store_call env (delete_object key)

  -- Get
  unfoldable pub store_get : Bytes → Action World Object
  store_get key = store_read env >> gets (λ w. find_object key w.objects) >>= or_missing

  -- List, of the objects as they are when it begins.
  unfoldable pub store_list : Bytes → Action World (List Object)
  store_list prefix = store_read env >> gets (λ w. where_ (λ o. has_prefix o.key prefix) w.objects)

  -- StartUpload
  unfoldable pub store_start : Bytes → Action World Bytes
  store_start key = gets (λ w. env.random w.tick) >>= λ id.
      store_call env (start_part (record { key = key; id = id; content = [] })) >> pure id

  -- AppendUpload: the offset it reports, also when it fails, and how much of the body was read.
  unfoldable pub appended :
      Bytes → Bytes → ℕ → Bytes → Option Part → Action World (ℕ × ℕ × Result FilesFault ℕ)
  appended key id offset body none w = (w, ok (0, 0, err not_found))
  appended key id offset body (some p) w =
      let held = length p.content in
      let t = w.tick in
      let w' = record w { tick = suc t } in
      if held == offset
      then (if env.fails t
          then (
            grow_part key id (take (min (env.kept t) (env.read t)) body) w',
            ok (
              held + min (env.kept t) (min (env.read t) (length body)),
              min (env.read t) (length body),
              err broken,
            ),
          )
          else (
            grow_part key id body w',
            ok (held + length body, length body, ok (held + length body)),
          ))
      else (w', ok (held, 0, err upload_offset))

  unfoldable pub store_append :
      Bytes → Bytes → ℕ → Bytes → Action World (ℕ × ℕ × Result FilesFault ℕ)
  unfolding appended
  store_append key id offset body =
      gets (λ w. find_part key id w.parts) >>= appended key id offset body

  -- CompleteUpload
  unfoldable pub store_complete : Bytes → Bytes → Action World Object
  store_complete key id = gets (λ w. find_part key id w.parts) >>= or_missing >>= λ p.
      gets (λ w. record { key = key; content = p.content; mtime = env.clock w.tick }) >>= λ o.
      store_call env (publish_part o id) >> pure o

  -- AbortUpload
  unfoldable pub store_abort : Bytes → Bytes → Action World ℕ
  store_abort key id = store_call env (abort_part key id)

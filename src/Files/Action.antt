-- ===== src/Files/Action.antt =====
-- Calls that change a state and return a value or an error, and how they are put together: db.Tx, a
-- statement outside a transaction, and a call of the blob store.
use stratus_backend.Prelude.{ℕ, suc, Bool, true, false, if◌then◌else◌}
use stratus_backend.Prelude.Result.{Result, ok, err}
use stratus_backend.Files.World.{Env, Tables, World, FilesFault, broken}

abbrev pub Action : Type 0 → Type 0 → Type 0
Action S A = S → S × Result FilesFault A

module _ {S A B : Type 0} where
  unfoldable pub after : (A → Action S B) → S × Result FilesFault A → S × Result FilesFault B
  after f (s, err e) = (s, err e)
  after f (s, ok a) = f a s

  infixl 5 ◌>>=◌
  unfoldable pub ◌>>=◌ : Action S A → (A → Action S B) → Action S B
  unfolding after
  ◌>>=◌ m f s = after f (m s)

infixl 5 ◌>>◌
abbrev pub ◌>>◌ : {S A B : Type 0} → Action S A → Action S B → Action S B
m >> k = m >>= λ _. k

unfoldable pub pure : {S A : Type 0} → A → Action S A
pure a s = (s, ok a)

unfoldable pub raise : {S A : Type 0} → FilesFault → Action S A
raise e s = (s, err e)

unfoldable pub gets : {S A : Type 0} → (S → A) → Action S A
gets f s = (s, ok (f s))

unfoldable pub demand : {S : Type 0} → Bool → FilesFault → Action S (Unit {0})
demand true e s = (s, ok tt)
demand false e s = (s, err e)

-- What an error is made of: its value where there is one.
unfoldable pub caught :
    {S A : Type 0} → S × Result FilesFault A → S × Result FilesFault (Result FilesFault A)
caught (s, r) = (s, ok r)

unfoldable pub try : {S A : Type 0} → Action S A → Action S (Result FilesFault A)
unfolding caught
try m s = caught (m s)

-- A transaction's view: the tables and the number of calls.
pub record Session : Type 0 where
  pub tables : Tables
  pub tick : ℕ

abbrev pub session_of : World → Session
session_of w = record { tables = w.tables; tick = w.tick }

module _ (env : Env) where
  -- One statement: the number of the call goes up, and it may fail.
  unfoldable pub statement : Action Session ℕ
  statement s =
      let t = s.tick in (record s { tick = suc t }, if env.fails t then err broken else ok t)

  -- The end of a transaction, which commits unless that fails.
  unfoldable pub committed :
      {A : Type 0} → World → Session × Result FilesFault A → World × Result FilesFault A
  committed w (s, err e) = (record w { tick = s.tick }, err e)
  committed w (s, ok a) =
      if env.fails s.tick
      then (record w { tick = suc s.tick }, err broken)
      else (record w { tables = s.tables; tick = suc s.tick }, ok a)

  -- Tx
  unfoldable pub tx : {A : Type 0} → Action Session A → Action World A
  unfolding committed
  tx m w = committed w (m (session_of w))

  -- A call of the blob store that only reads.
  unfoldable pub store_read : Action World ℕ
  store_read w =
      let t = w.tick in (record w { tick = suc t }, if env.fails t then err broken else ok t)

  -- A call of the blob store that changes it as `change` says.
  unfoldable pub store_call : (World → World) → Action World ℕ
  store_call change w =
      let t = w.tick in
      let w' = record w { tick = suc t } in
      if env.fails t
      then (if env.carried_out t then change w' else w', err broken)
      else (change w', ok t)

-- A statement outside any transaction.
unfoldable pub settled :
    {A : Type 0} → World → Session × Result FilesFault A → World × Result FilesFault A
settled w (s, r) = (record w { tables = s.tables; tick = s.tick }, r)

unfoldable pub alone : {A : Type 0} → Action Session A → Action World A
unfolding settled
alone m w = settled w (m (session_of w))

unfoldable pub change_tables : (Tables → Tables) → Action Session (Unit {0})
change_tables f s = (record s { tables = f s.tables }, ok tt)

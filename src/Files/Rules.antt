-- ===== src/Files/Rules.antt =====
-- What an action does to its state, one rule for each way to build an action.
pub mod Calls
use stratus_backend.Prelude.{ℕ, suc, List, ◌≡◌, refl, Bool, true, false, if◌then◌else◌}
use stratus_backend.Prelude.Result.{Result, ok, err}
use stratus_backend.Files.World.{Env, World, Tables, Object, Part, FilesFault, broken}
use stratus_backend.Files.Action.{
  Action, Session, after, ◌>>=◌, pure, raise, gets, demand, caught, try, statement, change_tables,
  store_read, store_call, session_of, tx, committed, alone, settled,
}

abbrev pub Post :
    {S A : Type 0} → (A → S → Type 0) → (S → Type 0) → S × Result FilesFault A → Type 0
Post Q E (s, ok a) = Q a s
Post Q E (s, err e) = E s

-- From a state with `P`, `m` ends in one with `Q` of its value, or in one with `E` when it fails.
pub record Runs {S A : Type 0} (P : S → Type 0) (m : Action S A) (Q : A → S → Type 0)
    (E : S → Type 0) : Type 0 where
  pub run : (s : S) → P s → Post Q E (m s)

-- What is known of an error that was caught, or of a value.
abbrev pub Caught :
    {S A : Type 0} → (A → S → Type 0) → (S → Type 0) → Result FilesFault A → S → Type 0
Caught Q E (ok a) s = Q a s
Caught Q E (err e) s = E s

module _ {S A : Type 0} {Q : A → S → Type 0} {E : S → Type 0} where
  Post-mono :
      (Q' : A → S → Type 0) (E' : S → Type 0)
      → ((a : A) (s : S) → Q a s → Q' a s)
      → ((s : S) → E s → E' s)
      → (x : S × Result FilesFault A) → Post Q E x
      → Post Q' E' x
  Post-mono Q' E' q e (s, ok a) h = q a s h
  Post-mono Q' E' q e (s, err f) h = e s h

pub Post-if :
    {S A : Type 0} (Q : A → S → Type 0) (E : S → Type 0) (b : Bool) (x y : S × Result FilesFault A)
    → Post Q E x
    → Post Q E y
    → Post Q E (if b then x else y)
Post-if Q E true x y h k = h
Post-if Q E false x y h k = k

module _ {S A : Type 0} where
  Post-caught :
      (Q : A → S → Type 0) (E E' : S → Type 0) (x : S × Result FilesFault A)
      → Post Q E x
      → Post (Caught Q E) E' (caught x)
  unfolding caught
  Post-caught Q E E' (s, ok a) h = h
  Post-caught Q E E' (s, err f) h = h

module _ {S A : Type 0} {P : S → Type 0} {Q : A → S → Type 0} {E : S → Type 0} where
  pub Runs-pure : (a : A) → ((s : S) → P s → Q a s) → Runs P (pure a) Q E
  unfolding pure
  Runs-pure a h = record { run = h }

  pub Runs-raise : (e : FilesFault) → ((s : S) → P s → E s) → Runs P (raise e) Q E
  unfolding raise
  Runs-raise e h = record { run = h }

  pub Runs-gets : (f : S → A) → ((s : S) → P s → Q (f s) s) → Runs P (gets f) Q E
  unfolding gets
  Runs-gets f h = record { run = h }

  pub Runs-if :
      (b : Bool) (m n : Action S A)
      → (b ≡ true → Runs P m Q E)
      → (b ≡ false → Runs P n Q E)
      → Runs P (if b then m else n) Q E
  Runs-if true m n km kn = km refl
  Runs-if false m n km kn = kn refl

  pub Runs-pre :
      (P' : S → Type 0) (m : Action S A) → ((s : S) → P' s → P s) → Runs P m Q E → Runs P' m Q E
  Runs-pre P' m h r = record { run = λ s p. r.run s (h s p) }

  -- A fact that does not depend on the state.
  pub Runs-fact : (F : Type 0) (m : Action S A) → (F → Runs P m Q E) → Runs (λ s. P s × F) m Q E
  Runs-fact F m h = record { run = λ s p. (h p.1).run s p.0 }

  pub Runs-post :
      (Q' : A → S → Type 0) (E' : S → Type 0) (m : Action S A)
      → ((a : A) (s : S) → Q a s → Q' a s)
      → ((s : S) → E s → E' s)
      → Runs P m Q E
      → Runs P m Q' E'
  Runs-post Q' E' m q e r = record { run = λ s p. Post-mono Q' E' q e (m s) (r.run s p) }

  pub Runs-try : (E' : S → Type 0) (m : Action S A) → Runs P m Q E → Runs P (try m) (Caught Q E) E'
  unfolding try
  Runs-try E' m r = record { run = λ s p. Post-caught Q E E' (m s) (r.run s p) }

-- Two things known of one run.
module _ {S A : Type 0} where
  both_posts :
      (Q Q' : A → S → Type 0) (E E' : S → Type 0) (x : S × Result FilesFault A)
      → Post Q E x
      → Post Q' E' x
      → Post (λ a s. Q a s × Q' a s) (λ s. E s × E' s) x
  both_posts Q Q' E E' (s, ok a) h k = (h, k)
  both_posts Q Q' E E' (s, err e) h k = (h, k)

  pub Runs-both :
      {P P' E E' : S → Type 0} {Q Q' : A → S → Type 0} (m : Action S A)
      → Runs P m Q E
      → Runs P' m Q' E'
      → Runs (λ s. P s × P' s) m (λ a s. Q a s × Q' a s) (λ s. E s × E' s)
  Runs-both {E = E} {E' = E'} {Q = Q} {Q' = Q'} m r r' = record {
    run = λ s p. both_posts Q Q' E E' (m s) (r.run s p.0) (r'.run s p.1);
  }

module _ {S : Type 0} {P E : S → Type 0} {Q : Unit {0} → S → Type 0} where
  pub Runs-demand :
      (b : Bool) (e : FilesFault)
      → (b ≡ true → (s : S) → P s → Q tt s)
      → ((s : S) → P s → E s)
      → Runs P (demand b e) Q E
  unfolding demand
  Runs-demand true e q h = record { run = q refl }
  Runs-demand false e q h = record { run = h }

module _ {S A B : Type 0} {E : S → Type 0} {R : A → S → Type 0} {Q : B → S → Type 0} where
  Post-after :
      (f : A → Action S B)
      → ((a : A) → Runs (R a) (f a) Q E)
      → (x : S × Result FilesFault A) → Post R E x
      → Post Q E (after f x)
  unfolding after
  Post-after f k (s, ok a) h = (k a).run s h
  Post-after f k (s, err e) h = h

module _ {S A B : Type 0} {P E : S → Type 0} {R : A → S → Type 0} {Q : B → S → Type 0} where
  pub Runs-bind :
      (m : Action S A) (f : A → Action S B)
      → Runs P m R E
      → ((a : A) → Runs (R a) (f a) Q E)
      → Runs P (m >>= f) Q E
  unfolding ◌>>=◌
  Runs-bind m f r k = record { run = λ s p. Post-after f k (m s) (r.run s p) }

-- The calls of the database keep what is known of the tables, and the calls of the store what is known
-- of the whole but its count of calls.
pub either :
    {S A : Type 0} (Q : A → S → Type 0) (E : S → Type 0) (b : Bool) (s : S) (a : A) (e : FilesFault)
    → Q a s
    → E s
    → Post Q E (s, if b then err e else ok a)
either Q E true s a e q h = h
either Q E false s a e q h = q

module _ (env : Env) where
  pub Runs-statement :
      (P : Tables → Type 0)
      → Runs (λ s. P s.tables) (statement env) (λ _ s. P s.tables) (λ s. P s.tables)
  unfolding statement
  Runs-statement P = record {
    run = λ s p.
        either {S = Session} (λ _ s'. P s'.tables) (λ s'. P s'.tables) (env.fails s.tick)
          (record s { tick = suc s.tick }) s.tick broken p p;
  }

pub Runs-change :
    (P Q : Tables → Type 0) (E : Session → Type 0) (f : Tables → Tables)
    → ((t : Tables) → P t → Q (f t))
    → Runs (λ s. P s.tables) (change_tables f) (λ _ s. Q s.tables) E
unfolding change_tables
Runs-change P Q E f h = record { run = λ s p. h s.tables p }

-- What holds from each of the tables that a condition allows.
pub Runs-at :
    {A : Type 0} {Q : A → Session → Type 0} {E : Session → Type 0} {P : Tables → Type 0}
    (m : Action Session A)
    → ((t : Tables) → P t → Runs (λ s. s.tables ≡ t) m Q E)
    → Runs (λ s. P s.tables) m Q E
Runs-at m h = record { run = λ s p. (h s.tables p).run s refl }

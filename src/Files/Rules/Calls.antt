-- ===== src/Files/Rules/Calls.antt =====
-- What transactions, single statements and calls of the blob store do to a world.
use stratus_backend.Prelude.{ℕ, suc, List, ◌≡◌, refl, Bool, true, false, if◌then◌else◌}
use stratus_backend.Prelude.Result.{Result, ok, err}
use stratus_backend.Files.World.{Env, World, Tables, Object, Part, FilesFault, broken}
use stratus_backend.Files.Action.{
  Action, Session, store_read, store_call, session_of, tx, committed, alone, settled,
}
use stratus_backend.Files.Rules.{Post, Runs, Post-if, either}

-- What is known of a world, apart from its count of calls and what it has announced.
abbrev pub About : Type 1
About = Tables → List Object → List Part → Type 0

abbrev pub Known : About → World → Type 0
Known P w = P w.tables w.objects w.parts

module _ (env : Env) where
  pub Runs-store_read : (P : About) → Runs (Known P) (store_read env) (λ _. Known P) (Known P)
  unfolding store_read
  Runs-store_read P = record {
    run = λ w p.
        either {S = World} (λ _. Known P) (Known P) (env.fails w.tick)
          (record w { tick = suc w.tick }) w.tick broken p p;
  }

  -- A call that fails has been carried out or not.
  called :
      (P Q E : About) (change : World → World) (w : World) (t : ℕ) (fails carried : Bool)
      → (Known P w → Known E w)
      → (Known Q (change w) → Known E (change w))
      → Known P w
      → Known Q (change w)
      → Post {A = ℕ}
          (λ _. Known Q)
          (Known E)
          (if fails then (if carried then change w else w, err broken) else (change w, ok t))
  called P Q E change w t true true e f p q = f q
  called P Q E change w t true false e f p q = e p
  called P Q E change w t false carried e f p q = q

  pub Runs-store_call :
      (P Q E : About) (change : World → World)
      → ((w : World) → Known P w → Known Q (change w))
      → ((w : World) → Known P w → Known E w)
      → ((w : World) → Known Q w → Known E w)
      → Runs (Known P) (store_call env change) (λ _. Known Q) (Known E)
  unfolding store_call
  Runs-store_call P Q E change h e f = record {
    run = λ w p.
        let w' = record w { tick = suc w.tick } in
        called P Q E change w' w.tick (env.fails w.tick) (env.carried_out w.tick) (e w')
          (f (change w')) p (h w' p);
  }

module _ {A : Type 0} (env : Env) (P : About) (Q : A → About) where
  Post-committed :
      (w : World) (x : Session × Result FilesFault A)
      → Known P w
      → Post (λ a s. Q a s.tables w.objects w.parts) (λ _. Unit {0}) x
      → Post (λ a. Known (Q a)) (Known P) (committed env w x)
  unfolding committed
  Post-committed w (s, err e) p h = p
  Post-committed w (s, ok a) p h =
      Post-if (λ a. Known (Q a)) (Known P) (env.fails s.tick)
        (record w { tick = suc s.tick }, err broken)
        (record w { tables = s.tables; tick = suc s.tick }, ok a) p h

  -- A transaction that fails leaves what was known before it.
  pub Runs-tx :
      (m : Action Session A)
      → ((w : World)
          → Known P w
          → Runs
              (λ s. s.tables ≡ w.tables)
              m
              (λ a s. Q a s.tables w.objects w.parts)
              (λ _. Unit {0}))
      → Runs (Known P) (tx env m) (λ a. Known (Q a)) (Known P)
  unfolding tx
  Runs-tx m h = record {
    run = λ w p. Post-committed w (m (session_of w)) p ((h w p).run (session_of w) refl);
  }

module _ {A : Type 0} (P : About) (Q : A → About) (E : About) where
  Post-settled :
      (w : World) (x : Session × Result FilesFault A)
      → Post (λ a s. Q a s.tables w.objects w.parts) (λ s. E s.tables w.objects w.parts) x
      → Post (λ a. Known (Q a)) (Known E) (settled w x)
  unfolding settled
  Post-settled w (s, err e) h = h
  Post-settled w (s, ok a) h = h

  pub Runs-alone :
      (m : Action Session A)
      → ((w : World)
          → Known P w
          → Runs
              (λ s. s.tables ≡ w.tables)
              m
              (λ a s. Q a s.tables w.objects w.parts)
              (λ s. E s.tables w.objects w.parts))
      → Runs (Known P) (alone m) (λ a. Known (Q a)) (Known E)
  unfolding alone
  Runs-alone m h = record {
    run = λ w p. Post-settled w (m (session_of w)) ((h w p).run (session_of w) refl);
  }

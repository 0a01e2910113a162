-- ===== src/Db/Migrate/Again.antt =====
-- Running the migrations again.
use stratus_backend.Prelude.{
  ◌≡◌, refl, sym, subst, ◌∙◌, List, [], ◌∷◌, ◌++◌, append-nil, append_assoc, Option, none, arith,
  inl, inr, Bool-cases, All, All-map, All-append, leb→le, le→leb, le→not-ltb,
}
use stratus_backend.Prelude.Int.{
  ℤ, pos, leb_ℤ, max_ℤ, ◌≤ℤ◌, ◌<ℤ◌, max_ℤ_upper, max_ℤ_least, ≤ℤ_trans,
}
use stratus_backend.Db.Migrate.{
  Migration, Engine, Database, MigrateFault, current_version, apply_pending, migrate, unready,
  latest,
}
use stratus_backend.Db.Migrate.Progress.{
  migrate_ready, pending, versions_of, Progress, finished, done, stopped, migrate-Progress,
}

-- What loadMigrations promises: versions from 1 on, each above those before it.
abbrev pub IsAscending : ℤ → List Migration → Type 0
IsAscending low [] = Unit
IsAscending low (m ∷ ms) = (low <ℤ m.version) × IsAscending m.version ms

current-upper : (vs : List ℤ) → All (λ v. v ≤ℤ current_version vs) vs
unfolding current_version
current-upper [] = tt
current-upper (v ∷ []) = (omega arith, tt)
current-upper (v ∷ w ∷ vs) =
    let (a, b) = max_ℤ_upper v (current_version (w ∷ vs)) in
    (a, All-map _ _ (λ u h. ≤ℤ_trans u _ _ h b) (w ∷ vs) (current-upper (w ∷ vs)))

current-least : (vs : List ℤ) (b : ℤ) → pos 0 ≤ℤ b → All (λ v. v ≤ℤ b) vs → current_version vs ≤ℤ b
unfolding current_version
current-least [] b z h = z
current-least (v ∷ []) b z h = h.0
current-least (v ∷ w ∷ vs) b z h =
    max_ℤ_least v (current_version (w ∷ vs)) b h.0 (current-least (w ∷ vs) b z h.1)

latest-upper :
    (low : ℤ) (ms : List Migration) → IsAscending low ms → All (λ m. m.version ≤ℤ latest ms) ms
unfolding latest
latest-upper low [] h = tt
latest-upper low (m ∷ []) h = (omega arith, tt)
latest-upper low (m ∷ n ∷ ms) (a, (b, c)) =
    let ih = latest-upper m.version (n ∷ ms) (b, c) in (omega (arith, ih.0), ih)

All-versions :
    (P : ℤ → Type 0) (current : ℤ) (ms : List Migration)
    → All (λ m. P m.version) ms
    → All P (versions_of (pending current ms))
unfolding pending
All-versions P current [] h = tt
All-versions P current (m ∷ ms) (h, hs) = elim (Bool-cases (leb_ℤ m.version current)) [
  | inl e ↦ rw e (All-versions P current ms hs)
  | inr e ↦ rw e (h, All-versions P current ms hs)
]

current-nonneg : (vs : List ℤ) → All (λ v. pos 0 ≤ℤ v) vs → pos 0 ≤ℤ current_version vs
unfolding current_version
current-nonneg [] h = omega arith
current-nonneg (v ∷ []) h = h.0
current-nonneg (v ∷ w ∷ vs) h =
    ≤ℤ_trans (pos 0) v (max_ℤ v (current_version (w ∷ vs))) h.0
      (max_ℤ_upper v (current_version (w ∷ vs))).0

ascending-nonneg :
    (low : ℤ) (ms : List Migration)
    → pos 0 ≤ℤ low
    → IsAscending low ms
    → All (λ m. pos 0 ≤ℤ m.version) ms
ascending-nonneg low [] z h = tt
ascending-nonneg low (m ∷ ms) z h = (omega arith, ascending-nonneg m.version ms (omega arith) h.1)

-- A migration is at or below a version if the version is at or above the old one and every pending one.
All-below :
    (b current : ℤ) (ms : List Migration)
    → current ≤ℤ b
    → All (λ v. v ≤ℤ b) (versions_of (pending current ms))
    → All (λ m. m.version ≤ℤ b) ms
unfolding pending
All-below b current [] c h = tt
All-below b current (m ∷ ms) c h = elim (Bool-cases (leb_ℤ m.version current)) [
  | inl e ↦ (omega (arith, leb→le _ _ e), All-below b current ms c (rw (e, pending) at h))
  | inr e ↦
      let k : All (λ v. v ≤ℤ b) (m.version ∷ versions_of (pending current ms)) =
        rw (e, pending) at h in
      (k.0, All-below b current ms c k.1)
]

split-All : (P : ℤ → Type 0) (xs ys : List ℤ) → All P (xs ++ ys) → All P xs × All P ys
split-All P [] ys h = (tt, h)
split-All P (x ∷ xs) ys h = let (a, b) = split-All P xs ys h.1 in ((h.0, a), b)

Progress-finished :
    {S : Type 0} {engine : Engine S} (todo : List Migration) (db : Database S)
    (r : Database S × Option MigrateFault)
    → Progress engine todo db r
    → r.1 ≡ none
    → r.0.versions ≡ db.versions ++ versions_of todo
Progress-finished _ _ _ (finished db) h = sym (append-nil db.versions)
Progress-finished _ _ _ (done m todo db s r a p) h =
    Progress-finished todo (record { schema = s; versions = db.versions ++ m.version ∷ [] }) r p h
    ∙ append_assoc db.versions (m.version ∷ []) (versions_of todo)
Progress-finished _ _ _ (stopped m todo db s a) h = cc

module _ {S : Type 0} (engine : Engine S) where
  nothing_pending :
      (c : ℤ) (ms : List Migration) (db : Database S)
      → All (λ m. m.version ≤ℤ c) ms
      → apply_pending engine c ms db ≡ (db, none)
  unfolding apply_pending
  nothing_pending c [] db h = refl
  nothing_pending c (m ∷ ms) db h = rw (le→leb _ _ h.0) (nothing_pending c ms db h.1)

  migrate_settled :
      (ms : List Migration) (db : Database S)
      → unready engine ≡ none
      → All (λ m. m.version ≤ℤ current_version db.versions) ms
      → current_version db.versions ≤ℤ latest ms
      → migrate engine ms db ≡ (db, none)
  migrate_settled ms db r h l =
      rw (migrate_ready engine ms db r, le→not-ltb _ _ l)
        (nothing_pending (current_version db.versions) ms db h)

module _ (ms : List Migration) (vs : List ℤ) (asc : IsAscending (pos 0) ms)
    (old : All (λ v. pos 0 ≤ℤ v) vs) (known : current_version vs ≤ℤ latest ms) where
  abbrev now : List ℤ
  now = vs ++ versions_of (pending (current_version vs) ms)

  settled_below : All (λ m. m.version ≤ℤ current_version now) ms
  settled_below =
      let ws = versions_of (pending (current_version vs) ms) in
      let (a, b) = split-All (λ v. v ≤ℤ current_version now) vs ws (current-upper now) in
      let z = current-nonneg now (
        All-append (λ v. pos 0 ≤ℤ v) vs ws old
          (All-versions (λ v. pos 0 ≤ℤ v) (current_version vs) ms
            (ascending-nonneg (pos 0) ms (omega arith) asc))) in
      All-below (current_version now) (current_version vs) ms
        (current-least vs (current_version now) z a) b

  settled_known : current_version now ≤ℤ latest ms
  settled_known =
      let ws = versions_of (pending (current_version vs) ms) in
      current-least now (latest ms)
        (≤ℤ_trans (pos 0) (current_version vs) (latest ms) (current-nonneg vs old) known)
        (All-append (λ v. v ≤ℤ latest ms) vs ws
          (All-map (λ v. v ≤ℤ current_version vs) (λ v. v ≤ℤ latest ms)
            (λ u h. ≤ℤ_trans u (current_version vs) (latest ms) h known) vs (current-upper vs))
          (All-versions (λ v. v ≤ℤ latest ms) (current_version vs) ms
            (latest-upper (pos 0) ms asc)))

-- Once a run has ended with no error, another run, with whatever engine that lets it read the
-- version, changes nothing and reports no error. The migrations are in the order in which they are loaded, and no recorded version is
-- negative.
pub migrate_again :
    {S : Type 0} (engine engine' : Engine S) (ms : List Migration) (db db' : Database S)
    → IsAscending (pos 0) ms
    → All (λ v. pos 0 ≤ℤ v) db.versions
    → unready engine' ≡ none
    → migrate engine ms db ≡ (db', none)
    → migrate engine' ms db' ≡ (db', none)
migrate_again engine engine' ms db db' asc old ready h = elim (migrate-Progress engine ms db) [
  | inl (f, r, e) ↦ cc
  | inr (inl (l, e)) ↦ cc
  | inr (inr (k, p)) ↦
      let e : db'.versions ≡ db.versions ++ versions_of (pending (current_version db.versions) ms) =
        Progress-finished (pending (current_version db.versions) ms) db (db', none)
          (subst (λ r. Progress engine (pending (current_version db.versions) ms) db r) h p) refl in
      migrate_settled engine' ms db' ready
        (subst (λ v. All (λ m. m.version ≤ℤ current_version v) ms) (sym e)
          (settled_below ms db.versions asc old k))
        (subst (λ v. current_version v ≤ℤ latest ms) (sym e)
          (settled_known ms db.versions asc old k))
]

-- ===== src/Files/Key/Laws.antt =====
-- The names of derived objects, written by DerivedKey and read back by the sweep.
use stratus_backend.Prelude.{
  ℕ, ◌≡◌, refl, sym, ◌∙◌, false, [], ◌∷◌, ◌++◌, none, some, append_assoc, arith, ==_self, ==_ne,
}
use stratus_backend.Prelude.Text.{Bytes, Lacks, cut, cut_prefix, has_prefix}
use stratus_backend.Prelude.Decimal.{format_int, parse_int}
use stratus_backend.Db.Path.{cut_last}
use stratus_backend.Files.Key.{
  derived_prefix, derived_key, leaf_of, cached, stale_generation, parent_of_key, cache_prefix,
}

cut_last-Lacks : (s : Bytes) (sep : ℕ) → Lacks sep s → cut_last s sep ≡ none
unfolding cut_last
cut_last-Lacks [] sep h = refl
cut_last-Lacks (c ∷ s) sep (hc, hs) = rw (cut_last-Lacks s sep hs, ==_ne c sep hc) refl

cut_last-append :
    (a b : Bytes) (sep : ℕ) → Lacks sep b → cut_last (a ++ (sep ∷ b)) sep ≡ some (a, b)
unfolding cut_last
cut_last-append [] b sep h = rw (cut_last-Lacks b sep h, ==_self sep) refl
cut_last-append (c ∷ a) b sep h = rw (cut_last-append a b sep h) refl

-- The last part of a derived key.
abbrev leaf : Bytes → Bytes
leaf name = b'g' ∷ b'1' ∷ b'-' ∷ name

leaf-Lacks : (name : Bytes) → Lacks b'/' name → Lacks b'/' (leaf name)
leaf-Lacks name h =
    ((λ e. ground (arith, e)), ((λ e. ground (arith, e)), ((λ e. ground (arith, e)), h)))

derived_key-eq :
    (parent name : Bytes)
    → derived_key parent name ≡ derived_prefix ++ (parent ++ (b'/' ∷ leaf name))
unfolding derived_key format_int
derived_key-eq parent name = refl

leaf_of-derived_key :
    (parent name : Bytes) → Lacks b'/' name → leaf_of (derived_key parent name) ≡ leaf name
unfolding leaf_of cut_last
leaf_of-derived_key parent name h =
    let e : derived_key parent name ≡ (derived_prefix ++ parent) ++ (b'/' ∷ leaf name) =
      derived_key-eq parent name ∙ sym (append_assoc derived_prefix parent (b'/' ∷ leaf name)) in
    rw (e, cut_last-append (derived_prefix ++ parent) (leaf name) b'/' (leaf-Lacks name h)) refl

parent_read :
    (parent name : Bytes) → Lacks b'/' name → parent_of_key (derived_key parent name) ≡ some parent
unfolding parent_of_key cut_prefix
parent_read parent name h =
    rw
      (
        derived_key-eq parent name,
        parent_of_key,
        cut_last-append parent (leaf name) b'/' (leaf-Lacks name h),
      )
      refl

stale_read : (key name : Bytes) → leaf_of key ≡ leaf name → stale_generation key ≡ false
unfolding stale_generation parse_int cut_prefix cut
stale_read key name e = rw (stale_generation, e) refl

cached_read :
    (key name : Bytes) → leaf_of key ≡ leaf name → cached key ≡ has_prefix name cache_prefix
unfolding cached cut
cached_read key name e = rw (cached, e) refl

-- A name that DerivedKey writes is read back by the sweep: for a name with no slash, the parent is the
-- blob it was made from, the generation is the present one, and it is a cache just when the name
-- begins with the prefix of caches.
pub parent_of_key-derived_key :
    (parent name : Bytes)
    → Lacks b'/' name
    → (parent_of_key (derived_key parent name) ≡ some parent)
      × (stale_generation (derived_key parent name) ≡ false)
      × (cached (derived_key parent name) ≡ has_prefix name cache_prefix)
parent_of_key-derived_key parent name h =
    let e = leaf_of-derived_key parent name h in
    (parent_read parent name h, stale_read _ name e, cached_read _ name e)

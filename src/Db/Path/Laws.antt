-- ===== src/Db/Path/Laws.antt =====
-- What `ValidatePath` and `ValidateMove` accept.
use stratus_backend.Prelude.{
  ℕ, ◌≤◌, ◌≡◌, ◌≢◌, ◌↔◌, inl, inr, refl, List, [], ◌∷◌, none, some, arith, length, All, All-map,
  Option-cases,
}
use stratus_backend.Prelude.Text.{Bytes, codes, split}
use stratus_backend.Prelude.Segments.{
  IsPrintable, has_control-IsPrintable, printable-has_control, beq-ne, ne-beq, no_leading_sep,
  no_trailing_sep, nonempty,
}
use stratus_backend.Prelude.Utf8.{runes}
use stratus_backend.Db.Path.{max_path_len, segment_fault, segments_fault, validate_path}

abbrev pub IsName : Bytes → Type 0
IsName seg = (seg ≢ []) × (seg ≢ codes ".") × (seg ≢ codes "..")

-- A stored path, in terms of the whole text and its parts.
pub record IsPath (path : Bytes) : Type 0 where
  pub utf8 : (rs : List ℕ) × (runes path ≡ some rs) × All IsPrintable rs
  pub fits : length path ≤ max_path_len
  pub segments : All IsName (split path b'/')

segment_ok : (seg : Bytes) → IsName seg → segment_fault seg ≡ none
unfolding segment_fault
segment_ok seg (h₀, h₁, h₂) =
    ground (arith, beq-ne seg [] h₀, beq-ne seg (codes ".") h₁, beq-ne seg (codes "..") h₂)

ok_segment : (seg : Bytes) → segment_fault seg ≡ none → IsName seg
unfolding segment_fault
ok_segment seg h = (
  ne-beq seg [] (ground arith),
  ne-beq seg (codes ".") (ground arith),
  ne-beq seg (codes "..") (ground arith),
)

segments_ok : (segs : List Bytes) → All IsName segs → segments_fault segs ≡ none
unfolding segments_fault
segments_ok [] h = refl
segments_ok (seg ∷ segs) (h, hs) = rw (segment_ok seg h, segments_fault) (segments_ok segs hs)

ok_segments : (segs : List Bytes) → segments_fault segs ≡ none → All IsName segs
unfolding segments_fault
ok_segments [] h = tt
ok_segments (seg ∷ segs) h = elim (Option-cases (segment_fault seg)) [
  | inl e ↦ (ok_segment seg e, ok_segments segs (rw (e, segments_fault) at h))
  | inr (f, e) ↦ cc (rw (e, segments_fault) at h)
]

IsPath-of_none : (path : Bytes) → validate_path path ≡ none → IsPath path
unfolding validate_path
IsPath-of_none path h = elim (Option-cases (runes path)) [
  | inl e ↦ absurd (ground arith)
  | inr (rs, e) ↦ record {
    utf8 = (rs, e, has_control-IsPrintable rs (ground arith));
    fits = ground arith;
    segments = ok_segments (split path b'/') (ground arith);
  }
]

none_of_path : (path : Bytes) → IsPath path → validate_path path ≡ none
unfolding validate_path
none_of_path path k =
    let (rs, e, printable) = k.utf8 in
    let parts = All-map IsName (λ seg. seg ≢ []) (λ seg h. h.0) (split path b'/') k.segments in
    ground (
      arith,
      e,
      printable-has_control rs printable,
      no_leading_sep path b'/' parts,
      no_trailing_sep path b'/' parts,
      segments_ok (split path b'/') k.segments,
      nonempty path b'/' parts,
    )

-- A path is accepted exactly when it is valid UTF-8 with no control character, at most 4096 bytes
-- long, and has no part between slashes that is empty, `.` or `..`.
pub validate_path-none : (path : Bytes) → (validate_path path ≡ none) ↔ IsPath path
validate_path-none path = (IsPath-of_none path, none_of_path path)

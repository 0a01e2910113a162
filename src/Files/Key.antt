-- ===== src/Files/Key.antt =====
-- The names of blobs: internal/files/blobkey.go, and the names of what is derived from them, of
-- internal/files/collect.go.
pub mod Laws
use stratus_backend.Prelude.{
  ℕ, Bool, true, false, not, ◌||◌, ◌&&◌, List, [], ◌∷◌, ◌++◌, Option, none, some, leb, ltb, ◌==◌,
  length, if◌then◌else◌,
}
use stratus_backend.Prelude.Int.{ℤ, pos}
use stratus_backend.Prelude.Text.{Bytes, codes, beq, cut, cut_prefix, has_prefix}
use stratus_backend.Prelude.Decimal.{format_int, parse_int}
use stratus_backend.Db.Path.{ext, cut_last}
use stratus_backend.Files.World.{Env, Kind, kind_image, kind_audio, kind_video, kind_other}

abbrev pub max_ext_len : ℕ
max_ext_len = 8

abbrev is_plain : ℕ → Bool
is_plain c = (leb b'a' c && leb c b'z') || (leb b'0' c && leb c b'9')

unfoldable pub all_plain : Bytes → Bool
all_plain [] = true
all_plain (c ∷ s) = is_plain c && all_plain s

unfoldable pub without_dot : Bytes → Bytes
without_dot e = elim (cut_prefix e (codes ".")) [ none ↦ e | some rest ↦ rest ]

-- extensionOf
unfoldable pub extension_of : Env → Bytes → Bytes
extension_of env name =
    let e = env.to_lower (without_dot (ext name)) in
    if beq e [] || ltb max_ext_len (length e) then [] else if all_plain e then e else []

unfoldable pub is_one_of : List Bytes → Bytes → Bool
is_one_of [] e = false
is_one_of (x ∷ xs) e = beq x e || is_one_of xs e

-- The table by_extension, a list for each kind.
abbrev pub image_extensions : List Bytes
image_extensions =
    codes "jpg"
    ∷ codes "jpeg"
    ∷ codes "png"
    ∷ codes "gif"
    ∷ codes "webp"
    ∷ codes "heic"
    ∷ codes "heif"
    ∷ codes "avif"
    ∷ codes "tif"
    ∷ codes "tiff"
    ∷ codes "bmp"
    ∷ codes "svg"
    ∷ codes "dng"
    ∷ codes "cr2"
    ∷ codes "nef"
    ∷ codes "arw"
    ∷ codes "raf"
    ∷ codes "orf"
    ∷ codes "rw2"
    ∷ []

abbrev pub video_extensions : List Bytes
video_extensions =
    codes "mp4"
    ∷ codes "mov"
    ∷ codes "m4v"
    ∷ codes "mkv"
    ∷ codes "webm"
    ∷ codes "avi"
    ∷ codes "mpg"
    ∷ codes "mpeg"
    ∷ codes "3gp"
    ∷ codes "wmv"
    ∷ codes "flv"
    ∷ codes "ts"
    ∷ []

abbrev pub audio_extensions : List Bytes
audio_extensions =
    codes "mp3"
    ∷ codes "flac"
    ∷ codes "m4a"
    ∷ codes "aac"
    ∷ codes "ogg"
    ∷ codes "oga"
    ∷ codes "opus"
    ∷ codes "wav"
    ∷ codes "wma"
    ∷ codes "aiff"
    ∷ codes "aif"
    ∷ codes "ape"
    ∷ []

abbrev pub document_extensions : List Bytes
document_extensions =
    codes "pdf"
    ∷ codes "epub"
    ∷ codes "txt"
    ∷ codes "md"
    ∷ codes "rtf"
    ∷ codes "csv"
    ∷ codes "doc"
    ∷ codes "docx"
    ∷ codes "xls"
    ∷ codes "xlsx"
    ∷ codes "ppt"
    ∷ codes "pptx"
    ∷ codes "odt"
    ∷ codes "ods"
    ∷ codes "odp"
    ∷ []

unfoldable pub by_extension : Bytes → Bytes
by_extension e =
    if is_one_of image_extensions e
    then codes "image"
    else if is_one_of video_extensions e
    then codes "video"
    else if is_one_of audio_extensions e
    then codes "audio"
    else if is_one_of document_extensions e
    then codes "document"
    else codes "other"

-- kindOf
unfoldable pub kind_of : Bytes → Kind → Bytes
kind_of e kind_image = codes "image"
kind_of e kind_video = codes "video"
kind_of e kind_audio = codes "audio"
kind_of e kind_other = by_extension e

-- newBlobKey at the call `t`.
unfoldable pub new_blob_key : Env → ℕ → Bytes → Kind → Bytes
new_blob_key env t name sniffed =
    let e = extension_of env name in
    kind_of e sniffed
    ++ (codes "/"
        ++ (env.date (env.clock t)
            ++ (codes "/" ++ (env.random t ++ (if beq e [] then [] else codes "." ++ e)))))

abbrev pub derived_prefix : Bytes
derived_prefix = codes "derived/"

abbrev pub cache_prefix : Bytes
cache_prefix = codes "cache-"

abbrev pub backup_prefix : Bytes
backup_prefix = codes "backups/"

abbrev pub derived_generation : ℤ
derived_generation = pos 1

-- DerivedKey, for a name with no slash: with one the source panics.
unfoldable pub derived_key : Bytes → Bytes → Bytes
derived_key parent name =
    derived_prefix
    ++ (parent
        ++ (codes "/" ++ (codes "g" ++ (format_int derived_generation ++ (codes "-" ++ name)))))

-- What stands behind the last slash.
unfoldable pub leaf_of : Bytes → Bytes
leaf_of key = elim (cut_last key b'/') [ none ↦ key | some (dir, leaf) ↦ leaf ]

-- cached
unfoldable pub cached : Bytes → Bool
cached key = elim (cut (leaf_of key) b'-') [
  | none ↦ false
  | some (a, rest) ↦ has_prefix rest cache_prefix
]

-- staleGeneration
unfoldable pub stale_generation : Bytes → Bool
stale_generation key = elim (cut_prefix (leaf_of key) (codes "g")) [
  | none ↦ true
  | some rest ↦ elim (cut rest b'-') [
    | none ↦ true
    | some (digits, name) ↦ elim (parse_int digits) [
      | none ↦ true
      | some (pos n) ↦ not (n == 1)
      | some _ ↦ true
    ]
  ]
]

-- parentOf: `none` for a key that is not derived; the parent of one that names none is empty.
unfoldable pub parent_of_key : Bytes → Option Bytes
parent_of_key key = elim (cut_prefix key derived_prefix) [
  | none ↦ none
  | some rest ↦ elim (cut_last rest b'/') [ none ↦ some [] | some (dir, leaf) ↦ some dir ]
]

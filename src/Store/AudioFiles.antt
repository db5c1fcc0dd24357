-- ===== src/Store/AudioFiles.antt =====
-- The keys of crates/idiolect-adapter-sqlite/src/audio_store.rs: which identifiers and keys
-- FileAudioStore accepts, and the keys that it makes. The files themselves are not modelled.
pub mod Keys
use idiolect.Common.{
  ℕ, Bool, true, false, Option, none, some, List, [], ◌∷◌, ◌++◌, ◌==◌, ◌||◌, ◌&&◌, if◌then◌else◌,
}
use idiolect.Text.{Text, text_eq, is_empty, codes}

pub data FileAudioStoreError : Type 0 where
  invalid_identifier : Text → FileAudioStoreError
  invalid_object_key : Text → FileAudioStoreError

pub data Checked {ℓ} (A : Type ℓ) : Type ℓ where
  ok : A → Checked A
  err : FileAudioStoreError → Checked A

abbrev pub slash : ℕ
slash = b'/'

abbrev pub backslash : ℕ
backslash = 92

abbrev pub dot : Text
dot = b'.' ∷ []

abbrev pub dot_dot : Text
dot_dot = b'.' ∷ b'.' ∷ []

unfoldable pub contains : ℕ → Text → Bool
contains c [] = false
contains c (d ∷ s) = let rest = contains c s in d == c || rest

-- `value.contains("..")`.
unfoldable pub contains_dot_dot : Text → Bool
contains_dot_dot [] = false
contains_dot_dot (c ∷ []) = false
contains_dot_dot (c ∷ d ∷ s) =
    let rest = contains_dot_dot (d ∷ s) in (c == b'.' && d == b'.') || rest

unfoldable pub is_invalid : Text → Bool
unfolding contains contains_dot_dot
is_invalid value =
    is_empty value
    || text_eq value dot
    || contains slash value
    || contains backslash value
    || contains_dot_dot value

unfoldable pub validate_identifier : Text → Checked Text
unfolding is_invalid
validate_identifier value = if is_invalid value then err (invalid_identifier value) else ok value

abbrev pub audio_key_prefix : Text
audio_key_prefix = codes "audio/"

abbrev pub fixture_date_path : Text
fixture_date_path = codes "1970/01/01"

infixl 5 ◌>>=◌
abbrev pub ◌>>=◌ {ℓ κ} : {A : Type ℓ} {B : Type κ} → Checked A → (A → Checked B) → Checked B
ok a >>= f = f a
err e >>= f = err e

abbrev pub under_date : Text → Text → Text
under_date user_id utterance_id =
    fixture_date_path ++ slash ∷ user_id ++ slash ∷ utterance_id ++ codes ".ogg"

unfoldable pub source_object_key : Text → Text → Checked Text
unfolding validate_identifier
source_object_key user_id utterance_id = do
  u ← validate_identifier user_id
  t ← validate_identifier utterance_id
  ok (audio_key_prefix ++ under_date u t)

unfoldable pub strip_prefix : Text → Text → Option Text
strip_prefix [] key = some key
strip_prefix (c ∷ prefix) [] = none
strip_prefix (c ∷ prefix) (d ∷ key) =
    let rest = strip_prefix prefix key in if c == d then rest else none

unfoldable pub prepend : ℕ → List Text → List Text
prepend c [] = (c ∷ []) ∷ []
prepend c (part ∷ parts) = (c ∷ part) ∷ parts

-- `split('/')`: one part more than there are slashes.
unfoldable pub split : Text → List Text
unfolding prepend
split [] = [] ∷ []
split (c ∷ s) = let rest = split s in if c == slash then [] ∷ rest else prepend c rest

abbrev pub is_bad_part : Text → Bool
is_bad_part part = is_empty part || text_eq part dot || text_eq part dot_dot

unfoldable pub any_bad : List Text → Bool
any_bad [] = false
any_bad (part ∷ parts) = let rest = any_bad parts in is_bad_part part || rest

unfoldable pub starts_with_slash : Text → Bool
starts_with_slash [] = false
starts_with_slash (c ∷ s) = c == slash

unfoldable pub is_unsafe : Text → Bool
unfolding starts_with_slash contains split any_bad
is_unsafe relative =
    is_empty relative
    || starts_with_slash relative
    || contains backslash relative
    || any_bad (split relative)

unfoldable pub check_relative : Text → Option Text → Checked Text
unfolding is_unsafe
check_relative key none = err (invalid_object_key key)
check_relative key (some relative) =
    if is_unsafe relative then err (invalid_object_key key) else ok relative

unfoldable pub relative_key : Text → Text → Checked Text
unfolding strip_prefix check_relative
relative_key key prefix = check_relative key (strip_prefix prefix key)

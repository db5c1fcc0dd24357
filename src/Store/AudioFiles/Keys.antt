-- ===== src/Store/AudioFiles/Keys.antt =====
-- Where the keys of crates/idiolect-adapter-sqlite/src/audio_store.rs lead.
use idiolect.Common.{
  ℕ, ◌≡◌, ◌≢◌, refl, sym, ap, ◌∙◌, true, false, List, [], ◌∷◌, ◌++◌, arith, Bool-cases,
  Option-cases, inl, inr, ◌||◌, length, length-append, if◌then◌else◌,
}
use mathlib.Core.List.{append_assoc}
use idiolect.Text.{Text, text_eq, text_eq→eq, is_empty, codes}
use idiolect.Store.Sessions.{audio_path, default_user_id}
use idiolect.Store.AudioFiles.{
  ok, err, invalid_object_key, slash, backslash, dot, dot_dot, contains, contains_dot_dot,
  is_invalid, validate_identifier, audio_key_prefix, under_date, source_object_key, strip_prefix,
  prepend, split, is_bad_part, any_bad, starts_with_slash, is_unsafe, check_relative, relative_key,
}

-- How a file system walks the parts of a path from the directory that was reached: `..` leads to the
-- parent, `.` and an empty part stay. The deepest directory stands first.
unfoldable pub walk_part : List Text → Text → List Text
walk_part [] part =
    if text_eq part dot_dot then [] else if is_empty part || text_eq part dot then [] else part ∷ []
walk_part (d ∷ reached) part =
    if text_eq part dot_dot
    then reached
    else if is_empty part || text_eq part dot
    then d ∷ reached
    else part ∷ d ∷ reached

unfoldable pub walk : List Text → List Text → List Text
unfolding walk_part
walk reached [] = reached
walk reached (part ∷ parts) = walk (walk_part reached part) parts

-- The parts on top of what had been reached.
unfoldable pub descended : List Text → List Text → List Text
descended reached [] = reached
descended reached (part ∷ parts) = descended (part ∷ reached) parts

walk_good :
    (reached : List Text) (part : Text)
    → is_bad_part part ≡ false
    → walk_part reached part ≡ part ∷ reached
unfolding walk_part
walk_good [] part h = ground arith
walk_good (d ∷ reached) part h = ground arith

walk_descends :
    (reached parts : List Text)
    → any_bad parts ≡ false
    → walk reached parts ≡ descended reached parts
unfolding walk descended any_bad
walk_descends reached [] h = refl
walk_descends reached (part ∷ parts) h =
    rw (walk_good reached part (ground arith)) (walk_descends (part ∷ reached) parts (ground arith))

safe_of :
    (key r relative : Text)
    → (if is_unsafe r then err (invalid_object_key key) else ok r) ≡ ok relative
    → any_bad (split relative) ≡ false
unfolding is_unsafe
safe_of key r relative e = let same : relative ≡ r = ground arith in rw same (ground arith)

-- A key that relative_key accepts leads from any root to the directories and the file that its parts
-- name, one below the other, and at no point above the root.
pub relative_key_stays :
    (key prefix relative : Text) (root : List Text)
    → relative_key key prefix ≡ ok relative
    → walk root (split relative) ≡ descended root (split relative)
unfolding relative_key check_relative is_unsafe
relative_key_stays key prefix relative root e = elim (Option-cases (strip_prefix prefix key)) [
  | inl no_prefix ↦ absurd (ground arith)
  | inr (r, found) ↦ walk_descends root (split relative) (safe_of key r relative (ground arith))
]

contains-append : (c : ℕ) (s t : Text) → contains c (s ++ t) ≡ (contains c s || contains c t)
unfolding contains
contains-append c [] t = refl
contains-append c (d ∷ s) t = ground (arith, contains-append c s t)

split-append : (p s : Text) → contains slash p ≡ false → split (p ++ slash ∷ s) ≡ p ∷ split s
unfolding split contains prepend
split-append [] s h = refl
split-append (c ∷ p) s h = ground (arith, split-append p s)

split_whole : (p : Text) → contains slash p ≡ false → split p ≡ p ∷ []
unfolding split contains prepend
split_whole [] h = refl
split_whole (c ∷ p) h = ground (arith, split_whole p)

text_ne_length : (s t : Text) → length s ≢ length t → text_eq s t ≡ false
unfolding text_eq
text_ne_length [] [] h = absurd (h refl)
text_ne_length [] (d ∷ t) h = refl
text_ne_length (c ∷ s) [] h = refl
text_ne_length (c ∷ s) (d ∷ t) h = ground (arith, text_ne_length s t (λ e. h (omega (arith, e))))

not_empty : (t : Text) → is_empty (t ++ codes ".ogg") ≡ false
not_empty [] = refl
not_empty (c ∷ t) = refl

file_name_good : (t : Text) → is_bad_part (t ++ codes ".ogg") ≡ false
file_name_good t =
    rw
      (
        text_ne_length (t ++ codes ".ogg") dot
            (λ e. omega (arith, length-append t (codes ".ogg"), e)),
        text_ne_length (t ++ codes ".ogg") dot_dot
            (λ e. omega (arith, length-append t (codes ".ogg"), e)),
        not_empty t,
      )
      refl

identifier_good : (u : Text) → is_invalid u ≡ false → is_bad_part u ≡ false
unfolding is_invalid contains_dot_dot
identifier_good u h = elim (Bool-cases (text_eq u dot_dot)) [
  | inl same ↦
      let e : contains_dot_dot u ≡ true = rw (text_eq→eq u dot_dot same) refl in
      absurd (ground arith)
  | inr other ↦ ground arith
]

split_date :
    (s : Text) → split (codes "1970/01/01/" ++ s) ≡ codes "1970" ∷ codes "01" ∷ codes "01" ∷ split s
unfolding split prepend
split_date s = refl

no_slash : (u : Text) → is_invalid u ≡ false → contains slash u ≡ false
unfolding is_invalid
no_slash u h = ground arith

no_backslash : (u : Text) → is_invalid u ≡ false → contains backslash u ≡ false
unfolding is_invalid
no_backslash u h = ground arith

file_no_slash : (t : Text) → is_invalid t ≡ false → contains slash (t ++ codes ".ogg") ≡ false
unfolding contains
file_no_slash t h = rw (contains-append slash t (codes ".ogg")) (rw (no_slash t h) refl)

split-under_date :
    (u t : Text)
    → is_invalid u ≡ false
    → is_invalid t ≡ false
    → split (under_date u t) ≡ codes "1970" ∷ codes "01" ∷ codes "01" ∷ u ∷ (t ++ codes ".ogg") ∷ []
split-under_date u t hu ht =
    ap (λ s. split (codes "1970/01/01/" ++ s)) (append_assoc u (slash ∷ t) (codes ".ogg"))
    ∙ split_date (u ++ slash ∷ (t ++ codes ".ogg"))
    ∙ rw (split-append u (t ++ codes ".ogg") (no_slash u hu))
        (rw (split_whole (t ++ codes ".ogg") (file_no_slash t ht)) refl)

backslash-under_date :
    (u t : Text)
    → is_invalid u ≡ false
    → is_invalid t ≡ false
    → contains backslash (under_date u t) ≡ false
unfolding contains
backslash-under_date u t hu ht =
    contains-append backslash (u ++ slash ∷ t) (codes ".ogg")
    ∙ rw (contains-append backslash u (slash ∷ t)) (rw (no_backslash u hu, no_backslash t ht) refl)

parts_good :
    (u name : Text)
    → is_bad_part u ≡ false
    → is_bad_part name ≡ false
    → any_bad (codes "1970" ∷ codes "01" ∷ codes "01" ∷ u ∷ name ∷ []) ≡ false
unfolding any_bad text_eq
parts_good u name hu hn = ground (arith, hu, hn)

is_unsafe_lem :
    (r : Text)
    → is_empty r ≡ false
    → starts_with_slash r ≡ false
    → contains backslash r ≡ false
    → any_bad (split r) ≡ false
    → is_unsafe r ≡ false
unfolding is_unsafe
is_unsafe_lem r a b c d = rw (a, b, c, d) refl

starts-under_date : (u t : Text) → starts_with_slash (under_date u t) ≡ false
unfolding starts_with_slash
starts-under_date u t = refl

safe-under_date :
    (u t : Text) → is_invalid u ≡ false → is_invalid t ≡ false → is_unsafe (under_date u t) ≡ false
safe-under_date u t hu ht =
    is_unsafe_lem (under_date u t) refl (starts-under_date u t) (backslash-under_date u t hu ht) (
      ap any_bad (split-under_date u t hu ht)
      ∙ parts_good u (t ++ codes ".ogg") (identifier_good u hu) (file_name_good t))

accepted :
    (r : Text) → is_unsafe r ≡ false → relative_key (audio_key_prefix ++ r) audio_key_prefix ≡ ok r
unfolding relative_key
accepted r h = rw h refl

-- For valid identifiers, the key that is made for a source audio is accepted, and the part behind its
-- prefix names the five parts 1970, 01, 01, the user and the file.
made_keys_accepted :
    (u t : Text)
    → is_invalid u ≡ false
    → is_invalid t ≡ false
    → (source_object_key u t ≡ ok (audio_key_prefix ++ under_date u t))
      × (relative_key (audio_key_prefix ++ under_date u t) audio_key_prefix ≡ ok (under_date u t))
      × (split (under_date u t)
          ≡ codes "1970" ∷ codes "01" ∷ codes "01" ∷ u ∷ (t ++ codes ".ogg") ∷ [])
unfolding source_object_key validate_identifier
made_keys_accepted u t hu ht = (
  rw (hu, ht) refl,
  accepted (under_date u t) (safe-under_date u t hu ht),
  split-under_date u t hu ht,
)

default_valid : is_invalid default_user_id ≡ false
unfolding is_invalid text_eq
default_valid = refl

stored_path :
    (utterance : Text)
    → audio_path utterance ≡ audio_key_prefix ++ under_date default_user_id utterance
unfolding audio_path
stored_path utterance = refl

-- For every utterance key that is a valid identifier, the path that a new session stores for its
-- utterance is the key under which its audio is deleted, and the key is accepted where the size of
-- the audio is read, the part behind its prefix being the file of the default user.
pub stored_path_is_key :
    (utterance : Text)
    → is_invalid utterance ≡ false
    → (source_object_key default_user_id utterance ≡ ok (audio_path utterance))
      × (relative_key (audio_path utterance) audio_key_prefix
          ≡ ok (under_date default_user_id utterance))
stored_path_is_key utterance h =
    let (made, taken, parts) = made_keys_accepted default_user_id utterance default_valid h in
    (
      made ∙ ap ok (sym (stored_path utterance)),
      ap (λ k. relative_key k audio_key_prefix) (stored_path utterance) ∙ taken,
    )

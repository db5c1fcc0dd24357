-- ===== src/Ime/Session/Editing.antt =====
-- The shadow copy of session.rs against an editor's line: the text before the cursor, nearest
-- character first, and the text behind it.
use mathlib.Core.List.{reverse, reverse-cons, append_assoc, append-nil, reverse-reverse}
use idiolect.Common.{
  ℕ, ◌+◌, ◌≡◌, sym, some, List, [], ◌∷◌, ◌++◌, arith, length, length-append, length-reverse,
  take-append_length, drop-append_length, drop-append_suc-length,
}
use idiolect.Ime.Review.{
  Review, Key, trigger, cancel, backspace, delete, left, right, home, end, char, passthrough,
  remove, insert,
}
use idiolect.Ime.Session.{Session, end_review, on_key_reviewing}

pub record Line : Type 0 where
  pub before : List ℕ
  pub behind : List ℕ

abbrev pub contents : Line → List ℕ
contents l = reverse l.before ++ l.behind

-- What each editing key does to a line; the other keys are not editing keys.
abbrev pub edit : List ℕ → List ℕ → Key → Line
edit (c ∷ b) a left = record { before = b; behind = c ∷ a }
edit b (c ∷ a) right = record { before = c ∷ b; behind = a }
edit b a home = record { before = []; behind = reverse b ++ a }
edit b a end = record { before = reverse (reverse b ++ a); behind = [] }
edit (c ∷ b) a backspace = record { before = b; behind = a }
edit b (c ∷ a) delete = record { before = b; behind = a }
edit b a (char c) = record { before = c ∷ b; behind = a }
edit b a _ = record { before = b; behind = a }

-- The shadow copy holds the line, with the cursor between its halves.
abbrev pub Represents : Review → List ℕ → List ℕ → Type 0
Represents r b a = (r.chars ≡ reverse b ++ a) × (r.cursor ≡ length b)

abbrev RepresentsLine : Review → Line → Type 0
RepresentsLine r l = (r.chars ≡ contents l) × (r.cursor ≡ length l.before)

length-line : (b a : List ℕ) → length (reverse b ++ a) ≡ length b + length a
length-line b a = omega (arith, length-append (reverse b) a, length-reverse b)

reverse-cons_append : (c : ℕ) (b a : List ℕ) → reverse (c ∷ b) ++ a ≡ reverse b ++ c ∷ a
reverse-cons_append c b a = rw (reverse-cons c b) (append_assoc (reverse b) (c ∷ []) a)

remove_before : (c : ℕ) (b a : List ℕ) → remove (reverse (c ∷ b) ++ a) (length b) ≡ reverse b ++ a
unfolding remove
remove_before c b a = rw (
  reverse-cons_append c b a,
  take-append_length (length b) (reverse b) (c ∷ a) (sym (length-reverse b)),
  drop-append_suc-length (length b) (reverse b) a c (sym (length-reverse b)),
)

remove_behind : (c : ℕ) (b a : List ℕ) → remove (reverse b ++ c ∷ a) (length b) ≡ reverse b ++ a
unfolding remove
remove_behind c b a = rw (
  take-append_length (length b) (reverse b) (c ∷ a) (sym (length-reverse b)),
  drop-append_suc-length (length b) (reverse b) a c (sym (length-reverse b)),
)

insert_here : (c : ℕ) (b a : List ℕ) → insert (reverse b ++ a) (length b) c ≡ reverse (c ∷ b) ++ a
unfolding insert
insert_here c b a = rw (
  take-append_length (length b) (reverse b) a (sym (length-reverse b)),
  drop-append_length (length b) (reverse b) a (sym (length-reverse b)),
  reverse-cons_append c b a,
)

-- Where the shadow copy represents the application's line, cursor included, and the correction
-- window stays open over a key, the shadow copy after it represents the line that the key makes of
-- the application's.
pub on_key_reviewing-edit :
    (s : Session) (r r' : Review) (k : Key) (b a : List ℕ)
    → s.review ≡ some r
    → Represents r b a
    → (on_key_reviewing s r k).0.review ≡ some r'
    → Represents r' (edit b a k).before (edit b a k).behind
unfolding on_key_reviewing end_review
on_key_reviewing-edit s r r' left [] a e h o = ground arith
on_key_reviewing-edit s r r' left (c ∷ b) a e h o = ground (arith, reverse-cons_append c b a)
on_key_reviewing-edit s r r' right b [] e h o = ground (arith, length-line b [])
on_key_reviewing-edit s r r' right b (c ∷ a) e h o =
    ground (arith, length-line b (c ∷ a), reverse-cons_append c b a)
on_key_reviewing-edit s r r' home b a e h o = ground arith
on_key_reviewing-edit s r r' end b a e h o = ground (
  arith,
  length-reverse (reverse b ++ a),
  reverse-reverse (reverse b ++ a),
  append-nil (reverse b ++ a),
)
on_key_reviewing-edit s r r' backspace [] a e h o = ground arith
on_key_reviewing-edit s r r' backspace (c ∷ b) a e h o = ground (arith, remove_before c b a)
on_key_reviewing-edit s r r' delete b [] e h o = ground (arith, length-line b [])
on_key_reviewing-edit s r r' delete b (c ∷ a) e h o =
    ground (arith, length-line b (c ∷ a), remove_behind c b a)
on_key_reviewing-edit s r r' (char c) b [] e h o =
    ground (arith, length-line b [], reverse-cons_append c b [], append-nil (reverse b))
on_key_reviewing-edit s r r' (char c) b (d ∷ a) e h o =
    ground (arith, length-line b (d ∷ a), insert_here c b (d ∷ a))
on_key_reviewing-edit s r r' trigger b a e h o = absurd (ground arith)
on_key_reviewing-edit s r r' cancel b a e h o = absurd (ground arith)
on_key_reviewing-edit s r r' passthrough b a e h o = absurd (ground arith)

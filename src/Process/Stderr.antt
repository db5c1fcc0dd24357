-- ===== src/Process/Stderr.antt =====
-- What crates/idiolect-process/src/lib.rs keeps of a helper's stderr.
use idiolect.Common.{
  All, All-append, ◌==◌, ◌||◌, ℕ, ◌+◌, ◌-◌, ◌≤◌, ◌<◌, ◌≡◌, refl, sym, ap, ◌∙◌, Bool, true, false,
  ◌⊎◌, inl, inr, List, [], ◌∷◌, ◌++◌, arith, ltb, leb, length, take, drop, if◌then◌else◌,
  Bool-cases, length-append, length-drop, drop-append_le, drop-drop, take-append-drop,
}
use mathlib.Core.List.{append_assoc, append-nil}
use mathlib.Core.Path.{subst}
use idiolect.Text.{Text}
use idiolect.Streaming.Decisions.{trim}
use idiolect.Process.{
  Read, end_of_file, interrupted, broken, bytes, CapturedStderr, max_stderr_bytes, without_excess,
  drain_from, drain_stderr, escape_char, escape_markup, truncate_keeping_tail,
}

-- The bytes read before the end of the file or an error that is not an interruption.
abbrev pub bytes_read : List Read → List ℕ
bytes_read [] = []
bytes_read (end_of_file ∷ reads) = []
bytes_read (interrupted ∷ reads) = bytes_read reads
bytes_read (broken ∷ reads) = []
bytes_read (bytes read ∷ reads) = read ++ bytes_read reads

abbrev pub last_bytes : List ℕ → List ℕ
last_bytes xs = drop (length xs - max_stderr_bytes) xs

without_excess_lem : (xs : List ℕ) → without_excess xs ≡ last_bytes xs
without_excess_lem xs = elim (Bool-cases (ltb max_stderr_bytes (length xs))) [
  | inl long ↦ rw long refl
  | inr short ↦ let e : length xs - max_stderr_bytes ≡ 0 = ground arith in rw (short, e) refl
]

last_bytes-append : (xs ys : List ℕ) → last_bytes (last_bytes xs ++ ys) ≡ last_bytes (xs ++ ys)
last_bytes-append xs ys =
    let n = length xs - max_stderr_bytes in
    let e : n + (length (drop n xs ++ ys) - max_stderr_bytes)
        ≡ length (xs ++ ys) - max_stderr_bytes =
      omega (arith, length-append (drop n xs) ys, length-append xs ys, length-drop n xs) in
    ap (drop (length (drop n xs ++ ys) - max_stderr_bytes))
      (sym (drop-append_le n xs ys (omega arith)))
    ∙ drop-drop (length (drop n xs ++ ys) - max_stderr_bytes) n (xs ++ ys)
    ∙ ap (λ m. drop m (xs ++ ys)) e

length-last_bytes :
    (xs ys : List ℕ) (b : Bool)
    → b ≡ ltb max_stderr_bytes (length xs)
    → (if ltb max_stderr_bytes (length (last_bytes xs ++ ys)) then true else b)
      ≡ ltb max_stderr_bytes (length (xs ++ ys))
length-last_bytes xs ys b e = ground (
  arith,
  length-append (last_bytes xs) ys,
  length-append xs ys,
  length-drop (length xs - max_stderr_bytes) xs,
)

module _ (from_utf8_lossy : List ℕ → Text) where
  abbrev pub captured : List ℕ → CapturedStderr
  captured xs = record {
    text = trim (from_utf8_lossy (last_bytes xs));
    truncated = ltb max_stderr_bytes (length xs);
  }

  drain_from_lem :
      (xs : List ℕ) (reads : List Read)
      → drain_from from_utf8_lossy
          (last_bytes xs)
          (ltb max_stderr_bytes (length xs))
          (captured xs)
          reads
        ≡ captured (xs ++ bytes_read reads)
  unfolding drain_from
  drain_from_lem xs [] = ap captured (sym (append-nil xs))
  drain_from_lem xs (end_of_file ∷ reads) = ap captured (sym (append-nil xs))
  drain_from_lem xs (interrupted ∷ reads) = drain_from_lem xs reads
  drain_from_lem xs (broken ∷ reads) = ap captured (sym (append-nil xs))
  drain_from_lem xs (bytes read ∷ reads) =
      rw
        (
          without_excess_lem (last_bytes xs ++ read),
          last_bytes-append xs read,
          length-last_bytes xs read (ltb max_stderr_bytes (length xs)) refl,
        )
        (drain_from_lem (xs ++ read) reads ∙ ap captured (append_assoc xs read (bytes_read reads)))

  -- However the bytes arrive and whatever signals interrupt the reads, what is kept at the end is
  -- the text of the last 16384 bytes that came before the end of the file or an error, and it is
  -- marked as truncated exactly when there were more. A decoding that gives no text for no bytes
  -- is assumed.
  pub drain_stderr_lem :
      (reads : List Read)
      → from_utf8_lossy [] ≡ []
      → drain_stderr from_utf8_lossy reads ≡ captured (bytes_read reads)
  unfolding drain_stderr trim
  drain_stderr_lem reads e =
      subst
        (λ t.
          drain_from from_utf8_lossy [] false (record { text = t; truncated = false }) reads
          ≡ captured (bytes_read reads))
        (ap trim e) (drain_from_lem [] reads)

-- A text that fits is shown whole; of a longer one the end is shown, of just the given length,
-- behind an ellipsis.
pub truncate_keeping_tail-suffix :
    (text : Text) (n : ℕ)
    → ((truncate_keeping_tail text n ≡ text) × (length text ≤ n))
      ⊎ ((p : Text) × (q : Text) × (text ≡ p ++ q)
          × (length q ≡ n)
          × (n < length text)
          × (truncate_keeping_tail text n ≡ 0x2026 ∷ q))
unfolding truncate_keeping_tail
truncate_keeping_tail-suffix text n = elim (Bool-cases (leb (length text) n)) [
  | inl fits ↦ inl (rw fits refl, ground arith)
  | inr long ↦ inr (
    take (length text - n) text,
    drop (length text - n) text,
    sym (take-append-drop (length text - n) text),
    ground (arith, length-drop (length text - n) text),
    ground arith,
    rw long refl,
  )
]

abbrev pub IsPlain : ℕ → Type 0
IsPlain c = (c == b'<' || c == b'>') ≡ false

escape_char-IsPlain : (c : ℕ) → All IsPlain (escape_char c)
escape_char-IsPlain c = ground arith

-- Escaped text opens and closes no tag: it has neither of the two brackets.
pub escape_markup-IsPlain : (text : Text) → All IsPlain (escape_markup text)
unfolding escape_markup
escape_markup-IsPlain [] = tt
escape_markup-IsPlain (c ∷ text) =
    All-append IsPlain (escape_char c) (escape_markup text) (escape_char-IsPlain c)
      (escape_markup-IsPlain text)

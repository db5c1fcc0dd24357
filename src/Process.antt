-- ===== src/Process.antt =====
-- crates/idiolect-process/src/lib.rs: what is kept of a helper's stderr, and how it is shown. The
-- results of `read` are given in order; the decoding of bytes is a parameter. Threads, the spawning
-- of helpers and the notifier are not modelled.
pub mod Stderr
mod Examples
use idiolect.Common.{
  ℕ, ◌-◌, ◌*◌, Bool, true, false, List, [], ◌∷◌, ◌++◌, ltb, leb, ◌==◌, length, drop, if◌then◌else◌,
}
use idiolect.Text.{Text}
use idiolect.Streaming.Decisions.{trim}

abbrev pub max_stderr_bytes : ℕ
max_stderr_bytes = 16 * 1024

-- What one `read` gives: the end of the file, bytes, an interruption by a signal, another error.
pub data Read : Type 0 where
  end_of_file interrupted broken : Read
  bytes : List ℕ → Read

pub record CapturedStderr : Type 0 where
  pub text : Text
  pub truncated : Bool

-- `retained.drain(..excess)` where there is an excess.
abbrev pub without_excess : List ℕ → List ℕ
without_excess retained =
    if ltb max_stderr_bytes (length retained)
    then drop (length retained - max_stderr_bytes) retained
    else retained

module _ (from_utf8_lossy : List ℕ → Text) where
  -- The loop, with what it shared so far.
  unfoldable pub drain_from : List ℕ → Bool → CapturedStderr → List Read → CapturedStderr
  drain_from retained truncated shared [] = shared
  drain_from retained truncated shared (end_of_file ∷ reads) = shared
  drain_from retained truncated shared (interrupted ∷ reads) =
      drain_from retained truncated shared reads
  drain_from retained truncated shared (broken ∷ reads) = shared
  drain_from retained truncated shared (bytes read ∷ reads) =
      let kept = without_excess (retained ++ read) in
      let cut = if ltb max_stderr_bytes (length (retained ++ read)) then true else truncated in
      drain_from kept cut (record { text = trim (from_utf8_lossy kept); truncated = cut }) reads

  unfoldable pub drain_stderr : List Read → CapturedStderr
  drain_stderr reads = drain_from [] false (record { text = []; truncated = false }) reads

unfoldable pub truncate_keeping_tail : Text → ℕ → Text
truncate_keeping_tail text max_chars =
    let total = length text in
    if leb total max_chars then text else 0x2026 ∷ drop (total - max_chars) text

-- "&amp;", "&lt;" and "&gt;".
abbrev pub escape_char : ℕ → Text
escape_char c =
    if c == b'&'
    then b'&' ∷ b'a' ∷ b'm' ∷ b'p' ∷ b';' ∷ []
    else if c == b'<'
    then b'&' ∷ b'l' ∷ b't' ∷ b';' ∷ []
    else if c == b'>'
    then b'&' ∷ b'g' ∷ b't' ∷ b';' ∷ []
    else c ∷ []

unfoldable pub escape_markup : Text → Text
escape_markup [] = []
escape_markup (c ∷ text) = escape_char c ++ escape_markup text

-- ===== src/Process/Examples.antt =====
-- Runs of the process crate's capture at concrete reads.
use idiolect.Common.{ℕ, ◌≡◌, refl, List, [], ◌∷◌}
use idiolect.Text.{Text}
use idiolect.Process.{Read, bytes, interrupted, end_of_file, drain_stderr}
use idiolect.Process.Stderr.{captured, drain_stderr_lem}

-- ASCII bytes are their own text.
abbrev ascii : List ℕ → Text
ascii s = s

abbrev reads : List Read
reads = bytes (b'n' ∷ []) ∷ interrupted ∷ bytes (b'o' ∷ []) ∷ end_of_file ∷ []

drain_stderr_lem_example : drain_stderr ascii reads ≡ captured ascii (b'n' ∷ b'o' ∷ [])
drain_stderr_lem_example = drain_stderr_lem ascii reads refl

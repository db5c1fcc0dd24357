-- ===== src/Store/Candidates/Eviction.antt =====
-- evict_captured_audio_over_cap of crates/idiolect-adapter-sqlite/src/repository.rs.
pub mod Bounds
use idiolect.Common.{
  ℕ, suc, ◌+◌, ◌-◌, Bool, true, false, Option, none, some, List, [], ◌∷◌, leb, ltb, if◌then◌else◌,
  ◌||◌,
}
use idiolect.Text.{Text}
use idiolect.Store.{evicted, Db, audio_delete, Reply, ok, err}
use idiolect.Store.Table.{update, insert}
use idiolect.Store.Candidates.{
  ManifestV2TrainingCandidate, with_status, set_status, training_candidates_pending_sync,
}

-- What the audio files are for the repository: the sizes under their keys, and which deletions fail.
pub record FileAudioStore : Type 0 where
  pub source_audio_size_by_key : Text → Option ℕ
  pub delete_source_audio_for : Text → Text → Bool

abbrev pub u64_max : ℕ
u64_max = 18446744073709551615

unfoldable pub saturating_add : ℕ → ℕ → ℕ
saturating_add a b = if ltb u64_max (a + b) then u64_max else a + b

-- The sizes of the pending candidates, and their total.
unfoldable pub sized :
    FileAudioStore
    → List ManifestV2TrainingCandidate
    → ℕ
    → Option (List (ManifestV2TrainingCandidate × ℕ) × ℕ)
unfolding saturating_add
sized store [] total = some ([], total)
sized store (c ∷ pending) total = elim (store.source_audio_size_by_key c.audio_object_key) [
  | none ↦ none
  | some size ↦ elim (sized store pending (saturating_add total size)) [
    | none ↦ none
    | some (rest, sum) ↦ some ((c, size) ∷ rest, sum)
  ]
]

-- The database and the audio that is left are changed one candidate at a time.
pub record Evicting : Type 0 where
  pub db : Db
  pub deleted : List (Text × Text)
  pub evicted_count : ℕ
  pub total : ℕ
  pub failed : Bool

unfoldable pub evict_one : FileAudioStore → ManifestV2TrainingCandidate → ℕ → Evicting → Evicting
unfolding update set_status
evict_one store c size e =
    let db' = with_status c.training_candidate_id evicted e.db in
    if store.delete_source_audio_for c.user_id c.utterance_id
    then record e {
      db = db';
      deleted = insert (c.user_id, c.utterance_id) e.deleted;
      total = e.total - size;
      evicted_count = suc e.evicted_count;
    }
    else record e { db = db'; failed = true }

unfoldable pub evict_loop :
    FileAudioStore → ℕ → List (ManifestV2TrainingCandidate × ℕ) → Evicting → Evicting
unfolding evict_one
evict_loop store cap [] e = e
evict_loop store cap ((c, size) ∷ rest) e =
    let next = evict_loop store cap rest (evict_one store c size e) in
    if leb e.total cap || e.failed then e else next

abbrev pub start : Db → ℕ → Evicting
start db total = record { db = db; deleted = []; evicted_count = 0; total = total; failed = false }

-- The result, the database, and the audio that has been deleted.
unfoldable pub evict_sized :
    FileAudioStore
    → ℕ
    → Option (List (ManifestV2TrainingCandidate × ℕ) × ℕ)
    → Db
    → Reply ℕ × Db × List (Text × Text)
unfolding evict_loop
evict_sized store cap none db = (err audio_delete, db, [])
evict_sized store cap (some (candidates, total)) db =
    let e = evict_loop store cap candidates (start db total) in
    (if e.failed then err audio_delete else ok e.evicted_count, e.db, e.deleted)

unfoldable pub evict_captured_audio_over_cap :
    Text → ℕ → FileAudioStore → Db → Reply ℕ × Db × List (Text × Text)
unfolding training_candidates_pending_sync sized evict_sized
evict_captured_audio_over_cap user_id cap store db =
    evict_sized store cap (sized store (training_candidates_pending_sync user_id db) 0) db

-- ===== src/Store/Candidates/Shipping.antt =====
-- The candidates that leave the feeds of crates/idiolect-adapter-sqlite/src/repository.rs:
-- mark_synced_and_drop_audio and reject_training_candidate; and the digests of the audio.
use idiolect.Common.{
  ℕ, ◌≡◌, refl, Bool, true, false, Option, none, some, List, [], ◌∷◌, arith, Bool-cases, inl, inr,
  ltb, ◌==◌, ◌&&◌, if◌then◌else◌,
}
use idiolect.Text.{Text, text_eq}
use idiolect.Store.{
  Db, Reply, ok, err, not_found, audio_delete, decimal, Session, Utterance, Candidate,
  CandidateStatus, synced, find_session,
}
use idiolect.Store.Table.{first, count, update}
use idiolect.Store.Candidates.{
  ManifestV2TrainingCandidate, is_candidate, with_status, set_status, joined, add_row, collect_rows,
  collect_candidates, not_excluded, is_captured, has_utterance_id,
  training_candidates_for_manifest_v2, training_candidates_pending_sync,
  user_data_deleted_event_count,
}
use idiolect.Store.Candidates.Eviction.{FileAudioStore}

-- The status is changed first: if the file cannot be deleted, the candidate has left the outbox.
unfoldable pub ship_candidate :
    FileAudioStore → ℕ → Candidate → Option Session → Db → Reply (Unit {0}) × Db
unfolding update set_status
ship_candidate store id c none db = (err (not_found (decimal id)), db)
ship_candidate store id c (some s) db = (
  if store.delete_source_audio_for s.user_id c.utterance_id then ok tt else err audio_delete,
  with_status id synced db,
)

unfoldable pub ship_found : FileAudioStore → ℕ → Option Candidate → Db → Reply (Unit {0}) × Db
unfolding ship_candidate find_session
ship_found store id none db = (err (not_found (decimal id)), db)
ship_found store id (some c) db = ship_candidate store id c (find_session c.session_id db) db

unfoldable pub mark_synced_and_drop_audio : FileAudioStore → ℕ → Db → Reply (Unit {0}) × Db
unfolding first ship_found
mark_synced_and_drop_audio store id db =
    ship_found store id (first (is_candidate id) db.training_candidates) db

unfoldable pub set_digest : Text → Utterance → Utterance
set_digest digest u = record u { audio_sha256 = some digest }

unfoldable pub set_audio_digest : Text → Text → Db → Reply (Unit {0}) × Db
unfolding count update set_digest
set_audio_digest utterance_id digest db =
    if count (has_utterance_id utterance_id) db.utterances == 0
    then (err (not_found utterance_id), db)
    else (
      ok tt,
      record db {
        utterances = update (has_utterance_id utterance_id) (set_digest digest) db.utterances;
      },
    )

unfoldable pub is_digest : Text → Option Text → Bool
is_digest digest none = false
is_digest digest (some d) = text_eq d digest

unfoldable pub has_utterance_with_digest : Text → Text → Db → Bool
unfolding count is_digest
has_utterance_with_digest user_id digest db =
    ltb 0 (count (λ u. text_eq u.user_id user_id && is_digest digest u.audio_sha256) db.utterances)

abbrev pub is_about : ℕ → ManifestV2TrainingCandidate → Bool
is_about id m = m.training_candidate_id == id

joined-id :
    (u : Text) (db : Db) (c : Candidate) (m : ManifestV2TrainingCandidate)
    → joined u db c ≡ some m
    → m.training_candidate_id ≡ c.id
unfolding joined
joined-id u db c m e = ground arith

add_row_without :
    (id : ℕ) (keep : Bool) (o : Option ManifestV2TrainingCandidate)
    (rest : List ManifestV2TrainingCandidate)
    → ((m : ManifestV2TrainingCandidate) → keep ≡ true → o ≡ some m → is_about id m ≡ false)
    → count (is_about id) rest ≡ 0
    → count (is_about id) (add_row keep o rest) ≡ 0
unfolding count add_row
add_row_without id false o rest h e = e
add_row_without id true none rest h e = e
add_row_without id true (some m) rest h e = rw (h m refl refl) (omega (arith, e))

marked_without :
    (u : Text) (keep : CandidateStatus → Bool) (s : CandidateStatus) (id : ℕ) (db : Db)
    (c : Candidate) (m : ManifestV2TrainingCandidate)
    → keep s ≡ false
    → keep (if is_candidate id c then set_status s c else c).status ≡ true
    → joined u db (if is_candidate id c then set_status s c else c) ≡ some m
    → is_about id m ≡ false
unfolding set_status
marked_without u keep s id db c m h kept e =
    ground (arith, joined-id u db (if is_candidate id c then set_status s c else c) m e)

-- A row whose candidate has a status that a feed leaves out is not in the feed.
collect_rows_without :
    (u : Text) (keep : CandidateStatus → Bool) (s : CandidateStatus) (id : ℕ) (db : Db)
    (rows : List Candidate)
    → keep s ≡ false
    → count (is_about id) (collect_rows u keep db (update (is_candidate id) (set_status s) rows))
      ≡ 0
unfolding collect_rows count update
collect_rows_without u keep s id db [] h = refl
collect_rows_without u keep s id db (c ∷ rows) h =
    let c' = if is_candidate id c then set_status s c else c in
    add_row_without id (keep c'.status) (joined u db c')
      (collect_rows u keep db (update (is_candidate id) (set_status s) rows))
      (λ m kept e. marked_without u keep s id db c m h kept e)
      (collect_rows_without u keep s id db rows h)

collect_without :
    (u : Text) (keep : CandidateStatus → Bool) (s : CandidateStatus) (id : ℕ) (db : Db)
    → keep s ≡ false
    → count (is_about id) (collect_candidates u keep (with_status id s db)) ≡ 0
unfolding collect_candidates count
collect_without u keep s id db h =
    elim (Bool-cases (ltb 0 (user_data_deleted_event_count u (with_status id s db)))) [
      | inl gone ↦ rw gone refl
      | inr there ↦
          rw there (collect_rows_without u keep s id (with_status id s db) db.training_candidates h)
    ]

synced_status :
    (store : FileAudioStore) (id : ℕ) (db : Db) (c : Candidate) (s : Session)
    → first (is_candidate id) db.training_candidates ≡ some c
    → find_session c.session_id db ≡ some s
    → (mark_synced_and_drop_audio store id db).1 ≡ with_status id synced db
unfolding mark_synced_and_drop_audio ship_found ship_candidate
synced_status store id db c s found of_session = ground (arith, found, of_session)

-- Once a candidate that exists with its session has been marked as synced, whether its audio could be
-- deleted or not, it is neither in the sync outbox nor in the manifest feed of any user.
pub shipped_leaves :
    (store : FileAudioStore) (id : ℕ) (u : Text) (db : Db) (c : Candidate) (s : Session)
    → first (is_candidate id) db.training_candidates ≡ some c
    → find_session c.session_id db ≡ some s
    → (count
          (is_about id)
          (training_candidates_pending_sync u (mark_synced_and_drop_audio store id db).1)
        ≡ 0)
      × (count
            (is_about id)
            (training_candidates_for_manifest_v2 u (mark_synced_and_drop_audio store id db).1)
          ≡ 0)
unfolding training_candidates_pending_sync training_candidates_for_manifest_v2 is_captured
    not_excluded
shipped_leaves store id u db c s found of_session =
    rw (synced_status store id db c s found of_session) (
      collect_without u is_captured synced id db refl,
      collect_without u not_excluded synced id db refl,
    )

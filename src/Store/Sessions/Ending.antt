-- ===== src/Store/Sessions/Ending.antt =====
-- commit_session and cancel_session of crates/idiolect-adapter-sqlite/src/repository.rs.
use idiolect.Common.{ℕ, suc, Bool, true, false, Option, none, some, [], if◌then◌else◌}
use idiolect.Text.{Text, text_eq, codes}
use idiolect.Store.{
  SessionState, session_committed, session_cancelled, ime_text_session, accepted_without_edit,
  accepted_with_edit, CandidateStatus, HistoryState, Session, Utterance, Candidate, Db, backend,
  Reply, ok, err, Tx, ◌>>=◌, ◌>>◌, run, transaction, or_not_found, once, create_event, find_session,
  is_committed_state,
}
use idiolect.Store.Table.{first, update, insert}
use idiolect.Store.Sessions.{Setup, encode_history_text, update_session}

unfoldable pub set_committed : Text → ℕ → Session → Session
set_committed text now s = record s {
  committed_text = some text;
  state = SessionState.committed;
  session_state = SessionState.committed;
  committed_at = some now;
  final_preedit_text = some text;
}

abbrev pub coalesce : Option Text → Text → Text
coalesce none t = t
coalesce (some t) u = t

unfoldable pub set_raw_text : Text → Utterance → Utterance
set_raw_text raw u = record u { raw_stt_text = some (coalesce u.raw_stt_text raw) }

-- The index on the candidates' idempotency keys is unique.
unfoldable pub insert_candidate : Candidate → Tx (Unit {0})
unfolding first
insert_candidate c db =
    elim (first (λ d. text_eq d.idempotency_key c.idempotency_key) db.training_candidates) [
      | some _ ↦ err backend
      | none ↦ ok (
        tt,
        record db {
          candidate_seq = suc db.candidate_seq;
          training_candidates =
              insert (record c { id = suc db.candidate_seq }) db.training_candidates;
        },
      )
    ]

unfoldable pub insert_history : Text → Text → HistoryState → ℕ → Db → Db
insert_history key text state now db = record db {
  history_seq = suc db.history_seq;
  ime_text_history =
      insert
        record {
          id = suc db.history_seq;
          session_id = key;
          text = text;
          state = state;
          created_at = now;
        }
        db.ime_text_history;
}

-- The statements of a commit, after the session's row has been read.
unfoldable pub write_commit : Text → Session → Text → Text → Text → Text → ℕ → Tx (Unit {0})
unfolding create_event update set_committed set_raw_text insert_candidate insert_history
    is_committed_state
write_commit key s raw text history_text idempotency_key now = do
  create_event ime_text_session key session_committed text idempotency_key
  run (update_session key (set_committed text now))
  run λ db. record db {
    utterances = update (λ u. text_eq u.id s.utterance_id) (set_raw_text raw) db.utterances;
  }
  insert_candidate record {
    id = 0;
    session_id = key;
    utterance_id = s.utterance_id;
    raw_text = raw;
    corrected_text = text;
    candidate_transcript = text;
    source = if text_eq text raw then accepted_without_edit else accepted_with_edit;
    status = CandidateStatus.captured;
    idempotency_key = idempotency_key;
  }
  run λ db.
      if is_committed_state s.state
      then db
      else insert_history key history_text HistoryState.committed now db

unfoldable pub commit_new : Text → Text → Text → Text → ℕ → Tx (Unit {0})
unfolding find_session write_commit
commit_new key text history_text idempotency_key now db =
    (do
      s ← or_not_found key (find_session key db)
      raw ← or_not_found key s.raw_stt_text
      write_commit key s raw text history_text idempotency_key now)
      db

unfoldable pub commit_session : Setup → ℕ → Text → Text → Text → ℕ → Db → Reply (Unit {0}) × Db
unfolding encode_history_text once commit_new
commit_session p nonce session_id text key now = transaction (do
  h ← encode_history_text p nonce text
  once key session_committed text (commit_new (p.session_key session_id) text h key now))

unfoldable pub set_cancelled : ℕ → Session → Session
unfolding is_committed_state
set_cancelled now s = if is_committed_state s.state then s else record s {
  state = SessionState.cancelled;
  session_state = SessionState.cancelled;
  cancelled_at = some now;
}

abbrev pub cancel_payload : Text
cancel_payload = codes "cancelled"

unfoldable pub should_record : SessionState → Bool
should_record SessionState.created = true
should_record s = false

unfoldable pub cancel_new : Text → Text → Text → ℕ → Tx (Unit {0})
unfolding find_session create_event update set_cancelled insert_history should_record
cancel_new key history_text idempotency_key now db =
    (do
      s ← or_not_found key (find_session key db)
      create_event ime_text_session key session_cancelled cancel_payload idempotency_key
      run (update_session key (set_cancelled now))
      run λ db.
          if should_record s.state
          then insert_history key history_text HistoryState.cancelled now db
          else db)
      db

unfoldable pub cancel_session : Setup → ℕ → Text → Text → ℕ → Db → Reply (Unit {0}) × Db
unfolding encode_history_text once cancel_new
cancel_session p nonce session_id key now = transaction (do
  h ← encode_history_text p nonce []
  once key session_cancelled cancel_payload (cancel_new (p.session_key session_id) h key now))

-- ===== src/Store/Sessions/Amending.antt =====
-- amend_correction of crates/idiolect-adapter-sqlite/src/repository.rs.
use idiolect.Common.{ℕ, ◌+◌, Bool, some, List, [], ◌∷◌, leb, if◌then◌else◌, ◌&&◌}
use idiolect.Text.{Text, text_eq}
use idiolect.Store.{
  accepted_with_edit, Session, EditEvent, Candidate, HistoryRow, Db, Reply, ok, ◌>>=◌, ◌>>◌, run,
  transaction, has_id, in_session, is_committed_row,
}
use idiolect.Store.Table.{update, insert}
use idiolect.Store.Sessions.{Setup, encode_history_text, session_exists}

-- COALESCE(MAX(event_index), 0) of the session's edits.
unfoldable pub last_index : Text → List EditEvent → ℕ
last_index key [] = 0
last_index key (e ∷ edits) =
    let rest = last_index key edits in
    if text_eq e.session_id key && leb rest e.event_index then e.event_index else rest

unfoldable pub amend_session : Text → Session → Session
amend_session text s = record s { committed_text = some text; final_preedit_text = some text }

unfoldable pub amend_candidate : Text → Candidate → Candidate
amend_candidate text c = record c {
  corrected_text = text;
  candidate_transcript = text;
  source = accepted_with_edit;
}

unfoldable pub set_history_text : Text → HistoryRow → HistoryRow
set_history_text text r = record r { text = text }

abbrev pub of_session : Text → Candidate → Bool
of_session key c = text_eq c.session_id key

abbrev pub committed_in : Text → HistoryRow → Bool
committed_in key r = in_session key r && is_committed_row r.state

unfoldable pub write_amendment : Text → Text → Text → Text → Db → Db
unfolding update amend_session amend_candidate set_history_text last_index is_committed_row
write_amendment key from_text text history_text db = record db {
  ime_edit_events =
      insert
        record {
          session_id = key;
          from_text = from_text;
          to_text = text;
          event_index = last_index key db.ime_edit_events + 1;
        }
        db.ime_edit_events;
  ime_text_sessions = update (has_id key) (amend_session text) db.ime_text_sessions;
  training_candidates = update (of_session key) (amend_candidate text) db.training_candidates;
  ime_text_history = update (committed_in key) (set_history_text history_text) db.ime_text_history;
}

unfoldable pub amend_correction : Setup → ℕ → Text → Text → Text → Db → Reply (Unit {0}) × Db
unfolding encode_history_text session_exists write_amendment
amend_correction p nonce session_id committed_text corrected_text db =
    let key = p.session_key session_id in
    if text_eq corrected_text committed_text
    then (ok tt, db)
    else transaction
        (do
          history_text ← encode_history_text p nonce corrected_text
          session_exists key
          run (write_amendment key committed_text corrected_text history_text))
        db

-- ===== src/Store/Sessions/Taken.antt =====
-- A take that is stored: create_session and then commit_session of
-- crates/idiolect-adapter-sqlite/src/repository.rs succeed.
use idiolect.Common.{ℕ, suc, ◌≡◌, refl, ap, ◌∙◌, false, none, some, ◌++◌, arith, if◌then◌else◌}
use idiolect.Text.{Text, text_eq, text_eq_refl, codes}
use idiolect.Store.{
  Session, CandidateStatus, HistoryState, accepted_with_edit, accepted_without_edit, Db, ok, once,
  existing_event, is_idempotent_duplicate, duplicate_of, create_event, find_session, has_id,
  is_committed_state, new_event, ime_text_session, session_created,
}
use idiolect.Store.Table.{first, update, insert, first-insert_new}
use idiolect.Store.Sessions.{
  Setup, encode_with, encode_history_text, create_session, ensure_user, insert_utterance,
  insert_session, utterance_key, new_session,
}
use idiolect.Store.Sessions.Ending.{
  commit_session, commit_new, write_commit, insert_candidate, insert_history, set_committed,
}

-- A commit of an existing session with its raw text, under a key that neither the log nor the
-- candidates know, succeeds if the text can be encoded: it adds one candidate, which is labelled by
-- whether the text differs from the raw one, and, unless the session was committed, one history row.
pub record Committed (key text raw idempotency_key h : Text) (now : ℕ) (s : Session)
    (before db : Db) : Type 0 where
  pub learned :
      db.training_candidates
      ≡ insert
          record {
            id = suc before.candidate_seq;
            session_id = key;
            utterance_id = s.utterance_id;
            raw_text = raw;
            corrected_text = text;
            candidate_transcript = text;
            source = if text_eq text raw then accepted_without_edit else accepted_with_edit;
            status = CandidateStatus.captured;
            idempotency_key = idempotency_key;
          }
          before.training_candidates
  pub shown : db.ime_text_history ≡ (
      if is_committed_state s.state
      then before.ime_text_history
      else insert
          (record {
            id = suc before.history_seq;
            session_id = key;
            text = h;
            state = HistoryState.committed;
            created_at = now;
          })
          before.ime_text_history)
  pub stored :
      db.ime_text_sessions ≡ update (has_id key) (set_committed text now) before.ime_text_sessions

module _ (p : Setup) (nonce : ℕ) (id text key raw h : Text) (now : ℕ) (s : Session) (db : Db)
    (encoded : encode_with p.history_cipher nonce text ≡ some h)
    (found : find_session (p.session_key id) db ≡ some s) (has_raw : s.raw_stt_text ≡ some raw)
    (new_key : existing_event key db ≡ none)
    (new_candidate : first (λ c. text_eq c.idempotency_key key) db.training_candidates ≡ none) where
  commit_ok : (commit_session p nonce id text key now db).0 ≡ ok tt
  unfolding commit_session encode_history_text once is_idempotent_duplicate duplicate_of commit_new
      write_commit create_event insert_candidate
  commit_ok = ground (arith, encoded, found, has_raw, new_key, new_candidate)

  commit_Committed :
      Committed
        (p.session_key id)
        text
        raw
        key
        h
        now
        s
        db
        (commit_session p nonce id text key now db).1
  unfolding commit_session encode_history_text once is_idempotent_duplicate duplicate_of commit_new
      write_commit create_event insert_candidate insert_history
  commit_Committed = record {
    learned = ground (arith, encoded, found, has_raw, new_key, new_candidate);
    shown = ground (arith, encoded, found, has_raw, new_key, new_candidate);
    stored = ground (arith, encoded, found, has_raw, new_key, new_candidate);
  }

abbrev created_key : Text → Text
created_key key = codes "session-created:" ++ key

create_ok :
    (p : Setup) (id raw : Text) (now : ℕ) (db : Db)
    → find_session (p.session_key id) db ≡ none
    → first (λ v. text_eq v.id (utterance_key (p.session_key id))) db.utterances ≡ none
    → existing_event (created_key (p.session_key id)) db ≡ none
    → ((create_session p id (some raw) now db).0 ≡ ok id)
      × ((create_session p id (some raw) now db).1.ime_text_sessions
          ≡ insert (new_session (p.session_key id) (some raw) now) db.ime_text_sessions)
      × ((create_session p id (some raw) now db).1.event_log
          ≡ insert
              (new_event ime_text_session
                (p.session_key id)
                session_created
                raw
                (created_key (p.session_key id))
                db)
              db.event_log)
      × ((create_session p id (some raw) now db).1.training_candidates ≡ db.training_candidates)
      × ((create_session p id (some raw) now db).1.ime_text_history ≡ db.ime_text_history)
unfolding create_session ensure_user insert_utterance insert_session create_event existing_event
    find_session
create_ok p id raw now db s u e = (
  ground (arith, s, u, e),
  ground (arith, s, u, e),
  ground (arith, s, u, e),
  ground (arith, s, u, e),
  ground (arith, s, u, e),
)

-- A new session and its commit: if the session, its utterance and the two idempotency keys are new, the
-- keys differ, and the text can be encoded, then both calls succeed, the creation leaves candidates
-- and history as they were, and the commit adds the candidate, with its label by whether the text
-- differs from the raw one, and one history row with the encoded text.
pub take_is_stored :
    (p : Setup) (nonce : ℕ) (id raw text key h : Text) (now now' : ℕ) (db : Db)
    → find_session (p.session_key id) db ≡ none
    → first (λ v. text_eq v.id (utterance_key (p.session_key id))) db.utterances ≡ none
    → existing_event (created_key (p.session_key id)) db ≡ none
    → existing_event key db ≡ none
    → text_eq (created_key (p.session_key id)) key ≡ false
    → first (λ c. text_eq c.idempotency_key key) db.training_candidates ≡ none
    → encode_with p.history_cipher nonce text ≡ some h
    → ((create_session p id (some raw) now db).0 ≡ ok id)
      × ((create_session p id (some raw) now db).1.training_candidates ≡ db.training_candidates)
      × ((create_session p id (some raw) now db).1.ime_text_history ≡ db.ime_text_history)
      × ((commit_session p nonce id text key now' (create_session p id (some raw) now db).1).0
          ≡ ok tt)
      × Committed
          (p.session_key id)
          text
          raw
          key
          h
          now'
          (new_session (p.session_key id) (some raw) now)
          (create_session p id (some raw) now db).1
          (commit_session p nonce id text key now' (create_session p id (some raw) now db).1).1
unfolding find_session existing_event
take_is_stored p nonce id raw text key h now now' db s u e e' differ c encoded =
    let sk = p.session_key id in
    let session = new_session sk (some raw) now in
    let (made, sessions, events, candidates, rows) = create_ok p id raw now db s u e in
    let found : find_session sk (create_session p id (some raw) now db).1 ≡ some session =
      ap (first (has_id sk)) sessions
      ∙ first-insert_new (has_id sk) session db.ime_text_sessions s
      ∙ rw (text_eq_refl sk) refl in
    let new_key : existing_event key (create_session p id (some raw) now db).1 ≡ none =
      ap (first (λ e. text_eq e.idempotency_key key)) events
      ∙ first-insert_new (λ e. text_eq e.idempotency_key key)
          (new_event ime_text_session sk session_created raw (created_key sk) db) db.event_log e'
      ∙ rw differ refl in
    let new_candidate = ap (first (λ c. text_eq c.idempotency_key key)) candidates ∙ c in
    (
      made,
      candidates,
      rows,
      commit_ok p nonce id text key raw h now' session (create_session p id (some raw) now db).1
          encoded found refl new_key new_candidate,
      commit_Committed p nonce id text key raw h now' session
          (create_session p id (some raw) now db).1 encoded found refl new_key new_candidate,
    )

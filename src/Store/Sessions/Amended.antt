-- ===== src/Store/Sessions/Amended.antt =====
-- What amend_correction of crates/idiolect-adapter-sqlite/src/repository.rs leaves everywhere.
use idiolect.Common.{ℕ, ◌≡◌, refl, sym, false, not, ◌&&◌, none, some, arith, Option-cases, inl, inr}
use mathlib.Core.Path.{subst}
use idiolect.Text.{Text, text_eq, text_eq_refl}
use idiolect.Store.{Session, Db, ok, find_session, has_id}
use idiolect.Store.Table.{
  count, select, first-update, first-holds, count-update_all, select-update_others,
}
use idiolect.Store.Sessions.{
  Setup, encode_with, decode_with, encode_history_text, decode_history_text, session_exists,
}
use idiolect.Store.Sessions.Amending.{
  amend_session, amend_candidate, set_history_text, of_session, committed_in, write_amendment,
  amend_correction,
}

-- The text of a session, as the history, its candidates and its row say it; all else is as before.
pub record Amended (p : Setup) (key text : Text) (before db : Db) : Type 0 where
  pub committed : elim (find_session key db) [ none ↦ none | some s ↦ s.committed_text ] ≡ some text
  pub shown :
      count
        (λ r. committed_in key r && not (text_eq (decode_history_text p r.text) text))
        db.ime_text_history
      ≡ 0
  pub learned :
      count
        (λ c.
          of_session key c
          && not (text_eq c.candidate_transcript text && text_eq c.corrected_text text))
        db.training_candidates
      ≡ 0
  pub other_sessions :
      select (λ s. not (has_id key s)) db.ime_text_sessions
      ≡ select (λ s. not (has_id key s)) before.ime_text_sessions
  pub other_rows :
      select (λ r. not (committed_in key r)) db.ime_text_history
      ≡ select (λ r. not (committed_in key r)) before.ime_text_history
  pub other_candidates :
      select (λ c. not (of_session key c)) db.training_candidates
      ≡ select (λ c. not (of_session key c)) before.training_candidates

write_amendment-Amended :
    (p : Setup) (key from text h : Text) (s : Session) (db : Db)
    → find_session key db ≡ some s
    → decode_history_text p h ≡ text
    → Amended p key text db (write_amendment key from text h db)
unfolding write_amendment find_session
write_amendment-Amended p key from text h s db found decodes = record {
  committed =
      rw
        (first-update (has_id key) (has_id key) (amend_session text) db.ime_text_sessions
          (λ x. unfold amend_session in refl))
        (rw found (
          rw (first-holds (has_id key) s db.ime_text_sessions found)
            (unfold amend_session in refl)));
  shown =
      count-update_all (committed_in key) (λ r. text_eq (decode_history_text p r.text) text)
        (set_history_text h) db.ime_text_history (λ r. unfold set_history_text in refl)
        (λ r. unfold set_history_text in rw decodes (text_eq_refl text));
  learned =
      count-update_all (of_session key)
        (λ c. text_eq c.candidate_transcript text && text_eq c.corrected_text text)
        (amend_candidate text) db.training_candidates (λ c. unfold amend_candidate in refl)
        (λ c. unfold amend_candidate in rw (text_eq_refl text) refl);
  other_sessions =
      select-update_others (has_id key) (amend_session text) db.ime_text_sessions
        (λ s. unfold amend_session in refl);
  other_rows =
      select-update_others (committed_in key) (set_history_text h) db.ime_text_history
        (λ s. unfold set_history_text in refl);
  other_candidates =
      select-update_others (of_session key) (amend_candidate text) db.training_candidates
        (λ s. unfold amend_candidate in refl);
}

-- If what the cipher encodes decodes to the same text, then a correction that succeeds and changes
-- the text is found everywhere: the session's committed text, all its committed history rows, decoded,
-- and all its candidates carry the corrected text; the other sessions, history rows and candidates
-- are as before.
pub amend_correction-Amended :
    (p : Setup)
    → ((nonce : ℕ) (t h : Text)
        → encode_with p.history_cipher nonce t ≡ some h
        → decode_with p.history_cipher h ≡ t)
    → (nonce : ℕ) (id from text : Text) (db db' : Db) → text_eq text from ≡ false
    → amend_correction p nonce id from text db ≡ (ok tt, db')
    → Amended p (p.session_key id) text db db'
unfolding amend_correction encode_history_text session_exists decode_history_text
amend_correction-Amended p law nonce id from text db db' changed e =
    elim (Option-cases (encode_with p.history_cipher nonce text)) [
      | inl failed ↦ absurd (ground arith)
      | inr (h, encoded) ↦ elim (Option-cases (find_session (p.session_key id) db)) [
        | inl missing ↦ absurd (ground arith)
        | inr (s, found) ↦
            let same : db' ≡ write_amendment (p.session_key id) from text h db = ground arith in
            subst (Amended p (p.session_key id) text db) (sym same) (
              write_amendment-Amended p (p.session_key id) from text h s db found
                (law nonce text h encoded))
      ]
    ]

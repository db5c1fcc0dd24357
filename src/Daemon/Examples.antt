-- ===== src/Daemon/Examples.antt =====
-- The theorems on run_loop.rs at a concrete outside: a daemon with a fixture clip and one with a
-- microphone, a store that numbers its answers, and a decoder that hears one word.
use idiolect.Common.{◌++◌, ℕ, suc, ◌≡◌, ◌≢◌, refl, true, false, inl, none, some, List, [], ◌∷◌}
use idiolect.Text.{Text, text_eq}
use idiolect.Ime.Session.{ActivityPhase}
use idiolect.Streaming.Take.{new_take, auto_stop_due, decoded, FinalizedTake, speech}
use idiolect.Ipc.{IpcMessage, start_recording, commit_preedit}
use idiolect.Daemon.Microphone.{serve_released}
use idiolect.Daemon.Delivery.{IsReliable, IsCommit}
use idiolect.Daemon.Landing.{Lands, take-Lands}
use idiolect.Ime.Session.{State, Session, set_preedit}
use idiolect.Ime.Reader.{Surroundings, read_all}
use idiolect.Daemon.{RecordingStatusTx, ◌>>◌, Outside, Daemon, ok}
use idiolect.Daemon.Protocol.{phase_of, idle, broken}
use idiolect.Daemon.Connection.{
  Complaints, handle_message, start_or_stop, cleanup_disconnected_client,
}
use idiolect.Daemon.Serving.{
  TrayAction, ReadEvent, message, gone, serve_all, serve, handle_connection, round, accept,
  handle_read, before_read,
}
use idiolect.Daemon.Takes.{
  start_live_capture, ingest, fold_each, store_take, pump_live_stream, start_fixture_oneshot,
  stop_live_and_transcribe, drop_live_capture,
}
use idiolect.Daemon.Sessions.{
  cancel_uncommitted, materialize_session, transcribe_segment, persist_session, store, set_active,
  commit_active_session,
}
use idiolect.Daemon.Status.{new, send, set, set_phase, send_each, repaint, should_push}
use idiolect.Daemon.Clients.{serve_all_in_turn, serve_all_settled}

abbrev word : Text
word = b'h' ∷ b'i' ∷ []

abbrev desk : Outside ℕ ℕ (Unit {0}) (Unit {0})
desk = record {
  write = λ w m. (w, none);
  begin_capture = λ w. (w, none);
  poll_capture = λ w. (w, some []);
  finish_capture = λ w. (w, inl []);
  is_live_capture = false;
  fixture_clip = λ w. inl (1 ∷ []);
  new_feed = tt;
  resample = λ v xs. (v, xs);
  is_speech = λ v xs. (v, true);
  is_alphanumeric = λ c. true;
  transcribe = λ w t xs. (t, decoded word);
  model_is_resident = λ w. true;
  vad_config = λ w. record {
    min_speech_ms = 0;
    pre_roll_ms = 0;
    post_roll_ms = 0;
    max_utterance_ms = 0;
    auto_stop_silence_ms = 0;
  };
  encodes = λ xs. true;
  decoded_again = λ xs. some xs;
  review_mode = λ w. true;
  preview_typing = λ w. true;
  call_store = λ w call. (suc w, some w);
  get_history_entry = λ w id. some none;
  set_clipboard = λ w t. (w, none);
  not_found = λ id. word;
  other_tray_action = λ w a. (w, none);
}

abbrev complaints : Complaints
complaints = record { code = word; response = word; invalid = word }

abbrev fresh : Daemon ℕ ℕ (Unit {0}) (Unit {0})
fresh = record {
  active_session = none;
  live_capture = false;
  live_stream = none;
  status_tx = record { feature = false; activity_feature = false; last = ActivityPhase.idle };
  wants_reconcile = false;
  sent = [];
  stored = [];
  painted = false;
  world = 0;
  decoder = tt;
}

-- A take that is committed, and one that its client leaves open.
abbrev visits : List (List (List TrayAction × ReadEvent))
visits =
    (([], message start_recording)
      ∷ ([], message (commit_preedit word))
      ∷ ([], message start_recording)
      ∷ [])
    ∷ (([], gone) ∷ [])
    ∷ []

serve_all_in_turn_example : phase_of (serve_all desk complaints visits fresh).0.stored ≢ broken
serve_all_in_turn_example = serve_all_in_turn desk complaints visits fresh refl

visits_ok : (serve_all desk complaints visits fresh).1 ≡ ok tt
unfolding serve_all serve handle_connection round pump_live_stream accept handle_read handle_message
    start_or_stop start_fixture_oneshot cancel_uncommitted materialize_session transcribe_segment
    persist_session store set_active send set set_phase send_each repaint should_push before_read
    cleanup_disconnected_client drop_live_capture stop_live_and_transcribe commit_active_session
    text_eq new
visits_ok = refl

serve_all_settled_example : phase_of (serve_all desk complaints visits fresh).0.stored ≡ idle
serve_all_settled_example = serve_all_settled desk complaints visits fresh refl visits_ok

-- A desk where the direct mode is on, and a take that has been decoded.
abbrev direct_desk : Outside ℕ ℕ (Unit {0}) (Unit {0})
direct_desk = record desk { is_live_capture = true; review_mode = λ w. false }

direct_desk-IsReliable : IsReliable direct_desk
direct_desk-IsReliable = record {
  writes = λ w m. refl;
  answers = λ w call. (w, refl);
  direct = λ w. refl;
}

abbrev take : FinalizedTake ℕ
take = record {
  final_text = word;
  merged_samples = 1 ∷ 2 ∷ [];
  last_snippet_text = none;
  fallback_reason = none;
}

abbrev streaming : Daemon ℕ ℕ (Unit {0}) (Unit {0})
streaming = record fresh {
  wants_reconcile = true;
  status_tx = record { feature = true; activity_feature = true; last = ActivityPhase.transcribing };
}

abbrev engine : Session
engine = record {
  state = State.recording;
  review = none;
  recording = true;
  activity = ActivityPhase.recording;
  phase_channel_live = true;
  preview = word;
  reconcile_supported = true;
  effects = set_preedit word ∷ [];
}

abbrev around : Surroundings
around = record { is_active = true; review = λ t. none }

take-Lands_example :
    let r = (store_take direct_desk (speech take) >> set direct_desk false) streaming in
    (r.1 ≡ ok tt)
    × IsCommit word r.0.stored
    × ((news : List IpcMessage) × (r.0.sent ≡ news ++ [])
        × Lands word engine (read_all around engine news))
take-Lands_example =
    take-Lands direct_desk take streaming around engine direct_desk-IsReliable refl refl refl refl
      refl (record { window = refl; in_text = tt; mirrored = refl }) refl refl refl

abbrev negotiated : RecordingStatusTx
negotiated = record { feature = true; activity_feature = true; last = ActivityPhase.idle }

abbrev phases : List ActivityPhase
phases =
    ActivityPhase.recording ∷ ActivityPhase.recording ∷ ActivityPhase.transcribing
    ∷ ActivityPhase.idle ∷ []

-- A client that starts a take and is gone in the middle of it.
abbrev cut_short : List (List TrayAction × ReadEvent)
cut_short = ([], message start_recording) ∷ ([], gone) ∷ []

cut_short_ok : (serve direct_desk complaints cut_short fresh).1 ≡ ok tt
unfolding serve handle_connection round pump_live_stream accept handle_read handle_message
    start_or_stop start_live_capture cancel_uncommitted send set set_phase send_each repaint
    should_push before_read cleanup_disconnected_client drop_live_capture new_take ingest fold_each
    auto_stop_due new
cut_short_ok = refl

serve_released_example : (serve direct_desk complaints cut_short fresh).0.live_capture ≡ false
serve_released_example = serve_released direct_desk complaints cut_short fresh cut_short_ok

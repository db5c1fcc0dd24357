-- ===== src/Daemon/Serving.antt =====
-- handle_connection of run_loop.rs, the tray actions it serves, and the accept loop around it. A
-- history of a connection is a list of rounds: the tray actions that wait and what the read gives.
-- The strings of tray actions are parsed; actions that are not about a take are one outside call.
use idiolect.Common.{ℕ, Bool, true, false, Option, none, some, List, [], ◌∷◌, if◌then◌else◌}
use idiolect.Text.{Text}
use idiolect.Ipc.{IpcMessage, insert_text, edit_history}
use idiolect.Daemon.{
  RunLoopError, disconnect, fatal, Outcome, ok, failed, tray_cancel, HistoryEntry, Outside, Daemon,
  Action, ◌>>=◌, ◌>>◌, gets, pure, fail,
}
use idiolect.Daemon.Status
use idiolect.Daemon.Status.{send, set, repaint, refresh_tray, sync_initial}
use idiolect.Daemon.Connection.{
  Complaints, cancel_take, cleanup_disconnected_client, stop_if_live, handle_message,
}
use idiolect.Daemon.Takes.{
  start_live_capture, pump_live_stream, stop_live_and_transcribe, start_fixture_oneshot,
}

pub data TrayAction : Type 0 where
  start stop cancel : TrayAction
  insert edit : ℕ → TrayAction
  other : Text → TrayAction

-- What reading a line gives: a message, a line that does not decode, no whole line yet, the end of
-- the stream or a reset, another error.
pub data ReadEvent : Type 0 where
  message : IpcMessage → ReadEvent
  malformed pending gone broken : ReadEvent

module _ {A W V T : Type 0} (O : Outside A W V T) where
  unfoldable pub with_entry :
      (Text → IpcMessage) → Option (Option HistoryEntry) → Action A W V T (Unit {0})
  with_entry f none = fail fatal
  with_entry f (some none) = pure tt
  with_entry f (some (some entry)) = send O (f entry.text)

  -- `insert_entry_via_ime` and `edit_entry_via_ime`.
  unfoldable pub entry_via_ime : ℕ → (Text → IpcMessage) → Action A W V T (Unit {0})
  unfolding with_entry
  entry_via_ime id f = do entry ← gets λ d. O.get_history_entry d.world id; with_entry f entry

  unfoldable pub ran : Option RunLoopError → Outcome (Unit {0})
  ran none = ok tt
  ran (some e) = failed e

  unfoldable pub run_other : Text → Action A W V T (Unit {0})
  unfolding ran
  run_other action d =
      let (w, e) = O.other_tray_action d.world action in (record d { world = w }, ran e)

  unfoldable pub handle_tray_action : TrayAction → Action A W V T (Unit {0})
  unfolding run_other
  handle_tray_action start =
      if O.is_live_capture
      then (do live ← gets λ d. d.live_capture; (if live then pure tt else start_live_capture O))
      else start_fixture_oneshot O
  handle_tray_action stop = stop_if_live O
  handle_tray_action cancel = cancel_take O tray_cancel
  handle_tray_action (insert id) = entry_via_ime id insert_text
  handle_tray_action (edit id) = entry_via_ime id (edit_history id)
  handle_tray_action (other action) = run_other action

  unfoldable pub tray_actions : List TrayAction → Action A W V T (Unit {0})
  tray_actions [] = pure tt
  tray_actions (a ∷ actions) = do handle_tray_action a; tray_actions actions

  -- Whether the connection is over.
  unfoldable pub handle_read : Complaints → ReadEvent → Action A W V T Bool
  handle_read c (message m) = do handle_message O c m; pure false
  handle_read c malformed = fail fatal
  handle_read c pending = pure false
  handle_read c gone = do cleanup_disconnected_client O; pure true
  handle_read c broken = fail fatal

  -- A pass of the loop up to the read.
  unfoldable pub before_read : List TrayAction → Action A W V T (Unit {0})
  unfolding tray_actions
  before_read actions = do
    tray_actions actions
    auto_stop ← pump_live_stream O
    (if auto_stop then stop_live_and_transcribe O else pure tt)

  unfoldable pub round : Complaints → List TrayAction × ReadEvent → Action A W V T Bool
  unfolding before_read
  round c (actions, event) = do before_read actions; handle_read c event

  -- The pass after the last of the history finds the client gone.
  unfoldable pub handle_connection :
      Complaints → List (List TrayAction × ReadEvent) → Action A W V T (Unit {0})
  unfolding before_read
  handle_connection c [] = do before_read []; cleanup_disconnected_client O
  handle_connection c (r ∷ rounds) = do
    over ← round c r
    (if over then pure tt else handle_connection c rounds)

  -- A new `Live`; what was sent was sent to another client.
  unfoldable pub accept : Daemon A W V T → Daemon A W V T
  accept d = record d {
    active_session = none;
    live_capture = false;
    live_stream = none;
    status_tx = Status.new false false;
    wants_reconcile = false;
    sent = [];
  }

  unfoldable pub survive : Daemon A W V T × Outcome (Unit {0}) → Daemon A W V T × Outcome (Unit {0})
  survive (d, ok u) = (d, ok u)
  survive (d, failed disconnect) = cleanup_disconnected_client O d
  survive (d, failed fatal) = (d, failed fatal)

  -- One client of the accept loop: a disconnect on a write is cleaned up after.
  unfoldable pub serve : Complaints → List (List TrayAction × ReadEvent) → Action A W V T (Unit {0})
  unfolding survive
  serve c rounds d = survive (handle_connection c rounds (accept d))

  unfoldable pub serve_all :
      Complaints → List (List (List TrayAction × ReadEvent)) → Action A W V T (Unit {0})
  serve_all c [] = pure tt
  serve_all c (rounds ∷ clients) = do serve c rounds; serve_all c clients

-- ===== src/Daemon/Clients.antt =====
-- How the tray actions and the clients that run_loop.rs serves move the protocol with the store.
use idiolect.Common.{
  ℕ, if◌then◌else◌, ◌≡◌, ◌≢◌, Bool, true, false, Option, none, some, List, [], ◌∷◌,
}
use idiolect.Text.{Text}
use idiolect.Ipc.{IpcMessage, insert_text, edit_history}
use idiolect.Daemon.{
  RunLoopError, disconnect, fatal, Outcome, ok, failed, tray_cancel, HistoryEntry, Outside, Daemon,
  Action, pure,
}
use idiolect.Daemon.Protocol.{idle, broken, View, view, phase_of, Agrees, Settled}
use idiolect.Daemon.Connection.{Complaints}
use idiolect.Daemon.Serving.{
  TrayAction, start, stop, cancel, insert, edit, other, ReadEvent, message, malformed, pending,
  gone, with_entry, entry_via_ime, ran, run_other, handle_tray_action, tray_actions, handle_read,
  before_read, round, handle_connection, accept, survive, serve, serve_all,
}
use idiolect.Daemon.Rules.{
  Ends, Leads, leads_bind, leads_pure, leads_to, leads_if, leads_gets, leads_fatal, Agrees→Intact,
}
use idiolect.Daemon.Messages.{
  cancel_take-leads, stop_if_live-leads, refused-leads, handle_message-leads,
  cleanup_disconnected_client-leads,
}
use idiolect.Daemon.Taking.{
  start_live_capture-leads, pump_live_stream-leads, stop_live_and_transcribe-leads,
  start_fixture_oneshot-leads,
}

module _ {A W V T : Type 0} (O : Outside A W V T) where
  with_entry-leads :
      (f : Text → IpcMessage) (e : Option (Option HistoryEntry))
      → Leads Agrees (with_entry O f e) (λ u. Agrees)
  unfolding with_entry
  with_entry-leads f none = leads_fatal Agrees→Intact
  with_entry-leads f (some none) = leads_pure tt (λ v h. h)
  with_entry-leads f (some (some entry)) = refused-leads O (f entry.text)

  entry_via_ime-leads :
      (id : ℕ) (f : Text → IpcMessage) → Leads Agrees (entry_via_ime O id f) (λ u. Agrees)
  unfolding entry_via_ime
  entry_via_ime-leads id f =
      leads_gets (λ e. Agrees) (λ d. O.get_history_entry d.world id) (with_entry O f) (λ d h. h)
        (with_entry-leads f)

  ran_ends :
      (e : Option RunLoopError) (d : Daemon A W V T)
      → Agrees (view d)
      → Ends {A = A} {W = W} {V = V} {T = T} (λ u. Agrees) (d, ran O e)
  unfolding ran
  ran_ends none d h = h
  ran_ends (some disconnect) d h = h
  ran_ends (some fatal) d h = Agrees→Intact (view d) h

  handle_tray_action-leads : (a : TrayAction) → Leads Agrees (handle_tray_action O a) (λ u. Agrees)
  unfolding handle_tray_action run_other
  handle_tray_action-leads start =
      leads_if O.is_live_capture
        (λ e.
          leads_gets (λ b. Agrees) (λ d. d.live_capture) _ (λ d h. h)
            (λ b. leads_if b (λ e. leads_pure tt (λ v h. h)) (λ e. start_live_capture-leads O)))
        (λ e. start_fixture_oneshot-leads O)
  handle_tray_action-leads stop = stop_if_live-leads O
  handle_tray_action-leads cancel = cancel_take-leads O tray_cancel
  handle_tray_action-leads (insert id) = entry_via_ime-leads id insert_text
  handle_tray_action-leads (edit id) = entry_via_ime-leads id (edit_history id)
  handle_tray_action-leads (other action) = record {
    run = λ d h.
        let r = O.other_tray_action d.world action in ran_ends r.1 (record d { world = r.0 }) h;
  }

  tray_actions-leads :
      (actions : List TrayAction) → Leads Agrees (tray_actions O actions) (λ u. Agrees)
  unfolding tray_actions
  tray_actions-leads [] = leads_pure tt (λ v h. h)
  tray_actions-leads (a ∷ actions) =
      leads_bind (handle_tray_action-leads a) (λ u. tray_actions-leads actions)

  before_read-leads :
      (actions : List TrayAction) → Leads Agrees (before_read O actions) (λ u. Agrees)
  unfolding before_read
  before_read-leads actions = leads_bind (tray_actions-leads actions) (λ u.
      leads_bind (pump_live_stream-leads O)
        (λ b. leads_if b (λ e. stop_live_and_transcribe-leads O) (λ e. leads_pure tt (λ v h. h))))

  -- A connection that is over has settled its session.
  abbrev Over : Bool → View → Type 0
  Over true = Settled
  Over false = Agrees

  handle_read-leads : (c : Complaints) (e : ReadEvent) → Leads Agrees (handle_read O c e) Over
  unfolding handle_read
  handle_read-leads c (message m) =
      leads_bind (handle_message-leads O c m) (λ u. leads_pure false (λ v h. h))
  handle_read-leads c malformed = leads_fatal Agrees→Intact
  handle_read-leads c pending = leads_pure false (λ v h. h)
  handle_read-leads c gone =
      leads_bind (cleanup_disconnected_client-leads O) (λ u. leads_pure true (λ v h. h))
  handle_read-leads c ReadEvent.broken = leads_fatal Agrees→Intact

  continued-leads :
      (m : Action A W V T (Unit {0}))
      → Leads Agrees m (λ u. Settled)
      → (over : Bool) → Leads (Over over) (if over then pure tt else m) (λ u. Settled)
  continued-leads m h true = leads_pure tt (λ v h. h)
  continued-leads m h false = h

  handle_connection-leads :
      (c : Complaints) (rounds : List (List TrayAction × ReadEvent))
      → Leads Agrees (handle_connection O c rounds) (λ u. Settled)
  unfolding handle_connection round
  handle_connection-leads c [] =
      leads_bind (before_read-leads []) (λ u. cleanup_disconnected_client-leads O)
  handle_connection-leads c ((actions, event) ∷ rounds) =
      leads_bind (leads_bind (before_read-leads actions) (λ u. handle_read-leads c event))
        (continued-leads (handle_connection O c rounds) (handle_connection-leads c rounds))

  survive_ends :
      (r : Daemon A W V T × Outcome (Unit {0}))
      → Ends (λ u. Settled) r
      → Ends (λ u. Settled) (survive O r)
  unfolding survive
  survive_ends (d, ok u) h = h
  survive_ends (d, failed disconnect) h = (cleanup_disconnected_client-leads O).run d h
  survive_ends (d, failed fatal) h = h

  -- The log alone is at rest; the daemon's account is of an earlier client.
  abbrev Rested : View → Type 0
  Rested v = phase_of v.stored ≡ idle

  serve-leads :
      (c : Complaints) (rounds : List (List TrayAction × ReadEvent))
      → Leads Rested (serve O c rounds) (λ u. Rested)
  unfolding serve accept
  serve-leads c rounds =
      leads_to {after = λ u. Settled} (λ u v h. h.0)
        (record {
          run = λ d h.
              survive_ends (handle_connection O c rounds (accept O d))
                ((handle_connection-leads c rounds).run (accept O d) (h, λ e. cc));
        })

  serve_all-leads :
      (c : Complaints) (clients : List (List (List TrayAction × ReadEvent)))
      → Leads Rested (serve_all O c clients) (λ u. Rested)
  unfolding serve_all
  serve_all-leads c [] = leads_pure tt (λ v h. h)
  serve_all-leads c (rounds ∷ clients) =
      leads_bind (serve-leads c rounds) (λ u. serve_all-leads c clients)

  in_turn :
      (r : Daemon A W V T × Outcome (Unit {0}))
      → Ends (λ u. Rested) r
      → phase_of r.0.stored ≢ broken
  in_turn (d, ok u) h = λ b. cc
  in_turn (d, failed disconnect) h = Agrees→Intact (view d) h
  in_turn (d, failed fatal) h = h

  settled :
      (r : Daemon A W V T × Outcome (Unit {0}))
      → Ends (λ u. Rested) r
      → r.1 ≡ ok tt
      → phase_of r.0.stored ≡ idle
  settled (d, ok u) h e = h
  settled (d, failed x) h e = cc

-- Whatever clients send, however the tray, the microphone, the decoder and the store answer, and
-- wherever a call fails: if no session was open at the start, the daemon never creates a session
-- while another is open, and it writes the audio, the digest and the preedit changes of, commits and
-- cancels only the session that is open, so that none ends twice.
pub serve_all_in_turn :
    {A W V T : Type 0} (O : Outside A W V T) (c : Complaints)
    (clients : List (List (List TrayAction × ReadEvent))) (d : Daemon A W V T)
    → phase_of d.stored ≡ idle
    → phase_of (serve_all O c clients d).0.stored ≢ broken
serve_all_in_turn O c clients d h =
    in_turn O (serve_all O c clients d) ((serve_all-leads O c clients).run d h)

-- If no session was open at the start and the daemon has served its clients with no error that
-- stops it, every session that it created was committed or cancelled.
pub serve_all_settled :
    {A W V T : Type 0} (O : Outside A W V T) (c : Complaints)
    (clients : List (List (List TrayAction × ReadEvent))) (d : Daemon A W V T)
    → phase_of d.stored ≡ idle
    → (serve_all O c clients d).1 ≡ ok tt
    → phase_of (serve_all O c clients d).0.stored ≡ idle
serve_all_settled O c clients d h e =
    settled O (serve_all O c clients d) ((serve_all-leads O c clients).run d h) e

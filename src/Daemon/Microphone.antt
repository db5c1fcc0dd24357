-- ===== src/Daemon/Microphone.antt =====
-- The release of the microphone in run_loop.rs, when its client is gone.
use idiolect.Common.{
  ◌≡◌, refl, Bool, true, false, Option, none, some, List, [], ◌∷◌, ℕ, if◌then◌else◌,
}
use idiolect.Daemon.{
  disconnect, fatal, Outcome, ok, failed, Reason, daemon_disconnect, StoreCall, cancel_session,
  ActiveSession, Outside, Daemon, Action, continue, pure, modify, ◌>>◌,
}
use idiolect.Daemon.Status.{repaint}
use idiolect.Daemon.Sessions.{
  recorded, store, set_active, when_open, cancel_open, cancel_uncommitted,
}
use idiolect.Daemon.Takes.{drop_live_capture, finish_capture}
use idiolect.Daemon.Connection.{Complaints, cleanup_disconnected_client, handle_message}
use idiolect.Daemon.Serving.{
  TrayAction, ReadEvent, message, malformed, pending, gone, handle_read, before_read, round,
  handle_connection, accept, survive, serve,
}

module _ {A W V T : Type 0} where
  -- The handler leaves the microphone closed, if it was, however it ends.
  abbrev KeepsClosed : {R : Type 0} → Action A W V T R → Type 0
  KeepsClosed m = (d : Daemon A W V T) → d.live_capture ≡ false → (m d).0.live_capture ≡ false

  closed_then :
      {Q R : Type 0} (f : Q → Action A W V T R) (p : Daemon A W V T × Outcome Q)
      → ((q : Q) → KeepsClosed (f q))
      → p.0.live_capture ≡ false
      → (continue p f).0.live_capture ≡ false
  closed_then f (d, ok q) h e = h q d e
  closed_then f (d, failed x) h e = e

  if-KeepsClosed :
      {R : Type 0} (b : Bool) (m k : Action A W V T R)
      → KeepsClosed m
      → KeepsClosed k
      → KeepsClosed (if b then m else k)
  if-KeepsClosed true m k h l = h
  if-KeepsClosed false m k h l = l

  -- What holds of the result where the handler succeeds.
  abbrev Yields : {R : Type 0} → (R → Daemon A W V T → Type 0) → Daemon A W V T × Outcome R → Type 0
  Yields after (d, ok r) = after r d
  Yields after (d, failed e) = Unit {0}

  Yields-then :
      {Q R : Type 0} (f : Q → Action A W V T R) (middle : Q → Daemon A W V T → Type 0)
      (after : R → Daemon A W V T → Type 0) (p : Daemon A W V T × Outcome Q)
      → Yields middle p
      → ((q : Q) (d : Daemon A W V T) → middle q d → Yields after (f q d))
      → Yields after (continue p f)
  Yields-then f middle after (d, ok q) h k = k q d h
  Yields-then f middle after (d, failed e) h k = tt

  Yields-any : {R : Type 0} (p : Daemon A W V T × Outcome R) → Yields (λ r d. Unit {0}) p
  Yields-any (d, ok r) = tt
  Yields-any (d, failed e) = tt

  abbrev Released : Unit {0} → Daemon A W V T → Type 0
  Released u d = d.live_capture ≡ false

  Yields-closed :
      (p : Daemon A W V T × Outcome (Unit {0})) → p.0.live_capture ≡ false → Yields Released p
  Yields-closed (d, ok u) e = e
  Yields-closed (d, failed x) e = tt

  -- A connection that is over has released the microphone.
  abbrev OverReleased : Bool → Daemon A W V T → Type 0
  OverReleased true d = d.live_capture ≡ false
  OverReleased false d = Unit {0}

module _ {A W V T : Type 0} (O : Outside A W V T) where
  recorded-KeepsClosed :
      (call : StoreCall) (r : W × Option ℕ)
      → KeepsClosed {A = A} {W = W} {V = V} {T = T} (recorded O call r)
  unfolding recorded
  recorded-KeepsClosed call (w, none) = λ d e. e
  recorded-KeepsClosed call (w, some id) = λ d e. e

  cancel_open-KeepsClosed :
      (reason : Reason) (s : ActiveSession) → KeepsClosed (cancel_open O reason s)
  unfolding cancel_open store set_active
  cancel_open-KeepsClosed reason s d e =
      let call = cancel_session s.session_id reason in
      closed_then (λ id. set_active (some (record s { finalized = true })))
        (recorded O call (O.call_store d.world call) d) (λ id d e. e)
        (recorded-KeepsClosed call (O.call_store d.world call) d e)

  when_open-KeepsClosed :
      (reason : Reason) (s : Option ActiveSession)
      → KeepsClosed (when_open O s (cancel_open O reason))
  when_open-KeepsClosed reason none = λ d e. e
  when_open-KeepsClosed reason (some s) =
      if-KeepsClosed s.finalized (pure tt) (cancel_open O reason s) (λ d e. e)
        (cancel_open-KeepsClosed reason s)

  cancel_uncommitted-KeepsClosed : (reason : Reason) → KeepsClosed (cancel_uncommitted O reason)
  unfolding cancel_uncommitted
  cancel_uncommitted-KeepsClosed reason d e = when_open-KeepsClosed reason d.active_session d e

  dropped :
      (b : Bool) (d : Daemon A W V T)
      → d.live_capture ≡ b
      → ((if b
            then (do modify λ d. record d { live_capture = false }; finish_capture O; pure tt)
            else pure tt)
          d).0.live_capture
        ≡ false
  unfolding finish_capture
  dropped true d e = refl
  dropped false d e = e

  drop_live_capture_closed : (d : Daemon A W V T) → (drop_live_capture O d).0.live_capture ≡ false
  unfolding drop_live_capture
  drop_live_capture_closed d = dropped d.live_capture d refl

  -- However the cleanup ends, the microphone is closed.
  cleanup_closed : (d : Daemon A W V T) → (cleanup_disconnected_client O d).0.live_capture ≡ false
  unfolding cleanup_disconnected_client repaint
  cleanup_closed d =
      closed_then (λ u. cancel_uncommitted O daemon_disconnect >> repaint O false)
        (drop_live_capture O d)
        (λ u d e.
          closed_then (λ u. repaint O false) (cancel_uncommitted O daemon_disconnect d) (λ u d e. e)
            (cancel_uncommitted-KeepsClosed daemon_disconnect d e))
        (drop_live_capture_closed d)

  cleanup-Released : (d : Daemon A W V T) → Yields Released (cleanup_disconnected_client O d)
  cleanup-Released d = Yields-closed (cleanup_disconnected_client O d) (cleanup_closed d)

  handle_read_released :
      (c : Complaints) (e : ReadEvent) (d : Daemon A W V T)
      → Yields OverReleased (handle_read O c e d)
  unfolding handle_read
  handle_read_released c (message m) d =
      Yields-then (λ u. pure false) (λ u d. Unit {0}) OverReleased (handle_message O c m d)
        (Yields-any (handle_message O c m d)) (λ u d h. tt)
  handle_read_released c malformed d = tt
  handle_read_released c pending d = tt
  handle_read_released c gone d =
      Yields-then (λ u. pure true) Released OverReleased (cleanup_disconnected_client O d)
        (cleanup-Released d) (λ u d h. h)
  handle_read_released c ReadEvent.broken d = tt

  continued-Released :
      (m : Action A W V T (Unit {0}))
      → ((d : Daemon A W V T) → Yields Released (m d))
      → (over : Bool) (d : Daemon A W V T) → OverReleased over d
      → Yields Released ((if over then pure tt else m) d)
  continued-Released m h true d k = k
  continued-Released m h false d k = h d

  round_released :
      (c : Complaints) (actions : List TrayAction) (e : ReadEvent) (d : Daemon A W V T)
      → Yields OverReleased (round O c (actions, e) d)
  unfolding round
  round_released c actions e d =
      Yields-then (λ u. handle_read O c e) (λ u d. Unit {0}) OverReleased (before_read O actions d)
        (Yields-any (before_read O actions d)) (λ u d h. handle_read_released c e d)

  handle_connection-Released :
      (c : Complaints) (rounds : List (List TrayAction × ReadEvent)) (d : Daemon A W V T)
      → Yields Released (handle_connection O c rounds d)
  unfolding handle_connection
  handle_connection-Released c [] d =
      Yields-then (λ u. cleanup_disconnected_client O) (λ u d. Unit {0}) Released
        (before_read O [] d) (Yields-any (before_read O [] d)) (λ u d h. cleanup-Released d)
  handle_connection-Released c ((actions, e) ∷ rounds) d =
      Yields-then (λ over. if over then pure tt else handle_connection O c rounds) OverReleased
        Released (round O c (actions, e) d) (round_released c actions e d)
        (continued-Released (handle_connection O c rounds) (handle_connection-Released c rounds))

  survive-Released :
      (r : Daemon A W V T × Outcome (Unit {0})) → Yields Released r → Yields Released (survive O r)
  unfolding survive
  survive-Released (d, ok u) h = h
  survive-Released (d, failed disconnect) h = cleanup-Released d
  survive-Released (d, failed fatal) h = tt

  released :
      (r : Daemon A W V T × Outcome (Unit {0}))
      → Yields Released r
      → r.1 ≡ ok tt
      → r.0.live_capture ≡ false
  released (d, ok u) h e = h
  released (d, failed x) h e = cc

-- Once a client has been served and the daemon goes on to the next, no capture is open, whatever the
-- client did and however it went: by the end of its stream, by a reset, or by a write that failed,
-- also in the middle of a take.
pub serve_released :
    {A W V T : Type 0} (O : Outside A W V T) (c : Complaints)
    (rounds : List (List TrayAction × ReadEvent)) (d : Daemon A W V T)
    → (serve O c rounds d).1 ≡ ok tt
    → (serve O c rounds d).0.live_capture ≡ false
unfolding serve
serve_released O c rounds d e =
    released O (serve O c rounds d)
      (survive-Released O (handle_connection O c rounds (accept O d))
        (handle_connection-Released O c rounds (accept O d)))
      e

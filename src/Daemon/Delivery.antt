-- ===== src/Daemon/Delivery.antt =====
-- Rules for the handlers of run_loop.rs when every write and every call on the store succeeds.
use idiolect.Common.{
  ℕ, ◌≡◌, refl, ap, Bool, true, false, Option, none, some, List, ◌∷◌, if◌then◌else◌,
}
use idiolect.Text.{Text}
use idiolect.Ipc.{IpcMessage}
use idiolect.Daemon.{
  RunLoopError, Outcome, ok, failed, daemon_stream_final, StoreCall, commit_session, StoreEvent,
  answered, ActiveSession, RecordingStatusTx, Outside, Daemon, Action, continue, gets, pure, ◌>>=◌,
}
use idiolect.Daemon.Status.{written, send}
use idiolect.Daemon.Sessions.{recorded, store, set_active}

-- The newest call on the store commits the text.
abbrev pub IsCommit : Text → List StoreEvent → Type 0
IsCommit text log =
    (id : ℕ) × (x : ℕ) × (rest : List StoreEvent) × (log
      ≡ answered (commit_session id text daemon_stream_final) x ∷ rest)

-- Every write and every call on the store succeeds, and the review mode is off.
pub record IsReliable {A W V T : Type 0} (O : Outside A W V T) : Type 0 where
  pub writes : (w : W) (m : IpcMessage) → (O.write w m).1 ≡ none
  pub answers : (w : W) (call : StoreCall) → (id : ℕ) × ((O.call_store w call).1 ≡ some id)
  pub direct : (w : W) → O.review_mode w ≡ false

-- What was sent, what is known of the client, and a property of the store's log.
abbrev pub Sent :
    {A W V T : Type 0}
    → (List StoreEvent → Type 0)
    → List IpcMessage
    → RecordingStatusTx
    → Daemon A W V T
    → Type 0
Sent P log tx d = (d.sent ≡ log) × (d.status_tx ≡ tx) × (d.wants_reconcile ≡ true) × P d.stored

abbrev pub Any : List StoreEvent → Type 0
Any log = Unit {0}

module _ {A W V T : Type 0} where
  abbrev pub Succeeds :
      {R : Type 0} → (R → Daemon A W V T → Type 0) → Daemon A W V T × Outcome R → Type 0
  Succeeds after (d, ok r) = after r d
  Succeeds after (d, failed e) = ⊥

  pub record Does {R : Type 0} (before : Daemon A W V T → Type 0) (m : Action A W V T R)
      (after : R → Daemon A W V T → Type 0) : Type 0 where
    pub run : (d : Daemon A W V T) → before d → Succeeds after (m d)

  pub does_then :
      {Q R : Type 0} (f : Q → Action A W V T R) (middle : Q → Daemon A W V T → Type 0)
      (after : R → Daemon A W V T → Type 0) (p : Daemon A W V T × Outcome Q)
      → Succeeds middle p
      → ((q : Q) → Does (middle q) (f q) after)
      → Succeeds after (continue p f)
  does_then f middle after (d, ok q) h k = (k q).run d h
  does_then f middle after (d, failed e) h k = elim h [ ]

  pub does_bind :
      {Q R : Type 0} {before : Daemon A W V T → Type 0} {middle : Q → Daemon A W V T → Type 0}
      {after : R → Daemon A W V T → Type 0} {m : Action A W V T Q} {f : Q → Action A W V T R}
      → Does before m middle
      → ((q : Q) → Does (middle q) (f q) after)
      → Does before (m >>= f) after
  does_bind {middle} {after} {m} {f} h k = record {
    run = λ d b. does_then f middle after (m d) (h.run d b) k;
  }

  pub does_gets :
      {Q R : Type 0} {before : Daemon A W V T → Type 0} {after : R → Daemon A W V T → Type 0}
      (middle : Q → Daemon A W V T → Type 0) (g : Daemon A W V T → Q) (f : Q → Action A W V T R)
      → ((d : Daemon A W V T) → before d → middle (g d) d)
      → ((q : Q) → Does (middle q) (f q) after)
      → Does before (gets g >>= f) after
  does_gets middle g f h k = record { run = λ d b. (k (g d)).run d (h d b) }

  pub does_pure :
      {R : Type 0} {after : R → Daemon A W V T → Type 0} (r : R) → Does (after r) (pure r) after
  does_pure r = record { run = λ d b. b }

  pub does_active :
      (P : List StoreEvent → Type 0) {log : List IpcMessage} {tx : RecordingStatusTx}
      (s : Option ActiveSession)
      → Does (Sent P log tx) (set_active s) (λ u. Sent P log tx)
  unfolding set_active
  does_active P s = record { run = λ d h. h }

  pub does_if :
      {R : Type 0} {before : Daemon A W V T → Type 0} {after : R → Daemon A W V T → Type 0}
      {m k : Action A W V T R} (b : Bool)
      → (b ≡ true → Does before m after)
      → (b ≡ false → Does before k after)
      → Does before (if b then m else k) after
  does_if true h l = h refl
  does_if false h l = l refl

module _ {A W V T : Type 0} (O : Outside A W V T) (reliable : IsReliable O) where
  written-Sent :
      (P : List StoreEvent → Type 0) (log : List IpcMessage) (tx : RecordingStatusTx)
      (m : IpcMessage) (r : W × Option RunLoopError) (d : Daemon A W V T)
      → r.1 ≡ none
      → Sent P log tx d
      → Succeeds (λ u. Sent P (m ∷ log) tx) (written O m r d)
  unfolding written
  written-Sent P log tx m (w, none) d e h = (ap (λ l. m ∷ l) h.0, h.1, h.2, h.3)
  written-Sent P log tx m (w, some x) d e h = cc

  pub does_send :
      (P : List StoreEvent → Type 0) {log : List IpcMessage} {tx : RecordingStatusTx}
      (m : IpcMessage)
      → Does (Sent P log tx) (send O m) (λ u. Sent P (m ∷ log) tx)
  unfolding send
  does_send P {log} {tx} m = record {
    run = λ d h. written-Sent P log tx m (O.write d.world m) d (reliable.writes d.world m) h;
  }

  recorded-Sent :
      (P Q : List StoreEvent → Type 0) (log : List IpcMessage) (tx : RecordingStatusTx)
      (call : StoreCall) (r : W × Option ℕ) (d : Daemon A W V T)
      → (id : ℕ) × (r.1 ≡ some id)
      → ((id : ℕ) (l : List StoreEvent) → P l → Q (answered call id ∷ l))
      → Sent P log tx d
      → Succeeds (λ id. Sent Q log tx) (recorded O call r d)
  unfolding recorded
  recorded-Sent P Q log tx call (w, none) d e k h = cc (e.1)
  recorded-Sent P Q log tx call (w, some id) d e k h = (h.0, h.1, h.2, k id d.stored h.3)

  pub does_store :
      {P : List StoreEvent → Type 0} {log : List IpcMessage} {tx : RecordingStatusTx}
      (Q : List StoreEvent → Type 0) (call : StoreCall)
      → ((id : ℕ) (l : List StoreEvent) → P l → Q (answered call id ∷ l))
      → Does (Sent P log tx) (store O call) (λ id. Sent Q log tx)
  unfolding store
  does_store {P} {log} {tx} Q call k = record {
    run = λ d h.
        recorded-Sent P Q log tx call (O.call_store d.world call) d (reliable.answers d.world call)
          k h;
  }

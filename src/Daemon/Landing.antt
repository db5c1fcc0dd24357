-- ===== src/Daemon/Landing.antt =====
-- What the end of a direct streamed take in run_loop.rs does to the store, and through the engine
-- of ibus.rs to the document, when every write and every call on the store succeeds.
use mathlib.Core.Path.{subst}
use idiolect.Common.{
  ◌≡◌, refl, sym, ap, ◌∙◌, Bool, true, false, Option, none, some, List, [], ◌∷◌, ◌++◌,
}
use idiolect.Text.{Text, is_empty}
use idiolect.Ime.Session.{
  ActivityPhase, State, Session, on_reconcile, on_recording_status, on_activity,
}
use idiolect.Ime.Session.Events.{run, step, IsValid}
use idiolect.Ime.Session.Takes.{document, finalized, streamed_take}
use idiolect.Ime.Reader.{Surroundings, on_direct, on_update, read_message, read_all}
use idiolect.Streaming.Take.{FinalizedTake, speech}
use idiolect.Ipc.{IpcMessage, take_in_flight}
use idiolect.Daemon.{Outcome, ok, failed, Outside, Daemon, ◌>>◌}
use idiolect.Daemon.Delivery.{IsCommit, IsReliable, Sent, Succeeds}
use idiolect.Daemon.Status.{should_push, set, then_some}
use idiolect.Daemon.Takes.{reconcile_update, store_take}
use idiolect.Daemon.Ending.{pushed_log, push_end, does_end}

pushed_log-append :
    (r : Option Bool) (a : Option ActivityPhase) (m : IpcMessage) (log : List IpcMessage)
    → pushed_log r a (m ∷ log) ≡ pushed_log r a (m ∷ []) ++ log
pushed_log-append none none m log = refl
pushed_log-append none (some p) m log = refl
pushed_log-append (some b) none m log = refl
pushed_log-append (some b) (some p) m log = refl

-- What the document has gained, with no commit from the engine.
abbrev pub Lands : Text → Session → Session → Type 0
Lands text s u =
    (document u.effects ≡ document s.effects ++ text) × (finalized u.effects ≡ finalized s.effects)

read_end :
    (o : Surroundings) (s : Session) (text : Text) (a : Bool)
    → o.is_active ≡ true
    → Lands text s (on_recording_status (on_reconcile s text) false)
    → Lands text s (
        read_all o s
          (pushed_log (some false) (then_some a ActivityPhase.idle) (reconcile_update text ∷ [])))
unfolding read_all read_message on_update on_direct on_activity
read_end o s text true e h = rw e h
read_end o s text false e h = rw e h

reconciled-Lands :
    (s : Session) (text : Text)
    → IsValid s
    → s.state ≡ State.recording
    → s.reconcile_supported ≡ true
    → is_empty text ≡ false
    → Lands text s (on_recording_status (on_reconcile s text) false)
unfolding run step
reconciled-Lands s text v e n ne =
    let (u, r, typed, final, shown, state) = streamed_take s [] text v e n ne in
    let same : u ≡ on_recording_status (on_reconcile s text) false = cc in
    subst (Lands text s) same (typed, final)

ended :
    {A W V T : Type 0} (after : Unit {0} → Daemon A W V T → Type 0)
    (r : Daemon A W V T × Outcome (Unit {0}))
    → Succeeds after r
    → (r.1 ≡ ok tt) × after tt r.0
ended after (d, ok u) h = (refl, h)
ended after (d, failed e) h = elim h [ ]

-- The end of a direct streamed take, where every write and every call on the store succeeds, the
-- take's audio can be encoded, the client negotiated the reconcile and the recording status and was
-- told of the take, and the engine is recording, valid, has a focused context, and negotiated the
-- reconcile too. For a text that is not empty, the daemon succeeds, its newest call on the store
-- commits the text, and what it sent makes the engine type exactly that text and send no commit of
-- its own.
pub take-Lands :
    {A W V T : Type 0} (O : Outside A W V T) (f : FinalizedTake A) (d : Daemon A W V T)
    (o : Surroundings) (s : Session)
    → IsReliable O
    → O.encodes f.merged_samples ≡ true
    → d.wants_reconcile ≡ true
    → d.status_tx.feature ≡ true
    → take_in_flight d.status_tx.last ≡ true
    → o.is_active ≡ true
    → IsValid s
    → s.state ≡ State.recording
    → s.reconcile_supported ≡ true
    → is_empty f.final_text ≡ false
    → let r = (store_take O (speech f) >> set O false) d in
      (r.1 ≡ ok tt)
      × IsCommit f.final_text r.0.stored
      × ((news : List IpcMessage) × (r.0.sent ≡ news ++ d.sent)
          × Lands f.final_text s (read_all o s news))
take-Lands {A} {W} {V} {T} O f d o s reliable e w t l active v live n ne =
    let tx = d.status_tx in
    let push = (should_push tx ActivityPhase.idle).1 in
    let after : Unit {0} → Daemon A W V T → Type 0 = λ u.
      Sent (IsCommit f.final_text)
        (pushed_log push.recording push.activity (reconcile_update f.final_text ∷ d.sent))
        (should_push tx ActivityPhase.idle).0 in
    let (done, kept) =
      ended after ((store_take O (speech f) >> set O false) d)
        ((does_end O reliable f e).run d (refl, refl, w, tt)) in
    let (sent, status, wants, commit) = kept in
    let m = reconcile_update f.final_text in
    let (told, phase) = push_end tx t l in
    let news = pushed_log push.recording push.activity (m ∷ []) in
    let same : news
        ≡ pushed_log (some false) (then_some tx.activity_feature ActivityPhase.idle) (m ∷ []) =
      ap (λ r. pushed_log r push.activity (m ∷ [])) told
      ∙ ap (λ a. pushed_log (some false) a (m ∷ [])) phase in
    (
      done,
      commit,
      (
        news,
        sent ∙ pushed_log-append push.recording push.activity m d.sent,
        subst (λ l. Lands f.final_text s (read_all o s l)) (sym same)
            (read_end o s f.final_text tx.activity_feature active
              (reconciled-Lands s f.final_text v live n ne)),
      ),
    )

-- ===== src/Ime/Session/Takes.antt =====
-- What a take of session.rs does to the document and to the preedit, from its first partial to its
-- stop.
use mathlib.Core.List.{append_assoc, append-nil, flatten}
use idiolect.Common.{◌≡◌, refl, ◌∙◌, Bool, true, false, some, List, [], ◌∷◌, ◌++◌, map, arith}
use idiolect.Text.{Text, is_empty}
use idiolect.Ime.Session.{
  State, Effect, commit_text, commit, Session, clear_preview, on_partial_transcript, on_reconcile,
  on_recording_status,
}
use idiolect.Ime.Session.Events.{
  Event, partial_transcript, reconcile, recording_status, step, run, shown, IsValid,
}

-- The text typed into the application so far.
abbrev pub document : List Effect → Text
document [] = []
document (commit_text t ∷ es) = document es ++ t
document (e ∷ es) = document es

-- The texts that the daemon was told to finalize, newest first.
abbrev pub finalized : List Effect → List Text
finalized [] = []
finalized (commit t ∷ es) = t ∷ finalized es
finalized (e ∷ es) = finalized es

-- A take that streams: recording, with a preview mirrored on the surface.
record Streams (s : Session) (d : Text) (f : List Text) (b : Bool) : Type 0 where
  live : s.state ≡ State.recording
  negotiated : s.reconcile_supported ≡ b
  mirrored : shown s.effects ≡ s.preview
  typed : document s.effects ≡ d
  final : finalized s.effects ≡ f

begin-Streams :
    (s : Session) (b : Bool)
    → IsValid s
    → s.state ≡ State.recording
    → s.reconcile_supported ≡ b
    → Streams s (document s.effects) (finalized s.effects) b
begin-Streams s b v e n = record {
  live = e;
  negotiated = n;
  mirrored = v.mirrored;
  typed = refl;
  final = refl;
}

partial-Streams :
    (s : Session) (t d : Text) (f : List Text)
    → Streams s d f true
    → Streams (on_partial_transcript s t) d f true
unfolding on_partial_transcript
partial-Streams s t d f h = ground arith

partials_run :
    (ps : List Text) (s : Session) (d : Text) (f : List Text) (es : List Event)
    → Streams s d f true
    → (u : Session) × (run s (map partial_transcript ps ++ es) ≡ run u es) × Streams u d f true
unfolding run step
partials_run [] s d f es h = (s, refl, h)
partials_run (p ∷ ps) s d f es h =
    partials_run ps (on_partial_transcript s p) d f es (partial-Streams s p d f h)

stop-reconciled :
    (s : Session) (t d : Text) (f : List Text)
    → Streams s d f true
    → is_empty t ≡ false
    → let u = on_recording_status (on_reconcile s t) false in
      (document u.effects ≡ d ++ t)
      × (finalized u.effects ≡ f)
      × (shown u.effects ≡ [])
      × (u.state ≡ State.reviewing)
unfolding on_reconcile on_recording_status clear_preview
stop-reconciled s t d f h n = (ground arith, ground arith, ground arith, ground arith)

-- From a valid recording session with the reconcile negotiated: whatever partials come, a
-- reconcile with a text that is not empty and then the stop lead to a session where the document
-- has grown by exactly that text, the preedit is empty, the daemon was sent no commit of its own,
-- and the correction window is open.
pub streamed_take :
    (s : Session) (ps : List Text) (t : Text)
    → IsValid s
    → s.state ≡ State.recording
    → s.reconcile_supported ≡ true
    → is_empty t ≡ false
    → (u : Session) × (run s
          (map partial_transcript ps ++ reconcile t ∷ recording_status false ∷ [])
        ≡ some u)
      × (document u.effects ≡ document s.effects ++ t)
      × (finalized u.effects ≡ finalized s.effects)
      × (shown u.effects ≡ [])
      × (u.state ≡ State.reviewing)
unfolding run step
streamed_take s ps t v e n ne =
    let stop = reconcile t ∷ recording_status false ∷ [] in
    let begin : Streams s (document s.effects) (finalized s.effects) true =
      begin-Streams s true v e n in
    let (u, r, h) = partials_run ps s (document s.effects) (finalized s.effects) stop begin in
    let (a, b, c, d) = stop-reconciled u t (document s.effects) (finalized s.effects) h ne in
    (on_recording_status (on_reconcile u t) false, r ∙ refl, a, b, c, d)

fallback-Streams :
    (s : Session) (t d : Text) (f : List Text)
    → Streams s d f false
    → Streams (on_partial_transcript s t) (d ++ t) f false
unfolding on_partial_transcript
fallback-Streams s t d f h = ground (arith, append-nil d)

fallback_run :
    (ps : List Text) (s : Session) (d : Text) (f : List Text) (es : List Event)
    → Streams s d f false
    → (u : Session) × (run s (map partial_transcript ps ++ es) ≡ run u es)
      × Streams u (d ++ flatten ps) f false
unfolding run step flatten
fallback_run [] s d f es h = (s, refl, rw (append-nil d) h)
fallback_run (p ∷ ps) s d f es h =
    let (u, e, k) =
      fallback_run ps (on_partial_transcript s p) (d ++ p) f es (fallback-Streams s p d f h) in
    (u, e, rw (← append_assoc d p (flatten ps)) k)

-- From a valid recording session without the negotiated reconcile, partials and then a bare stop
-- lead to an idle session where the document has grown by the partials, each once and in order.
pub fallback_take :
    (s : Session) (ps : List Text)
    → IsValid s
    → s.state ≡ State.recording
    → s.reconcile_supported ≡ false
    → (u : Session) × (run s (map partial_transcript ps ++ recording_status false ∷ []) ≡ some u)
      × (document u.effects ≡ document s.effects ++ flatten ps)
      × (u.state ≡ State.idle)
unfolding run step on_recording_status clear_preview
fallback_take s ps v e n =
    let begin : Streams s (document s.effects) (finalized s.effects) false =
      begin-Streams s false v e n in
    let (u, r, h) =
      fallback_run ps s (document s.effects) (finalized s.effects) (recording_status false ∷ [])
        begin in
    (on_recording_status u false, r, ground arith, ground arith)

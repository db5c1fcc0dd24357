-- ===== src/Daemon/Mirror.antt =====
-- What the pushes of RecordingStatusTx in run_loop.rs tell a client.
use mathlib.Core.Path.{subst}
use idiolect.Common.{
  ◌≡◌, ◌≢◌, refl, Bool, true, Option, none, some, List, [], ◌∷◌, arith, sym, ◌∙◌, ap,
}
use idiolect.Ime.Session.{ActivityPhase}
use idiolect.Ipc.{take_in_flight}
use idiolect.Daemon.{RecordingStatusTx}
use idiolect.Daemon.Status.{same_phase, same_bool, StatusPush, should_push}

-- The phases that the daemon enters, one by one: what is pushed, and what is kept.
unfoldable pub push_all :
    RecordingStatusTx → List ActivityPhase → RecordingStatusTx × List StatusPush
push_all tx [] = (tx, [])
push_all tx (p ∷ ps) =
    let (tx', push) = should_push tx p in
    let (tx'', pushes) = push_all tx' ps in (tx'', push ∷ pushes)

abbrev pub heard {ℓ} : {R : Type ℓ} → R → Option R → R
heard r none = r
heard r (some s) = s

-- What the client holds after the pushes.
abbrev pub recording_heard : Bool → List StatusPush → Bool
recording_heard b [] = b
recording_heard b (p ∷ ps) = recording_heard (heard b p.recording) ps

abbrev pub phase_heard : ActivityPhase → List StatusPush → ActivityPhase
phase_heard q [] = q
phase_heard q (p ∷ ps) = phase_heard (heard q p.activity) ps

-- What is pushed is news to the client.
abbrev pub IsNews {ℓ} : {R : Type ℓ} → R → Option R → Type ℓ
IsNews r o = o ≢ some r

abbrev pub AllNews : Bool → ActivityPhase → List StatusPush → Type 0
AllNews b q [] = Unit {0}
AllNews b q (p ∷ ps) =
    IsNews b p.recording
    × IsNews q p.activity
    × AllNews (heard b p.recording) (heard q p.activity) ps

same_phase-eq : (p q : ActivityPhase) → same_phase p q ≡ true → p ≡ q
same_phase-eq p q h = ground arith

same_phase_refl : (p : ActivityPhase) → same_phase p p ≡ true
same_phase_refl p = ground arith

same_bool-eq : (b c : Bool) → same_bool b c ≡ true → b ≡ c
same_bool-eq b c h = ground arith

-- One push tells a client that negotiated the recording status whether a take is in flight.
pushed_recording :
    (tx : RecordingStatusTx) (p : ActivityPhase)
    → tx.feature ≡ true
    → heard (take_in_flight tx.last) (should_push tx p).1.recording ≡ take_in_flight p
unfolding should_push
pushed_recording tx p f =
    ground
      (arith, same_phase-eq p tx.last, same_bool-eq (take_in_flight p) (take_in_flight tx.last))

pushed_phase :
    (tx : RecordingStatusTx) (p : ActivityPhase)
    → tx.activity_feature ≡ true
    → heard tx.last (should_push tx p).1.activity ≡ p
unfolding should_push
pushed_phase tx p f = ground (arith, same_phase-eq p tx.last)

pushed-IsNews :
    (tx : RecordingStatusTx) (p : ActivityPhase)
    → IsNews (take_in_flight tx.last) (should_push tx p).1.recording
      × IsNews tx.last (should_push tx p).1.activity
unfolding should_push
pushed-IsNews tx p = (ground arith, ground (arith, same_phase_refl tx.last))

abbrev pub last_of : ActivityPhase → List ActivityPhase → ActivityPhase
last_of q [] = q
last_of q (p ∷ ps) = last_of p ps

all_recording :
    (tx : RecordingStatusTx) (ps : List ActivityPhase)
    → tx.feature ≡ true
    → recording_heard (take_in_flight tx.last) (push_all tx ps).1
      ≡ take_in_flight (last_of tx.last ps)
unfolding push_all should_push
all_recording tx [] f = refl
all_recording tx (p ∷ ps) f =
    ap (λ b. recording_heard b (push_all (record tx { last = p }) ps).1) (pushed_recording tx p f)
    ∙ all_recording (record tx { last = p }) ps f

all_phases :
    (tx : RecordingStatusTx) (ps : List ActivityPhase)
    → tx.activity_feature ≡ true
    → phase_heard tx.last (push_all tx ps).1 ≡ last_of tx.last ps
unfolding push_all should_push
all_phases tx [] f = refl
all_phases tx (p ∷ ps) f =
    ap (λ q. phase_heard q (push_all (record tx { last = p }) ps).1) (pushed_phase tx p f)
    ∙ all_phases (record tx { last = p }) ps f

all_news :
    (tx : RecordingStatusTx) (ps : List ActivityPhase)
    → tx.feature ≡ true
    → tx.activity_feature ≡ true
    → AllNews (take_in_flight tx.last) tx.last (push_all tx ps).1
unfolding push_all should_push
all_news tx [] f a = tt
all_news tx (p ∷ ps) f a =
    let tx' = record tx { last = p } in
    let (new_recording, new_phase) = pushed-IsNews tx p in
    let rest : AllNews (heard (take_in_flight tx.last) (should_push tx p).1.recording)
        (heard tx.last (should_push tx p).1.activity) (push_all tx' ps).1 =
      subst
        (λ q.
          AllNews (heard (take_in_flight tx.last) (should_push tx p).1.recording) q
            (push_all tx' ps).1)
        (sym (pushed_phase tx p a))
        (subst (λ b. AllNews b p (push_all tx' ps).1) (sym (pushed_recording tx p f))
          (all_news tx' ps f a)) in
    (new_recording, new_phase, rest)

-- A client that negotiated both status features: whatever phases the daemon enters, what the client
-- was last told is whether a take is in flight in the last of them, and that phase; and no push
-- repeats what the client holds.
pub status_mirrored :
    (tx : RecordingStatusTx) (ps : List ActivityPhase)
    → tx.feature ≡ true
    → tx.activity_feature ≡ true
    → (recording_heard (take_in_flight tx.last) (push_all tx ps).1
        ≡ take_in_flight (last_of tx.last ps))
      × (phase_heard tx.last (push_all tx ps).1 ≡ last_of tx.last ps)
      × AllNews (take_in_flight tx.last) tx.last (push_all tx ps).1
status_mirrored tx ps f a = (all_recording tx ps f, all_phases tx ps a, all_news tx ps f a)

-- ===== src/Ime/Session/Typing.antt =====
-- The correction window of session.rs where the user edits nothing: moving the cursor and typing on.
use idiolect.Common.{
  ℕ, ◌≡◌, refl, ap, ◌∙◌, false, none, some, List, [], ◌∷◌, ◌++◌, map, arith, length, All,
  Bool-cases, inl, inr, ◌-◌, ◌+◌, ltb,
}
use idiolect.Text.{Text, is_empty}
use idiolect.Ime.Review.{
  Review, Key, left, right, home, end, char, passthrough, trigger, cancel, backspace, delete,
}
use idiolect.Ime.Review
use idiolect.Ime.Session.{
  State, Effect, Session, end_review, on_key_reviewing, on_key, on_transcript, clear_preview,
}
use idiolect.Ime.Session.Events.{Event, key, transcript, step, run}

-- The keys that move the cursor.
abbrev pub IsMove : Key → Type 0
IsMove left = Unit {0}
IsMove right = Unit {0}
IsMove home = Unit {0}
IsMove end = Unit {0}
IsMove _ = ⊥

abbrev pub typed : List ℕ → List Event
typed [] = []
typed (c ∷ cs) = key (char c) ∷ typed cs

-- The window is open over an unedited text, and these are the effects so far.
record Unedited (es : List Effect) (s : Session) : Type 0 where
  reviewing : s.state ≡ State.reviewing
  review : Review
  opened : s.review ≡ some review
  unedited : review.corrected ≡ false
  same : s.effects ≡ es

-- The window is shut with no further effect.
record Shut (es : List Effect) (s : Session) : Type 0 where
  idle : s.state ≡ State.idle
  shut : s.review ≡ none
  same : s.effects ≡ es

open-Unedited :
    (s : Session) (t : Text)
    → s.state ≡ State.recording
    → is_empty t ≡ false
    → Unedited (on_transcript s t).effects (on_transcript s t)
unfolding on_transcript clear_preview Review.new
open-Unedited s t e n = record {
  reviewing = ground arith;
  review = Review.new t;
  opened = ground arith;
  unedited = refl;
  same = refl;
}

run-step :
    (s t : Session) (e : Event) (later : List Event)
    → step s e ≡ some t
    → run s (e ∷ later) ≡ run t later
unfolding run
run-step s t e later h = ground arith

step-reviewing :
    (s : Session) (r : Review) (k : Key)
    → s.state ≡ State.reviewing
    → s.review ≡ some r
    → step s (key k) ≡ some (on_key_reviewing s r k).0
unfolding step on_key
step-reviewing s r k st e = ground arith

moved-Unedited :
    (es : List Effect) (s : Session) (r : Review) (k : Key)
    → IsMove k
    → s.state ≡ State.reviewing
    → s.review ≡ some r
    → r.corrected ≡ false
    → s.effects ≡ es
    → Unedited es (on_key_reviewing s r k).0
unfolding on_key_reviewing
moved-Unedited es s r left m st o u e = record {
  reviewing = st;
  review = record r { cursor = r.cursor - 1 };
  opened = refl;
  unedited = u;
  same = e;
}
moved-Unedited es s r right m st o u e = elim (Bool-cases (ltb r.cursor (length r.chars))) [
  | inl room ↦ rw room (record {
    reviewing = st;
    review = record r { cursor = r.cursor + 1 };
    opened = refl;
    unedited = u;
    same = e;
  })
  | inr at_end ↦
      rw at_end (record { reviewing = st; review = r; opened = o; unedited = u; same = e })
]
moved-Unedited es s r home m st o u e = record {
  reviewing = st;
  review = record r { cursor = 0 };
  opened = refl;
  unedited = u;
  same = e;
}
moved-Unedited es s r end m st o u e = record {
  reviewing = st;
  review = record r { cursor = length r.chars };
  opened = refl;
  unedited = u;
  same = e;
}
moved-Unedited es s r (char c) m st o u e = elim m [ ]
moved-Unedited es s r trigger m st o u e = elim m [ ]
moved-Unedited es s r cancel m st o u e = elim m [ ]
moved-Unedited es s r backspace m st o u e = elim m [ ]
moved-Unedited es s r delete m st o u e = elim m [ ]
moved-Unedited es s r passthrough m st o u e = elim m [ ]

moves-Unedited :
    (es : List Effect) (s : Session) (ks : List Key) (later : List Event)
    → All IsMove ks
    → Unedited es s
    → (t : Session) × (run s (map key ks ++ later) ≡ run t later) × Unedited es t
moves-Unedited es s [] later m h = (s, refl, h)
moves-Unedited es s (k ∷ ks) later m h =
    let next = (on_key_reviewing s h.review k).0 in
    let (u, r, h') =
      moves-Unedited es next ks later m.1
        (moved-Unedited es s h.review k m.0 h.reviewing h.opened h.unedited h.same) in
    (
      u,
      run-step s next (key k) (map key ks ++ later)
            (step-reviewing s h.review k h.reviewing h.opened)
          ∙ r,
      h',
    )

end_review-Shut : (es : List Effect) (s : Session) → Unedited es s → Shut es (end_review s)
unfolding end_review
end_review-Shut es s h = record { idle = ground arith; shut = ground arith; same = ground arith }

step-idle :
    (s : Session) (c : ℕ)
    → s.state ≡ State.idle
    → (step s (key (char c)) ≡ some s) × (step s (key passthrough) ≡ some s)
unfolding step on_key
step-idle s c e = (ground arith, ground arith)

-- Once the window is shut, the keys that are typed are none of the session's business.
run-idle :
    (s : Session) (cs : List ℕ)
    → s.state ≡ State.idle
    → run s (typed cs ++ key passthrough ∷ []) ≡ some s
run-idle s [] e = run-step s s (key passthrough) [] (step-idle s 0 e).1 ∙ unfold run in refl
run-idle s (c ∷ cs) e =
    run-step s s (key (char c)) (typed cs ++ key passthrough ∷ []) (step-idle s c e).0
    ∙ run-idle s cs e

on_key_reviewing-last :
    (s : Session) (r : Review) (c : ℕ)
    → r.corrected ≡ false
    → r.cursor ≡ length r.chars
    → (on_key_reviewing s r (char c)).0 ≡ end_review s
unfolding on_key_reviewing
on_key_reviewing-last s r c u e = ground arith

-- With the cursor at the end of the unedited text, a character or a key that is no edit shuts the
-- window.
close-Shut :
    (es : List Effect) (s : Session) (r : Review) (cs : List ℕ)
    → s.state ≡ State.reviewing
    → s.review ≡ some r
    → r.corrected ≡ false
    → r.cursor ≡ length r.chars
    → s.effects ≡ es
    → (u : Session) × (run s (typed cs ++ key passthrough ∷ []) ≡ some u) × Shut es u
close-Shut es s r [] st o u l e =
    let closed : Unedited es s = record {
      reviewing = st;
      review = r;
      opened = o;
      unedited = u;
      same = e;
    } in
    (
      end_review s,
      run-step s (end_review s) (key passthrough) []
            (step-reviewing s r passthrough st o ∙ unfold on_key_reviewing in refl)
          ∙ unfold run in refl,
      end_review-Shut es s closed,
    )
close-Shut es s r (c ∷ cs) st o u l e =
    let closed : Unedited es s = record {
      reviewing = st;
      review = r;
      opened = o;
      unedited = u;
      same = e;
    } in
    let shut = end_review-Shut es s closed in
    (
      end_review s,
      run-step s (end_review s) (key (char c)) (typed cs ++ key passthrough ∷ [])
            (step-reviewing s r (char c) st o ∙ ap some (on_key_reviewing-last s r c u l))
          ∙ run-idle (end_review s) cs shut.idle,
      shut,
    )

-- In a recording session, a transcript that is not empty opens the correction window. Whatever keys
-- then move the cursor, if the user goes to the end of the text and types on, whatever characters,
-- and leaves it with a key that the engine passes through, then the window is shut and, from the
-- transcript on, nothing has been sent or typed: no correction is reported.
pub typing_on :
    (s : Session) (t : Text) (ks : List Key) (cs : List ℕ)
    → s.state ≡ State.recording
    → is_empty t ≡ false
    → All IsMove ks
    → (u : Session) × (run s
          (transcript t ∷ map key ks ++ (key end ∷ typed cs ++ key passthrough ∷ []))
        ≡ some u)
      × (u.effects ≡ (on_transcript s t).effects)
      × (u.review ≡ none)
      × (u.state ≡ State.idle)
typing_on s t ks cs st n m =
    let es = (on_transcript s t).effects in
    let later = key end ∷ typed cs ++ key passthrough ∷ [] in
    let (v, r, h) = moves-Unedited es (on_transcript s t) ks later m (open-Unedited s t st n) in
    let end_step = step-reviewing v h.review end h.reviewing h.opened in
    let w = (on_key_reviewing v h.review end).0 in
    let (u, q, shut) =
      close-Shut es w (record h.review { cursor = length h.review.chars }) cs
        (unfold on_key_reviewing in h.reviewing) (unfold on_key_reviewing in refl) h.unedited refl
        (unfold on_key_reviewing in h.same) in
    (
      u,
      run-step s (on_transcript s t) (transcript t) (map key ks ++ later) (unfold step in refl)
          ∙ r
          ∙ run-step v w (key end) (typed cs ++ key passthrough ∷ []) end_step
          ∙ q,
      shut.same,
      shut.shut,
      shut.idle,
    )

-- ===== src/Ime/Session.antt =====
-- crates/idiolect-adapters/desktop/ibus/src/session.rs: `Session<D, S>`. The daemon and the surface
-- are seen through the calls made on them, newest first, in `effects`. `none` from a key is the
-- panic of `expect("review buffer in Reviewing")`. ActivityPhase is that of crates/idiolect-ipc.
pub mod Events
pub mod Invariant
pub mod Takes
pub mod Typing
pub mod Authority
pub mod Corrections
pub mod Editing
use idiolect.Common.{
  ◌+◌, ◌-◌, Bool, true, false, not, ◌&&◌, Option, none, some, List, [], ◌∷◌, ◌++◌, ltb,
  if◌then◌else◌, length,
}
use idiolect.Text.{Text, is_empty, text_eq}
use idiolect.Ime.Review.{
  Key, trigger, cancel, backspace, delete, left, right, home, end, char, passthrough, Review, text,
  remove, insert,
}
use idiolect.Ime.Review

pub data ActivityPhase : Type 0 where
  idle recording transcribing loading_model : ActivityPhase

pub data State : Type 0 where
  idle recording reviewing : State

-- A call on the DaemonClient (the first four) or on the Surface.
pub data Effect : Type 0 where
  toggle : Effect
  commit : Text → Effect
  report_correction : Text → Effect
  cancel_take : Effect
  commit_text : Text → Effect
  set_preedit : Text → Effect

pub record Session : Type 0 where
  pub state : State
  pub review : Option Review
  pub recording : Bool
  pub activity : ActivityPhase
  pub phase_channel_live : Bool
  pub preview : Text
  pub reconcile_supported : Bool
  pub effects : List Effect

unfoldable pub new : Session
new = record {
  state = State.idle;
  review = none;
  recording = false;
  activity = ActivityPhase.idle;
  phase_channel_live = true;
  preview = [];
  reconcile_supported = false;
  effects = [];
}

abbrev pub emit : Effect → Session → Session
emit e s = record s { effects = e ∷ s.effects }

unfoldable pub clear_preview : Session → Session
clear_preview s =
    if is_empty s.preview then s else emit (set_preedit []) (record s { preview = [] })

-- The part of `end_review` under `if let Some(review) = self.review.take()`.
report_review : Option Review → Session → Session
report_review none s = s
report_review (some r) s =
    if r.corrected && not (text_eq (text r) r.committed)
    then emit (report_correction (text r)) s
    else s

unfoldable pub end_review : Session → Session
unfolding report_review text
end_review s = report_review s.review (record s { state = State.idle; review = none })

abbrev put_review : Review → Session → Session
put_review r s = record s { review = some r }

-- `on_key_reviewing`, with the buffer that `expect` found.
unfoldable pub on_key_reviewing : Session → Review → Key → Session × Bool
on_key_reviewing s r left = (put_review (record r { cursor = r.cursor - 1 }) s, false)
on_key_reviewing s r right = (
  if ltb r.cursor (length r.chars) then put_review (record r { cursor = r.cursor + 1 }) s else s,
  false,
)
on_key_reviewing s r home = (put_review (record r { cursor = 0 }) s, false)
on_key_reviewing s r end = (put_review (record r { cursor = length r.chars }) s, false)
on_key_reviewing s r backspace = (
  if ltb 0 r.cursor
      then put_review
          (record r {
            cursor = r.cursor - 1;
            chars = remove r.chars (r.cursor - 1);
            corrected = true;
          })
          s
      else s,
  false,
)
on_key_reviewing s r delete = (
  if ltb r.cursor (length r.chars)
      then put_review (record r { chars = remove r.chars r.cursor; corrected = true }) s
      else s,
  false,
)
on_key_reviewing s r (char c) = (
  if ltb r.cursor (length r.chars)
      then put_review
          (record r { chars = insert r.chars r.cursor c; cursor = r.cursor + 1; corrected = true })
          s
      else if r.corrected
      then put_review (record r { chars = r.chars ++ c ∷ []; cursor = r.cursor + 1 }) s
      else end_review s,
  false,
)
on_key_reviewing s r trigger = (emit toggle (end_review s), true)
on_key_reviewing s r cancel = (end_review s, false)
on_key_reviewing s r passthrough = (end_review s, false)

on_key_idle : Session → Key → Session × Bool
on_key_idle s trigger = (emit toggle s, true)
on_key_idle s _ = (s, false)

on_key_recording : Session → Key → Session × Bool
on_key_recording s trigger = (emit toggle s, true)
on_key_recording s cancel =
    (record (clear_preview (emit cancel_take s)) { state = State.idle }, true)
on_key_recording s _ = (s, false)

on_key_in_state : State → Session → Key → Option (Session × Bool)
on_key_in_state State.idle s k = some (on_key_idle s k)
on_key_in_state State.recording s k = some (on_key_recording s k)
on_key_in_state State.reviewing s k = elim s.review [
  | none ↦ none
  | some r ↦ some (on_key_reviewing s r k)
]

unfoldable pub on_key : Session → Key → Option (Session × Bool)
unfolding on_key_in_state on_key_idle on_key_recording
on_key s k = on_key_in_state s.state s k

-- The `match self.state` that `on_transcript` and `on_reconcile` begin with; `none` is its return.
enter_take : State → Session → Option Session
enter_take State.recording s = some s
enter_take State.reviewing s = if s.recording then some (end_review s) else none
enter_take State.idle s = none

open_window : Text → Session → Session
unfolding Review.new
open_window t s = record s { review = some (Review.new t); state = State.reviewing }

unfoldable pub on_transcript : Session → Text → Session
unfolding enter_take open_window
on_transcript s t = elim (enter_take s.state s) [
  | none ↦ s
  | some u ↦
      let v = clear_preview u in
      if is_empty t
      then record v { state = State.idle }
      else open_window t (emit (commit t) (emit (commit_text t) v))
]

show_partial : State → Session → Text → Session
show_partial State.recording s t =
    if is_empty t
    then s
    else if s.reconcile_supported
    then emit (set_preedit (s.preview ++ t)) (record s { preview = s.preview ++ t })
    else emit (commit_text t) s
show_partial _ s t = s

unfoldable pub on_partial_transcript : Session → Text → Session
unfolding show_partial
on_partial_transcript s t = show_partial s.state s t

unfoldable pub on_reconcile : Session → Text → Session
unfolding enter_take open_window
on_reconcile s t = elim (enter_take s.state s) [
  | none ↦ s
  | some u ↦
      let v = clear_preview u in
      if is_empty t then record v { state = State.idle } else open_window t (emit (commit_text t) v)
]

mirror : State → Session → Bool → Session
mirror State.reviewing s true = record (end_review s) { state = State.recording }
mirror State.reviewing s false = s
mirror State.recording s false = record (clear_preview s) { state = State.idle }
mirror State.recording s true = record s { state = State.recording }
mirror State.idle s b = record s { state = if b then State.recording else State.idle }

unfoldable pub on_recording_status : Session → Bool → Session
unfolding mirror
on_recording_status s b =
    mirror s.state
      (record s {
        recording = b;
        activity = if b then ActivityPhase.recording else ActivityPhase.idle;
      })
      b

unfoldable pub on_activity : Session → ActivityPhase → Session
on_activity s p = record s { activity = p }

unfoldable pub set_phase_channel_live : Session → Bool → Session
set_phase_channel_live s live = record s { phase_channel_live = live }

unfoldable pub set_reconcile_supported : Session → Bool → Session
set_reconcile_supported s supported = record s { reconcile_supported = supported }

unfoldable pub reset_to_idle : Session → Session
reset_to_idle s = record (clear_preview (record s { review = none })) {
  activity = ActivityPhase.idle;
  state = State.idle;
  recording = false;
}

unfoldable pub commit_reviewed : Session → Text → Session
commit_reviewed s t =
    let u = if is_empty t then emit cancel_take s else emit (commit t) (emit (commit_text t) s) in
    record u { review = none; state = State.idle }

unfoldable pub cancel_reviewed : Session → Session
cancel_reviewed s = record (emit cancel_take s) { review = none; state = State.idle }

discard_take : State → Session → Session
discard_take State.recording s = record (clear_preview (emit cancel_take s)) {
  review = none;
  state = State.idle;
}
discard_take State.reviewing s =
    if s.recording
    then record (clear_preview (emit cancel_take s)) { review = none; state = State.idle }
    else s
discard_take State.idle s = s

unfoldable pub on_transcript_without_target : Session → Session
unfolding discard_take
on_transcript_without_target s = discard_take s.state s

unfoldable pub on_focus_out : Session → Session
on_focus_out s = elim s.state [ State.reviewing ↦ end_review s | _ ↦ s ]

unfoldable pub on_error : Session → Session
on_error s = record (clear_preview (record s { review = none })) { state = State.idle }

badge : ActivityPhase → ActivityPhase
badge ActivityPhase.transcribing = ActivityPhase.transcribing
badge ActivityPhase.loading_model = ActivityPhase.loading_model
badge _ = ActivityPhase.recording

unfoldable pub indicator_phase : Session → Option ActivityPhase
unfolding badge
indicator_phase s = elim s.state [
  | State.recording ↦ if s.phase_channel_live then some (badge s.activity) else none
  | _ ↦ none
]

-- ===== src/Training/Registry.antt =====
-- The histories of AdapterRegistry in crates/idiolect-trainerctl/src/promotion.rs.
use mathlib.Core.Path.{subst}
use idiolect.Common.{
  ◌≡◌, refl, sym, ap, ◌∙◌, ◌⊎◌, inl, inr, Bool, true, false, Option, none, some, List, [], ◌∷◌,
  arith, if◌then◌else◌,
}
use idiolect.Text.{Text, text_eq, text_eq→eq, text_eq_refl}
use idiolect.Training.{
  ArtifactCompatibility, is_compatible, EvaluationReport, AdapterRegistryError, no_rollback_target,
  AdapterState, AdapterRegistry, new, put, registered, register_active, check, promote_checked,
  promote, rolled_back, rollback, active_adapter_id,
}

pub data Operation : Type 0 where
  register : Text → Text → Operation
  promoting : Text → Text → Text → EvaluationReport → ArtifactCompatibility → Operation
  rolling_back : Text → Operation

unfoldable pub step : AdapterRegistry → Operation → AdapterRegistry
step r (register user adapter) = register_active r user adapter
step r (promoting user adapter digest report c) = (promote r user adapter digest report c).0
step r (rolling_back user) = (rollback r user).0

-- The newest operation stands first.
unfoldable pub after : List Operation → AdapterRegistry
after [] = new
after (o ∷ history) = step (after history) o

-- The operation names the adapter for the user, and if it is a promotion, the artifact is compatible
-- and the digests of the manifest, the report and the artifact agree.
abbrev pub Names : Text → Text → Operation → Type 0
Names user adapter (register u a) = (u ≡ user) × (a ≡ adapter)
Names user adapter (promoting u a digest report c) =
    (u ≡ user)
    × (a ≡ adapter)
    × (is_compatible c ≡ true)
    × (report.artifact_digest ≡ c.artifact_digest)
    × (digest ≡ report.manifest_digest)
    × (digest ≡ c.manifest_digest)
    × (report.metric_report_digest ≡ c.metric_report_digest)
Names user adapter (rolling_back u) = ⊥

abbrev pub Vouched : Text → Text → List Operation → Type 0
Vouched user adapter [] = ⊥
Vouched user adapter (o ∷ history) = Names user adapter o ⊎ Vouched user adapter history

-- Both adapters of a state are vouched for.
record StateIsVouched (user : Text) (s : AdapterState) (history : List Operation) : Type 0 where
  active : (a : Text) → s.active_adapter_id ≡ some a → Vouched user a history
  previous : (a : Text) → s.rollback_adapter_id ≡ some a → Vouched user a history

check_lem :
    (digest : Text) (report : EvaluationReport) (c : ArtifactCompatibility)
    → check digest report c ≡ none
    → (is_compatible c ≡ true)
      × (text_eq report.artifact_digest c.artifact_digest ≡ true)
      × (text_eq digest report.manifest_digest ≡ true)
      × (text_eq digest c.manifest_digest ≡ true)
      × (text_eq report.metric_report_digest c.metric_report_digest ≡ true)
unfolding check
check_lem digest report c h = (ground arith, ground arith, ground arith, ground arith, ground arith)

later :
    (user : Text) (s : AdapterState) (o : Operation) (history : List Operation)
    → StateIsVouched user s history
    → StateIsVouched user s (o ∷ history)
later user s o history h = record {
  active = λ a e. inr (h.active a e);
  previous = λ a e. inr (h.previous a e);
}

abbrev Holds : AdapterRegistry → List Operation → Type 0
Holds r history = (user : Text) → StateIsVouched user (r user) history

chosen :
    (b : Bool) (user : Text) (s t : AdapterState) (history : List Operation)
    → (b ≡ true → StateIsVouched user s history)
    → StateIsVouched user t history
    → StateIsVouched user (if b then s else t) history
chosen true user s t history h k = h refl
chosen false user s t history h k = k

put-Holds :
    (r : AdapterRegistry) (user : Text) (s : AdapterState) (history : List Operation)
    → Holds r history
    → StateIsVouched user s history
    → Holds (put r user s) history
unfolding put
put-Holds r user s history h k other =
    chosen (text_eq other user) other s (r other) history
      (λ e. subst (λ u. StateIsVouched u s history) (sym (text_eq→eq other user e)) k) (h other)

registered-StateIsVouched :
    (user adapter : Text) (s : AdapterState) (active : Option Text) (history : List Operation)
    → StateIsVouched user s (register user adapter ∷ history)
    → StateIsVouched user (registered s adapter active) (register user adapter ∷ history)
unfolding registered
registered-StateIsVouched user adapter s none history h = record {
  active = λ a e. inl (refl, cc);
  previous = λ a e. h.previous a e;
}
registered-StateIsVouched user adapter s (some active) history h = h

promote_checked-Holds :
    (user adapter digest : Text) (report : EvaluationReport) (c : ArtifactCompatibility)
    (r : AdapterRegistry) (history : List Operation) (e : Option AdapterRegistryError)
    → (e ≡ none → Names user adapter (promoting user adapter digest report c))
    → Holds r history
    → Holds (promote_checked e r user adapter).0 (promoting user adapter digest report c ∷ history)
unfolding promote_checked
promote_checked-Holds user adapter digest report c r history (some e) n h =
    λ u. later u (r u) (promoting user adapter digest report c) history (h u)
promote_checked-Holds user adapter digest report c r history none n h =
    let o = promoting user adapter digest report c in
    let vouched : Vouched user adapter (o ∷ history) = inl (n refl) in
    put-Holds r user _ (o ∷ history) (λ u. later u (r u) o history (h u))
      (record {
        active = λ a e. subst (λ x. Vouched user x (o ∷ history)) (cc) vouched;
        previous = λ a e. inr ((h user).active a e);
      })

rolled_back-Holds :
    (user : Text) (r : AdapterRegistry) (history : List Operation) (previous : Option Text)
    → (r user).rollback_adapter_id ≡ previous
    → Holds r history
    → Holds (rolled_back previous r user).0 (rolling_back user ∷ history)
unfolding rolled_back
rolled_back-Holds user r history none e h = λ u. later u (r u) (rolling_back user) history (h u)
rolled_back-Holds user r history (some previous) e h =
    put-Holds r user _ (rolling_back user ∷ history)
      (λ u. later u (r u) (rolling_back user) history (h u))
      (record { active = λ a x. inr ((h user).previous a (e ∙ x)); previous = λ a x. cc })

checked-Names :
    (user adapter digest : Text) (report : EvaluationReport) (c : ArtifactCompatibility)
    → check digest report c ≡ none
    → Names user adapter (promoting user adapter digest report c)
checked-Names user adapter digest report c h =
    let (compatible, a, m, n, p) = check_lem digest report c h in
    (refl, refl, compatible, text_eq→eq _ _ a, text_eq→eq _ _ m, text_eq→eq _ _ n, text_eq→eq _ _ p)

after-Holds : (history : List Operation) → Holds (after history) history
unfolding after step new register_active promote rollback
after-Holds [] = λ user. record { active = λ a e. cc; previous = λ a e. cc }
after-Holds (register user adapter ∷ history) =
    let r = after history in
    let o = register user adapter in
    let h : Holds r (o ∷ history) = λ u. later u (r u) o history (after-Holds history u) in
    put-Holds r user _ (o ∷ history) h
      (registered-StateIsVouched user adapter (r user) (r user).active_adapter_id history (h user))
after-Holds (promoting user adapter digest report c ∷ history) =
    promote_checked-Holds user adapter digest report c (after history) history
      (check digest report c) (checked-Names user adapter digest report c) (after-Holds history)
after-Holds (rolling_back user ∷ history) =
    rolled_back-Holds user (after history) history (after history user).rollback_adapter_id refl
      (after-Holds history)

-- Whatever was registered, promoted and rolled back: the adapter that is active for a user was
-- registered for that user, or promoted for that user when its artifact was compatible and the
-- digests of the manifest, the report and the artifact agreed.
pub active-Vouched :
    (history : List Operation) (user adapter : Text)
    → active_adapter_id (after history) user ≡ some adapter
    → Vouched user adapter history
unfolding active_adapter_id
active-Vouched history user adapter e = (after-Holds history user).active adapter e

put_same : (r : AdapterRegistry) (user : Text) (s : AdapterState) → put r user s user ≡ s
unfolding put
put_same r user s = rw (text_eq_refl user) refl

rolled_back_once :
    (m : AdapterRegistry) (user active : Text) (previous : Option Text)
    → previous ≡ some active
    → let back = (rolled_back previous m user).0 in
      ((rolled_back previous m user).1 ≡ none)
      × ((back user).active_adapter_id ≡ some active)
      × (rolled_back (back user).rollback_adapter_id back user ≡ (back, some no_rollback_target))
unfolding rolled_back
rolled_back_once m user active none e = cc
rolled_back_once m user active (some p) e =
    let s : AdapterState = record { active_adapter_id = some p; rollback_adapter_id = none } in
    (
      refl,
      ap (λ t. t.active_adapter_id) (put_same m user s) ∙ e,
      ap (λ t. rolled_back t.rollback_adapter_id (put m user s) user) (put_same m user s),
    )

promote_checked_lem :
    (e : Option AdapterRegistryError) (r : AdapterRegistry) (user adapter : Text)
    → (promote_checked e r user adapter).1 ≡ none
    → (promote_checked e r user adapter).0 user ≡ record {
      active_adapter_id = some adapter;
      rollback_adapter_id = (r user).active_adapter_id;
    }
unfolding promote_checked
promote_checked_lem (some x) r user adapter h = cc
promote_checked_lem none r user adapter h = put_same r user _

-- A promotion that succeeds makes its adapter active, and a rollback then brings back the adapter
-- that was active before, once: a second rollback is refused and changes nothing.
pub rollback-promote :
    (r : AdapterRegistry) (user adapter digest active : Text) (report : EvaluationReport)
    (c : ArtifactCompatibility)
    → (promote r user adapter digest report c).1 ≡ none
    → active_adapter_id r user ≡ some active
    → let promoted = (promote r user adapter digest report c).0 in
      let back = (rollback promoted user).0 in
      (active_adapter_id promoted user ≡ some adapter)
      × ((rollback promoted user).1 ≡ none)
      × (active_adapter_id back user ≡ some active)
      × (rollback back user ≡ (back, some no_rollback_target))
unfolding active_adapter_id rollback promote
rollback-promote r user adapter digest active report c p e =
    let m = (promote_checked (check digest report c) r user adapter).0 in
    let state = promote_checked_lem (check digest report c) r user adapter p in
    let (done, active_again, refused) =
      rolled_back_once m user active (m user).rollback_adapter_id
        (ap (λ t. t.rollback_adapter_id) state ∙ e) in
    (ap (λ t. t.active_adapter_id) state, done, active_again, refused)

-- ===== src/Daemon/Rules.antt =====
-- Rules for the handlers of run_loop.rs: what a handler leaves alone, and how what holds before it
-- leads to what holds after.
use mathlib.Core.Path.{subst}
use idiolect.Common.{
  ◌≡◌, ◌≢◌, refl, sym, ap, ◌∙◌, inl, inr, Bool, true, false, Option, none, some, Bool-cases,
  if◌then◌else◌, ℕ,
}
use idiolect.Daemon.{
  disconnect, fatal, Outcome, ok, failed, StoreCall, answered, ActiveSession, Outside, Daemon,
  Action, continue, ◌>>=◌, ◌>>◌, pure, fail, gets, modify,
}
use idiolect.Daemon.Protocol.{
  Phase, broken, phase_after, due, View, view, Logged, Agrees, Settled, Intact,
}
use idiolect.Daemon.Sessions.{recorded, store, set_active}

module _ {A W V T : Type 0} where
  -- The handler leaves the view as it was, however it ends.
  abbrev pub Quiet : {R : Type 0} → Action A W V T R → Type 0
  Quiet m = (d : Daemon A W V T) → view (m d).0 ≡ view d

  Quiet-then :
      {Q R : Type 0} (f : Q → Action A W V T R) (v : View) (p : Daemon A W V T × Outcome Q)
      → ((q : Q) → Quiet (f q))
      → view p.0 ≡ v
      → view (continue p f).0 ≡ v
  Quiet-then f v (d, ok q) h e = h q d ∙ e
  Quiet-then f v (d, failed x) h e = e

  pub Quiet-bind :
      {Q R : Type 0} (m : Action A W V T Q) (f : Q → Action A W V T R)
      → Quiet m
      → ((q : Q) → Quiet (f q))
      → Quiet (m >>= f)
  Quiet-bind m f h k d = Quiet-then f (view d) (m d) k (h d)

  -- What holds after a handler: `after` where it succeeds; that log and daemon agree, where the
  -- client is gone; that no call was out of turn, where the daemon stops.
  abbrev pub Ends : {R : Type 0} → (R → View → Type 0) → Daemon A W V T × Outcome R → Type 0
  Ends after (d, ok r) = after r (view d)
  Ends after (d, failed disconnect) = Agrees (view d)
  Ends after (d, failed fatal) = Intact (view d)

  pub record Leads {R : Type 0} (before : View → Type 0) (m : Action A W V T R)
      (after : R → View → Type 0) : Type 0 where
    pub run : (d : Daemon A W V T) → before (view d) → Ends after (m d)

  leads_then :
      {Q R : Type 0} (f : Q → Action A W V T R) (middle : Q → View → Type 0)
      (after : R → View → Type 0) (p : Daemon A W V T × Outcome Q)
      → Ends middle p
      → ((q : Q) → Leads (middle q) (f q) after)
      → Ends after (continue p f)
  leads_then f middle after (d, ok q) h k = (k q).run d h
  leads_then f middle after (d, failed disconnect) h k = h
  leads_then f middle after (d, failed fatal) h k = h

  pub leads_bind :
      {Q R : Type 0} {before : View → Type 0} {middle : Q → View → Type 0}
      {after : R → View → Type 0} {m : Action A W V T Q} {f : Q → Action A W V T R}
      → Leads before m middle
      → ((q : Q) → Leads (middle q) (f q) after)
      → Leads before (m >>= f) after
  leads_bind {middle} {after} {m} {f} h k = record {
    run = λ d b. leads_then f middle after (m d) (h.run d b) k;
  }

  pub leads_pure :
      {R : Type 0} {before : View → Type 0} {after : R → View → Type 0} (r : R)
      → ((v : View) → before v → after r v)
      → Leads before (pure r) after
  leads_pure r h = record { run = λ d b. h (view d) b }

  -- A weaker start.
  pub leads_from :
      {R : Type 0} {before start : View → Type 0} {after : R → View → Type 0} {m : Action A W V T R}
      → ((v : View) → before v → start v)
      → Leads start m after
      → Leads before m after
  leads_from h l = record { run = λ d b. l.run d (h (view d) b) }

  -- A weaker end.
  to_end :
      {R : Type 0} (after goal : R → View → Type 0) (p : Daemon A W V T × Outcome R)
      → ((r : R) (v : View) → after r v → goal r v)
      → Ends after p
      → Ends goal p
  to_end after goal (d, ok r) h e = h r (view d) e
  to_end after goal (d, failed disconnect) h e = e
  to_end after goal (d, failed fatal) h e = e

  pub leads_to :
      {R : Type 0} {before : View → Type 0} {after goal : R → View → Type 0} {m : Action A W V T R}
      → ((r : R) (v : View) → after r v → goal r v)
      → Leads before m after
      → Leads before m goal
  leads_to {after} {goal} {m} h l = record { run = λ d b. to_end after goal (m d) h (l.run d b) }

  pub leads_if :
      {R : Type 0} {before : View → Type 0} {after : R → View → Type 0} {m k : Action A W V T R}
      (b : Bool)
      → (b ≡ true → Leads before m after)
      → (b ≡ false → Leads before k after)
      → Leads before (if b then m else k) after
  leads_if true h l = h refl
  leads_if false h l = l refl

  -- A handler that reads the state first.
  pub leads_gets :
      {Q R : Type 0} {before : View → Type 0} {after : R → View → Type 0}
      (middle : Q → View → Type 0) (g : Daemon A W V T → Q) (f : Q → Action A W V T R)
      → ((d : Daemon A W V T) → before (view d) → middle (g d) (view d))
      → ((q : Q) → Leads (middle q) (f q) after)
      → Leads before (gets g >>= f) after
  leads_gets middle g f h k = record { run = λ d b. (k (g d)).run d (h d b) }

  -- A handler that writes the state first.
  pub leads_modify :
      {R : Type 0} {before middle : View → Type 0} {after : R → View → Type 0}
      (f : Daemon A W V T → Daemon A W V T) (m : Action A W V T R)
      → ((d : Daemon A W V T) → before (view d) → middle (view (f d)))
      → Leads middle m after
      → Leads before (modify f >> m) after
  leads_modify f m h k = record { run = λ d b. k.run (f d) (h d b) }

  quiet_ends :
      {R : Type 0} (keep : View → Type 0) (v : View) (p : Daemon A W V T × Outcome R)
      → ((u : View) → keep u → Agrees u)
      → ((u : View) → keep u → Intact u)
      → view p.0 ≡ v
      → keep v
      → Ends (λ r. keep) p
  quiet_ends keep v (d, ok r) c f e h = subst keep (sym e) h
  quiet_ends keep v (d, failed disconnect) c f e h = c (view d) (subst keep (sym e) h)
  quiet_ends keep v (d, failed fatal) c f e h = f (view d) (subst keep (sym e) h)

  -- A quiet handler keeps what holds, if that is enough for an end.
  pub leads_quiet :
      {R : Type 0} {keep : View → Type 0} (m : Action A W V T R)
      → ((u : View) → keep u → Agrees u)
      → ((u : View) → keep u → Intact u)
      → Quiet m
      → Leads keep m (λ r. keep)
  leads_quiet {keep} m c f q = record { run = λ d h. quiet_ends keep (view d) (m d) c f (q d) h }

pub due-ne-broken : (s : Option ActiveSession) → due s ≢ broken
due-ne-broken none = λ h. cc
due-ne-broken (some s) = elim (Bool-cases s.finalized) [
  | inl e ↦ rw e (λ h. cc)
  | inr e ↦ rw e (λ h. cc)
]

pub Agrees→Intact : (v : View) → Agrees v → Intact v
Agrees→Intact v h b = due-ne-broken v.active_session (sym h.0 ∙ b)

pub Settled→Agrees : (v : View) → Settled v → Agrees v
Settled→Agrees v h = (h.0 ∙ sym h.1, h.2)

pub Settled→Intact : (v : View) → Settled v → Intact v
Settled→Intact v h = Agrees→Intact v (Settled→Agrees v h)

module _ {A W V T : Type 0} where
  -- A quiet handler keeps the agreement.
  pub Agrees-Quiet : {R : Type 0} (m : Action A W V T R) → Quiet m → Leads Agrees m (λ r. Agrees)
  Agrees-Quiet m q = leads_quiet m (λ u h. h) Agrees→Intact q

  pub Settled-Quiet : {R : Type 0} (m : Action A W V T R) → Quiet m → Leads Settled m (λ r. Settled)
  Settled-Quiet m q = leads_quiet m Settled→Agrees Settled→Intact q

  pub leads_active :
      {p q r : Phase} (s : Option ActiveSession)
      → due s ≡ r
      → Leads {A = A} {W = W} {V = V} {T = T} (Logged p q) (set_active s) (λ u. Logged p r)
  unfolding set_active
  leads_active s e = record { run = λ d h. (h.0, e, h.2) }

  pub leads_fatal :
      {R : Type 0} {before : View → Type 0} {after : R → View → Type 0}
      → ((v : View) → before v → Intact v)
      → Leads before (fail {A = A} {W = W} {V = V} {T = T} fatal) after
  leads_fatal h = record { run = λ d b. h (view d) b }

module _ {A W V T : Type 0} (O : Outside A W V T) where
  recorded_ends :
      (p q : Phase) (p' : ℕ → Phase) (call : StoreCall) (r : W × Option ℕ) (d : Daemon A W V T)
      → p ≢ broken
      → ((id : ℕ) → phase_after p (answered call id) ≡ p' id)
      → Logged p q (view d)
      → Ends (λ id. Logged (p' id) q) (recorded O call r d)
  unfolding recorded
  recorded_ends p q p' call (w, none) d n e h = λ b. n (sym h.0 ∙ b)
  recorded_ends p q p' call (w, some id) d n e h =
      (ap (λ x. phase_after x (answered call id)) h.0 ∙ e id, h.1, h.2)

  -- A call on the store moves the log's phase, or the daemon stops.
  pub leads_store :
      {p q : Phase} {p' : ℕ → Phase} (call : StoreCall)
      → p ≢ broken
      → ((id : ℕ) → phase_after p (answered call id) ≡ p' id)
      → Leads (Logged p q) (store O call) (λ id. Logged (p' id) q)
  unfolding store
  leads_store {p} {q} {p'} call n e = record {
    run = λ d h. recorded_ends p q p' call (O.call_store d.world call) d n e h;
  }

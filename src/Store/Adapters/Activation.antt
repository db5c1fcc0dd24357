-- ===== src/Store/Adapters/Activation.antt =====
-- Which adapter is active: promote_adapter, reject_adapter and rollback_adapter of
-- crates/idiolect-adapter-sqlite/src/repository.rs.
use idiolect.Common.{
  ℕ, suc, ◌+◌, ◌≤◌, ◌≡◌, refl, ap, Bool, true, false, Option, none, some, List, [], ◌∷◌, arith,
  Bool-cases, inl, inr, ◌==◌, if◌then◌else◌,
}
use idiolect.Text.{Text, text_eq, text_eq→eq, text_eq_refl}
use idiolect.Store.{Adapter, Db}
use idiolect.Store.Table.{count, update, first, count-insert, count-update}
use idiolect.Store.Adapters.{
  register_unless, new_adapter, rollback_from, of_user, is_adapter, set_active, is_active_of,
  set_promoted, promote_adapter, reject_adapter, rollback_adapter, swap_active, derive_promotion,
  record_adapter_derivation, active_adapter, previous_adapter, newest, register_adapter_candidate,
}

-- No user has two active adapters, and no identifier stands twice.
pub record SingleActive (adapters : List Adapter) : Type 0 where
  pub active : (u : Text) → count (is_active_of u) adapters ≤ 1
  pub unique : (id : Text) → count (λ a. text_eq a.id id) adapters ≤ 1

-- After a deactivation of all adapters of a user, none of that user is active, and the others are as
-- before.
active-deactivate_all :
    (u v : Text) (rows : List Adapter)
    → count (is_active_of v) (update (of_user u) (set_active false) rows)
      ≡ (if text_eq u v then 0 else count (is_active_of v) rows)
unfolding count update set_active
active-deactivate_all u v [] = ground arith
active-deactivate_all u v (a ∷ rows) =
    ground (arith, active-deactivate_all u v rows, text_eq→eq a.user_id u, text_eq→eq u v)

-- An activation of one adapter adds at most one active adapter, to its user.
active-activate :
    (f : Adapter → Adapter) (u id v : Text) (rows : List Adapter)
    → ((a : Adapter) → (f a).user_id ≡ a.user_id)
    → count (is_active_of v) (update (is_adapter u id) f rows)
      ≤ count (is_active_of v) rows + (if text_eq u v then count (is_adapter u id) rows else 0)
unfolding count update
active-activate f u id v [] keeps = omega arith
active-activate f u id v (a ∷ rows) keeps =
    ground (arith, keeps a, active-activate f u id v rows keeps, text_eq→eq a.user_id u)

unique-update :
    (p : Adapter → Bool) (f : Adapter → Adapter) (id : Text) (rows : List Adapter)
    → ((a : Adapter) → (f a).id ≡ a.id)
    → count (λ a. text_eq a.id id) (update p f rows) ≡ count (λ a. text_eq a.id id) rows
unique-update p f id rows keeps =
    count-update p (λ a. text_eq a.id id) f rows (λ a. ap (λ t. text_eq t id) (keeps a))

-- A deactivation adds no active adapter.
active-deactivate :
    (u id v : Text) (rows : List Adapter)
    → count (is_active_of v) (update (is_adapter u id) (set_active false) rows)
      ≤ count (is_active_of v) rows
unfolding count update set_active
active-deactivate u id v [] = omega arith
active-deactivate u id v (a ∷ rows) = ground (arith, active-deactivate u id v rows)

-- The deactivation of the active adapter leaves one fewer.
active-deactivate_newest :
    (u : Text) (a : Adapter) (rows : List Adapter)
    → newest (is_active_of u) rows ≡ some a
    → suc (count (is_active_of u) (update (is_adapter u a.id) (set_active false) rows))
      ≤ count (is_active_of u) rows
unfolding count update set_active newest
active-deactivate_newest u a [] e = absurd (ground arith)
active-deactivate_newest u a (x ∷ rows) e = ground (
  arith,
  active-deactivate_newest u a rows,
  active-deactivate u a.id u rows,
  text_eq_refl a.id,
  ap (λ (b : Adapter). b.id),
)

adapter_le_unique :
    (u id : Text) (rows : List Adapter)
    → count (is_adapter u id) rows ≤ count (λ a. text_eq a.id id) rows
unfolding count
adapter_le_unique u id [] = omega arith
adapter_le_unique u id (a ∷ rows) = ground (arith, adapter_le_unique u id rows)

adapter-set_active :
    (u id : Text) (p : Adapter → Bool) (b : Bool) (rows : List Adapter)
    → count (is_adapter u id) (update p (set_active b) rows) ≡ count (is_adapter u id) rows
unfolding set_active
adapter-set_active u id p b rows = count-update p (is_adapter u id) (set_active b) rows (λ a. refl)

absent :
    (id : Text) (rows : List Adapter)
    → first (λ a. text_eq a.id id) rows ≡ none
    → count (λ a. text_eq a.id id) rows ≡ 0
unfolding first count
absent id [] e = refl
absent id (a ∷ rows) e = ground (arith, absent id rows)

-- An activation after the user's adapters have been deactivated.
activated-SingleActive :
    (u id : Text) (f : Adapter → Adapter) (rows before : List Adapter)
    → ((a : Adapter) → (f a).user_id ≡ a.user_id)
    → ((a : Adapter) → (f a).id ≡ a.id)
    → SingleActive before
    → ((v : Text)
        → count (is_active_of v) rows ≤ (if text_eq u v then 0 else count (is_active_of v) before))
    → ((i : Text) → count (λ a. text_eq a.id i) rows ≡ count (λ a. text_eq a.id i) before)
    → SingleActive (update (is_adapter u id) f rows)
activated-SingleActive u id f rows before keeps_user keeps_id h none_active same = record {
  active = λ v. ground (
    arith,
    active-activate f u id v rows keeps_user,
    none_active v,
    h.active v,
    h.unique id,
    same id,
    adapter_le_unique u id rows,
  );
  unique = λ i.
      rw (unique-update (is_adapter u id) f i rows keeps_id) (ground (arith, same i, h.unique i));
}

derive_promotion_adapters :
    (u id : Text) (o : Option Adapter) (db : Db)
    → (derive_promotion u id o db).adapters ≡ db.adapters
unfolding derive_promotion record_adapter_derivation
derive_promotion_adapters u id none db = refl
derive_promotion_adapters u id (some current) db = ground arith

promote-SingleActive :
    (now : ℕ) (u id : Text) (db : Db)
    → SingleActive db.adapters
    → SingleActive (promote_adapter now u id db).1.adapters
unfolding promote_adapter
promote-SingleActive now u id db h = elim (Bool-cases (count (is_adapter u id) db.adapters == 1)) [
  | inr missing ↦ rw missing h
  | inl there ↦ rw there (
      rw (derive_promotion_adapters u id (active_adapter u db) _) (
        activated-SingleActive u id (set_promoted now)
          (update (of_user u) (set_active false) db.adapters) db.adapters
          (λ a. unfold set_promoted in refl) (λ a. unfold set_promoted in refl) h
          (λ v. rw (active-deactivate_all u v db.adapters) (omega arith))
          (λ i.
            unique-update (of_user u) (set_active false) i db.adapters
              (λ a. unfold set_active in refl))))
]

reject-SingleActive :
    (u id reason : Text) (db : Db)
    → SingleActive db.adapters
    → SingleActive (reject_adapter u id reason db).1.adapters
unfolding reject_adapter record_adapter_derivation
reject-SingleActive u id reason db h =
    elim (Bool-cases (count (is_adapter u id) db.adapters == 1)) [
      | inr missing ↦ rw missing h
      | inl there ↦ rw there (record {
        active = λ v. ground (arith, active-deactivate u id v db.adapters, h.active v);
        unique = λ i.
            rw
              (unique-update (is_adapter u id) (set_active false) i db.adapters
                (λ a. unfold set_active in refl))
              (h.unique i);
      })
    ]

unless :
    (o : Option Adapter) (now : ℕ) (id u metrics : Text) (db : Db)
    → first (λ a. text_eq a.id id) db.adapters ≡ o
    → SingleActive db.adapters
    → SingleActive (register_unless o (new_adapter now id u metrics) db).1.adapters
unfolding register_unless
unless (some there) now id u metrics db e h = h
unless none now id u metrics db e h = record {
  active = λ v.
      ground (
        arith,
        count-insert (is_active_of v) (new_adapter now id u metrics) db.adapters,
        h.active v,
      );
  unique = λ i. elim (Bool-cases (text_eq id i)) [
    | inl same ↦ rw (← text_eq→eq id i same) (
        ground (
          arith,
          count-insert (λ a. text_eq a.id id) (new_adapter now id u metrics) db.adapters,
          absent id db.adapters e,
        ))
    | inr other ↦ ground (
      arith,
      count-insert (λ a. text_eq a.id i) (new_adapter now id u metrics) db.adapters,
      h.unique i,
    )
  ];
}

register-SingleActive :
    (now : ℕ) (id u metrics : Text) (db : Db)
    → SingleActive db.adapters
    → SingleActive (register_adapter_candidate now id u metrics db).1.adapters
unfolding register_adapter_candidate
register-SingleActive now id u metrics db h =
    unless (first (λ a. text_eq a.id id) db.adapters) now id u metrics db refl h

swap-SingleActive :
    (u : Text) (current previous : Adapter) (db : Db)
    → active_adapter u db ≡ some current
    → SingleActive db.adapters
    → SingleActive (swap_active u current previous db).adapters
unfolding swap_active record_adapter_derivation active_adapter
swap-SingleActive u current previous db e h =
    activated-SingleActive u previous.id (set_active true)
      (update (is_adapter u current.id) (set_active false) db.adapters) db.adapters
      (λ a. unfold set_active in refl) (λ a. unfold set_active in refl) h
      (λ v. elim (Bool-cases (text_eq u v)) [
        | inl same ↦ rw (← text_eq→eq u v same) (
            rw (text_eq_refl u)
              (omega (arith, active-deactivate_newest u current db.adapters e, h.active u)))
        | inr other ↦ rw other (active-deactivate u current.id v db.adapters)
      ])
      (λ i.
        unique-update (is_adapter u current.id) (set_active false) i db.adapters
          (λ a. unfold set_active in refl))

rollback_from-SingleActive :
    (u : Text) (current previous : Option Adapter) (db : Db)
    → active_adapter u db ≡ current
    → SingleActive db.adapters
    → SingleActive (rollback_from u current previous db).1.adapters
unfolding rollback_from
rollback_from-SingleActive u none previous db e h = h
rollback_from-SingleActive u (some current) none db e h = h
rollback_from-SingleActive u (some current) (some previous) db e h =
    swap-SingleActive u current previous db e h

rollback-SingleActive :
    (u : Text) (db : Db)
    → SingleActive db.adapters
    → SingleActive (rollback_adapter u db).1.adapters
unfolding rollback_adapter
rollback-SingleActive u db h =
    rollback_from-SingleActive u (active_adapter u db) (previous_adapter u db) db refl h

pub data AdapterCall : Type 0 where
  register : ℕ → Text → Text → Text → AdapterCall
  promote : ℕ → Text → Text → AdapterCall
  reject : Text → Text → Text → AdapterCall
  rollback : Text → AdapterCall

unfoldable pub adapter_call : AdapterCall → Db → Db
unfolding register_adapter_candidate promote_adapter reject_adapter rollback_adapter
adapter_call (register now id u metrics) db = (register_adapter_candidate now id u metrics db).1
adapter_call (promote now u id) db = (promote_adapter now u id db).1
adapter_call (reject u id reason) db = (reject_adapter u id reason db).1
adapter_call (rollback u) db = (rollback_adapter u db).1

unfoldable pub adapters_after : List AdapterCall → Db → Db
unfolding adapter_call
adapters_after [] db = db
adapters_after (c ∷ calls) db = adapters_after calls (adapter_call c db)

adapter_call-SingleActive :
    (c : AdapterCall) (db : Db)
    → SingleActive db.adapters
    → SingleActive (adapter_call c db).adapters
unfolding adapter_call
adapter_call-SingleActive (register now id u metrics) db h =
    register-SingleActive now id u metrics db h
adapter_call-SingleActive (promote now u id) db h = promote-SingleActive now u id db h
adapter_call-SingleActive (reject u id reason) db h = reject-SingleActive u id reason db h
adapter_call-SingleActive (rollback u) db h = rollback-SingleActive u db h

-- If no user has two active adapters and no adapter identifier stands twice, then so it is after every
-- run of registrations, promotions, rejections and rollbacks, whether they succeed or fail.
pub adapters_after-SingleActive :
    (calls : List AdapterCall) (db : Db)
    → SingleActive db.adapters
    → SingleActive (adapters_after calls db).adapters
unfolding adapters_after
adapters_after-SingleActive [] db h = h
adapters_after-SingleActive (c ∷ calls) db h =
    adapters_after-SingleActive calls (adapter_call c db) (adapter_call-SingleActive c db h)

-- ===== src/Store/Adapters.antt =====
-- The adapters of crates/idiolect-adapter-sqlite/src/repository.rs: registration, promotion,
-- rejection and rollback, with their derivations.
pub mod Activation
pub mod Snapshot
pub mod Shown
use idiolect.Common.{
  ℕ, suc, Bool, true, false, not, Option, none, some, List, [], ◌∷◌, ltb, ◌==◌, if◌then◌else◌, ◌&&◌,
  ◌||◌,
}
use idiolect.Text.{Text, text_eq}
use idiolect.Store.{
  Adapter, AdapterDerivation, TriggerReason, promoted, rejected_for, rolled_back, Db, backend,
  not_found, Reply, ok, err, ◌>>=◌, ◌>>◌, run, transaction, or_not_found,
}
use idiolect.Store.Table.{first, count, update, insert}
use idiolect.Store.Sessions.{ensure_user}

abbrev pub of_user : Text → Adapter → Bool
of_user user_id a = text_eq a.user_id user_id

abbrev pub is_adapter : Text → Text → Adapter → Bool
is_adapter user_id adapter_id a = text_eq a.user_id user_id && text_eq a.id adapter_id

unfoldable pub set_active : Bool → Adapter → Adapter
set_active b a = record a { active = b }

abbrev pub new_adapter : ℕ → Text → Text → Text → Adapter
new_adapter now adapter_id user_id metrics = record {
  created_at = now;
  id = adapter_id;
  user_id = user_id;
  active = false;
  promoted_at = none;
  metrics = metrics;
}

-- The identifier is the primary key; on an error the user that was added is rolled back too.
unfoldable pub register_unless : Option Adapter → Adapter → Db → Reply (Unit {0}) × Db
unfolding ensure_user
register_unless (some there) a db = (err backend, db)
register_unless none a db =
    (ok tt, record (ensure_user a.user_id db) { adapters = insert a db.adapters })

unfoldable pub register_adapter_candidate : ℕ → Text → Text → Text → Db → Reply (Unit {0}) × Db
unfolding first register_unless
register_adapter_candidate now adapter_id user_id metrics db =
    register_unless (first (λ a. text_eq a.id adapter_id) db.adapters)
      (new_adapter now adapter_id user_id metrics) db

-- The order of the identifiers, byte by byte.
unfoldable pub text_le : Text → Text → Bool
text_le [] t = true
text_le (c ∷ s) [] = false
text_le (c ∷ s) (d ∷ t) =
    let rest = text_le s t in if ltb c d then true else if c == d then rest else false

-- ORDER BY promoted_at DESC, id DESC: a missing time is the smallest.
unfoldable pub stamp : Option ℕ → ℕ
stamp none = 0
stamp (some t) = suc t

unfoldable pub comes_before : Adapter → Adapter → Bool
unfolding stamp text_le
comes_before a b =
    if ltb (stamp b.promoted_at) (stamp a.promoted_at)
    then true
    else if stamp a.promoted_at == stamp b.promoted_at
    then text_le b.id a.id
    else false

-- … LIMIT 1 over the rows that pass the test.
unfoldable pub newest : (Adapter → Bool) → List Adapter → Option Adapter
unfolding comes_before
newest p [] = none
newest p (a ∷ rows) =
    let rest = newest p rows in
    if p a
    then elim rest [ none ↦ some a | some b ↦ (if comes_before a b then some a else some b) ]
    else rest

abbrev pub is_active_of : Text → Adapter → Bool
is_active_of user_id a = of_user user_id a && a.active

unfoldable pub active_adapter : Text → Db → Option Adapter
unfolding newest
active_adapter user_id db = newest (is_active_of user_id) db.adapters

unfoldable pub is_final : TriggerReason → Bool
is_final (rejected_for reason) = true
is_final rolled_back = true
is_final r = false

unfoldable pub is_to : Text → Option Text → Bool
is_to id none = false
is_to id (some t) = text_eq t id

-- A derivation that rejects or rolls back the adapter.
unfoldable pub is_excluded : Text → Text → List AdapterDerivation → Bool
unfolding is_final is_to
is_excluded user_id id [] = false
is_excluded user_id id (d ∷ rows) =
    let rest = is_excluded user_id id rows in
    (text_eq d.user_id user_id && is_to id d.to_adapter_id && is_final d.trigger_reason) || rest

unfoldable pub is_some {ℓ} : {A : Type ℓ} → Option A → Bool
is_some none = false
is_some (some a) = true

abbrev pub is_previous : Text → List AdapterDerivation → Adapter → Bool
is_previous user_id derivations a =
    of_user user_id a
    && not a.active
    && is_some a.promoted_at
    && not (is_excluded user_id a.id derivations)

unfoldable pub previous_adapter : Text → Db → Option Adapter
unfolding newest is_excluded is_some
previous_adapter user_id db = newest (is_previous user_id db.adapter_derivations) db.adapters

unfoldable pub record_adapter_derivation :
    Text → Option Text → Option Text → TriggerReason → Db → Db
record_adapter_derivation user_id from_id to_id reason db = record db {
  adapter_derivations =
      insert
        record {
          user_id = user_id;
          from_adapter_id = from_id;
          to_adapter_id = to_id;
          trigger_reason = reason;
        }
        db.adapter_derivations;
}

unfoldable pub first_promoted_at : Option ℕ → ℕ → ℕ
first_promoted_at none now = now
first_promoted_at (some t) now = t

unfoldable pub set_promoted : ℕ → Adapter → Adapter
unfolding first_promoted_at
set_promoted now a = record a {
  active = true;
  promoted_at = some (first_promoted_at a.promoted_at now);
}

unfoldable pub derive_promotion : Text → Text → Option Adapter → Db → Db
unfolding record_adapter_derivation
derive_promotion user_id adapter_id none db = db
derive_promotion user_id adapter_id (some current) db =
    if text_eq current.id adapter_id
    then db
    else record_adapter_derivation user_id (some current.id) (some adapter_id) promoted db

abbrev pub update_adapters : (Adapter → Bool) → (Adapter → Adapter) → Db → Db
update_adapters p f db = record db { adapters = update p f db.adapters }

unfoldable pub promote_adapter : ℕ → Text → Text → Db → Reply (Unit {0}) × Db
unfolding active_adapter count update set_active set_promoted derive_promotion
promote_adapter now user_id adapter_id db =
    if count (is_adapter user_id adapter_id) db.adapters == 1
    then (
      ok tt,
      derive_promotion user_id adapter_id (active_adapter user_id db) (
          update_adapters (is_adapter user_id adapter_id) (set_promoted now)
            (update_adapters (of_user user_id) (set_active false) db)),
    )
    else (err (not_found adapter_id), db)

unfoldable pub reject_adapter : Text → Text → Text → Db → Reply (Unit {0}) × Db
unfolding count update set_active record_adapter_derivation
reject_adapter user_id adapter_id reason db =
    if count (is_adapter user_id adapter_id) db.adapters == 1
    then (
      ok tt,
      record_adapter_derivation user_id none (some adapter_id) (rejected_for reason)
          (update_adapters (is_adapter user_id adapter_id) (set_active false) db),
    )
    else (err (not_found adapter_id), db)

unfoldable pub swap_active : Text → Adapter → Adapter → Db → Db
unfolding update set_active record_adapter_derivation
swap_active user_id current previous db =
    record_adapter_derivation user_id (some previous.id) (some current.id) rolled_back (
      update_adapters (is_adapter user_id previous.id) (set_active true)
        (update_adapters (is_adapter user_id current.id) (set_active false) db))

unfoldable pub rollback_from : Text → Option Adapter → Option Adapter → Db → Reply (Unit {0}) × Db
unfolding swap_active
rollback_from user_id none previous db = (err (not_found user_id), db)
rollback_from user_id (some current) none db = (err (not_found user_id), db)
rollback_from user_id (some current) (some previous) db =
    (ok tt, swap_active user_id current previous db)

unfoldable pub rollback_adapter : Text → Db → Reply (Unit {0}) × Db
unfolding active_adapter previous_adapter rollback_from
rollback_adapter user_id db =
    rollback_from user_id (active_adapter user_id db) (previous_adapter user_id db) db

-- ===== src/Store/Adapters/Snapshot.antt =====
-- adapter_registry_snapshot of crates/idiolect-adapter-sqlite/src/repository.rs. The delta of the word
-- error rate that the metrics hold, a float in a JSON text, and the order of floats are parameters.
use idiolect.Common.{
  Bool, true, false, not, Option, none, some, List, [], ◌∷◌, ltb, ◌==◌, ◌&&◌, ◌||◌, map,
  if◌then◌else◌,
}
use mathlib.Core.List.{reverse}
use idiolect.Text.{Text, text_eq}
use idiolect.Store.{
  Adapter, AdapterDerivation, TriggerReason, rejected_for, deleted_training_sample, Db,
}
use idiolect.Store.Table.{first, select}
use idiolect.Store.Adapters.{of_user, is_to, is_some, text_le}

pub data AdapterRegistryStatus : Type 0 where
  candidate : AdapterRegistryStatus
  active : AdapterRegistryStatus
  previous : AdapterRegistryStatus
  best : AdapterRegistryStatus
  rejected : AdapterRegistryStatus
  rolled_back : AdapterRegistryStatus

pub record AdapterRegistryEntry : Type 0 where
  pub adapter_id : Text
  pub status : AdapterRegistryStatus
  pub derived_from_deleted_sample : Bool

pub record AdapterRegistrySnapshot : Type 0 where
  pub entries : List AdapterRegistryEntry
  pub current_active_adapter_id : Option Text
  pub previous_active_adapter_id : Option Text
  pub best_historical_adapter_id : Option Text
  pub historical_adapter_ids : List Text

-- ORDER BY created_at, id.
unfoldable pub is_older_row : Adapter → Adapter → Bool
unfolding text_le
is_older_row a b =
    if ltb a.created_at b.created_at
    then true
    else if a.created_at == b.created_at
    then text_le a.id b.id
    else false

unfoldable pub insert_row : Adapter → List Adapter → List Adapter
unfolding is_older_row
insert_row a [] = a ∷ []
insert_row a (b ∷ rows) =
    let rest = insert_row a rows in if is_older_row a b then a ∷ b ∷ rows else b ∷ rest

unfoldable pub by_creation : List Adapter → List Adapter
unfolding insert_row
by_creation [] = []
by_creation (a ∷ rows) = insert_row a (by_creation rows)

unfoldable pub adapter_registry_rows : Text → Db → List Adapter
unfolding select by_creation
adapter_registry_rows user_id db = by_creation (select (of_user user_id) db.adapters)

-- adapter_ids_with_derivation, asked whether it holds the identifier.
unfoldable pub has_derivation : (TriggerReason → Bool) → Text → List AdapterDerivation → Text → Bool
unfolding is_to
has_derivation p user_id [] id = false
has_derivation p user_id (d ∷ rows) id =
    let rest = has_derivation p user_id rows id in
    (text_eq d.user_id user_id && is_to id d.to_adapter_id && p d.trigger_reason) || rest

unfoldable pub is_rejection : TriggerReason → Bool
is_rejection (rejected_for reason) = true
is_rejection r = false

unfoldable pub is_rollback : TriggerReason → Bool
is_rollback TriggerReason.rolled_back = true
is_rollback r = false

unfoldable pub is_sample_deletion : TriggerReason → Bool
is_sample_deletion deleted_training_sample = true
is_sample_deletion r = false

unfoldable pub same_id : Option Text → Text → Bool
same_id none id = false
same_id (some t) id = text_eq t id

abbrev pub id_of : Option Adapter → Option Text
id_of none = none
id_of (some a) = some a.id

module _ {ℓ} {Delta : Type ℓ} (delta : Text → Option Delta) (le : Delta → Delta → Bool) where
  -- `min_by`: the first of the least.
  unfoldable pub least : Option (Text × Delta) → List Adapter → Option Text
  least none [] = none
  least (some (id, d)) [] = some id
  least seen (a ∷ rows) =
      least
        (if is_some a.promoted_at
          then elim (delta a.metrics) [
            | none ↦ seen
            | some d ↦ elim seen [
              | none ↦ some (a.id, d)
              | some (id, e) ↦ (if le e d then some (id, e) else some (a.id, d))
            ]
          ]
          else seen)
        rows

  abbrev pub or_else : Option Text → Option Text → Option Text
  or_else none t = t
  or_else (some s) t = some s

  unfoldable pub adapter_registry_snapshot : Text → Db → AdapterRegistrySnapshot
  unfolding adapter_registry_rows has_derivation is_rejection is_rollback is_sample_deletion same_id
      least is_some first select
  adapter_registry_snapshot user_id db =
      let rows = adapter_registry_rows user_id db in
      let is_rejected = has_derivation is_rejection user_id db.adapter_derivations in
      let is_rolled_back = has_derivation is_rollback user_id db.adapter_derivations in
      let current = id_of (first (λ a. a.active) rows) in
      let before = id_of (
        first
          (λ a.
            is_some a.promoted_at
            && not a.active
            && not (is_rejected a.id)
            && not (is_rolled_back a.id))
          (reverse rows)) in
      let historical = or_else (least none rows) current in
      record {
        entries =
            map
              (λ a. record {
                adapter_id = a.id;
                status =
                    if is_rejected a.id
                    then rejected
                    else if is_rolled_back a.id
                    then AdapterRegistryStatus.rolled_back
                    else if same_id current a.id
                    then active
                    else if same_id before a.id
                    then previous
                    else if same_id historical a.id
                    then best
                    else candidate;
                derived_from_deleted_sample =
                    has_derivation is_sample_deletion user_id db.adapter_derivations a.id;
              })
              rows;
        current_active_adapter_id = current;
        previous_active_adapter_id = before;
        best_historical_adapter_id = historical;
        historical_adapter_ids = map (λ a. a.id) (select (λ a. is_some a.promoted_at) rows);
      }

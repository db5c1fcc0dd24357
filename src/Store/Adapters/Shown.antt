-- ===== src/Store/Adapters/Shown.antt =====
-- What adapter_registry_snapshot of crates/idiolect-adapter-sqlite/src/repository.rs shows, compared
-- with the table and with the adapter that promotions and rollbacks take for the active one.
use idiolect.Common.{
  ◌∙◌, ◌+◌, ◌≤◌, ◌≡◌, refl, Bool, Option, none, some, List, [], ◌∷◌, arith, map, ap, if◌then◌else◌,
  ◌&&◌,
}
use idiolect.Text.{Text, text_eq}
use idiolect.Store.{Adapter, Db}
use idiolect.Store.Table.{first, count, select}
use idiolect.Store.Adapters.{of_user, is_adapter, is_active_of, newest, active_adapter}
use idiolect.Store.Adapters.Activation.{SingleActive}
use idiolect.Store.Adapters.Snapshot.{
  AdapterRegistryEntry, insert_row, by_creation, adapter_registry_rows, id_of,
  adapter_registry_snapshot,
}

none-newest : (p : Adapter → Bool) (rows : List Adapter) → count p rows ≡ 0 → newest p rows ≡ none
unfolding count newest
none-newest p [] e = refl
none-newest p (a ∷ rows) e = ground (arith, none-newest p rows)

-- Of one row at most, the newest is the first.
first-newest :
    (p : Adapter → Bool) (rows : List Adapter) → count p rows ≤ 1 → first p rows ≡ newest p rows
unfolding first count newest
first-newest p [] h = refl
first-newest p (a ∷ rows) h = ground (arith, first-newest p rows, none-newest p rows)

count-insert_row :
    (p : Adapter → Bool) (a : Adapter) (rows : List Adapter)
    → count p (insert_row a rows) ≡ (if p a then 1 else 0) + count p rows
unfolding count insert_row
count-insert_row p a [] = ground arith
count-insert_row p a (b ∷ rows) = ground (arith, count-insert_row p a rows)

count-by_creation :
    (p : Adapter → Bool) (rows : List Adapter) → count p (by_creation rows) ≡ count p rows
unfolding count by_creation
count-by_creation p [] = refl
count-by_creation p (a ∷ rows) =
    ground (arith, count-insert_row p a (by_creation rows), count-by_creation p rows)

first-insert_row :
    (p : Adapter → Bool) (a : Adapter) (rows : List Adapter)
    → (if p a then 1 else 0) + count p rows ≤ 1
    → first p (insert_row a rows) ≡ (if p a then some a else first p rows)
unfolding first count insert_row
first-insert_row p a [] h = refl
first-insert_row p a (b ∷ rows) h = ground (arith, first-insert_row p a rows)

-- The order does not matter where one row at most passes the test.
first-by_creation :
    (p : Adapter → Bool) (rows : List Adapter)
    → count p rows ≤ 1
    → first p (by_creation rows) ≡ first p rows
unfolding first count by_creation
first-by_creation p [] h = refl
first-by_creation p (a ∷ rows) h = ground (
  arith,
  count-by_creation p rows,
  first-insert_row p a (by_creation rows),
  first-by_creation p rows,
)

module _ {ℓ} {A : Type ℓ} where
  first-select_both :
      (p q : A → Bool) (rows : List A) → first q (select p rows) ≡ first (λ a. p a && q a) rows
  unfolding first select
  first-select_both p q [] = refl
  first-select_both p q (a ∷ rows) = ground (arith, first-select_both p q rows)

  count-select_both :
      (p q : A → Bool) (rows : List A) → count q (select p rows) ≡ count (λ a. p a && q a) rows
  unfolding count select
  count-select_both p q [] = refl
  count-select_both p q (a ∷ rows) = ground (arith, count-select_both p q rows)

  count-map_entries :
      (entry : A → AdapterRegistryEntry) (id_in : A → Text) (id : Text) (rows : List A)
      → ((a : A) → (entry a).adapter_id ≡ id_in a)
      → count (λ e. text_eq e.adapter_id id) (map entry rows)
        ≡ count (λ a. text_eq (id_in a) id) rows
  unfolding count
  count-map_entries entry id_in id [] same = refl
  count-map_entries entry id_in id (a ∷ rows) same =
      ground (arith, same a, count-map_entries entry id_in id rows same)

-- The active adapter among the rows of the snapshot.
first-adapter_registry_rows :
    (u : Text) (db : Db)
    → SingleActive db.adapters
    → first (λ a. a.active) (adapter_registry_rows u db) ≡ active_adapter u db
unfolding adapter_registry_rows active_adapter
first-adapter_registry_rows u db h =
    rw
      (first-by_creation (λ a. a.active) (select (of_user u) db.adapters)
        (rw (count-select_both (of_user u) (λ a. a.active) db.adapters) (h.active u)))
      (rw (first-select_both (of_user u) (λ a. a.active) db.adapters)
        (first-newest (is_active_of u) db.adapters (h.active u)))

module _ {ℓ} {Delta : Type ℓ} (delta : Text → Option Delta) (le : Delta → Delta → Bool) where
  -- If no user has two active adapters, then the snapshot of a user names as the current active
  -- adapter the one that a promotion and a rollback take for it, and its entries list each
  -- identifier as often as the table has an adapter of the user with it.
  pub snapshot_shows_table :
      (u id : Text) (db : Db)
      → SingleActive db.adapters
      → ((adapter_registry_snapshot delta le u db).current_active_adapter_id
          ≡ id_of (active_adapter u db))
        × (count (λ e. text_eq e.adapter_id id) (adapter_registry_snapshot delta le u db).entries
            ≡ count (is_adapter u id) db.adapters)
  unfolding adapter_registry_snapshot adapter_registry_rows active_adapter
  snapshot_shows_table u id db h = (
    ap id_of (first-adapter_registry_rows u db h),
    count-map_entries _ (λ a. a.id) id (adapter_registry_rows u db) (λ a. refl)
        ∙ count-by_creation (λ a. text_eq a.id id) (select (of_user u) db.adapters)
        ∙ count-select_both (of_user u) (λ a. text_eq a.id id) db.adapters,
  )

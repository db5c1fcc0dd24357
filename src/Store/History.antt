-- ===== src/Store/History.antt =====
-- The history and the tray settings of crates/idiolect-adapter-sqlite/src/repository.rs: queries,
-- pruning, deletion of an entry, and the settings.
use idiolect.Common.{
  ℕ, suc, zero, ◌-◌, ◌*◌, Bool, Option, none, some, List, [], ◌∷◌, ◌++◌, map, take, leb, ltb, ◌==◌,
  if◌then◌else◌,
}
use idiolect.Text.{Text, text_eq, codes}
use idiolect.Store.{
  history_entry_deleted, history_pruned, tray_config_changed, history_entry, history_rows,
  tray_config, Event, HistoryRow, Setting, Db, backend, not_found, Reply, ok, err, pure, ◌>>◌, Tx,
  run, transaction, create_event, decimal,
}
use idiolect.Store.Table.{first, count, update, delete, insert}
use idiolect.Store.Sessions.{Setup, decode_history_text}

-- A row of the history with its text decoded; the JSON text of its session id stays as it is stored.
unfoldable pub decode_history_entry : Setup → HistoryRow → HistoryRow
unfolding decode_history_text
decode_history_entry p r = record r { text = decode_history_text p r.text }

-- Newest first; SQLite leaves open how rows of one instant are ordered, here by insertion.
unfoldable pub insert_by_age : HistoryRow → List HistoryRow → List HistoryRow
insert_by_age r [] = r ∷ []
insert_by_age r (x ∷ xs) =
    let rest = insert_by_age r xs in if ltb x.created_at r.created_at then r ∷ x ∷ xs else x ∷ rest

unfoldable pub newest_first : List HistoryRow → List HistoryRow → List HistoryRow
unfolding insert_by_age
newest_first [] sorted = sorted
newest_first (r ∷ rows) sorted = newest_first rows (insert_by_age r sorted)

unfoldable pub recent_history : Setup → ℕ → Db → List HistoryRow
unfolding newest_first decode_history_entry
recent_history p limit db =
    map (decode_history_entry p) (take limit (newest_first db.ime_text_history []))

unfoldable pub get_history_entry : Setup → ℕ → Db → Option HistoryRow
unfolding first decode_history_entry
get_history_entry p id db = elim (first (λ r. r.id == id) db.ime_text_history) [
  | none ↦ none
  | some r ↦ some (decode_history_entry p r)
]

-- MAX(id) over the events that are in the log.
unfoldable pub max_id : List Event → ℕ
max_id [] = 0
max_id (e ∷ events) = let rest = max_id events in if leb rest e.id then e.id else rest

unfoldable pub next_event_sequence : Db → ℕ
unfolding max_id
next_event_sequence db = suc (max_id db.event_log)

abbrev pub day_ms : ℕ
day_ms = 86400000

-- `created_at < now - older_than_days`, with no instant before the epoch.
abbrev pub is_older : ℕ → ℕ → HistoryRow → Bool
is_older now older_than_days r = ltb r.created_at (now - older_than_days * day_ms)

unfoldable pub pruned_payload : ℕ → ℕ → Text
pruned_payload days deleted =
    codes "{\"older_than_days\":"
    ++ decimal days
    ++ codes ",\"deleted_count\":"
    ++ decimal deleted
    ++ codes "}"

unfoldable pub log_pruning : ℕ → ℕ → Tx (Unit {0})
unfolding next_event_sequence create_event pruned_payload
log_pruning days zero db = ok (tt, db)
log_pruning days (suc n) db =
    create_event history_rows (codes "history") history_pruned (pruned_payload days (suc n))
      (codes "history-pruned:" ++ decimal (next_event_sequence db)) db

unfoldable pub prune_history : ℕ → ℕ → Db → Reply ℕ × Db
unfolding count delete log_pruning
prune_history now older_than_days db =
    let deleted = count (is_older now older_than_days) db.ime_text_history in
    transaction
      (do
        run λ db. record db {
          ime_text_history = delete (is_older now older_than_days) db.ime_text_history;
        }
        log_pruning older_than_days deleted
        pure deleted)
      db

unfoldable pub delete_history_entry : ℕ → Db → Reply (Unit {0}) × Db
unfolding count delete create_event
delete_history_entry id db =
    let deleted = count (λ r. r.id == id) db.ime_text_history in
    if deleted == 0
    then (err (not_found (decimal id)), db)
    else transaction
        (do
          run λ db. record db { ime_text_history = delete (λ r. r.id == id) db.ime_text_history }
          create_event history_entry (decimal id) history_entry_deleted
              (codes "{\"entry_id\":" ++ decimal id ++ codes "}")
              (codes "history-deleted:" ++ decimal id))
        db

abbrev pub has_key : Text → Setting → Bool
has_key key s = text_eq s.key key

-- `query_row` without `optional`: a key that is not there is an error.
unfoldable pub value_of : Option Setting → Reply (Option Text)
value_of none = err backend
value_of (some s) = ok (some s.value)

unfoldable pub get_tray_setting : Text → Db → Reply (Option Text)
unfolding first value_of
get_tray_setting key db = value_of (first (has_key key) db.tray_settings)

-- INSERT … ON CONFLICT(key) DO UPDATE.
unfoldable pub upsert_over : Option Setting → Text → Text → List Setting → List Setting
unfolding update
upsert_over none key value rows = insert (record { key = key; value = value }) rows
upsert_over (some s) key value rows = update (has_key key) (λ s. record s { value = value }) rows

unfoldable pub upsert : Text → Text → List Setting → List Setting
unfolding first upsert_over
upsert key value rows = upsert_over (first (has_key key) rows) key value rows

-- `json` is the JSON object of a key and a value that serde_json writes.
unfoldable pub set_tray_setting : (Text → Text → Text) → Text → Text → Db → Reply (Unit {0}) × Db
unfolding upsert next_event_sequence create_event
set_tray_setting json key value = transaction (do
  run λ db. record db { tray_settings = upsert key value db.tray_settings }
  λ db.
      create_event tray_config key tray_config_changed (json key value)
        (codes "tray-config:" ++ decimal (next_event_sequence db)) db)

unfoldable pub get_all_tray_settings : Db → List (Text × Text)
get_all_tray_settings db = map (λ s. (s.key, s.value)) db.tray_settings

-- ===== src/Store/Settings.antt =====
-- The laws of the tray settings of crates/idiolect-adapter-sqlite/src/repository.rs.
use idiolect.Common.{
  ◌≡◌, refl, sym, Option, none, some, List, arith, Bool-cases, Option-cases, inl, inr,
  if◌then◌else◌,
}
use idiolect.Text.{Text, text_eq, text_eq→eq, text_eq_comm}
use idiolect.Store.{Setting, Db, ok, create_event}
use idiolect.Store.Table.{first, first-update, first-insert_new, first-insert_old, first-holds}
use idiolect.Store.History.{
  has_key, value_of, upsert, upsert_over, get_tray_setting, set_tray_setting,
}

first-upsert_over :
    (o : Option Setting) (key value k : Text) (rows : List Setting)
    → first (has_key key) rows ≡ o
    → value_of (first (has_key k) (upsert_over o key value rows))
      ≡ (if text_eq key k then ok (some value) else value_of (first (has_key k) rows))
unfolding upsert_over value_of
first-upsert_over none key value k rows e = elim (Option-cases (first (has_key k) rows)) [
  | inl new ↦
      rw (first-insert_new (has_key k) (record { key = key; value = value }) rows new)
        (ground (arith, new))
  | inr (s, found) ↦
      rw (first-insert_old (has_key k) (record { key = key; value = value }) s rows found)
        (elim (Bool-cases (text_eq key k)) [
          | inl same ↦
              let found' : first (has_key key) rows ≡ some s = rw (text_eq→eq key k same) found in
              absurd (ground (arith, found', e))
          | inr other ↦ rw (other, found) refl
        ])
]
first-upsert_over (some t) key value k rows e =
    rw
      (first-update (has_key key) (has_key k) (λ (s : Setting). record s { value = value }) rows
        (λ s. refl))
      (elim (Bool-cases (text_eq key k)) [
        | inl same ↦
            let found : first (has_key k) rows ≡ some t = rw (sym (text_eq→eq key k same)) e in
            rw (same, found) (rw (first-holds (has_key key) t rows e) refl)
        | inr other ↦ elim (Option-cases (first (has_key k) rows)) [
          | inl missing ↦ rw (other, missing) refl
          | inr (s, found) ↦
              rw (other, found)
                (rw
                  (
                    text_eq→eq s.key k (first-holds (has_key k) s rows found),
                    text_eq_comm k key,
                    other,
                  )
                  refl)
        ]
      ])

-- A setting that has been stored is read back, and the other keys read as before.
get-set :
    (json : Text → Text → Text) (key value k : Text) (db db' : Db)
    → set_tray_setting json key value db ≡ (ok tt, db')
    → get_tray_setting k db' ≡ (if text_eq key k then ok (some value) else get_tray_setting k db)
unfolding get_tray_setting set_tray_setting create_event upsert
get-set json key value k db db' e =
    let stored : db'.tray_settings ≡ upsert key value db.tray_settings = ground arith in
    rw stored
      (first-upsert_over (first (has_key key) db.tray_settings) key value k db.tray_settings refl)

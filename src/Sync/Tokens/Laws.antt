-- ===== src/Sync/Tokens/Laws.antt =====
-- What device_tokens.rs promises: one token to a device, and only it.
use mathlib.Core.Path.{subst}
use mathlib.Core.List.{append-nil, append_assoc}
use idiolect.Common.{
  ◌≡◌, ◌≢◌, refl, sym, ap, ◌∙◌, Bool, true, false, Option, none, some, List, map, [], ◌∷◌, ◌++◌,
  arith, if◌then◌else◌, inl, inr, Bool-cases,
}
use idiolect.Text.{Text, text_eq, text_eq→eq, text_eq_refl}
use idiolect.Sync.Tokens.{
  DeviceIdentity, Entries, DeviceTokenStore, lookup, insert, retain_others, collect, TokenRecord,
  to_record, to_identity, opened, open_store, persist, revoke, bind, issue, verify,
}

-- No entry of the map has this hash; no entry is this device's.
abbrev pub NoKey : Text → Entries → Type 0
NoKey h [] = Unit {0}
NoKey h ((k, v) ∷ m) = (text_eq k h ≡ false) × NoKey h m

abbrev pub NoDevice : Text → Entries → Type 0
NoDevice d [] = Unit {0}
NoDevice d ((k, v) ∷ m) = (text_eq v.device_id d ≡ false) × NoDevice d m

-- One entry to a hash, and one to a device.
abbrev pub IsUnique : Entries → Type 0
IsUnique [] = Unit {0}
IsUnique ((k, v) ∷ m) = NoKey k m × NoDevice v.device_id m × IsUnique m

text_eq_ne : (s t : Text) → s ≢ t → text_eq s t ≡ false
text_eq_ne s t h = elim (Bool-cases (text_eq s t)) [
  | inl same ↦ absurd (h (text_eq→eq s t same))
  | inr other ↦ other
]

text_eq_sym : (s t : Text) → text_eq s t ≡ text_eq t s
text_eq_sym s t = elim (Bool-cases (text_eq s t)) [
  | inl same ↦ rw (text_eq→eq s t same) refl
  | inr other ↦
      rw other
        (sym (text_eq_ne t s λ e. cc (text_eq_refl s, subst (λ u. text_eq s u ≡ false) e other)))
]

lookup-insert :
    (h j : Text) (v : DeviceIdentity) (m : Entries)
    → lookup j (insert h v m) ≡ (if text_eq h j then some v else lookup j m)
unfolding lookup insert
lookup-insert h j v [] = refl
lookup-insert h j v ((k, w) ∷ m) = ground (
  arith,
  text_eq→eq k h,
  text_eq→eq h j,
  text_eq→eq k j,
  text_eq_refl h,
  text_eq_refl j,
  lookup-insert h j v m,
)

lookup-NoKey : (h : Text) (m : Entries) → NoKey h m → lookup h m ≡ none
unfolding lookup
lookup-NoKey h [] n = refl
lookup-NoKey h ((k, v) ∷ m) n = ground (arith, lookup-NoKey h m)

NoKey-retain : (h d : Text) (m : Entries) → NoKey h m → NoKey h (retain_others d m)
unfolding retain_others
NoKey-retain h d [] n = tt
NoKey-retain h d ((k, v) ∷ m) n = ground (arith, NoKey-retain h d m)

NoDevice-retain : (e d : Text) (m : Entries) → NoDevice e m → NoDevice e (retain_others d m)
unfolding retain_others
NoDevice-retain e d [] n = tt
NoDevice-retain e d ((k, v) ∷ m) n = ground (arith, NoDevice-retain e d m)

retain-NoDevice : (d : Text) (m : Entries) → NoDevice d (retain_others d m)
unfolding retain_others
retain-NoDevice d [] = tt
retain-NoDevice d ((k, v) ∷ m) = ground (arith, retain-NoDevice d m)

retain-IsUnique : (d : Text) (m : Entries) → IsUnique m → IsUnique (retain_others d m)
unfolding retain_others
retain-IsUnique d [] u = tt
retain-IsUnique d ((k, v) ∷ m) u =
    ground (arith, retain-IsUnique d m, NoKey-retain k d m, NoDevice-retain v.device_id d m)

-- An identity that is not the device's.
abbrev pub unless_device : Text → Option DeviceIdentity → Option DeviceIdentity
unless_device d none = none
unless_device d (some v) = if text_eq v.device_id d then none else some v

lookup-retain :
    (h d : Text) (m : Entries)
    → IsUnique m
    → lookup h (retain_others d m) ≡ unless_device d (lookup h m)
unfolding lookup retain_others
lookup-retain h d [] u = refl
lookup-retain h d ((k, v) ∷ m) u = elim (Bool-cases (text_eq k h)) [
  | inl same ↦
      let e = text_eq→eq k h same in
      let absent = subst (λ x. NoKey x m) e u.0 in
      ground (arith, lookup-NoKey h (retain_others d m) (NoKey-retain h d m absent))
  | inr other ↦ ground (arith, lookup-retain h d m u.2)
]

NoKey-insert :
    (j h : Text) (v : DeviceIdentity) (m : Entries)
    → text_eq h j ≡ false
    → NoKey j m
    → NoKey j (insert h v m)
unfolding insert
NoKey-insert j h v [] e n = (e, tt)
NoKey-insert j h v ((k, w) ∷ m) e n = ground (arith, NoKey-insert j h v m e)

NoDevice-insert :
    (d h : Text) (v : DeviceIdentity) (m : Entries)
    → text_eq v.device_id d ≡ false
    → NoDevice d m
    → NoDevice d (insert h v m)
unfolding insert
NoDevice-insert d h v [] e n = (e, tt)
NoDevice-insert d h v ((k, w) ∷ m) e n = ground (arith, NoDevice-insert d h v m e)

insert-IsUnique :
    (h : Text) (v : DeviceIdentity) (m : Entries)
    → NoDevice v.device_id m
    → IsUnique m
    → IsUnique (insert h v m)
unfolding insert
insert-IsUnique h v [] n u = (tt, tt, tt)
insert-IsUnique h v ((k, w) ∷ m) n u = elim (Bool-cases (text_eq k h)) [
  | inl same ↦ rw same (u.0, n.1, u.2)
  | inr other ↦ rw other (
    NoKey-insert k h v m (text_eq_sym h k ∙ other) u.0,
    NoDevice-insert w.device_id h v m (text_eq_sym v.device_id w.device_id ∙ n.0) u.1,
    insert-IsUnique h v m n.1 u.2,
  )
]

persist_by_hash :
    (s : DeviceTokenStore) (written : Bool) → (persist s written).0.by_hash ≡ s.by_hash
unfolding persist
persist_by_hash s written = ground arith

insert_last :
    (h : Text) (v : DeviceIdentity) (m : Entries) → NoKey h m → insert h v m ≡ m ++ (h, v) ∷ []
unfolding insert
insert_last h v [] n = refl
insert_last h v ((k, w) ∷ m) n = rw n.0 (ap (◌∷◌ (k, w)) (insert_last h v m n.1))

NoKey-middle :
    (k h : Text) (v : DeviceIdentity) (m r : Entries)
    → NoKey k (m ++ (h, v) ∷ r)
    → text_eq h k ≡ false
NoKey-middle k h v [] r n = n.0
NoKey-middle k h v (e ∷ m) r n = NoKey-middle k h v m r n.1

IsUnique-middle :
    (h : Text) (v : DeviceIdentity) (m r : Entries) → IsUnique (m ++ (h, v) ∷ r) → NoKey h m
IsUnique-middle h v [] r u = tt
IsUnique-middle h v ((k, w) ∷ m) r u =
    (text_eq_sym k h ∙ NoKey-middle k h v m r u.0, IsUnique-middle h v m r u.2)

collect-append : (r m : Entries) → IsUnique (m ++ r) → collect m (map to_record r) ≡ m ++ r
unfolding collect to_record to_identity
collect-append [] m u = sym (append-nil m)
collect-append ((h, v) ∷ r) m u =
    ap (λ n. collect n (map to_record r)) (insert_last h v m (IsUnique-middle h v m r u))
    ∙ collect-append r (m ++ (h, v) ∷ []) (subst IsUnique (sym (append_assoc m ((h, v) ∷ []) r)) u)
    ∙ append_assoc m ((h, v) ∷ []) r

module _ {ℓ} {Bytes : Type ℓ} (to_vec_pretty : List TokenRecord → Bytes)
    (from_slice : Bytes → Option (List TokenRecord)) where
  -- A restart loses nothing: if the parser reads the records back from the bytes that the serialiser
  -- writes for them, then in a store with one entry to a hash and one to a device, the bytes written
  -- by a successful change open to the store as it stood, every field of every device included.
  pub open_store-persist :
      ((records : List TokenRecord) → from_slice (to_vec_pretty records) ≡ some records)
      → (s : DeviceTokenStore) → IsUnique s.by_hash
      → open_store from_slice (some (to_vec_pretty (persist s true).0.file))
        ≡ some (persist s true).0
  unfolding open_store opened persist
  open_store-persist reads s u =
      rw (reads (map to_record s.by_hash), collect-append s.by_hash [] u) refl

module _ (sha256_hex : Text → Text) where
  -- Binding and revoking keep one entry to a hash and one to a device, whether or not the write to
  -- the disk succeeds: no device ever holds two tokens.
  pub bind-IsUnique :
      (s : DeviceTokenStore) (token device user now : Text) (written : Bool)
      → IsUnique s.by_hash
      → IsUnique (bind sha256_hex s token device user now written).0.by_hash
        × IsUnique (revoke s device written).0.by_hash
  unfolding bind revoke
  bind-IsUnique s token device user now written u =
      let kept = retain-IsUnique device s.by_hash u in
      (
        subst IsUnique (sym (persist_by_hash _ written))
            (insert-IsUnique (sha256_hex token) _ _ (retain-NoDevice device s.by_hash) kept),
        subst IsUnique (sym (persist_by_hash _ written)) kept,
      )

  -- In a store with one entry to a hash and one to a device, after a token is bound to a device
  -- that token resolves to the device; every token with another hash resolves as it did before,
  -- but the device's old tokens resolve to nothing.
  pub verify-bind :
      (s : DeviceTokenStore) (token presented device user now : Text) (written : Bool)
      → IsUnique s.by_hash
      → verify sha256_hex (bind sha256_hex s token device user now written).0 presented ≡ (
          if text_eq (sha256_hex token) (sha256_hex presented)
          then some (record { device_id = device; user_id = user; issued_at = some now })
          else unless_device device (verify sha256_hex s presented))
  unfolding bind verify
  verify-bind s token presented device user now written u = rw (
    persist_by_hash
        (record s {
          by_hash =
              insert (sha256_hex token)
                (record { device_id = device; user_id = user; issued_at = some now })
                (retain_others device s.by_hash);
        })
        written,
    lookup-insert (sha256_hex token) (sha256_hex presented)
        (record { device_id = device; user_id = user; issued_at = some now })
        (retain_others device s.by_hash),
    lookup-retain (sha256_hex presented) device s.by_hash u,
  )

  -- In a store with one entry to a hash and one to a device, revoking a device makes all its
  -- tokens resolve to nothing and leaves every other token alone.
  pub verify-revoke :
      (s : DeviceTokenStore) (presented device : Text) (written : Bool)
      → IsUnique s.by_hash
      → verify sha256_hex (revoke s device written).0 presented
        ≡ unless_device device (verify sha256_hex s presented)
  unfolding revoke verify
  verify-revoke s presented device written u = rw (
    persist_by_hash (record s { by_hash = retain_others device s.by_hash }) written,
    lookup-retain (sha256_hex presented) device s.by_hash u,
  )

  bind_fails :
      (s : DeviceTokenStore) (token device user now : Text)
      → (issue sha256_hex s token device user now false).1 ≡ none
  unfolding issue bind persist
  bind_fails s token device user now = refl

  bind_fails_file :
      (s : DeviceTokenStore) (token device user now : Text)
      → (bind sha256_hex s token device user now false).0.file ≡ s.file
  unfolding bind persist
  bind_fails_file s token device user now = refl

  -- A token that could not be saved still evicts: when the write of an issue fails, no token is
  -- returned and the file keeps its records, but an old token of the device, with another hash
  -- than the new one, no longer resolves in memory. The store has one entry to a hash and one to a
  -- device.
  pub failed_issue_evicts :
      (s : DeviceTokenStore) (token old device user now : Text) (v : DeviceIdentity)
      → IsUnique s.by_hash
      → verify sha256_hex s old ≡ some v
      → v.device_id ≡ device
      → text_eq (sha256_hex token) (sha256_hex old) ≡ false
      → let (s', r) = issue sha256_hex s token device user now false in
        (r ≡ none) × (s'.file ≡ s.file) × (verify sha256_hex s' old ≡ none)
  unfolding issue
  failed_issue_evicts s token old device user now v u e d n = (
    bind_fails s token device user now,
    bind_fails_file s token device user now,
    rw (verify-bind s token old device user now false u, n, e, d, text_eq_refl device) refl,
  )

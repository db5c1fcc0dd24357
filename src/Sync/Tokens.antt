-- ===== src/Sync/Tokens.antt =====
-- crates/idiolect-sync-server/src/device_tokens.rs. SHA-256 is a parameter, the HashMap an
-- association list with one entry to a key, and the file the list of its records, whose JSON text is
-- serde's: the parser of the bytes is a parameter of `open`. The clock's text, the minted token and
-- whether the writes to the disk succeed are arguments.
pub mod Laws
use idiolect.Common.{
  ℕ, Bool, true, false, not, Option, none, some, List, [], ◌∷◌, map, length, if◌then◌else◌,
}
use idiolect.Text.{Text, text_eq}

pub record DeviceIdentity : Type 0 where
  pub device_id : Text
  pub user_id : Text
  pub issued_at : Option Text

abbrev pub Entries : Type 0
Entries = List (Text × DeviceIdentity)

pub record TokenRecord : Type 0 where
  pub token_hash : Text
  pub device_id : Text
  pub user_id : Text
  pub issued_at : Option Text

-- The closures of `persist` and `open`.
unfoldable pub to_record : Text × DeviceIdentity → TokenRecord
to_record (hash, identity) = record {
  token_hash = hash;
  device_id = identity.device_id;
  user_id = identity.user_id;
  issued_at = identity.issued_at;
}

unfoldable pub to_identity : TokenRecord → DeviceIdentity
to_identity r = record { device_id = r.device_id; user_id = r.user_id; issued_at = r.issued_at }

-- `by_hash` in memory, and the records in the file at `path`.
pub record DeviceTokenStore : Type 0 where
  pub by_hash : Entries
  pub file : List TokenRecord

-- `HashMap::get`, `insert`, and `retain` with a device id other than the given one.
unfoldable pub lookup : Text → Entries → Option DeviceIdentity
lookup h [] = none
lookup h ((k, v) ∷ m) = if text_eq k h then some v else lookup h m

unfoldable pub insert : Text → DeviceIdentity → Entries → Entries
insert h v [] = (h, v) ∷ []
insert h v ((k, w) ∷ m) = if text_eq k h then (k, v) ∷ m else (k, w) ∷ insert h v m

unfoldable pub retain_others : Text → Entries → Entries
retain_others d [] = []
retain_others d ((k, v) ∷ m) =
    let rest = retain_others d m in if text_eq v.device_id d then rest else (k, v) ∷ rest

-- The records of the file, collected into the map one after the other.
unfoldable pub collect : Entries → List TokenRecord → Entries
unfolding to_identity
collect m [] = m
collect m (r ∷ records) = collect (insert r.token_hash (to_identity r) m) records

unfoldable pub opened : Option (List TokenRecord) → Option DeviceTokenStore
opened none = none
opened (some records) = some (record { by_hash = collect [] records; file = records })

-- `open` with what the read of the file gave: nothing where it is absent, or its bytes; `none` is the
-- error of bytes that do not parse.
unfoldable pub open_store {ℓ} :
    {Bytes : Type ℓ} → (Bytes → Option (List TokenRecord)) → Option Bytes → Option DeviceTokenStore
unfolding opened
open_store from_slice none = some (record { by_hash = []; file = [] })
open_store from_slice (some bytes) = opened (from_slice bytes)

-- `persist`: the rename is atomic, so a failed write leaves the file as it was.
unfoldable pub persist : DeviceTokenStore → Bool → DeviceTokenStore × Bool
unfolding to_record
persist s written =
    if written then (record s { file = map to_record s.by_hash }, true) else (s, false)

unfoldable pub revoke : DeviceTokenStore → Text → Bool → DeviceTokenStore × Bool
revoke s device_id written =
    persist (record s { by_hash = retain_others device_id s.by_hash }) written

unfoldable pub device_count : DeviceTokenStore → ℕ
device_count s = length s.by_hash

unfoldable pub devices : DeviceTokenStore → List DeviceIdentity
devices s = map (λ e. e.1) s.by_hash

module _ (sha256_hex : Text → Text) where
  unfoldable pub bind :
      DeviceTokenStore → Text → Text → Text → Text → Bool → DeviceTokenStore × Bool
  bind s token device_id user_id now written =
      let identity : DeviceIdentity = record {
        device_id = device_id;
        user_id = user_id;
        issued_at = some now;
      } in
      persist
        (record s {
          by_hash = insert (sha256_hex token) identity (retain_others device_id s.by_hash);
        })
        written

  -- `issue` with the token that `mint_token` gave; `none` is the I/O error.
  unfoldable pub issue :
      DeviceTokenStore → Text → Text → Text → Text → Bool → DeviceTokenStore × Option Text
  issue s token device_id user_id now written =
      let (s', ok) = bind s token device_id user_id now written in
      (s', if ok then some token else none)

  unfoldable pub verify : DeviceTokenStore → Text → Option DeviceIdentity
  verify s presented = lookup (sha256_hex presented) s.by_hash

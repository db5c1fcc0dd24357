-- ===== src/Sync/Pairing.antt =====
-- crates/idiolect-sync-server/src/pairing.rs. The code that `random_code` drew, the token that was
-- minted, the clock and the success of the disk are arguments; SHA-256 is a parameter. Both mutexes
-- are held over the whole of `pair`, so a history is a sequence of calls. The URI and the QR code of
-- an offer are those of pairing_qr.rs and not modelled.
pub mod Codes
pub mod History
use idiolect.Common.{
  zero, suc, ◌%◌, ℕ, zero, suc, ◌+◌, ◌-◌, ◌^◌, Bool, true, false, not, ◌&&◌, ◌||◌, Option, none,
  some, List, [], ◌∷◌, ◌++◌, ltb, leb, ◌==◌, length, take, drop, if◌then◌else◌,
}
use idiolect.Text.{Text, is_whitespace, text_eq}
use idiolect.Sync.Tokens.{DeviceTokenStore, issue}

abbrev pub pairing_code_len : ℕ
pairing_code_len = 8

abbrev pub pairing_code_ttl_secs : ℕ
pairing_code_ttl_secs = 600

abbrev pub pairing_max_attempts : ℕ
pairing_max_attempts = 5

pub record PendingCode : Type 0 where
  pub code_hash : Text
  pub expires_at_secs : ℕ
  pub attempts_remaining : ℕ

pub record PairingState : Type 0 where
  pub pending : Option PendingCode

pub data RedeemOutcome : Type 0 where
  issued no_pending_code expired wrong_code too_many_attempts : RedeemOutcome

-- `u64::saturating_add`.
abbrev pub saturating_add : ℕ → ℕ → ℕ
saturating_add a b = if ltb (a + b) (2 ^ 64) then a + b else 2 ^ 64 - 1

-- "0123456789ABCDEFGHJKMNPQRSTVWXYZ".
abbrev pub pairing_alphabet : Text
pairing_alphabet =
    48 ∷ 49 ∷ 50 ∷ 51 ∷ 52 ∷ 53 ∷ 54 ∷ 55 ∷ 56 ∷ 57 ∷ 65 ∷ 66 ∷ 67 ∷ 68 ∷ 69 ∷ 70 ∷ 71 ∷ 72 ∷ 74
    ∷ 75 ∷ 77 ∷ 78 ∷ 80 ∷ 81 ∷ 82 ∷ 83 ∷ 84 ∷ 86 ∷ 87 ∷ 88 ∷ 89 ∷ 90 ∷ []

symbol_at : Text → ℕ → ℕ
symbol_at [] i = 0
symbol_at (c ∷ s) zero = c
symbol_at (c ∷ s) (suc i) = symbol_at s i

fold_bytes : List ℕ → Text
fold_bytes [] = []
fold_bytes (b ∷ bytes) = symbol_at pairing_alphabet (b % 32) ∷ fold_bytes bytes

-- The code drawn from the bytes of a SHA-256 digest.
unfoldable pub random_code : List ℕ → Text
unfolding fold_bytes symbol_at
random_code digest = fold_bytes (take pairing_code_len digest)

unfoldable pub to_ascii_uppercase : Text → Text
to_ascii_uppercase [] = []
to_ascii_uppercase (c ∷ s) = (if leb b'a' c && leb c b'z' then c - 32 else c) ∷ to_ascii_uppercase s

unfoldable pub strip_separators : Text → Text
strip_separators [] = []
strip_separators (c ∷ s) =
    let rest = strip_separators s in if is_whitespace c || c == b'-' then rest else c ∷ rest

unfoldable pub normalise_code : Text → Text
normalise_code code = to_ascii_uppercase (strip_separators code)

unfoldable pub is_ascii : Text → Bool
is_ascii [] = true
is_ascii (c ∷ s) = let rest = is_ascii s in if ltb c 128 then rest else false

-- `format!("{}-{}", &code[..4], &code[4..])` for a code of 8 bytes, all of them ASCII.
unfoldable pub group : Text → Text
group code =
    if length code == pairing_code_len && is_ascii code
    then take 4 code ++ b'-' ∷ drop 4 code
    else code

abbrev pub is_ascii_alphanumeric : ℕ → Bool
is_ascii_alphanumeric b =
    (leb b'0' b && leb b b'9') || (leb b'A' b && leb b b'Z') || (leb b'a' b && leb b b'z')

all_id_bytes : Text → Bool
all_id_bytes [] = true
all_id_bytes (b ∷ s) =
    let rest = all_id_bytes s in
    if is_ascii_alphanumeric b || b == b'.' || b == b'_' || b == b'-' then rest else false

-- Over chars: where a char has more than one byte, both versions refuse the id.
unfoldable pub valid_device_id : Text → Bool
unfolding all_id_bytes
valid_device_id id = leb 1 (length id) && leb (length id) 64 && all_id_bytes id

unfoldable pub consume : PairingState → PairingState
consume p = record { pending = none }

unfoldable pub cancel : PairingState → PairingState
cancel p = record { pending = none }

is_active : Option PendingCode → ℕ → Bool
is_active none now = false
is_active (some c) now = ltb now c.expires_at_secs

unfoldable pub has_active_code : PairingState → ℕ → Bool
unfolding is_active
has_active_code p now = is_active p.pending now

module _ (sha256_hex : Text → Text) where
  -- With the code that was drawn.
  unfoldable pub generate : PairingState → Text → ℕ → PairingState
  generate p code now = record {
    pending = some (record {
      code_hash = sha256_hex code;
      expires_at_secs = saturating_add now pairing_code_ttl_secs;
      attempts_remaining = pairing_max_attempts;
    });
  }

  redeem_pending : Option PendingCode → Text → ℕ → PairingState × RedeemOutcome
  redeem_pending none presented now = (record { pending = none }, no_pending_code)
  redeem_pending (some c) presented now =
      if leb c.expires_at_secs now
      then (record { pending = none }, expired)
      else if text_eq (sha256_hex (normalise_code presented)) c.code_hash
      then (record { pending = some c }, issued)
      else if c.attempts_remaining - 1 == 0
      then (record { pending = none }, too_many_attempts)
      else (
        record { pending = some (record c { attempts_remaining = c.attempts_remaining - 1 }) },
        wrong_code,
      )

  unfoldable pub redeem : PairingState → Text → ℕ → PairingState × RedeemOutcome
  unfolding redeem_pending
  redeem p presented now = redeem_pending p.pending presented now

pub record PairRequest : Type 0 where
  pub code : Text
  pub device_id : Text

pub data Response : Type 0 where
  created : Text → Text → Response
  bad_request unauthorized internal_server_error : Response

-- "default", the one user of a personal server.
abbrev pub default_user : Text
default_user = b'd' ∷ b'e' ∷ b'f' ∷ b'a' ∷ b'u' ∷ b'l' ∷ b't' ∷ []

pub record PairingServerState : Type 0 where
  pub tokens : DeviceTokenStore
  pub pairing : PairingState

module _ (sha256_hex : Text → Text) where
  answer :
      Option Text → PairRequest → DeviceTokenStore → PairingState → PairingServerState × Response
  answer (some token) r tokens p =
      (record { tokens = tokens; pairing = consume p }, created token r.device_id)
  answer none r tokens p = (record { tokens = tokens; pairing = p }, internal_server_error)

  redeemed :
      RedeemOutcome
      → PairingServerState
      → PairingState
      → PairRequest
      → Text
      → Text
      → Bool
      → PairingServerState × Response
  redeemed issued s p r token stamp written =
      let (tokens, o) = issue sha256_hex s.tokens token r.device_id default_user stamp written in
      answer o r tokens p
  redeemed _ s p r token stamp written = (record s { pairing = p }, unauthorized)

  -- A request whose body does not parse is `none`.
  unfoldable pub pair :
      PairingServerState
      → Option PairRequest
      → ℕ
      → Text
      → Text
      → Bool
      → PairingServerState × Response
  unfolding redeemed answer
  pair s none now token stamp written = (s, bad_request)
  pair s (some r) now token stamp written =
      if valid_device_id r.device_id
      then (let (p, outcome) = redeem sha256_hex s.pairing r.code now in
          redeemed outcome s p r token stamp written)
      else (s, bad_request)

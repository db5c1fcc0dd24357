-- ===== src/Sync/Examples.antt =====
-- Runs of device_tokens.rs and pairing.rs: their theorems at concrete stores, with a hash that only
-- marks what it hashed.
use idiolect.Common.{
  ℕ, ◌+◌, ◌*◌, ◌<◌, ◌≤◌, ◌≡◌, refl, true, false, Option, none, some, List, [], ◌∷◌, map, arith,
}
use idiolect.Text.{Text, text_eq, is_whitespace}
use idiolect.Sync.Clock.{Date, is_leap_year, year_of, month_of, days_to_ymd, iso8601}
use idiolect.Sync.Clock.Calendar.{IsDateOf, iso8601_total}
use idiolect.Sync.Tokens.{
  DeviceIdentity, TokenRecord, DeviceTokenStore, lookup, open_store, persist, revoke, bind, issue,
  verify,
}
use idiolect.Sync.Tokens.Laws.{IsUnique, bind-IsUnique, open_store-persist, failed_issue_evicts}
use idiolect.Sync.Pairing.{
  PendingCode, PairingState, PairRequest, PairingServerState, normalise_code, strip_separators,
  to_ascii_uppercase, redeem, pair, default_user, valid_device_id,
}
use idiolect.Sync.Pairing.History.{
  Call, offer, withdraw, request, is_created, pending_codes, AllWrong, guess_all, history,
  wrong_guesses, created_per_code, pair_once,
}

abbrev toy_hash : Text → Text
toy_hash t = b'#' ∷ t

abbrev phone : Text
phone = b'p' ∷ []

abbrev laptop : Text
laptop = b'l' ∷ []

abbrev phone_identity : DeviceIdentity
phone_identity = record { device_id = phone; user_id = default_user; issued_at = none }

abbrev old_token : Text
old_token = b'o' ∷ []

abbrev new_token : Text
new_token = b'n' ∷ []

abbrev store : DeviceTokenStore
store = record {
  by_hash = (toy_hash old_token, phone_identity) ∷ [];
  file =
      record {
        token_hash = toy_hash old_token;
        device_id = phone;
        user_id = default_user;
        issued_at = none;
      }
      ∷ [];
}

-- A row of texts for a record, without the last where no time of issue is recorded.
abbrev to_row : TokenRecord → List Text
to_row r = r.token_hash ∷ r.device_id ∷ r.user_id ∷ elim r.issued_at [ none ↦ [] | some t ↦ t ∷ [] ]

abbrev of_row : List Text → Option TokenRecord
of_row (h ∷ d ∷ u ∷ []) =
    some (record { token_hash = h; device_id = d; user_id = u; issued_at = none })
of_row (h ∷ d ∷ u ∷ t ∷ []) =
    some (record { token_hash = h; device_id = d; user_id = u; issued_at = some t })
of_row _ = none

abbrev put : Option TokenRecord → Option (List TokenRecord) → Option (List TokenRecord)
put (some r) (some rs) = some (r ∷ rs)
put _ _ = none

abbrev to_rows : List TokenRecord → List (List Text)
to_rows rs = map to_row rs

abbrev of_rows : List (List Text) → Option (List TokenRecord)
of_rows [] = some []
of_rows (row ∷ rows) = put (of_row row) (of_rows rows)

of_row-to_row :
    (h d u : Text) (t : Option Text)
    → let r : TokenRecord = record { token_hash = h; device_id = d; user_id = u; issued_at = t } in
      of_row (to_row r) ≡ some r
of_row-to_row h d u none = refl
of_row-to_row h d u (some t) = refl

of_rows-to_rows : (rs : List TokenRecord) → of_rows (to_rows rs) ≡ some rs
of_rows-to_rows [] = refl
of_rows-to_rows (r ∷ rs) =
    rw (of_row-to_row r.token_hash r.device_id r.user_id r.issued_at, of_rows-to_rows rs) refl

bind-IsUnique_example :
    IsUnique (bind toy_hash store new_token laptop default_user [] false).0.by_hash
    × IsUnique (revoke store laptop false).0.by_hash
bind-IsUnique_example =
    bind-IsUnique toy_hash store new_token laptop default_user [] false (tt, tt, tt)

open_store-persist_example :
    open_store of_rows (some (to_rows (persist store true).0.file)) ≡ some (persist store true).0
open_store-persist_example = open_store-persist to_rows of_rows of_rows-to_rows store (tt, tt, tt)

resolves : verify toy_hash store old_token ≡ some phone_identity
unfolding verify lookup text_eq
resolves = refl

tokens_differ : text_eq (toy_hash new_token) (toy_hash old_token) ≡ false
unfolding text_eq
tokens_differ = refl

failed_issue_evicts_example :
    let (s', r) = issue toy_hash store new_token phone default_user [] false in
    (r ≡ none) × (s'.file ≡ store.file) × (verify toy_hash s' old_token ≡ none)
failed_issue_evicts_example =
    failed_issue_evicts toy_hash store new_token old_token phone default_user [] phone_identity
      (tt, tt, tt) resolves refl tokens_differ

abbrev digest : List ℕ
digest = 0 ∷ 31 ∷ 32 ∷ 10 ∷ 200 ∷ 255 ∷ 64 ∷ 7 ∷ []

abbrev no_code : PairingState
no_code = record { pending = none }

-- "a-b" for the code "AB".
abbrev typed : Text
typed = b'a' ∷ b'-' ∷ b'b' ∷ []

abbrev code : Text
code = b'A' ∷ b'B' ∷ []

typed_code : normalise_code typed ≡ code
unfolding normalise_code strip_separators to_ascii_uppercase is_whitespace
typed_code = refl

abbrev pending : PendingCode
pending = record { code_hash = toy_hash code; expires_at_secs = 700; attempts_remaining = 2 }

abbrev guesses : List (Text × ℕ)
guesses = (laptop, 101) ∷ (phone, 102) ∷ []

guesses_wrong : AllWrong toy_hash (toy_hash code) 700 guesses
unfolding normalise_code strip_separators to_ascii_uppercase is_whitespace text_eq
guesses_wrong = (refl, omega arith, (refl, omega arith, tt))

wrong_guesses_example :
    (guess_all toy_hash (record { pending = some pending }) guesses).pending ≡ none
wrong_guesses_example = wrong_guesses toy_hash pending guesses (omega arith) guesses_wrong

abbrev server : PairingServerState
server = record { tokens = store; pairing = record { pending = some pending } }

abbrev pair_request : PairRequest
pair_request = record { code = typed; device_id = phone }

abbrev calls : List Call
calls =
    request (some pair_request) 200 new_token [] true
    ∷ request (some pair_request) 201 old_token [] true
    ∷ offer code 300
    ∷ withdraw
    ∷ []

created_per_code_example :
    let (s', n) = history toy_hash server calls in n + pending_codes s'.pairing.pending ≤ 1 + 1
created_per_code_example = created_per_code toy_hash server calls

paired : is_created (pair toy_hash server (some pair_request) 200 new_token [] true).1 ≡ 1
unfolding pair redeem issue bind persist valid_device_id text_eq normalise_code strip_separators
    to_ascii_uppercase is_whitespace
paired = refl

pair_once_example :
    let s1 = (pair toy_hash server (some pair_request) 200 new_token [] true).0 in
    let (s2, response) = pair toy_hash s1 (some pair_request) 201 old_token [] true in
    (verify toy_hash s1.tokens new_token
      ≡ some (record { device_id = phone; user_id = default_user; issued_at = some [] }))
    × (is_created response ≡ 0)
    × (s2.tokens ≡ s1.tokens)
    × (s2.pairing.pending ≡ none)
pair_once_example =
    pair_once toy_hash server pair_request 200 new_token [] true (some pair_request) 201 old_token
      [] true (tt, tt, tt) paired

-- 2024-02-29, 23:59:59.
iso8601_total_example :
    (days : ℕ) × (date : Date) × ((iso8601 1709251199).date ≡ some date)
    × IsDateOf days date
    × (days * 86400
          + (iso8601 1709251199).hour * 3600
          + (iso8601 1709251199).minute * 60
          + (iso8601 1709251199).second
        ≡ 1709251199)
    × ((iso8601 1709251199).hour < 24)
    × ((iso8601 1709251199).minute < 60)
    × ((iso8601 1709251199).second < 60)
iso8601_total_example = iso8601_total 1709251199

leap_day : days_to_ymd 19782 ≡ some (record { year = 2024; month = 2; day = 29 })
unfolding days_to_ymd year_of month_of is_leap_year
leap_day = refl

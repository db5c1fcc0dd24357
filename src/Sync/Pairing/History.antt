-- ===== src/Sync/Pairing/History.antt =====
-- The histories of pairing.rs: what any sequence of offers, cancellations and requests can lead to.
use idiolect.Common.{
  ℕ, ◌+◌, ◌-◌, ◌≤◌, ◌<◌, ◌≡◌, refl, Bool, false, Option, none, some, List, [], ◌∷◌, arith, ltb,
  ◌==◌, length, if◌then◌else◌, inl, inr, Bool-cases,
}
use idiolect.Text.{Text, text_eq, text_eq_refl}
use idiolect.Sync.Tokens.{DeviceTokenStore, bind, issue, verify}
use idiolect.Sync.Tokens.Laws.{IsUnique, verify-bind}
use idiolect.Sync.Pairing.{
  PendingCode, PairingState, RedeemOutcome, issued, no_pending_code, expired, wrong_code,
  too_many_attempts, normalise_code, consume, cancel, generate, redeem_pending, redeem,
  default_user, PairRequest, Response, created, unauthorized, bad_request, internal_server_error,
  PairingServerState, answer, redeemed, pair, valid_device_id,
}

-- A pending code has a guess left, and five at most.
abbrev pub PendingIsValid : Option PendingCode → Type 0
PendingIsValid none = Unit {0}
PendingIsValid (some c) = (1 ≤ c.attempts_remaining) × (c.attempts_remaining ≤ 5)

abbrev pub IsValid : PairingState → Type 0
IsValid p = PendingIsValid p.pending

-- One call of the server: a code minted in place of the last, a cancellation, or a request with its
-- time, the token minted for it, its stamp and whether the write succeeds.
pub data Call : Type 0 where
  offer : Text → ℕ → Call
  withdraw : Call
  request : Option PairRequest → ℕ → Text → Text → Bool → Call

abbrev pub is_created : Response → ℕ
is_created (created t d) = 1
is_created bad_request = 0
is_created unauthorized = 0
is_created internal_server_error = 0

abbrev pub pending_codes : Option PendingCode → ℕ
pending_codes none = 0
pending_codes (some c) = 1

abbrev pub offers : List Call → ℕ
offers [] = 0
offers (offer code now ∷ calls) = 1 + offers calls
offers (withdraw ∷ calls) = offers calls
offers (request r now t u w ∷ calls) = offers calls

-- Each of the guesses, with its time, differs from the code of this hash and comes before its end.
abbrev pub AllWrong : (Text → Text) → Text → ℕ → List (Text × ℕ) → Type 0
AllWrong sha hash end [] = Unit {0}
AllWrong sha hash end (g ∷ gs) =
    (text_eq (sha (normalise_code g.0)) hash ≡ false) × (g.1 < end) × AllWrong sha hash end gs

module _ (sha256_hex : Text → Text) where
  abbrev pub guess_all : PairingState → List (Text × ℕ) → PairingState
  guess_all p [] = p
  guess_all p (g ∷ gs) = guess_all (redeem sha256_hex p g.0 g.1).0 gs

  redeem_pending-IsValid :
      (c : Option PendingCode) (presented : Text) (now : ℕ)
      → PendingIsValid c
      → IsValid (redeem_pending sha256_hex c presented now).0
  unfolding redeem_pending
  redeem_pending-IsValid none presented now h = tt
  redeem_pending-IsValid (some c) presented now h = ground arith

  -- Every operation on the pairing state keeps between one and five guesses on a pending code, so
  -- the count that a wrong guess takes one from is never 0.
  pub redeem-IsValid :
      (p : PairingState) (code presented : Text) (now : ℕ)
      → IsValid p
      → IsValid (redeem sha256_hex p presented now).0
        × IsValid (generate sha256_hex p code now)
        × IsValid (consume p)
        × IsValid (cancel p)
  unfolding redeem generate consume cancel
  redeem-IsValid p code presented now h =
      (redeem_pending-IsValid p.pending presented now h, (omega arith, omega arith), tt, tt)

  guess_none : (gs : List (Text × ℕ)) → (guess_all (record { pending = none }) gs).pending ≡ none
  unfolding redeem redeem_pending
  guess_none [] = refl
  guess_none (g ∷ gs) = guess_none gs

  wrong_from :
      (hash : Text) (end k : ℕ) (gs : List (Text × ℕ))
      → 1 ≤ k
      → AllWrong sha256_hex hash end gs
      → (guess_all
          (record {
            pending =
                some (record { code_hash = hash; expires_at_secs = end; attempts_remaining = k });
          })
          gs).pending
        ≡ (if ltb (length gs) k
            then some (record {
              code_hash = hash;
              expires_at_secs = end;
              attempts_remaining = k - length gs;
            })
            else none)
  unfolding redeem redeem_pending
  wrong_from hash end k [] h w = ground arith
  wrong_from hash end k (g ∷ gs) h w = elim (Bool-cases (k - 1 == 0)) [
    | inl last ↦ ground (arith, guess_none gs)
    | inr left ↦ ground (arith, wrong_from hash end (k - 1) gs)
  ]

  -- Where a pending code has a guess left, wrong guesses in time count its guesses down, and the
  -- one that takes the last burns it: after as many as it had, there is no code.
  pub wrong_guesses :
      (c : PendingCode) (gs : List (Text × ℕ))
      → 1 ≤ c.attempts_remaining
      → AllWrong sha256_hex c.code_hash c.expires_at_secs gs
      → (guess_all (record { pending = some c }) gs).pending ≡ (
          if ltb (length gs) c.attempts_remaining
          then some (record c { attempts_remaining = c.attempts_remaining - length gs })
          else none)
  wrong_guesses c gs h w = wrong_from c.code_hash c.expires_at_secs c.attempts_remaining gs h w

  redeem_pending_codes :
      (c : Option PendingCode) (presented : Text) (now : ℕ)
      → pending_codes (redeem_pending sha256_hex c presented now).0.pending ≤ pending_codes c
  unfolding redeem_pending
  redeem_pending_codes none presented now = omega arith
  redeem_pending_codes (some c) presented now = ground arith

  redeem_issued :
      (c : Option PendingCode) (presented : Text) (now : ℕ)
      → (redeem_pending sha256_hex c presented now).1 ≡ issued
      → pending_codes c ≡ 1
  unfolding redeem_pending
  redeem_issued none presented now e = cc
  redeem_issued (some c) presented now e = refl

  abbrev pub after : PairingServerState → Call → PairingServerState × ℕ
  after s (offer code now) = (record s { pairing = generate sha256_hex s.pairing code now }, 0)
  after s withdraw = (record s { pairing = cancel s.pairing }, 0)
  after s (request r now token stamp written) =
      let (s', response) = pair sha256_hex s r now token stamp written in (s', is_created response)

  -- The state after a history, and how many requests it answered with a token.
  abbrev pub history : PairingServerState → List Call → PairingServerState × ℕ
  history s [] = (s, 0)
  history s (c ∷ calls) = let (s1, n) = after s c in let (s2, m) = history s1 calls in (s2, n + m)

  pending_codes_le : (c : Option PendingCode) → pending_codes c ≤ 1
  pending_codes_le none = omega arith
  pending_codes_le (some c) = omega arith

  answer_codes :
      (o : Option Text) (r : PairRequest) (tokens : DeviceTokenStore) (p : PairingState)
      → let (s', response) = answer sha256_hex o r tokens p in
        is_created response + pending_codes s'.pairing.pending ≤ 1
  unfolding answer consume
  answer_codes none r tokens p = omega (arith, pending_codes_le p.pending)
  answer_codes (some t) r tokens p = omega arith

  redeemed_codes :
      (o : RedeemOutcome) (s : PairingServerState) (p : PairingState) (r : PairRequest) (n : ℕ)
      (token stamp : Text) (written : Bool)
      → pending_codes p.pending ≤ n
      → (o ≡ issued → n ≡ 1)
      → let (s', response) = redeemed sha256_hex o s p r token stamp written in
        is_created response + pending_codes s'.pairing.pending ≤ n
  unfolding redeemed
  redeemed_codes issued s p r n token stamp written le one = rw (one refl) (answer_codes _ r _ p)
  redeemed_codes no_pending_code s p r n token stamp written le one = omega arith
  redeemed_codes expired s p r n token stamp written le one = omega arith
  redeemed_codes wrong_code s p r n token stamp written le one = omega arith
  redeemed_codes too_many_attempts s p r n token stamp written le one = omega arith

  pair_codes :
      (s : PairingServerState) (r : Option PairRequest) (now : ℕ) (token stamp : Text)
      (written : Bool)
      → let (s', response) = pair sha256_hex s r now token stamp written in
        is_created response + pending_codes s'.pairing.pending ≤ pending_codes s.pairing.pending
  unfolding pair redeem
  pair_codes s none now token stamp written = omega arith
  pair_codes s (some r) now token stamp written = elim (Bool-cases (valid_device_id r.device_id)) [
    | inl valid ↦ rw valid (
        redeemed_codes (redeem sha256_hex s.pairing r.code now).1 s
          (redeem sha256_hex s.pairing r.code now).0 r (pending_codes s.pairing.pending) token stamp
          written (redeem_pending_codes s.pairing.pending r.code now)
          (redeem_issued s.pairing.pending r.code now))
    | inr invalid ↦ rw invalid (omega arith)
  ]

  -- A code pairs one device at most: over any history of offers, cancellations and requests, at any
  -- times and with any failures of the disk, the requests answered with a token are no more than the
  -- codes offered, the one pending at the start counted with them.
  pub created_per_code :
      (s : PairingServerState) (calls : List Call)
      → let (s', n) = history s calls in
        n + pending_codes s'.pairing.pending ≤ pending_codes s.pairing.pending + offers calls
  unfolding generate cancel
  created_per_code s [] = omega arith
  created_per_code s (offer code now ∷ calls) =
      omega (arith, created_per_code (after s (offer code now)).0 calls)
  created_per_code s (withdraw ∷ calls) = omega (arith, created_per_code (after s withdraw).0 calls)
  created_per_code s (request r now token stamp written ∷ calls) = omega (
    arith,
    pair_codes s r now token stamp written,
    created_per_code (after s (request r now token stamp written)).0 calls,
  )

  pair-none :
      (s : PairingServerState) (q : Option PairRequest) (now : ℕ) (token stamp : Text)
      (written : Bool)
      → s.pairing.pending ≡ none
      → let (s', response) = pair sha256_hex s q now token stamp written in
        (is_created response ≡ 0) × (s'.tokens ≡ s.tokens) × (s'.pairing.pending ≡ none)
  unfolding pair redeem redeem_pending redeemed
  pair-none s none now token stamp written e = (refl, refl, e)
  pair-none s (some r) now token stamp written e = elim (Bool-cases (valid_device_id r.device_id)) [
    | inl valid ↦ rw (valid, e) (refl, refl, refl)
    | inr invalid ↦ rw invalid (refl, refl, e)
  ]

  answer_created :
      (o : Option Text) (r : PairRequest) (tokens : DeviceTokenStore) (p : PairingState)
      → is_created (answer sha256_hex o r tokens p).1 ≡ 1
      → ((answer sha256_hex o r tokens p).0.tokens ≡ tokens)
        × ((answer sha256_hex o r tokens p).0.pairing.pending ≡ none)
  unfolding answer consume
  answer_created none r tokens p e = cc
  answer_created (some t) r tokens p e = (refl, refl)

  redeemed_created :
      (o : RedeemOutcome) (s : PairingServerState) (p : PairingState) (r : PairRequest)
      (token stamp : Text) (written : Bool)
      → let (s', response) = redeemed sha256_hex o s p r token stamp written in
        is_created response ≡ 1
        → (s'.tokens ≡ (bind sha256_hex s.tokens token r.device_id default_user stamp written).0)
          × (s'.pairing.pending ≡ none)
  unfolding redeemed issue
  redeemed_created issued s p r token stamp written e =
      answer_created _ r (bind sha256_hex s.tokens token r.device_id default_user stamp written).0 p
        e
  redeemed_created no_pending_code s p r token stamp written e = cc
  redeemed_created expired s p r token stamp written e = cc
  redeemed_created wrong_code s p r token stamp written e = cc
  redeemed_created too_many_attempts s p r token stamp written e = cc

  pair-some :
      (s : PairingServerState) (r : PairRequest) (now : ℕ) (token stamp : Text) (written : Bool)
      → let (s', response) = pair sha256_hex s (some r) now token stamp written in
        is_created response ≡ 1
        → (s'.tokens ≡ (bind sha256_hex s.tokens token r.device_id default_user stamp written).0)
          × (s'.pairing.pending ≡ none)
  unfolding pair
  pair-some s r now token stamp written = elim (Bool-cases (valid_device_id r.device_id)) [
    | inl valid ↦ rw valid (
        redeemed_created (redeem sha256_hex s.pairing r.code now).1 s
          (redeem sha256_hex s.pairing r.code now).0 r token stamp written)
    | inr invalid ↦ rw invalid (λ e. cc)
  ]

  -- In a store with one entry to a hash and one to a device, a request that is answered with a
  -- token binds that token to the device it named, and takes the code with it: the next request,
  -- whatever code it presents, is answered with no token, changes no token and finds no code.
  pub pair_once :
      (s : PairingServerState) (r : PairRequest) (now : ℕ) (token stamp : Text) (written : Bool)
      (q : Option PairRequest) (later : ℕ) (token' stamp' : Text) (written' : Bool)
      → IsUnique s.tokens.by_hash
      → is_created (pair sha256_hex s (some r) now token stamp written).1 ≡ 1
      → let s1 = (pair sha256_hex s (some r) now token stamp written).0 in
        let (s2, response) = pair sha256_hex s1 q later token' stamp' written' in
        (verify sha256_hex s1.tokens token
          ≡ some
              (record { device_id = r.device_id; user_id = default_user; issued_at = some stamp }))
        × (is_created response ≡ 0)
        × (s2.tokens ≡ s1.tokens)
        × (s2.pairing.pending ≡ none)
  pair_once s r now token stamp written q later token' stamp' written' u e =
      let done = pair-some s r now token stamp written e in
      let s1 = (pair sha256_hex s (some r) now token stamp written).0 in
      let rest = pair-none s1 q later token' stamp' written' done.1 in
      (
        rw
            (
              done.0,
              verify-bind sha256_hex s.tokens token token r.device_id default_user stamp written u,
              text_eq_refl (sha256_hex token),
            )
            refl,
        rest.0,
        rest.1,
        rest.2,
      )

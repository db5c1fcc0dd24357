-- ===== src/Sync/Pairing/Codes.antt =====
-- The codes of pairing.rs: how they are drawn, shown and typed, and what redeems.
use native.Mathlib.Nat.{mod-lt}
use idiolect.Common.{
  ℕ, zero, suc, ◌+◌, ◌-◌, ◌%◌, ◌^◌, ◌<◌, ◌≤◌, ◌≡◌, refl, ap, Bool, true, false, ◌&&◌, ◌||◌, List,
  [], ◌∷◌, ◌++◌, arith, ltb, leb, ◌==◌, length, take, drop, if◌then◌else◌, inl, inr, Bool-cases,
  All, take-append-drop, length-take,
}
use idiolect.Text.{Text, is_whitespace, text_eq_refl}
use idiolect.Sync.Pairing.{
  PairingState, issued, symbol_at, pairing_alphabet, fold_bytes, random_code, to_ascii_uppercase,
  strip_separators, normalise_code, is_ascii, group, generate, redeem,
}

-- How a code may be typed instead of in capitals.
abbrev pub to_ascii_lowercase : Text → Text
to_ascii_lowercase [] = []
to_ascii_lowercase (c ∷ s) = (if leb b'A' c && leb c b'Z' then c + 32 else c) ∷ to_ascii_lowercase s

-- A digit or a capital.
abbrev pub IsSymbol : ℕ → Type 0
IsSymbol c = ((leb b'0' c && leb c b'9') || (leb b'A' c && leb c b'Z')) ≡ true

is_symbol : ℕ → Bool
is_symbol c = (leb b'0' c && leb c b'9') || (leb b'A' c && leb c b'Z')

all_symbols : Text → Bool
all_symbols [] = true
all_symbols (c ∷ s) = let rest = all_symbols s in if is_symbol c then rest else false

alphabet_symbols : all_symbols pairing_alphabet ≡ true
unfolding all_symbols is_symbol
alphabet_symbols = refl

symbol_at-IsSymbol :
    (s : Text) (i : ℕ) → all_symbols s ≡ true → i < length s → IsSymbol (symbol_at s i)
unfolding all_symbols is_symbol symbol_at
symbol_at-IsSymbol [] i h lt = absurd (omega arith)
symbol_at-IsSymbol (c ∷ s) zero h lt = ground arith
symbol_at-IsSymbol (c ∷ s) (suc i) h lt = symbol_at-IsSymbol s i (ground arith) (omega arith)

fold_bytes-IsSymbol : (bytes : List ℕ) → All IsSymbol (fold_bytes bytes)
unfolding fold_bytes
fold_bytes-IsSymbol [] = tt
fold_bytes-IsSymbol (b ∷ bytes) = (
  symbol_at-IsSymbol pairing_alphabet (b % 32) alphabet_symbols (mod-lt b (omega arith)),
  fold_bytes-IsSymbol bytes,
)

length-fold_bytes : (bytes : List ℕ) → length (fold_bytes bytes) ≡ length bytes
unfolding fold_bytes
length-fold_bytes [] = refl
length-fold_bytes (b ∷ bytes) = ap suc (length-fold_bytes bytes)

-- What a symbol is not.
symbol_plain :
    (c : ℕ)
    → IsSymbol c
    → ((is_whitespace c || c == b'-') ≡ false)
      × ((if leb b'a' c && leb c b'z' then c - 32 else c) ≡ c)
      × (ltb c 128 ≡ true)
unfolding is_whitespace
symbol_plain c h = (ground arith, ground arith, ground arith)

-- A symbol in small letters is still no separator, and its capital is the symbol.
small_plain :
    (c : ℕ)
    → IsSymbol c
    → let d = if leb b'A' c && leb c b'Z' then c + 32 else c in
      ((is_whitespace d || d == b'-') ≡ false)
      × ((if leb b'a' d && leb d b'z' then d - 32 else d) ≡ c)
unfolding is_whitespace
small_plain c h = elim (Bool-cases (leb b'A' c && leb c b'Z')) [
  | inl capital ↦ rw capital (ground arith, ground arith)
  | inr digit ↦ rw digit (ground arith, ground arith)
]

normalise-append : (s t : Text) → normalise_code (s ++ t) ≡ normalise_code s ++ normalise_code t
unfolding normalise_code strip_separators to_ascii_uppercase
normalise-append [] t = refl
normalise-append (c ∷ s) t = elim (Bool-cases (is_whitespace c || c == b'-')) [
  | inl gone ↦ rw (gone, strip_separators) (normalise-append s t)
  | inr kept ↦
      rw (kept, strip_separators)
        (ap (◌∷◌ (if leb b'a' c && leb c b'z' then c - 32 else c)) (normalise-append s t))
]

normalise-symbols : (s : Text) → All IsSymbol s → normalise_code s ≡ s
unfolding normalise_code strip_separators to_ascii_uppercase
normalise-symbols [] h = refl
normalise-symbols (c ∷ s) h =
    let (a, b, d) = symbol_plain c h.0 in rw (a, strip_separators) (cc (b, normalise-symbols s h.1))

normalise-small : (s : Text) → All IsSymbol s → normalise_code (to_ascii_lowercase s) ≡ s
unfolding normalise_code strip_separators to_ascii_uppercase
normalise-small [] h = refl
normalise-small (c ∷ s) h =
    let (a, b) = small_plain c h.0 in rw (a, strip_separators) (cc (b, normalise-small s h.1))

lowercase-append :
    (s t : Text) → to_ascii_lowercase (s ++ t) ≡ to_ascii_lowercase s ++ to_ascii_lowercase t
lowercase-append [] t = refl
lowercase-append (c ∷ s) t =
    ap (◌∷◌ (if leb b'A' c && leb c b'Z' then c + 32 else c)) (lowercase-append s t)

All-take : (n : ℕ) (s : Text) → All IsSymbol s → All IsSymbol (take n s)
All-take zero s h = tt
All-take (suc n) [] h = tt
All-take (suc n) (c ∷ s) h = (h.0, All-take n s h.1)

All-drop : (n : ℕ) (s : Text) → All IsSymbol s → All IsSymbol (drop n s)
All-drop zero s h = h
All-drop (suc n) [] h = tt
All-drop (suc n) (c ∷ s) h = All-drop n s h.1

symbols-is_ascii : (s : Text) → All IsSymbol s → is_ascii s ≡ true
unfolding is_ascii
symbols-is_ascii [] h = refl
symbols-is_ascii (c ∷ s) h = rw (symbol_plain c h.0).2 (symbols-is_ascii s h.1)

group-symbols :
    (code : Text)
    → All IsSymbol code
    → length code ≡ 8
    → group code ≡ take 4 code ++ b'-' ∷ drop 4 code
unfolding group
group-symbols code h n = rw (n, symbols-is_ascii code h) refl

normalise-dash : (s : Text) → normalise_code (b'-' ∷ s) ≡ normalise_code s
unfolding normalise_code strip_separators is_whitespace
normalise-dash s = refl

-- A code drawn from a digest of 8 bytes or more is its own normal form, and typing it as
-- displayed, with the dash, or in small letters, or both, normalises to it.
pub normalise-group :
    (digest : List ℕ)
    → 8 ≤ length digest
    → let code = random_code digest in
      (normalise_code code ≡ code)
      × (normalise_code (group code) ≡ code)
      × (normalise_code (to_ascii_lowercase code) ≡ code)
      × (normalise_code (to_ascii_lowercase (group code)) ≡ code)
unfolding random_code
normalise-group digest n =
    let code = fold_bytes (take 8 digest) in
    let h = fold_bytes-IsSymbol (take 8 digest) in
    let m : length code ≡ 8 =
      omega (arith, length-fold_bytes (take 8 digest), length-take 8 digest) in
    let a = All-take 4 code h in
    let b = All-drop 4 code h in
    let whole = take-append-drop 4 code in
    (
      normalise-symbols code h,
      rw
          (
            group-symbols code h m,
            normalise-append (take 4 code) (b'-' ∷ drop 4 code),
            normalise-dash (drop 4 code),
            normalise-symbols (take 4 code) a,
            normalise-symbols (drop 4 code) b,
          )
          whole,
      normalise-small code h,
      rw
          (
            group-symbols code h m,
            lowercase-append (take 4 code) (b'-' ∷ drop 4 code),
            normalise-append (to_ascii_lowercase (take 4 code))
                (b'-' ∷ to_ascii_lowercase (drop 4 code)),
            normalise-dash (to_ascii_lowercase (drop 4 code)),
            normalise-small (take 4 code) a,
            normalise-small (drop 4 code) b,
          )
          whole,
    )

module _ (sha256_hex : Text → Text) where
  -- A fresh code redeems, as often as it is presented, in any spelling that normalises to it,
  -- before its 600 seconds are over, and is not consumed by that, where the end of those seconds
  -- is below 2^64.
  pub redeem-generate :
      (p : PairingState) (code presented : Text) (now later : ℕ)
      → normalise_code presented ≡ code
      → later < now + 600
      → now + 600 < 2 ^ 64
      → redeem sha256_hex (generate sha256_hex p code now) presented later
        ≡ (generate sha256_hex p code now, issued)
  unfolding redeem generate
  redeem-generate p code presented now later e before fits =
      rw e (ground (arith, text_eq_refl (sha256_hex code)))

-- ===== src/Ime/Review.antt =====
-- The correction window of session.rs: a shadow copy of the dictated line with a cursor.
use idiolect.Common.{ℕ, suc, Bool, false, List, ◌∷◌, ◌++◌, length, take, drop}
use idiolect.Text.{Text}

pub data Key : Type 0 where
  trigger cancel backspace delete left right home end : Key
  char : ℕ → Key
  passthrough : Key

pub record Review : Type 0 where
  pub committed : Text
  pub chars : List ℕ
  pub cursor : ℕ
  pub corrected : Bool

unfoldable pub new : Text → Review
new text = record { committed = text; chars = text; cursor = length text; corrected = false }

unfoldable pub text : Review → Text
text r = r.chars

-- `Vec::remove` and `Vec::insert` at an index in range.
unfoldable pub remove : List ℕ → ℕ → List ℕ
remove xs i = take i xs ++ drop (suc i) xs

unfoldable pub insert : List ℕ → ℕ → ℕ → List ℕ
insert xs i c = take i xs ++ c ∷ drop i xs

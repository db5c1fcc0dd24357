-- ===== src/Streaming/Take/Closing.antt =====
-- finalize and finalize_phrase of streaming.rs: what a take is closed with.
use idiolect.Common.{ℕ, ◌≡◌, Bool, true, false, List, ◌⊎◌, All}
use idiolect.Text.{Text, is_whitespace}
use idiolect.Streaming.Decisions.{trim, is_noise_transcript}
use idiolect.Streaming.Take.{Decode, decoded}

abbrev IsBlank : Text → Type 0
IsBlank = All (λ c. is_whitespace c ≡ true)

module _ {ℓ κ} {A : Type ℓ} {T : Type κ} (is_alphanumeric : ℕ → Bool)
    (transcribe : T → List A → T × Decode) where
  -- A usable decode, or else the preview.
  abbrev FinalText : Decode → Text → Text → Type 0
  FinalText d previewed final =
      ((text : Text) × (d ≡ decoded text)
        × (final ≡ trim text)
        × (is_noise_transcript is_alphanumeric final ≡ false))
      ⊎ (final ≡ previewed)

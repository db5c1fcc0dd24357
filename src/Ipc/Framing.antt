-- ===== src/Ipc/Framing.antt =====
-- The framing of crates/idiolect-ipc/src/framing.rs.
use idiolect.Common.{◌≡◌, refl, inl, ℕ, Option, none, some, [], ◌∷◌, ◌++◌, ==_iff, arith}
use mathlib.Core.List.{append_assoc}
use idiolect.Text.{Text}
use idiolect.Ipc.{
  IpcMessage, strip_last, encode_json_line, parse, decode_stripped, decode_json_line,
}

strip_last-append : (c : ℕ) (line : Text) → strip_last c (line ++ c ∷ []) ≡ some line
unfolding strip_last
strip_last-append c [] = rw ((==_iff c c).1 refl) refl
strip_last-append c (d ∷ []) = ground (arith, strip_last-append c [])
strip_last-append c (d ∷ e ∷ line) = ground (arith, strip_last-append c (e ∷ line))

module _ (to_json : IpcMessage → Option Text) (from_json : Text → Option IpcMessage) where
  plain :
      (line : Text) (m : IpcMessage)
      → strip_last 13 line ≡ none
      → from_json line ≡ some m
      → decode_stripped to_json from_json (some line) ≡ inl m
  unfolding decode_stripped parse
  plain line m e p = ground arith

  returned :
      (line json : Text) (m : IpcMessage)
      → strip_last 13 line ≡ some json
      → from_json json ≡ some m
      → decode_stripped to_json from_json (some line) ≡ inl m
  unfolding decode_stripped parse
  returned line json m e p = ground arith

-- If a message has a JSON text that parses back to it and does not end in a carriage return, then its
-- encoding is that text with a newline behind it, and this line decodes to the message, also where
-- the newline has become a carriage return and a newline on the way.
pub decode-encode :
    (to_json : IpcMessage → Option Text) (from_json : Text → Option IpcMessage) (m : IpcMessage)
    (json : Text)
    → to_json m ≡ some json
    → from_json json ≡ some m
    → strip_last 13 json ≡ none
    → (encode_json_line to_json from_json m ≡ inl (json ++ 10 ∷ []))
      × (decode_json_line to_json from_json (json ++ 10 ∷ []) ≡ inl m)
      × (decode_json_line to_json from_json (json ++ 13 ∷ 10 ∷ []) ≡ inl m)
unfolding decode_json_line encode_json_line
decode-encode to_json from_json m json j p e = (
  rw (encode_json_line, j) refl,
  rw (strip_last-append 10 json) (plain to_json from_json json m e p),
  rw (← append_assoc json (13 ∷ []) (10 ∷ [])) (
      rw (strip_last-append 10 (json ++ 13 ∷ []))
        (returned to_json from_json (json ++ 13 ∷ []) json m (strip_last-append 13 json) p)),
)

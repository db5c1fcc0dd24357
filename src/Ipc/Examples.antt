-- ===== src/Ipc/Examples.antt =====
-- The theorems on the framing and the handshake at concrete inputs.
use idiolect.Common.{◌≡◌, refl, inl, Option, none, some, [], ◌∷◌, ◌++◌, if◌then◌else◌}
use idiolect.Text.{Text, text_eq}
use idiolect.Ipc.{
  IpcMessage, start_recording, ClientHello, ServerHello, feature_reconcile, contains, accepted,
  negotiate_protocol, strip_last, encode_json_line, decode_json_line,
}
use idiolect.Ipc.Framing.{decode-encode}

abbrev json : Text
json = b'{' ∷ b'}' ∷ []

abbrev to_json : IpcMessage → Option Text
to_json m = some json

abbrev from_json : Text → Option IpcMessage
from_json t = if text_eq t json then some start_recording else none

parses : from_json json ≡ some start_recording
unfolding text_eq
parses = refl

no_return : strip_last 13 json ≡ none
unfolding strip_last
no_return = refl

decode-encode_example :
    (encode_json_line to_json from_json start_recording ≡ inl (json ++ 10 ∷ []))
    × (decode_json_line to_json from_json (json ++ 10 ∷ []) ≡ inl start_recording)
    × (decode_json_line to_json from_json (json ++ 13 ∷ 10 ∷ []) ≡ inl start_recording)
decode-encode_example = decode-encode to_json from_json start_recording json refl parses no_return

abbrev client : ClientHello
client = record {
  client_name = json;
  protocol_version = 1;
  features = json ∷ feature_reconcile ∷ [];
}

abbrev answer : ServerHello
answer = record { protocol_version = 1; accepted_features = feature_reconcile ∷ [] }

answered : negotiate_protocol client ≡ inl answer
unfolding negotiate_protocol accepted contains text_eq
answered = refl

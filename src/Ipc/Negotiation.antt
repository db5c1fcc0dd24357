-- ===== src/Ipc/Negotiation.antt =====
-- The negotiation of crates/idiolect-ipc/src/handshake.rs.
use idiolect.Common.{==_iff, ◌≡◌, refl, inl, true, ◌&&◌, List, [], ◌∷◌, arith}
use idiolect.Text.{Text, text_eq, text_eq→eq}
use idiolect.Ipc.{
  ClientHello, ServerHello, protocol_version, supported_features, contains, accepted,
  negotiate_protocol,
}

text_eq-left : (s t f : Text) → text_eq s t ≡ true → text_eq s f ≡ text_eq t f
text_eq-left s t f e = rw (text_eq→eq s t e) refl

contains_eq :
    (features : List Text) (g f : Text)
    → text_eq g f ≡ true
    → contains features g ≡ contains features f
contains_eq features g f e = rw (text_eq→eq g f e) refl

contains-accepted :
    (supported requested : List Text) (f : Text)
    → contains (accepted supported requested) f ≡ contains supported f && contains requested f
unfolding contains accepted
contains-accepted [] requested f = refl
contains-accepted (g ∷ supported) requested f =
    ground (arith, contains-accepted supported requested f, contains_eq requested g f)

-- A client is answered with exactly the features that it asked for and the daemon supports, and with
-- the protocol's version, which is also the only one that is accepted.
pub negotiate_protocol_lem :
    (hello : ClientHello) (response : ServerHello) (f : Text)
    → negotiate_protocol hello ≡ inl response
    → (contains response.accepted_features f
        ≡ contains supported_features f && contains hello.features f)
      × (response.protocol_version ≡ protocol_version)
      × (hello.protocol_version ≡ protocol_version)
unfolding negotiate_protocol
negotiate_protocol_lem hello response f h = ground (
  arith,
  contains-accepted supported_features hello.features f,
  ==_iff hello.protocol_version protocol_version,
)

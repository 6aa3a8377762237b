-- ===== src/Access/RequestId.antt =====
-- internal/middleware/requestid.go: the id of a request. What 16 bytes read from the source of
-- entropy are, or that the read failed, is an argument, and so is the next handler. The copy of the
-- id in the logging metadata is left out.
pub mod Passed
use alpha_proxy.Access.Handler.{Response, http_error}
use alpha_proxy.Prelude.{
  ℕ, ◌+◌, ◌-◌, Bytes, codes, List, [], ◌∷◌, Bool, true, false, not, ◌&&◌, ◌||◌, Option, none, some,
  ◌==◌, ltb, leb, length, if◌then◌else◌,
}
use alpha_proxy.Prelude.{◌/◌, ◌%◌}

unfoldable pub is_id_byte : ℕ → Bool
is_id_byte c =
    (leb b'a' c && leb c b'z')
    || (leb b'A' c && leb c b'Z')
    || (leb b'0' c && leb c b'9')
    || c == b'.'
    || c == b'_'
    || c == b'-'

-- The loop of `validRequestID`.
unfoldable pub all_id_bytes : Bytes → Bool
unfolding is_id_byte
all_id_bytes [] = true
all_id_bytes (c ∷ s) = is_id_byte c && all_id_bytes s

unfoldable pub valid_request_id : Bytes → Bool
unfolding all_id_bytes
valid_request_id id = if length id == 0 || not (leb (length id) 64) then false else all_id_bytes id

unfoldable pub hex_digit : ℕ → ℕ
hex_digit n = if ltb n 10 then b'0' + n else b'a' + (n - 10)

-- `hex.EncodeToString`.
unfoldable pub encode_hex : Bytes → Bytes
unfolding hex_digit
encode_hex [] = []
encode_hex (b ∷ bs) = hex_digit (b / 16) ∷ hex_digit (b % 16) ∷ encode_hex bs

unfoldable pub new_request_id : Option Bytes → Option Bytes
unfolding encode_hex
new_request_id none = none
new_request_id (some bytes) = some (encode_hex bytes)

-- The response, and the id in its header.
unfoldable pub request_id_middleware :
    Option Bytes → (Bytes → Response) → Bytes → Option Bytes × Response
request_id_middleware random next id =
    elim (if valid_request_id id then some id else new_request_id random) [
      | none ↦ (none, http_error 500 (codes "internal error"))
      | some id' ↦ (some id', next id')
    ]

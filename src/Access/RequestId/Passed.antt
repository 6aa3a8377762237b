-- ===== src/Access/RequestId/Passed.antt =====
-- The ids that the middleware passes on.

use alpha_proxy.Access.Handler.{Response, http_error}
use alpha_proxy.Access.RequestId.{
  is_id_byte, all_id_bytes, valid_request_id, hex_digit, encode_hex, new_request_id,
  request_id_middleware,
}
use alpha_proxy.Prelude.{
  ℕ, ◌*◌, ◌/◌, ◌%◌, ◌<◌, Bytes, codes, [], ◌∷◌, All, true, false, Option, none, some, ◌≡◌, refl,
  arith, ◌⊎◌, inl, inr, length, Bool-cases, Option-cases,
}

hex_digit-is_id : (n : ℕ) → n < 16 → is_id_byte (hex_digit n) ≡ true
unfolding is_id_byte hex_digit
hex_digit-is_id n h = ground arith

length-encode_hex : (s : Bytes) → length (encode_hex s) ≡ 2 * length s
unfolding encode_hex
length-encode_hex [] = refl
length-encode_hex (b ∷ s) = omega (arith, length-encode_hex s)

encode_hex-all_id : (s : Bytes) → All (λ b. b < 256) s → all_id_bytes (encode_hex s) ≡ true
unfolding encode_hex all_id_bytes
encode_hex-all_id [] a = refl
encode_hex-all_id (b ∷ s) (h, a) =
    rw (hex_digit-is_id (b / 16) (omega arith))
      (rw (hex_digit-is_id (b % 16) (omega arith)) (encode_hex-all_id s a))

encode_hex-valid :
    (s : Bytes) → length s ≡ 16 → All (λ b. b < 256) s → valid_request_id (encode_hex s) ≡ true
unfolding valid_request_id
encode_hex-valid s n a =
    let long : length (encode_hex s) ≡ 32 = omega (arith, length-encode_hex s, n) in
    rw long (encode_hex-all_id s a)

-- The next handler is called with a valid id, or there are no random bytes and no valid id.
unfoldable pub Passed : Option Bytes → (Bytes → Response) → Bytes → Type 0
Passed random next id =
    ((id' : Bytes) × (request_id_middleware random next id ≡ (some id', next id'))
      × (valid_request_id id' ≡ true)
      × ((id' ≡ id) ⊎ (valid_request_id id ≡ false)))
    ⊎ ((request_id_middleware random next id ≡ (none, http_error 500 (codes "internal error")))
        × (random ≡ none)
        × (valid_request_id id ≡ false))

-- The next handler is called with a valid id, which is the request's own if that is valid, and the
-- response carries it; only where the request's id is not valid and no random bytes could be read,
-- the answer is the status 500 instead. What is read, if anything, is 16 bytes.
pub request_id_middleware-Passed :
    (random : Option Bytes) (next : Bytes → Response) (id : Bytes)
    → ((bytes : Bytes) → random ≡ some bytes → (length bytes ≡ 16) × All (λ b. b < 256) bytes)
    → Passed random next id
unfolding Passed request_id_middleware new_request_id
request_id_middleware-Passed random next id read = elim (Bool-cases (valid_request_id id)) [
  | inl y ↦ inl (id, rw (request_id_middleware, y) refl, y, inl refl)
  | inr f ↦ elim (Option-cases random) [
    | inl e ↦ inr (rw (request_id_middleware, f) (rw e refl), e, f)
    | inr (bytes, e) ↦
        let (n, a) = read bytes e in
        inl (
          encode_hex bytes,
          rw (request_id_middleware, f) (rw e refl),
          encode_hex-valid bytes n a,
          inr f,
        )
  ]
]

-- ===== src/Access/Handler/Answers.antt =====
-- What a response of the handler says about the processor.
use alpha_proxy.Access.Handler.{
  RequestDto, Decoded, decoded, too_large, bad_json, Tail, at_end, tail_too_large, tail_other,
  Response, check_fields, decode_request, error_response, handle, http_error, mask_kinds_value,
  is_set,
}
use alpha_proxy.Pii.{
  Error, Result, ok, session_not_found, processing_in_progress, detector_unavailable, invalid_span,
  invalid_ml_response, policy_rejected, payload_id_conflict, store_unavailable, demasking_disabled,
  unknown_token, payload_too_large, invalid_mask_kind, context_done, other, unavailable,
  deadline_exceeded, panicked, Result-cases,
}
use alpha_proxy.Prelude.{
  Bytes, codes, List, [], ◌∷◌, Bool, true, false, some, ◌≡◌, ◌≢◌, refl, arith, ◌⊎◌, inl, inr,
  bytes_eq, Bool-cases, Option-cases,
}
use alpha_proxy.Processor.Request.{ProcessRequest}

not_200 : (timed_out : Bool) (e : Error) → (error_response timed_out e).status ≢ 200
unfolding error_response
not_200 timed_out unavailable h = omega (arith, h)
not_200 timed_out detector_unavailable h = omega (arith, h)
not_200 timed_out store_unavailable h = omega (arith, h)
not_200 timed_out deadline_exceeded h = omega (arith, h)
not_200 true context_done h = omega (arith, h)
not_200 false context_done h = omega (arith, h)
not_200 timed_out invalid_mask_kind h = omega (arith, h)
not_200 timed_out policy_rejected h = omega (arith, h)
not_200 timed_out demasking_disabled h = omega (arith, h)
not_200 timed_out session_not_found h = omega (arith, h)
not_200 timed_out processing_in_progress h = omega (arith, h)
not_200 timed_out invalid_span h = omega (arith, h)
not_200 timed_out invalid_ml_response h = omega (arith, h)
not_200 timed_out payload_id_conflict h = omega (arith, h)
not_200 timed_out unknown_token h = omega (arith, h)
not_200 timed_out payload_too_large h = omega (arith, h)
not_200 timed_out other h = omega (arith, h)
not_200 timed_out panicked h = omega (arith, h)

record Fields (req : RequestDto) (payload id : Bytes) : Type 0 where
  payload_there : req.payload ≡ some payload
  id_there : req.payload_id ≡ some id
  some_id : bytes_eq id [] ≡ false

check_fields-cases :
    (req : RequestDto)
    → ((payload : Bytes) × (id : Bytes) × (check_fields req ≡ inr (payload, id))
        × Fields req payload id)
      ⊎ ((r : Response) × (check_fields req ≡ inl r) × (r.status ≢ 200))
unfolding check_fields http_error
check_fields-cases req = elim (Option-cases req.payload) [
  | inl e ↦
      inr (
        http_error 400 (codes "missing payload"),
        rw (check_fields, e) refl,
        (λ h. omega (arith, h)),
      )
  | inr (payload, e) ↦ elim (Option-cases req.payload_id) [
    | inl f ↦ inr (
      http_error 400 (codes "missing payload_id"),
      rw (check_fields, e, f) refl,
      (λ h. omega (arith, h)),
    )
    | inr (id, f) ↦ elim (Bool-cases (bytes_eq id [])) [
      | inl y ↦ inr (
        http_error 400 (codes "empty payload_id"),
        rw (check_fields, e, f, y) refl,
        (λ h. omega (arith, h)),
      )
      | inr n ↦ inl (
        payload,
        id,
        rw (check_fields, e, f, n) refl,
        record { payload_there = e; id_there = f; some_id = n },
      )
    ]
  ]
]

module _ (processor : ProcessRequest → Result Bytes) (encode : Bytes → Bytes)
    (timed_out : Bool) where
  -- A request that the processor got and answered.
  pub record Answered (is_json : Bool) (body : Decoded) (tail : Tail) (consumer : Bytes)
      (out : List ProcessRequest × Response) : Type 0 where
    pub json : is_json ≡ true
    pub whole : tail ≡ at_end
    pub req : RequestDto
    pub read : body ≡ decoded req
    pub sent : ProcessRequest
    pub once : out.0 ≡ sent ∷ []
    pub payload : req.payload ≡ some sent.payload
    pub payload_id : req.payload_id ≡ some sent.payload_id
    pub some_id : bytes_eq sent.payload_id [] ≡ false
    pub own : sent.consumer_id ≡ consumer
    pub result : Bytes
    pub processed : processor sent ≡ ok result
    pub answer : out.1.body ≡ encode result

  -- The handler answers with the status 200 only if the body was one JSON value with a payload and a
  -- payload id that is not empty, and the processor, which was called once, with these and with the
  -- authenticated consumer, returned the result that stands in the response.
  pub handle-Answered :
      (is_json : Bool) (body : Decoded) (tail : Tail) (consumer : Bytes)
      → (handle processor encode timed_out is_json body tail consumer).1.status ≡ 200
      → Answered is_json body tail consumer
          (handle processor encode timed_out is_json body tail consumer)
  unfolding handle decode_request http_error
  handle-Answered false body tail consumer h = absurd (omega (arith, h))
  handle-Answered true too_large tail consumer h = absurd (omega (arith, h))
  handle-Answered true bad_json tail consumer h = absurd (omega (arith, h))
  handle-Answered true (decoded req) tail_too_large consumer h = absurd (omega (arith, h))
  handle-Answered true (decoded req) tail_other consumer h = absurd (omega (arith, h))
  handle-Answered true (decoded req) at_end consumer h = elim (check_fields-cases req) [
    | inr (r, e, n) ↦ let run = rw (handle, decode_request, e) at h in absurd (n run)
    | inl (payload, id, e, f) ↦
        let sent : ProcessRequest = record {
          payload = payload;
          payload_id = id;
          consumer_id = consumer;
          mask_kinds = mask_kinds_value req.mask_kinds;
          mask_kinds_set = is_set req.mask_kinds;
        } in
        let run = rw (handle, decode_request, e) at h in
        elim (Result-cases (processor sent)) [
          | inr (reason, p) ↦ let failed = rw p at run in absurd (not_200 timed_out reason failed)
          | inl (result, p) ↦
              rw (handle, decode_request, e, p)
                (record {
                  json = refl;
                  whole = refl;
                  req = req;
                  read = refl;
                  sent = sent;
                  once = refl;
                  payload = f.payload_there;
                  payload_id = f.id_there;
                  some_id = f.some_id;
                  own = refl;
                  result = result;
                  processed = p;
                  answer = refl;
                })
        ]
  ]

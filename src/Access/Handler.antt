-- ===== src/Access/Handler.antt =====
-- internal/api/handler.go: `Process`. What the JSON decoder makes of the body and of what stands
-- behind the first value is an argument, and so are the consumer, the processor, the encoder of the
-- response and whether the request's context ended by its deadline.
pub mod Answers
use alpha_proxy.Pii.{
  Error, Result, ok, err, session_not_found, processing_in_progress, detector_unavailable,
  invalid_span, invalid_ml_response, policy_rejected, payload_id_conflict, store_unavailable,
  demasking_disabled, unknown_token, payload_too_large, invalid_mask_kind, context_done, other,
  unavailable, deadline_exceeded, panicked,
}
use alpha_proxy.Prelude.{
  ℕ, Bytes, codes, List, [], ◌∷◌, Bool, true, false, not, Option, none, some, ◌⊎◌, inl, inr,
  bytes_eq, if◌then◌else◌,
}
use alpha_proxy.Processor.Request.{ProcessRequest}

-- `processRequest`: a field that is absent is `none`.
pub record RequestDto : Type 0 where
  pub payload : Option Bytes
  pub payload_id : Option Bytes
  pub mask_kinds : Option (List Bytes)

-- What the first `Decode` returns.
pub data Decoded : Type 0 where
  decoded : RequestDto → Decoded
  too_large bad_json : Decoded

-- What the second `Decode` finds.
pub data Tail : Type 0 where
  at_end tail_too_large tail_other : Tail

-- A status, a body and the error class that is logged.
pub record Response : Type 0 where
  pub status : ℕ
  pub body : Bytes
  pub error_class : Bytes

unfoldable pub http_error : ℕ → Bytes → Response
http_error status body = record { status = status; body = body; error_class = [] }

-- The tests of the fields.
unfoldable pub check_fields : RequestDto → Response ⊎ (Bytes × Bytes)
unfolding http_error
check_fields req = elim req.payload [
  | none ↦ inl (http_error 400 (codes "missing payload"))
  | some payload ↦ elim req.payload_id [
    | none ↦ inl (http_error 400 (codes "missing payload_id"))
    | some id ↦
        if bytes_eq id []
        then inl (http_error 400 (codes "empty payload_id"))
        else inr (payload, id)
  ]
]

-- The error response, or the request with its payload and payload id.
unfoldable pub decode_request : Decoded → Tail → Response ⊎ (RequestDto × Bytes × Bytes)
unfolding check_fields http_error
decode_request too_large tail = inl (http_error 413 (codes "request too large"))
decode_request bad_json tail = inl (http_error 400 (codes "invalid json"))
decode_request (decoded req) tail_too_large = inl (http_error 413 (codes "request too large"))
decode_request (decoded req) tail_other = inl (http_error 400 (codes "invalid json"))
decode_request (decoded req) at_end = elim (check_fields req) [
  | inl response ↦ inl response
  | inr fields ↦ inr (req, fields.0, fields.1)
]

unfoldable pub mask_kinds_value : Option (List Bytes) → List Bytes
mask_kinds_value none = []
mask_kinds_value (some kinds) = kinds

unfoldable pub is_set : Option (List Bytes) → Bool
is_set none = false
is_set (some kinds) = true

abbrev pub timeout_response : Response
timeout_response = record {
  status = 503;
  body = codes "request timed out";
  error_class = codes "timeout";
}

abbrev pub internal_response : Response
internal_response = record { status = 500; body = codes "internal error"; error_class = [] }

abbrev pub unavailable_response : Response
unavailable_response = record {
  status = 503;
  body = codes "processor unavailable";
  error_class = codes "processor_unavailable";
}

-- What `Recover` of internal/middleware answers where the handler panicked.
abbrev pub panic_response : Response
panic_response = record { status = 500; body = codes "internal error"; error_class = codes "panic" }

-- The response to an error of the processor: the `switch`.
unfoldable pub error_response : Bool → Error → Response
error_response timed_out unavailable = unavailable_response
error_response timed_out detector_unavailable = unavailable_response
error_response timed_out store_unavailable = unavailable_response
error_response timed_out deadline_exceeded = timeout_response
error_response true context_done = timeout_response
error_response false context_done = internal_response
error_response timed_out invalid_mask_kind = record {
  status = 400;
  body = codes "invalid mask kind";
  error_class = codes "invalid_mask_kind";
}
error_response timed_out policy_rejected = record {
  status = 403;
  body = codes "policy rejected";
  error_class = codes "policy_rejected";
}
error_response timed_out demasking_disabled = record {
  status = 403;
  body = codes "detokenization disabled";
  error_class = codes "demasking_disabled";
}
error_response timed_out session_not_found = internal_response
error_response timed_out processing_in_progress = internal_response
error_response timed_out invalid_span = internal_response
error_response timed_out invalid_ml_response = internal_response
error_response timed_out payload_id_conflict = internal_response
error_response timed_out unknown_token = internal_response
error_response timed_out payload_too_large = internal_response
error_response timed_out other = internal_response
error_response timed_out panicked = panic_response

module _ (processor : ProcessRequest → Result Bytes) (encode : Bytes → Bytes)
    (timed_out : Bool) where
  unfoldable pub respond : Result Bytes → Response
  unfolding error_response
  respond (err e) = error_response timed_out e
  respond (ok result) = record { status = 200; body = encode result; error_class = [] }

  -- `Process`: the requests that the processor gets, in their order, and the response.
  unfoldable pub handle : Bool → Decoded → Tail → Bytes → List ProcessRequest × Response
  unfolding decode_request mask_kinds_value is_set respond http_error
  handle false body tail consumer = ([], http_error 400 (codes "unsupported media type"))
  handle true body tail consumer = elim (decode_request body tail) [
    | inl response ↦ ([], response)
    | inr (req, payload, id) ↦
        let sent : ProcessRequest = record {
          payload = payload;
          payload_id = id;
          consumer_id = consumer;
          mask_kinds = mask_kinds_value req.mask_kinds;
          mask_kinds_set = is_set req.mask_kinds;
        } in
        (sent ∷ [], respond (processor sent))
  ]

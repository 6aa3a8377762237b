-- ===== src/Tests/Admission.antt =====
-- The access rules at concrete inputs.
use alpha_proxy.Access.Auth.{authenticate, new_authenticator}
use alpha_proxy.Access.Auth.Known.{authenticate-verdict, NoCollision}
use alpha_proxy.Access.Config.{
  System, Config, validate_systems, run_mode_final, auth_mode_api_key, processor_real,
}
use alpha_proxy.Access.Handler.{RequestDto, Response, decoded, at_end, handle}
use alpha_proxy.Access.Handler.Answers.{Answered, handle-Answered}
use alpha_proxy.Access.Policies.{build_policies, base_policy, new_static_provider}
use alpha_proxy.Access.Policies.Own.{HasOwn, build_policies-HasOwn}
use alpha_proxy.Access.RateLimit.{FloatOps, ConsumerLimiter, new_consumer_limiter}
use alpha_proxy.Access.RateLimit.Alone.{
  answers, bucket_answers, own_times, answers-eq-bucket_answers,
}
use alpha_proxy.Prelude.Dict.{lookup}
use alpha_proxy.Pii.{Result, ok, err, Policy, detector_unavailable}
use alpha_proxy.Prelude.{
  ℕ, ◌+◌, ◌-◌, ◌/◌, leb, ◌*◌, ◌≤◌, ◌<◌, Bytes, codes, List, [], ◌∷◌, map, Bool, true, false, Option,
  none, some, All, ◌≡◌, refl, subst, arith, length, bytes_eq, if◌then◌else◌,
}
use alpha_proxy.Prelude.Int.{pos, pos_part}
use alpha_proxy.Processor.Request.{ProcessRequest}
use alpha_proxy.Access.RequestId.Passed.{Passed, request_id_middleware-Passed}

abbrev shop : System
shop = record {
  id = codes "shop";
  enabled = true;
  api_key = codes "s3cret";
  mask_kinds = some (codes "email" ∷ []);
  detokenization_allowed = some false;
}

abbrev old_shop : System
old_shop = record {
  id = codes "old";
  enabled = false;
  api_key = codes "0ld";
  mask_kinds = none;
  detokenization_allowed = none;
}

abbrev config : Config
config = record {
  addr = codes ":8080";
  read_timeout = pos 1;
  read_header_timeout = pos 1;
  write_timeout = pos 1;
  idle_timeout = pos 1;
  body_limit = pos 1;
  processing_timeout = pos 1;
  parallel_limit = pos 1;
  run_mode = run_mode_final;
  auth_mode = auth_mode_api_key;
  processor_mode = processor_real;
  systems = shop ∷ old_shop ∷ [];
  ml_address = codes "ml";
  global_rate_limit_rps = some (pos 0);
  global_rate_limit_burst = pos 0;
  consumer_rate_limit_rps = some (pos 0);
  consumer_rate_limit_burst = pos 0;
  overload_retry_after = pos 1;
  metrics_enabled = false;
  shutdown_timeout = pos 1;
}

systems_pass : validate_systems config.systems ≡ ok tt
unfolding validate_systems bytes_eq alpha_proxy.Tokenizer.Priority.one_of
systems_pass = refl

-- Every key is its own fingerprint.
authenticate-verdict_example :
    authenticate (λ key. key) (new_authenticator (λ key. key) config) (codes "0ld") ≡ ([], 403)
unfolding bytes_eq alpha_proxy.Access.Auth.Known.verdict alpha_proxy.Access.Auth.Known.system_of
authenticate-verdict_example =
    authenticate-verdict (λ key. key) config (codes "0ld") refl systems_pass (refl, (refl, tt))

abbrev shop_policy : Policy
shop_policy = base_policy (pos 5) (λ j. if bytes_eq (codes "email") j then true else false) false

abbrev policies : List (Bytes × Policy)
policies = elim (build_policies (pos 5) config) [ err e ↦ [] | ok m ↦ m ]

builds : build_policies (pos 5) config ≡ ok policies
unfolding build_policies bytes_eq
builds = refl

build_policies-HasOwn_example :
    All (HasOwn (pos 5) (new_static_provider policies)) (shop ∷ old_shop ∷ [])
build_policies-HasOwn_example = build_policies-HasOwn (pos 5) config policies systems_pass builds

abbrev processor : ProcessRequest → Result Bytes
processor req =
    if bytes_eq req.consumer_id (codes "shop")
    then ok (codes "masked")
    else err detector_unavailable

abbrev body : RequestDto
body = record { payload = some (codes "text"); payload_id = some (codes "p1"); mask_kinds = none }

handle-Answered_example :
    Answered processor
      (λ s. s)
      false
      true
      (decoded body)
      at_end
      (codes "shop")
      (handle processor (λ s. s) false true (decoded body) at_end (codes "shop"))
unfolding handle bytes_eq
handle-Answered_example =
    handle-Answered processor (λ s. s) false true (decoded body) at_end (codes "shop") refl

-- Whole numbers in place of float64, and two tokens for each consumer.
abbrev whole_ops : FloatOps ℕ
whole_ops = record {
  one = 1;
  one_second = 1000000000;
  of_int = pos_part;
  seconds = λ d. pos_part d / 1000000000;
  add = λ a b. a + b;
  sub = λ a b. a - b;
  mul = λ a b. a * b;
  div = λ a b. a / b;
  minimum = λ a b. if leb a b then a else b;
  at_least = λ a b. leb b a;
  to_duration = pos;
}

abbrev limiter : ConsumerLimiter ℕ
limiter = new_consumer_limiter whole_ops 1 (pos 2) ((codes "shop", 0) ∷ (codes "old", 0) ∷ [])

abbrev requests : List (Bytes × ℕ)
requests =
    (codes "shop", 0)
    ∷ (codes "old", 5)
    ∷ (codes "shop", 7)
    ∷ (codes "who", 8)
    ∷ (codes "shop", 9)
    ∷ []

answers-eq-bucket_answers_example :
    answers whole_ops (codes "shop") limiter requests
    ≡ bucket_answers whole_ops (lookup (codes "shop") limiter) (own_times (codes "shop") requests)
answers-eq-bucket_answers_example =
    answers-eq-bucket_answers whole_ops (codes "shop") limiter requests

limits :
    answers whole_ops (codes "shop") limiter requests
    ≡ (true, pos 0) ∷ (true, pos 0) ∷ (false, pos 1000000000) ∷ []
unfolding answers bytes_eq alpha_proxy.Access.RateLimit.allow_consumer lookup new_consumer_limiter
    alpha_proxy.Prelude.Dict.insert
limits = refl

abbrev random_bytes : Bytes
random_bytes = codes "0123456789abcdef"

abbrev no_body : Bytes → Response
no_body id = record { status = 200; body = []; error_class = [] }

sixteen : (length random_bytes ≡ 16) × All (λ b. b < 256) random_bytes
sixteen = (
  refl,
  (
    omega arith,
    (
      omega arith,
      (
        omega arith,
        (
          omega arith,
          (
            omega arith,
            (
              omega arith,
              (
                omega arith,
                (
                  omega arith,
                  (
                    omega arith,
                    (
                      omega arith,
                      (
                        omega arith,
                        (
                          omega arith,
                          (omega arith, (omega arith, (omega arith, (omega arith, tt)))),
                        ),
                      ),
                    ),
                  ),
                ),
              ),
            ),
          ),
        ),
      ),
    ),
  ),
)

request_id_middleware-Passed_example : Passed (some random_bytes) no_body (codes "a b")
request_id_middleware-Passed_example =
    request_id_middleware-Passed (some random_bytes) no_body (codes "a b") (λ bytes e.
      let same : random_bytes ≡ bytes = cc in
      subst (λ s. (length s ≡ 16) × All (λ b. b < 256) s) same sixteen)

-- ===== src/Tests/OneSession.antt =====
-- A session from its first request to its demasking.
use alpha_proxy.Tests.Pipeline.{
  text, engine, model, found_address, found, cfg, policy, chunks, schedule, permutes, valid, splits,
  rules_find, chunk_jobs-Finds,
}
use alpha_proxy.Masking.Cascade.{mask}
use alpha_proxy.Ml.Chunker.{split_text}
use alpha_proxy.Pii.{Ctx, background, ok, Policy, Result, TokenMapping}
use alpha_proxy.Prelude.{
  ℕ, Bytes, codes, List, [], ◌∷◌, Bool, true, false, All, ◌≡◌, refl, sym, ap, bytes_eq, none, subst,
  if◌then◌else◌, ◌==◌, length, arith, inl, inr,
}
use alpha_proxy.Prelude.Int.{pos}
use alpha_proxy.Processor.{Times, process, request_policy}
use alpha_proxy.Processor.Sessions.{ready_session}
use alpha_proxy.Store.View.{view}
use alpha_proxy.Processor.Request.{ProcessRequest}
use alpha_proxy.Processor.RoundTrip.{cascade_masker, process-round_trip}
use alpha_proxy.Store.{MemoryStore, new_memory_store, is_expired}
use alpha_proxy.Tokenizer.Detokenizer.{detokenize}
use alpha_proxy.Tokenizer.Detokenizer.Tokens.{NoToken}
use alpha_proxy.Tokenizer.Merge.{combine_plans}
use alpha_proxy.Utf8.{valid_string}

abbrev masked_text : Bytes
masked_text = codes "<EMAIL_1> <FULL_NAME_1>"

abbrev masking_request : ProcessRequest
masking_request = record {
  payload = text;
  payload_id = codes "id";
  consumer_id = codes "crm";
  mask_kinds = [];
  mask_kinds_set = false;
}

abbrev demasking_request : ProcessRequest
demasking_request = record masking_request { payload = masked_text }

abbrev first_times : Times
first_times = record { at_get = 10; at_start = 11; at_put = 12; at_update = 13 }

abbrev later_times : Times
later_times = record { at_get = 20; at_start = 21; at_put = 22; at_update = 23 }

abbrev one_policy : Ctx → Bytes → Result (Ctx × Policy)
one_policy ctx id = ok (ctx, policy)

abbrev empty_store : MemoryStore
empty_store = new_memory_store (pos 2)

abbrev first_answer : MemoryStore × Result Bytes
first_answer =
    process (λ t. t) one_policy
      (cascade_masker (λ t. t) one_policy 100 engine model cfg schedule permutes) 100 background
      first_times masking_request empty_store

answered : first_answer.1 ≡ ok masked_text
unfolding process alpha_proxy.Store.get alpha_proxy.Prelude.Dict.lookup new_memory_store
    alpha_proxy.Store.put_if_absent alpha_proxy.Processor.RoundTrip.as_masker mask bytes_eq
    valid_string alpha_proxy.Utf8.following split_text
    alpha_proxy.Tokenizer.Plan.build_replacement_plan alpha_proxy.Prelude.Sort.sort
    alpha_proxy.Tokenizer.Span.validate_span combine_plans alpha_proxy.Prelude.Dict.insert
    alpha_proxy.Tokenizer.Allocator.format_decimal alpha_proxy.Tokenizer.Apply.apply_replacements
    alpha_proxy.Tokenizer.Apply.validate_replacements alpha_proxy.Tokenizer.Apply.validate_one
    alpha_proxy.Tokenizer.Allocator.allocate alpha_proxy.Tokenizer.Allocator.find_token
    alpha_proxy.Tokenizer.Allocator.new_allocator alpha_proxy.Tokenizer.Allocator.format_token
    alpha_proxy.Tokenizer.Apply.build_mappings alpha_proxy.Tokenizer.Apply.note_token
    alpha_proxy.Tokenizer.Allocator.to_upper alpha_proxy.Tokenizer.Apply.build_masked_text
    alpha_proxy.Store.update is_expired alpha_proxy.Tokenizer.Allocator.next_number
    alpha_proxy.Prelude.contains alpha_proxy.Tokenizer.Allocator.counter
    alpha_proxy.Tokenizer.Allocator.set_counter
answered = refl

no_token : NoToken text
unfolding alpha_proxy.Tokenizer.Detokenizer.token_at
no_token = (refl, (refl, (refl, (refl, (refl, (refl, tt))))))

first_policy :
    request_policy
      (λ t. t)
      one_policy
      (cascade_masker (λ t. t) one_policy 100 engine model cfg schedule permutes)
      100
      background
      masking_request
    ≡ ok (background, policy)
unfolding request_policy
first_policy = refl

later_policy :
    request_policy
      (λ t. t)
      one_policy
      (cascade_masker (λ t. t) one_policy 100 engine model cfg schedule permutes)
      100
      background
      demasking_request
    ≡ ok (background, policy)
unfolding request_policy
later_policy = refl

no_session : view 10 empty_store (codes "id") ≡ none
unfolding view alpha_proxy.Prelude.Dict.lookup new_memory_store
no_session = refl

lives :
    (mappings : List TokenMapping)
    → is_expired
        (ready_session
          (λ t. t)
          one_policy
          (cascade_masker (λ t. t) one_policy 100 engine model cfg schedule permutes)
          100
          first_times
          masking_request
          mappings)
        20
      ≡ false
unfolding is_expired alpha_proxy.Processor.new_session
lives mappings = refl

hashes_differ : bytes_eq masked_text text ≡ false
unfolding bytes_eq
hashes_differ = refl

texts_differ : bytes_eq text masked_text ≡ false
unfolding bytes_eq
texts_differ = refl

process-round_trip_example :
    (process
      (λ t. t)
      one_policy
      (cascade_masker (λ t. t) one_policy 100 engine model cfg schedule permutes)
      100
      background
      later_times
      demasking_request
      first_answer.0).1
    ≡ ok text
process-round_trip_example =
    process-round_trip (λ t. t) one_policy 100 engine model cfg schedule permutes first_times
      later_times masking_request demasking_request policy policy empty_store first_answer.0 found
      chunks (found_address ∷ []) masked_text valid no_token rules_find splits chunk_jobs-Finds
      first_policy no_session (ap (λ r. (first_answer.0, r)) answered) refl refl (omega arith) lives
      later_policy refl hashes_differ texts_differ

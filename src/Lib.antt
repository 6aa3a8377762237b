-- ===== src/Lib.antt =====
-- alpha_proxy masks personal data in the texts that pass through it. A first request with a payload
-- id gets its text masked: the detected spans that the policy permits are replaced by tokens such as
-- `<EMAIL_1>`, and the session of that id remembers which token stands for what. A later request with the same id is
-- either a retry, which gets the same masked text, or brings the masked text back and gets the
-- original. The handler of a request asks the authentication for its consumer and calls the processor;
-- the processor asks the provider for the consumer's policy and the masker for the masked text. The
-- masker runs the rules on the whole text and the model on its chunks, through the extractor, the
-- batcher's queue and the gRPC client, and combines both into one plan of replacements.
--
-- The parts and their files, beside the code in internal/ (and cmd/server):
--   Pii/Types, Pii/Errors       pii/types.go, detector.go, policy.go, errors.go: the shared data
--   Tokenizer/Allocator         tokenizer/allocator.go: `NewAllocator`, `Allocate`
--   Tokenizer/Span, Plan        tokenizer/plan.go: `validateSpan`, `BuildReplacementPlan`
--   Tokenizer/Apply             tokenizer/apply.go: `ApplyReplacements` and its three stages
--   Tokenizer/Priority, Merge   tokenizer/merge.go: `CombinePlans`, duplicates, overlaps, tokens
--   Tokenizer/Detokenizer       tokenizer/detokenizer.go: `Detokenize`, `isToken`
--   Tokenizer/RoundTrip         what masking and detokenizing do together
--   Store                       store/memory.go: `Get`, `PutIfAbsent`, `Update`, `Delete`
--   Processor                   processor/processor.go: `Process`, `handleExisting`
--   Processor/Request           contract/contract.go and the mask kinds of a request
--   Ml/Chunker                  ml/chunker.go: `SplitText`, `findChunkEnd`
--   Ml/Types, Ml/Batch          ml/types.go and ml/batch.go: `TakeBatch`
--   Ml/Queue, Ml/Collector      ml/queue.go and ml/collector.go: `nextBatch`
--   Ml/Batcher                  ml/batcher.go: `Process` up to the queue, `processBatch`
--   Ml/Client                   ml/grpc_client.go: `ProcessBatchV2`, `fromGRPCResponse`
--   Ml/Extractor                ml/extractor.go: `Detect`
--   Masking/Cascade, Kinds      masking/cascade.go and cascade/cascade.go: `Mask`, `processChunk`
--   Masking/Rule                masking/rule.go: `Mask` of the rules alone
--   Rules/Types, Rules/Spans    entity/entity.go: the types, `CandidateSpan`, `EvidenceStrength`
--   Rules/Resolver              resolver/resolver.go: `Resolve`
--   Rules/Checksum              recognizer/validator.go: `Inn10`, `Inn12`, `Luhn`
--   Rules/Residual              residual/residual.go: `Build`
--   Rules/Engine                engine/detector.go and engine.go: `Detect`, `Analyze`
--   Rules/Normalize             normalize/normalize.go: `New`, `MapSpan`, the binary searches
--   Access/Config               config/config.go: `Validate` and what it calls
--   Access/Auth                 auth/auth.go: `New`, `authenticate`
--   Access/RateLimit            ratelimit/ratelimit.go: `Allow` of a bucket and of the consumers
--   Access/RequestId            middleware/requestid.go: the id that a request is handled with
--   Access/Policies             policy/provider.go, cmd/server/main.go: `buildPolicies`
--   Access/Handler              api/handler.go: `Process`, `decodeRequest`
--   Prelude, Utf8               lists, integers, byte strings, maps, sorting, `utf8.ValidString`
-- A file's children prove what it does: Apply/Layout and Apply/Render say which replacements are
-- accepted and what the masked text is, Merge/Coverage which offsets a plan covers, Merge/Total when a
-- plan can be applied, Store/View and Store/Capacity what the store promises, Processor/Phases what a
-- session that is ready answers, Masking/Whole what the masker does from the rules to the mappings,
-- and Processor/RoundTrip what a client sees of a session from its first request to its demasking.
--
-- How the code is modelled:
--   - A Go string is its list of bytes, so an offset is a byte offset as in the code. The sums
--     of `findChunkEnd` with the configuration's numbers wrap around at 64 bits, and an index out of
--     range is the error `panicked`. Elsewhere `int` is an integer without wrap-around: what is added
--     are counts and offsets within texts. Times have no bound either.
--   - Names follow the code in antt's spelling: `ApplyReplacements` is `apply_replacements`.
--   - An error is the sentinel that `errors.Is` finds; the texts around it are left out.
--   - A context is cancelled after a number of calls of `ctx.Err()`, or never. The count goes through
--     the calls of the store, the tokenizer, `SplitText` and the processor; a failed `Mask` only says
--     whether the context was done, and the workers of `Mask` share in no count: their errors are
--     those that the model returns.
--   - A confidence is a rank: the code only compares confidences with each other.
--   - A time is a count of nanoseconds with 0 for the zero time, and a call of the store is given
--     the time at which it reads the clock. A call holds the mutex throughout and is one step.
--   - A map is an association list. `sort.Slice` is an insertion sort; where the code's order leaves
--     ties, it is one of the orders that `sort.Slice` may choose.
--   - The loop of `Allocate` is recursion that stops after as many tokens as the text has bytes;
--     it has found a token by then, since tokens that occur in a text are as many different suffixes.
--   - The normalized view is that of a valid text; an invalid byte is counted as one there, where the
--     code counts three.
--   - The loop of `SplitText` has as much fuel as the text has code points; each chunk begins behind
--     the one before it, so that is enough. A rune is the list of its bytes.
--   - `utf8.RuneCountInString` is a parameter of what counts code points without splitting a text.
--   - The binary searches have as much fuel as there are offsets; each round halves what is left.
--   - The workers of `Mask` are the order in which they end their jobs: `schedule` may be any order,
--     and what the model returns may depend on the chunk's index.
--   - What `nextBatch` waits for is a list of events: a job, the timer, the end of the context.
--   - The engine adds to scores, so they are hundredths there; the sums of float64 values are not
--     rounded.
--   - The operations of float64 on a bucket's tokens are a parameter, so no rounding is assumed.
--   - `errors.Is` on the end of a context tells a deadline from a cancellation by an argument.
--   - `strings.ToUpper` is the one for ASCII, which all the kinds are.
--   - `Process` takes the policy provider, the masker, SHA-256 and the times as parameters.
--
-- Not modelled: the recognizers but for their checksums (regular expressions of a library), the
-- scoring of contexts and the gate (floating point), the goroutines of the batcher, the reading of the
-- environment, the other HTTP middleware, metrics, the commands but for the policies, and the Python
-- server.
pub mod Prelude
pub mod Pii
pub mod Utf8
pub mod Tokenizer
pub mod Store
pub mod Processor
pub mod Tests
pub mod Ml
pub mod Rules
pub mod Masking
pub mod Access

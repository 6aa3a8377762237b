-- ===== src/Pii/Errors.antt =====
-- internal/pii/errors.go: the sentinel errors, as the class that `errors.Is` finds behind the
-- wrapping; a result with an error; `context.Context` as far as the code reads it, by `ctx.Err()`.
use alpha_proxy.Prelude.{ℕ, zero, suc, ◌≡◌, ◌⊎◌, inl, inr, refl, Bool, true, false}

-- `context_done` is what `ctx.Err()` returns; `other` is an error made on the spot. `unavailable` is
-- `contract.ErrUnavailable`, and `deadline_exceeded` is `context.DeadlineExceeded` where the code
-- names it. `panicked` is no error of the code: the call panics, at an index out of range.
pub data Error : Type 0 where
  session_not_found processing_in_progress detector_unavailable invalid_span : Error
  invalid_ml_response policy_rejected payload_id_conflict store_unavailable : Error
  demasking_disabled unknown_token payload_too_large invalid_mask_kind : Error
  context_done other : Error
  unavailable deadline_exceeded : Error
  panicked : Error

-- A context is never cancelled, or is cancelled after it was asked that many times.
pub data Ctx : Type 0 where
  background : Ctx
  done_after : ℕ → Ctx

-- What a function with a last result `error` returns.
pub data Result {ℓ} (A : Type ℓ) : Type ℓ where
  ok : A → Result A
  err : Error → Result A

-- `if err := ctx.Err(); err != nil { return err }`, with the context as the next call finds it.
abbrev pub ctx_err : Ctx → Result Ctx
ctx_err background = ok background
ctx_err (done_after zero) = err context_done
ctx_err (done_after (suc n)) = ok (done_after n)

-- `if !test { return err }`.
abbrev pub guard : Bool → Error → Result (Unit {0})
guard false reason = err reason
guard true reason = ok tt

-- `if err != nil { return err }` behind a call, and the code behind it.
infixl 5 ◌>>=◌
abbrev pub ◌>>=◌ {ℓ κ} : {A : Type ℓ} {B : Type κ} → Result A → (A → Result B) → Result B
err reason >>= next = err reason
ok value >>= next = next value

infixl 5 ◌>>◌
abbrev pub ◌>>◌ {ℓ} : {B : Type ℓ} → Result (Unit {0}) → Result B → Result B
first >> next = first >>= λ _. next

pub >>=-eq-ok {ℓ κ} :
    {A : Type ℓ} {B : Type κ} (call : Result A) (next : A → Result B) {result : B}
    → (call >>= next) ≡ ok result
    → (value : A) × (call ≡ ok value) × (next value ≡ ok result)
>>=-eq-ok (err reason) next h = cc
>>=-eq-ok (ok value) next h = (value, refl, h)

pub Result-cases {ℓ} :
    {A : Type ℓ} (r : Result A) → ((a : A) × (r ≡ ok a)) ⊎ ((e : Error) × (r ≡ err e))
Result-cases (ok a) = inl (a, refl)
Result-cases (err e) = inr (e, refl)

-- Either a step of the context goes on, or it reports that the context is done.
pub ctx_err-cases :
    (ctx : Ctx) → ((c : Ctx) × (ctx_err ctx ≡ ok c)) ⊎ (ctx_err ctx ≡ err context_done)
ctx_err-cases background = inl (background, refl)
ctx_err-cases (done_after zero) = inr refl
ctx_err-cases (done_after (suc n)) = inl (done_after n, refl)

-- ===== src/Tests/Plans.antt =====
-- The entities that the rules and the model find in a text, and their plans.
use alpha_proxy.Tests.Pipeline.{text, address, name, found_name, policy, second_chunk, valid}
use alpha_proxy.Masking.Cascade.{chunk_entities}
use alpha_proxy.Masking.Cascade.Checks.{IsFound, chunk_entities-IsFound}
use alpha_proxy.Pii.{background, ok, Replacement, kind_email, source_ml, source_reg}
use alpha_proxy.Prelude.{
  ℕ, Bytes, codes, List, [], ◌∷◌, Bool, true, false, All, ◌≡◌, refl, sym, ap, bytes_eq, none, subst,
  if◌then◌else◌, ◌==◌, length, arith, inl,
}
use alpha_proxy.Prelude.Int.{pos}
use alpha_proxy.Rules.Residual.{build}
use alpha_proxy.Rules.Residual.Blanks.{build-byte, byte, held}
use alpha_proxy.Tokenizer.Allocator.Format.{IsKindText}
use alpha_proxy.Tokenizer.Merge.{combine_plans}
use alpha_proxy.Tokenizer.Merge.Cuts.{IsGood}
use alpha_proxy.Tokenizer.Merge.Total.{IsReady, combine_plans-IsReady}
use alpha_proxy.Utf8.{valid_string}

email_text : IsKindText kind_email
email_text = (
  (λ e. cc),
  (
    inl (omega arith, omega arith),
    (
      inl (omega arith, omega arith),
      (
        inl (omega arith, omega arith),
        (inl (omega arith, omega arith), (inl (omega arith, omega arith), tt)),
      ),
    ),
  ),
)

name_passes :
    chunk_entities
      (record { index = 1; chunk = second_chunk; original = codes " Al"; gate = codes " Al" })
      (name ∷ [])
    ≡ ok (found_name ∷ [])
unfolding chunk_entities alpha_proxy.Prelude.bytes_eq valid_string alpha_proxy.Utf8.following
name_passes = refl

chunk_entities-IsFound_example : All (IsFound text) (found_name ∷ [])
chunk_entities-IsFound_example =
    chunk_entities-IsFound text
      (record { index = 1; chunk = second_chunk; original = codes " Al"; gate = codes " Al" })
      (name ∷ []) refl (omega arith) name_passes

abbrev planned_address : Replacement
planned_address = record {
  start = pos 0;
  end = pos 3;
  token = codes "<EMAIL_1>";
  original = codes "a@b";
  kind = kind_email;
  source = source_reg;
  confidence = pos 9;
}

-- The model holds the address for one character longer.
abbrev planned_longer : Replacement
planned_longer = record {
  start = pos 0;
  end = pos 4;
  token = codes "<EMAIL_1>";
  original = codes "a@b ";
  kind = kind_email;
  source = source_ml;
  confidence = pos 8;
}

planned_address-IsGood : IsGood text planned_address
unfolding valid_string alpha_proxy.Utf8.following
planned_address-IsGood = record {
  span = record { nonneg = refl; nonempty = omega arith; within = omega arith; valid = refl };
  original = refl;
  kind = email_text;
}

planned_longer-IsGood : IsGood text planned_longer
unfolding valid_string alpha_proxy.Utf8.following
planned_longer-IsGood = record {
  span = record { nonneg = refl; nonempty = omega arith; within = omega arith; valid = refl };
  original = refl;
  kind = email_text;
}

combine_plans-IsReady_example :
    (plan : List Replacement) × (combine_plans background text
        (planned_longer ∷ [])
        (planned_address ∷ [])
        policy
      ≡ ok (background, plan))
    × IsReady text plan
combine_plans-IsReady_example =
    combine_plans-IsReady text (planned_longer ∷ []) (planned_address ∷ []) policy valid
      (planned_longer-IsGood, tt) (planned_address-IsGood, tt)

build-byte_example :
    (length (build text (address ∷ [])) ≡ length text)
    × (byte (build text (address ∷ [])) 1 ≡ (if held (address ∷ []) 1 then b' ' else byte text 1))
build-byte_example = build-byte text (address ∷ []) 1

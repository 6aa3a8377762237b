-- ===== src/Utf8/Cuts.antt =====
-- The offsets of a valid text that lie between characters, and the slices between them.
use alpha_proxy.Prelude.{
  ℕ, ◌≤◌, Bytes, [], ◌∷◌, ◌++◌, append-nil, true, ◌≡◌, sym, ap, ◌∙◌, length, drop,
}
use alpha_proxy.Utf8.{valid_string}
use alpha_proxy.Utf8.Boundaries.{valid_string-append, valid_string-front}

-- The text behind the offset is valid.
pub record IsCut (text : Bytes) (x : ℕ) : Type 0 where
  pub within : x ≤ length text
  pub rest : valid_string (drop x text) ≡ true

-- The front of valid text is valid where the rest is.
pub valid_string-prefix :
    (s t : Bytes) → valid_string (s ++ t) ≡ true → valid_string t ≡ true → valid_string s ≡ true
valid_string-prefix s [] h k = ap valid_string (sym (append-nil s)) ∙ h
valid_string-prefix s (c ∷ t) h k =
    valid_string-front s (c ∷ t) [] (ap (λ r. valid_string (s ++ r)) (append-nil (c ∷ t)) ∙ h) k
      (λ e. cc)

-- A text in three parts, the first and the whole valid: so is the rest behind the first.
pub valid_string-rest :
    (s t : Bytes) → valid_string (s ++ t) ≡ true → valid_string s ≡ true → valid_string t ≡ true
valid_string-rest s t h k = sym (valid_string-append s t k) ∙ h

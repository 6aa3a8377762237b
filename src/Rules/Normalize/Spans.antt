-- ===== src/Rules/Normalize/Spans.antt =====
-- Spans of the normalized view of a valid text, and the spans of the text that they lead to.
use alpha_proxy.Ml.Chunker.{to_runes, offset}
use alpha_proxy.Ml.Chunker.Starts.{total, total-to_runes, to_runes-All}
use alpha_proxy.Prelude.{
  ℕ, zero, suc, ◌+◌, ◌-◌, ◌≤◌, ◌<◌, Bytes, List, [], ◌∷◌, map, Bool, true, false, not, ◌&&◌, ◌≡◌,
  refl, ap, arith, All, subst, length, leb, ltb, ◌==◌, Bool-cases, inl, inr,
}
use alpha_proxy.Prelude.Int.{pos, ltb_ℤ, leb_ℤ}
use alpha_proxy.Rules.Normalize.{
  Entry, is_dash, written_rune, entries_from, new_text, map_span, text_len, original_to_norm,
}
use alpha_proxy.Rules.Normalize.Search.{Rising, IsFirst, search_offset-IsFirst, offset-rises}
use alpha_proxy.Utf8.{valid_string}

-- Entries that begin behind one another and end before `limit`.
Laid : ℕ → ℕ → List Entry → Type 0
Laid at limit [] = at ≤ limit
Laid at limit (e ∷ es) =
    (at ≤ e.orig_offset) × (e.orig_offset < e.orig_end) × Laid e.orig_end limit es

Laid-before : (at at' limit : ℕ) (es : List Entry) → at ≤ at' → Laid at' limit es → Laid at limit es
unfolding Laid
Laid-before at at' limit [] h l = omega (arith, h, l)
Laid-before at at' limit (e ∷ es) h (l, m, ls) = (omega (arith, h, l), m, ls)

module _ (is_space : Bytes → Bool) (rune_lower : Bytes → Bytes) where
  entries_from-Laid :
      (at norm : ℕ) (prev_space : Bool) (rs : List Bytes)
      → All (λ r. 0 < length r) rs
      → Laid at (at + total rs) (entries_from is_space rune_lower at norm prev_space rs)
  unfolding entries_from Laid
  entries_from-Laid at norm prev_space [] h = omega arith
  entries_from-Laid at norm prev_space (r ∷ rs) (h, hs) =
      let next = at + length r in
      let limit = at + (length r + total rs) in
      let same : next + total rs ≡ limit = omega arith in
      elim (Bool-cases (not (is_dash r) && is_space r && prev_space)) [
        | inl y ↦
            rw (entries_from, y)
              (Laid-before at next limit _ (omega arith) (
                subst (λ l. Laid next l (entries_from is_space rune_lower next norm prev_space rs))
                  same (entries_from-Laid next norm prev_space rs hs)))
        | inr n ↦
            rw (entries_from, n)
              (
                omega arith,
                omega (arith, h),
                subst
                    (λ l. Laid next l (
                      entries_from is_space rune_lower next
                        (norm + length (written_rune is_space rune_lower r)) (is_space r) rs))
                    same
                    (entries_from-Laid next (norm + length (written_rune is_space rune_lower r))
                      (is_space r) rs hs),
              )
      ]

abbrev starts : List Entry → List ℕ
starts es = map (λ (e : Entry). e.orig_offset) es

abbrev ends : List Entry → List ℕ
ends es = map (λ (e : Entry). e.orig_end) es

length-starts : (es : List Entry) → length (starts es) ≡ length es
length-starts [] = refl
length-starts (e ∷ es) = ap suc (length-starts es)

length-ends : (es : List Entry) → length (ends es) ≡ length es
length-ends [] = refl
length-ends (e ∷ es) = ap suc (length-ends es)

Laid-Rising : (at limit : ℕ) (es : List Entry) → Laid at limit es → Rising at (starts es)
unfolding Laid Rising
Laid-Rising at limit [] l = tt
Laid-Rising at limit (e ∷ es) (l, m, ls) = (
  l,
  Laid-Rising e.orig_offset limit es
      (Laid-before e.orig_offset e.orig_end limit es (omega (arith, m)) ls),
)

Laid-end : (at limit : ℕ) (es : List Entry) → Laid at limit es → at ≤ limit
unfolding Laid
Laid-end at limit [] l = l
Laid-end at limit (e ∷ es) (l, m, ls) =
    let rest = Laid-end e.orig_end limit es ls in omega (arith, l, m, rest)

-- Where an entry lies.
Laid-within :
    (at limit : ℕ) (es : List Entry) (i : ℕ)
    → Laid at limit es
    → i < length es
    → (at ≤ offset (starts es) i)
      × (offset (starts es) i < offset (ends es) i)
      × (offset (ends es) i ≤ limit)
unfolding Laid offset
Laid-within at limit [] i l h = absurd (omega (arith, h))
Laid-within at limit (e ∷ es) zero (l, m, ls) h = (l, m, Laid-end e.orig_end limit es ls)
Laid-within at limit (e ∷ es) (suc i) (l, m, ls) h =
    let later = Laid-within e.orig_end limit es i ls (omega (arith, h)) in
    (omega (arith, l, m, later.0), later.1, later.2)

-- Of two entries the later begins behind the earlier.
Laid-order :
    (at limit : ℕ) (es : List Entry) (i j : ℕ)
    → Laid at limit es
    → i < j
    → j < length es
    → offset (starts es) i < offset (starts es) j
unfolding Laid offset
Laid-order at limit [] i j l h h' = absurd (omega (arith, h'))
Laid-order at limit (e ∷ es) zero zero l h h' = absurd (omega (arith, h))
Laid-order at limit (e ∷ es) zero (suc j) (l, m, ls) h h' =
    let later = Laid-within e.orig_end limit es j ls (omega (arith, h')) in
    omega (arith, m, later.0)
Laid-order at limit (e ∷ es) (suc i) zero l h h' = absurd (omega (arith, h))
Laid-order at limit (e ∷ es) (suc i) (suc j) (l, m, ls) h h' =
    Laid-order e.orig_end limit es i j ls (omega (arith, h)) (omega (arith, h'))

-- The first position of a number that all earlier ones are below.
first_is :
    (xs : List ℕ) (a : ℕ) {at : ℕ}
    → IsFirst xs (pos (offset xs a)) at
    → a < length xs
    → ((i : ℕ) → i < a → offset xs i < offset xs a)
    → at ≡ a
first_is xs a {at = at} f h up = elim (Bool-cases (ltb a at)) [
  | inl y ↦ let low = f.below a (ground arith) in absurd (omega (arith, low))
  | inr n ↦ elim (Bool-cases (ltb at a)) [
    | inl y ↦
        let low = up at (ground arith) in
        let high = f.behind at (omega arith) (ground (arith, h)) in
        absurd (omega (arith, low, high))
    | inr m ↦ ground arith
  ]
]

module _ (is_space : Bytes → Bool) (rune_lower : Bytes → Bytes) where
  map_span-offsets :
      (text : Bytes) (a b : ℕ)
      → a < b
      → b ≤ text_len (new_text is_space rune_lower text)
      → map_span (new_text is_space rune_lower text) (pos a) (pos b) ≡ (
        offset (starts (entries_from is_space rune_lower 0 0 false (to_runes text))) a,
        offset (ends (entries_from is_space rune_lower 0 0 false (to_runes text))) (b - 1),
      )
  unfolding new_text text_len map_span
  map_span-offsets text a b h h' =
      let es = entries_from is_space rune_lower 0 0 false (to_runes text) in
      let n = length-starts es in
      let m = length-ends es in
      let all : ltb_ℤ (pos (length (starts es))) (pos b) ≡ false = ground (arith, h') in
      let some_entry : (length (starts es) == 0) ≡ false = ground (arith, h, h') in
      let early : leb (length (starts es)) a ≡ false = ground (arith, h, h') in
      let behind : ltb_ℤ (pos 0) (pos b) && leb_ℤ (pos b) (pos (length (ends es))) ≡ true =
        ground (arith, h, h', n, m) in
      rw (all, some_entry, early, behind) refl

  -- A span of the normalized view of a valid text that is not empty leads back to a span of the text
  -- that is not empty either, and searching for the start of that finds the start of the span again.
  pub map_span-IsSpan :
      (text : Bytes) (a b : ℕ)
      → valid_string text ≡ true
      → a < b
      → b ≤ text_len (new_text is_space rune_lower text)
      → let t = new_text is_space rune_lower text in
        let span = map_span t (pos a) (pos b) in
        (span.0 < span.1) × (span.1 ≤ length text) × (original_to_norm t (pos span.0) ≡ a)
  unfolding new_text text_len original_to_norm
  map_span-IsSpan text a b v h h' =
      let es = entries_from is_space rune_lower 0 0 false (to_runes text) in
      let n = length-starts es in
      let m = length-ends es in
      let size = total-to_runes text in
      let whole : 0 + total (to_runes text) ≡ length text = omega (arith, size) in
      let laid =
        subst (λ l. Laid 0 l es) whole
          (entries_from-Laid is_space rune_lower 0 0 false (to_runes text) (to_runes-All text)) in
      let first = Laid-within 0 (length text) es a laid (omega (arith, n, h, h')) in
      let last = Laid-within 0 (length text) es (b - 1) laid (omega (arith, n, h, h')) in
      let up =
        offset-rises 0 (starts es) a (b - 1) (Laid-Rising 0 (length text) es laid)
          (omega (arith, h)) (omega (arith, h, h')) in
      let found =
        search_offset-IsFirst (starts es) (pos (offset (starts es) a)) (length (starts es)) 0
          (length (starts es)) 0 (Laid-Rising 0 (length text) es laid) (omega arith) (omega arith)
          (omega arith) (λ i l. absurd (omega (arith, l)))
          (λ i l u. absurd (omega (arith, l, u))) in
      rw (map_span-offsets text a b h h') (
        omega (arith, up, last.1),
        last.2,
        first_is (starts es) a found (omega (arith, h, h'))
            (λ i l. Laid-order 0 (length text) es i a laid l (omega (arith, n, h, h'))),
      )

-- ===== src/Tokenizer/Merge/Dedupe.antt =====
-- `dedupe`: what the text of a key determines, and what dropping duplicates keeps.
use alpha_proxy.Pii.{Replacement}
use alpha_proxy.Prelude.{
  suc, Bytes, List, [], ◌∷◌, map, ◌≡◌, ◌≢◌, ◌⊎◌, inl, inr, refl, sym, ap, ◌∙◌, arith, All, Option,
  none, some, Bool, true, false, ◌||◌, bytes_eq, bytes_eq_iff, bytes_lt, ◌&&◌, not, Option-cases,
  Bool-cases, if◌then◌else◌,
}
use alpha_proxy.Prelude.Dict.{lookup, insert}
use alpha_proxy.Prelude.Int.{ℤ, pos, negsuc, eqb_ℤ, ltb_ℤ}
use alpha_proxy.Tokenizer.Allocator.{format_decimal}
use alpha_proxy.Tokenizer.Allocator.Decimal.{
  IsDigit-lacks, format_decimal-All, format_decimal-injective, cut_unique, IsDigit,
}
use alpha_proxy.Tokenizer.Merge.{format_int, dedupe_key, dedupe_from, dedupe}
use alpha_proxy.Tokenizer.Merge.Coverage.{covers, in_span}
use alpha_proxy.Tokenizer.Priority.{pick_winner, primary_source}

format_int-lacks : (a : ℤ) → All (λ c. c ≢ b':') (format_int a)
unfolding format_int
format_int-lacks (pos n) =
    IsDigit-lacks b':' (format_decimal n) (omega arith) (format_decimal-All n)
format_int-lacks (negsuc n) = (
  omega arith,
  IsDigit-lacks b':' (format_decimal (suc n)) (omega arith) (format_decimal-All (suc n)),
)

no_minus : (s t : Bytes) → All IsDigit s → s ≡ b'-' ∷ t → ⊥
no_minus [] t h e = cc
no_minus (c ∷ s) t (h, hs) e = let e' : c ≡ b'-' = cc in omega arith

format_int-injective : (a b : ℤ) → format_int a ≡ format_int b → a ≡ b
unfolding format_int
format_int-injective (pos m) (pos n) e = ap pos (format_decimal-injective m n e)
format_int-injective (pos m) (negsuc n) e = absurd (no_minus _ _ (format_decimal-All m) e)
format_int-injective (negsuc m) (pos n) e = absurd (no_minus _ _ (format_decimal-All n) (sym e))
format_int-injective (negsuc m) (negsuc n) e =
    let tails : format_decimal (suc m) ≡ format_decimal (suc n) = cc in
    let same = format_decimal-injective (suc m) (suc n) tails in ap negsuc (omega arith)

-- Replacements with one key have one span.
pub dedupe_key-span :
    (a b : Replacement) → dedupe_key a ≡ dedupe_key b → (a.start ≡ b.start) × (a.end ≡ b.end)
unfolding dedupe_key
dedupe_key-span a b e =
    let first = cut_unique b':' _ _ _ _ (format_int-lacks a.start) (format_int-lacks b.start) e in
    let second =
      cut_unique b':' _ _ _ _ (format_int-lacks a.end) (format_int-lacks b.end) first.1 in
    (format_int-injective a.start b.start first.0, format_int-injective a.end b.end second.0)

if-either :
    (a b x y : Replacement) (t : Bool)
    → (x ≡ a) ⊎ (x ≡ b)
    → (y ≡ a) ⊎ (y ≡ b)
    → ((if t then x else y) ≡ a) ⊎ ((if t then x else y) ≡ b)
if-either a b x y true h k = h
if-either a b x y false h k = k

-- The winner is one of the two.
pick_winner-either : (a b : Replacement) → (pick_winner a b ≡ a) ⊎ (pick_winner a b ≡ b)
unfolding pick_winner
pick_winner-either a b =
    let main_a = bytes_eq a.source (primary_source a.kind) in
    let main_b = bytes_eq b.source (primary_source b.kind) in
    let pick = λ (t : Bool). if-either a b a b t (inl refl) (inr refl) in
    if-either a b a _ (main_a && not main_b) (inl refl) (
      if-either a b b _ (main_b && not main_a) (inr refl) (
        if-either a b _ _ (not (eqb_ℤ a.confidence b.confidence))
          (pick (ltb_ℤ b.confidence a.confidence))
          (if-either a b _ _ (not (bytes_eq a.source b.source)) (pick (bytes_lt a.source b.source))
            (pick (bytes_lt a.token b.token)))))

abbrev Table : Type 0
Table = List (Bytes × Replacement)

abbrev values : Table → List Replacement
values = map (λ e. e.1)

-- Every entry stands under its own key.
abbrev Keyed : Table → Type 0
Keyed = All (λ e. e.0 ≡ dedupe_key e.1)

module _ (P : Replacement → Type 0) where
  insert-All :
      (k : Bytes) (w : Replacement) (m : Table)
      → P w
      → All P (values m)
      → All P (values (insert k w m))
  unfolding insert
  insert-All k w [] pw h = (pw, tt)
  insert-All k w ((j, r) ∷ m) pw (h, hs) = elim (Bool-cases (bytes_eq j k)) [
    | inl e ↦ rw e (pw, hs)
    | inr e ↦ rw e (h, insert-All k w m pw hs)
  ]

  lookup-All :
      (k : Bytes) (r : Replacement) (m : Table) → All P (values m) → lookup k m ≡ some r → P r
  unfolding lookup
  lookup-All k r [] h e = cc
  lookup-All k r ((j, q) ∷ m) (h, hs) e = elim (Bool-cases (bytes_eq j k)) [
    | inl y ↦ let same : q ≡ r = ground arith in rw (← same) h
    | inr n ↦ lookup-All k r m hs (ground arith)
  ]

insert-Keyed :
    (k : Bytes) (w : Replacement) (m : Table) → k ≡ dedupe_key w → Keyed m → Keyed (insert k w m)
unfolding insert
insert-Keyed k w [] e h = (e, tt)
insert-Keyed k w ((j, r) ∷ m) e (h, hs) = elim (Bool-cases (bytes_eq j k)) [
  | inl y ↦ rw y (e, hs)
  | inr n ↦ rw n (h, insert-Keyed k w m e hs)
]

lookup-Keyed :
    (k : Bytes) (r : Replacement) (m : Table) → Keyed m → lookup k m ≡ some r → k ≡ dedupe_key r
unfolding lookup
lookup-Keyed k r [] h e = cc
lookup-Keyed k r ((j, q) ∷ m) (h, hs) e = elim (Bool-cases (bytes_eq j k)) [
  | inl y ↦ ground (arith, bytes_eq_iff j k)
  | inr n ↦ lookup-Keyed k r m hs (ground arith)
]

-- A table with one more replacement under its key covers what it covered and that replacement.
insert-covers :
    (x : ℤ) (w : Replacement) (m : Table)
    → Keyed m
    → covers x (values (insert (dedupe_key w) w m))
      ≡ (covers x (values m) || in_span w.start w.end x)
unfolding insert covers
insert-covers x w [] h = ground arith
insert-covers x w ((j, r) ∷ m) (h, hs) = elim (Bool-cases (bytes_eq j (dedupe_key w))) [
  | inl y ↦
      let same = dedupe_key-span r w (sym h ∙ (bytes_eq_iff j (dedupe_key w)).0 y) in
      rw y (rw (same.0, same.1) (or_again (in_span w.start w.end x) (covers x (values m))))
  | inr n ↦ rw n (
      ap (λ b. in_span r.start r.end x || b) (insert-covers x w m hs)
      ∙ or_assoc (in_span r.start r.end x) (covers x (values m)) (in_span w.start w.end x))
]
  where
    or_again : (a b : Bool) → (a || b) ≡ ((a || b) || a)
    or_again true b = refl
    or_again false true = refl
    or_again false false = refl

    or_assoc : (a b c : Bool) → (a || (b || c)) ≡ ((a || b) || c)
    or_assoc true b c = refl
    or_assoc false b c = refl

-- What holds of the two replacements of a key holds of the one that is kept.
winner : Replacement → Option Replacement → Replacement
winner r none = r
winner r (some existing) = pick_winner existing r

module _ (r : Replacement) (m : Table) where
  winner-All :
      (P : Replacement → Type 0) → P r → All P (values m) → P (winner r (lookup (dedupe_key r) m))
  unfolding winner
  winner-All P pr h = elim (Option-cases (lookup (dedupe_key r) m)) [
    | inl e ↦ rw e pr
    | inr (q, e) ↦ rw e (elim (pick_winner-either q r) [
      | inl w ↦ rw w (lookup-All P (dedupe_key r) q m h e)
      | inr w ↦ rw w pr
    ])
  ]

  winner-key : Keyed m → dedupe_key r ≡ dedupe_key (winner r (lookup (dedupe_key r) m))
  unfolding winner
  winner-key h = elim (Option-cases (lookup (dedupe_key r) m)) [
    | inl e ↦ rw e
    | inr (q, e) ↦ rw e (elim (pick_winner-either q r) [
      | inl w ↦ rw w (lookup-Keyed (dedupe_key r) q m h e)
      | inr w ↦ rw w
    ])
  ]

  dedupe_step :
      (rs : List Replacement)
      → dedupe_from m (r ∷ rs)
        ≡ dedupe_from (insert (dedupe_key r) (winner r (lookup (dedupe_key r) m)) m) rs
  unfolding dedupe_from winner
  dedupe_step rs = elim (Option-cases (lookup (dedupe_key r) m)) [
    | inl e ↦ rw e
    | inr (q, e) ↦ rw e
  ]

-- The same, where what is put under the key only shares it.
insert-covers_alike :
    (x : ℤ) (r w : Replacement) (m : Table)
    → dedupe_key r ≡ dedupe_key w
    → Keyed m
    → covers x (values (insert (dedupe_key r) w m))
      ≡ (covers x (values m) || in_span r.start r.end x)
insert-covers_alike x r w m key h =
    let same = dedupe_key-span r w key in
    ap (λ k. covers x (values (insert k w m))) key
    ∙ insert-covers x w m h
    ∙ ap (λ a. covers x (values m) || in_span a w.end x) (sym same.0)
    ∙ ap (λ b. covers x (values m) || in_span r.start b x) (sym same.1)

dedupe_from-All :
    (P : Replacement → Type 0) (m : Table) (rs : List Replacement)
    → All P (values m)
    → All P rs
    → All P (dedupe_from m rs)
dedupe_from-All P m [] h k = unfold dedupe_from in h
dedupe_from-All P m (r ∷ rs) h (pr, k) =
    let m' = insert (dedupe_key r) (winner r (lookup (dedupe_key r) m)) m in
    rw (dedupe_step r m rs) (
      dedupe_from-All P m' rs
        (insert-All P (dedupe_key r) (winner r (lookup (dedupe_key r) m)) m (winner-All r m P pr h)
          h)
        k)

dedupe_from-covers :
    (x : ℤ) (m : Table) (rs : List Replacement)
    → Keyed m
    → covers x (dedupe_from m rs) ≡ (covers x (values m) || covers x rs)
unfolding covers
dedupe_from-covers x m [] h = unfold dedupe_from in or_false (covers x (values m))
  where
    or_false : (b : Bool) → b ≡ (b || false)
    or_false true = refl
    or_false false = refl
dedupe_from-covers x m (r ∷ rs) h =
    let w = winner r (lookup (dedupe_key r) m) in
    let key = winner-key r m h in
    let one : covers x (values (insert (dedupe_key r) w m))
        ≡ (covers x (values m) || in_span r.start r.end x) =
      insert-covers_alike x r w m key h in
    rw (dedupe_step r m rs) (
      dedupe_from-covers x (insert (dedupe_key r) w m) rs (insert-Keyed (dedupe_key r) w m key h)
      ∙ ap (λ b. b || covers x rs) one
      ∙ or_assoc (covers x (values m)) (in_span r.start r.end x) (covers x rs))
  where
    or_assoc : (a b c : Bool) → ((a || b) || c) ≡ (a || (b || c))
    or_assoc true b c = refl
    or_assoc false b c = refl

-- Dropping duplicates changes for no offset whether some span holds it.
pub dedupe-covers : (x : ℤ) (rs : List Replacement) → covers x (dedupe rs) ≡ covers x rs
unfolding dedupe covers
dedupe-covers x rs = dedupe_from-covers x [] rs tt

-- What holds of every replacement holds of every one that is left.
pub dedupe-All : (P : Replacement → Type 0) (rs : List Replacement) → All P rs → All P (dedupe rs)
unfolding dedupe
dedupe-All P rs h = dedupe_from-All P [] rs tt h

-- ===== src/Rules/Residual/Blanks.antt =====
-- What `Build` (internal/residual/residual.go) makes of each byte.
use alpha_proxy.Prelude.{
  ℕ, zero, suc, ◌+◌, ◌-◌, Bytes, List, [], ◌∷◌, Bool, true, false, ◌&&◌, ◌||◌, length, leb, ltb,
  ◌≡◌, refl, ap, ◌∙◌, arith, if◌then◌else◌, Bool-cases, inl, inr, ◌⊎◌, ◌≤◌,
}
use alpha_proxy.Prelude.Int.{ℤ, pos, pos_part, neg_part, ltb_ℤ, leb_ℤ}
use alpha_proxy.Rules.Residual.{blank, blank_span, blank_spans, build}
use alpha_proxy.Rules.Spans.{ResolvedEntity}

length-blank : (start count : ℕ) (b : Bytes) → length (blank start count b) ≡ length b
unfolding blank
length-blank start count [] = refl
length-blank zero zero (c ∷ b) = refl
length-blank zero (suc count) (c ∷ b) = ap suc (length-blank zero count b)
length-blank (suc start) count (c ∷ b) = ap suc (length-blank start count b)

length-blank_span : (s : ResolvedEntity) (b : Bytes) → length (blank_span s b) ≡ length b
unfolding blank_span
length-blank_span s b =
    let start = if ltb_ℤ s.start (pos 0) then pos 0 else s.start in
    let end = if ltb_ℤ (pos (length b)) s.end then pos (length b) else s.end in
    elim (Bool-cases (leb_ℤ end start)) [
      | inl y ↦ rw y refl
      | inr n ↦ rw n (length-blank (pos_part start) (pos_part end - pos_part start) b)
    ]

-- The byte at an index, a blank outside the text.
unfoldable pub byte : Bytes → ℕ → ℕ
byte [] i = b' '
byte (c ∷ b) zero = c
byte (c ∷ b) (suc i) = byte b i

byte-blank :
    (start count : ℕ) (b : Bytes) (i : ℕ)
    → byte (blank start count b) i
      ≡ (if leb start i && ltb i (start + count) then b' ' else byte b i)
unfolding blank byte
byte-blank start count [] i = ground arith
byte-blank zero zero (c ∷ b) i = ground arith
byte-blank zero (suc count) (c ∷ b) zero = ground arith
byte-blank zero (suc count) (c ∷ b) (suc i) = ground (arith, byte-blank zero count b i)
byte-blank (suc start) count (c ∷ b) zero = ground arith
byte-blank (suc start) count (c ∷ b) (suc i) = ground (arith, byte-blank start count b i)

-- An index that a span holds.
abbrev pub holds : ResolvedEntity → ℕ → Bool
holds s i = leb_ℤ s.start (pos i) && ltb_ℤ (pos i) s.end

byte_outside : (b : Bytes) (i : ℕ) → leb (length b) i ≡ true → byte b i ≡ b' '
unfolding byte
byte_outside [] i h = refl
byte_outside (c ∷ b) zero h = ground arith
byte_outside (c ∷ b) (suc i) h = byte_outside b i (ground arith)

-- The same with the ends that are cut to the text.
byte-blank_cut :
    (s : ResolvedEntity) (start end : ℤ) (b : Bytes) (i : ℕ)
    → pos_part start ≡ pos_part s.start
    → neg_part start ≡ 0
    → pos_part end ≤ pos_part s.end
    → (pos_part end ≡ pos_part s.end) ⊎ (pos_part end ≡ length b)
    → neg_part end ≡ neg_part s.end
    → byte
        (if leb_ℤ end start then b else blank (pos_part start) (pos_part end - pos_part start) b)
        i
      ≡ (if holds s i then b' ' else byte b i)
byte-blank_cut s start end b i e n le or ne = elim or [
  | inl same ↦ ground (arith, byte-blank (pos_part start) (pos_part end - pos_part start) b i)
  | inr cut ↦
      ground
        (arith, byte_outside b i, byte-blank (pos_part start) (pos_part end - pos_part start) b i)
]

byte-blank_span :
    (s : ResolvedEntity) (b : Bytes) (i : ℕ)
    → byte (blank_span s b) i ≡ (if holds s i then b' ' else byte b i)
unfolding blank_span
byte-blank_span s b i = elim (Bool-cases (ltb_ℤ s.start (pos 0))) [
  | inl low ↦ elim (Bool-cases (ltb_ℤ (pos (length b)) s.end)) [
    | inl high ↦
        rw (low, high)
          (byte-blank_cut s (pos 0) (pos (length b)) b i (ground arith) refl (ground arith)
            (inr refl) (ground arith))
    | inr within ↦
        rw (low, within)
          (byte-blank_cut s (pos 0) s.end b i (ground arith) refl (omega arith) (inl refl) refl)
  ]
  | inr inside ↦ elim (Bool-cases (ltb_ℤ (pos (length b)) s.end)) [
    | inl high ↦
        rw (inside, high)
          (byte-blank_cut s s.start (pos (length b)) b i refl (ground arith) (ground arith)
            (inr refl) (ground arith))
    | inr within ↦
        rw (inside, within)
          (byte-blank_cut s s.start s.end b i refl (ground arith) (omega arith) (inl refl) refl)
  ]
]

-- Some span holds the index.
unfoldable pub held : List ResolvedEntity → ℕ → Bool
held [] i = false
held (s ∷ spans) i = holds s i || held spans i

-- The residual text has the length of the original, a blank at every byte that lies in some span,
-- and the byte of the original everywhere else; spans may overlap or reach out of the text.
pub build-byte :
    (original : Bytes) (spans : List ResolvedEntity) (i : ℕ)
    → (length (build original spans) ≡ length original)
      × (byte (build original spans) i ≡ (if held spans i then b' ' else byte original i))
unfolding build blank_spans held
build-byte original [] i = (refl, refl)
build-byte original (s ∷ spans) i =
    let (same, here) = build-byte (blank_span s original) spans i in
    (same ∙ length-blank_span s original, ground (arith, here, byte-blank_span s original i))

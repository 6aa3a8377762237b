-- ===== src/Tokenizer/Apply/Render.antt =====
-- What the two loops of `buildMaskedText` write.
use mathlib.Core.List.{reverse, reverse-append, reverse-cons}
use alpha_proxy.Pii.{Ctx, background, ok, Replacement, ctx_err, >>=-eq-ok}
use alpha_proxy.Prelude.{
  ℕ, Bytes, List, [], ◌∷◌, ◌++◌, append-nil, append_assoc, ◌≡◌, refl, sym, ap, ◌∙◌, length,
}
use alpha_proxy.Prelude.Int.{ℤ, pos, pos_part}
use alpha_proxy.Tokenizer.Apply.{collect_parts, write_parts, build_masked_text}
use alpha_proxy.Tokenizer.Span.{slice, slice_ℤ}

-- The text from `from` to `to`, with the spans replaced by their tokens.
unfoldable pub render : Bytes → ℕ → List Replacement → ℕ → Bytes
render text from [] to = slice text from to
render text from (r ∷ rs) to =
    slice text from (pos_part r.start) ++ (r.token ++ render text (pos_part r.end) rs to)

concat : List Bytes → Bytes
concat [] = []
concat (p ∷ ps) = p ++ concat ps

concat-append : (ps qs : List Bytes) → concat (ps ++ qs) ≡ concat ps ++ concat qs
unfolding concat
concat-append [] qs = refl
concat-append (p ∷ ps) qs = simp (concat-append ps, append_assoc)

-- The same from right to left, as the source collects it.
render_back : Bytes → ℕ → List Replacement → ℕ → Bytes
render_back text from [] to = slice text from to
render_back text from (r ∷ rs) to =
    render_back text from rs (pos_part r.start) ++ (r.token ++ slice text (pos_part r.end) to)

render_back_last :
    (text : Bytes) (from to : ℕ) (r : Replacement) (rs : List Replacement)
    → render_back text from (rs ++ r ∷ []) to
      ≡ slice text from (pos_part r.start) ++ (r.token ++ render_back text (pos_part r.end) rs to)
unfolding render_back
render_back_last text from to r [] = refl
render_back_last text from to r (q ∷ rs) =
    simp (render_back_last text from (pos_part q.start) r rs, append_assoc)

render_back-reverse :
    (text : Bytes) (from to : ℕ) (rs : List Replacement)
    → render_back text from (reverse rs) to ≡ render text from rs to
unfolding render render_back
render_back-reverse text from to [] = refl
render_back-reverse text from to (r ∷ rs) =
    rw (reverse-cons, render_back_last, render_back-reverse text (pos_part r.end) to rs)

reverse_pair :
    (parts : List Bytes) (p q : Bytes)
    → concat (reverse (parts ++ p ∷ q ∷ [])) ≡ q ++ (p ++ concat (reverse parts))
unfolding concat
reverse_pair parts p q = rw (reverse-append parts (p ∷ q ∷ [])) refl

reverse_one :
    (parts : List Bytes) (p : Bytes)
    → concat (reverse (parts ++ p ∷ [])) ≡ p ++ concat (reverse parts)
unfolding concat
reverse_one parts p = rw (reverse-append parts (p ∷ [])) refl

collect_parts-concat :
    (text : Bytes) (ctx : Ctx) (rs : List Replacement) (parts : List Bytes) (prev : ℤ) {c : Ctx}
    {ps : List Bytes}
    → collect_parts text ctx rs parts prev ≡ ok (c, ps)
    → concat (reverse ps) ≡ render_back text 0 rs (pos_part prev) ++ concat (reverse parts)
unfolding collect_parts render_back
collect_parts-concat text ctx [] parts prev {ps = ps} h =
    let e : ps ≡ parts ++ slice_ℤ text (pos 0) prev ∷ [] = cc in
    rw e (reverse_one parts (slice_ℤ text (pos 0) prev))
collect_parts-concat text ctx (r ∷ rs) parts prev h =
    let (c, hc, h₁) = >>=-eq-ok (ctx_err ctx) _ h in
    let more =
      collect_parts-concat text c rs (parts ++ slice_ℤ text r.end prev ∷ r.token ∷ []) r.start h₁ in
    more ∙ rw (reverse_pair parts (slice_ℤ text r.end prev) r.token) (simp append_assoc)

write_parts-concat :
    (ctx : Ctx) (ps : List Bytes) (out : Bytes) {c : Ctx} {res : Bytes}
    → write_parts ctx ps out ≡ ok (c, res)
    → res ≡ out ++ concat ps
unfolding write_parts concat
write_parts-concat ctx [] out {res = res} h = let e : res ≡ out = cc in e ∙ sym (append-nil out)
write_parts-concat ctx (p ∷ ps) out h =
    let (c, hc, h₁) = >>=-eq-ok (ctx_err ctx) _ h in
    write_parts-concat c ps (out ++ p) h₁ ∙ append_assoc out p (concat ps)

-- What `buildMaskedText` returns is the text with every span replaced, whatever the spans are.
pub build_masked_text-render :
    (ctx : Ctx) (text : Bytes) (rs : List Replacement) {c : Ctx} {masked : Bytes}
    → build_masked_text ctx text rs ≡ ok (c, masked)
    → masked ≡ render text 0 rs (length text)
unfolding build_masked_text concat render_back
build_masked_text-render ctx text rs h =
    let (r, hr, h₁) = >>=-eq-ok (collect_parts text ctx (reverse rs) [] (pos (length text))) _ h in
    write_parts-concat r.0 (reverse r.1) [] h₁
    ∙ collect_parts-concat text ctx (reverse rs) [] (pos (length text)) hr
    ∙ append-nil _
    ∙ render_back-reverse text 0 (length text) rs

collect_parts-ok :
    (text : Bytes) (rs : List Replacement) (parts : List Bytes) (prev : ℤ)
    → (ps : List Bytes) × (collect_parts text background rs parts prev ≡ ok (background, ps))
unfolding collect_parts
collect_parts-ok text [] parts prev = (_, refl)
collect_parts-ok text (r ∷ rs) parts prev =
    collect_parts-ok text rs (parts ++ slice_ℤ text r.end prev ∷ r.token ∷ []) r.start

write_parts-ok :
    (ps : List Bytes) (out : Bytes)
    → (res : Bytes) × (write_parts background ps out ≡ ok (background, res))
unfolding write_parts
write_parts-ok [] out = (out, refl)
write_parts-ok (p ∷ ps) out = write_parts-ok ps (out ++ p)

-- With a context that does not end, it always returns that text.
pub build_masked_text-ok :
    (text : Bytes) (rs : List Replacement)
    → build_masked_text background text rs ≡ ok (background, render text 0 rs (length text))
build_masked_text-ok text rs =
    let (ps, hp) = collect_parts-ok text (reverse rs) [] (pos (length text)) in
    let (res, hr) = write_parts-ok (reverse ps) [] in
    let e : build_masked_text background text rs ≡ ok (background, res) =
      unfold build_masked_text in rw hp hr in
    e ∙ ap (λ m. ok (background, m)) (build_masked_text-render background text rs e)

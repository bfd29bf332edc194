-- ===== src/Prelude/Texts/Segments.antt =====
-- Names without a separator, and what `split` and `strip` do to a path that is made of them.
use Prim.Native.Nat.{ℕ}
use mathlib.Core.Path.{◌≡◌, refl, sym, ap, ◌∙◌}
use mathlib.Core.Logic.{◌≢◌, inl, inr}
use mathlib.Core.Bool.{false}
use mathlib.Core.List.{
  List, [], ◌∷◌, ◌++◌, reverse, reverse-append, reverse-cons, reverse-reverse, append_assoc,
  append-nil,
}
use native.Mathlib.Omega.{arith}
use entsoe_pipeline.Prelude.Tests.{nat_eq, Bool-cases}
use entsoe_pipeline.Prelude.Lists.{All, All-append}
use entsoe_pipeline.Prelude.Texts.{
  Text, split_first, split, join, lstrip, rstrip, strip, lower, lower_char,
}

-- The separator is not in the text.
abbrev pub Lacks : ℕ → Text → Type 0
Lacks c = All (λ d. nat_eq d c ≡ false)

-- A text that is one segment of a path, and not the empty one.
abbrev pub IsName : Text → Type 0
IsName s = (s ≢ []) × Lacks b'/' s

pub split_first-Lacks : (c : ℕ) (s : Text) → Lacks c s → split_first c s ≡ (s, [])
unfolding split_first
split_first-Lacks c [] h = refl
split_first-Lacks c (d ∷ s) h = rw (h.0, split_first-Lacks c s h.1) refl

pub split_first-append :
    (c : ℕ) (s t : Text) → Lacks c s → split_first c (s ++ (c ∷ t)) ≡ (s, split c t)
unfolding split_first split
split_first-append c [] t h = elim (Bool-cases (nat_eq c c)) [
  | inl e ↦ rw e refl
  | inr e ↦ ground (arith, e)
]
split_first-append c (d ∷ s) t h = rw (h.0, split_first-append c s t h.1, split) refl

pub split-join :
    (c : ℕ) (s : Text) (ss : List Text)
    → Lacks c s
    → All (Lacks c) ss
    → split c (join c (s ∷ ss)) ≡ s ∷ ss
unfolding split join
split-join c s [] h hs = rw (split_first-Lacks c s h) refl
split-join c s (t ∷ ts) h hs =
    rw (split_first-append c s (join c (t ∷ ts)) h)
      (ap (λ xs. s ∷ xs) (split-join c t ts hs.0 hs.1))

pub Lacks-reverse : (c : ℕ) (s : Text) → Lacks c s → Lacks c (reverse s)
Lacks-reverse c [] h = tt
Lacks-reverse c (d ∷ s) h =
    rw (reverse-cons d s) (All-append _ (reverse s) (d ∷ []) (Lacks-reverse c s h.1) (h.0, tt))

pub lstrip-name : (c : ℕ) (s t : Text) → s ≢ [] → Lacks c s → lstrip c (s ++ t) ≡ s ++ t
unfolding lstrip
lstrip-name c [] t n h = absurd (n refl)
lstrip-name c (d ∷ s) t n h = rw h.0 refl

reverse-not_nil : (s : Text) → s ≢ [] → reverse s ≢ []
reverse-not_nil s n e = n (sym (reverse-reverse s) ∙ ap reverse e)

pub rstrip-name : (c : ℕ) (s t : Text) → t ≢ [] → Lacks c t → rstrip c (s ++ t) ≡ s ++ t
unfolding rstrip
rstrip-name c s t n h =
    ap (λ x. reverse (lstrip c x)) (reverse-append s t)
    ∙ ap reverse (lstrip-name c (reverse t) (reverse s) (reverse-not_nil t n) (Lacks-reverse c t h))
    ∙ ap reverse (sym (reverse-append s t))
    ∙ reverse-reverse (s ++ t)

-- A path between two names stays as it is.
pub strip-names :
    (c : ℕ) (s t u : Text)
    → s ≢ []
    → Lacks c s
    → u ≢ []
    → Lacks c u
    → strip c (s ++ (t ++ u)) ≡ s ++ (t ++ u)
unfolding strip
strip-names c s t u ns hs nu hu =
    ap (rstrip c) (lstrip-name c s (t ++ u) ns hs)
    ∙ ap (rstrip c) (sym (append_assoc s t u))
    ∙ rstrip-name c (s ++ t) u nu hu
    ∙ append_assoc s t u

lstrip-here : (c : ℕ) (s : Text) → lstrip c (c ∷ s) ≡ lstrip c s
unfolding lstrip
lstrip-here c s = elim (Bool-cases (nat_eq c c)) [ inl e ↦ rw e refl | inr e ↦ ground (arith, e) ]

rstrip-last : (c : ℕ) (s : Text) → rstrip c (s ++ (c ∷ [])) ≡ rstrip c s
unfolding rstrip
rstrip-last c s =
    ap (λ x. reverse (lstrip c x)) (reverse-append s (c ∷ []))
    ∙ ap reverse (lstrip-here c (reverse s))

-- The separators around a path between two names go.
pub strip-around :
    (c : ℕ) (s t u : Text)
    → s ≢ []
    → Lacks c s
    → u ≢ []
    → Lacks c u
    → strip c (c ∷ (s ++ (t ++ u)) ++ (c ∷ [])) ≡ s ++ (t ++ u)
unfolding strip
strip-around c s t u ns hs nu hu =
    ap (rstrip c) (lstrip-here c ((s ++ (t ++ u)) ++ (c ∷ [])))
    ∙ ap (λ x. rstrip c (lstrip c x)) (append_assoc s (t ++ u) (c ∷ []))
    ∙ ap (rstrip c) (lstrip-name c s ((t ++ u) ++ (c ∷ [])) ns hs)
    ∙ ap (rstrip c) (sym (append_assoc s (t ++ u) (c ∷ [])))
    ∙ rstrip-last c (s ++ (t ++ u))
    ∙ ap (rstrip c) (sym (append_assoc s t u))
    ∙ rstrip-name c (s ++ t) u nu hu
    ∙ append_assoc s t u

lower_char-Lacks : (d : ℕ) → nat_eq d b'/' ≡ false → nat_eq (lower_char d) b'/' ≡ false
unfolding lower_char
lower_char-Lacks d h = ground arith

lower-Lacks : (s : Text) → Lacks b'/' s → Lacks b'/' (lower s)
unfolding lower
lower-Lacks [] h = tt
lower-Lacks (d ∷ s) h = (lower_char-Lacks d h.0, lower-Lacks s h.1)

pub lower-IsName : (s : Text) → IsName s → IsName (lower s)
unfolding lower
lower-IsName [] h = absurd (h.0 refl)
lower-IsName (d ∷ s) h = (λ e. cc, lower-Lacks (d ∷ s) h.1)

-- A path of names ends with the last of them.
join-last :
    (s : Text) (ss : List Text)
    → IsName s
    → All IsName ss
    → (t : Text) × (u : Text) × IsName u × ((b'/' ∷ join b'/' (s ∷ ss)) ≡ t ++ u)
unfolding join
join-last s [] h hs = (b'/' ∷ [], s, h, refl)
join-last s (q ∷ ss) h hs =
    let (t, u, n, e) = join-last q ss hs.0 hs.1 in
    (
      b'/' ∷ (s ++ t),
      u,
      n,
      ap (λ x. b'/' ∷ (s ++ x)) e ∙ ap (λ x. b'/' ∷ x) (sym (append_assoc s t u)),
    )

strip-join_two :
    (s q : Text) (ss : List Text)
    → IsName s
    → IsName q
    → All IsName ss
    → strip b'/' (join b'/' (s ∷ q ∷ ss)) ≡ join b'/' (s ∷ q ∷ ss)
unfolding join
strip-join_two s q ss h k hs =
    let (t, u, n, e) = join-last q ss k hs in
    ap (λ x. strip b'/' (s ++ x)) e
    ∙ strip-names b'/' s t u h.0 h.1 n.0 n.1
    ∙ ap (λ x. s ++ x) (sym e)

pub strip-join :
    (s : Text) (ss : List Text)
    → IsName s
    → All IsName ss
    → strip b'/' (join b'/' (s ∷ ss)) ≡ join b'/' (s ∷ ss)
unfolding join strip
strip-join s [] h hs =
    ap (rstrip b'/')
      (ap (lstrip b'/') (sym (append-nil s)) ∙ lstrip-name b'/' s [] h.0 h.1 ∙ append-nil s)
    ∙ rstrip-name b'/' [] s h.0 h.1
strip-join s (q ∷ ss) h hs = strip-join_two s q ss h hs.0 hs.1

All-Lacks : (ss : List Text) → All IsName ss → All (Lacks b'/') ss
All-Lacks [] hs = tt
All-Lacks (s ∷ ss) hs = (hs.0.1, All-Lacks ss hs.1)

pub split-strip-join :
    (s : Text) (ss : List Text)
    → IsName s
    → All IsName ss
    → split b'/' (strip b'/' (join b'/' (s ∷ ss))) ≡ s ∷ ss
split-strip-join s ss h hs =
    ap (split b'/') (strip-join s ss h hs) ∙ split-join b'/' s ss h.1 (All-Lacks ss hs)

pub join-snoc :
    (c : ℕ) (s n : Text) (ss : List Text)
    → join c (s ∷ ss) ++ (c ∷ n) ≡ join c (s ∷ (ss ++ (n ∷ [])))
unfolding join
join-snoc c s n [] = refl
join-snoc c s n (q ∷ ss) =
    append_assoc s (c ∷ join c (q ∷ ss)) (c ∷ n) ∙ ap (λ x. s ++ (c ∷ x)) (join-snoc c q n ss)

-- ===== src/Estimates/Key.antt =====
-- selectorSignature.key of internal/promshim/selector_estimates.go tells signatures apart.
use mathlib.Core.List.{Perm}
use mathlib.Core.List.Perm
use mathlib.Core.List.{append-nil}
use promshim_clickhouse.Base.{
  ℕ, false, List, [], ◌∷◌, ◌++◌, ◌≡◌, refl, sym, ◌∙◌, ap, ap₂, subst, arith, All, is_empty,
}
use promshim_clickhouse.Bytes.{Bytes, Lacks, separator_unique, join_strings, bytes_lt}
use promshim_clickhouse.Bytes.Sort.{sort_strings, All-sort_by, sort_by-perm}
use promshim_clickhouse.Bytes.Bars.{Lacks-not, bars, bars-injective, nth}
use promshim_clickhouse.Bytes.Decimal.{format_int}
use promshim_clickhouse.Bytes.Decimal.ReadBack.{IsInt64, format_int-injective, format_int-Lacks}
use promshim_clickhouse.Estimates.{Signature, key}

not_empty : (a t : Bytes) → [] ≡ a ++ (255 ∷ t) → ⊥
not_empty [] t e = ground (arith, e)
not_empty (c ∷ a) t e = ground (arith, e)

-- What Go's matchers are as text: not empty, and without the byte 255, as UTF-8 is.
abbrev pub IsText : Bytes → Type 0
IsText s = (is_empty s ≡ false) × Lacks 255 s

join_strings-injective :
    (xs ys : List Bytes)
    → All IsText xs
    → All IsText ys
    → join_strings (255 ∷ []) xs ≡ join_strings (255 ∷ []) ys
    → xs ≡ ys
unfolding join_strings
join_strings-injective [] [] hx hy e = refl
join_strings-injective [] (y ∷ []) hx hy e = ground (arith, ap is_empty e, hy.0.0)
join_strings-injective [] (y ∷ z ∷ ys) hx hy e = absurd (not_empty y _ e)
join_strings-injective (x ∷ []) [] hx hy e = ground (arith, ap is_empty e, hx.0.0)
join_strings-injective (x ∷ z ∷ xs) [] hx hy e = absurd (not_empty x _ (sym e))
join_strings-injective (x ∷ []) (y ∷ []) hx hy e = ap (λ t. t ∷ []) e
join_strings-injective (x ∷ []) (y ∷ z ∷ ys) hx hy e =
    absurd (Lacks-not 255 y _ (subst (Lacks 255) e hx.0.1))
join_strings-injective (x ∷ z ∷ xs) (y ∷ []) hx hy e =
    absurd (Lacks-not 255 x _ (subst (Lacks 255) (sym e) hy.0.1))
join_strings-injective (x ∷ u ∷ xs) (y ∷ v ∷ ys) hx hy e =
    let (xy, rest) = separator_unique 255 x y _ _ hx.0.1 hy.0.1 e in
    ap₂ (λ t ts. t ∷ ts) xy (join_strings-injective (u ∷ xs) (v ∷ ys) hx.1 hy.1 rest)

abbrev bounds : Signature → List Bytes
bounds sig =
    format_int sig.start_ms
    ∷ format_int sig.end_ms
    ∷ format_int sig.lookback_ms
    ∷ format_int sig.offset_ms
    ∷ []

bounds-Lacks : (sig : Signature) → All (Lacks b'|') (bounds sig)
bounds-Lacks sig = (
  format_int-Lacks sig.start_ms,
  (
    format_int-Lacks sig.end_ms,
    (format_int-Lacks sig.lookback_ms, (format_int-Lacks sig.offset_ms, tt)),
  ),
)

key-bars :
    (sig : Signature)
    → key sig ≡ join_strings (255 ∷ []) (sort_strings sig.matchers) ++ bars (bounds sig)
unfolding key
key-bars sig = rw (append-nil (format_int sig.offset_ms)) refl

same_sorted : (xs ys : List Bytes) → sort_strings xs ≡ sort_strings ys → Perm xs ys
same_sorted xs ys e =
    Perm.trans (Perm.symm (sort_by-perm bytes_lt xs))
      (subst (λ l. Perm l ys) (sym e) (sort_by-perm bytes_lt ys))

-- The bounds of a signature are int64, and its matchers are texts.
abbrev pub IsValid : Signature → Type 0
IsValid sig =
    All IsText sig.matchers
    × ((IsInt64 sig.start_ms × IsInt64 sig.end_ms)
        × (IsInt64 sig.lookback_ms × IsInt64 sig.offset_ms))

-- Two signatures whose matchers are texts and whose bounds are int64 have the same key only where they have the
-- same matchers, in some order, and the same bounds.
pub key-injective :
    (s t : Signature)
    → IsValid s
    → IsValid t
    → key s ≡ key t
    → Perm s.matchers t.matchers
      × (((s.start_ms ≡ t.start_ms) × (s.end_ms ≡ t.end_ms))
          × ((s.lookback_ms ≡ t.lookback_ms) × (s.offset_ms ≡ t.offset_ms)))
key-injective s t (ms, ((s₁, s₂), (s₃, s₄))) (mt, ((t₁, t₂), (t₃, t₄))) e =
    let (matchers, parts) =
      bars-injective (join_strings (255 ∷ []) (sort_strings s.matchers))
        (join_strings (255 ∷ []) (sort_strings t.matchers)) (bounds s) (bounds t) refl
        (bounds-Lacks s) (bounds-Lacks t) (sym (key-bars s) ∙ e ∙ key-bars t) in
    (
      same_sorted s.matchers t.matchers (
          join_strings-injective (sort_strings s.matchers) (sort_strings t.matchers)
            (All-sort_by bytes_lt IsText s.matchers ms) (All-sort_by bytes_lt IsText t.matchers mt)
            matchers),
      (
        (
          format_int-injective s.start_ms t.start_ms s₁ t₁ (part 0 parts),
          format_int-injective s.end_ms t.end_ms s₂ t₂ (part 1 parts),
        ),
        (
          format_int-injective s.lookback_ms t.lookback_ms s₃ t₃ (part 2 parts),
          format_int-injective s.offset_ms t.offset_ms s₄ t₄ (part 3 parts),
        ),
      ),
    )
  where
    part : (n : ℕ) → bounds s ≡ bounds t → nth n (bounds s) ≡ nth n (bounds t)
    part n f = ap (nth n) f

-- ===== src/Bytes/Bars.antt =====
-- Texts that end in parts with a bar before each, as the keys of internal/promshim/selector_estimates.go and
-- internal/promshim/local/planner_memo.go do.
use mathlib.Core.List.{append_assoc, append-nil}
use promshim_clickhouse.Base.{
  zero, suc, ℕ, List, [], ◌∷◌, ◌++◌, ◌≡◌, refl, sym, ◌∙◌, ap₂, subst, arith, All, length,
}
use promshim_clickhouse.Bytes.{Bytes, Lacks}

pub Lacks-not : (c : ℕ) (s : Bytes) (t : Bytes) → Lacks c (s ++ (c ∷ t)) → ⊥
Lacks-not c [] t h = h.0 refl
Lacks-not c (d ∷ s) t h = Lacks-not c s t h.1

-- Two texts are told apart at their last separator.
last_separator :
    (c : ℕ) (x y a b : Bytes)
    → Lacks c a
    → Lacks c b
    → x ++ (c ∷ a) ≡ y ++ (c ∷ b)
    → (x ≡ y) × (a ≡ b)
last_separator c [] [] a b ha hb e = (refl, ground (arith, e))
last_separator c [] (d ∷ y) a b ha hb e =
    absurd (Lacks-not c y b (subst (Lacks c) (ground (arith, e)) ha))
last_separator c (d ∷ x) [] a b ha hb e =
    absurd (Lacks-not c x a (subst (Lacks c) (ground (arith, e)) hb))
last_separator c (d ∷ x) (f ∷ y) a b ha hb e =
    let (xy, ab) = last_separator c x y a b ha hb (ground (arith, e)) in (ground (arith, e, xy), ab)

-- Each part with a bar before it.
abbrev pub bars : List Bytes → Bytes
bars [] = []
bars (p ∷ ps) = b'|' ∷ (p ++ bars ps)

-- Where no part has a bar, what stands before the parts and the parts are read back.
pub bars-injective :
    (x y : Bytes) (ps qs : List Bytes)
    → length ps ≡ length qs
    → All (Lacks b'|') ps
    → All (Lacks b'|') qs
    → x ++ bars ps ≡ y ++ bars qs
    → (x ≡ y) × (ps ≡ qs)
bars-injective x y [] [] n hp hq e = (sym (append-nil x) ∙ e ∙ append-nil y, refl)
bars-injective x y [] (q ∷ qs) n hp hq e = ground (arith, n)
bars-injective x y (p ∷ ps) [] n hp hq e = ground (arith, n)
bars-injective x y (p ∷ ps) (q ∷ qs) n hp hq e =
    let (front, parts) =
      bars-injective (x ++ (b'|' ∷ p)) (y ++ (b'|' ∷ q)) ps qs (omega (arith, n)) hp.1 hq.1
        (append_assoc x (b'|' ∷ p) (bars ps) ∙ e ∙ sym (append_assoc y (b'|' ∷ q) (bars qs))) in
    let (xy, pq) = last_separator b'|' x y p q hp.0 hq.0 front in (xy, ap₂ (λ a b. a ∷ b) pq parts)

abbrev pub nth : ℕ → List Bytes → Bytes
nth n [] = []
nth zero (p ∷ ps) = p
nth (suc n) (p ∷ ps) = nth n ps

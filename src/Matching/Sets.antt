-- ===== src/Matching/Sets.antt =====
-- `and`, `or` and `unless` against a description in terms of labels.
use mathlib.Core.Bool.{false≢true}
use mathlib.Core.List.{Perm, perm_middle}
use mathlib.Core.List.Perm
use promshim_clickhouse.Base.{
  Bool, true, false, not, List, [], ◌∷◌, ◌++◌, none, some, ◌≡◌, refl, ◌↔◌, inl, inr, ◌∙◌, arith,
  All, Bool-cases, ok, select, ap,
}
use promshim_clickhouse.Bytes.Sort.{contains}
use promshim_clickhouse.Labels.{InstantSample}
use promshim_clickhouse.Matching.{
  Op, land, lor, lunless, VectorMatching, is_many_to_many, vector_match_signature, signatures,
  set_samples, apply_vector_vector_set_instant, is_set_operator,
}
use promshim_clickhouse.Floats.{Floats}
use promshim_clickhouse.Matching.Join.{apply_vector_vector_binary_instant}
use promshim_clickhouse.Matching.Signature.{
  IsLabelSet, HasPartner, AreLabelSets, contains-signatures,
}

-- The second list holds, in order, exactly the elements of the first with the property.
pub data Selects {A : Type 0} (P : A → Type 0) : List A → List A → Type 0 where
  done : Selects P [] []
  keep : {x : A} {xs ys : List A} → P x → Selects P xs ys → Selects P (x ∷ xs) (x ∷ ys)
  skip : {x : A} {xs ys : List A} → ¬ P x → Selects P xs ys → Selects P (x ∷ xs) ys

select-Selects :
    {A : Type 0} (P Q : A → Type 0) (p : A → Bool) (xs : List A)
    → All Q xs
    → ((x : A) → Q x → (p x ≡ true) ↔ P x)
    → Selects P xs (select p xs)
select-Selects P Q p [] q h = done
select-Selects P Q p (x ∷ xs) q h = elim (Bool-cases (p x)) [
  | inl e ↦ rw e (keep ((h x q.0).0 e) (select-Selects P Q p xs q.1 h))
  | inr e ↦ rw e (skip (λ px. cc ((h x q.0).1 px)) (select-Selects P Q p xs q.1 h))
]

not_iff : {P : Type 0} (b : Bool) → (b ≡ true) ↔ P → (not b ≡ true) ↔ (¬ P)
not_iff true h = (λ e. cc, λ no_p. absurd (no_p (h.0 refl)))
not_iff false h = (λ e p. cc (h.1 p), λ no_p. refl)

Selects-none : {A : Type 0} (P : A → Type 0) (xs : List A) → ((x : A) → ¬ P x) → Selects P xs []
Selects-none P [] h = done
Selects-none P (x ∷ xs) h = skip (h x) (Selects-none P xs h)

Selects-all : {A : Type 0} (P : A → Type 0) (xs : List A) → ((x : A) → P x) → Selects P xs xs
Selects-all P [] h = done
Selects-all P (x ∷ xs) h = keep (h x) (Selects-all P xs h)

module _ {F : Type 0} (m : VectorMatching F) where
  -- What the operator promises of its result, in terms of the labels alone.
  abbrev pub SetResult :
      Op → List (InstantSample F) → List (InstantSample F) → List (InstantSample F) → Type 0
  SetResult land lhs rhs out = Selects (λ s. HasPartner m s.metric rhs) lhs out
  SetResult lunless lhs rhs out = Selects (λ s. ¬ HasPartner m s.metric rhs) lhs out
  SetResult lor lhs rhs out =
      (added : List (InstantSample F)) × (out ≡ lhs ++ added)
      × Selects (λ s. ¬ HasPartner m s.metric lhs) rhs added
  SetResult op lhs rhs out = ⊥

land_lem :
    {F : Type 0} (m : VectorMatching F) (lhs rhs : List (InstantSample F))
    → AreLabelSets m lhs
    → AreLabelSets m rhs
    → (out : List (InstantSample F)) × (set_samples land m lhs rhs ≡ ok out)
      × SetResult m land lhs rhs out
unfolding set_samples
land_lem m [] rhs hl hr = ([], refl, done)
land_lem m (l ∷ ls) [] hl hr = ([], refl, Selects-none _ (l ∷ ls) (λ s h. h))
land_lem m (l ∷ ls) (r ∷ rs) hl hr = (
  _,
  refl,
  select-Selects _ (λ s. IsLabelSet s.metric) _ (l ∷ ls) hl
      (λ s hs. contains-signatures m s.metric (r ∷ rs) hs hr),
)

lunless_lem :
    {F : Type 0} (m : VectorMatching F) (lhs rhs : List (InstantSample F))
    → AreLabelSets m lhs
    → AreLabelSets m rhs
    → (out : List (InstantSample F)) × (set_samples lunless m lhs rhs ≡ ok out)
      × SetResult m lunless lhs rhs out
unfolding set_samples
lunless_lem m [] rhs hl hr = ([], refl, done)
lunless_lem m (l ∷ ls) [] hl hr = (l ∷ ls, refl, Selects-all _ (l ∷ ls) (λ s h. h))
lunless_lem m (l ∷ ls) (r ∷ rs) hl hr = (
  _,
  refl,
  select-Selects _ (λ s. IsLabelSet s.metric) _ (l ∷ ls) hl
      (λ s hs. not_iff _ (contains-signatures m s.metric (r ∷ rs) hs hr)),
)

lor_lem :
    {F : Type 0} (m : VectorMatching F) (lhs rhs : List (InstantSample F))
    → AreLabelSets m lhs
    → AreLabelSets m rhs
    → (out : List (InstantSample F)) × (set_samples lor m lhs rhs ≡ ok out)
      × SetResult m lor lhs rhs out
unfolding set_samples
lor_lem m [] rhs hl hr = (rhs, refl, (rhs, refl, Selects-all _ rhs (λ s h. h)))
lor_lem m (l ∷ ls) [] hl hr = (l ∷ ls, refl, ([], sym_nil (l ∷ ls), done))
  where
    sym_nil : {A : Type 0} (xs : List A) → xs ≡ xs ++ []
    sym_nil [] = refl
    sym_nil (x ∷ xs) = ap (λ ys. x ∷ ys) (sym_nil xs)
lor_lem m (l ∷ ls) (r ∷ rs) hl hr = (
  _,
  refl,
  (
    _,
    refl,
    select-Selects _ (λ s. IsLabelSet s.metric) _ (r ∷ rs) hr
        (λ s hs. not_iff _ (contains-signatures m s.metric (l ∷ ls) hs hl)),
  ),
)

set_samples_lem :
    {F : Type 0} (m : VectorMatching F) (op : Op) (lhs rhs : List (InstantSample F))
    → is_set_operator op ≡ true
    → AreLabelSets m lhs
    → AreLabelSets m rhs
    → (out : List (InstantSample F)) × (set_samples op m lhs rhs ≡ ok out)
      × SetResult m op lhs rhs out
unfolding is_set_operator
set_samples_lem m land lhs rhs h hl hr = land_lem m lhs rhs hl hr
set_samples_lem m lor lhs rhs h hl hr = lor_lem m lhs rhs hl hr
set_samples_lem m lunless lhs rhs h hl hr = lunless_lem m lhs rhs hl hr
set_samples_lem m _ lhs rhs h hl hr = absurd (false≢true h)

past_guards :
    (fl : Floats) (op : Op) (m : VectorMatching fl.F) (lhs rhs : List (InstantSample fl.F))
    (return_bool : Bool)
    → is_set_operator op ≡ true
    → is_many_to_many m.card ≡ true
    → m.fill_lhs ≡ none
    → m.fill_rhs ≡ none
    → apply_vector_vector_binary_instant fl op lhs rhs (some m) return_bool
      ≡ set_samples op m lhs rhs
unfolding apply_vector_vector_binary_instant apply_vector_vector_set_instant
past_guards fl op m lhs rhs return_bool h card no_lhs no_rhs = ground arith

-- A set operator between vectors of label sets, matched many-to-many with no fill value, always
-- succeeds: `and` keeps, in order, exactly the left samples with a right sample that agrees on the
-- compared labels; `unless` exactly those with none; `or` adds to the left samples, in order, exactly
-- the right ones that agree with no left one.
pub set_operator_lem :
    (fl : Floats) (op : Op) (m : VectorMatching fl.F) (lhs rhs : List (InstantSample fl.F))
    (return_bool : Bool)
    → is_set_operator op ≡ true
    → is_many_to_many m.card ≡ true
    → m.fill_lhs ≡ none
    → m.fill_rhs ≡ none
    → AreLabelSets m lhs
    → AreLabelSets m rhs
    → (out : List (InstantSample fl.F)) × (apply_vector_vector_binary_instant fl op lhs rhs
          (some m)
          return_bool
        ≡ ok out)
      × SetResult m op lhs rhs out
set_operator_lem fl op m lhs rhs return_bool h card no_lhs no_rhs hl hr =
    let (out, runs, result) = set_samples_lem m op lhs rhs h hl hr in
    (out, past_guards fl op m lhs rhs return_bool h card no_lhs no_rhs ∙ runs, result)

select-partition :
    {A : Type 0} (p : A → Bool) (xs : List A) → Perm (select p xs ++ select (λ x. not (p x)) xs) xs
select-partition p [] = Perm.rfl
select-partition p (x ∷ xs) = elim (Bool-cases (p x)) [
  | inl e ↦ rw e (Perm.cons x (select-partition p xs))
  | inr e ↦ rw e (
      Perm.trans (perm_middle (select p xs) (select (λ y. not (p y)) xs))
        (Perm.cons x (select-partition p xs)))
]

-- `and` and `unless` share the left samples out: every left sample is in exactly one of the results,
-- as often as it was on the left.
land-lunless-perm :
    {F : Type 0} (m : VectorMatching F) (lhs rhs both neither : List (InstantSample F))
    → apply_vector_vector_set_instant land lhs rhs m ≡ ok both
    → apply_vector_vector_set_instant lunless lhs rhs m ≡ ok neither
    → Perm (both ++ neither) lhs
unfolding apply_vector_vector_set_instant set_samples
land-lunless-perm m [] rhs both neither h k =
    let e : both ≡ [] = ground arith in let e' : neither ≡ [] = ground arith in rw (e, e') Perm.rfl
land-lunless-perm m (l ∷ ls) [] both neither h k =
    let e : both ≡ [] = ground arith in
    let e' : neither ≡ l ∷ ls = ground arith in rw (e, e') Perm.rfl
land-lunless-perm m (l ∷ ls) (r ∷ rs) both neither h k =
    let p : InstantSample _ → Bool =
      λ s. contains (vector_match_signature s.metric m) (signatures m (r ∷ rs)) in
    let e : both ≡ select p (l ∷ ls) = ground arith in
    let e' : neither ≡ select (λ s. not (p s)) (l ∷ ls) = ground arith in
    rw (e, e') (select-partition p (l ∷ ls))

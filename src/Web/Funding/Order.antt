-- ===== src/Web/Funding/Order.antt =====
-- The order in which the actions are tried, and searching in that order.
use zamapay.Prelude.{
  ◌≡◌, subst, Bool, true, false, some, List, [], ◌∷◌, All, arith, find, Bool-cases, inl, inr,
  All-map, some-injective,
}
use zamapay.Web.Relay.{FundingAction}
use zamapay.Web.Funding.{is_before, insert, sort}

is_before_trans :
    (a b c : FundingAction) → is_before a b ≡ true → is_before b c ≡ true → is_before a c ≡ true
is_before_trans a b c h k = ground arith

is_before_total : (a b : FundingAction) → is_before a b ≡ false → is_before b a ≡ true
is_before_total a b h = ground arith

pub is_before_refl : (a : FundingAction) → is_before a a ≡ true
is_before_refl a = ground arith

abbrev pub Sorted : List FundingAction → Type 0
Sorted [] = Unit
Sorted (x ∷ xs) = All (λ y. is_before x y ≡ true) xs × Sorted xs

module _ (P : FundingAction → Type 0) where
  insert-All : (a : FundingAction) (xs : List FundingAction) → P a → All P xs → All P (insert a xs)
  unfolding insert
  insert-All a [] p _ = (p, tt)
  insert-All a (x ∷ xs) p (q, qs) = elim (Bool-cases (is_before a x)) [
    | inl e ↦ rw (e, All) (p, (q, qs))
    | inr e ↦ rw (e, All) (q, insert-All a xs p qs)
  ]

  All-insert : (a : FundingAction) (xs : List FundingAction) → All P (insert a xs) → P a × All P xs
  unfolding insert
  All-insert a [] h = h
  All-insert a (x ∷ xs) h = elim (Bool-cases (is_before a x)) [
    | inl e ↦ rw e at h
    | inr e ↦
        let (q, rest) : P x × All P (insert a xs) = rw e at h in
        let (p, qs) = All-insert a xs rest in (p, (q, qs))
  ]

  pub sort-All : (xs : List FundingAction) → All P xs → All P (sort xs)
  unfolding sort
  sort-All [] _ = tt
  sort-All (x ∷ xs) (p, ps) = insert-All x (sort xs) p (sort-All xs ps)

  pub All-sort : (xs : List FundingAction) → All P (sort xs) → All P xs
  unfolding sort
  All-sort [] _ = tt
  All-sort (x ∷ xs) h = let (p, ps) = All-insert x (sort xs) h in (p, All-sort xs ps)

insert-Sorted : (a : FundingAction) (xs : List FundingAction) → Sorted xs → Sorted (insert a xs)
unfolding insert
insert-Sorted a [] _ = (tt, tt)
insert-Sorted a (x ∷ xs) (h, s) = elim (Bool-cases (is_before a x)) [
  | inl e ↦ rw (e, Sorted) ((e, All-map xs (λ y k. is_before_trans a x y e k) h), (h, s))
  | inr e ↦
      rw (e, Sorted)
        (
          insert-All (λ y. is_before x y ≡ true) a xs (is_before_total a x e) h,
          insert-Sorted a xs s,
        )
]

pub sort-Sorted : (xs : List FundingAction) → Sorted (sort xs)
unfolding sort
sort-Sorted [] = tt
sort-Sorted (x ∷ xs) = insert-Sorted x (sort xs) (sort-Sorted xs)

-- In a sorted list what is found is before all others that pass the test.
pub find-first :
    (test : FundingAction → Bool) (xs : List FundingAction) {a : FundingAction}
    → Sorted xs
    → find test xs ≡ some a
    → All (λ b. test b ≡ true → is_before a b ≡ true) xs
find-first test [] _ e = tt
find-first test (x ∷ xs) {a} (h, s) e = elim (Bool-cases (test x)) [
  | inl t ↦
      subst (λ c. All (λ b. test b ≡ true → is_before c b ≡ true) (x ∷ xs))
        (some-injective (rw t at e)) ((λ _. is_before_refl x), All-map xs (λ b k _. k) h)
  | inr t ↦ ((λ u. cc), find-first test xs s (rw t at e))
]

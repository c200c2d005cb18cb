-- ===== src/Web/Withdraws/Views.antt =====
-- The pending withdrawals as a map from a project and a transaction: what a run of saves and clears
-- means, whatever list the storage holds.
use zamapay.Prelude.{
  ◌≡◌, refl, sym, ap, subst, ◌∙◌, Bool, true, false, not, ◌&&◌, Option, none, some, List, [], ◌∷◌,
  ◌++◌, keep, find, arith, Bool-cases, inl, inr, if◌then◌else◌, ◌or_try◌,
}
use mathlib.Core.Path.{fun_ext}
use zamapay.Prelude.Text.{Text, lit, str_eq, str_eq_iff}
use zamapay.Js.{
  Value, undefined, null, boolean, number, bigint, string, array, object, member, find_member,
}
use zamapay.Web.Errors.{Attempt}
use zamapay.Web.Withdraws.{
  PendingWithdraw, Browser, Page, window, withdraw_value, is_withdraw_of, is_the_text, all_pending,
  remaining, save_pending, clear_pending,
}
use zamapay.Web.Withdraws.Laws.{Stores, save_pending-lists, clear_pending-lists}

-- The specification: a map that `put` and `delete` change at one key.
abbrev pub PendingMap : Type 0
PendingMap = Text → Text → Option Value

pub data Change : Type 0 where
  put : PendingWithdraw → Change
  delete : Text → Text → Change

abbrev pub same_key : Text → Text → Text → Text → Bool
same_key project tx project' tx' = str_eq project project' && str_eq tx tx'

abbrev pub map_after : Change → PendingMap → PendingMap
map_after (put w) m project tx =
    if same_key w.project_id w.chain_tx_hash project tx
    then some (withdraw_value w)
    else m project tx
map_after (delete project' tx') m project tx =
    if same_key project' tx' project tx then none else m project tx

-- The implementation: the same changes of what the storage holds.
abbrev pub page_after : Browser → Change → Page → Attempt (Unit {0}) × Page
page_after browser (put w) page = save_pending browser w page
page_after browser (delete project tx) page = clear_pending browser project tx page

abbrev pub view : Browser → Page → PendingMap
view browser page project tx = find (is_withdraw_of project tx) (all_pending browser page)

find-append {ℓ} :
    {A : Type ℓ} (p : A → Bool) (xs ys : List A) → find p (xs ++ ys) ≡ find p xs or_try find p ys
find-append p [] ys = refl
find-append p (x ∷ xs) ys = ground (arith, find-append p xs ys)

-- What is dropped where the test passes is not found.
find-keep-none {ℓ} :
    {A : Type ℓ} (p q : A → Bool) (xs : List A)
    → ((x : A) → p x ≡ true → q x ≡ true)
    → find p (keep (λ x. not (q x)) xs) ≡ none
find-keep-none p q [] within = refl
find-keep-none p q (x ∷ xs) within = ground (arith, within x, find-keep-none p q xs within)

-- What is dropped for another test is not found less.
find-keep-other {ℓ} :
    {A : Type ℓ} (p q : A → Bool) (xs : List A)
    → ((x : A) → p x ≡ true → q x ≡ false)
    → find p (keep (λ x. not (q x)) xs) ≡ find p xs
find-keep-other p q [] apart = refl
find-keep-other p q (x ∷ xs) apart = ground (arith, apart x, find-keep-other p q xs apart)

both_texts : (s t : Text) (v : Value) → is_the_text s v ≡ true → is_the_text t v ≡ true → s ≡ t
both_texts s t (string u) hs ht = sym ((str_eq_iff u s).0 hs) ∙ (str_eq_iff u t).0 ht
both_texts s t undefined hs ht = cc
both_texts s t null hs ht = cc
both_texts s t (boolean b) hs ht = cc
both_texts s t (number n) hs ht = cc
both_texts s t (bigint z) hs ht = cc
both_texts s t (array vs) hs ht = cc
both_texts s t (object ms) hs ht = cc

is_withdraw_of-apart :
    (p t p' t' : Text)
    → same_key p' t' p t ≡ false
    → (v : Value) → is_withdraw_of p t v ≡ true
    → is_withdraw_of p' t' v ≡ false
unfolding is_withdraw_of
is_withdraw_of-apart p t p' t' apart v h = ground (
  arith,
  both_texts p' p (member v (lit "projectId")),
  both_texts t' t (member v (lit "chainTxHash")),
  str_eq_iff p' p,
  str_eq_iff t' t,
)

withdraw_value-is_withdraw_of :
    (w : PendingWithdraw) (project tx : Text)
    → is_withdraw_of project tx (withdraw_value w)
      ≡ same_key w.project_id w.chain_tx_hash project tx
unfolding is_withdraw_of str_eq member find_member withdraw_value
withdraw_value-is_withdraw_of w project tx = refl

is_withdraw_of-same :
    (p t p' t' : Text)
    → same_key p' t' p t ≡ true
    → (v : Value) → is_withdraw_of p t v ≡ true
    → is_withdraw_of p' t' v ≡ true
is_withdraw_of-same p t p' t' same v h =
    let e : (p ≡ p') × (t ≡ t') = ground (arith, str_eq_iff p' p, str_eq_iff t' t) in
    subst (λ q. is_withdraw_of q t' v ≡ true) e.0 (subst (λ u. is_withdraw_of p u v ≡ true) e.1 h)

-- Looking up a key where the withdrawals of another key were dropped.
find-remaining :
    (p t p' t' : Text) (xs : List Value)
    → find (is_withdraw_of p t) (keep (λ v. not (is_withdraw_of p' t' v)) xs)
      ≡ (if same_key p' t' p t then none else find (is_withdraw_of p t) xs)
find-remaining p t p' t' xs = elim (Bool-cases (same_key p' t' p t)) [
  | inl e ↦ rw e (
      find-keep-none (is_withdraw_of p t) (is_withdraw_of p' t') xs
        (is_withdraw_of-same p t p' t' e))
  | inr e ↦ rw e (
      find-keep-other (is_withdraw_of p t) (is_withdraw_of p' t') xs
        (is_withdraw_of-apart p t p' t' e))
]

or_try-if {ℓ} :
    {A : Type ℓ} (same : Bool) (old : Option A) (a : A)
    → (if same then none else old) or_try (if same then some a else none)
      ≡ (if same then some a else old)
or_try-if true old a = refl
or_try-if false none a = refl
or_try-if false (some b) a = refl

-- The changes that the storage took, one after the other, with what each left.
pub data Run (browser : Browser) : Page → List Change → Page → Type 0 where
  done : {page : Page} → Run browser page [] page
  saved :
      {stored : Option Text} {changes : List Change} {page : Page} (w : PendingWithdraw)
      → Stores browser
          (remaining browser (window stored) w.project_id w.chain_tx_hash ++ withdraw_value w ∷ [])
      → Run browser (save_pending browser w (window stored)).1 changes page
      → Run browser (window stored) (put w ∷ changes) page
  cleared :
      {stored : Option Text} {changes : List Change} {page : Page} (project tx : Text)
      → Stores browser (remaining browser (window stored) project tx)
      → Run browser (clear_pending browser project tx (window stored)).1 changes page
      → Run browser (window stored) (delete project tx ∷ changes) page

abbrev pub map_after_all : List Change → PendingMap → PendingMap
map_after_all [] m = m
map_after_all (change ∷ changes) m = map_after_all changes (map_after change m)

module _ (browser : Browser) (stored : Option Text) where
  save_pending-view :
      (w : PendingWithdraw)
      → Stores browser
          (remaining browser (window stored) w.project_id w.chain_tx_hash ++ withdraw_value w ∷ [])
      → view browser (save_pending browser w (window stored)).1
        ≡ map_after (put w) (view browser (window stored))
  save_pending-view w h = fun_ext λ project. fun_ext λ tx.
      ap (find (is_withdraw_of project tx)) (save_pending-lists browser stored w h)
      ∙ find-append (is_withdraw_of project tx)
          (remaining browser (window stored) w.project_id w.chain_tx_hash) (withdraw_value w ∷ [])
      ∙ ap (λ found. found or_try find (is_withdraw_of project tx) (withdraw_value w ∷ []))
          (find-remaining project tx w.project_id w.chain_tx_hash _)
      ∙ ap
          (λ same.
            (if same_key w.project_id w.chain_tx_hash project tx
              then none
              else find (is_withdraw_of project tx) (all_pending browser (window stored)))
            or_try (if same then some (withdraw_value w) else none))
          (withdraw_value-is_withdraw_of w project tx)
      ∙ or_try-if (same_key w.project_id w.chain_tx_hash project tx) _ (withdraw_value w)

  clear_pending-view :
      (p t : Text)
      → Stores browser (remaining browser (window stored) p t)
      → view browser (clear_pending browser p t (window stored)).1
        ≡ map_after (delete p t) (view browser (window stored))
  clear_pending-view p t h = fun_ext λ project. fun_ext λ tx.
      ap (find (is_withdraw_of project tx)) (clear_pending-lists browser stored p t h)
      ∙ find-remaining project tx p t _

-- The storage refines the map: after a run of saves and clears that it took, it shows what the
-- same changes make of the map that it showed before.
pub Run-refines :
    (browser : Browser) {before after : Page} {changes : List Change}
    → Run browser before changes after
    → view browser after ≡ map_after_all changes (view browser before)
Run-refines browser done = refl
Run-refines browser (saved {changes = changes} w h run) =
    Run-refines browser run ∙ ap (map_after_all changes) (save_pending-view browser _ w h)
Run-refines browser (cleared {changes = changes} p t h run) =
    Run-refines browser run ∙ ap (map_after_all changes) (clear_pending-view browser _ p t h)

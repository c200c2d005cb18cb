-- ===== src/Prelude/Text/Laws.antt =====
-- Trimming, prefixes and trailing letters.
use Prim.Native.Nat.{ℕ, zero, suc}
use mathlib.Core.Path.{◌≡◌, refl}
use mathlib.Core.Logic.{◌≢◌}
use mathlib.Core.Bool.{true, false}
use mathlib.Core.List.{[], ◌∷◌, ◌++◌, reverse, reverse-reverse, reverse-cons}
use native.Mathlib.Omega.{arith}
use zamapay.Prelude.Lists.{All, All-append, length, drop, replicate}
use zamapay.Prelude.Text.{Text, is_space, trim_start, trim, starts_with, drop_trailing}

abbrev pub NotSpace : ℕ → Type 0
NotSpace c = is_space c ≡ false

trim_start-NotSpace : (s : Text) → All NotSpace s → trim_start s ≡ s
unfolding trim_start
trim_start-NotSpace [] _ = refl
trim_start-NotSpace (c ∷ s) (h, _) = rw h

All-reverse {κ} : (P : ℕ → Type κ) (s : Text) → All P s → All P (reverse s)
All-reverse P [] _ = tt
All-reverse P (c ∷ s) (h, hs) =
    rw reverse-cons (All-append P (reverse s) (c ∷ []) (All-reverse P s hs) (h, tt))

pub trim-NotSpace : (s : Text) → All NotSpace s → trim s ≡ s
unfolding trim
trim-NotSpace s h =
    rw (trim_start-NotSpace s h, trim_start-NotSpace (reverse s) (All-reverse NotSpace s h))
      (reverse-reverse s)

pub starts_with-append : (p s : Text) → starts_with (p ++ s) p ≡ true
unfolding starts_with
starts_with-append [] [] = refl
starts_with-append [] (c ∷ s) = refl
starts_with-append (c ∷ p) s = ground (arith, starts_with-append p s)

pub drop-length-append : (p s : Text) → drop (length p) (p ++ s) ≡ s
drop-length-append [] s = refl
drop-length-append (c ∷ p) s = drop-length-append p s

pub drop_trailing-none : (c : ℕ) (s : Text) → All (λ d. d ≢ c) s → drop_trailing c s ≡ s
unfolding drop_trailing
drop_trailing-none c [] _ = refl
drop_trailing-none c (d ∷ s) (h, hs) = ground (arith, drop_trailing-none c s hs)

drop_trailing-replicate : (c n : ℕ) → drop_trailing c (replicate n c) ≡ []
unfolding drop_trailing
drop_trailing-replicate c zero = refl
drop_trailing-replicate c (suc n) = ground (arith, drop_trailing-replicate c n)

pub drop_trailing-append :
    (c n : ℕ) (s : Text) → drop_trailing c (s ++ replicate n c) ≡ drop_trailing c s
unfolding drop_trailing
drop_trailing-append c n [] = drop_trailing-replicate c n
drop_trailing-append c n (d ∷ s) = rw (drop_trailing-append c n s)

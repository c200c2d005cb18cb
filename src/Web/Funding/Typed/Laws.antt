-- ===== src/Web/Funding/Typed/Laws.antt =====
-- What the normalisation of typed data changes: the numerals, and nothing else.
use zamapay.Prelude.{◌≡◌, refl, ap, false, Bool-cases, inl, inr, if◌then◌else◌}
use zamapay.Prelude.Text.{Text, all_digits}
use zamapay.Prelude.Decimal.{decimal, value}
use zamapay.Js.{
  Value, undefined, null, boolean, number, bigint, string, array, object, Values, nil, cons,
  Members, end, property, pos, negsuc,
}
use zamapay.Web.Funding.Typed.{of_text, normalize_typed_value, normalize_values, normalize_members}

-- No text of the value is a decimal numeral.
abbrev mutual
  pub HasNoNumerals : Value → Type 0
  HasNoNumerals (array vs) = NoNumerals vs
  HasNoNumerals (object ms) = NoNumeralMembers ms
  HasNoNumerals (string s) = all_digits s ≡ false
  HasNoNumerals _ = Unit

  NoNumerals : Values → Type 0
  NoNumerals nil = Unit
  NoNumerals (cons v vs) = HasNoNumerals v × NoNumerals vs

  NoNumeralMembers : Members → Type 0
  NoNumeralMembers end = Unit
  NoNumeralMembers (property k v ms) = HasNoNumerals v × NoNumeralMembers ms

abbrev printed_text : Text → Value
printed_text s = if all_digits s then string (decimal (value s)) else string s

-- The value with each big integer and each numeral as decimal text without leading zeros.
abbrev mutual
  pub printed : Value → Value
  printed (array vs) = array (printed_values vs)
  printed (object ms) = object (printed_members ms)
  printed (string s) = printed_text s
  printed (bigint (pos n)) = string (decimal n)
  printed (bigint (negsuc n)) = bigint (negsuc n)
  printed undefined = undefined
  printed null = null
  printed (boolean b) = boolean b
  printed (number n) = number n

  printed_values : Values → Values
  printed_values nil = nil
  printed_values (cons v vs) = cons (printed v) (printed_values vs)

  printed_members : Members → Members
  printed_members end = end
  printed_members (property k v ms) = property k (printed v) (printed_members ms)

of_text-HasNoNumerals : (s : Text) → HasNoNumerals (of_text s)
of_text-HasNoNumerals s = elim (Bool-cases (all_digits s)) [ inl e ↦ rw e tt | inr e ↦ rw e e ]

of_text-printed : (s : Text) → printed (of_text s) ≡ printed_text s
of_text-printed s = elim (Bool-cases (all_digits s)) [
  | inl e ↦ rw e refl
  | inr e ↦ rw e (rw e refl)
]

mutual
  unfolding normalize_typed_value

  value-HasNoNumerals : (v : Value) → HasNoNumerals (normalize_typed_value v)
  value-HasNoNumerals (array vs) = values-NoNumerals vs
  value-HasNoNumerals (object ms) = members-NoNumeralMembers ms
  value-HasNoNumerals (string s) = of_text-HasNoNumerals s
  value-HasNoNumerals undefined = tt
  value-HasNoNumerals null = tt
  value-HasNoNumerals (boolean b) = tt
  value-HasNoNumerals (number n) = tt
  value-HasNoNumerals (bigint z) = tt

  values-NoNumerals : (vs : Values) → NoNumerals (normalize_values vs)
  values-NoNumerals nil = tt
  values-NoNumerals (cons v vs) = (value-HasNoNumerals v, values-NoNumerals vs)

  members-NoNumeralMembers : (ms : Members) → NoNumeralMembers (normalize_members ms)
  members-NoNumeralMembers end = tt
  members-NoNumeralMembers (property k v ms) = (value-HasNoNumerals v, members-NoNumeralMembers ms)

mutual
  unfolding normalize_typed_value

  printed-value : (v : Value) → printed (normalize_typed_value v) ≡ printed v
  printed-value (array vs) = ap array (printed_values-normalize vs)
  printed-value (object ms) = ap object (printed_members-normalize ms)
  printed-value (string s) = of_text-printed s
  printed-value undefined = refl
  printed-value null = refl
  printed-value (boolean b) = refl
  printed-value (number n) = refl
  printed-value (bigint z) = refl

  printed_values-normalize :
      (vs : Values) → printed_values (normalize_values vs) ≡ printed_values vs
  printed_values-normalize nil = refl
  printed_values-normalize (cons v vs) = cc (printed-value v, printed_values-normalize vs)

  printed_members-normalize :
      (ms : Members) → printed_members (normalize_members ms) ≡ printed_members ms
  printed_members-normalize end = refl
  printed_members-normalize (property k v ms) = cc (printed-value v, printed_members-normalize ms)

-- A normalised value has no text that is a decimal numeral, and with its big integers and numerals
-- written as decimal text it is the value that was normalised, written so too.
pub normalize-printed :
    (v : Value)
    → HasNoNumerals (normalize_typed_value v) × (printed (normalize_typed_value v) ≡ printed v)
normalize-printed v = (value-HasNoNumerals v, printed-value v)

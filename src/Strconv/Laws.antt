-- ===== src/Strconv/Laws.antt =====
-- A number that is printed and read again.
use Prim.Native.Char.{Char, code}
use Prim.Native.String.{◌++◌}
use text.Mathlib.TextLemmas.{cons-append, nil-append}
use helboot.Prelude.{
  ℕ, zero, suc, ◌+◌, ◌-◌, ◌*◌, ◌/◌, ◌%◌, ◌<◌, String, ◌≡◌, refl, ap, sym, ◌∙◌, Bool, true, false,
  ◌&&◌, Option, none, some, arith, leb, ltb, ltb→lt, nat_eq, if◌then◌else◌, digit, digits, decimal,
  Bool-cases, inl, inr,
}
use helboot.Provider.Value.{ℤ, pos, negsuc}
use helboot.Strconv.{itoa, read_digits, unsigned, negative, nonnegative, atoi}

and_then : Option ℕ → (ℕ → Option ℕ) → Option ℕ
and_then none f = none
and_then (some n) f = f n

only_then :
    (b : Bool) (x y : Option ℕ) (f : ℕ → Option ℕ)
    → x ≡ and_then y f
    → (if b then x else none) ≡ and_then (if b then y else none) f
unfolding and_then
only_then true x y f e = e
only_then false x y f e = refl

read_digits-append :
    (acc : ℕ) (s t : String)
    → read_digits acc (s ++ t) ≡ and_then (read_digits acc s) (λ n. read_digits n t)
unfolding read_digits and_then
read_digits-append acc String.[] t = rw (nil-append t) refl
read_digits-append acc (String.◌∷◌ c s) t = rw (cons-append c s t) (
    only_then (leb b'0' (code c) && leb (code c) b'9') _ _ _
      (read_digits-append (acc * 10 + (code c - b'0')) s t))

read_digits-digit : (acc n : ℕ) → n < 10 → read_digits acc (digit n) ≡ some (acc * 10 + n)
unfolding read_digits digit
read_digits-digit acc zero h = ap some (omega arith)
read_digits-digit acc (suc zero) h = ap some (omega arith)
read_digits-digit acc (suc (suc zero)) h = ap some (omega arith)
read_digits-digit acc (suc (suc (suc zero))) h = ap some (omega arith)
read_digits-digit acc (suc (suc (suc (suc zero)))) h = ap some (omega arith)
read_digits-digit acc (suc (suc (suc (suc (suc zero))))) h = ap some (omega arith)
read_digits-digit acc (suc (suc (suc (suc (suc (suc zero)))))) h = ap some (omega arith)
read_digits-digit acc (suc (suc (suc (suc (suc (suc (suc zero))))))) h = ap some (omega arith)
read_digits-digit acc (suc (suc (suc (suc (suc (suc (suc (suc zero)))))))) h = ap some (omega arith)
read_digits-digit acc (suc (suc (suc (suc (suc (suc (suc (suc (suc zero))))))))) h =
    ap some (omega arith)
read_digits-digit acc (suc (suc (suc (suc (suc (suc (suc (suc (suc (suc n)))))))))) h =
    absurd (omega arith)

read_digits-digits : (fuel n : ℕ) → n < fuel → read_digits 0 (digits fuel n) ≡ some n
unfolding digits and_then
read_digits-digits zero n h = absurd (omega arith)
read_digits-digits (suc fuel) n h = elim (Bool-cases (ltb n 10)) [
  | inl e ↦ rw (e, digits) (read_digits-digit 0 n (ltb→lt n 10 e) ∙ ap some (omega arith))
  | inr e ↦
      rw (e, digits)
        (read_digits-append 0 (digits fuel (n / 10)) (digit (n % 10))
          ∙ ap (λ o. and_then o (λ m. read_digits m (digit (n % 10))))
              (read_digits-digits fuel (n / 10) (ground arith))
          ∙ read_digits-digit (n / 10) (n % 10) (omega arith)
          ∙ ap some (omega arith))
]

-- A text that begins with neither sign.
Numeral : String → Type 0
Numeral t =
    (c : Char) × (s : String) × (t ≡ String.◌∷◌ c s)
    × (nat_eq (code c) b'-' ≡ false)
    × (nat_eq (code c) b'+' ≡ false)

digit-Numeral : (n : ℕ) → Numeral (digit n)
unfolding digit Numeral
digit-Numeral zero = ("0", "", refl, refl, refl)
digit-Numeral (suc zero) = ("1", "", refl, refl, refl)
digit-Numeral (suc (suc zero)) = ("2", "", refl, refl, refl)
digit-Numeral (suc (suc (suc zero))) = ("3", "", refl, refl, refl)
digit-Numeral (suc (suc (suc (suc zero)))) = ("4", "", refl, refl, refl)
digit-Numeral (suc (suc (suc (suc (suc zero))))) = ("5", "", refl, refl, refl)
digit-Numeral (suc (suc (suc (suc (suc (suc zero)))))) = ("6", "", refl, refl, refl)
digit-Numeral (suc (suc (suc (suc (suc (suc (suc zero))))))) = ("7", "", refl, refl, refl)
digit-Numeral (suc (suc (suc (suc (suc (suc (suc (suc zero)))))))) = ("8", "", refl, refl, refl)
digit-Numeral (suc (suc (suc (suc (suc (suc (suc (suc (suc n))))))))) = ("9", "", refl, refl, refl)

Numeral-append : (s t : String) → Numeral s → Numeral (s ++ t)
unfolding Numeral
Numeral-append s t (c, u, e, m, p) = (c, u ++ t, ap (λ v. v ++ t) e ∙ cons-append c u t, m, p)

digits-Numeral : (fuel n : ℕ) → n < fuel → Numeral (digits fuel n)
unfolding digits
digits-Numeral zero n h = absurd (omega arith)
digits-Numeral (suc fuel) n h = elim (Bool-cases (ltb n 10)) [
  | inl e ↦ rw (e, digits) (digit-Numeral n)
  | inr e ↦
      rw (e, digits)
        (Numeral-append (digits fuel (n / 10)) (digit (n % 10))
          (digits-Numeral fuel (n / 10) (ground arith)))
]

decimal-Numeral : (n : ℕ) → Numeral (decimal n)
unfolding decimal
decimal-Numeral n = digits-Numeral (n + 1) n (omega arith)

read_digits-decimal : (n : ℕ) → read_digits 0 (decimal n) ≡ some n
unfolding decimal
read_digits-decimal n = read_digits-digits (n + 1) n (omega arith)

unsigned-Numeral : (t : String) → Numeral t → unsigned t ≡ read_digits 0 t
unfolding unsigned Numeral
unsigned-Numeral t (c, s, e, m, p) = ap unsigned e ∙ ap (read_digits 0) (sym e)

unsigned-decimal : (n : ℕ) → unsigned (decimal n) ≡ some n
unsigned-decimal n = unsigned-Numeral (decimal n) (decimal-Numeral n) ∙ read_digits-decimal n

atoi-Numeral : (t : String) → Numeral t → atoi t ≡ nonnegative (unsigned t)
unfolding atoi Numeral
atoi-Numeral t (c, s, e, m, p) = ap atoi e ∙ signless ∙ ap (λ u. nonnegative (unsigned u)) (sym e)
  where
    signless : atoi (String.◌∷◌ c s) ≡ nonnegative (unsigned (String.◌∷◌ c s))
    signless = rw (m, p) refl

negative_suc : (n : ℕ) → negative (some (n + 1)) ≡ some (negsuc n)
unfolding negative
negative_suc n = ground arith

minus : (t : String) → atoi (String.◌∷◌ "-" t) ≡ negative (unsigned t)
unfolding atoi
minus t = refl

-- Reading what was printed gives the number.
pub atoi-itoa : (n : ℤ) → atoi (itoa n) ≡ some n
unfolding itoa nonnegative
atoi-itoa (pos n) =
    atoi-Numeral (decimal n) (decimal-Numeral n) ∙ ap nonnegative (unsigned-decimal n)
atoi-itoa (negsuc n) =
    ap atoi
      (cons-append "-" "" (decimal (n + 1)) ∙ ap (String.◌∷◌ "-") (nil-append (decimal (n + 1))))
    ∙ minus (decimal (n + 1))
    ∙ ap negative (unsigned-decimal (n + 1))
    ∙ negative_suc n

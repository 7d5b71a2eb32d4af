-- ===== src/Plugin/Text.antt =====
-- What the plugin uses of Rust's strings: `split`, and a number's `to_string`.
use Prim.Native.Char.{Char, code}
use mayastor_extensions.Prelude.{
  ℕ, zero, suc, ◌+◌, ◌*◌, ◌-◌, ◌/◌, ◌%◌, ◌<◌, ◌≡◌, refl, sym, ap, ◌∙◌, String, List, [], ◌∷◌, arith,
  ◌==◌, ltb, if◌then◌else◌, Bool-cases, inl, inr,
}

cons_to_first : Char → List String → List String
cons_to_first c [] = String.◌∷◌ c "" ∷ []
cons_to_first c (part ∷ parts) = String.◌∷◌ c part ∷ parts

-- The parts of a text between the characters of this code: at least one.
unfoldable pub split : ℕ → String → List String
unfolding cons_to_first
split separator String.[] = "" ∷ []
split separator (String.◌∷◌ c text) =
    let rest = split separator text in
    if code c == separator then "" ∷ rest else cons_to_first c rest

digit : ℕ → Char
digit d =
    if d == 0
    then "0"
    else if d == 1
    then "1"
    else if d == 2
    then "2"
    else if d == 3
    then "3"
    else if d == 4
    then "4"
    else if d == 5
    then "5"
    else if d == 6
    then "6"
    else if d == 7
    then "7"
    else if d == 8
    then "8"
    else "9"

-- The digits of `n` in front of `text`, on fuel above `n`.
digits : ℕ → ℕ → String → String
unfolding digit
digits zero n text = text
digits (suc f) n text =
    let rest = digits f (n / 10) (String.◌∷◌ (digit (n % 10)) text) in
    if ltb n 10 then String.◌∷◌ (digit n) text else rest

unfoldable pub to_string : ℕ → String
unfolding digits
to_string n = digits (suc n) n ""

-- The number that digits stand for, after those of `a`.
value : ℕ → String → ℕ
value a String.[] = a
value a (String.◌∷◌ c text) = value (a * 10 + (code c - 48)) text

value-digit :
    (a d : ℕ) (text : String)
    → d < 10
    → value a (String.◌∷◌ (digit d) text) ≡ value (a * 10 + d) text
unfolding value digit
value-digit a zero text h = refl
value-digit a (suc zero) text h = refl
value-digit a (suc (suc zero)) text h = refl
value-digit a (suc (suc (suc zero))) text h = refl
value-digit a (suc (suc (suc (suc zero)))) text h = refl
value-digit a (suc (suc (suc (suc (suc zero))))) text h = refl
value-digit a (suc (suc (suc (suc (suc (suc zero)))))) text h = refl
value-digit a (suc (suc (suc (suc (suc (suc (suc zero))))))) text h = refl
value-digit a (suc (suc (suc (suc (suc (suc (suc (suc zero)))))))) text h = refl
value-digit a (suc (suc (suc (suc (suc (suc (suc (suc (suc zero))))))))) text h = refl
value-digit a (suc (suc (suc (suc (suc (suc (suc (suc (suc (suc d)))))))))) text h =
    absurd (omega (arith, h))

value-digits : (f n : ℕ) (text : String) → n < f → value 0 (digits f n text) ≡ value n text
unfolding digits
value-digits zero n text h = elim h [ ]
value-digits (suc f) n text h = elim (Bool-cases (ltb n 10)) [
  | inl small ↦
      rw small (value-digit 0 n text (ground arith) ∙ ap (λ k. value k text) (omega arith))
  | inr large ↦ rw large (
      value-digits f (n / 10) (String.◌∷◌ (digit (n % 10)) text) (ground arith)
      ∙ value-digit (n / 10) (n % 10) text (omega arith)
      ∙ ap (λ k. value k text) (omega arith))
]

-- Different numbers have different names.
pub to_string_inj : (a b : ℕ) → to_string a ≡ to_string b → a ≡ b
unfolding to_string value
to_string_inj a b h =
    sym (value-digits (suc a) a "" (omega arith))
    ∙ ap (value 0) h
    ∙ value-digits (suc b) b "" (omega arith)

-- `version.strip_prefix('v').unwrap_or(version)`
unfoldable pub strip_v_prefix : String → String
strip_v_prefix String.[] = ""
strip_v_prefix (String.◌∷◌ c rest) = if code c == 118 then rest else String.◌∷◌ c rest

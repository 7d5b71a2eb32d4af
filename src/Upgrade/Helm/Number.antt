-- ===== src/Upgrade/Helm/Number.antt =====
-- `str::parse::<i64>().is_ok()` of the standard library.
use Prim.Native.Char.{Char, code}
use Prim.Native.String.{[], ◌∷◌}
use mayastor_extensions.Prelude.{
  ℕ, ◌+◌, ◌*◌, ◌-◌, ◌^◌, String, Bool, false, ◌&&◌, leb, ◌==◌, Option, none, some, if◌then◌else◌,
}

digits : ℕ → String → Option ℕ
digits n [] = some n
digits n (c ∷ rest) =
    let k = code c in
    let more = digits (n * 10 + (k - 48)) rest in if leb 48 k && leb k 57 then more else none

at_most : ℕ → Option ℕ → Bool
at_most bound none = false
at_most bound (some n) = leb n bound

-- At least one digit, and the value in range.
in_range : ℕ → String → Bool
unfolding digits at_most
in_range bound [] = false
in_range bound (c ∷ rest) = at_most bound (digits 0 (c ∷ rest))

signed : Char → String → Bool
unfolding in_range
signed c rest =
    if code c == 45
    then in_range (2 ^ 63) rest
    else if code c == 43
    then in_range (2 ^ 63 - 1) rest
    else in_range (2 ^ 63 - 1) (c ∷ rest)

unfoldable pub is_i64 : String → Bool
unfolding signed
is_i64 [] = false
is_i64 (c ∷ rest) = signed c rest

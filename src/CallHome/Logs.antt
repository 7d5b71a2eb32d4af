-- ===== src/CallHome/Logs.antt =====
-- `log_with_limit` of call-home/src/bin/callhome/main.rs: the error log of the report. `VecDeque` is a
-- list, its front first.
use mayastor_extensions.Prelude.{
  ℕ, zero, suc, ◌-◌, ◌≤◌, ◌<◌, ◌≡◌, ap, ◌∙◌, List, [], ◌∷◌, ◌++◌, arith, length, length-append, leb,
  if◌then◌else◌, Bool-cases, inl, inr, leb→le,
}

-- `pop_front()`
abbrev pop_front {ℓ} : {A : Type ℓ} → List A → List A
pop_front [] = []
pop_front (x ∷ xs) = xs

-- The loop, for so many rounds: with a limit of 0 it would not end.
unfoldable shrink {ℓ} : {A : Type ℓ} → ℕ → ℕ → List A → List A
shrink zero limit logs = logs
shrink (suc n) limit logs =
    let rest = shrink n limit (pop_front logs) in if leb limit (length logs) then rest else logs

unfoldable pub log_with_limit {ℓ} : {A : Type ℓ} → List A → A → ℕ → List A
unfolding shrink
log_with_limit logs message limit = shrink (suc (length logs)) limit logs ++ message ∷ []

-- The last so many of a list.
abbrev pub drop {ℓ} : {A : Type ℓ} → ℕ → List A → List A
drop zero xs = xs
drop (suc n) [] = []
drop (suc n) (x ∷ xs) = drop n xs

drop-at {ℓ} : {A : Type ℓ} (m n : ℕ) (xs : List A) → m ≡ n → drop m xs ≡ drop n xs
drop-at m n xs e = ap (λ m. drop m xs) e

shrink-drop {ℓ} :
    {A : Type ℓ} (n limit : ℕ) (logs : List A)
    → 0 < limit
    → length logs ≤ n
    → shrink n limit logs ≡ drop (suc (length logs) - limit) logs
unfolding shrink
shrink-drop zero limit [] pos le = drop-at 0 (1 - limit) [] (omega (arith, pos))
shrink-drop zero limit (x ∷ xs) pos le = absurd (omega (arith, le))
shrink-drop {A = A} (suc n) limit [] pos le = ground (
  arith,
  pos,
  drop-at {A = A} 0 (1 - limit) [] (omega (arith, pos)),
  shrink-drop {A = A} n limit [] pos (omega arith),
)
shrink-drop (suc n) limit (x ∷ xs) pos le = elim (Bool-cases (leb limit (suc (length xs)))) [
  | inl e ↦ rw e (
      shrink-drop n limit xs pos (omega (arith, le))
      ∙ drop-at (suc (suc (length xs) - limit)) (suc (suc (length xs)) - limit) (x ∷ xs)
          (omega (arith, leb→le limit (suc (length xs)) e)))
  | inr e ↦ rw e (drop-at 0 (suc (suc (length xs)) - limit) (x ∷ xs) (ground arith))
]

drop-length {ℓ} : {A : Type ℓ} (m : ℕ) (xs : List A) → length (drop m xs) ≡ length xs - m
drop-length zero xs = omega arith
drop-length (suc m) [] = omega arith
drop-length (suc m) (x ∷ xs) = omega (arith, drop-length m xs)

-- With a limit above 0, the loop ends, and what is left are the newest entries, in order: all that
-- fit beside the new one, which comes last. There are at most `limit` of them.
pub log_with_limit-newest {ℓ} :
    {A : Type ℓ} (logs : List A) (message : A) (limit : ℕ)
    → 0 < limit
    → let result = log_with_limit logs message limit in
      (result ≡ drop (suc (length logs) - limit) logs ++ message ∷ []) × (length result ≤ limit)
unfolding log_with_limit
log_with_limit-newest logs message limit pos =
    let e = shrink-drop (suc (length logs)) limit logs pos (omega arith) in
    (
      ap (λ l. l ++ message ∷ []) e,
      rw e (
          omega (
            arith,
            pos,
            length-append (drop (suc (length logs) - limit) logs) (message ∷ []),
            drop-length (suc (length logs) - limit) logs,
          )),
    )

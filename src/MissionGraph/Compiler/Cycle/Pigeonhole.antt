-- ===== src/MissionGraph/Compiler/Cycle/Pigeonhole.antt =====
-- Lists of identifiers that are counted: a list that holds each identifier at most as often as
-- another is no longer than it, and holds all of it where it is as long.
use chanter_operator.Prelude.{
  ◌+◌, ◌≤◌, ◌<◌, ◌≡◌, suc, String, List, [], ◌∷◌, ◌==◌, arith, if◌then◌else◌, length, Bool-cases,
  inl, inr, eq_iff,
}
use chanter_operator.MissionGraph.Compiler.Cycle.Counts.{count}
use text.Mathlib.TextPositions.{eq_refl}

-- The list less the first copy.
abbrev remove : String → List String → List String
remove x [] = []
remove x (y ∷ ys) = if y == x then ys else y ∷ remove x ys

length-remove :
    (x : String) (ys : List String) → 0 < count x ys → suc (length (remove x ys)) ≡ length ys
length-remove x [] h = absurd (omega arith)
length-remove x (y ∷ ys) h = ground (arith, h, length-remove x ys)

count-remove :
    (s x : String) (ys : List String)
    → 0 < count x ys
    → count s ys ≡ count s (remove x ys) + (if x == s then 1 else 0)
count-remove s x [] h = absurd (omega arith)
count-remove s x (y ∷ ys) h = elim (Bool-cases (y == x)) [
  | inl same ↦ rw (same, (eq_iff y x).0 same) (omega arith)
  | inr other ↦ ground (arith, h, other, count-remove s x ys)
]

pub count-head : (x : String) (xs : List String) → 0 < count x (x ∷ xs)
count-head x xs = rw (eq_refl x) (omega arith)

rest-fits :
    (x : String) (xs ys : List String)
    → ((s : String) → count s (x ∷ xs) ≤ count s ys)
    → (s : String) → count s xs ≤ count s (remove x ys)
rest-fits x xs ys h s = ground (arith, h s, h x, count-head x xs, count-remove s x ys)

pub length_le :
    (xs ys : List String) → ((s : String) → count s xs ≤ count s ys) → length xs ≤ length ys
length_le [] ys h = omega arith
length_le (x ∷ xs) ys h = ground (
  arith,
  h x,
  count-head x xs,
  length-remove x ys,
  length_le xs (remove x ys) (rest-fits x xs ys h),
)

pub count_all :
    (xs ys : List String)
    → ((s : String) → count s xs ≤ count s ys)
    → length ys ≤ length xs
    → (s : String) → count s ys ≤ count s xs
count_all [] [] h long s = omega arith
count_all [] (y ∷ ys) h long s = absurd (omega arith)
count_all (x ∷ xs) ys h long s = ground (
  arith,
  h x,
  count-head x xs,
  length-remove x ys,
  count-remove s x ys,
  count_all xs (remove x ys) (rest-fits x xs ys h)
      (ground (arith, h x, count-head x xs, length-remove x ys, long)) s,
)

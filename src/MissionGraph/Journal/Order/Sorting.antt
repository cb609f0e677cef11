-- ===== src/MissionGraph/Journal/Order/Sorting.antt =====
-- The order of the listing queries of apps/backend/src/missions/missionGraphJournal.ts loses and
-- adds nothing.
use chanter_operator.Prelude.{
  ◌≡◌, refl, Bool, true, ◌||◌, ◌&&◌, List, [], ◌∷◌, arith, any, All, keep, Bool-cases, inl, inr,
}
use chanter_operator.MissionGraph.Journal.Order.{insert_by, sort_by}

module _ {A : Type 0} where
  pub All-insert_by :
      (P : A → Type 0) (before : A → A → Bool) (x : A) (ys : List A)
      → P x
      → All P ys
      → All P (insert_by before x ys)
  All-insert_by P before x [] h hs = (h, tt)
  All-insert_by P before x (y ∷ ys) h hs = elim (Bool-cases (before x y)) [
    | inl first ↦ rw first (h, hs)
    | inr later ↦ rw later (hs.0, All-insert_by P before x ys h hs.1)
  ]

  pub All-sort_by :
      (P : A → Type 0) (before : A → A → Bool) (xs : List A) → All P xs → All P (sort_by before xs)
  All-sort_by P before [] hs = tt
  All-sort_by P before (x ∷ xs) hs =
      All-insert_by P before x (sort_by before xs) hs.0 (All-sort_by P before xs hs.1)

  pub any-insert_by :
      (p : A → Bool) (before : A → A → Bool) (x : A) (ys : List A)
      → any p (insert_by before x ys) ≡ (p x || any p ys)
  any-insert_by p before x [] = refl
  any-insert_by p before x (y ∷ ys) = ground (arith, any-insert_by p before x ys)

  pub any-sort_by :
      (p : A → Bool) (before : A → A → Bool) (xs : List A) → any p (sort_by before xs) ≡ any p xs
  any-sort_by p before [] = refl
  any-sort_by p before (x ∷ xs) =
      ground (arith, any-insert_by p before x (sort_by before xs), any-sort_by p before xs)

  pub any-keep : (p q : A → Bool) (xs : List A) → any p (keep q xs) ≡ any (λ x. q x && p x) xs
  any-keep p q [] = refl
  any-keep p q (x ∷ xs) = ground (arith, any-keep p q xs)

  pub kept-holds : (q : A → Bool) (xs : List A) → All (λ x. q x ≡ true) (keep q xs)
  kept-holds q [] = tt
  kept-holds q (x ∷ xs) = elim (Bool-cases (q x)) [
    | inl holds ↦ rw holds (holds, kept-holds q xs)
    | inr fails ↦ rw fails (kept-holds q xs)
  ]

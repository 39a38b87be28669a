-- ===== src/Base/Texts.antt =====
-- `std::string` as the list of its characters: tests, and maps and sets with texts as keys.
use multi_process_server.Base.Tests.{◌==◌, ==_iff, if◌then◌else◌, Bool-cases, if_then, if_else}
use Prim.Native.Nat.{ℕ}
use mathlib.Core.Path.{◌≡◌, refl, ap, sym, ◌∙◌}
use mathlib.Core.Logic.{inl, inr, ◌⊎◌}
use mathlib.Core.Bool.{Bool, true, false, ◌&&◌}
use mathlib.Core.List.{List, [], ◌∷◌}
use mathlib.Core.Option.{Option, none, some}

abbrev pub is_empty_text : List ℕ → Bool
is_empty_text [] = true
is_empty_text (_ ∷ _) = false

abbrev pub same_text : List ℕ → List ℕ → Bool
same_text [] [] = true
same_text [] (_ ∷ _) = false
same_text (_ ∷ _) [] = false
same_text (x ∷ xs) (y ∷ ys) = x == y && same_text xs ys

both_true : (a b : Bool) → (a && b) ≡ true → (a ≡ true) × (b ≡ true)
both_true true b e = (refl, e)
both_true false b e = cc

pub same_text-eq : (xs ys : List ℕ) → same_text xs ys ≡ true → xs ≡ ys
same_text-eq [] [] e = refl
same_text-eq [] (y ∷ ys) e = cc
same_text-eq (x ∷ xs) [] e = cc
same_text-eq (x ∷ xs) (y ∷ ys) e =
    let (front, behind) = both_true (x == y) (same_text xs ys) e in
    λ i. (==_iff x y).0 front i ∷ same_text-eq xs ys behind i

pub same_text_self : (xs : List ℕ) → same_text xs xs ≡ true
same_text_self [] = refl
same_text_self (x ∷ xs) = rw ((==_iff x x).1 refl, same_text_self xs)

-- Equal or not, as a test says it.
pub same_text-cases : (xs ys : List ℕ) → (xs ≡ ys) ⊎ (same_text xs ys ≡ false)
same_text-cases xs ys = elim (Bool-cases (same_text xs ys)) [
  | inl e ↦ inl (same_text-eq xs ys e)
  | inr e ↦ inr e
]

module _ {ℓ} {V : Type ℓ} where
  -- `find` of a map with texts as keys, in any order.
  unfoldable pub find_text : List ℕ → List (List ℕ × V) → Option V
  find_text k [] = none
  find_text k ((j, v) ∷ m) = let rest = find_text k m in if same_text j k then some v else rest

  -- `m[k] = v`.
  unfoldable pub insert_text : List ℕ → V → List (List ℕ × V) → List (List ℕ × V)
  insert_text k v [] = (k, v) ∷ []
  insert_text k v ((j, w) ∷ m) =
      let rest = insert_text k v m in if same_text j k then (k, v) ∷ m else (j, w) ∷ rest

  -- `erase(k)`.
  unfoldable pub erase_text : List ℕ → List (List ℕ × V) → List (List ℕ × V)
  erase_text k [] = []
  erase_text k ((j, w) ∷ m) =
      let rest = erase_text k m in if same_text j k then rest else (j, w) ∷ rest

  pub find_text-insert_text_self :
      (k : List ℕ) (v : V) (m : List (List ℕ × V)) → find_text k (insert_text k v m) ≡ some v
  unfolding find_text insert_text
  find_text-insert_text_self k v [] = if_then (same_text k k) _ _ (same_text_self k)
  find_text-insert_text_self k v ((j, w) ∷ m) = elim (Bool-cases (same_text j k)) [
    | inl e ↦ rw e (if_then (same_text k k) _ _ (same_text_self k))
    | inr e ↦ rw (e, e) (find_text-insert_text_self k v m)
  ]

  pub find_text-insert_text_other :
      (k j : List ℕ) (v : V) (m : List (List ℕ × V))
      → same_text k j ≡ false
      → find_text j (insert_text k v m) ≡ find_text j m
  unfolding find_text insert_text
  find_text-insert_text_other k j v [] h = if_else (same_text k j) _ _ h
  find_text-insert_text_other k j v ((i, w) ∷ m) h = elim (Bool-cases (same_text i k)) [
    | inl e ↦
        let same : same_text i j ≡ same_text k j = ap (λ xs. same_text xs j) (same_text-eq i k e) in
        rw e (if_else (same_text k j) _ _ h ∙ sym (if_else (same_text i j) _ _ (same ∙ h)))
    | inr e ↦ rw (e, find_text-insert_text_other k j v m h)
  ]

  pub find_text-erase_text_self :
      (k : List ℕ) (m : List (List ℕ × V)) → find_text k (erase_text k m) ≡ none
  unfolding find_text erase_text
  find_text-erase_text_self k [] = refl
  find_text-erase_text_self k ((j, w) ∷ m) = elim (Bool-cases (same_text j k)) [
    | inl e ↦ rw e (find_text-erase_text_self k m)
    | inr e ↦ rw (e, e) (find_text-erase_text_self k m)
  ]

  pub find_text-erase_text_other :
      (k j : List ℕ) (m : List (List ℕ × V))
      → same_text k j ≡ false
      → find_text j (erase_text k m) ≡ find_text j m
  unfolding find_text erase_text
  find_text-erase_text_other k j [] h = refl
  find_text-erase_text_other k j ((i, w) ∷ m) h = elim (Bool-cases (same_text i k)) [
    | inl e ↦
        let same : same_text i j ≡ same_text k j = ap (λ xs. same_text xs j) (same_text-eq i k e) in
        rw e (find_text-erase_text_other k j m h ∙ sym (if_else (same_text i j) _ _ (same ∙ h)))
    | inr e ↦ rw (e, find_text-erase_text_other k j m h)
  ]

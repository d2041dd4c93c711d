-- ===== src/Http/Curl/Pool/Index.antt =====
-- How many connections the index of the pool of curl.cpp has, and what holds of each of its lists.
use azure_sdk_for_cpp.Base.{
  ℕ, ◌+◌, ◌≡◌, List, [], ◌∷◌, Option, none, some, length, Bytes, eqb, eqb_iff, before,
  before_irrefl, arith, Bool-cases, inl, inr,
}
use azure_sdk_for_cpp.Dict.{find, assign, erase, IsSorted}
use azure_sdk_for_cpp.Dict.Laws.{find-After, After-trans}

abbrev Index {ℓ} : Type ℓ → Type ℓ
Index A = List (Bytes × List A)

module _ {ℓ} {A : Type ℓ} where
  unfoldable pub size : Index A → ℕ
  size [] = 0
  size ((k, cs) ∷ m) = length cs + size m

  abbrev pub count_of : Option (List A) → ℕ
  count_of none = 0
  count_of (some cs) = length cs

  -- What holds of each list, which may depend on its key.
  unfoldable pub Every : (Bytes → List A → Type 0) → Index A → Type 0
  Every P [] = Unit
  Every P ((k, cs) ∷ m) = P k cs × Every P m

  pub size-assign :
      (k : Bytes) (cs : List A) (m : Index A)
      → IsSorted m
      → size (assign k cs m) + count_of (find k m) ≡ size m + length cs
  unfolding size assign find
  size-assign k cs [] s = omega arith
  size-assign k cs ((j, ds) ∷ m) s = ground (
    arith,
    eqb_iff j k,
    before_irrefl k,
    find-After j m s.0,
    find-After k m,
    After-trans k j m,
    size-assign k cs m s.1,
  )

  pub size-erase : (k : Bytes) (m : Index A) → size (erase k m) + count_of (find k m) ≡ size m
  unfolding size erase find
  size-erase k [] = omega arith
  size-erase k ((j, ds) ∷ m) = ground (arith, size-erase k m)

  pub Every-find :
      (P : Bytes → List A → Type 0) (k : Bytes) (cs : List A) (m : Index A)
      → Every P m
      → find k m ≡ some cs
      → P k cs
  unfolding Every find
  Every-find P k cs [] e f = absurd cc
  Every-find P k cs ((j, ds) ∷ m) (p, e) f = ground (arith, eqb_iff j k, Every-find P k cs m e)

  pub Every-assign :
      (P : Bytes → List A → Type 0) (k : Bytes) (cs : List A) (m : Index A)
      → Every P m
      → P k cs
      → Every P (assign k cs m)
  unfolding Every assign
  Every-assign P k cs [] e p = (p, tt)
  Every-assign P k cs ((j, ds) ∷ m) (q, e) p = elim (Bool-cases (before k j)) [
    | inl b ↦ rw b (p, (q, e))
    | inr b ↦ elim (Bool-cases (eqb j k)) [
      | inl f ↦ rw (b, f) (p, e)
      | inr f ↦ rw (b, f) (q, Every-assign P k cs m e p)
    ]
  ]

  pub Every-erase :
      (P : Bytes → List A → Type 0) (k : Bytes) (m : Index A) → Every P m → Every P (erase k m)
  unfolding Every erase
  Every-erase P k [] e = tt
  Every-erase P k ((j, ds) ∷ m) (q, e) = elim (Bool-cases (eqb j k)) [
    | inl f ↦ rw f e
    | inr f ↦ rw f (q, Every-erase P k m e)
  ]

  pub Every-map :
      (P Q : Bytes → List A → Type 0) (m : Index A)
      → ((k : Bytes) (cs : List A) → P k cs → Q k cs)
      → Every P m
      → Every Q m
  unfolding Every
  Every-map P Q [] f e = tt
  Every-map P Q ((j, ds) ∷ m) f (q, e) = (f j ds q, Every-map P Q m f e)

-- ===== src/Dict/Laws.antt =====
-- What the operations of a map keep, and what a search finds after each of them.
use azure_sdk_for_cpp.Base.{
  ◌≡◌, refl, true, List, [], ◌∷◌, Option, none, some, arith, if◌then◌else◌, Bytes, eqb, eqb_iff,
  before, before_trans, before_irrefl, before_total,
}
use azure_sdk_for_cpp.Dict.{find, assign, insert, erase, insert_all, After, IsSorted}

abbrev pub or_else {ℓ} : {A : Type ℓ} → Option A → Option A → Option A
or_else none o = o
or_else (some a) o = some a

module _ {ℓ} {V : Type ℓ} where
  pub find-assign :
      (k i : Bytes) (v : V) (m : List (Bytes × V))
      → find i (assign k v m) ≡ (if eqb k i then some v else find i m)
  unfolding find assign
  find-assign k i v [] = refl
  find-assign k i v ((j, w) ∷ m) =
      ground (arith, eqb_iff k i, eqb_iff j k, eqb_iff j i, find-assign k i v m)

  -- A key that comes before all the others is not there.
  pub find-After : (k : Bytes) (m : List (Bytes × V)) → After k m → find k m ≡ none
  unfolding find
  find-After k [] a = refl
  find-After k ((j, w) ∷ m) a = ground (arith, eqb_iff j k, before_irrefl k, find-After k m a.1)

  pub After-trans : (i k : Bytes) (m : List (Bytes × V)) → before i k ≡ true → After k m → After i m
  After-trans i k [] h a = tt
  After-trans i k ((j, w) ∷ m) h a = (before_trans i k j h a.0, After-trans i k m h a.1)

  After-assign :
      (i k : Bytes) (v : V) (m : List (Bytes × V))
      → before i k ≡ true
      → After i m
      → After i (assign k v m)
  unfolding assign
  After-assign i k v [] h a = (h, tt)
  After-assign i k v ((j, w) ∷ m) h a = ground (arith, After-assign i k v m h a.1)

  pub assign-IsSorted :
      (k : Bytes) (v : V) (m : List (Bytes × V)) → IsSorted m → IsSorted (assign k v m)
  unfolding assign
  assign-IsSorted k v [] s = (tt, tt)
  assign-IsSorted k v ((j, w) ∷ m) s = ground (
    arith,
    eqb_iff j k,
    before_total k j,
    After-trans k j m,
    After-assign j k v m,
    assign-IsSorted k v m s.1,
    eqb_iff k j,
  )

  pub find-insert :
      (k i : Bytes) (v : V) (m : List (Bytes × V))
      → IsSorted m
      → find i (insert k v m) ≡ (if eqb k i then or_else (find k m) (some v) else find i m)
  unfolding find insert
  find-insert k i v [] s = refl
  find-insert k i v ((j, w) ∷ m) s = ground (
    arith,
    eqb_iff k i,
    eqb_iff j k,
    eqb_iff j i,
    find-insert k i v m s.1,
    find-After k m,
    After-trans k j m,
    before_irrefl k,
  )

  After-insert :
      (i k : Bytes) (v : V) (m : List (Bytes × V))
      → before i k ≡ true
      → After i m
      → After i (insert k v m)
  unfolding insert
  After-insert i k v [] h a = (h, tt)
  After-insert i k v ((j, w) ∷ m) h a = ground (arith, After-insert i k v m h a.1)

  pub insert-IsSorted :
      (k : Bytes) (v : V) (m : List (Bytes × V)) → IsSorted m → IsSorted (insert k v m)
  unfolding insert
  insert-IsSorted k v [] s = (tt, tt)
  insert-IsSorted k v ((j, w) ∷ m) s = ground (
    arith,
    eqb_iff j k,
    before_total k j,
    After-trans k j m,
    After-insert j k v m,
    insert-IsSorted k v m s.1,
    eqb_iff k j,
  )

  pub find-erase :
      (k i : Bytes) (m : List (Bytes × V))
      → IsSorted m
      → find i (erase k m) ≡ (if eqb k i then none else find i m)
  unfolding find erase
  find-erase k i [] s = ground arith
  find-erase k i ((j, w) ∷ m) s =
      ground
        (arith, eqb_iff k i, eqb_iff j k, eqb_iff j i, find-erase k i m s.1, find-After j m s.0)

  After-erase : (i k : Bytes) (m : List (Bytes × V)) → After i m → After i (erase k m)
  unfolding erase
  After-erase i k [] a = tt
  After-erase i k ((j, w) ∷ m) a = ground (arith, After-erase i k m a.1)

  pub erase-IsSorted : (k : Bytes) (m : List (Bytes × V)) → IsSorted m → IsSorted (erase k m)
  unfolding erase
  erase-IsSorted k [] s = tt
  erase-IsSorted k ((j, w) ∷ m) s = ground (arith, After-erase j k m s.0, erase-IsSorted k m s.1)

  -- What the left map has, and where it has nothing, what the right one has.
  pub find-insert_all :
      (i : Bytes) (left right : List (Bytes × V))
      → IsSorted left
      → find i (insert_all left right) ≡ or_else (find i left) (find i right)
  unfolding insert_all find
  find-insert_all i left [] s = ground arith
  find-insert_all i left ((k, v) ∷ right) s = ground (
    arith,
    find-insert_all i (insert k v left) right (insert-IsSorted k v left s),
    find-insert k i v left s,
    eqb_iff k i,
  )

  pub insert_all-IsSorted :
      (left right : List (Bytes × V)) → IsSorted left → IsSorted (insert_all left right)
  unfolding insert_all
  insert_all-IsSorted left [] s = s
  insert_all-IsSorted left ((k, v) ∷ right) s =
      insert_all-IsSorted (insert k v left) right (insert-IsSorted k v left s)

-- ===== src/Dict.antt =====
-- `std::map<std::string, V>`: an association list in the order of its keys.
pub mod Laws
use azure_sdk_for_cpp.Base.{
  ◌≡◌, true, List, [], ◌∷◌, Option, none, some, if◌then◌else◌, Bytes, eqb, before,
}

module _ {ℓ} {V : Type ℓ} where
  -- `find`: a linear search has the result of the search in the tree.
  unfoldable pub find : Bytes → List (Bytes × V) → Option V
  find k [] = none
  find k ((j, w) ∷ m) = let rest = find k m in if eqb j k then some w else rest

  -- `m[k] = v`
  unfoldable pub assign : Bytes → V → List (Bytes × V) → List (Bytes × V)
  assign k v [] = (k, v) ∷ []
  assign k v ((j, w) ∷ m) =
      let rest = assign k v m in
      if before k j then (k, v) ∷ (j, w) ∷ m else if eqb j k then (k, v) ∷ m else (j, w) ∷ rest

  -- `insert`, which leaves a key that is there as it is.
  unfoldable pub insert : Bytes → V → List (Bytes × V) → List (Bytes × V)
  insert k v [] = (k, v) ∷ []
  insert k v ((j, w) ∷ m) =
      let rest = insert k v m in
      if before k j then (k, v) ∷ (j, w) ∷ m else if eqb j k then (j, w) ∷ m else (j, w) ∷ rest

  unfoldable pub erase : Bytes → List (Bytes × V) → List (Bytes × V)
  erase k [] = []
  erase k ((j, w) ∷ m) = let rest = erase k m in if eqb j k then m else (j, w) ∷ rest

  -- `left.insert(right.begin(), right.end())`
  unfoldable pub insert_all : List (Bytes × V) → List (Bytes × V) → List (Bytes × V)
  unfolding insert
  insert_all left [] = left
  insert_all left ((k, v) ∷ right) = insert_all (insert k v left) right

  -- Every key of the map comes after `k`.
  abbrev pub After : Bytes → List (Bytes × V) → Type 0
  After k [] = Unit {0}
  After k ((j, w) ∷ m) = (before k j ≡ true) × After k m

  -- The keys rise.
  abbrev pub IsSorted : List (Bytes × V) → Type 0
  IsSorted [] = Unit {0}
  IsSorted ((k, v) ∷ m) = After k m × IsSorted m

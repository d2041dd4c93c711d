-- ===== src/Context.antt =====
-- sdk/core/azure-core/inc/azure/core/context.hpp and src/context.cpp. The shared states of the contexts are a
-- heap, the newest first; a pointer is the number of the states that were made before the one it points
-- to. Times are whole milliseconds from the earliest one on that a time point can hold.
pub mod Chain
mod Tests
use azure_sdk_for_cpp.Base.{
  ℕ, zero, suc, Bool, true, false, List, [], ◌∷◌, Option, none, some, ltb, ◌==◌, if◌then◌else◌,
  length, Bytes, is_empty, eqb, Result, ok, err,
}

-- `ContextSharedState`, with `none` for a value that is undefined.
pub record ContextSharedState (V : Type 0) : Type 0 where
  pub parent : Option ℕ
  pub cancel_at : ℕ
  pub key : Bytes
  pub value : Option V

pub data ContextError : Type 0 where
  operation_canceled : ContextError

-- `time_point::min()`
abbrev pub earliest : ℕ
earliest = 0

abbrev pub sooner : ℕ → ℕ → ℕ
sooner result cancel_at = if ltb cancel_at result then cancel_at else result

module _ {V : Type 0} where
  unfoldable pub cancel : List (ContextSharedState V) → ℕ → List (ContextSharedState V)
  cancel [] c = []
  cancel (s ∷ h) c =
      let rest = cancel h c in
      if c == length h then record s { cancel_at = earliest } ∷ h else s ∷ rest

  -- The loop of `CancelWhen`. The parent of a state is older than it.
  unfoldable pub cancel_when_loop : List (ContextSharedState V) → Option ℕ → ℕ → ℕ
  cancel_when_loop [] ptr result = result
  cancel_when_loop (s ∷ h) none result = result
  cancel_when_loop (s ∷ h) (some c) result =
      let next = cancel_when_loop h s.parent (sooner result s.cancel_at) in
      let older = cancel_when_loop h (some c) result in if c == length h then next else older

  -- The loop of `operator[]` and of `HasKey`: the first state of the chain that has the key.
  unfoldable pub find_key : List (ContextSharedState V) → Option ℕ → Bytes → Option (Option V)
  find_key [] ptr key = none
  find_key (s ∷ h) none key = none
  find_key (s ∷ h) (some c) key =
      let next = find_key h s.parent key in
      let older = find_key h (some c) key in
      if c == length h then (if eqb s.key key then some s.value else next) else older

  abbrev pub value_or_empty : Option (Option V) → Option V
  value_or_empty none = none
  value_or_empty (some v) = v

  -- `operator[]`
  unfoldable pub get_value : List (ContextSharedState V) → ℕ → Bytes → Option V
  get_value h c key = if is_empty key then none else value_or_empty (find_key h (some c) key)

  abbrev pub is_found : Option (Option V) → Bool
  is_found none = false
  is_found (some v) = true

  unfoldable pub has_key : List (ContextSharedState V) → ℕ → Bytes → Bool
  has_key h c key = if is_empty key then false else is_found (find_key h (some c) key)

  -- `latest` is `time_point::max()`.
  module _ (latest : ℕ) where
    unfoldable pub new_context : List (ContextSharedState V) → List (ContextSharedState V) × ℕ
    new_context h =
        (record { parent = none; cancel_at = latest; key = []; value = none } ∷ h, length h)

    unfoldable pub with_value :
        List (ContextSharedState V) → ℕ → Bytes → Option V → List (ContextSharedState V) × ℕ
    with_value h c key value =
        (record { parent = some c; cancel_at = latest; key = key; value = value } ∷ h, length h)

    unfoldable pub cancel_when : List (ContextSharedState V) → ℕ → ℕ
    cancel_when h c = cancel_when_loop h (some c) latest

    unfoldable pub is_canceled : ℕ → List (ContextSharedState V) → ℕ → Bool
    is_canceled now h c = ltb (cancel_when h c) now

    unfoldable pub throw_if_canceled :
        ℕ → List (ContextSharedState V) → ℕ → Result ContextError (Unit {0})
    throw_if_canceled now h c = if is_canceled now h c then err operation_canceled else ok tt

  unfoldable pub with_deadline :
      List (ContextSharedState V) → ℕ → ℕ → List (ContextSharedState V) × ℕ
  with_deadline h c cancel_when =
      (record { parent = some c; cancel_at = cancel_when; key = []; value = none } ∷ h, length h)

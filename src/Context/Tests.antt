-- ===== src/Context/Tests.antt =====
-- The theorems on contexts, at a root with a child that has a deadline and a grandchild that has a value.
use azure_sdk_for_cpp.Base.{ℕ, ◌≡◌, refl, List, [], some, none, if◌then◌else◌, codes, ok, err}
use azure_sdk_for_cpp.Context.{
  ContextSharedState, operation_canceled, earliest, cancel, cancel_when_loop, find_key, get_value,
  with_value, with_deadline, new_context, cancel_when, is_canceled, throw_if_canceled,
}
use azure_sdk_for_cpp.Context.Chain.{descends, cancel_when-cancel}

-- The values are numbers.
abbrev root : List (ContextSharedState ℕ)
root = (new_context 1000 []).0

abbrev with_child : List (ContextSharedState ℕ)
with_child = (with_deadline root 0 500).0

abbrev with_grandchild : List (ContextSharedState ℕ)
with_grandchild = (with_value 1000 with_child 1 (codes "k") (some 7)).0

-- The grandchild ends with the deadline of its parent, and with the root when that is canceled.
in_time : throw_if_canceled 1000 500 with_grandchild 2 ≡ ok tt
unfolding throw_if_canceled is_canceled cancel_when cancel_when_loop with_value with_deadline
    new_context
in_time = refl

too_late : throw_if_canceled 1000 501 with_grandchild 2 ≡ err operation_canceled
unfolding throw_if_canceled is_canceled cancel_when cancel_when_loop with_value with_deadline
    new_context
too_late = refl

root_canceled : throw_if_canceled 1000 1 (cancel with_grandchild 0) 2 ≡ err operation_canceled
unfolding throw_if_canceled is_canceled cancel_when cancel_when_loop with_value with_deadline
    new_context cancel
root_canceled = refl

cancel_when-cancel_example :
    cancel_when 1000 (cancel with_grandchild 1) 2
    ≡ (if descends with_grandchild (some 2) 1 then earliest else cancel_when 1000 with_grandchild 2)
cancel_when-cancel_example = cancel_when-cancel 1000 with_grandchild 1 2

-- The value of the grandchild is found, and not in its parent.
found : get_value with_grandchild 2 (codes "k") ≡ some 7
unfolding get_value find_key with_value with_deadline new_context
found = refl

not_found : get_value with_grandchild 1 (codes "k") ≡ none
unfolding get_value find_key with_value with_deadline new_context
not_found = refl

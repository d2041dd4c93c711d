-- ===== src/Context/Chain.antt =====
-- The deadlines and the values of contexts by the chain of their parents, of context.hpp and context.cpp.
use azure_sdk_for_cpp.Base.{
  ℕ, suc, min, ◌<◌, ◌≤◌, ◌≡◌, refl, ap, Bool, true, false, List, [], ◌∷◌, Option, none, some, ◌==◌,
  if◌then◌else◌, length, Bytes, is_empty, eqb, arith, Bool-cases, inl, inr,
}
use azure_sdk_for_cpp.Context.{
  ContextSharedState, earliest, cancel, sooner, cancel_when_loop, find_key, get_value, with_value,
  with_deadline, cancel_when,
}

module _ {V : Type 0} where
  -- Whether the context that is pointed to is `c` or descends from it.
  unfoldable pub descends : List (ContextSharedState V) → Option ℕ → ℕ → Bool
  descends [] ptr c = false
  descends (s ∷ h) none c = false
  descends (s ∷ h) (some d) c =
      let next = descends h s.parent c in
      let older = descends h (some d) c in
      if d == length h then (if d == c then true else next) else older

  length-cancel : (h : List (ContextSharedState V)) (c : ℕ) → length (cancel h c) ≡ length h
  unfolding cancel
  length-cancel [] c = refl
  length-cancel (s ∷ h) c = elim (Bool-cases (c == length h)) [
    | inl e ↦ rw e refl
    | inr e ↦ rw e (ap suc (length-cancel h c))
  ]

  cancel_when_loop-earliest :
      (h : List (ContextSharedState V)) (ptr : Option ℕ)
      → cancel_when_loop h ptr earliest ≡ earliest
  unfolding cancel_when_loop
  cancel_when_loop-earliest [] ptr = refl
  cancel_when_loop-earliest (s ∷ h) none = refl
  cancel_when_loop-earliest (s ∷ h) (some c) =
      let e : sooner earliest s.cancel_at ≡ earliest = ground arith in
      elim (Bool-cases (c == length h)) [
        | inl f ↦ rw (f, e) (cancel_when_loop-earliest h s.parent)
        | inr f ↦ rw f (cancel_when_loop-earliest h (some c))
      ]

  -- A bound on the result so far is one on the result.
  cancel_when_loop-min :
      (h : List (ContextSharedState V)) (ptr : Option ℕ) (a b : ℕ)
      → cancel_when_loop h ptr (min a b) ≡ min a (cancel_when_loop h ptr b)
  unfolding cancel_when_loop
  cancel_when_loop-min [] ptr a b = refl
  cancel_when_loop-min (s ∷ h) none a b = refl
  cancel_when_loop-min (s ∷ h) (some c) a b =
      let e : sooner (min a b) s.cancel_at ≡ min a (sooner b s.cancel_at) = ground arith in
      elim (Bool-cases (c == length h)) [
        | inl f ↦ rw (f, e) (cancel_when_loop-min h s.parent a (sooner b s.cancel_at))
        | inr f ↦ rw f (cancel_when_loop-min h (some c) a b)
      ]

  descends_beyond :
      (h : List (ContextSharedState V)) (ptr : Option ℕ) (c : ℕ)
      → length h ≤ c
      → descends h ptr c ≡ false
  unfolding descends
  descends_beyond [] ptr c le = refl
  descends_beyond (s ∷ h) none c le = refl
  descends_beyond (s ∷ h) (some d) c le = elim (Bool-cases (d == length h)) [
    | inl f ↦
        let g : (d == c) ≡ false = ground arith in
        rw (f, g) (descends_beyond h s.parent c (omega arith))
    | inr f ↦ rw f (descends_beyond h (some d) c (omega arith))
  ]

  cancel_when_loop-cancel :
      (h : List (ContextSharedState V)) (ptr : Option ℕ) (c result : ℕ)
      → cancel_when_loop (cancel h c) ptr result
        ≡ (if descends h ptr c then earliest else cancel_when_loop h ptr result)
  unfolding cancel cancel_when_loop descends
  cancel_when_loop-cancel [] ptr c result = refl
  cancel_when_loop-cancel (s ∷ h) none c result = elim (Bool-cases (c == length h)) [
    | inl e ↦ rw e refl
    | inr e ↦ rw e refl
  ]
  cancel_when_loop-cancel (s ∷ h) (some d) c result = elim (Bool-cases (c == length h)) [
    | inl e ↦ elim (Bool-cases (d == length h)) [
      | inl f ↦
          let same : (d == c) ≡ true = ground arith in
          let now : sooner result earliest ≡ earliest = ground arith in
          rw (e, f, same, now) (cancel_when_loop-earliest h s.parent)
      | inr f ↦ rw (e, f, descends_beyond h (some d) c (ground arith)) refl
    ]
    | inr e ↦ elim (Bool-cases (d == length h)) [
      | inl f ↦
          let other : (d == c) ≡ false = ground arith in
          rw (e, length-cancel h c, f, other)
            (cancel_when_loop-cancel h s.parent c (sooner result s.cancel_at))
      | inr f ↦ rw (e, length-cancel h c, f) (cancel_when_loop-cancel h (some d) c result)
    ]
  ]

  -- Canceling a context sets the deadline of the context itself and of every context that descends from it
  -- to the earliest time, and leaves the deadlines of all others.
  pub cancel_when-cancel :
      (latest : ℕ) (h : List (ContextSharedState V)) (c d : ℕ)
      → cancel_when latest (cancel h c) d
        ≡ (if descends h (some d) c then earliest else cancel_when latest h d)
  unfolding cancel_when
  cancel_when-cancel latest h c d = cancel_when_loop-cancel h (some d) c latest

  -- A state that a pointer inside of the heap does not reach does not matter.
  cancel_when_loop-older :
      (s : ContextSharedState V) (h : List (ContextSharedState V)) (c result : ℕ)
      → c < length h
      → cancel_when_loop (s ∷ h) (some c) result ≡ cancel_when_loop h (some c) result
  unfolding cancel_when_loop
  cancel_when_loop-older s h c result lt =
      let e : (c == length h) ≡ false = ground arith in rw e refl

  find_key-older :
      (s : ContextSharedState V) (h : List (ContextSharedState V)) (c : ℕ) (key : Bytes)
      → c < length h
      → find_key (s ∷ h) (some c) key ≡ find_key h (some c) key
  unfolding find_key
  find_key-older s h c key lt = let e : (c == length h) ≡ false = ground arith in rw e refl

  -- A child with a deadline is canceled at the earlier one of its own and of that of its parent, and the
  -- deadlines of the contexts that were there are as they were.
  pub cancel_when-with_deadline :
      (latest : ℕ) (h : List (ContextSharedState V)) (c d deadline : ℕ)
      → d < length h
      → deadline ≤ latest
      → (let (h', child) = with_deadline h c deadline in
          (cancel_when latest h' child ≡ min deadline (cancel_when latest h c))
          × (cancel_when latest h' d ≡ cancel_when latest h d))
  unfolding cancel_when with_deadline cancel_when_loop
  cancel_when-with_deadline latest h c d deadline lt le =
      let here : sooner latest deadline ≡ min deadline latest = ground arith in
      let self : (length h == length h) ≡ true = ground arith in
      (
        rw (cancel_when_loop, self, here) (cancel_when_loop-min h (some c) deadline latest),
        cancel_when_loop-older
            (record { parent = some c; cancel_at = deadline; key = []; value = none }) h d latest
            lt,
      )

  -- A child with a value has it under its key, which is not empty, and under every other key what its
  -- parent has; and the contexts that were there have the values that they had.
  pub get_value-with_value :
      (latest : ℕ) (h : List (ContextSharedState V)) (c d : ℕ) (key other : Bytes)
      (value : Option V)
      → d < length h
      → is_empty other ≡ false
      → (let (h', child) = with_value latest h c key value in
          (get_value h' child other ≡ (if eqb key other then value else get_value h c other))
          × (get_value h' d other ≡ get_value h d other))
  unfolding get_value with_value find_key
  get_value-with_value latest h c d key other value lt some_key =
      let self : (length h == length h) ≡ true = ground arith in
      (
        elim (Bool-cases (eqb key other)) [
          | inl e ↦ rw (some_key, find_key, self, e) refl
          | inr e ↦ rw (some_key, find_key, self, e) refl
        ],
        rw (some_key, find_key-older _ h d other lt) refl,
      )

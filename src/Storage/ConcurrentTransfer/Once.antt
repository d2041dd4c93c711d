-- ===== src/Storage/ConcurrentTransfer/Once.antt =====
-- When the threads of concurrent_transfer.hpp have ended without a failure, every chunk was transferred.
use azure_sdk_for_cpp.Base.{
  ◌-◌, ℕ, zero, suc, ◌+◌, ◌≡◌, refl, ◌∙◌, ◌≤◌, ◌<◌, ◌⊎◌, inl, inr, Bool, true, false, ◌||◌, List,
  [], ◌∷◌, leb, arith, Bool-cases,
}
use azure_sdk_for_cpp.Storage.ConcurrentTransfer.{
  Phase, fetching, testing, transferring, handling, leaving, throwing, returned, thrown, Shared,
  step_thread, step, run, async_threads, threads, start,
}
use azure_sdk_for_cpp.Storage.ConcurrentTransfer.Threads.{
  working, holding, sum, count, below, sum-holding-threads,
}

-- As long as no transfer has failed, a chunk that was fetched is called for or held, and a thread
-- leaves only when all the chunks were fetched.
abbrev Settled : ℕ → Shared → Phase → Type 0
Settled chunks sh leaving = (sh.failed ≡ true) ⊎ (chunks < sh.next_chunk_id)
Settled chunks sh returned = (sh.failed ≡ true) ⊎ (chunks < sh.next_chunk_id)
Settled chunks sh thrown = sh.failed ≡ true
Settled chunks sh throwing = sh.failed ≡ true
Settled chunks sh (testing c) = c < sh.next_chunk_id
Settled chunks sh (transferring c) = Unit {0}
Settled chunks sh fetching = Unit {0}
Settled chunks sh handling = Unit {0}

abbrev AllSettled : ℕ → Shared → List Phase → Type 0
AllSettled chunks sh [] = Unit {0}
AllSettled chunks sh (p ∷ ps) = Settled chunks sh p × AllSettled chunks sh ps

-- The variables only move on.
abbrev Later : Shared → Shared → Type 0
Later sh sh' = (sh.next_chunk_id ≤ sh'.next_chunk_id) × (sh.failed ≡ true → sh'.failed ≡ true)

Settled-Later :
    (chunks : ℕ) (sh sh' : Shared) (p : Phase)
    → Later sh sh'
    → Settled chunks sh p
    → Settled chunks sh' p
Settled-Later chunks sh sh' leaving (l, f) (inl e) = inl (f e)
Settled-Later chunks sh sh' leaving (l, f) (inr e) = inr (omega arith)
Settled-Later chunks sh sh' returned (l, f) (inl e) = inl (f e)
Settled-Later chunks sh sh' returned (l, f) (inr e) = inr (omega arith)
Settled-Later chunks sh sh' thrown (l, f) s = f s
Settled-Later chunks sh sh' throwing (l, f) s = f s
Settled-Later chunks sh sh' (testing c) (l, f) s = omega arith
Settled-Later chunks sh sh' (transferring c) l s = tt
Settled-Later chunks sh sh' fetching l s = tt
Settled-Later chunks sh sh' handling l s = tt

AllSettled-Later :
    (chunks : ℕ) (sh sh' : Shared) (ps : List Phase)
    → Later sh sh'
    → AllSettled chunks sh ps
    → AllSettled chunks sh' ps
AllSettled-Later chunks sh sh' [] l s = tt
AllSettled-Later chunks sh sh' (p ∷ ps) l (s, ss) =
    (Settled-Later chunks sh sh' p l s, AllSettled-Later chunks sh sh' ps l ss)

step_thread-Later :
    (chunks : ℕ) (throws : Bool) (sh : Shared) (p : Phase)
    → Later sh (step_thread chunks throws sh p).0
unfolding step_thread
step_thread-Later chunks throws sh fetching = (omega arith, λ e. e)
step_thread-Later chunks throws sh (testing c) = elim (Bool-cases (leb chunks c || sh.failed)) [
  | inl e ↦ rw e (omega arith, λ f. f)
  | inr e ↦ rw e (omega arith, λ f. f)
]
step_thread-Later chunks throws sh (transferring c) = (omega arith, λ e. e)
step_thread-Later chunks throws sh handling = (omega arith, λ e. refl)
step_thread-Later chunks throws sh leaving = (omega arith, λ e. e)
step_thread-Later chunks throws sh throwing = (omega arith, λ e. e)
step_thread-Later chunks throws sh returned = (omega arith, λ e. e)
step_thread-Later chunks throws sh thrown = (omega arith, λ e. e)

step_thread-Settled :
    (chunks : ℕ) (throws : Bool) (sh : Shared) (p : Phase)
    → Settled chunks sh p
    → Settled chunks (step_thread chunks throws sh p).0 (step_thread chunks throws sh p).1
unfolding step_thread
step_thread-Settled chunks throws sh fetching s = omega arith
step_thread-Settled chunks throws sh (testing c) s = elim (Bool-cases (leb chunks c || sh.failed)) [
  | inl e ↦ rw e (ground arith)
  | inr e ↦ rw e tt
]
step_thread-Settled chunks true sh (transferring c) s = tt
step_thread-Settled chunks false sh (transferring c) s = tt
step_thread-Settled chunks throws sh handling s = elim (Bool-cases sh.failed) [
  | inl e ↦ rw e tt
  | inr e ↦ rw e refl
]
step_thread-Settled chunks throws sh leaving s = s
step_thread-Settled chunks throws sh throwing s = s
step_thread-Settled chunks throws sh returned s = s
step_thread-Settled chunks throws sh thrown s = s

step-Later :
    (chunks i : ℕ) (throws : Bool) (sh : Shared) (ps : List Phase)
    → Later sh (step chunks i throws sh ps).0
unfolding step
step-Later chunks i throws sh [] = (omega arith, λ e. e)
step-Later chunks zero throws sh (p ∷ ps) = step_thread-Later chunks throws sh p
step-Later chunks (suc i) throws sh (p ∷ ps) = step-Later chunks i throws sh ps

step-AllSettled :
    (chunks i : ℕ) (throws : Bool) (sh : Shared) (ps : List Phase)
    → AllSettled chunks sh ps
    → AllSettled chunks (step chunks i throws sh ps).0 (step chunks i throws sh ps).1
unfolding step
step-AllSettled chunks i throws sh [] s = tt
step-AllSettled chunks zero throws sh (p ∷ ps) (s, ss) = (
  step_thread-Settled chunks throws sh p s,
  AllSettled-Later chunks sh (step_thread chunks throws sh p).0 ps
      (step_thread-Later chunks throws sh p) ss,
)
step-AllSettled chunks (suc i) throws sh (p ∷ ps) (s, ss) = (
  Settled-Later chunks sh (step chunks i throws sh ps).0 p (step-Later chunks i throws sh ps) s,
  step-AllSettled chunks i throws sh ps ss,
)

step-count-equal :
    (chunks i c : ℕ) (throws : Bool) (sh : Shared) (ps : List Phase) (others : ℕ)
    → c < chunks
    → sh.failed ≡ false
    → count c sh.called + (sum (holding c) ps + others) ≡ below c sh.next_chunk_id
    → count c (step chunks i throws sh ps).0.called
        + (sum (holding c) (step chunks i throws sh ps).1 + others)
      ≡ below c (step chunks i throws sh ps).0.next_chunk_id
unfolding step step_thread
step-count-equal chunks i c throws sh [] others l f e = e
step-count-equal chunks zero c throws sh (fetching ∷ ps) others l f e = ground arith
step-count-equal chunks zero c throws sh (testing k ∷ ps) others l f e = ground arith
step-count-equal chunks zero c throws sh (transferring k ∷ ps) others l f e = ground arith
step-count-equal chunks zero c throws sh (handling ∷ ps) others l f e = ground arith
step-count-equal chunks zero c throws sh (leaving ∷ ps) others l f e = e
step-count-equal chunks zero c throws sh (throwing ∷ ps) others l f e = e
step-count-equal chunks zero c throws sh (returned ∷ ps) others l f e = e
step-count-equal chunks zero c throws sh (thrown ∷ ps) others l f e = e
step-count-equal chunks (suc i) c throws sh (p ∷ ps) others l f e =
    omega (arith, step-count-equal chunks i c throws sh ps (holding c p + others) l f (omega arith))

-- What holds in every state that is reached.
abbrev Inv : ℕ → ℕ → Shared → List Phase → Type 0
Inv chunks c sh ps =
    AllSettled chunks sh ps
    × (sh.failed ≡ false → count c sh.called + sum (holding c) ps ≡ below c sh.next_chunk_id)

step-Inv :
    (chunks i c : ℕ) (throws : Bool) (sh : Shared) (ps : List Phase)
    → c < chunks
    → Inv chunks c sh ps
    → Inv chunks c (step chunks i throws sh ps).0 (step chunks i throws sh ps).1
step-Inv chunks i c throws sh ps l (s, k) =
    let later = step-Later chunks i throws sh ps in
    (
      step-AllSettled chunks i throws sh ps s,
      λ f. elim (Bool-cases sh.failed) [
        | inl e ↦ let e' = later.1 e in absurd cc
        | inr e ↦
            let e' = k e in
            omega (arith, step-count-equal chunks i c throws sh ps 0 l e (omega arith))
      ],
    )

abbrev has_thread : List Phase → Bool
has_thread [] = false
has_thread (p ∷ ps) = true

step-has_thread :
    (chunks i : ℕ) (throws : Bool) (sh : Shared) (ps : List Phase)
    → has_thread (step chunks i throws sh ps).1 ≡ has_thread ps
unfolding step
step-has_thread chunks i throws sh [] = refl
step-has_thread chunks zero throws sh (p ∷ ps) = refl
step-has_thread chunks (suc i) throws sh (p ∷ ps) = refl

no_holding : (c : ℕ) (ps : List Phase) → sum working ps ≡ 0 → sum (holding c) ps ≡ 0
no_holding c [] e = refl
no_holding c (fetching ∷ ps) e = absurd (omega arith)
no_holding c (testing i ∷ ps) e = absurd (omega arith)
no_holding c (transferring i ∷ ps) e = absurd (omega arith)
no_holding c (handling ∷ ps) e = absurd (omega arith)
no_holding c (leaving ∷ ps) e = absurd (omega arith)
no_holding c (throwing ∷ ps) e = absurd (omega arith)
no_holding c (returned ∷ ps) e = omega (arith, no_holding c ps (omega arith))
no_holding c (thrown ∷ ps) e = omega (arith, no_holding c ps (omega arith))

-- The first thread has ended after all the chunks were fetched.
all_fetched :
    (chunks : ℕ) (sh : Shared) (ps : List Phase)
    → has_thread ps ≡ true
    → sum working ps ≡ 0
    → sh.failed ≡ false
    → AllSettled chunks sh ps
    → chunks < sh.next_chunk_id
all_fetched chunks sh [] h e f s = absurd cc
all_fetched chunks sh (fetching ∷ ps) h e f s = absurd (omega arith)
all_fetched chunks sh (testing i ∷ ps) h e f s = absurd (omega arith)
all_fetched chunks sh (transferring i ∷ ps) h e f s = absurd (omega arith)
all_fetched chunks sh (handling ∷ ps) h e f s = absurd (omega arith)
all_fetched chunks sh (leaving ∷ ps) h e f s = absurd (omega arith)
all_fetched chunks sh (throwing ∷ ps) h e f s = absurd (omega arith)
all_fetched chunks sh (returned ∷ ps) h e f (inl t, s) = absurd cc
all_fetched chunks sh (returned ∷ ps) h e f (inr t, s) = t
all_fetched chunks sh (thrown ∷ ps) h e f (t, s) = absurd cc

run-Inv :
    (chunks c : ℕ) (schedule : List (ℕ × Bool)) (sh : Shared) (ps : List Phase)
    → c < chunks
    → has_thread ps ≡ true
    → Inv chunks c sh ps
    → sum working (run chunks schedule (sh, ps)).1 ≡ 0
    → (run chunks schedule (sh, ps)).0.failed ≡ false
    → count c (run chunks schedule (sh, ps)).0.called ≡ 1
unfolding run
run-Inv chunks c [] sh ps l h (s, k) e f =
    let m = all_fetched chunks sh ps h e f s in
    let z = no_holding c ps e in let q = k f in ground arith
run-Inv chunks c ((i, throws) ∷ schedule) sh ps l h inv e f =
    run-Inv chunks c schedule (step chunks i throws sh ps).0 (step chunks i throws sh ps).1 l
      (step-has_thread chunks i throws sh ps ∙ h) (step-Inv chunks i c throws sh ps l inv) e f

threads-AllSettled : (chunks n : ℕ) (sh : Shared) → AllSettled chunks sh (async_threads n)
threads-AllSettled chunks zero sh = tt
threads-AllSettled chunks (suc n) sh = (tt, threads-AllSettled chunks n sh)

-- However the steps of at least one thread are interleaved, when all the threads have ended and no
-- failure is noted, every chunk was transferred, and once.
pub run-exactly_once :
    (chunks others c : ℕ) (schedule : List (ℕ × Bool))
    → c < chunks
    → sum working (run chunks schedule (start (suc others))).1 ≡ 0
    → (run chunks schedule (start (suc others))).0.failed ≡ false
    → count c (run chunks schedule (start (suc others))).0.called ≡ 1
unfolding start
run-exactly_once chunks others c schedule l e f =
    run-Inv chunks c schedule (start (suc others)).0 (threads (suc others)) l refl
      (
        (tt, threads-AllSettled chunks (suc others - 1) (start (suc others)).0),
        λ g. let z = sum-holding-threads c (suc others) in ground arith,
      )
      e f

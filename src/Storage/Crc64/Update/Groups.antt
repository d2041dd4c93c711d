-- ===== src/Storage/Crc64/Update/Groups.antt =====
-- The groups of 32 bytes, whose four words take four lanes.
use azure_sdk_for_cpp.Base.{
  ℕ, zero, suc, ◌+◌, ◌-◌, ◌*◌, ◌/◌, ◌^◌, ◌<◌, ◌≤◌, ◌≡◌, refl, sym, ap, ◌∙◌, ◌++◌, Bytes, AreBytes,
  length, take, drop, arith, length-take, length-drop, drop-drop,
}
use azure_sdk_for_cpp.Storage.Crc64.Xor.{◌⊕◌, zero-xor, xor_assoc, xor-lt}
use azure_sdk_for_cpp.Storage.Crc64.Step.{steps, steps-xor, steps-add, steps-lt}
use azure_sdk_for_cpp.Storage.Crc64.Update.{
  word_at, lane, Lanes, lanes_round, lanes_rounds, last_group, update_groups,
}
use azure_sdk_for_cpp.Storage.Crc64.Update.Reference.{
  crc_bytes, crc_bytes-word, crc_bytes-append, crc_bytes-start, shift_bytes-steps, lane-steps,
  word-lt,
}
use azure_sdk_for_cpp.Storage.Crc64.Update.Combine.{
  take_add, take-AreBytes, drop-AreBytes, combine, combine-xor, steps-combine, combine-zero,
}

unfoldable combine_words : Bytes → ℕ
combine_words ds = combine (word_at 0 ds) (word_at 1 ds) (word_at 2 ds) (word_at 3 ds)

unfoldable combine_lanes : Lanes → ℕ
combine_lanes l = combine l.crc0 l.crc1 l.crc2 l.crc3

last_group-combine : (ds : Bytes) (l : Lanes) → last_group ds l ≡ combine_words ds ⊕ combine_lanes l
unfolding last_group combine_words combine_lanes combine
last_group-combine ds l =
    simp (shift_bytes-steps, zero-xor)
      (combine-xor (word_at 0 ds) (word_at 1 ds) (word_at 2 ds) (word_at 3 ds) l.crc0 l.crc1 l.crc2
        l.crc3)

take-crc_word :
    (i : ℕ) (ds : Bytes) (u : ℕ)
    → AreBytes ds
    → 8 * i + 8 ≤ length ds
    → crc_bytes (take 8 (drop (8 * i) ds)) u ≡ steps 64 (u ⊕ word_at i ds)
unfolding word_at
take-crc_word i ds u h le =
    let bytes = take-AreBytes 8 (drop (8 * i) ds) (drop-AreBytes (8 * i) ds h) in
    let e : 8 * length (take 8 (drop (8 * i) ds)) ≡ 64 =
      omega (arith, length-take 8 (drop (8 * i) ds), length-drop (8 * i) ds) in
    crc_bytes-word (take 8 (drop (8 * i) ds)) u bytes ∙ ap (λ n. steps n (u ⊕ word_at i ds)) e

-- The reference on one group.
take-crc_bytes :
    (ds : Bytes) → AreBytes ds → 32 ≤ length ds → crc_bytes (take 32 ds) 0 ≡ combine_words ds
unfolding combine_words combine
take-crc_bytes ds h le =
    rw
      (
        take_add 24 8 ds,
        take_add 16 8 ds,
        take_add 8 8 ds,
        crc_bytes-append ((take 8 ds ++ take 8 (drop 8 ds)) ++ take 8 (drop 16 ds))
            (take 8 (drop 24 ds)) 0,
        crc_bytes-append (take 8 ds ++ take 8 (drop 8 ds)) (take 8 (drop 16 ds)) 0,
        crc_bytes-append (take 8 ds) (take 8 (drop 8 ds)) 0,
        take-crc_word 0 ds 0 h (omega arith),
        zero-xor (word_at 0 ds),
        take-crc_word 1 ds (steps 64 (word_at 0 ds)) h (omega arith),
      )
      (take-crc_word 3 ds _ h (omega arith)
        ∙ ap (λ t. steps 64 (t ⊕ word_at 3 ds)) (take-crc_word 2 ds _ h (omega arith)))

FitLanes : Lanes → Type 0
FitLanes l = (l.crc0 < 2 ^ 64) × (l.crc1 < 2 ^ 64) × (l.crc2 < 2 ^ 64) × (l.crc3 < 2 ^ 64)

word_at-lt : (i : ℕ) (ds : Bytes) → AreBytes ds → word_at i ds < 2 ^ 64
unfolding word_at
word_at-lt i ds h =
    word-lt 8 (take 8 (drop (8 * i) ds))
      (take-AreBytes 8 (drop (8 * i) ds) (drop-AreBytes (8 * i) ds h))
      (omega (arith, length-take 8 (drop (8 * i) ds)))

lane-lt :
    (i : ℕ) (ds : Bytes) (c : ℕ)
    → AreBytes ds
    → c < 2 ^ 64
    → lane (word_at i ds ⊕ c) ≡ steps 256 (word_at i ds ⊕ c)
lane-lt i ds c h p =
    lane-steps (word_at i ds ⊕ c) (xor-lt 64 (word_at i ds) c (word_at-lt i ds h) p)

-- A round moves each lane over the whole group.
combine_lanes-lanes_round :
    (ds : Bytes) (l : Lanes)
    → AreBytes ds
    → FitLanes l
    → combine_lanes (lanes_round ds l) ≡ steps 256 (combine_words ds ⊕ combine_lanes l)
unfolding combine_lanes lanes_round combine_words FitLanes
combine_lanes-lanes_round ds l h f =
    rw
      (
        lane-lt 0 ds l.crc0 h f.0,
        lane-lt 1 ds l.crc1 h f.1,
        lane-lt 2 ds l.crc2 h f.2,
        lane-lt 3 ds l.crc3 h f.3,
        steps-combine 256 (word_at 0 ds ⊕ l.crc0) (word_at 1 ds ⊕ l.crc1) (word_at 2 ds ⊕ l.crc2)
            (word_at 3 ds ⊕ l.crc3),
      )
      (ap (steps 256) (
        combine-xor (word_at 0 ds) (word_at 1 ds) (word_at 2 ds) (word_at 3 ds) l.crc0 l.crc1 l.crc2
          l.crc3))

lanes_round-FitLanes :
    (ds : Bytes) (l : Lanes) → AreBytes ds → FitLanes l → FitLanes (lanes_round ds l)
unfolding FitLanes lanes_round
lanes_round-FitLanes ds l h f =
    (fits 0 l.crc0 f.0, fits 1 l.crc1 f.1, fits 2 l.crc2 f.2, fits 3 l.crc3 f.3)
  where
    fits : (i c : ℕ) → c < 2 ^ 64 → lane (word_at i ds ⊕ c) < 2 ^ 64
    fits i c p =
        rw (lane-lt i ds c h p) (steps-lt 256 _ (xor-lt 64 (word_at i ds) c (word_at-lt i ds h) p))

-- The reference on the groups after one.
crc_bytes-more :
    (n : ℕ) (ds : Bytes)
    → AreBytes ds
    → 32 * n + 64 ≤ length ds
    → crc_bytes (take (32 + (32 * n + 32)) ds) 0
      ≡ crc_bytes (take (32 * n + 32) (drop 32 ds)) 0 ⊕ steps (256 + 256 * n) (combine_words ds)
crc_bytes-more n ds h le =
    let rest = take (32 * n + 32) (drop 32 ds) in
    let bytes = take-AreBytes (32 * n + 32) (drop 32 ds) (drop-AreBytes 32 ds h) in
    let e : 8 * length rest ≡ 256 + 256 * n =
      omega (arith, length-take (32 * n + 32) (drop 32 ds), length-drop 32 ds) in
    rw
      (
        take_add 32 (32 * n + 32) ds,
        crc_bytes-append (take 32 ds) rest 0,
        take-crc_bytes ds h (omega arith),
      )
      (crc_bytes-start rest (combine_words ds) bytes
        ∙ ap (λ m. crc_bytes rest 0 ⊕ steps m (combine_words ds)) e)

steps-combine_lanes :
    (n : ℕ) (ds : Bytes) (l : Lanes)
    → AreBytes ds
    → FitLanes l
    → steps (256 * n) (combine_lanes (lanes_round ds l))
      ≡ steps (256 + 256 * n) (combine_words ds) ⊕ steps (256 + 256 * n) (combine_lanes l)
steps-combine_lanes n ds l h f =
    ap (steps (256 * n)) (combine_lanes-lanes_round ds l h f)
    ∙ sym (steps-add 256 (256 * n) (combine_words ds ⊕ combine_lanes l))
    ∙ steps-xor (256 + 256 * n) (combine_words ds) (combine_lanes l)

-- The rounds and the last group are the reference on all groups.
last_group-lanes_rounds :
    (n : ℕ) (ds : Bytes) (l : Lanes)
    → AreBytes ds
    → FitLanes l
    → 32 * n + 32 ≤ length ds
    → last_group (drop (32 * n) ds) (lanes_rounds n ds l)
      ≡ crc_bytes (take (32 * n + 32) ds) 0 ⊕ steps (256 * n) (combine_lanes l)
unfolding lanes_rounds steps
last_group-lanes_rounds zero ds l h f le =
    last_group-combine ds l
    ∙ ap (λ t. t ⊕ combine_lanes l) (sym (take-crc_bytes ds h (omega arith)))
last_group-lanes_rounds (suc n) ds l h f le =
    let e : 32 * suc n ≡ 32 + 32 * n = omega arith in
    let e₂ : 32 * suc n + 32 ≡ 32 + (32 * n + 32) = omega arith in
    let e₃ : 256 * suc n ≡ 256 + 256 * n = omega arith in
    let many : 32 * n + 32 ≤ length (drop 32 ds) = omega (arith, length-drop 32 ds) in
    let bytes = drop-AreBytes 32 ds h in
    ap (λ m. last_group (drop m ds) (lanes_rounds n (drop 32 ds) (lanes_round ds l))) e
    ∙ ap (λ xs. last_group xs (lanes_rounds n (drop 32 ds) (lanes_round ds l)))
        (sym (drop-drop 32 (32 * n) ds))
    ∙ last_group-lanes_rounds n (drop 32 ds) (lanes_round ds l) bytes
        (lanes_round-FitLanes ds l h f) many
    ∙ ap (λ t. crc_bytes (take (32 * n + 32) (drop 32 ds)) 0 ⊕ t) (steps-combine_lanes n ds l h f)
    ∙ sym (xor_assoc _ _ _)
    ∙ ap (λ t. t ⊕ steps (256 + 256 * n) (combine_lanes l))
        (sym (crc_bytes-more n ds h (omega arith)))
    ∙ rw (e₂, e₃) refl

pub update_groups-crc_bytes :
    (n : ℕ) (ds : Bytes) (u : ℕ)
    → AreBytes ds
    → u < 2 ^ 64
    → 32 * n + 32 ≤ length ds
    → update_groups (32 * n + 32) ds u ≡ crc_bytes (take (32 * n + 32) ds) u
unfolding update_groups FitLanes combine_lanes
update_groups-crc_bytes n ds u h p le =
    let groups = take (32 * n + 32) ds in
    let e : 32 * n + 32 - 32 ≡ 32 * n = omega arith in
    let e₂ : 32 * n / 32 ≡ n = omega arith in
    let e₃ : 256 + 256 * n ≡ 8 * length groups = omega (arith, length-take (32 * n + 32) ds) in
    let start : Lanes = record { crc0 = u; crc1 = 0; crc2 = 0; crc3 = 0 } in
    let fits : (u < 2 ^ 64) × (0 < 2 ^ 64) × (0 < 2 ^ 64) × (0 < 2 ^ 64) =
      (p, omega arith, omega arith, omega arith) in
    rw (e, e₂)
      (last_group-lanes_rounds n ds start h fits le
        ∙ ap (λ t. crc_bytes groups 0 ⊕ steps (256 * n) t) (combine-zero u)
        ∙ ap (λ t. crc_bytes groups 0 ⊕ t)
            (sym (steps-add 256 (256 * n) u) ∙ ap (λ m. steps m u) e₃)
        ∙ sym (crc_bytes-start groups u (take-AreBytes (32 * n + 32) ds h)))

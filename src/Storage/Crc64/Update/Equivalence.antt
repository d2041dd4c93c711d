-- ===== src/Storage/Crc64/Update/Equivalence.antt =====
-- `Crc64::Update` in groups of 32 bytes and the loop digit by digit.
use azure_sdk_for_cpp.Base.{
  ℕ, ◌+◌, ◌-◌, ◌*◌, ◌/◌, ◌%◌, ◌^◌, ◌<◌, ◌≤◌, ◌≡◌, refl, sym, ap, ap₂, ◌∙◌, ◌++◌, Bytes, AreBytes,
  true, [], ◌∷◌, leb, Bool-cases, inl, inr, length, take, drop, arith, length-append,
  take-append-drop,
}
use azure_sdk_for_cpp.Storage.Crc64.Xor.{◌⊕◌, xor_twice, xor-lt}
use azure_sdk_for_cpp.Storage.Crc64.Step.{steps, steps-lt}
use azure_sdk_for_cpp.Storage.Crc64.Update.{
  Crc64, ones, update, update_crc, update_groups, update_bytes,
}
use azure_sdk_for_cpp.Storage.Crc64.Update.Reference.{
  crc_bytes, crc_bytes-append, update_bytes-crc_bytes,
}
use azure_sdk_for_cpp.Storage.Crc64.Update.Combine.{drop-AreBytes}
use azure_sdk_for_cpp.Storage.Crc64.Update.Groups.{update_groups-crc_bytes}

-- The groups, and the bytes after them.
leb→le : (a b : ℕ) → leb a b ≡ true → a ≤ b
leb→le a b e = ground arith

groups-crc_bytes :
    (stop : ℕ) (ds : Bytes) (u : ℕ)
    → AreBytes ds
    → u < 2 ^ 64
    → stop ≡ length ds - length ds % 32
    → 64 ≤ stop
    → update_bytes (drop stop ds) (update_groups stop ds u) ≡ crc_bytes ds u
groups-crc_bytes stop ds u h p e le =
    let n = stop / 32 - 1 in
    let e₂ : stop ≡ 32 * n + 32 = omega arith in
    let groups : update_groups stop ds u ≡ crc_bytes (take stop ds) u =
      rw e₂ (update_groups-crc_bytes n ds u h p (omega arith)) in
    rw groups (
      update_bytes-crc_bytes (drop stop ds) (crc_bytes (take stop ds) u) (drop-AreBytes stop ds h)
      ∙ sym (crc_bytes-append (take stop ds) (drop stop ds) u)
      ∙ ap (λ xs. crc_bytes xs u) (take-append-drop stop ds))

pub update_crc-crc_bytes :
    (ds : Bytes) (u : ℕ) → AreBytes ds → u < 2 ^ 64 → update_crc ds u ≡ crc_bytes ds u
unfolding update_crc
update_crc-crc_bytes ds u h p = elim (Bool-cases (leb (2 * 32) (length ds - length ds % 32))) [
  | inl e ↦ rw e (
      groups-crc_bytes (length ds - length ds % 32) ds u h p refl
        (leb→le 64 (length ds - length ds % 32) e))
  | inr e ↦ rw e (update_bytes-crc_bytes ds u h)
]

-- Both numbers are below their bound.
abbrev pub Fits : Crc64 → Type 0
Fits crc = (crc.context < 2 ^ 64) × (crc.length < 2 ^ 64)

pub crc_bytes-lt : (ds : Bytes) (u : ℕ) → AreBytes ds → u < 2 ^ 64 → crc_bytes ds u < 2 ^ 64
unfolding crc_bytes
crc_bytes-lt [] u h p = p
crc_bytes-lt (d ∷ ds) u h p =
    let small : d < 2 ^ 64 = omega (arith, h.0) in
    crc_bytes-lt ds (steps 8 (u ⊕ d)) h.1 (steps-lt 8 (u ⊕ d) (xor-lt 64 u d p small))

flipped-lt : (u : ℕ) → u < 2 ^ 64 → u ⊕ ones < 2 ^ 64
flipped-lt u p = xor-lt 64 u ones p (omega arith)

-- For every text of bytes and every object whose two numbers are below 2 ^ 64, `Update` gives the
-- context that the reference gives: the tables, the four lanes and the choice of the path make no
-- difference.
pub update-crc_bytes :
    (ds : Bytes) (crc : Crc64)
    → AreBytes ds
    → Fits crc
    → (update ds crc).context ≡ crc_bytes ds (crc.context ⊕ ones) ⊕ ones
unfolding update
update-crc_bytes ds crc h f =
    ap (λ t. t ⊕ ones) (update_crc-crc_bytes ds (crc.context ⊕ ones) h (flipped-lt crc.context f.0))

pub update-Fits : (ds : Bytes) (crc : Crc64) → AreBytes ds → Fits crc → Fits (update ds crc)
unfolding update
update-Fits ds crc h f =
    let p = flipped-lt crc.context f.0 in
    (
      rw (update_crc-crc_bytes ds (crc.context ⊕ ones) h p)
          (flipped-lt _ (crc_bytes-lt ds (crc.context ⊕ ones) h p)),
      omega arith,
    )

append-AreBytes : (xs ys : Bytes) → AreBytes xs → AreBytes ys → AreBytes (xs ++ ys)
append-AreBytes [] ys h k = k
append-AreBytes (x ∷ xs) ys h k = (h.0, append-AreBytes xs ys h.1 k)

pub equal_crc64 : (a b : Crc64) → a.context ≡ b.context → a.length ≡ b.length → a ≡ b
equal_crc64 a b p q = ap₂ (λ c l. record { context = c; length = l }) p q

update-length :
    (xs ys : Bytes) (crc : Crc64)
    → (update (xs ++ ys) crc).length ≡ (update ys (update xs crc)).length
unfolding update
update-length xs ys crc = omega (arith, length-append xs ys)

-- For texts of bytes and an object whose two numbers are below 2 ^ 64, two calls of `Update` one
-- after the other do what one call with both texts does.
pub update-append :
    (xs ys : Bytes) (crc : Crc64)
    → AreBytes xs
    → AreBytes ys
    → Fits crc
    → update (xs ++ ys) crc ≡ update ys (update xs crc)
update-append xs ys crc h k f =
    let u = crc.context ⊕ ones in
    equal_crc64 (update (xs ++ ys) crc) (update ys (update xs crc))
      (update-crc_bytes (xs ++ ys) crc (append-AreBytes xs ys h k) f
        ∙ ap (λ t. t ⊕ ones)
            (crc_bytes-append xs ys u
              ∙ ap (crc_bytes ys) (
                  sym (xor_twice (crc_bytes xs u) ones)
                  ∙ ap (λ t. t ⊕ ones) (sym (update-crc_bytes xs crc h f))))
        ∙ sym (update-crc_bytes ys (update xs crc) k (update-Fits xs crc h f)))
      (update-length xs ys crc)

-- ===== src/Storage/Crc64/Update/Combine.antt =====
-- Four words, each eight bytes after the one before it, and parts of a text.
use azure_sdk_for_cpp.Base.{
  ℕ, zero, suc, ◌+◌, ◌≡◌, refl, sym, ap, ◌∙◌, List, [], ◌∷◌, ◌++◌, Bytes, AreBytes, take, drop,
  arith, take_all,
}
use azure_sdk_for_cpp.Storage.Crc64.Xor.{◌⊕◌, xor-zero, xor_swap}
use azure_sdk_for_cpp.Storage.Crc64.Step.{steps, steps-xor, steps-add}

module _ {ℓ} {A : Type ℓ} where
  pub take_add : (m n : ℕ) (xs : List A) → take (m + n) xs ≡ take m xs ++ take n (drop m xs)
  take_add zero n xs = let e : 0 + n ≡ n = omega arith in rw e refl
  take_add (suc m) n [] = take_all (suc m + n) [] (omega arith) ∙ sym (take_all n [] (omega arith))
  take_add (suc m) n (x ∷ xs) =
      let e : suc m + n ≡ suc (m + n) = omega arith in rw (e, take_add m n xs) refl

pub take-AreBytes : (n : ℕ) (ds : Bytes) → AreBytes ds → AreBytes (take n ds)
take-AreBytes zero ds h = tt
take-AreBytes (suc n) [] h = tt
take-AreBytes (suc n) (d ∷ ds) h = (h.0, take-AreBytes n ds h.1)

pub drop-AreBytes : (n : ℕ) (ds : Bytes) → AreBytes ds → AreBytes (drop n ds)
drop-AreBytes zero ds h = h
drop-AreBytes (suc n) [] h = tt
drop-AreBytes (suc n) (d ∷ ds) h = drop-AreBytes n ds h.1

-- Four words, each eight bytes after the one before it.
unfoldable pub combine : ℕ → ℕ → ℕ → ℕ → ℕ
combine a b c d = steps 64 (steps 64 (steps 64 (steps 64 a ⊕ b) ⊕ c) ⊕ d)

pub combine-xor :
    (a b c d e f g h : ℕ)
    → combine (a ⊕ e) (b ⊕ f) (c ⊕ g) (d ⊕ h) ≡ combine a b c d ⊕ combine e f g h
unfolding combine
combine-xor a b c d e f g h = add _ _ d h (add _ _ c g (add _ _ b f (steps-xor 64 a e)))
  where
    add :
        (u v x y : ℕ) {w : ℕ}
        → w ≡ u ⊕ v
        → steps 64 (w ⊕ (x ⊕ y)) ≡ steps 64 (u ⊕ x) ⊕ steps 64 (v ⊕ y)
    add u v x y eq = rw (eq, xor_swap u v x y) (steps-xor 64 (u ⊕ x) (v ⊕ y))

pub steps-combine :
    (n a b c d : ℕ)
    → combine (steps n a) (steps n b) (steps n c) (steps n d) ≡ steps n (combine a b c d)
unfolding combine
steps-combine n a b c d = add _ d (add _ c (add _ b (move a)))
  where
    move : (u : ℕ) → steps 64 (steps n u) ≡ steps n (steps 64 u)
    move u =
        let e : n + 64 ≡ 64 + n = omega arith in
        sym (steps-add n 64 u) ∙ ap (λ m. steps m u) e ∙ steps-add 64 n u

    add : (u x : ℕ) {w : ℕ} → w ≡ steps n u → steps 64 (w ⊕ steps n x) ≡ steps n (steps 64 (u ⊕ x))
    add u x eq = rw (eq, sym (steps-xor n u x)) (move (u ⊕ x))

pub combine-zero : (u : ℕ) → combine u 0 0 0 ≡ steps 256 u
unfolding combine
combine-zero u =
    rw
      (
        xor-zero (steps 64 u),
        sym (steps-add 64 64 u),
        xor-zero (steps 128 u),
        sym (steps-add 128 64 u),
        xor-zero (steps 192 u),
        sym (steps-add 192 64 u),
      )
      refl

-- ===== src/Http/Streams/Complete.antt =====
-- Reading a stream until a count or its end, and the streams that keep the promise of a read.
use mathlib.Core.List.{append_assoc, append-nil}
use azure_sdk_for_cpp.Base.{
  ℕ, zero, suc, ◌-◌, ◌*◌, min, ◌≡◌, refl, ap, ◌∙◌, ◌≤◌, ◌<◌, ◌⊎◌, inl, inr, true, false, ◌||◌, [],
  ◌++◌, Option, none, some, ltb, ltb→lt, ltb→le, ◌==◌, if◌then◌else◌, length, take, drop,
  length-append, length-take, length-drop, take-append-drop, Bytes, Result, OnOk, Returns,
  Returns-map, ok, err, arith, Bool-cases,
}
use azure_sdk_for_cpp.Http.Streams.{
  IsStream, IsStreamWithin, read_to_count, read_to_end, chunk_size,
}
use azure_sdk_for_cpp.Base.{
  take-append, drop-append, length-nil, take_all, drop_all, take_none, drop_none,
}

module _ {S E : Type 0} (read : S → ℕ → Result E (S × Bytes)) (content : S → Bytes) where
  -- The buffer has what it had and the next bytes up to the count, and the others are left.
  abbrev pub Filled : S → ℕ → Bytes → S × Bytes → Type 0
  Filled s count buffer (s', b) =
      (b ≡ buffer ++ take (count - length buffer) (content s))
      × (content s' ≡ drop (count - length buffer) (content s))

  abbrev Progress : S → ℕ → S × Bytes → Type 0
  Progress s n (s', b) =
      (length b ≤ n)
      × ((content s ≡ b ++ content s') × ((length b ≡ 0) → (n ≡ 0) ⊎ (content s ≡ [])))

  -- The last round: nothing more is wanted, or nothing came.
  Filled-last :
      (s s' : S) (count : ℕ) (buffer b : Bytes)
      → length buffer ≤ count
      → Progress s (count - length buffer) (s', b)
      → (length (buffer ++ b) == count || length b == 0) ≡ true
      → Filled s count buffer (s', buffer ++ b)
  Filled-last s s' count buffer b h (le, (e, none_left)) stop =
      let k = count - length buffer in
      let over : (k - length b ≡ 0) ⊎ (content s' ≡ []) = elim (Bool-cases (length b == 0)) [
        | inl z ↦ elim (none_left (ground arith)) [
          | inl z' ↦ inl (omega arith)
          | inr z' ↦ let n : b ≡ [] = length-nil b (ground arith) in inr (cc)
        ]
        | inr z ↦ inl (ground (arith, length-append buffer b))
      ] in
      rw
        (
          e,
          take-append k b (content s') le,
          drop-append k b (content s') le,
          take_none (k - length b) (content s') over,
          drop_none (k - length b) (content s') over,
          append-nil b,
        )
        (refl, refl)

  Filled-more :
      (s s' t : S) (count : ℕ) (buffer b filled : Bytes)
      → length buffer ≤ count
      → Progress s (count - length buffer) (s', b)
      → Filled s' count (buffer ++ b) (t, filled)
      → Filled s count buffer (t, filled)
  Filled-more s s' t count buffer b filled h (le, (e, none_left)) (f, g) =
      let k : count - length (buffer ++ b) ≡ (count - length buffer) - length b =
        omega (arith, length-append buffer b) in
      (
        rw (f, e, take-append (count - length buffer) b (content s') le, k)
            (append_assoc buffer b _),
        rw (g, e, drop-append (count - length buffer) b (content s') le, k) refl,
      )

  -- The loop of `ReadToEnd` has read all that came before, and reads the rest.
  abbrev pub Ended : S → Bytes → S × Bytes → Type 0
  Ended s buffer (s', b) = (b ≡ buffer ++ content s) × (content s' ≡ [])

  Ended-last :
      (s s' : S) (buffer b : Bytes)
      → Filled s chunk_size [] (s', b)
      → length b < chunk_size
      → Ended s buffer (s', buffer ++ b)
  Ended-last s s' buffer b (e, f) lt =
      let l : length b ≡ min chunk_size (length (content s)) =
        rw e (length-take chunk_size (content s)) in
      let all : length (content s) ≤ chunk_size = omega arith in
      (
        rw e (ap (λ x. buffer ++ x) (take_all chunk_size (content s) all)),
        f ∙ drop_all chunk_size (content s) all,
      )

  Ended-more :
      (s s' t : S) (buffer b filled : Bytes)
      → Filled s chunk_size [] (s', b)
      → Ended s' (buffer ++ b) (t, filled)
      → Ended s buffer (t, filled)
  Ended-more s s' t buffer b filled (e, f) (g, h) = (
    rw (g, append_assoc buffer b (content s'), e, f)
        (ap (λ x. buffer ++ x) (take-append-drop chunk_size (content s))),
    h,
  )

  module _ (inv : S → Type 0) (stream : IsStreamWithin inv read content) where
    -- What holds of a result, the invariant of its stream included.
    abbrev pub Kept : (S × Bytes → Type 0) → S × Bytes → Type 0
    Kept P x = inv x.0 × P x

    -- While the invariant holds: whatever the sizes of the pieces that the stream yields, with fuel for one round per byte and
    -- one more, `ReadToCount` ends, and unless a read throws, the buffer gets the next bytes, up to
    -- the count or to the end of the stream, and the stream has the bytes after them left.
    pub read_to_count_within :
        (fuel : ℕ) (s : S) (count : ℕ) (buffer : Bytes)
        → inv s
        → length buffer ≤ count
        → count - length buffer < fuel
        → Returns (Kept (Filled s count buffer)) (read_to_count read fuel s count buffer)
    unfolding read_to_count IsStreamWithin
    read_to_count_within zero s count buffer v h lt = absurd (omega arith)
    read_to_count_within (suc fuel) s count buffer v h lt =
        round (read s (count - length buffer)) (stream s (count - length buffer) v)
          (λ s' b. read_to_count_within fuel s' count (buffer ++ b))
      where
        round :
            (o : Result E (S × Bytes))
            → OnOk (Kept (Progress s (count - length buffer))) o
            → ((s' : S) (b : Bytes)
                → inv s'
                → length (buffer ++ b) ≤ count
                → count - length (buffer ++ b) < fuel
                → Returns
                    (Kept (Filled s' count (buffer ++ b)))
                    (read_to_count read fuel s' count (buffer ++ b)))
            → Returns (Kept (Filled s count buffer)) (elim o [
              | err e ↦ some (err e)
              | ok (s', b) ↦
                  let rest = read_to_count read fuel s' count (buffer ++ b) in
                  if length (buffer ++ b) == count || length b == 0
                  then some (ok (s', buffer ++ b))
                  else rest
            ])
        round (err e) p rest = tt
        round (ok (s', b)) (i, p) rest =
            elim (Bool-cases (length (buffer ++ b) == count || length b == 0)) [
              | inl stop ↦ rw stop (i, Filled-last s s' count buffer b h p stop)
              | inr go ↦ rw go (
                  Returns-map (Kept (Filled s' count (buffer ++ b))) (Kept (Filled s count buffer))
                    (read_to_count read fuel s' count (buffer ++ b))
                    (λ (t, filled) (i, f). (i, Filled-more s s' t count buffer b filled h p f))
                    (rest s' b i (omega (arith, length-append buffer b, p.0))
                      (ground (arith, length-append buffer b))))
            ]

    -- While the invariant holds: with fuel for the chunks of what the stream holds, `ReadToEnd` ends, and unless a read throws,
    -- it yields all that the stream holds, after what the buffer had, and nothing is left.
    pub read_to_end_within :
        (fuel : ℕ) (s : S) (buffer : Bytes)
        → inv s
        → length (content s) < fuel * chunk_size
        → Returns (Kept (Ended s buffer)) (read_to_end read fuel s buffer)
    unfolding read_to_end
    read_to_end_within zero s buffer v lt = absurd (omega arith)
    read_to_end_within (suc fuel) s buffer v lt =
        round (read_to_count read (suc chunk_size) s chunk_size [])
          (read_to_count_within (suc chunk_size) s chunk_size [] v (omega arith) (omega arith))
          (λ s' b. read_to_end_within fuel s' (buffer ++ b))
      where
        round :
            (o : Option (Result E (S × Bytes)))
            → Returns (Kept (Filled s chunk_size [])) o
            → ((s' : S) (b : Bytes)
                → inv s'
                → length (content s') < fuel * chunk_size
                → Returns (Kept (Ended s' (buffer ++ b))) (read_to_end read fuel s' (buffer ++ b)))
            → Returns (Kept (Ended s buffer)) (elim o [
              | none ↦ none
              | some (err e) ↦ some (err e)
              | some (ok (s', b)) ↦
                  let rest = read_to_end read fuel s' (buffer ++ b) in
                  if ltb (length b) chunk_size then some (ok (s', buffer ++ b)) else rest
            ])
        round none p rest = p
        round (some (err e)) p rest = tt
        round (some (ok (s', b))) (i, p) rest = elim (Bool-cases (ltb (length b) chunk_size)) [
          | inl stop ↦ rw stop (i, Ended-last s s' buffer b p (ltb→lt (length b) chunk_size stop))
          | inr go ↦ rw go (
              Returns-map (Kept (Ended s' (buffer ++ b))) (Kept (Ended s buffer))
                (read_to_end read fuel s' (buffer ++ b))
                (λ (t, filled) (j, e). (j, Ended-more s s' t buffer b filled p e))
                (rest s' b i (shorter s' b p go)))
        ]
          where
            shorter :
                (s' : S) (b : Bytes)
                → Filled s chunk_size [] (s', b)
                → ltb (length b) chunk_size ≡ false
                → length (content s') < fuel * chunk_size
            shorter s' b (e, f) go =
                let l : length (content s') ≡ length (content s) - chunk_size =
                  rw f (length-drop chunk_size (content s)) in
                let l' : length b ≡ min chunk_size (length (content s)) =
                  rw e (length-take chunk_size (content s)) in
                let g = ltb→le (length b) chunk_size go in omega arith

  module _ (stream : IsStream read content) where
    everywhere : IsStreamWithin (λ s. Unit {0}) read content
    unfolding IsStream IsStreamWithin
    everywhere s n u = step (read s n) (stream s n)
      where
        step :
            (o : Result E (S × Bytes))
            → OnOk (Progress s n) o
            → OnOk (λ x. Unit {0} × Progress s n x) o
        step (ok (s', b)) p = (tt, p)
        step (err e) p = tt

    -- Whatever the sizes of the pieces that the stream yields, with fuel for one round per byte and
    -- one more, `ReadToCount` ends, and unless a read throws, the buffer gets the next bytes, up to
    -- the count or to the end of the stream, and the stream has the bytes after them left.
    pub read_to_count_complete :
        (fuel : ℕ) (s : S) (count : ℕ) (buffer : Bytes)
        → length buffer ≤ count
        → count - length buffer < fuel
        → Returns (Filled s count buffer) (read_to_count read fuel s count buffer)
    read_to_count_complete fuel s count buffer h lt =
        Returns-map (λ x. Unit {0} × Filled s count buffer x) (Filled s count buffer)
          (read_to_count read fuel s count buffer) (λ x p. p.1)
          (read_to_count_within (λ s. Unit {0}) everywhere fuel s count buffer tt h lt)

    -- With fuel for the chunks of what the stream holds, `ReadToEnd` ends, and unless a read throws,
    -- it yields all that the stream holds, after what the buffer had, and nothing is left.
    pub read_to_end_complete :
        (fuel : ℕ) (s : S) (buffer : Bytes)
        → length (content s) < fuel * chunk_size
        → Returns (Ended s buffer) (read_to_end read fuel s buffer)
    read_to_end_complete fuel s buffer lt =
        Returns-map (λ x. Unit {0} × Ended s buffer x) (Ended s buffer)
          (read_to_end read fuel s buffer) (λ x p. p.1)
          (read_to_end_within (λ s. Unit {0}) everywhere fuel s buffer tt lt)

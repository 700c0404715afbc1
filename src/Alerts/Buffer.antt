-- ===== src/Alerts/Buffer.antt =====
-- cappedBuffer of alert.go: what it keeps of a hook's output.
use mathlib.Core.List
use pia_wg_config_generator.Base.{
  ℕ, zero, suc, ◌+◌, ◌-◌, ◌≤◌, List, [], ◌∷◌, ◌++◌, ◌≡◌, refl, sym, ap, ◌∙◌, inl, inr, arith, ltb,
  length, take, length-append, if◌then◌else◌, Bool-cases,
}
use pia_wg_config_generator.Base.Text.{Text}

abbrev pub max : ℕ
max = 2048

-- Write: the buffer behind it, and the number of bytes that it claims to have written.
unfoldable pub write : Text → Text → Text × ℕ
write buffer p =
    let remaining = max - length buffer in
    (
      if ltb 0 remaining
          then (if ltb remaining (length p) then buffer ++ take remaining p else buffer ++ p)
          else buffer,
      length p,
    )

-- A sequence of writes into an empty buffer.
unfoldable pub write_all : Text → List Text → Text
write_all buffer [] = buffer
write_all buffer (p ∷ ps) = write_all (write buffer p).0 ps

abbrev pub concat : List Text → Text
concat [] = []
concat (p ∷ ps) = p ++ concat ps

take-append : (n k : ℕ) (xs ys : Text) → n ≡ length xs + k → take n (xs ++ ys) ≡ xs ++ take k ys
take-append n k [] ys e = let same : n ≡ k = omega (arith, e) in rw same refl
take-append zero k (x ∷ xs) ys e = absurd (omega (arith, e))
take-append (suc n) k (x ∷ xs) ys e =
    ap (λ (r : Text). x ∷ r) (take-append n k xs ys (omega (arith, e)))

take_all : (n : ℕ) (xs : Text) → length xs ≤ n → take n xs ≡ xs
take_all zero [] h = refl
take_all (suc n) [] h = refl
take_all zero (x ∷ xs) h = absurd (omega (arith, h))
take_all (suc n) (x ∷ xs) h = ap (λ (r : Text). x ∷ r) (take_all n xs (omega (arith, h)))

take_again : (n : ℕ) (xs ys : Text) → take n (take n xs ++ ys) ≡ take n (xs ++ ys)
take_again zero xs ys = refl
take_again (suc n) [] ys = refl
take_again (suc n) (x ∷ xs) ys = ap (λ (r : Text). x ∷ r) (take_again n xs ys)

length-take : (n : ℕ) (xs : Text) → length (take n xs) ≤ n
length-take zero xs = omega arith
length-take (suc n) [] = omega arith
length-take (suc n) (x ∷ xs) = omega (arith, length-take n xs)

take-write : (buffer p : Text) → length buffer ≤ max → (write buffer p).0 ≡ take max (buffer ++ p)
unfolding write
take-write buffer p h = elim (Bool-cases (ltb 0 (max - length buffer))) [
  | inl room ↦ elim (Bool-cases (ltb (max - length buffer) (length p))) [
    | inl over ↦
        rw (room, over) (sym (take-append max (max - length buffer) buffer p (omega (arith, h))))
    | inr fits ↦
        let short : length p ≤ max - length buffer = ground (arith, fits) in
        rw (room, fits)
          (sym (take_all max (buffer ++ p) (omega (arith, length-append buffer p, short, h))))
  ]
  | inr full ↦
      let is_full : max - length buffer ≡ 0 = ground (arith, full) in
      rw full
        (sym (take-append max 0 buffer p (omega (arith, h, is_full)) ∙ List.append-nil buffer))
]

write_all-take :
    (buffer : Text) (ps : List Text)
    → length buffer ≤ max
    → write_all buffer ps ≡ take max (buffer ++ concat ps)
unfolding write_all
write_all-take buffer [] h = sym (ap (take max) (List.append-nil buffer) ∙ take_all max buffer h)
write_all-take buffer (p ∷ ps) h = rw (take-write buffer p h) (
    write_all-take (take max (buffer ++ p)) ps (length-take max (buffer ++ p))
    ∙ take_again max (buffer ++ p) (concat ps)
    ∙ ap (take max) (List.append_assoc buffer p (concat ps)))

-- However a hook's output is cut into writes, the buffer keeps the first 2048 bytes of it, and each
-- write claims its whole length.
pub write_all-eq-take :
    (ps : List Text) (p : Text)
    → (write_all [] ps ≡ take 2048 (concat ps)) × ((write (write_all [] ps) p).1 ≡ length p)
unfolding write
write_all-eq-take ps p = (write_all-take [] ps (omega arith), refl)

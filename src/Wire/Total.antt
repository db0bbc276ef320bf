-- ===== src/Wire/Total.antt =====
-- src/pprof.rs: the decoders' loops end on every input, well formed or not.
use Prim.Native.Nat.{bit_and}
use pprofessor.Common.{
  ℕ, zero, suc, ◌+◌, ◌/◌, ◌^◌, ◌≤◌, ◌<◌, List, [], ◌∷◌, length, length-drop, is_nil, ◌≡◌, ◌≢◌, refl,
  arith, ◌==◌, ltb, leb, ◌&&◌, Bool, true, false, Bool-cases, inl, inr, if◌then◌else◌, some, none,
  ok, err, ◌>>=◌, Avoids, Avoids-bind,
}
use pprofessor.Wire.Decode.{
  out_of_fuel, Decoded, Field, Fields, read_varint_loop, read_varint, take_bytes, read_value,
  next_field, next, decode_loop, decode_message, decode_packed_loop, decode_packed,
}

-- A reader that takes at least `k` of the `n` bytes that are left, or fails with an error of the
-- source.
abbrev Takes {ℓ} : {A : Type ℓ} → ℕ → ℕ → Decoded (A × Fields) → Type 0
Takes k n (ok (a, fs)) = length fs.rest + k ≤ n
Takes k n (err e) = e ≢ out_of_fuel

Takes-bind {ℓ κ} :
    {A : Type ℓ} {B : Type κ} (j k n : ℕ) (r : Decoded (A × Fields))
    (f : A × Fields → Decoded (B × Fields))
    → Takes j n r
    → ((a : A) (fs : Fields) → length fs.rest + j ≤ n → Takes k n (f (a, fs)))
    → Takes k n (r >>= f)
Takes-bind j k n (ok (a, fs)) f h g = g a fs h
Takes-bind j k n (err e) f h g = h

Takes-weaken {ℓ} :
    {A : Type ℓ} (j k n m : ℕ) (r : Decoded (A × Fields))
    → Takes j n r
    → n + k ≤ m + j
    → Takes k m r
Takes-weaken j k n m (ok (a, fs)) h le = omega arith
Takes-weaken j k n m (err e) h le = h

Takes-if {ℓ} :
    {A : Type ℓ} (k n : ℕ) (b : Bool) (x y : Decoded (A × Fields))
    → (b ≡ true → Takes k n x)
    → Takes k n y
    → Takes k n (if b then x else y)
Takes-if k n true x y h g = h refl
Takes-if k n false x y h g = g

read_varint_loop-Takes :
    (r shift acc o : ℕ) (rest : List ℕ)
    → Takes 1 (length rest) (read_varint_loop r shift acc o rest)
unfolding read_varint_loop
read_varint_loop-Takes zero shift acc o rest = λ e. cc
read_varint_loop-Takes (suc r) shift acc o [] = λ e. cc
read_varint_loop-Takes (suc r) shift acc o (b ∷ rest) =
    Takes-if 1 _ (shift == 63 && ltb 1 b) _ _ (λ _ e. cc)
      (Takes-if 1 _ (bit_and b 0x80 == 0) _ _ (λ _. omega arith)
        (Takes-weaken 1 1 (length rest) (suc (length rest)) _
          (read_varint_loop-Takes r (shift + 7) _ (o + 1) rest) (omega arith)))

read_varint-Takes : (fs : Fields) → Takes 1 (length fs.rest) (read_varint fs)
unfolding read_varint
read_varint-Takes fs = read_varint_loop-Takes 10 0 0 fs.offset fs.rest

take_bytes-Takes : (count : ℕ) (fs : Fields) → Takes 0 (length fs.rest) (take_bytes count fs)
unfolding take_bytes
take_bytes-Takes count fs =
    Takes-if 0 _ (leb (2 ^ 64) (fs.offset + count)) _ _ (λ _ e. cc)
      (Takes-if 0 _ (leb count (length fs.rest)) _ _ (λ _. omega (arith, length-drop count fs.rest))
        (λ e. cc))

read_value-Takes : (wire : ℕ) (fs : Fields) → Takes 0 (length fs.rest) (read_value wire fs)
unfolding read_value
read_value-Takes wire fs =
    let n = length fs.rest in
    Takes-if 0 n (wire == 0) _ _
      (λ _. Takes-bind 1 0 n (read_varint fs) _ (read_varint-Takes fs) (λ v fs' h. omega arith))
      (Takes-if 0 n (wire == 1) _ _
        (λ _. Takes-bind 0 0 n (take_bytes 8 fs) _ (take_bytes-Takes 8 fs) (λ v fs' h. omega arith))
        (Takes-if 0 n (wire == 2) _ _
          (λ _. Takes-bind 1 0 n (read_varint fs) _ (read_varint-Takes fs) (λ c fs₁ h.
            Takes-bind 0 0 n (take_bytes c fs₁) _
              (Takes-weaken 0 0 (length fs₁.rest) n _ (take_bytes-Takes c fs₁) (omega arith))
              (λ b fs₂ h₂. omega arith)))
          (Takes-if 0 n (wire == 5) _ _
            (λ _.
              Takes-bind 0 0 n (take_bytes 4 fs) _ (take_bytes-Takes 4 fs) (λ v fs' h. omega arith))
            (λ e. cc))))

next_field-Takes : (fs : Fields) → Takes 1 (length fs.rest) (next_field fs)
unfolding next_field
next_field-Takes fs =
    let n = length fs.rest in
    Takes-bind 1 1 n (read_varint fs) _ (read_varint-Takes fs) (λ tag fs₁ h.
      Takes-if 1 n (tag / 2 ^ 3 == 0) _ _ (λ _ e. cc)
        (Takes-bind 1 1 n (read_value (bit_and tag 7) fs₁) _
          (Takes-weaken 0 1 (length fs₁.rest) n _ (read_value-Takes (bit_and tag 7) fs₁)
            (omega arith))
          (λ v fs₂ h₂. h₂)))

module _ {ℓ} {A : Type ℓ} (visit : A → Field → Decoded A)
    (visits : (m : A) (f : Field) → Avoids out_of_fuel (visit m f)) where
  loop_round :
      (fuel n : ℕ) (m : A)
      → ((m' : A) (fs' : Fields)
          → length fs'.rest + 1 ≤ n
          → Avoids out_of_fuel (decode_loop fuel visit m' fs'))
      → (r : Decoded (Field × Fields)) → Takes 1 n r
      → Avoids out_of_fuel (r >>= λ (f, fs'). visit m f >>= λ m'. decode_loop fuel visit m' fs')
  loop_round fuel n m ih (ok (f, fs')) h =
      Avoids-bind out_of_fuel (visit m f) _ (visits m f) (λ m' _. ih m' fs' h)
  loop_round fuel n m ih (err e) h = h

  loop_unroll :
      (fuel : ℕ) (m : A) (fs : Fields)
      → is_nil fs.rest ≡ false
      → decode_loop (suc fuel) visit m fs
        ≡ (next_field fs >>= λ (f, fs'). visit m f >>= λ m'. decode_loop fuel visit m' fs')
  unfolding decode_loop next
  loop_unroll fuel m fs e = rw e (unroll (next_field fs))
    where
      unroll :
          (r : Decoded (Field × Fields))
          → ((r >>= λ (f, fs'). ok (some f, fs')) >>= λ (found, fs'). elim found [
            | none ↦ ok m
            | some f ↦ visit m f >>= λ m'. decode_loop fuel visit m' fs'
          ])
            ≡ (r >>= λ (f, fs'). visit m f >>= λ m'. decode_loop fuel visit m' fs')
      unroll (ok (f, fs')) = refl
      unroll (err e) = refl

  loop_end :
      (fuel : ℕ) (m : A) (fs : Fields)
      → is_nil fs.rest ≡ true
      → decode_loop (suc fuel) visit m fs ≡ ok m
  unfolding decode_loop next
  loop_end fuel m fs e = rw e

  decode_loop_total :
      (fuel : ℕ) (m : A) (fs : Fields)
      → length fs.rest < fuel
      → Avoids out_of_fuel (decode_loop fuel visit m fs)
  decode_loop_total zero m fs h = absurd (omega arith)
  decode_loop_total (suc fuel) m fs h = elim (Bool-cases (is_nil fs.rest)) [
    | inl e ↦ rw (loop_end fuel m fs e) tt
    | inr e ↦ rw (loop_unroll fuel m fs e) (
        loop_round fuel (length fs.rest) m
          (λ m' fs' h'. decode_loop_total fuel m' fs' (omega arith)) (next_field fs)
          (next_field-Takes fs))
  ]

  pub decode_message_total : (m : A) (bs : List ℕ) → Avoids out_of_fuel (decode_message visit m bs)
  unfolding decode_message
  decode_message_total m bs = decode_loop_total (suc (length bs)) m _ (omega arith)

module _ {ℓ} {A : Type ℓ} (visit : A → ℕ → A) where
  packed_round :
      (fuel n : ℕ) (m : A)
      → ((m' : A) (fs' : Fields)
          → length fs'.rest + 1 ≤ n
          → Avoids out_of_fuel (decode_packed_loop fuel visit m' fs'))
      → (r : Decoded (ℕ × Fields)) → Takes 1 n r
      → Avoids out_of_fuel (r >>= λ (v, fs'). decode_packed_loop fuel visit (visit m v) fs')
  packed_round fuel n m ih (ok (v, fs')) h = ih (visit m v) fs' h
  packed_round fuel n m ih (err e) h = h

  decode_packed_loop_total :
      (fuel : ℕ) (m : A) (fs : Fields)
      → length fs.rest < fuel
      → Avoids out_of_fuel (decode_packed_loop fuel visit m fs)
  unfolding decode_packed_loop
  decode_packed_loop_total zero m fs h = absurd (omega arith)
  decode_packed_loop_total (suc fuel) m fs h = elim (Bool-cases (is_nil fs.rest)) [
    | inl e ↦ rw e tt
    | inr e ↦ rw e (
        packed_round fuel (length fs.rest) m
          (λ m' fs' h'. decode_packed_loop_total fuel m' fs' (omega arith)) (read_varint fs)
          (read_varint-Takes fs))
  ]

  pub decode_packed_total : (m : A) (bs : List ℕ) → Avoids out_of_fuel (decode_packed visit m bs)
  unfolding decode_packed
  decode_packed_total m bs = decode_packed_loop_total (suc (length bs)) m _ (omega arith)

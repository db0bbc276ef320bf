-- ===== src/Wire/RoundTrip.antt =====
-- src/pprof.rs: the decoders' loop, `while let Some(field) = fields.next()?`, on encoded fields.
use Prim.Native.Nat.{bit_and}
use pprofessor.Common.{
  ℕ, zero, suc, ◌+◌, ◌*◌, ◌^◌, ◌<◌, List, [], ◌∷◌, ◌++◌, length, ◌≡◌, refl, sym, ap, ◌∙◌, arith,
  ◌==◌, ==_iff, append_assoc, length-append, take-append, drop-append, All, some, ok, err, ◌>>=◌,
}
use pprofessor.Common.Int.{IsU64}
use pprofessor.Common.Bits.{every, every_at}
use pprofessor.Wire.Encode.{varint_tag, bytes_tag}
use pprofessor.Wire.Decode.{
  Field, Fields, FieldValue, varint, bytes, fixed32, fixed64, Decoded, take_bytes, read_value,
  next_field, next, decode_loop, decode_message, read_varint,
}
use pprofessor.Wire.Varint.{groups, groups_last, after, read_varint-groups}
use pprofessor.Wire.Emit.{at, emit, emit_field, IsWritten}

-- A byte below 128 is a varint of its own.
read_varint_byte :
    (t o : ℕ) (rest : List ℕ)
    → t < 128
    → read_varint (after o (t ∷ rest)) ≡ ok (t, after (o + 1) rest)
read_varint_byte t o rest h = rw (groups_last 9 t h) at (read_varint-groups t o rest (omega arith))

varint_tag_bits : (n : ℕ) → n < 16 → (varint_tag n ≡ n * 8) × (bit_and (n * 8) 7 ≡ 0)
unfolding every
varint_tag_bits n h =
    (omega arith, (==_iff _ _).0 (every_at (λ x. bit_and (x * 8) 7 == 0) 16 n h refl))

bytes_tag_bits : (n : ℕ) → n < 16 → (bytes_tag n ≡ n * 8 + 2) × (bit_and (n * 8 + 2) 7 ≡ 2)
unfolding every
bytes_tag_bits n h = (
  (==_iff _ _).0 (every_at (λ x. bytes_tag x == x * 8 + 2) 16 n h refl),
  (==_iff _ _).0 (every_at (λ x. bit_and (x * 8 + 2) 7 == 2) 16 n h refl),
)

take_bytes-append :
    (b rest : List ℕ) (o : ℕ)
    → o + length b < 2 ^ 64
    → take_bytes (length b) (after o (b ++ rest)) ≡ ok (b, after (o + length b) rest)
unfolding take_bytes
take_bytes-append b rest o h =
    ground (arith, length-append b rest, take-append b rest, drop-append b rest)

next-varint :
    (n v o : ℕ) (rest : List ℕ)
    → 0 < n
    → n < 16
    → IsU64 v
    → next (after o (varint_tag n ∷ (groups 10 v ++ rest)))
      ≡ ok (some (at n (varint v)), after (o + 1 + length (groups 10 v)) rest)
unfolding next next_field read_value
next-varint n v o rest h₀ h₁ hv =
    rw ((varint_tag_bits n h₁).0, read_varint_byte (n * 8) o (groups 10 v ++ rest) (omega arith))
      (ground (arith, varint_tag_bits n h₁, read_varint-groups v (o + 1) rest))

next-bytes :
    (n : ℕ) (b : List ℕ) (o : ℕ) (rest : List ℕ)
    → 0 < n
    → n < 16
    → o + length (bytes_tag n ∷ (groups 10 (length b) ++ b)) < 2 ^ 64
    → next (after o (bytes_tag n ∷ (groups 10 (length b) ++ (b ++ rest))))
      ≡ ok (some (at n (bytes b)), after (o + 1 + length (groups 10 (length b)) + length b) rest)
unfolding next next_field read_value
next-bytes n b o rest h₀ h₁ fits =
    let fits' : o + 1 + length (groups 10 (length b)) + length b < 2 ^ 64 =
      omega (arith, length-append (groups 10 (length b)) b) in
    rw
      (
        (bytes_tag_bits n h₁).0,
        read_varint_byte (n * 8 + 2) o (groups 10 (length b) ++ (b ++ rest)) (omega arith),
      )
      (ground (
        arith,
        bytes_tag_bits n h₁,
        read_varint-groups (length b) (o + 1) (b ++ rest),
        take_bytes-append b rest (o + 1 + length (groups 10 (length b))) fits',
      ))

-- `next` takes one encoded field off the data.
next-emit_field :
    (f : Field) (o : ℕ) (rest : List ℕ)
    → IsWritten f
    → o + length (emit_field f) < 2 ^ 64
    → next (after o (emit_field f ++ rest)) ≡ ok (some f, after (o + length (emit_field f)) rest)
unfolding emit_field
next-emit_field f o rest w fits = step f.number f.value w fits
  where
    step :
        (n : ℕ) (x : FieldValue)
        → IsWritten (at n x)
        → o + length (emit_field (at n x)) < 2 ^ 64
        → next (after o (emit_field (at n x) ++ rest))
          ≡ ok (some (at n x), after (o + length (emit_field (at n x))) rest)
    step n (varint v) (h₀, h₁, hv) fits =
        next-varint n v o rest h₀ h₁ hv
        ∙ ap (λ k. ok (some (at n (varint v)), after k rest)) (omega arith)
    step n (bytes b) (h₀, h₁, hv) fits =
        rw (append_assoc (groups 10 (length b)) b rest, next-bytes n b o rest h₀ h₁ fits)
          (ap (λ k. ok (some (at n (bytes b)), after k rest))
            (omega (arith, length-append (groups 10 (length b)) b)))
    step n fixed32 (h₀, h₁, hv) fits = absurd hv
    step n fixed64 (h₀, h₁, hv) fits = absurd hv

length-emit_field_pos : (f : Field) → IsWritten f → 0 < length (emit_field f)
unfolding emit_field
length-emit_field_pos f w = step f.number f.value w
  where
    step : (n : ℕ) (x : FieldValue) → IsWritten (at n x) → 0 < length (emit_field (at n x))
    step n (varint v) w = omega arith
    step n (bytes b) w = omega arith
    step n fixed32 (h₀, h₁, hv) = absurd hv
    step n fixed64 (h₀, h₁, hv) = absurd hv

module _ {ℓ} {A : Type ℓ} (visit : A → Field → Decoded A) where
  -- The decoder's loop on a list of fields that are at hand.
  unfoldable pub run : A → List Field → Decoded A
  run m [] = ok m
  run m (f ∷ fs) = visit m f >>= λ m'. run m' fs

  decode_loop_step :
      (fuel : ℕ) (m : A) (fs fs' : Fields) (f : Field)
      → next fs ≡ ok (some f, fs')
      → decode_loop (suc fuel) visit m fs ≡ (visit m f >>= λ m'. decode_loop fuel visit m' fs')
  unfolding decode_loop
  decode_loop_step fuel m fs fs' f e = rw e

  bind_ext : (r : Decoded A) (g h : A → Decoded A) → ((a : A) → g a ≡ h a) → (r >>= g) ≡ (r >>= h)
  bind_ext (ok a) g h e = e a
  bind_ext (err x) g h e = refl

  bind_assoc : (r : Decoded A) (g h : A → Decoded A) → ((r >>= g) >>= h) ≡ (r >>= λ a. g a >>= h)
  bind_assoc (ok a) g h = refl
  bind_assoc (err x) g h = refl

  decode_loop-emit :
      (fs : List Field) (fuel o : ℕ) (m : A)
      → All IsWritten fs
      → length (emit fs) < fuel
      → o + length (emit fs) < 2 ^ 64
      → decode_loop fuel visit m (after o (emit fs)) ≡ run m fs
  unfolding run emit
  decode_loop-emit fs zero o m w hf fits = absurd (omega arith)
  decode_loop-emit [] (suc fuel) o m w hf fits = unfold decode_loop next in refl
  decode_loop-emit (f ∷ fs) (suc fuel) o m (w, ws) hf fits =
      let split : length (emit (f ∷ fs)) ≡ length (emit_field f) + length (emit fs) =
        length-append (emit_field f) (emit fs) in
      let pos : 0 < length (emit_field f) = length-emit_field_pos f w in
      decode_loop_step fuel m (after o (emit (f ∷ fs)))
        (after (o + length (emit_field f)) (emit fs)) f
        (next-emit_field f o (emit fs) w (omega arith))
      ∙ bind_ext (visit m f) _ _ (λ m'.
        decode_loop-emit fs fuel (o + length (emit_field f)) m' ws (omega arith) (omega arith))

  -- A decoder on encoded fields visits them in order.
  pub decode_message-emit :
      (fs : List Field) (m : A)
      → All IsWritten fs
      → length (emit fs) < 2 ^ 64
      → decode_message visit m (emit fs) ≡ run m fs
  unfolding decode_message
  decode_message-emit fs m w fits = decode_loop-emit fs _ 0 m w (omega arith) (omega arith)

  pub run-append : (m : A) (fs gs : List Field) → run m (fs ++ gs) ≡ (run m fs >>= λ m'. run m' gs)
  unfolding run
  run-append m [] gs = refl
  run-append m (f ∷ fs) gs =
      bind_ext (visit m f) _ _ (λ m'. run-append m' fs gs)
      ∙ sym (bind_assoc (visit m f) (λ m'. run m' fs) (λ m'. run m' gs))

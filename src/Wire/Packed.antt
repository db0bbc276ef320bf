-- ===== src/Wire/Packed.antt =====
-- src/pprof.rs, `decode_packed` on what `encode_packed_u64` and `encode_packed_i64` wrote.
use pprofessor.Common.{
  ℕ, zero, suc, ◌+◌, ◌<◌, List, [], ◌∷◌, ◌++◌, length, is_nil, push, map, ◌≡◌, refl, sym, ap, ◌∙◌,
  arith, false, append_assoc, append-nil, length-append, All, ok,
}
use pprofessor.Common.Int.{IsU64}
use pprofessor.Wire.Decode.{decode_packed, decode_packed_loop}
use pprofessor.Wire.Emit.{varints}
use pprofessor.Wire.Varint.{groups, after, read_varint-groups, length-groups_pos}

is_nil-varint : (v : ℕ) (rest : List ℕ) → is_nil (groups 10 v ++ rest) ≡ false
unfolding groups
is_nil-varint v rest = ground arith

pub is_nil-varints : (vs : List ℕ) → is_nil (varints vs) ≡ is_nil vs
is_nil-varints [] = refl
is_nil-varints (v ∷ vs) = is_nil-varint v (varints vs)

module _ {M : Type 0} {B : Type 0} (visit : M → ℕ → M) (holder : List B → M) (f : ℕ → B)
    (pushes : (ys : List B) (v : ℕ) → visit (holder ys) v ≡ holder (push ys (f v))) where
  decode_packed_loop_step :
      (fuel v o : ℕ) (m : M) (rest : List ℕ)
      → IsU64 v
      → decode_packed_loop (suc fuel) visit m (after o (groups 10 v ++ rest))
        ≡ decode_packed_loop fuel visit (visit m v) (after (o + length (groups 10 v)) rest)
  unfolding decode_packed_loop
  decode_packed_loop_step fuel v o m rest h =
      rw (is_nil-varint v rest, read_varint-groups v o rest h)

  decode_packed_loop-varints :
      (vs : List ℕ) (fuel o : ℕ) (ys : List B)
      → All IsU64 vs
      → length (varints vs) < fuel
      → decode_packed_loop fuel visit (holder ys) (after o (varints vs))
        ≡ ok (holder (ys ++ map f vs))
  decode_packed_loop-varints vs zero o ys h hf = absurd (omega arith)
  decode_packed_loop-varints [] (suc fuel) o ys h hf =
      unfold decode_packed_loop in ap (λ l. ok (holder l)) (sym (append-nil ys))
  decode_packed_loop-varints (v ∷ vs) (suc fuel) o ys (h, hs) hf =
      let split : length (varints (v ∷ vs)) ≡ length (groups 10 v) + length (varints vs) =
        length-append (groups 10 v) (varints vs) in
      let shorter : length (varints vs) < fuel = omega (arith, length-groups_pos 9 v) in
      decode_packed_loop_step fuel v o (holder ys) (varints vs) h
      ∙ ap (λ m. decode_packed_loop fuel visit m (after (o + length (groups 10 v)) (varints vs)))
          (pushes ys v)
      ∙ decode_packed_loop-varints vs fuel (o + length (groups 10 v)) (push ys (f v)) hs shorter
      ∙ ap (λ l. ok (holder l)) (append_assoc ys (f v ∷ []) (map f vs))

  -- The numbers come back in order, behind those that the message holds already.
  pub decode_packed-varints :
      (vs : List ℕ) (ys : List B)
      → All IsU64 vs
      → decode_packed visit (holder ys) (varints vs) ≡ ok (holder (ys ++ map f vs))
  unfolding decode_packed
  decode_packed-varints vs ys h =
      decode_packed_loop-varints vs (suc (length (varints vs))) 0 ys h (omega arith)

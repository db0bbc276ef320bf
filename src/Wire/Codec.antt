-- ===== src/Wire/Codec.antt =====
-- The interface of a message that is written inside another one, and the decoder's loop on the
-- fields that a message is made of (src/pprof.rs: repeated fields and optional fields).
use pprofessor.Common.{
  ℕ, ◌+◌, ◌≤◌, ◌<◌, ◌^◌, List, [], ◌∷◌, ◌++◌, length, is_nil, push, keep, all, map, not, ◌≡◌, refl,
  sym, ap, ◌∙◌, arith, ◌==◌, ◌&&◌, Bool, true, false, Bool-cases, inl, inr, append_assoc,
  append-nil, length-append, All, All-append, ok, ==_iff,
}
use pprofessor.Common.Int.{IsU64}
use pprofessor.Wire.Decode.{Field, varint, bytes, Decoded}
use pprofessor.Wire.Emit.{
  at, emit, IsWritten, varint_fields, bytes_fields, message_fields, emit-append,
}
use pprofessor.Wire.RoundTrip.{run}
use pprofessor.Wire.Varint.{groups}

-- `kept` is what of a message comes back: `decode` returns it, and a message that is default is not
-- written at all.
pub record Codec (A : Type 0) : Type 1 where
  pub encode : List ℕ → A → List ℕ
  pub decode : List ℕ → Decoded A
  pub kept : A → A
  pub is_default : A → Bool
  pub IsInRange : A → Type 0
  pub decode-encode :
      (a : A) → IsInRange a → length (encode [] a) < 2 ^ 64 → decode (encode [] a) ≡ ok (kept a)
  pub is_nil-encode : (a : A) → IsInRange a → is_nil (encode [] a) ≡ is_default a

-- What comes back of a list of messages: those that are default are lost.
unfoldable pub kept_all : {A : Type 0} → Codec A → List A → List A
kept_all c xs = map c.kept (keep (λ x. not (c.is_default x)) xs)

pub varint_fields-IsWritten :
    (n v : ℕ) → 0 < n → n < 16 → IsU64 v → All IsWritten (varint_fields n v)
unfolding varint_fields
varint_fields-IsWritten n v h₀ h₁ hv = elim (Bool-cases (v == 0)) [
  | inl e ↦ rw e tt
  | inr e ↦ rw e ((h₀, h₁, hv), tt)
]

pub bytes_fields-IsWritten :
    (n : ℕ) (b : List ℕ) → 0 < n → n < 16 → All IsWritten (bytes_fields n b)
unfolding bytes_fields
bytes_fields-IsWritten n [] h₀ h₁ = tt
bytes_fields-IsWritten n (x ∷ b) h₀ h₁ = ((h₀, h₁, tt), tt)

pub message_fields-IsWritten {ℓ} :
    {A : Type ℓ} (encode : List ℕ → A → List ℕ) (n : ℕ) (ms : List A)
    → 0 < n
    → n < 16
    → All IsWritten (message_fields encode n ms)
unfolding message_fields
message_fields-IsWritten encode n [] h₀ h₁ = tt
message_fields-IsWritten encode n (m ∷ ms) h₀ h₁ =
    All-append IsWritten (bytes_fields n (encode [] m)) _ (bytes_fields-IsWritten n _ h₀ h₁)
      (message_fields-IsWritten encode n ms h₀ h₁)

-- The content of a field is not longer than the field.
pub bytes_fields_bound : (n : ℕ) (b : List ℕ) → length b ≤ length (emit (bytes_fields n b))
unfolding bytes_fields emit
bytes_fields_bound n [] = omega arith
bytes_fields_bound n (x ∷ b) =
    rw append-nil (omega (arith, length-append (groups 10 (length (x ∷ b))) (x ∷ b)))

pub is_nil-varint_fields :
    (n v : ℕ) (l : List Field)
    → is_nil (emit (varint_fields n v ++ l)) ≡ (v == 0 && is_nil (emit l))
unfolding varint_fields emit
is_nil-varint_fields n v l = elim (Bool-cases (v == 0)) [ inl e ↦ rw e | inr e ↦ rw e ]

pub is_nil-bytes_fields :
    (n : ℕ) (b : List ℕ) (l : List Field)
    → is_nil (emit (bytes_fields n b ++ l)) ≡ (is_nil b && is_nil (emit l))
unfolding bytes_fields emit
is_nil-bytes_fields n [] l = refl
is_nil-bytes_fields n (x ∷ b) l = refl

module _ {ℓ} {A : Type ℓ} (visit : A → Field → Decoded A) where
  -- A field that is not written is one that the message holds already.
  pub run-varint_fields :
      (m m' : A) (n v : ℕ) (gs : List Field)
      → visit m (at n (varint v)) ≡ ok m'
      → (v ≡ 0 → m' ≡ m)
      → run visit m (varint_fields n v ++ gs) ≡ run visit m' gs
  unfolding run varint_fields
  run-varint_fields m m' n v gs e z = elim (Bool-cases (v == 0)) [
    | inl q ↦ rw q (ap (λ a. run visit a gs) (sym (z ((==_iff v 0).0 q))))
    | inr q ↦ rw (q, e)
  ]

  pub run-bytes_fields :
      (m m' : A) (n : ℕ) (b : List ℕ) (gs : List Field)
      → visit m (at n (bytes b)) ≡ ok m'
      → (b ≡ [] → m' ≡ m)
      → run visit m (bytes_fields n b ++ gs) ≡ run visit m' gs
  unfolding run bytes_fields
  run-bytes_fields m m' n [] gs e z = ap (λ a. run visit a gs) (sym (z refl))
  run-bytes_fields m m' n (x ∷ b) gs e z = rw e

message_fields_bound {ℓ} :
    {A : Type ℓ} (encode : List ℕ → A → List ℕ) (n : ℕ) (ms : List A) (bound : ℕ)
    → length (emit (message_fields encode n ms)) < bound
    → All (λ m. length (encode [] m) < bound) ms
unfolding message_fields
message_fields_bound encode n [] bound h = tt
message_fields_bound encode n (m ∷ ms) bound h =
    let b = encode [] m in
    let both : length (emit (bytes_fields n b)) + length (emit (message_fields encode n ms))
        < bound =
      rw (emit-append (bytes_fields n b), length-append) at h in
    (omega (arith, bytes_fields_bound n b), message_fields_bound encode n ms bound (omega arith))

skipped : (b : List ℕ) → is_nil b ≡ true → (n : ℕ) → bytes_fields n b ≡ []
unfolding bytes_fields
skipped b e n = rw e

written : (b : List ℕ) → is_nil b ≡ false → (n : ℕ) → bytes_fields n b ≡ at n (bytes b) ∷ []
unfolding bytes_fields
written b e n = rw e

&&_assoc : (a b c : Bool) → (a && (b && c)) ≡ ((a && b) && c)
&&_assoc true b c = refl
&&_assoc false b c = refl

pub is_nil-message_fields :
    {A : Type 0} (c : Codec A) (n : ℕ) (xs : List A) (l : List Field)
    → All c.IsInRange xs
    → is_nil (emit (message_fields c.encode n xs ++ l)) ≡ (all c.is_default xs && is_nil (emit l))
unfolding message_fields
is_nil-message_fields c n [] l r = refl
is_nil-message_fields c n (x ∷ xs) l (r, rs) =
    rw
      (
        append_assoc (bytes_fields n (c.encode [] x)) (message_fields c.encode n xs) l,
        is_nil-bytes_fields n (c.encode [] x) (message_fields c.encode n xs ++ l),
        c.is_nil-encode x r,
        is_nil-message_fields c n xs l rs,
      )
      (&&_assoc (c.is_default x) (all c.is_default xs) (is_nil (emit l)))

module _ {ℓ} {M : Type ℓ} {A : Type 0} (c : Codec A) (visit : M → Field → Decoded M) (n : ℕ)
    (holder : List A → M)
    (pushes : (ys : List A) (b : List ℕ) (x : A)
      → c.decode b ≡ ok x
      → visit (holder ys) (at n (bytes b)) ≡ ok (holder (push ys x))) where
  go_on :
      (x : A) (xs ys : List A) (gs : List Field)
      → c.IsInRange x
      → length (c.encode [] x) < 2 ^ 64
      → ((zs : List A)
          → run visit (holder zs) (message_fields c.encode n xs ++ gs)
            ≡ run visit (holder (zs ++ kept_all c xs)) gs)
      → run visit (holder ys) (message_fields c.encode n (x ∷ xs) ++ gs)
        ≡ run visit (holder (ys ++ kept_all c (x ∷ xs))) gs
  unfolding message_fields kept_all run
  go_on x xs ys gs r h ih = elim (Bool-cases (c.is_default x)) [
    | inl d ↦ rw (d, skipped (c.encode [] x) (c.is_nil-encode x r ∙ d)) (ih ys)
    | inr d ↦
        rw
          (
            d,
            written (c.encode [] x) (c.is_nil-encode x r ∙ d),
            run,
            pushes ys (c.encode [] x) (c.kept x) (c.decode-encode x r h),
          )
          (ih (push ys (c.kept x)) ∙ ap (λ l. run visit (holder l) gs) (append_assoc ys _ _))
  ]

  run-messages :
      (xs ys : List A) (gs : List Field)
      → All c.IsInRange xs
      → All (λ m. length (c.encode [] m) < 2 ^ 64) xs
      → run visit (holder ys) (message_fields c.encode n xs ++ gs)
        ≡ run visit (holder (ys ++ kept_all c xs)) gs
  run-messages [] ys gs r h =
      unfold message_fields kept_all in ap (λ l. run visit (holder l) gs) (sym (append-nil ys))
  run-messages (x ∷ xs) ys gs (r, rs) (h, hs) =
      go_on x xs ys gs r h (λ zs. run-messages xs zs gs rs hs)

  -- The encoded messages are pushed in order, but for those that are default.
  pub run-message_fields :
      (xs ys : List A) (gs : List Field)
      → All c.IsInRange xs
      → length (emit (message_fields c.encode n xs)) < 2 ^ 64
      → run visit (holder ys) (message_fields c.encode n xs ++ gs)
        ≡ run visit (holder (ys ++ kept_all c xs)) gs
  run-message_fields xs ys gs r h =
      run-messages xs ys gs r (message_fields_bound c.encode n xs (2 ^ 64) h)

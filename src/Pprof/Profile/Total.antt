-- ===== src/Pprof/Profile/Total.antt =====
-- src/pprof.rs: `PprofProfile::decode` ends on every input.
use pprofessor.Common.{
  ℕ, List, ◌==◌, ◌≢◌, Bool, true, false, if◌then◌else◌, ok, err, ◌>>=◌, Avoids, Avoids-bind,
  Avoids-ne, [], ◌∷◌, is_nil,
}
use pprofessor.Wire.Decode.{
  Decoded, out_of_fuel, Field, FieldValue, varint, bytes, fixed32, fixed64, decode_message,
}
use pprofessor.Wire.Total.{decode_message_total, decode_packed_total}
use pprofessor.Pprof.ValueType
use pprofessor.Pprof.Line
use pprofessor.Pprof.Label
use pprofessor.Pprof.Sample
use pprofessor.Pprof.Mapping
use pprofessor.Pprof.Location
use pprofessor.Pprof.Function
use pprofessor.Pprof.StringTable
use pprofessor.Pprof.Utf8.{is_utf8}
use pprofessor.Pprof.Profile.{
  PprofProfile, blank, no_strings, visit, visit_value, visit_bytes, push_comment, decode,
}

abbrev Ends {ℓ} : {A : Type ℓ} → Decoded A → Type 0
Ends r = Avoids out_of_fuel r

Ends-if {ℓ} :
    {A : Type ℓ} (b : Bool) (x y : Decoded A) → Ends x → Ends y → Ends (if b then x else y)
Ends-if true x y h k = h
Ends-if false x y h k = k

Ends-then {ℓ κ} :
    {A : Type ℓ} {B : Type κ} (r : Decoded A) (f : A → B) → Ends r → Ends (r >>= λ a. ok (f a))
Ends-then r f h = Avoids-bind out_of_fuel r _ h (λ a _. tt)

Line-Ends : (bs : List ℕ) → Ends (Line.decode bs)
unfolding Line.decode
Line-Ends bs = decode_message_total Line.visit (λ m f. tt) Line.default bs

Label-Ends : (bs : List ℕ) → Ends (Label.decode bs)
unfolding Label.decode
Label-Ends bs = decode_message_total Label.visit (λ m f. tt) Label.default bs

ValueType-Ends : (bs : List ℕ) → Ends (ValueType.decode bs)
unfolding ValueType.decode
ValueType-Ends bs = decode_message_total ValueType.visit (λ m f. tt) ValueType.default bs

Mapping-Ends : (bs : List ℕ) → Ends (Mapping.decode bs)
unfolding Mapping.decode
Mapping-Ends bs = decode_message_total Mapping.visit (λ m f. tt) Mapping.default bs

Function-Ends : (bs : List ℕ) → Ends (Function.decode bs)
unfolding Function.decode
Function-Ends bs = decode_message_total Function.visit (λ m f. tt) Function.default bs

Location-visit-Ends : (m : Location.Location) (f : Field) → Ends (Location.visit m f)
unfolding Location.visit
Location-visit-Ends m f = value f.number f.value
  where
    value : (n : ℕ) (x : FieldValue) → Ends (Location.visit_value m n x)
    value n (varint v) =
        Ends-if (n == 1) _ _ tt
          (Ends-if (n == 2) _ _ tt (Ends-if (n == 3) _ _ tt (Ends-if (n == 5) _ _ tt tt)))
    value n (bytes b) = Ends-if (n == 4) _ _ (Ends-then (Line.decode b) _ (Line-Ends b)) tt
    value n fixed32 = tt
    value n fixed64 = tt

Location-Ends : (bs : List ℕ) → Ends (Location.decode bs)
unfolding Location.decode
Location-Ends bs = decode_message_total Location.visit Location-visit-Ends Location.default bs

Sample-visit-Ends : (m : Sample.Sample) (f : Field) → Ends (Sample.visit m f)
unfolding Sample.visit
Sample-visit-Ends m f = value f.number f.value
  where
    value : (n : ℕ) (x : FieldValue) → Ends (Sample.visit_value m n x)
    value n (varint v) = Ends-if (n == 1) _ _ tt (Ends-if (n == 2) _ _ tt tt)
    value n (bytes b) = Ends-if (n == 1) _ _ (decode_packed_total _ m b) (
        Ends-if (n == 2) _ _ (decode_packed_total _ m b)
          (Ends-if (n == 3) _ _ (Ends-then (Label.decode b) _ (Label-Ends b)) tt))
    value n fixed32 = tt
    value n fixed64 = tt

Sample-Ends : (bs : List ℕ) → Ends (Sample.decode bs)
unfolding Sample.decode
Sample-Ends bs = decode_message_total Sample.visit Sample-visit-Ends Sample.default bs

visit_bytes-Ends : (p : PprofProfile) (n : ℕ) (b : List ℕ) → Ends (visit_bytes p n b)
unfolding visit_bytes
visit_bytes-Ends p n b =
    Ends-if (n == 1) _ _ (Ends-then (ValueType.decode b) _ (ValueType-Ends b)) (
      Ends-if (n == 2) _ _ (Ends-then (Sample.decode b) _ (Sample-Ends b)) (
        Ends-if (n == 3) _ _ (Ends-then (Mapping.decode b) _ (Mapping-Ends b)) (
          Ends-if (n == 4) _ _ (Ends-then (Location.decode b) _ (Location-Ends b)) (
            Ends-if (n == 5) _ _ (Ends-then (Function.decode b) _ (Function-Ends b)) (
              Ends-if (n == 6) _ _ (Ends-if (is_utf8 b) _ _ tt (λ e. cc)) (
                Ends-if (n == 11) _ _ (Ends-then (ValueType.decode b) _ (ValueType-Ends b))
                  (Ends-if (n == 13) _ _ (decode_packed_total push_comment p b) tt)))))))

visit-Ends : (p : PprofProfile) (f : Field) → Ends (visit p f)
unfolding visit
visit-Ends p f = value f.number f.value
  where
    value : (n : ℕ) (x : FieldValue) → Ends (visit_value p n x)
    value n (varint v) = tt
    value n (bytes b) = visit_bytes-Ends p n b
    value n fixed32 = tt
    value n fixed64 = tt

from_strings-Ends : (ss : List (List ℕ)) → Ends (StringTable.from_strings ss)
unfolding StringTable.from_strings
from_strings-Ends [] = λ e. cc
from_strings-Ends (s ∷ ss) = Ends-if (is_nil s) _ _ tt (λ e. cc)

-- `decode` ends on every list of bytes, well formed or not: none of its loops, nor those of the
-- messages inside, runs out of the rounds that the data's length gives it.
pub decode-ne-out_of_fuel : (bs : List ℕ) → decode bs ≢ err out_of_fuel
unfolding decode
decode-ne-out_of_fuel bs = Avoids-ne out_of_fuel _ (
    Avoids-bind out_of_fuel (decode_message visit (blank no_strings) bs) _
      (decode_message_total visit visit-Ends (blank no_strings) bs)
      (λ p _.
        Ends-then (StringTable.from_strings p.strings.strings) _
          (from_strings-Ends p.strings.strings)))

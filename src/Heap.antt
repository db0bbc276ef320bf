-- ===== src/Heap.antt =====
-- src/heap/mod.rs: heap frames and measurements, the errors of the module, and its parts.
pub mod Tracker
pub mod Snapshot
pub mod Validate
pub mod Export
pub mod Linux
use pprofessor.Common.{
  ℕ, ◌+◌, ◌-◌, ◌^◌, ◌≤◌, ◌<◌, List, [], ◌∷◌, Option, none, some, Result, ok, err, ◌>>=◌, leb,
  if◌then◌else◌, ◌≡◌, ◌↔◌, refl, sym, ap, ◌∙◌, arith,
}
use pprofessor.Common.Int.{ℤ, pos, i64_max}
use pprofessor.Common.Ord.{
  Ord, nat_ord, int_ord, bytes_ord, list_ord, option_ord, pair_ord, key_ord,
}

pub record HeapMapping : Type 0 where
  pub memory_start : ℕ
  pub memory_limit : ℕ
  pub file_offset : ℕ
  pub filename : List ℕ
  pub build_id : List ℕ

pub record HeapFrame : Type 0 where
  pub address : ℕ
  pub function : List ℕ
  pub file : List ℕ
  pub line : ℤ
  pub mapping : Option HeapMapping

abbrev pub no_frame : HeapFrame
no_frame = record { address = 0; function = []; file = []; line = pos 0; mapping = none }

-- The derived orders, field after field.
abbrev pub mapping_ord : Ord HeapMapping
mapping_ord =
    key_ord (pair_ord nat_ord (pair_ord nat_ord (pair_ord nat_ord (pair_ord bytes_ord bytes_ord))))
      (λ m. (m.memory_start, (m.memory_limit, (m.file_offset, (m.filename, m.build_id)))))
      (λ t. record {
        memory_start = t.0;
        memory_limit = t.1.0;
        file_offset = t.1.1.0;
        filename = t.1.1.1.0;
        build_id = t.1.1.1.1;
      })
      (λ m. refl)

abbrev pub frame_ord : Ord HeapFrame
frame_ord =
    key_ord
      (pair_ord nat_ord
        (pair_ord bytes_ord (pair_ord bytes_ord (pair_ord int_ord (option_ord mapping_ord)))))
      (λ f. (f.address, (f.function, (f.file, (f.line, f.mapping)))))
      (λ t. record {
        address = t.0;
        function = t.1.0;
        file = t.1.1.0;
        line = t.1.1.1.0;
        mapping = t.1.1.1.1;
      })
      (λ f. refl)

abbrev pub Stack : Type 0
Stack = List HeapFrame

unfoldable pub stack_ord : Ord Stack
stack_ord = list_ord frame_ord

-- One constructor for each message of the module that its operations fail with. `out_of_bounds` is a
-- panic.
pub data HeapError : Type 0 where
  measurement_overflow missing_stack null_allocation duplicate_live unknown_free : HeapError
  empty_domain before_epoch invalid_time out_of_bounds : HeapError

abbrev pub Heaped {ℓ} : Type ℓ → Type ℓ
Heaped A = Result HeapError A

pub record HeapValues : Type 0 where
  pub alloc_objects : ℕ
  pub alloc_space : ℕ
  pub inuse_objects : ℕ
  pub inuse_space : ℕ

abbrev pub zero_values : HeapValues
zero_values = record { alloc_objects = 0; alloc_space = 0; inuse_objects = 0; inuse_space = 0 }

-- `checked_add` on u64, then the bound of int64.
unfoldable pub add_measure : ℕ → ℕ → Heaped ℕ
add_measure a b =
    if leb (2 ^ 64) (a + b)
    then err measurement_overflow
    else if leb (a + b) i64_max
    then ok (a + b)
    else err measurement_overflow

unfoldable pub checked_add : HeapValues → HeapValues → Heaped HeapValues
unfolding add_measure
checked_add a b = do
  ao ← add_measure a.alloc_objects b.alloc_objects
  asp ← add_measure a.alloc_space b.alloc_space
  io ← add_measure a.inuse_objects b.inuse_objects
  isp ← add_measure a.inuse_space b.inuse_space
  ok (record { alloc_objects = ao; alloc_space = asp; inuse_objects = io; inuse_space = isp })

-- The sum of two measurements without a bound.
abbrev pub sum_values : HeapValues → HeapValues → HeapValues
sum_values a b = record {
  alloc_objects = a.alloc_objects + b.alloc_objects;
  alloc_space = a.alloc_space + b.alloc_space;
  inuse_objects = a.inuse_objects + b.inuse_objects;
  inuse_space = a.inuse_space + b.inuse_space;
}

-- Every measurement fits an int64.
pub record FitsInt64 (v : HeapValues) : Type 0 where
  pub alloc_objects_fits : v.alloc_objects ≤ i64_max
  pub alloc_space_fits : v.alloc_space ≤ i64_max
  pub inuse_objects_fits : v.inuse_objects ≤ i64_max
  pub inuse_space_fits : v.inuse_space ≤ i64_max

add_measure_ok : (a b c : ℕ) → add_measure a b ≡ ok c → (c ≡ a + b) × (c ≤ i64_max)
unfolding add_measure
add_measure_ok a b c h = ground arith

add_measure_fits : (a b : ℕ) → a + b ≤ i64_max → add_measure a b ≡ ok (a + b)
unfolding add_measure
add_measure_fits a b h = ground arith

pub checked_add_ok :
    (a b v : HeapValues) → checked_add a b ≡ ok v → (v ≡ sum_values a b) × FitsInt64 v
unfolding checked_add
checked_add_ok a b v h = ground arith

pub checked_add_fits :
    (a b : HeapValues) → FitsInt64 (sum_values a b) → checked_add a b ≡ ok (sum_values a b)
unfolding checked_add
checked_add_fits a b f = rw (
  add_measure_fits a.alloc_objects b.alloc_objects f.alloc_objects_fits,
  add_measure_fits a.alloc_space b.alloc_space f.alloc_space_fits,
  add_measure_fits a.inuse_objects b.inuse_objects f.inuse_objects_fits,
  add_measure_fits a.inuse_space b.inuse_space f.inuse_space_fits,
)

-- Addition succeeds exactly where every one of the four sums fits an int64, and then it gives the
-- four sums.
pub checked_add_iff :
    (a b v : HeapValues) → (checked_add a b ≡ ok v) ↔ ((v ≡ sum_values a b) × FitsInt64 v)
checked_add_iff a b v =
    (checked_add_ok a b v, λ (e, f). checked_add_fits a b (rw (← e) f) ∙ ap ok (sym e))

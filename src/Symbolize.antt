-- ===== src/Symbolize.antt =====
-- src/symbolicate.rs: chains of symbolizers, and the native symbolizer's batches and its cache. What
-- opens an object file and looks an address up in it is the environment.
pub mod Batch
pub mod Cache
pub mod Chain
pub mod Refresh
use Prim.Native.Nat.{Ordering, compare}
use pprofessor.Common.{
  ℕ, zero, suc, ◌+◌, ◌-◌, ◌*◌, ◌%◌, ◌^◌, List, [], ◌∷◌, ◌++◌, push, length, is_nil, any, leb, ltb,
  ◌==◌, ◌&&◌, ◌||◌, beq, not, Bool, true, false, if◌then◌else◌, Option, none, some,
}
use pprofessor.Common.Ord.{nat_ord}
use pprofessor.Common.Maps.{lookup, put}
use pprofessor.Common.Sets.{contains, collect_set}
use pprofessor.Common.Sort.{sort_by}
use pprofessor.Symbolicated.{FrameInfo, LoadedImage}
use pprofessor.Symbolicated.FromRaw.{hex_name}

-- `SymbolizerChain`: the first symbolizer that knows the address.
abbrev pub or_next : Option FrameInfo → Option FrameInfo → Option FrameInfo
or_next none next = next
or_next (some info) next = some info

unfoldable pub symbolize_chain : List (ℕ → Option FrameInfo) → ℕ → Option FrameInfo
symbolize_chain [] address = none
symbolize_chain (s ∷ ss) address = or_next (s address) (symbolize_chain ss address)

pub record SymbolInfo : Type 0 where
  pub function : List ℕ
  pub file : List ℕ
  pub line : ℕ

-- The first frame that the debug information has for an address: the function's raw name, and the
-- location with its file and line.
pub record DwarfFrame : Type 0 where
  pub function : Option (List ℕ)
  pub location : Option (Option (List ℕ) × Option ℕ)

-- A parsed object: the lookup in its debug information, if it has any that can be read, and its
-- symbols with their addresses and names.
pub record ObjectFile : Type 0 where
  pub dwarf : Option (ℕ → Option DwarfFrame)
  pub symbols : List (ℕ × Option (List ℕ))

-- An image that could be opened; its object is missing where it cannot be parsed.
pub record ImageInfo : Type 0 where
  pub load_address : ℕ
  pub text_vmaddr : ℕ
  pub object_len : ℕ
  pub object : Option ObjectFile

abbrev pub max_dwarf_bytes : ℕ
max_dwarf_bytes = 50 * 1024 * 1024

abbrev pub Resolved : Type 0
Resolved = List (ℕ × SymbolInfo)

abbrev pub cmp_loaded : LoadedImage → LoadedImage → Ordering
cmp_loaded a b = compare a.load_address b.load_address

abbrev pub cmp_infos : ImageInfo → ImageInfo → Ordering
cmp_infos a b = compare a.load_address b.load_address

-- `addr.wrapping_sub(load_address)` on u64.
abbrev pub wrapping_sub : ℕ → ℕ → ℕ
wrapping_sub a b = (a + 2 ^ 64 - b) % 2 ^ 64

-- An image that cannot be opened is left out.
abbrev cons_opened : Option ImageInfo → List ImageInfo → List ImageInfo
cons_opened none infos = infos
cons_opened (some info) infos = info ∷ infos

module _ (open_image : List ℕ → ℕ → Option ImageInfo) where
  unfoldable pub open_images : List LoadedImage → List ImageInfo
  open_images [] = []
  open_images (i ∷ is) = cons_opened (open_image i.path i.load_address) (open_images is)

  unfoldable pub image_infos : List LoadedImage → List ImageInfo
  unfolding open_images
  image_infos images = sort_by cmp_infos (open_images (sort_by cmp_loaded images))

-- `image_infos.partition_point(|img| img.load_address <= addr)` of sorted images.
unfoldable pub partition_point : ℕ → List ImageInfo → ℕ
partition_point addr [] = 0
partition_point addr (i ∷ is) = if leb i.load_address addr then 1 + partition_point addr is else 0

-- Each image with the addresses that belong to it.
abbrev pub Batches : Type 0
Batches = List (ImageInfo × List ℕ)

abbrev pub push_inside : ℕ → ImageInfo × List ℕ → ImageInfo × List ℕ
push_inside addr (img, addrs) =
    if ltb (wrapping_sub addr img.load_address) img.object_len
    then (img, push addrs addr)
    else (img, addrs)

-- `by_image[idx - 1].push(addr)`, where the address is inside the image.
unfoldable pub push_at : ℕ → ℕ → Batches → Batches
push_at addr i [] = []
push_at addr zero (b ∷ bs) = push_inside addr b ∷ bs
push_at addr (suc i) (b ∷ bs) = b ∷ push_at addr i bs

abbrev pub push_below : ℕ → ℕ → Batches → Batches
push_below addr zero bs = bs
push_below addr (suc i) bs = push_at addr i bs

unfoldable pub group : List ImageInfo → List ℕ → Batches → Batches
unfolding partition_point push_at
group infos [] bs = bs
group infos (addr ∷ addrs) bs = group infos addrs (push_below addr (partition_point addr infos) bs)

abbrev pub empty_batches : List ImageInfo → Batches
empty_batches [] = []
empty_batches (i ∷ is) = (i, []) ∷ empty_batches is

-- `build_symbol_index`: the symbols with an address and a name, by address.
abbrev push_symbol : ℕ → Option (List ℕ) → List (ℕ × List ℕ) → List (ℕ × List ℕ)
push_symbol address none symbols = symbols
push_symbol address (some name) symbols =
    if not (address == 0) && not (is_nil name) then (address, name) ∷ symbols else symbols

unfoldable pub named_symbols : List (ℕ × Option (List ℕ)) → List (ℕ × List ℕ)
named_symbols [] = []
named_symbols ((address, name) ∷ symbols) = push_symbol address name (named_symbols symbols)

abbrev pub cmp_symbols : ℕ × List ℕ → ℕ × List ℕ → Ordering
cmp_symbols a b = compare a.0 b.0

unfoldable pub build_symbol_index : ObjectFile → List (ℕ × List ℕ)
unfolding named_symbols
build_symbol_index object = sort_by cmp_symbols (named_symbols object.symbols)

-- The symbol before the partition point: the last one of those at or below the address.
unfoldable pub last_symbol : ℕ → Option (List ℕ) → List (ℕ × List ℕ) → Option (List ℕ)
last_symbol address before [] = before
last_symbol address before ((a, name) ∷ symbols) =
    if leb a address then last_symbol address (some name) symbols else before

abbrev pub or_else : Option SymbolInfo → Option SymbolInfo → Option SymbolInfo
or_else none next = next
or_else (some info) next = some info

abbrev pub or_blank : Option (List ℕ) → List ℕ
or_blank none = []
or_blank (some s) = s

abbrev pub or_zero_line : Option ℕ → ℕ
or_zero_line none = 0
or_zero_line (some n) = n

abbrev pub insert_symbol : ℕ → Option SymbolInfo → Resolved → Resolved
insert_symbol addr none out = out
insert_symbol addr (some info) out = put nat_ord addr info out

-- `addr.wrapping_sub(img.load_address).wrapping_add(img.text_vmaddr)`
abbrev pub file_addr : ImageInfo → ℕ → ℕ
file_addr img addr = (wrapping_sub addr img.load_address + img.text_vmaddr) % 2 ^ 64

module _ (demangle : List ℕ → List ℕ) where
  abbrev pub symbol_info : Option (List ℕ) → Option SymbolInfo
  symbol_info none = none
  symbol_info (some name) = some (record { function = demangle name; file = []; line = 0 })

  unfoldable pub resolve_via_symbol_index : List (ℕ × List ℕ) → ℕ → Option SymbolInfo
  unfolding last_symbol
  resolve_via_symbol_index symbols address = symbol_info (last_symbol address none symbols)

  abbrev pub frame_function : Option (List ℕ) → ℕ → List ℕ
  frame_function none orig_addr = hex_name orig_addr
  frame_function (some name) orig_addr = demangle name

  abbrev pub frame_symbol : ℕ → Option DwarfFrame → Option SymbolInfo
  frame_symbol orig_addr none = none
  frame_symbol orig_addr (some f) =
      let function = frame_function f.function orig_addr in
      elim f.location [
        | none ↦ some (record { function = function; file = []; line = 0 })
        | some (file, line) ↦
            some (record { function = function; file = or_blank file; line = or_zero_line line })
      ]

  abbrev pub resolve_with_ctx : Option (ℕ → Option DwarfFrame) → ℕ → ℕ → Option SymbolInfo
  resolve_with_ctx none address orig_addr = none
  resolve_with_ctx (some find_frames) address orig_addr =
      frame_symbol orig_addr (find_frames address)

  -- The debug information of an object that is not too large, then the symbols.
  abbrev pub lookup_in : ImageInfo → Option ObjectFile → ℕ → Option SymbolInfo
  lookup_in img none addr = none
  lookup_in img (some object) addr =
      or_else
        (resolve_with_ctx (if leb img.object_len max_dwarf_bytes then object.dwarf else none)
          (file_addr img addr) addr)
        (resolve_via_symbol_index (build_symbol_index object) (file_addr img addr))

  unfoldable pub lookup_symbol : ImageInfo → ℕ → Option SymbolInfo
  unfolding resolve_via_symbol_index build_symbol_index
  lookup_symbol img addr = lookup_in img img.object addr

  unfoldable pub resolve_for_image : ImageInfo → List ℕ → Resolved → Resolved
  unfolding lookup_symbol
  resolve_for_image img [] out = out
  resolve_for_image img (addr ∷ addrs) out =
      resolve_for_image img addrs (insert_symbol addr (lookup_symbol img addr) out)

  unfoldable pub resolve_batches : Batches → Resolved → Resolved
  unfolding resolve_for_image
  resolve_batches [] out = out
  resolve_batches ((img, addrs) ∷ bs) out = resolve_batches bs (resolve_for_image img addrs out)

  unfoldable pub resolve_all :
      (List ℕ → ℕ → Option ImageInfo) → List LoadedImage → List ℕ → Resolved
  unfolding image_infos group resolve_batches
  resolve_all open_image images addresses =
      let infos = image_infos open_image images in
      if is_nil addresses
      then []
      else resolve_batches (group infos addresses (empty_batches infos)) []

pub record NativeSymbolizer : Type 0 where
  pub images : List LoadedImage
  pub resolved : Resolved
  pub attempted : List ℕ

-- `HashMap::extend` with the entries of a map, in which no key stands twice.
unfoldable pub extend : Resolved → Resolved → Resolved
extend resolved [] = resolved
extend resolved ((addr, info) ∷ new) = put nat_ord addr info (extend resolved new)

-- `filter(|address| self.attempted.insert(*address))`: the set after it, and what passes.
unfoldable pub attempt : List ℕ → List ℕ → List ℕ × List ℕ
attempt attempted [] = (attempted, [])
attempt attempted (a ∷ addresses) =
    let known = attempt attempted addresses in
    let (after, pending) = attempt (push attempted a) addresses in
    if contains a attempted then known else (after, a ∷ pending)

abbrev pub is_resolved : Option SymbolInfo → Bool
is_resolved none = false
is_resolved (some info) = true

unfoldable pub retain_resolved : Resolved → List ℕ → List ℕ
retain_resolved resolved [] = []
retain_resolved resolved (a ∷ attempted) =
    if is_resolved (lookup nat_ord a resolved)
    then a ∷ retain_resolved resolved attempted
    else retain_resolved resolved attempted

abbrev same_image : LoadedImage → LoadedImage → Bool
same_image a b = a.load_address == b.load_address && beq a.path b.path

abbrev pub same_images : List LoadedImage → List LoadedImage → Bool
same_images [] [] = true
same_images [] (b ∷ bs) = false
same_images (a ∷ xs) [] = false
same_images (a ∷ xs) (b ∷ bs) = same_image a b && same_images xs bs

abbrev pub frame_info : Option SymbolInfo → Option FrameInfo
frame_info none = none
frame_info (some info) =
    some (record { function = info.function; file = info.file; line = info.line })

unfoldable pub symbolize_frame : NativeSymbolizer → ℕ → Option FrameInfo
symbolize_frame s address = frame_info (lookup nat_ord address s.resolved)

unfoldable pub refresh_images : NativeSymbolizer → List LoadedImage → NativeSymbolizer
unfolding retain_resolved
refresh_images s images =
    if is_nil images || same_images images s.images
    then s
    else record s { images = images; attempted = retain_resolved s.resolved s.attempted }

module _ (demangle : List ℕ → List ℕ) (open_image : List ℕ → ℕ → Option ImageInfo) where
  unfoldable pub new : List LoadedImage → List ℕ → NativeSymbolizer
  unfolding resolve_all
  new images addresses = record {
    images = images;
    resolved = resolve_all demangle open_image images addresses;
    attempted = collect_set [] addresses;
  }

  abbrev pub add_pending : NativeSymbolizer → List ℕ × List ℕ → NativeSymbolizer
  add_pending s (attempted, pending) =
      if not (is_nil pending)
      then record s {
        attempted = attempted;
        resolved = extend s.resolved (resolve_all demangle open_image s.images pending);
      }
      else record s { attempted = attempted }

  unfoldable pub resolve_more : NativeSymbolizer → List ℕ → NativeSymbolizer
  unfolding resolve_all extend attempt
  resolve_more s addresses = add_pending s (attempt s.attempted addresses)

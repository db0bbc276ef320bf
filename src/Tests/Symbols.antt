-- ===== src/Tests/Symbols.antt =====
-- Runs of src/symbolicate.rs on concrete inputs.
use pprofessor.Common.{ℕ, List, [], ◌∷◌, Option, none, some, if◌then◌else◌, ◌≡◌, ◌↔◌, refl}
use pprofessor.Common.Sets.{contains}
use pprofessor.Symbolicated.{FrameInfo, LoadedImage}
use pprofessor.Symbolize.{
  ImageInfo, symbolize_chain, image_infos, new, frame_info, symbolize_frame, or_next, resolve_more,
  refresh_images,
}
use pprofessor.Symbolize.Batch.{resolve_one}
use pprofessor.Symbolize.Cache.{resolve_rounds, asked_in, symbolize_frame_rounds}
use pprofessor.Symbolize.Refresh.{refresh_images_retries}
use pprofessor.Symbolize.Chain.{IsFirst, AllMiss, symbolize_chain_iff}

abbrev as_it_is : List ℕ → List ℕ
as_it_is name = name

-- Every file opens, as an object with one symbol.
abbrev opens : List ℕ → ℕ → Option ImageInfo
opens path load_address = some (record {
  load_address = load_address;
  text_vmaddr = 4096;
  object_len = 100;
  object = some (record { dwarf = none; symbols = (4096, some path) ∷ [] });
})

abbrev two_images : List LoadedImage
two_images =
    record { load_address = 500; path = 98 ∷ [] }
    ∷ record { load_address = 200; path = 97 ∷ [] }
    ∷ []

abbrev rounds : List (List ℕ)
rounds = (510 ∷ 350 ∷ []) ∷ (210 ∷ []) ∷ []

symbolize_frame_rounds_example :
    symbolize_frame
      (resolve_rounds as_it_is opens (new as_it_is opens two_images (210 ∷ [])) rounds)
      510
    ≡ frame_info (
        if asked_in as_it_is opens (λ b. contains b (210 ∷ [])) rounds 510
        then resolve_one as_it_is (image_infos opens two_images) 510
        else none)
symbolize_frame_rounds_example =
    symbolize_frame_rounds as_it_is opens two_images (210 ∷ []) rounds 510

abbrev knows : ℕ → FrameInfo → ℕ → Option FrameInfo
knows a info b = if contains b (a ∷ []) then some info else none

abbrev info : FrameInfo
info = record { function = 102 ∷ []; file = []; line = 1 }

abbrev two_symbolizers : List (ℕ → Option FrameInfo)
two_symbolizers = knows 1 info ∷ knows 2 info ∷ []

symbolize_chain_iff_example :
    ((i : FrameInfo) → (symbolize_chain two_symbolizers 2 ≡ some i) ↔ IsFirst two_symbolizers 2 i)
    × ((symbolize_chain two_symbolizers 2 ≡ none) ↔ AllMiss 2 two_symbolizers)
symbolize_chain_iff_example = symbolize_chain_iff two_symbolizers 2

abbrev other_images : List LoadedImage
other_images = record { load_address = 340; path = 99 ∷ [] } ∷ []

refresh_images_retries_example :
    symbolize_frame
      (resolve_more as_it_is opens
        (refresh_images
          (resolve_rounds as_it_is opens (new as_it_is opens two_images (210 ∷ [])) rounds)
          other_images)
        (350 ∷ []))
      350
    ≡ or_next
        (symbolize_frame
          (resolve_rounds as_it_is opens (new as_it_is opens two_images (210 ∷ [])) rounds)
          350)
        (frame_info (
          if contains 350 (350 ∷ [])
          then resolve_one as_it_is (image_infos opens other_images) 350
          else none))
refresh_images_retries_example =
    refresh_images_retries as_it_is opens two_images other_images (210 ∷ []) rounds (350 ∷ []) 350
      refl

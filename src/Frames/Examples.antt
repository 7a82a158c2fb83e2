-- ===== src/Frames/Examples.antt =====
-- A run of the reader of frames.
use croton_mcp.Base.{true, Option, none, some, List, [], ◌∷◌, ◌==◌, Bytes, codes, length, ◌≡◌, refl}
use croton_mcp.Frames.Reader.{invalid, SliceError, no_more, Source, new_reader, read}
use croton_mcp.Frames.Ended.{HasEnded, read_all-read}
use croton_mcp.Frames.Whole.{read_all, IsFramed, read_all-new_reader}

abbrev next_slice : List Bytes → List Bytes × Bytes × Option SliceError
next_slice [] = ([], [], some no_more)
next_slice (f ∷ fs) = (fs, f, none)

-- A source of frames, of which those of four bytes pass.
abbrev listed : Source (List Bytes)
listed = record {
  read_slice = next_slice;
  validate_object = λ f. length f == 4;
  valid_protocol_aliases = λ f. true;
}

abbrev input : List Bytes
input = codes "{1}\n" ∷ codes "{2}\n" ∷ codes "no\n" ∷ codes "{3}\n" ∷ []

reads_two_frames :
    (read_all listed (3 ∷ 9 ∷ 9 ∷ 9 ∷ 9 ∷ []) (new_reader input (some 8))).1 ≡ codes "{1}\n{2}\n"
unfolding read_all read
reads_two_frames = refl

ends_in_an_error :
    (read_all listed (3 ∷ 9 ∷ 9 ∷ 9 ∷ 9 ∷ []) (new_reader input (some 8))).0.terminal ≡ some invalid
unfolding read_all read
ends_in_an_error = refl

read_all-new_reader_example :
    let out = read_all listed (3 ∷ 9 ∷ []) (new_reader input (some 8)) in
    IsFramed listed 8 [] out.0 out.1
read_all-new_reader_example = read_all-new_reader listed input 8 (3 ∷ 9 ∷ [])

refuses_the_first : (read listed 5 (new_reader (codes "no\n" ∷ []) (some 8))).2 ≡ some invalid
unfolding read
refuses_the_first = refl

read_all-read_example :
    let got = read listed 5 (new_reader (codes "no\n" ∷ []) (some 8)) in
    HasEnded listed invalid got.0 × (read_all listed (9 ∷ []) got.0 ≡ (got.0, []))
read_all-read_example =
    read_all-read listed invalid 5 (9 ∷ []) (new_reader (codes "no\n" ∷ []) (some 8))
      refuses_the_first

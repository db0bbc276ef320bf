-- ===== src/Report/Resolve.antt =====
-- src/report.rs: `resolve_stack`, from the locations of a sample to its frames.
use pprofessor.Common.{ℕ, List, [], ◌∷◌, ◌++◌, is_nil, Option, none, some, if◌then◌else◌}
use pprofessor.Common.Int.{pos}
use pprofessor.Common.Ord.{nat_ord}
use pprofessor.Common.Maps.{lookup, put}
use pprofessor.Pprof.Line.{Line}
use pprofessor.Pprof.Sample.{Sample}
use pprofessor.Pprof.Location.{Location}
use pprofessor.Pprof.Function.{Function}
use pprofessor.Pprof.Profile.{PprofProfile}
use pprofessor.Symbolicated.FromRaw.{hex_name}
use pprofessor.Report.{
  ResolvedFrame, function_identity, address_identity, profile_string, FrameStat, ReportFrame,
}

abbrev pub Locations : Type 0
Locations = List (ℕ × Location)

abbrev pub Functions : Type 0
Functions = List (ℕ × Function)

-- The maps by identifier; of two entries with one identifier the later one counts.
unfoldable pub locations_by_id : List Location → Locations → Locations
locations_by_id [] m = m
locations_by_id (l ∷ ls) m = locations_by_id ls (put nat_ord l.id l m)

unfoldable pub functions_by_id : List Function → Functions → Functions
functions_by_id [] m = m
functions_by_id (f ∷ fs) m = functions_by_id fs (put nat_ord f.id f m)

abbrev pub address_frame : Location → ResolvedFrame
address_frame l = record {
  identity = address_identity l.address;
  function = hex_name l.address;
  file = [];
  line = pos 0;
}

abbrev pub line_frame : PprofProfile → Line → Option Function → List ResolvedFrame
line_frame p l none = []
line_frame p l (some f) =
    record {
      identity = function_identity f.id;
      function = profile_string p f.name;
      file = profile_string p f.filename;
      line = l.line;
    }
    ∷ []

-- The frames of the lines in reverse: the last line's frame comes first.
unfoldable pub line_frames : PprofProfile → Functions → List Line → List ResolvedFrame
unfolding profile_string
line_frames p functions [] = []
line_frames p functions (l ∷ ls) =
    line_frames p functions ls ++ line_frame p l (lookup nat_ord l.function_id functions)

abbrev pub location_frames : PprofProfile → Functions → Option Location → List ResolvedFrame
location_frames p functions none = []
location_frames p functions (some l) =
    if is_nil l.lines then address_frame l ∷ [] else line_frames p functions l.lines

-- The frames of the locations in reverse.
unfoldable pub frames_of : PprofProfile → Locations → Functions → List ℕ → List ResolvedFrame
unfolding line_frames
frames_of p locations functions [] = []
frames_of p locations functions (id ∷ ids) =
    frames_of p locations functions ids ++ location_frames p functions (lookup nat_ord id locations)

unfoldable pub resolve_stack : PprofProfile → Sample → Locations → Functions → List ResolvedFrame
unfolding frames_of
resolve_stack p s locations functions = frames_of p locations functions s.location_ids

abbrev pub stat : ResolvedFrame → FrameStat
stat f = record {
  function = f.function;
  file = f.file;
  line = f.line;
  flat = pos 0;
  cumulative = pos 0;
}

abbrev pub report_frame : ResolvedFrame → ReportFrame
report_frame f = record { function = f.function; file = f.file; line = f.line }

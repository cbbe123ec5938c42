-- ===== src/Files.antt =====
-- What the program uses of `std::fs` and `Path`: a parameter. A path is a text, and a name that is
-- not UTF-8 stands for its lossy text. `read_dir` gives the names of the entries, an entry that
-- cannot be read being none; the path of an entry is its name joined to the directory.
use headset_battery_indicato.Prelude.{Bool, Option, none, some, List, [], ◌∷◌, Text}

pub record Files : Type 0 where
  pub read_dir : Text → Option (List (Option Text))
  pub read_to_string : Text → Option Text
  pub canonicalize : Text → Option Text
  pub is_file : Text → Bool
  pub join : Text → Text → Text
  pub file_name : Text → Option Text
  pub parent : Text → Option Text

-- `filter_map(Result::ok)`
abbrev pub readable : List (Option Text) → List Text
readable [] = []
readable (none ∷ entries) = readable entries
readable (some name ∷ entries) = name ∷ readable entries

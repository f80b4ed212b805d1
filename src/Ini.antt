-- ===== src/Ini.antt =====
-- What the code uses of CIniFile (src/inifile/inifile.h), a copy of another project's library, as
-- an interface: the default section of a loaded file, and Trim. Load adds the default section, so
-- GetSection finds it in every loaded file. Keys that differ only in the case of their letters
-- are the same key.
use nmdaemon.Prelude.{ℕ, ◌≡◌, Bool, true, List, [], if◌then◌else◌}
use nmdaemon.Text.{Text, trim as trim_text}

pub record Ini : Type 1 where
  pub File : Type 0
  -- strcasecmp(...) == 0 on trimmed keys
  pub same : Text → Text → Bool
  -- GetKeyValue(DEFAULT_SECTION, k): empty where there is no such key
  pub get : Text → File → Text
  -- SetKeyValue(DEFAULT_SECTION, k, v)
  pub set : Text → Text → File → File
  -- GetSection(DEFAULT_SECTION)->RemoveKey(k)
  pub remove : Text → File → File
  -- The keys and values of all sections, in the order in which iteration visits them.
  pub entries : File → List (Text × Text)
  -- Trim(s, c), for one byte c
  pub trim : ℕ → Text → Text
  pub same_refl : (k : Text) → same k k ≡ true
  pub get-set : (k l v : Text) (f : File) → get k (set l v f) ≡ (if same k l then v else get k f)
  pub get-remove : (k l : Text) (f : File) → get k (remove l f) ≡ (if same k l then [] else get k f)
  pub trim_eq : (c : ℕ) (s : Text) → trim c s ≡ trim_text c s

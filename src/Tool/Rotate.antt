-- ===== src/Tool/Rotate.antt =====
-- Tool::rotateConfigFile (src/tool.cpp). The files are those of one name: version 0 is the file
-- itself and version k is its backup `name.k`. std::filesystem::remove throws where the file may
-- not be removed, and std::filesystem::copy throws where the source cannot be read, the target
-- exists or the target may not be written.
pub mod Versions
use nmdaemon.Prelude.{
  ℕ, zero, suc, ◌+◌, ◌-◌, Bool, true, false, not, ◌&&◌, ◌||◌, Option, none, some, is_some, Result,
  ok, throw, fault, ◌>>=◌, leb, ltb, ◌==◌, if◌then◌else◌,
}
use nmdaemon.Text.{Text}

abbrev pub Files : Type 0
Files = ℕ → Option Text

abbrev pub put : ℕ → Option Text → Files → Files
put k c fs i = if i == k then c else fs i

module _ (is_writable : ℕ → Bool) where
  remove : ℕ → Files → Result Files
  remove k fs = if is_writable k then ok (put k none fs) else throw

  copy : ℕ → ℕ → Files → Result Files
  copy a b fs =
      if not (is_some (fs a)) || is_some (fs b) || not (is_writable b)
      then throw
      else ok (put b (fs a) fs)

  -- try { step } catch(...): the files stay as the steps before have left them.
  attempt : Result Files → Files → Bool → Files × Bool
  attempt (ok fs') fs error = (fs', error)
  attempt throw fs error = (fs, true)
  attempt fault fs error = (fs, true)

  -- Copies version k to the version behind it and removes it; where only the removal throws, the
  -- copy stays.
  move : ℕ → Files × Bool → Files × Bool
  unfolding remove copy attempt
  move k (fs, error) =
      if is_some (fs k)
      then (elim (copy k (k + 1) fs) [
        | ok fs' ↦ attempt (remove k fs') fs' error
        | throw ↦ (fs, true)
        | fault ↦ (fs, true)
      ])
      else (fs, error)

  -- for(short i=num_backups; i>1; i--), from k + 1 down.
  unfoldable pub moves : ℕ → Files × Bool → Files × Bool
  unfolding move
  moves zero st = st
  moves (suc k) st = moves k (move (suc k) st)

  drop_last : ℕ → Files → Files × Bool
  unfolding remove attempt
  drop_last n fs =
      if is_some (fs n) then ((attempt (remove n fs) fs false).0, false) else (fs, false)

  copy_file : Files × Bool → Files × Bool
  unfolding copy attempt
  copy_file (fs, error) = attempt (copy 0 1 fs) fs error

  answer : Files × Bool → Files × Bool
  answer (fs, error) = (fs, not error)

  -- The files afterwards, and the result. num_backups is at most 32767, so that its loop variable
  -- of type short holds it.
  unfoldable pub rotate_config_file : ℕ → Files → Files × Bool
  unfolding drop_last moves copy_file answer
  rotate_config_file zero fs = (fs, true)
  rotate_config_file (suc n) fs = answer (copy_file (moves n (drop_last (suc n) fs)))

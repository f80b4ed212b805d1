-- ===== src/Tool/Rotate/Versions.antt =====
-- Where the content of each version is after a rotation.
use nmdaemon.Prelude.{
  ℕ, zero, suc, ◌+◌, ◌-◌, ◌≡◌, refl, ap, ◌∙◌, arith, Bool, true, false, not, none, some, ltb, ◌==◌,
  if◌then◌else◌, ◌||◌, inl, inr, Option-cases,
}
use nmdaemon.Text.{Text}
use nmdaemon.Tool.Rotate.{
  Files, move, moves, copy, remove, attempt, drop_last, copy_file, answer, rotate_config_file,
}

abbrev pub always : ℕ → Bool
always k = true

-- The version of which a rotation with n backups makes version i.
abbrev pub rotated : ℕ → Files → Files
rotated n fs i = if (i == 0) || ltb n i then fs i else fs (i - 1)

-- Version k moved to the version behind it.
abbrev moved : ℕ → Files → Files
moved k fs i = if i == k + 1 then fs k else if i == k then none else fs i

-- After the moves from k down, version 1 is free, and the versions 2 to k + 1 are the old 1 to k.
abbrev shifted : ℕ → Files → Files
shifted k fs i = if (i == 0) || ltb (k + 1) i then fs i else if i == 1 then none else fs (i - 1)

-- Two equal versions have the same content.
same : (fs : Files) (i j : ℕ) → (i == j) ≡ true → fs i ≡ fs j
same fs i j h = ap fs (ground (arith, h))

moved-none :
    (k : ℕ) (fs : Files)
    → fs (k + 1) ≡ none
    → fs k ≡ none
    → (i : ℕ) → fs i ≡ (if i == k + 1 then none else if i == k then none else fs i)
moved-none k fs h n i = ground (arith, same fs i (k + 1), same fs i k)

move-moved :
    (k : ℕ) (st : Files × Bool)
    → st.1 ≡ false
    → st.0 (k + 1) ≡ none
    → ((move always k st).1 ≡ false) × ((i : ℕ) → (move always k st).0 i ≡ moved k st.0 i)
unfolding move copy remove attempt
move-moved k (fs, error) e h = elim (Option-cases (fs k)) [
  | inl n ↦ rw (n, e) (refl, λ i. moved-none k fs h n i)
  | inr s ↦ rw (s.1, h, e) (refl, λ i. ground arith)
]

shift_step :
    (k : ℕ) (fs : Files) (i : ℕ)
    → (if (i == 0) || ltb (k + 1) i
        then moved (suc k) fs i
        else if i == 1
        then none
        else moved (suc k) fs (i - 1))
      ≡ shifted (suc k) fs i
shift_step k fs i = ground (arith, same fs (suc k) (i - 1))

moves-shifted :
    (k : ℕ) (st : Files × Bool)
    → st.1 ≡ false
    → st.0 (k + 1) ≡ none
    → ((moves always k st).1 ≡ false) × ((i : ℕ) → (moves always k st).0 i ≡ shifted k st.0 i)
unfolding moves
moves-shifted zero st e h = (e, λ i. ground arith)
moves-shifted (suc k) st e h =
    go (move-moved (suc k) st e h) (λ q f. moves-shifted k (move always (suc k) st) q f)
  where
    go :
        ((move always (suc k) st).1 ≡ false)
          × ((i : ℕ) → (move always (suc k) st).0 i ≡ moved (suc k) st.0 i)
        → ((move always (suc k) st).1 ≡ false
            → (move always (suc k) st).0 (k + 1) ≡ none
            → ((moves always k (move always (suc k) st)).1 ≡ false)
              × ((i : ℕ)
                  → (moves always k (move always (suc k) st)).0 i
                    ≡ shifted k (move always (suc k) st).0 i))
        → ((moves always k (move always (suc k) st)).1 ≡ false)
          × ((i : ℕ) → (moves always k (move always (suc k) st)).0 i ≡ shifted (suc k) st.0 i)
    go one rest = (
      (rest one.0 free).0,
      λ i. (rest one.0 free).1 i ∙ rw (one.1 i, one.1 (i - 1)) (shift_step k st.0 i),
    )
      where
        free : (move always (suc k) st).0 (k + 1) ≡ none
        free = one.1 (k + 1) ∙ ground arith

drop_last-frees :
    (n : ℕ) (fs : Files)
    → ((drop_last always n fs).1 ≡ false)
      × ((i : ℕ) → (drop_last always n fs).0 i ≡ (if i == n then none else fs i))
unfolding drop_last remove attempt
drop_last-frees n fs = elim (Option-cases (fs n)) [
  | inl e ↦ rw e (refl, λ i. ground (arith, same fs i n))
  | inr s ↦ rw s.1 (refl, λ i. refl)
]

copy_file-copies :
    (st : Files × Bool) (c : Text)
    → st.1 ≡ false
    → st.0 0 ≡ some c
    → st.0 1 ≡ none
    → ((copy_file always st).1 ≡ false)
      × ((i : ℕ) → (copy_file always st).0 i ≡ (if i == 1 then some c else st.0 i))
unfolding copy_file copy attempt
copy_file-copies (fs, error) c e f n = rw (f, n, e) (refl, λ i. refl)

rotate_step :
    (n : ℕ) (fs : Files) (c : Text) (i : ℕ)
    → fs 0 ≡ some c
    → (if i == 1
        then some c
        else if (i == 0) || ltb (n + 1) i
        then (if i == suc n then none else fs i)
        else if i == 1
        then none
        else (if i - 1 == suc n then none else fs (i - 1)))
      ≡ rotated (n + 1) fs i
rotate_step n fs c i h = ground (arith, same fs (i - 1) 0, h)

-- Where the file can be read and nothing keeps the files from being removed and written, a
-- rotation with one backup or more succeeds, backup 1 is a copy of the file, each older backup has
-- moved up by one, the oldest is gone, and neither the file nor a version beyond the backups
-- has changed.
pub rotate_config_file-rotated :
    (n : ℕ) (fs : Files) (c : Text)
    → fs 0 ≡ some c
    → ((rotate_config_file always (suc n) fs).1 ≡ true)
      × ((i : ℕ) → (rotate_config_file always (suc n) fs).0 i ≡ rotated (n + 1) fs i)
unfolding rotate_config_file answer
rotate_config_file-rotated n fs c h = (
  ap not copied.0,
  λ i. copied.1 i ∙ rw (shifts.1 i, frees.1 i, frees.1 (i - 1)) (rotate_step n fs c i h),
)
  where
    start : Files × Bool
    start = drop_last always (suc n) fs

    frees : (start.1 ≡ false) × ((i : ℕ) → start.0 i ≡ (if i == suc n then none else fs i))
    frees = drop_last-frees (suc n) fs

    st : Files × Bool
    st = moves always n start

    shifts : (st.1 ≡ false) × ((i : ℕ) → st.0 i ≡ shifted n start.0 i)
    shifts = moves-shifted n start frees.0 (frees.1 (n + 1) ∙ ground arith)

    copied :
        ((copy_file always st).1 ≡ false)
        × ((i : ℕ) → (copy_file always st).0 i ≡ (if i == 1 then some c else st.0 i))
    copied =
        copy_file-copies st c shifts.0 (shifts.1 0 ∙ (frees.1 0 ∙ ground (arith, h)))
          (shifts.1 1 ∙ ground arith)

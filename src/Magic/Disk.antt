-- ===== src/Magic/Disk.antt =====
-- Files by their paths: file::read, file::write, file::remove and file::exists.
use mercurial_magic.Prelude.{
  ℕ, Bool, true, false, Option, none, some, List, Text, text_eq, if◌then◌else◌, ◌≡◌, ◌≢◌, refl, ap,
  text_eq_refl, text_eq→eq, Bool-cases, inl, inr,
}

abbrev pub Disk : Type 0
Disk = Text → Option (List ℕ)

unfoldable pub exists : Disk → Text → Bool
exists disk path = elim (disk path) [ none ↦ false | some bytes ↦ true ]

-- What a file that opens for writing leaves on the disk.
unfoldable pub put_file : Disk → Text → List ℕ → Disk
put_file disk path bytes other = if text_eq path other then some bytes else disk other

-- A file that does not open, such as one in a folder that is not there, leaves the disk as it is; the
-- program takes no notice.
unfoldable pub write : (opens : Text → Bool) → Disk → Text → List ℕ → Disk
write opens disk path bytes = if opens path then put_file disk path bytes else disk

unfoldable pub remove : Disk → Text → Disk
remove disk path other = if text_eq path other then none else disk other

-- The file takes the place of one that is there, and nothing happens if there is none to rename.
unfoldable pub rename : Disk → Text → Text → Disk
rename disk from to = elim (disk from) [
  | none ↦ disk
  | some bytes ↦ put_file (remove disk from) to bytes
]

pub put_file_self :
    (disk : Disk) (path : Text) (bytes : List ℕ) → put_file disk path bytes path ≡ some bytes
unfolding put_file
put_file_self disk path bytes = rw (text_eq_refl path) refl

pub put_file_ne :
    (disk : Disk) (path other : Text) (bytes : List ℕ)
    → path ≢ other
    → put_file disk path bytes other ≡ disk other
unfolding put_file
put_file_ne disk path other bytes h = elim (Bool-cases (text_eq path other)) [
  | inl same ↦ absurd (h (text_eq→eq path other same))
  | inr differ ↦ rw differ refl
]

pub write_self :
    (opens : Text → Bool) (disk : Disk) (path : Text) (bytes : List ℕ)
    → opens path ≡ true
    → write opens disk path bytes path ≡ some bytes
unfolding write
write_self opens disk path bytes h = rw h (put_file_self disk path bytes)

pub write_ne :
    (opens : Text → Bool) (disk : Disk) (path other : Text) (bytes : List ℕ)
    → path ≢ other
    → write opens disk path bytes other ≡ disk other
unfolding write
write_ne opens disk path other bytes h = elim (Bool-cases (opens path)) [
  | inl opened ↦ rw opened (put_file_ne disk path other bytes h)
  | inr closed ↦ rw closed refl
]

pub write_closed :
    (opens : Text → Bool) (disk : Disk) (path other : Text) (bytes : List ℕ)
    → opens other ≡ false
    → write opens disk path bytes other ≡ disk other
unfolding write
write_closed opens disk path other bytes h = elim (Bool-cases (opens path)) [
  | inl opened ↦
      rw opened
        (put_file_ne disk path other bytes (λ e. let same = ap opens e in cc (opened, h, same)))
  | inr closed ↦ rw closed refl
]

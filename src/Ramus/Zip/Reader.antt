-- ===== src/Ramus/Zip/Reader.antt =====
-- ramus/encode/zip.hpp: a reader of archives by itself, after the description of the format: from the
-- end record to the central directory, and from each of its records to the file.
use mercurial_magic.Prelude.{
  ℕ, zero, suc, ◌+◌, ◌-◌, ◌==◌, ◌&&◌, Option, none, some, List, [], ◌∷◌, Text, text_eq,
  if◌then◌else◌, length, take, drop,
}
use mercurial_magic.Ramus.Zip.Fields.{read_fields}

-- A file of an archive. `contents` is compressed.
pub record Member : Type 0 where
  pub name : Text
  pub checksum : ℕ
  pub size : ℕ
  pub contents : List ℕ

abbrev pub local_sizes : List ℕ
local_sizes = 4 ∷ 2 ∷ 2 ∷ 2 ∷ 2 ∷ 2 ∷ 4 ∷ 4 ∷ 4 ∷ 2 ∷ 2 ∷ []

abbrev pub directory_sizes : List ℕ
directory_sizes = 4 ∷ 2 ∷ 2 ∷ 2 ∷ 2 ∷ 2 ∷ 2 ∷ 4 ∷ 4 ∷ 4 ∷ 2 ∷ 2 ∷ 2 ∷ 2 ∷ 2 ∷ 4 ∷ 4 ∷ []

abbrev pub end_sizes : List ℕ
end_sizes = 4 ∷ 2 ∷ 2 ∷ 2 ∷ 2 ∷ 4 ∷ 4 ∷ 2 ∷ []

-- The data behind a file's own header, which has to have the file's name.
abbrev pub local_data : (wanted : Text) (compressed : ℕ) → List ℕ × List ℕ → Option (List ℕ)
local_data wanted compressed
      (
        (sig ∷ ver ∷ flags ∷ method ∷ time ∷ date ∷ crc ∷ packed ∷ full ∷ named ∷ extra ∷ []),
        rest,
      ) =
    if sig == 0x04034b50 && method == 8 && text_eq (take named rest) wanted
    then some (take compressed (drop (named + extra) rest))
    else none
local_data wanted compressed (fields, rest) = none

unfoldable pub read_local : List ℕ → (wanted : Text) (compressed offset : ℕ) → Option (List ℕ)
read_local archive wanted compressed offset = elim (read_fields local_sizes (drop offset archive)) [
  | none ↦ none
  | some found ↦ local_data wanted compressed found
]

-- A record of the directory, with its file.
abbrev pub read_entry : List ℕ → List ℕ × List ℕ → Option (Member × List ℕ)
read_entry archive
      (
        (sig ∷ made ∷ ver ∷ flags ∷ method ∷ time ∷ date ∷ crc ∷ packed ∷ full ∷ named ∷ extra
            ∷ comment ∷ disk ∷ inner ∷ outer ∷ offset ∷ []),
        rest,
      ) =
    elim (read_local archive (take named rest) packed offset) [
      | none ↦ none
      | some found ↦
          if sig == 0x02014b50
          then some (
            record { name = take named rest; checksum = crc; size = full; contents = found },
            drop (named + extra + comment) rest,
          )
          else none
    ]
read_entry archive (fields, rest) = none

unfoldable pub read_directory : (count : ℕ) → List ℕ → List ℕ → Option (List Member)
read_directory zero archive bytes = some []
read_directory (suc count) archive bytes = elim (read_fields directory_sizes bytes) [
  | none ↦ none
  | some found ↦ elim (read_entry archive found) [
    | none ↦ none
    | some (member, rest) ↦ elim (read_directory count archive rest) [
      | none ↦ none
      | some members ↦ some (member ∷ members)
    ]
  ]
]

abbrev pub read_end : List ℕ → List ℕ × List ℕ → Option (List Member)
read_end archive ((sig ∷ disk ∷ first ∷ here ∷ count ∷ size ∷ base ∷ comment ∷ []), rest) =
    if sig == 0x06054b50 then read_directory count archive (drop base archive) else none
read_end archive (fields, rest) = none

-- The end record has no comment behind it.
unfoldable pub read_archive : List ℕ → Option (List Member)
read_archive archive = elim (read_fields end_sizes (drop (length archive - 22) archive)) [
  | none ↦ none
  | some found ↦ read_end archive found
]

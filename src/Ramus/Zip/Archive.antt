-- ===== src/Ramus/Zip/Archive.antt =====
-- ramus/encode/zip.hpp: the reader gets back the files that append was given.
use mercurial_magic.Prelude.{
  ℕ, ◌+◌, ◌<◌, ◌≡◌, refl, ap, ◌∙◌, some, List, [], ◌∷◌, ◌++◌, append_assoc, All, length, drop,
  drop-append, take-append, Text, text_eq_refl, arith,
}
use mercurial_magic.Ramus.Zip.{
  print_text, Entry, write_fields, local_fields, directory_fields, write_directory,
}
use mercurial_magic.Ramus.Zip.Fields.{read_fields, values, read_fields-write_fields}
use mercurial_magic.Ramus.Zip.Reader.{
  Member, local_data, read_local, directory_sizes, read_entry, read_directory,
}

-- The entry of a file at an offset.
abbrev pub entry_of : Member × ℕ → Entry
entry_of (m, offset) = record {
  filename = m.name;
  checksum = m.checksum;
  compressed_size = length m.contents;
  uncompressed_size = m.size;
  offset = offset;
}

-- What the fields of the format can hold.
pub record IsSmall (m : Member) : Type 0 where
  pub small_checksum : m.checksum < 4294967296
  pub small_contents : length m.contents < 4294967296
  pub small_size : m.size < 4294967296
  pub small_name : length m.name < 65536
  pub printed : print_text m.name ≡ m.name

abbrev pub members : List (Member × ℕ) → List Member
members [] = []
members (p ∷ placed) = p.0 ∷ members placed

abbrev pub entries : List (Member × ℕ) → List Entry
entries [] = []
entries (p ∷ placed) = entry_of p ∷ entries placed

module _ (time date : ℕ) where
  abbrev pub local_bytes : Member → List ℕ
  local_bytes m =
      write_fields (local_fields time date m.checksum (length m.contents) m.size (length m.name))

  -- A file's header, name and data stand at its offset.
  pub record IsStored (bytes : List ℕ) (m : Member) (offset : ℕ) : Type 0 where
    pub front : List ℕ
    pub rest : List ℕ
    pub whole : bytes ≡ front ++ (local_bytes m ++ (m.name ++ (m.contents ++ rest)))
    pub place : length front ≡ offset
    pub small : IsSmall m
    pub small_offset : offset < 4294967296

  -- Files with their offsets.
  abbrev pub AllStored : List ℕ → List (Member × ℕ) → Type 0
  AllStored bytes placed = All (λ p. IsStored bytes p.0 p.1) placed

module _ (time date : ℕ) (small_time : time < 65536) (small_date : date < 65536) where
  local_found :
      (m : Member) (rest : List ℕ)
      → local_data m.name (length m.contents) (
        values (local_fields time date m.checksum (length m.contents) m.size (length m.name)),
        m.name ++ (m.contents ++ rest),
      )
        ≡ some m.contents
  unfolding local_fields
  local_found m rest =
      let no_extra : length m.name + 0 ≡ length m.name = omega arith in
      rw
        (
          local_data,
          take-append m.name (m.contents ++ rest) (length m.name) refl,
          text_eq_refl m.name,
          no_extra,
          drop-append m.name (m.contents ++ rest) (length m.name) refl,
          take-append m.contents rest (length m.contents) refl,
        )
        refl

  read_local-IsStored :
      (bytes : List ℕ) (m : Member) (offset : ℕ)
      → IsStored time date bytes m offset
      → read_local bytes m.name (length m.contents) offset ≡ some m.contents
  unfolding read_local local_fields
  read_local-IsStored bytes m offset s =
      let behind = m.name ++ (m.contents ++ s.rest) in
      let found : drop offset bytes ≡ local_bytes time date m ++ behind =
        ap (drop offset) s.whole
        ∙ drop-append s.front (local_bytes time date m ++ behind) offset s.place in
      let fields =
        read_fields-write_fields
          (local_fields time date m.checksum (length m.contents) m.size (length m.name)) behind
          (
            omega arith,
            (
              omega arith,
              (
                omega arith,
                (
                  omega arith,
                  (
                    small_time,
                    (
                      small_date,
                      (
                        s.small.small_checksum,
                        (
                          s.small.small_contents,
                          (s.small.small_size, (s.small.small_name, (omega arith, tt))),
                        ),
                      ),
                    ),
                  ),
                ),
              ),
            ),
          ) in
      rw (read_local, found, fields) (local_found m s.rest)

  -- The values of a file's record in the directory.
  abbrev record_values : Member → ℕ → List ℕ
  record_values m offset =
      0x02014b50
      ∷ 0x14
      ∷ 0x14
      ∷ 0
      ∷ 8
      ∷ time
      ∷ date
      ∷ m.checksum
      ∷ length m.contents
      ∷ m.size
      ∷ length m.name
      ∷ 0
      ∷ 0
      ∷ 0
      ∷ 0
      ∷ 0
      ∷ offset
      ∷ []

  read_entry-IsStored :
      (bytes : List ℕ) (m : Member) (offset : ℕ) (rest : List ℕ)
      → IsStored time date bytes m offset
      → read_entry bytes (record_values m offset, m.name ++ rest) ≡ some (m, rest)
  read_entry-IsStored bytes m offset rest s =
      let no_extra : length m.name + 0 + 0 ≡ length m.name = omega arith in
      let named = take-append m.name rest (length m.name) refl in
      rw
        (
          read_entry,
          named,
          read_local-IsStored bytes m offset s,
          no_extra,
          drop-append m.name rest (length m.name) refl,
        )
        (ap (λ (text : Text). some (record m { name = text }, rest)) named)

  directory_record :
      (bytes : List ℕ) (m : Member) (offset : ℕ) (rest : List ℕ)
      → IsStored time date bytes m offset
      → read_fields directory_sizes
          (write_fields (directory_fields time date (entry_of (m, offset))) ++ rest)
        ≡ some (record_values m offset, rest)
  unfolding directory_fields
  directory_record bytes m offset rest s =
      read_fields-write_fields (directory_fields time date (entry_of (m, offset))) rest (
        omega arith,
        (
          omega arith,
          (
            omega arith,
            (
              omega arith,
              (
                omega arith,
                (
                  small_time,
                  (
                    small_date,
                    (
                      s.small.small_checksum,
                      (
                        s.small.small_contents,
                        (
                          s.small.small_size,
                          (
                            s.small.small_name,
                            (
                              omega arith,
                              (
                                omega arith,
                                (omega arith, (omega arith, (omega arith, (s.small_offset, tt)))),
                              ),
                            ),
                          ),
                        ),
                      ),
                    ),
                  ),
                ),
              ),
            ),
          ),
        ),
      )

  pub read_directory-AllStored :
      (bytes : List ℕ) (placed : List (Member × ℕ)) (rest : List ℕ)
      → AllStored time date bytes placed
      → read_directory (length placed) bytes (write_directory time date (entries placed) ++ rest)
        ≡ some (members placed)
  unfolding read_directory write_directory
  read_directory-AllStored bytes [] rest stored = refl
  read_directory-AllStored bytes ((m, offset) ∷ placed) rest (s, stored) =
      let more = write_directory time date (entries placed) in
      let head = directory_fields time date (entry_of (m, offset)) in
      let apart : (write_fields head ++ (m.name ++ more)) ++ rest
          ≡ write_fields head ++ (m.name ++ (more ++ rest)) =
        append_assoc (write_fields head) (m.name ++ more) rest
        ∙ ap (λ ys. write_fields head ++ ys) (append_assoc m.name more rest) in
      rw
        (
          s.small.printed,
          apart,
          read_directory,
          directory_record bytes m offset (m.name ++ (more ++ rest)) s,
          read_entry-IsStored bytes m offset (more ++ rest) s,
          read_directory-AllStored bytes placed rest stored,
        )
        refl

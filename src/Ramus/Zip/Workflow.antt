-- ===== src/Ramus/Zip/Workflow.antt =====
-- ramus/encode/zip.hpp: an archive from its first file to the destructor.
use mercurial_magic.Prelude.{
  ℕ, ◌+◌, ◌-◌, ◌<◌, ◌≡◌, refl, ap, ◌∙◌, some, List, ◌++◌, append_assoc, length, length-append, drop,
  drop-append, u32, arith,
}
use mercurial_magic.Ramus.Zip.{Zip, write_fields, end_fields, write_directory, close_zip}
use mercurial_magic.Ramus.Zip.Reader.{Member, read_directory, read_archive}
use mercurial_magic.Ramus.Zip.Archive.{members, entries, read_directory-AllStored}
use mercurial_magic.Ramus.Zip.RoundTrip.{
  IsArchive, AllStored-append, length-entries, length-end_fields, end_record,
}

-- From the end record to the directory.
read_parts :
    (fp central : List ℕ) (count size base : ℕ)
    → count < 65536
    → size < 4294967296
    → base < 4294967296
    → length fp ≡ base
    → read_archive ((fp ++ central) ++ write_fields (end_fields count size base))
      ≡ read_directory count
          ((fp ++ central) ++ write_fields (end_fields count size base))
          (central ++ write_fields (end_fields count size base))
unfolding read_archive
read_parts fp central count size base c s b place =
    let end = write_fields (end_fields count size base) in
    let front : length (fp ++ central) ≡ length ((fp ++ central) ++ end) - 22 =
      omega (arith, length-append (fp ++ central) end, length-end_fields count size base) in
    let directory : drop base ((fp ++ central) ++ end) ≡ central ++ end =
      ap (drop base) (append_assoc fp central end) ∙ drop-append fp (central ++ end) base place in
    rw
      (
        read_archive,
        drop-append (fp ++ central) end (length ((fp ++ central) ++ end) - 22) front,
        end_record count size base c s b,
        directory,
      )
      refl

-- What the destructor leaves, without the words' wrap-around.
closed :
    (z : Zip) (placed : List (Member × ℕ))
    → IsArchive z placed
    → length z.fp + length (write_directory z.dos_time z.dos_date (entries placed)) < 4294967296
    → close_zip z
      ≡ (z.fp ++ write_directory z.dos_time z.dos_date (entries placed))
        ++ write_fields (
            end_fields
              (length placed)
              (length (write_directory z.dos_time z.dos_date (entries placed)))
              (length z.fp))
unfolding close_zip
closed z placed a room =
    let central = write_directory z.dos_time z.dos_date (entries placed) in
    let base : u32 (length z.fp) ≡ length z.fp = omega arith in
    let finish : u32 (length (z.fp ++ central)) ≡ length z.fp + length central =
      omega (arith, length-append z.fp central) in
    let size : u32 (length z.fp + length central + 4294967296 - length z.fp) ≡ length central =
      omega arith in
    rw (a.listed, length-entries placed, base, finish, size) refl

-- Closed, an archive of fewer than 65536 files whose headers, data and directory have less than
-- 4 GiB reads back as its files.
pub read_archive-close_zip :
    (z : Zip) (placed : List (Member × ℕ))
    → IsArchive z placed
    → length placed < 65536
    → length z.fp + length (write_directory z.dos_time z.dos_date (entries placed)) < 4294967296
    → read_archive (close_zip z) ≡ some (members placed)
read_archive-close_zip z placed a few room =
    let central = write_directory z.dos_time z.dos_date (entries placed) in
    let end = write_fields (end_fields (length placed) (length central) (length z.fp)) in
    let whole =
      AllStored-append z.dos_time z.dos_date (z.fp ++ central) end placed
        (AllStored-append z.dos_time z.dos_date z.fp central placed a.stored) in
    ap read_archive (closed z placed a room)
    ∙ read_parts z.fp central (length placed) (length central) (length z.fp) few (omega arith)
        (omega arith) refl
    ∙ read_directory-AllStored z.dos_time z.dos_date a.small_time a.small_date
        ((z.fp ++ central) ++ end) placed end whole

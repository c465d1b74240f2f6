-- ===== src/Ramus/Zip/Appends.antt =====
-- ramus/encode/zip.hpp: the files of an archive, from the first append to the destructor.
use mercurial_magic.Prelude.{
  ℕ, ◌+◌, ◌≤◌, ◌<◌, ◌≡◌, ◌≢◌, ◌==◌, false, refl, sym, ap, ◌∙◌, some, List, [], ◌∷◌, ◌++◌,
  append-nil, append_assoc, All, length, length-append, Text, u32, take, Run, ok, >>=-eq-ok, ◌>>=◌,
  IsByte, arith,
}
use mercurial_magic.Ramus.Deflate.Inflate.{inflate}
use mercurial_magic.Ramus.Deflate.Stream.{bits_of_bytes}
use mercurial_magic.Ramus.Deflate.RoundTrip.{inflate-compress}
use mercurial_magic.Ramus.Zip.{
  Zip, Tm, open_zip, print_text, write_fields, local_fields, append_compressed, append,
  write_directory, close_zip,
}
use mercurial_magic.Ramus.Zip.Reader.{Member, read_archive}
use mercurial_magic.Ramus.Zip.Archive.{IsSmall, members, entries}
use mercurial_magic.Ramus.Zip.RoundTrip.{IsArchive, append_compressed-IsArchive}
use mercurial_magic.Ramus.Zip.Workflow.{read_archive-close_zip}

-- A file to append: `size` bytes of `source`, behind which another can be read.
pub record File : Type 0 where
  pub filename : Text
  pub source : List ℕ
  pub size : ℕ

print_text_lem : (name : Text) → All (λ c. c ≢ 0) name → print_text name ≡ name
unfolding print_text
print_text_lem [] h = refl
print_text_lem (c ∷ name) (some_char, h) =
    let differ : (c == 0) ≡ false = ground arith in rw (differ, print_text_lem name h) refl

module _ (crc32 : List ℕ → ℕ) (slashes : Text → Text) where
  unfoldable pub append_all : List File → Zip → Run Zip
  append_all [] z = ok z
  append_all (f ∷ files) z = do
    z' ← append crc32 slashes f.filename f.source f.size z
    append_all files z'

  -- What the archive has to say of a file.
  pub record IsFile (f : File) (m : Member) : Type 0 where
    pub named : m.name ≡ slashes f.filename
    pub checked : m.checksum ≡ u32 (crc32 (take f.size f.source))
    pub sized : m.size ≡ f.size
    pub inflated : inflate (bits_of_bytes m.contents) ≡ ok (take f.size f.source)

  abbrev pub AllFiles : List File → List Member → Type 0
  AllFiles [] [] = Unit
  AllFiles [] (m ∷ ms) = ⊥
  AllFiles (f ∷ files) [] = ⊥
  AllFiles (f ∷ files) (m ∷ ms) = IsFile f m × AllFiles files ms

  -- What append asks of a file.
  pub record IsReadable (f : File) : Type 0 where
    pub octets : All IsByte f.source
    pub readable : f.size < length f.source
    pub short_name : length (slashes f.filename) < 65536
    pub short_size : f.size < 4294967296
    pub without_zero : All (λ c. c ≢ 0) (slashes f.filename)

  append-member :
      (f : File) (z z' : Zip)
      → IsReadable f
      → append crc32 slashes f.filename f.source f.size z ≡ ok z'
      → (m : Member) × (z' ≡ append_compressed m.name m.checksum m.contents m.size z) × IsFile f m
  unfolding append
  append-member f z z' r h =
      let (buffer, packed, back) = inflate-compress f.source f.size r.octets r.readable in
      let same = rw packed at h in
      (
        record {
          name = slashes f.filename;
          checksum = u32 (crc32 (take f.size f.source));
          size = f.size;
          contents = buffer.bytes;
        },
        cc same,
        record { named = refl; checked = refl; sized = refl; inflated = back },
      )

  length-append_compressed :
      (m : Member) (z : Zip)
      → length z.fp + length m.contents
        ≤ length (append_compressed m.name m.checksum m.contents m.size z).fp
  unfolding append_compressed
  length-append_compressed m z =
      let file = write_fields (
        local_fields z.dos_time z.dos_date m.checksum (length m.contents) m.size (length m.name)) in
      omega (
        arith,
        length-append z.fp (file ++ (print_text m.name ++ m.contents)),
        length-append file (print_text m.name ++ m.contents),
        length-append (print_text m.name) m.contents,
      )

  append_grows :
      (f : File) (z z' : Zip)
      → IsReadable f
      → append crc32 slashes f.filename f.source f.size z ≡ ok z'
      → length z.fp ≤ length z'.fp
  append_grows f z z' r h =
      let (m, same, _) = append-member f z z' r h in
      rw same (omega (arith, length-append_compressed m z))

  append_all_grows :
      (files : List File) (z z' : Zip)
      → All IsReadable files
      → append_all files z ≡ ok z'
      → length z.fp ≤ length z'.fp
  unfolding append_all
  append_all_grows [] z z' r h = let same : z ≡ z' = cc h in rw same (omega arith)
  append_all_grows (f ∷ files) z z' (r, rs) h =
      let (z₁, first, rest) = >>=-eq-ok (append crc32 slashes f.filename f.source f.size z) _ h in
      omega (arith, append_grows f z z₁ r first, append_all_grows files z₁ z' rs rest)

  -- What the appends make of an archive.
  record IsGrown (files : List File) (placed : List (Member × ℕ)) (z : Zip) : Type 0 where
    after : List (Member × ℕ)
    archive : IsArchive z after
    fresh : List Member
    joined : members after ≡ members placed ++ fresh
    all_files : AllFiles files fresh
    counted : length after ≡ length placed + length files

  members-append : (xs ys : List (Member × ℕ)) → members (xs ++ ys) ≡ members xs ++ members ys
  members-append [] ys = refl
  members-append (x ∷ xs) ys = ap (◌∷◌ x.0) (members-append xs ys)

  append_all-IsGrown :
      (files : List File) (placed : List (Member × ℕ)) (z z' : Zip)
      → All IsReadable files
      → IsArchive z placed
      → append_all files z ≡ ok z'
      → length z'.fp < 4294967296
      → IsGrown files placed z'
  unfolding append_all
  append_all-IsGrown [] placed z z' r a h room = record {
    after = placed;
    archive = let same : z ≡ z' = cc h in rw same at a;
    fresh = [];
    joined = sym (append-nil (members placed));
    all_files = tt;
    counted = omega arith;
  }
  append_all-IsGrown (f ∷ files) placed z z' (r, rs) a h room =
      let (z₁, first, rest) = >>=-eq-ok (append crc32 slashes f.filename f.source f.size z) _ h in
      let (m, same, file) = append-member f z z₁ r first in
      let grows = append_all_grows files z₁ z' rs rest in
      let bound : length z.fp + length m.contents ≤ length z₁.fp =
        rw same (length-append_compressed m z) in
      let small : IsSmall m = record {
        small_checksum = rw file.checked (omega arith);
        small_contents = omega arith;
        small_size = rw file.sized r.short_size;
        small_name = rw file.named r.short_name;
        printed = rw file.named (print_text_lem (slashes f.filename) r.without_zero);
      } in
      let next : IsArchive z₁ (placed ++ (m, length z.fp) ∷ []) =
        rw same (append_compressed-IsArchive m z placed small (omega arith) a) in
      let g = append_all-IsGrown files (placed ++ (m, length z.fp) ∷ []) z₁ z' rs next rest room in
      record {
        after = g.after;
        archive = g.archive;
        fresh = m ∷ g.fresh;
        joined =
            g.joined
            ∙ ap (λ ms. ms ++ g.fresh) (members-append placed ((m, length z.fp) ∷ []))
            ∙ append_assoc (members placed) (m ∷ []) g.fresh;
        all_files = (file, g.all_files);
        counted = omega (arith, g.counted, length-append placed ((m, length z.fp) ∷ []));
      }

  open_zip-IsArchive : (info : Tm) → IsArchive (open_zip info) []
  unfolding open_zip
  open_zip-IsArchive info = record {
    small_time = omega arith;
    small_date = omega arith;
    listed = refl;
    stored = tt;
  }

  length-close_zip :
      (z : Zip) (placed : List (Member × ℕ))
      → IsArchive z placed
      → length z.fp + length (write_directory z.dos_time z.dos_date (entries placed))
        ≤ length (close_zip z)
  unfolding close_zip
  length-close_zip z placed a =
      let central = write_directory z.dos_time z.dos_date (entries placed) in
      rw a.listed (omega (arith, length-append z.fp central, length-append (z.fp ++ central) _))

  close_zip_grows : (z : Zip) → length z.fp ≤ length (close_zip z)
  unfolding close_zip
  close_zip_grows z =
      let central = write_directory z.dos_time z.dos_date z.directory in
      omega (arith, length-append z.fp central, length-append (z.fp ++ central) _)

  -- A reader of archives, which starts at the end record, finds in an archive of such files, fewer
  -- than 65536 and of less than 4 GiB in all, exactly these files in their order: each with its
  -- name in slashes, its checksum and its size, and with contents from which a reader of DEFLATE
  -- gets its bytes.
  pub read_archive-append_all :
      (info : Tm) (files : List File) (z : Zip)
      → All IsReadable files
      → length files < 65536
      → append_all files (open_zip info) ≡ ok z
      → length (close_zip z) < 4294967296
      → (ms : List Member) × (read_archive (close_zip z) ≡ some ms) × AllFiles files ms
  read_archive-append_all info files z r few h room =
      let g =
        append_all-IsGrown files [] (open_zip info) z r (open_zip-IsArchive info) h
          (omega (arith, close_zip_grows z)) in
      let fits = length-close_zip z g.after g.archive in
      (
        g.fresh,
        read_archive-close_zip z g.after g.archive (omega (arith, g.counted)) (omega (arith, fits))
            ∙ ap some g.joined,
        g.all_files,
      )

-- ===== src/Ramus/Zip.antt =====
-- ramus/encode/zip.hpp: the struct ZIP. The file that it writes is the list of its bytes.
pub mod Fields
pub mod Reader
pub mod Archive
pub mod RoundTrip
pub mod Workflow
pub mod Appends
use Prim.Native.Nat.{bit_or}
use mercurial_magic.Prelude.{
  ℕ, zero, suc, ◌+◌, ◌-◌, ◌*◌, ◌/◌, ◌%◌, ◌^◌, List, ◌==◌, if◌then◌else◌, [], ◌∷◌, ◌++◌, Text,
  length, Run, ok, ◌>>=◌, u32, take,
}
use mercurial_magic.Ramus.Deflate.{BitBuffer, compress}

-- entry_t
pub record Entry : Type 0 where
  pub filename : Text
  pub checksum : ℕ
  pub compressed_size : ℕ
  pub uncompressed_size : ℕ
  pub offset : ℕ

pub record Zip : Type 0 where
  pub fp : List ℕ
  pub dos_time : ℕ
  pub dos_date : ℕ
  pub directory : List Entry

-- What localtime gives: a year since 1900, and a month from 0 on.
pub record Tm : Type 0 where
  pub tm_year : ℕ
  pub tm_mon : ℕ
  pub tm_mday : ℕ
  pub tm_hour : ℕ
  pub tm_min : ℕ
  pub tm_sec : ℕ

abbrev pub u16 : ℕ → ℕ
u16 n = n % 65536

-- `tm_year - 80` is negative before 1980; in the 16 bits of the date, 48 more are as good as 80 less.
unfoldable pub open_zip : Tm → Zip
open_zip info = record {
  fp = [];
  dos_time = u16 (bit_or (bit_or (info.tm_hour * 2048) (info.tm_min * 32)) (info.tm_sec / 2));
  dos_date = u16 (bit_or ((info.tm_year + 48) * 512) ((1 + info.tm_mon) * 32 + info.tm_mday));
  directory = [];
}

-- fp.writel: the low byte first.
unfoldable pub writel : (value size : ℕ) → List ℕ
writel value zero = []
writel value (suc size) = value % 256 ∷ writel (value / 256) size

-- Calls of writel, one after the other: values with their sizes.
unfoldable pub write_fields : List (ℕ × ℕ) → List ℕ
write_fields [] = []
write_fields (field ∷ fields) = writel field.0 field.1 ++ write_fields fields

-- fp.print: up to the first zero.
unfoldable pub print_text : Text → List ℕ
print_text [] = []
print_text (c ∷ text) = let rest = print_text text in if c == 0 then [] else c ∷ rest

unfoldable pub local_fields : (time date checksum compressed size name : ℕ) → List (ℕ × ℕ)
local_fields time date checksum compressed size name =
    (0x04034b50, 4)
    ∷ (0x0014, 2)
    ∷ (0x0000, 2)
    ∷ (0x0008, 2)
    ∷ (time, 2)
    ∷ (date, 2)
    ∷ (checksum, 4)
    ∷ (compressed, 4)
    ∷ (size, 4)
    ∷ (name, 2)
    ∷ (0x0000, 2)
    ∷ []

unfoldable pub directory_fields : (time date : ℕ) → Entry → List (ℕ × ℕ)
directory_fields time date entry =
    (0x02014b50, 4)
    ∷ (0x0014, 2)
    ∷ (0x0014, 2)
    ∷ (0x0000, 2)
    ∷ (0x0008, 2)
    ∷ (time, 2)
    ∷ (date, 2)
    ∷ (entry.checksum, 4)
    ∷ (entry.compressed_size, 4)
    ∷ (entry.uncompressed_size, 4)
    ∷ (length entry.filename, 2)
    ∷ (0x0000, 2)
    ∷ (0x0000, 2)
    ∷ (0x0000, 2)
    ∷ (0x0000, 2)
    ∷ (0x00000000, 4)
    ∷ (entry.offset, 4)
    ∷ []

unfoldable pub end_fields : (count size base : ℕ) → List (ℕ × ℕ)
end_fields count size base =
    (0x06054b50, 4)
    ∷ (0x0000, 2)
    ∷ (0x0000, 2)
    ∷ (count, 2)
    ∷ (count, 2)
    ∷ (size, 4)
    ∷ (base, 4)
    ∷ (0x0000, 2)
    ∷ []

-- append, once the data is compressed.
unfoldable pub append_compressed :
    (name : Text) (checksum : ℕ) (compressed : List ℕ) (size : ℕ) → Zip → Zip
append_compressed name checksum compressed size z = record z {
  directory =
      z.directory
      ++ (record {
        filename = name;
        checksum = checksum;
        compressed_size = u32 (length compressed);
        uncompressed_size = size;
        offset = u32 (length z.fp);
      })
        ∷ [];
  fp =
      z.fp
      ++ (write_fields
            (local_fields z.dos_time z.dos_date checksum (length compressed) size (length name))
          ++ (print_text name ++ compressed));
}

-- `crc32` is nall's checksum, and `slashes` turns backslashes into slashes.
module _ (crc32 : List ℕ → ℕ) (slashes : Text → Text) where
  unfoldable pub append : (filename : Text) (source : List ℕ) (size : ℕ) → Zip → Run Zip
  append filename source size z = do
    let name = slashes filename
    let checksum = u32 (crc32 (take size source))
    buffer ← compress source size
    ok (append_compressed name checksum buffer.bytes size z)

unfoldable pub write_directory : (time date : ℕ) → List Entry → List ℕ
write_directory time date [] = []
write_directory time date (entry ∷ entries) =
    write_fields (directory_fields time date entry)
    ++ (print_text entry.filename ++ write_directory time date entries)

-- The destructor.
unfoldable pub close_zip : Zip → List ℕ
close_zip z =
    let base = u32 (length z.fp) in
    let with_directory = z.fp ++ write_directory z.dos_time z.dos_date z.directory in
    let finish_offset = u32 (length with_directory) in
    with_directory
    ++ write_fields (end_fields (length z.directory) (u32 (finish_offset + 4294967296 - base)) base)

-- ===== src/Daedalus/Import/Slices.antt =====
-- daedalus/core/super-famicom.cpp: the loop of superFamicomImport cuts the image into files.
use mercurial_magic.Prelude.{
  ℕ, ◌+◌, ◌-◌, ◌≤◌, ◌<◌, ◌≡◌, refl, sym, ◌∙◌, true, List, [], ◌∷◌, ◌++◌, append-nil, append_assoc,
  Text, Bool, ◌&&◌, length, take, drop, ltb, leb, ltb→lt, ltb-false→le, Safe, safe, Safe-bind,
  Safe-weaken, Safe-if, u32, arith,
}
use mercurial_magic.Magic.Disk.{Disk, write}
use mercurial_magic.Daedalus.Host.{Host, Daedalus, write_in}
use mercurial_magic.Daedalus.Import.{Rom, slice, import_loop}

-- From an offset on, the ROMs that still fit follow each other, and the others are missing.
pub data Laid (buffer : List ℕ) : ℕ → List Rom → List (Text × List ℕ) → List Text → Type 0 where
  finished : (offset : ℕ) → Laid buffer offset [] [] []
  placed :
      (offset : ℕ) (rom : Rom) {roms : List Rom} {files : List (Text × List ℕ)}
      {missing : List Text}
      → offset + rom.size ≤ length buffer
      → Laid buffer (offset + rom.size) roms files missing
      → Laid buffer offset
          (rom ∷ roms)
          ((rom.name, take rom.size (drop offset buffer)) ∷ files)
          missing
  absent :
      (offset : ℕ) (rom : Rom) {roms : List Rom} {files : List (Text × List ℕ)}
      {missing : List Text}
      → length buffer < offset + rom.size
      → Laid buffer offset roms files missing
      → Laid buffer offset (rom ∷ roms) files (rom.name ∷ missing)

-- Of the files of a folder, those that open are written.
abbrev pub write_all : (opens : Text → Bool) (target : Text) → List (Text × List ℕ) → Disk → Disk
write_all opens target [] disk = disk
write_all opens target (file ∷ files) disk =
    write_all opens target files (write opens disk (target ++ file.0) file.1)

slice-Safe :
    (buffer : List ℕ) (offset size : ℕ)
    → offset + size ≤ length buffer
    → Safe (λ bytes. bytes ≡ take size (drop offset buffer)) (slice buffer offset size)
unfolding slice
slice-Safe buffer offset size fits =
    let within : leb (offset + size) (length buffer) ≡ true = ground arith in
    rw within (safe _ refl)

-- What the loop leaves is what is laid out.
pub record IsImported (host : Host) (target : Text) (buffer : List ℕ) (roms : List Rom) (offset : ℕ)
    (before after : Daedalus) : Type 0 where
  pub written : List (Text × List ℕ)
  pub left_out : List Text
  pub laid : Laid buffer offset roms written left_out
  pub on_disk :
      after.disk
      ≡ write_all (λ path. before.folders target && host.writable path) target written before.disk
  pub missed : after.missing_files ≡ before.missing_files ++ left_out

-- From an offset inside an image of less than 4 GiB, the loop of the import reads only inside the
-- image and returns. It writes the ROMs that still fit as files of the target folder, if they open,
-- each with the bytes behind those of the one before, and adds the names of the others to the
-- missing files.
pub import_loop-Safe :
    (host : Host) (target : Text) (buffer : List ℕ) (roms : List Rom) (offset : ℕ) (d : Daedalus)
    → length buffer < 4294967296
    → offset ≤ length buffer
    → Safe
        (IsImported host target buffer roms offset d)
        (import_loop host target buffer roms offset d)
unfolding import_loop write_in
import_loop-Safe host target buffer [] offset d small within = safe d (record {
  written = [];
  left_out = [];
  laid = finished offset;
  on_disk = refl;
  missed = sym (append-nil d.missing_files);
})
import_loop-Safe host target buffer (rom ∷ roms) offset d small within =
    let room : u32 (length buffer + 4294967296 - offset) ≡ length buffer - offset = omega arith in
    Safe-if (ltb (u32 (length buffer + 4294967296 - offset)) rom.size) _ _
      (λ large.
        Safe-weaken _
          (λ d' h. record {
            written = h.written;
            left_out = rom.name ∷ h.left_out;
            laid = absent offset rom (omega (arith, room, ltb→lt _ rom.size large)) h.laid;
            on_disk = h.on_disk;
            missed = h.missed ∙ append_assoc d.missing_files (rom.name ∷ []) h.left_out;
          })
          (import_loop-Safe host target buffer roms offset
            (record d { missing_files = d.missing_files ++ rom.name ∷ [] }) small within))
      (λ fits.
        let inside : offset + rom.size ≤ length buffer =
          omega (arith, room, ltb-false→le _ rom.size fits) in
        let next : u32 (offset + rom.size) ≡ offset + rom.size = omega arith in
        Safe-bind _ _ (slice-Safe buffer offset rom.size inside) (λ bytes same. rw next (
          Safe-weaken _
            (λ d' h. record {
              written = (rom.name, take rom.size (drop offset buffer)) ∷ h.written;
              left_out = h.left_out;
              laid = placed offset rom inside h.laid;
              on_disk = rw same at h.on_disk;
              missed = h.missed;
            })
            (import_loop-Safe host target buffer roms (offset + rom.size)
              (write_in host target rom.name bytes d) small inside))))

-- ===== src/Daedalus/Import/Folder.antt =====
-- daedalus/core/bs-memory.cpp and sufami-turbo.cpp: the folder of an imported cartridge.
use mercurial_magic.Prelude.{
  ℕ, ◌≤◌, ◌≡◌, refl, ◌∙◌, true, false, ◌&&◌, some, List, [], ◌∷◌, ◌++◌, length, ok, Text, codes,
  text_eq-ne, ltb, ltb-of_le, Safe, safe, Safe-ok, arith,
}
use mercurial_magic.Ramus.Memory.{fetch}
use mercurial_magic.Magic.Disk.{Disk, write, write_self, write_ne}
use mercurial_magic.Magic.Validate.{is_empty}
use mercurial_magic.Daedalus.Cartridge.{same_memory}
use mercurial_magic.Daedalus.Score.Range.{fetch-Safe}
use mercurial_magic.Daedalus.Host.{Host, Daedalus, success, concatenate, write_in}
use mercurial_magic.Daedalus.Manifests.{
  program_rom, bs_memory_manifest, sufami_turbo_manifest, add_information,
}
use mercurial_magic.Daedalus.Slots.{
  bs_memory_cartridge, sufami_turbo_markup, sufami_turbo_cartridge,
}
use mercurial_magic.Daedalus.Import.{write_cartridge, bs_memory_import, sufami_turbo_import}

-- Two files of one folder.
append_cancel : (xs : Text) {ys zs : Text} → xs ++ ys ≡ xs ++ zs → ys ≡ zs
append_cancel [] h = h
append_cancel (x ∷ xs) h = append_cancel xs (cc h)

concatenate-some :
    (disk : Disk) (output : List ℕ) (location : Text) {input : List ℕ}
    → disk location ≡ some input
    → concatenate disk output location ≡ output ++ input
unfolding concatenate
concatenate-some disk output location e = rw (concatenate, e) refl

-- Text at the front of an image.
same_memory-append :
    (rest : List ℕ)
    → same_memory (codes "BANDAI SFC-ADX" ++ rest) 0 (codes "BANDAI SFC-ADX") ≡ ok true
unfolding same_memory fetch
same_memory-append rest = refl

module _ (host : Host) where
  abbrev pub bs_folder : Text → Text
  bs_folder location = host.library ++ codes "BS Memory/" ++ host.prefix location ++ codes ".bs/"

  abbrev pub st_folder : Text → Text
  st_folder location = host.library ++ codes "Sufami Turbo/" ++ host.prefix location ++ codes ".st/"

  -- The folder is there, and both of its files open.
  pub record IsWritable (folder : Text) (d : Daedalus) : Type 0 where
    pub there : d.folders folder ≡ true
    pub manifest_opens : host.writable (folder ++ codes "manifest.bml") ≡ true
    pub rom_opens : host.writable (folder ++ codes "program.rom") ≡ true

  -- A folder with an image and its manifest, which an import has returned.
  pub record HasCartridge (folder markup : Text) (buffer : List ℕ) (r : Text × Daedalus)
      : Type 0 where
    pub returned : r.0 ≡ folder
    pub no_error : r.1.error_message ≡ []
    pub rom : program_rom host r.1.disk folder ≡ buffer
    pub listed : r.1.disk (folder ++ codes "manifest.bml") ≡ some markup

  write_cartridge-HasCartridge :
      (target markup : Text) (buffer : List ℕ) (d : Daedalus)
      → is_empty markup ≡ false
      → IsWritable target d
      → HasCartridge target markup buffer (write_cartridge host target markup buffer d)
  unfolding write_cartridge success program_rom write_in
  write_cartridge-HasCartridge target markup buffer d named w =
      let opens = λ (path : Text). d.folders target && host.writable path in
      let opens_rom : opens (target ++ codes "program.rom") ≡ true =
        rw (w.there, w.rom_opens) refl in
      let opens_manifest : opens (target ++ codes "manifest.bml") ≡ true =
        rw (w.there, w.manifest_opens) refl in
      let listed = write opens d.disk (target ++ codes "manifest.bml") markup in
      let rom = write_self opens listed (target ++ codes "program.rom") buffer opens_rom in
      let kept =
        write_ne opens listed (target ++ codes "program.rom") (target ++ codes "manifest.bml")
          buffer
          (λ e.
            text_eq-ne (codes "program.rom") (codes "manifest.bml") refl
              (append_cancel target e)) in
      rw named (record {
        returned = refl;
        no_error = refl;
        rom = concatenate-some _ [] (target ++ codes "program.rom") rom;
        listed =
            kept ∙ write_self opens d.disk (target ++ codes "manifest.bml") markup opens_manifest;
      })

  write_cartridge-no_folder :
      (target markup : Text) (buffer : List ℕ) (d : Daedalus)
      → is_empty markup ≡ false
      → d.folders target ≡ false
      → write_cartridge host target markup buffer d ≡ (target, record d { error_message = [] })
  unfolding write_cartridge success write_in write
  write_cartridge-no_folder target markup buffer d named gone = rw (named, gone) refl

  -- If the folder of a flash cartridge is there already and both files open, its import returns
  -- the folder, without an error, and the folder's program ROM is the image and its manifest that
  -- of the image.
  pub bs_memory_import-HasCartridge :
      (buffer : List ℕ) (location : Text) (d : Daedalus)
      → IsWritable (bs_folder location) d
      → HasCartridge
          (bs_folder location)
          (bs_memory_manifest host buffer location)
          buffer
          (bs_memory_import host buffer location d)
  unfolding bs_memory_import bs_memory_manifest bs_memory_cartridge add_information
  bs_memory_import-HasCartridge buffer location d w =
      write_cartridge-HasCartridge (bs_folder location) (bs_memory_manifest host buffer location)
        buffer d refl w

  -- If the folder of a flash cartridge is not there, its import writes nothing, and returns the
  -- folder without an error all the same.
  pub bs_memory_import-no_folder :
      (buffer : List ℕ) (location : Text) (d : Daedalus)
      → d.folders (bs_folder location) ≡ false
      → bs_memory_import host buffer location d
        ≡ (bs_folder location, record d { error_message = [] })
  unfolding bs_memory_import bs_memory_manifest bs_memory_cartridge add_information
  bs_memory_import-no_folder buffer location d gone =
      write_cartridge-no_folder (bs_folder location) (bs_memory_manifest host buffer location)
        buffer d refl gone

  -- A Sufami Turbo image, by its text at the front, gets a markup.
  sufami_turbo_manifest-some :
      (rest : List ℕ) (location : Text)
      → 0x20000 ≤ length (codes "BANDAI SFC-ADX" ++ rest)
      → Safe
          (λ markup. is_empty markup ≡ false)
          (sufami_turbo_manifest host (codes "BANDAI SFC-ADX" ++ rest) location)
  unfolding sufami_turbo_manifest sufami_turbo_cartridge sufami_turbo_markup add_information
  sufami_turbo_manifest-some rest location large =
      let image = codes "BANDAI SFC-ADX" ++ rest in
      let enough : ltb (length image) 0x20000 ≡ false = ltb-of_le (length image) 0x20000 large in
      let (rom, rom_read, _) = Safe-ok (fetch-Safe image 0x36 (omega arith)) in
      let (ram, ram_read, _) = Safe-ok (fetch-Safe image 0x37 (omega arith)) in
      let (link, link_read, _) = Safe-ok (fetch-Safe image 0x35 (omega arith)) in
      rw (enough, same_memory-append rest, rom_read, ram_read, link_read) (safe _ refl)

  -- An image of at least 128 KiB that starts with the text of a Sufami Turbo cartridge is imported
  -- without a read outside it: if the cartridge's folder is there already and both files open, the
  -- import returns the folder, without an error, and the folder's program ROM is the image and its
  -- manifest that of the image.
  pub sufami_turbo_import-HasCartridge :
      (rest : List ℕ) (location : Text) (d : Daedalus)
      → 0x20000 ≤ length (codes "BANDAI SFC-ADX" ++ rest)
      → IsWritable (st_folder location) d
      → (r : Text × Daedalus) × (markup : Text) × (sufami_turbo_import host
            (codes "BANDAI SFC-ADX" ++ rest)
            location
            d
          ≡ ok r)
        × (sufami_turbo_manifest host (codes "BANDAI SFC-ADX" ++ rest) location ≡ ok markup)
        × HasCartridge (st_folder location) markup (codes "BANDAI SFC-ADX" ++ rest) r
  unfolding sufami_turbo_import
  sufami_turbo_import-HasCartridge rest location d large w =
      let image = codes "BANDAI SFC-ADX" ++ rest in
      let (markup, found, named) = Safe-ok (sufami_turbo_manifest-some rest location large) in
      (
        write_cartridge host (st_folder location) markup image d,
        markup,
        rw found refl,
        found,
        write_cartridge-HasCartridge (st_folder location) markup image d named w,
      )

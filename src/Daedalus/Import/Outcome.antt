-- ===== src/Daedalus/Import/Outcome.antt =====
-- daedalus/core/core.cpp: every import ends with a folder or with an error.
use mercurial_magic.Prelude.{
  ℕ, ◌%◌, ◌≤◌, ◌<◌, ◌≡◌, ◌≢◌, ◌⊎◌, refl, Bool, true, false, not, ◌||◌, ◌==◌, inl, inr, Option, none,
  some, List, [], ◌∷◌, ◌++◌, Text, codes, text_eq, if◌then◌else◌, length, ltb, ltb-false→le, Safe,
  safe, Safe-bind, Safe-if, Defined, arith,
}
use mercurial_magic.Magic.Disk.{Disk}
use mercurial_magic.Magic.Validate.{is_empty}
use mercurial_magic.Daedalus.Host.{Host, Daedalus, success, failure}
use mercurial_magic.Daedalus.Score.Range.{fetch-Safe}
use mercurial_magic.Daedalus.Header.Reads.{same_memory-Safe}
use mercurial_magic.Daedalus.SuperFamicom.Described.{super_famicom_cartridge-Safe}
use mercurial_magic.Daedalus.Slots.{sufami_turbo_cartridge}
use mercurial_magic.Daedalus.Manifests.{super_famicom_manifest, sufami_turbo_manifest}
use mercurial_magic.Daedalus.Import.{
  none_missing, scan_node, report, super_famicom_import, write_cartridge, bs_memory_import,
  sufami_turbo_import, import_as, import_archive, import_buffer, import_file,
}
use mercurial_magic.Daedalus.Import.Slices.{import_loop-Safe}

-- A location and no error, or an error and no location.
abbrev pub IsOutcome : Text × Daedalus → Type 0
IsOutcome r = ((r.0 ≢ []) × (r.1.error_message ≡ [])) ⊎ ((r.0 ≡ []) × (r.1.error_message ≢ []))

append_ne {ℓ} : {A : Type ℓ} (xs ys : List A) → ys ≢ [] → xs ++ ys ≢ []
append_ne [] ys h = h
append_ne (x ∷ xs) ys h = λ e. cc e

failure-IsOutcome : (message : Text) (d : Daedalus) → message ≢ [] → IsOutcome (failure message d)
unfolding failure
failure-IsOutcome message d h = inr (refl, h)

success-IsOutcome :
    (location : Text) (d : Daedalus) → location ≢ [] → IsOutcome (success location d)
unfolding success
success-IsOutcome location d h = inl (h, refl)

if_IsOutcome :
    (t : Bool) (a b : Text × Daedalus) → IsOutcome a → IsOutcome b → IsOutcome (if t then a else b)
if_IsOutcome true a b x y = x
if_IsOutcome false a b x y = y

sufami_turbo_cartridge-Safe :
    (hex : ℕ → Text) (image : List ℕ) → Defined (sufami_turbo_cartridge hex image (length image))
unfolding sufami_turbo_cartridge
sufami_turbo_cartridge-Safe hex image =
    Safe-if (ltb (length image) 0x20000) _ _ (λ _. safe [] tt)
      (λ large.
        let enough = ltb-false→le (length image) 0x20000 large in
        let byte = λ (i : ℕ) (small : i < 64). fetch-Safe image i (omega arith) in
        Safe-bind _ _ (same_memory-Safe image 0 (codes "BANDAI SFC-ADX") (omega arith)) (λ header _.
          Safe-if header _ _
            (λ _. Safe-bind _ _ (byte 0x36 (omega arith)) (λ rom _.
              Safe-bind _ _ (byte 0x37 (omega arith))
                (λ ram _. Safe-bind _ _ (byte 0x35 (omega arith)) (λ link _. safe _ tt))))
            (λ _. safe [] tt)))

module _ (host : Host) where
  super_famicom_manifest-Safe :
      (disk : Disk) (buffer : List ℕ) (location : Text)
      → Defined (super_famicom_manifest host disk buffer location)
  unfolding super_famicom_manifest
  super_famicom_manifest-Safe disk buffer location =
      Safe-bind _ _ (super_famicom_cartridge-Safe host.hex _ buffer (length buffer) (omega arith))
        (λ cartridge _. safe _ tt)

  report-IsOutcome : (target : Text) (d : Daedalus) → target ≢ [] → IsOutcome (report host target d)
  unfolding report
  report-IsOutcome target d h =
      if_IsOutcome (none_missing d.missing_files) _ _ (success-IsOutcome target d h)
        (failure-IsOutcome _ d (λ e. cc e))

  super_famicom_import-Safe :
      (buffer : List ℕ) (location : Text) (d : Daedalus)
      → length buffer < 4294967296
      → Safe IsOutcome (super_famicom_import host buffer location d)
  unfolding super_famicom_import
  super_famicom_import-Safe buffer location d small =
      let target =
        host.library ++ codes "Super Famicom/" ++ host.prefix location ++ codes ".sfc/" in
      let named =
        append_ne (host.library ++ codes "Super Famicom/" ++ host.prefix location) (codes ".sfc/")
          (λ e. cc e) in
      Safe-bind _ _ (super_famicom_manifest-Safe d.disk buffer location) (λ markup _.
        Safe-if (is_empty markup) _ _ (λ _. safe _ (failure-IsOutcome _ d (λ e. cc e)))
          (λ _.
            Safe-if (not (host.creates target)) _ _
              (λ _. safe _ (failure-IsOutcome _ d (λ e. cc e)))
              (λ _.
                let within : (if length buffer % 0x8000 == 512 then 512 else 0) ≤ length buffer =
                  ground arith in
                Safe-bind _ _
                  (import_loop-Safe host target buffer (scan_node host (host.board markup)) _ _
                    small within)
                  (λ d' _. safe _ (report-IsOutcome target d' named)))))

  write_cartridge-IsOutcome :
      (target markup : Text) (buffer : List ℕ) (d : Daedalus)
      → target ≢ []
      → IsOutcome (write_cartridge host target markup buffer d)
  unfolding write_cartridge
  write_cartridge-IsOutcome target markup buffer d named =
      if_IsOutcome (is_empty markup) _ _ (failure-IsOutcome _ d (λ e. cc e))
        (success-IsOutcome _ _ named)

  pub sufami_turbo_manifest-Safe :
      (buffer : List ℕ) (location : Text) → Defined (sufami_turbo_manifest host buffer location)
  unfolding sufami_turbo_manifest
  sufami_turbo_manifest-Safe buffer location =
      Safe-bind _ _ (sufami_turbo_cartridge-Safe host.hex buffer) (λ markup _. safe _ tt)

  sufami_turbo_import-Safe :
      (buffer : List ℕ) (location : Text) (d : Daedalus)
      → Safe IsOutcome (sufami_turbo_import host buffer location d)
  unfolding sufami_turbo_import
  sufami_turbo_import-Safe buffer location d =
      let named =
        append_ne (host.library ++ codes "Sufami Turbo/" ++ host.prefix location) (codes ".st/")
          (λ e. cc e) in
      Safe-bind _ _ (sufami_turbo_manifest-Safe buffer location)
        (λ markup _. safe _ (write_cartridge-IsOutcome _ markup buffer d named))

  bs_memory_import-IsOutcome :
      (buffer : List ℕ) (location : Text) (d : Daedalus)
      → IsOutcome (bs_memory_import host buffer location d)
  unfolding bs_memory_import
  bs_memory_import-IsOutcome buffer location d =
      let named =
        append_ne (host.library ++ codes "BS Memory/" ++ host.prefix location) (codes ".bs/")
          (λ e. cc e) in
      write_cartridge-IsOutcome _ _ buffer d named

  import_as-Safe :
      (type : Text) (buffer : List ℕ) (location : Text) (d : Daedalus)
      → length buffer < 4294967296
      → Safe IsOutcome (import_as host type buffer location d)
  unfolding import_as
  import_as-Safe type buffer location d small =
      Safe-if (text_eq type (codes ".sfc") || text_eq type (codes ".smc")) _ _
        (λ _. super_famicom_import-Safe buffer location d small)
        (λ _.
          Safe-if (text_eq type (codes ".bs")) _ _
            (λ _. safe _ (bs_memory_import-IsOutcome buffer location d))
            (λ _.
              Safe-if (text_eq type (codes ".st")) _ _
                (λ _. sufami_turbo_import-Safe buffer location d)
                (λ _. safe _ (failure-IsOutcome _ d (λ e. cc e)))))

  -- The sizes of an archive's files are 32-bit.
  abbrev pub UnzipsSmall : Type 0
  UnzipsSmall =
      (archive : List ℕ) (name : Text) (bytes : List ℕ) (files : List (Text × List ℕ))
      → host.unzip archive ≡ some ((name, bytes) ∷ files)
      → length bytes < 4294967296

  unzipped :
      (found : Option (List (Text × List ℕ))) (buffer : List ℕ) (location : Text) (d : Daedalus)
      → UnzipsSmall
      → host.unzip buffer ≡ found
      → Safe IsOutcome (import_archive host buffer location d)
  unfolding import_archive
  unzipped none buffer location d small e =
      rw (import_archive, e) (safe _ (failure-IsOutcome _ d (λ e. cc e)))
  unzipped (some []) buffer location d small e =
      rw (import_archive, e) (safe _ (failure-IsOutcome _ d (λ e. cc e)))
  unzipped (some (file ∷ files)) buffer location d small e =
      rw (import_archive, e)
        (import_as-Safe (host.suffix file.0) file.1 location d (small buffer file.0 file.1 files e))

  import_buffer-Safe :
      (buffer : List ℕ) (location : Text) (d : Daedalus)
      → UnzipsSmall
      → length buffer < 4294967296
      → Safe IsOutcome (import_buffer host buffer location d)
  unfolding import_buffer
  import_buffer-Safe buffer location d unzips small =
      Safe-if (is_empty (host.prefix location) || is_empty (host.suffix location)) _ _
        (λ _. safe _ (failure-IsOutcome _ d (λ e. cc e)))
        (λ _.
          Safe-if (is_empty buffer) _ _ (λ _. safe _ (failure-IsOutcome _ d (λ e. cc e)))
            (λ _.
              Safe-if (text_eq (host.suffix location) (codes ".zip")) _ _
                (λ _. unzipped (host.unzip buffer) buffer location d unzips refl)
                (λ _. import_as-Safe (host.suffix location) buffer location d small)))

  opened :
      (found : Option (List ℕ)) (name : Text) (d : Daedalus)
      → UnzipsSmall
      → ((path : Text) (bytes : List ℕ) → d.disk path ≡ some bytes → length bytes < 4294967296)
      → d.disk (host.forward name) ≡ found
      → Safe IsOutcome (import_file host name d)
  unfolding import_file
  opened none name d unzips small e =
      rw (import_file, e) (safe _ (failure-IsOutcome _ _ (λ e. cc e)))
  opened (some buffer) name d unzips small e =
      rw (import_file, e)
        (Safe-if (not (host.readable (host.forward name))) _ _
          (λ _. safe _ (failure-IsOutcome _ _ (λ e. cc e)))
          (λ _.
            import_buffer-Safe buffer (host.forward name) _ unzips
              (small (host.forward name) buffer e)))

  -- If all files and the first files of archives are smaller than 4 GiB, every import returns
  -- without an access out of bounds, either with a location and no error message, or with no
  -- location and an error message.
  pub import_file-Safe :
      (name : Text) (d : Daedalus)
      → UnzipsSmall
      → ((path : Text) (bytes : List ℕ) → d.disk path ≡ some bytes → length bytes < 4294967296)
      → Safe IsOutcome (import_file host name d)
  import_file-Safe name d unzips small =
      opened (d.disk (host.forward name)) name d unzips small refl

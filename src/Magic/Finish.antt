-- ===== src/Magic/Finish.antt =====
-- MercurialMagic/export.cpp: the end of an export, which writes the manifest.
use mercurial_magic.Prelude.{
  ℕ, Option, none, some, List, [], ◌∷◌, ◌++◌, Text, codes, if◌then◌else◌, Run, ok, fault, ◌>>=◌,
}
use mercurial_magic.Magic.{Program, ZipFile, Nall, game_pak, sd2snes}
use mercurial_magic.Magic.Disk.{Disk, write, rename}
use mercurial_magic.Magic.Validate.{is_empty, information}
use mercurial_magic.Magic.Window.{reset}

-- The programs icarus and daedalus, called with `--manifest`: their output, if they can be run. And
-- of nall, string::split and string_vector::merge at empty lines, string::replace, and
-- vector::sort.
pub record Tools : Type 0 where
  pub icarus : Disk → Text → Option Text
  pub daedalus : Disk → Text → Option Text
  pub split : Text → List Text
  pub merge : List Text → Text
  pub replace : Text → Text → Text → Text
  pub sort : List ℕ → List ℕ

abbrev pub output_of : Option Text → Text
output_of none = []
output_of (some output) = output

abbrev pub blank_line : Text
blank_line = codes "\n\n"

abbrev pub manifest_path : Program → Text
manifest_path p = p.destination ++ codes "manifest.bml"

module _ (tools : Tools) where
  -- Behind a manifest of icarus the one of daedalus is cut to its first section.
  unfoldable pub daedalus_manifest : Text → Option Text → Run Text
  daedalus_manifest icarus none = ok []
  daedalus_manifest icarus (some output) =
      if is_empty icarus then ok output else elim (tools.split output) [
        | [] ↦ fault
        | section ∷ sections ↦ ok (section ++ blank_line)
      ]

  -- The manifests of both programs, first that of icarus.
  unfoldable pub manifests : Disk → Program → Run (Text × Text)
  manifests disk p = do
    let icarus = output_of (tools.icarus disk p.destination)
    daedalus ← daedalus_manifest icarus (tools.daedalus disk p.destination)
    ok (icarus, daedalus)

  unfoldable pub substitute : Program → Text → Text
  substitute p manifest =
      tools.replace
        (tools.replace
          (tools.replace manifest (codes "program.rom")
            (codes "\"" ++ (p.output_name ++ codes ".sfc\"")))
          (codes "save.ram") (codes "\"" ++ (p.output_name ++ codes ".srm\"")))
        (codes "msu1.rom") (codes "\"" ++ (p.output_name ++ codes ".msu\""))

  -- sections[0].append(tracks)
  unfoldable pub add_tracks : Text → Text → Run Text
  add_tracks tracks manifest = elim (tools.split manifest) [
    | [] ↦ fault
    | section ∷ sections ↦ ok (tools.merge ((section ++ tracks) ∷ sections))
  ]

  module _ (nall : Nall) where
    unfoldable pub track_lines : Program → List ℕ → Text
    track_lines p [] = []
    track_lines p (id ∷ ids) =
        codes "\n    track number="
        ++ (nall.print id
            ++ (codes " name=\""
                ++ (p.output_name
                    ++ (codes "-" ++ (nall.print id ++ (codes ".pcm\"" ++ track_lines p ids))))))

    -- What the two cases leave on the disk.
    unfoldable pub finish_game_pak : Disk → Program → Run Disk
    finish_game_pak disk p =
        if p.create_manifest
        then (do
          (icarus, daedalus) ← manifests disk p
          ok (write nall.writable disk (manifest_path p) (daedalus ++ icarus)))
        else ok disk

    unfoldable pub finish_sd2snes : Disk → Program → Run Disk
    finish_sd2snes disk p =
        if p.sd2snes_force_manifest
        then (do
          (icarus, daedalus) ← manifests disk p
          let tracks = track_lines p (tools.sort p.track_ids)
          daedalus' ← add_tracks tracks (substitute p daedalus)
          icarus' ← add_tracks tracks (substitute p icarus)
          let disk₁ = write nall.writable disk (manifest_path p) (daedalus' ++ icarus')
          let disk₂ =
              rename disk₁ (p.destination ++ codes "program.rom")
                (p.destination ++ (p.output_name ++ codes ".sfc"))
          ok (
              rename disk₂ (p.destination ++ codes "msu1.rom")
                (p.destination ++ (p.output_name ++ codes ".msu"))))
        else ok disk

    unfoldable pub finish_method : Disk → Program → Run Disk
    finish_method disk p = elim p.export_method [
      | game_pak ↦ finish_game_pak disk p
      | sd2snes ↦ finish_sd2snes disk p
    ]

    unfoldable pub finish_export :
        (List ZipFile → List ℕ → List ZipFile) → Disk → Program → Run (Program × Disk)
    finish_export reopen disk p = do
      disk' ← finish_method disk p
      p' ← reset nall reopen disk' (information (codes "MSU1 pack exported!") p)
      ok (p', disk')

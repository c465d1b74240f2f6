-- ===== src/Magic/Export.antt =====
-- MercurialMagic/export.cpp and convert.cpp: the export of one file of the pack, and the loop over the files.
pub mod Copies
use mercurial_magic.Prelude.{
  ℕ, zero, suc, ◌+◌, ◌-◌, Bool, true, false, not, ◌&&◌, ◌||◌, Option, none, some, List, [], ◌∷◌,
  ◌++◌, length, get_elem?, Text, codes, text_eq, ltb, if◌then◌else◌, Run, ok, fault, stuck, ◌>>=◌,
}
use mercurial_magic.Magic.{Program, ZipFile, Nall, ExportMethod, game_pak, sd2snes}
use mercurial_magic.Magic.Disk.{Disk, exists, write, remove}
use mercurial_magic.Magic.Validate.{is_empty, information, set_progress}
use mercurial_magic.Magic.Window.{error}
use mercurial_magic.Magic.Track.{track_id, is_audio, is_converted}

-- What a call of `iterateExport` leads to: the next round, or the end of the thread.
pub data Next : Type 0 where
  continue stop exit : Next

module _ (nall : Nall) where
  -- Where a file of the pack is exported to; the empty path is that of a file that is left out,
  -- such as the ROMs that `beginExport` has merged for the SD2SNES.
  unfoldable pub export_path : Program → ZipFile → Text
  export_path p file =
      let ext = nall.suffix file.name in
      let id = nall.print (track_id nall file.name) in
      elim p.export_method [
        | game_pak ↦
            if is_audio ext
            then p.destination ++ (codes "track-" ++ (id ++ ext))
            else if not (text_eq ext (codes ".bps"))
            then p.destination ++ file.name
            else []
        | sd2snes ↦
            if is_audio ext
            then p.destination ++ (p.output_name ++ (codes "-" ++ (id ++ ext)))
            else if text_eq file.name (codes "msu1.rom")
            then p.destination
              ++ (if p.sd2snes_force_manifest
                  then codes "msu1.rom"
                  else p.output_name ++ codes ".msu")
            else []
      ]

  -- `convert`. What wav2msu leaves on the disk is a parameter.
  unfoldable pub convert : (Disk → Text → Disk) → Disk → Text → Bool × Disk
  convert wav2msu disk path =
      let disk' = if text_eq (nall.suffix path) (codes ".wav") then wav2msu disk path else disk in
      if exists disk' (nall.path path ++ (nall.prefix path ++ codes ".pcm"))
      then (true, remove disk' path)
      else (false, disk')

  -- The dialog of a file that was not converted, not on Windows. For a .wav file it has buttons,
  -- and a web page is opened on "Yes", which is left out.
  unfoldable pub conversion_error : ZipFile → Text → Text
  conversion_error file ext =
      codes "Could not convert "
      ++ (file.name
          ++ (codes " to PCM!\n"
              ++ (if text_eq ext (codes ".wav")
                  then codes
                      "Please check if wav2msu is installed correctly.\nWould you like to visit wav2msu's GitHub page?"
                  else if text_eq ext (codes ".ogg")
                  then codes "Ogg Vorbis is not currently supported."
                  else if text_eq ext (codes ".flac")
                  then codes "FLAC is not currently supported."
                  else codes "MP3 is not currently supported.")))

  -- file::write(path, pack.extract(file)), if there is a path
  unfoldable pub write_out : Disk → Text → List ℕ → Disk
  write_out disk path bytes = if is_empty path then disk else write nall.writable disk path bytes

  -- From the file on that `zipIndex` has found.
  unfoldable pub export_file :
      (List ZipFile → List ℕ → List ZipFile)
      → (Disk → Text → Disk)
      → ZipFile
      → Disk
      → Program
      → Run (Next × Program × Disk)
  export_file reopen wav2msu file disk p =
      let ext = nall.suffix file.name in
      let p₁ =
        information (codes "Exporting " ++ (file.name ++ codes "..."))
          (record p { zip_index = p.zip_index + 1 }) in
      let p₂ =
        if is_audio ext
        then record p₁ { track_ids = p.track_ids ++ track_id nall file.name ∷ [] }
        else p₁ in
      let path = export_path p₂ file in
      let disk₁ = write_out disk path file.contents in
      if not (is_converted ext)
      then ok (continue, set_progress p₂.zip_index p₂, disk₁)
      else let (converted, disk₂) = convert wav2msu disk₁ path in
        if converted
        then ok (continue, set_progress p₂.zip_index p₂, disk₂)
        else do p₃ ← error nall reopen disk₂ (conversion_error file ext) p₂; ok (exit, p₃, disk₂)

  unfoldable pub iterate_export :
      (List ZipFile → List ℕ → List ZipFile)
      → (Disk → Text → Disk)
      → Disk
      → Program
      → Run (Next × Program × Disk)
  iterate_export reopen wav2msu disk p = elim (get_elem? p.pack p.zip_index) [
    | none ↦ fault
    | some file ↦ export_file reopen wav2msu file disk p
  ]

  -- while(zipIndex < pack.file.size()) if(!iterateExport()) break; a round raises `zipIndex`.
  -- `exit` is the end of the thread before `finishExport`.
  unfoldable pub export_loop :
      (List ZipFile → List ℕ → List ZipFile)
      → (Disk → Text → Disk)
      → ℕ
      → Disk
      → Program
      → Run (Next × Program × Disk)
  export_loop reopen wav2msu zero disk p = stuck
  export_loop reopen wav2msu (suc fuel) disk p =
      let rest = (do
        (next, p', disk') ← iterate_export reopen wav2msu disk p
        elim next [
          | continue ↦ export_loop reopen wav2msu fuel disk' p'
          | stop ↦ ok (stop, p', disk')
          | exit ↦ ok (exit, p', disk')
        ]) in
      if ltb p.zip_index (length p.pack) then rest else ok (stop, p, disk)

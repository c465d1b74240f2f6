-- ===== src/Magic/Export/Copies.antt =====
-- MercurialMagic/export.cpp: the loop over a pack none of whose files needs a conversion.
use mercurial_magic.Prelude.{
  ℕ, zero, suc, ◌+◌, ◌<◌, ◌≡◌, ◌≢◌, refl, sym, ap, ◌∙◌, true, false, some, List, [], ◌∷◌, ◌++◌,
  length, get_elem?, All, Text, codes, ltb, if◌then◌else◌, ok, arith, get_elem?-append, append-cons,
  append-nil, append_assoc, length-append, length-snoc, lt→ltb, ltb-of_le, Bool-cases, inl, inr,
}
use mercurial_magic.Magic.{Program, ZipFile, Nall}
use mercurial_magic.Magic.Disk.{Disk, write_self, write_ne, write_closed}
use mercurial_magic.Magic.Validate.{is_empty, information, set_progress}
use mercurial_magic.Magic.Track.{track_id, is_audio, is_converted}
use mercurial_magic.Magic.Export.{
  continue, stop, export_path, write_out, export_file, iterate_export, export_loop,
}

module _ (nall : Nall) where
  -- The files' contents on the disk, one file after the other.
  abbrev pub copies : (ZipFile → Text) → Disk → List ZipFile → Disk
  copies path disk [] = disk
  copies path disk (f ∷ files) = copies path (write_out nall disk (path f) f.contents) files

  -- The numbers of the audio tracks, in the pack's order.
  abbrev pub tracks : List ZipFile → List ℕ
  tracks [] = []
  tracks (f ∷ files) =
      if is_audio (nall.suffix f.name) then track_id nall f.name ∷ tracks files else tracks files

  abbrev pub NeedsNoConversion : ZipFile → Type 0
  NeedsNoConversion f = is_converted (nall.suffix f.name) ≡ false

  module _ (reopen : List ZipFile → List ℕ → List ZipFile) (wav2msu : Disk → Text → Disk) where
    -- The program after one file.
    abbrev exported : Program → ZipFile → Program
    exported p f =
        let p₁ =
          information (codes "Exporting " ++ (f.name ++ codes "..."))
            (record p { zip_index = p.zip_index + 1 }) in
        set_progress (p.zip_index + 1) (record p₁ {
          track_ids =
              if is_audio (nall.suffix f.name)
              then p.track_ids ++ track_id nall f.name ∷ []
              else p.track_ids;
        })

    export_file-copies :
        (f : ZipFile) (disk : Disk) (p : Program)
        → NeedsNoConversion f
        → export_file nall reopen wav2msu f disk p
          ≡ ok (continue, exported p f, write_out nall disk (export_path nall p f) f.contents)
    unfolding export_file information set_progress export_path
    export_file-copies f disk p h = elim (Bool-cases (is_audio (nall.suffix f.name))) [
      | inl audio ↦ rw (h, audio) refl
      | inr other ↦ rw (h, other) refl
    ]

    -- Neither the place of a file nor what the loop reads changes with a file.
    export_path-exported :
        (p : Program) (f : ZipFile) → export_path nall (exported p f) ≡ export_path nall p
    unfolding export_path information set_progress
    export_path-exported p f = refl

    tracks-exported :
        (p : Program) (f : ZipFile) (files : List ZipFile)
        → (exported p f).track_ids ++ tracks files ≡ p.track_ids ++ tracks (f ∷ files)
    unfolding information set_progress
    tracks-exported p f files = elim (Bool-cases (is_audio (nall.suffix f.name))) [
      | inl audio ↦ rw audio (append_assoc p.track_ids (track_id nall f.name ∷ []) (tracks files))
      | inr other ↦ rw other refl
    ]

    iterate_export-copies :
        (f : ZipFile) (disk : Disk) (p : Program)
        → get_elem? p.pack p.zip_index ≡ some f
        → NeedsNoConversion f
        → iterate_export nall reopen wav2msu disk p
          ≡ ok (continue, exported p f, write_out nall disk (export_path nall p f) f.contents)
    unfolding iterate_export
    iterate_export-copies f disk p found h =
        rw (iterate_export, found) (export_file-copies f disk p h)

    export_loop-from :
        (rest front : List ZipFile) (fuel : ℕ) (disk : Disk) (p : Program)
        → p.pack ≡ front ++ rest
        → p.zip_index ≡ length front
        → length rest < fuel
        → All NeedsNoConversion rest
        → (p' : Program) × (export_loop nall reopen wav2msu fuel disk p
            ≡ ok (stop, p', copies (export_path nall p) disk rest))
          × (p'.zip_index ≡ length p.pack)
          × (p'.track_ids ≡ p.track_ids ++ tracks rest)
    unfolding export_loop information set_progress
    export_loop-from rest front zero disk p e i h all = absurd (omega arith)
    export_loop-from [] front (suc fuel) disk p e i h all =
        let same : length p.pack ≡ p.zip_index =
          omega (arith, ap length e, length-append front []) in
        (
          p,
          rw (ltb-of_le p.zip_index (length p.pack) (omega arith)) refl,
          sym same,
          sym (append-nil p.track_ids),
        )
    export_loop-from (f ∷ rest) front (suc fuel) disk p e i h (none_here, all) =
        let more : ltb p.zip_index (length p.pack) ≡ true =
          lt→ltb p.zip_index (length p.pack)
            (omega (arith, ap length e, length-append front (f ∷ rest))) in
        let round =
          iterate_export-copies f disk p (rw (e, i) (get_elem?-append front f rest)) none_here in
        let (p', done, index, ids) =
          export_loop-from rest (front ++ f ∷ []) fuel
            (write_out nall disk (export_path nall p f) f.contents) (exported p f)
            (e ∙ append-cons front f rest) (omega (arith, length-snoc front f)) (omega arith) all in
        (
          p',
          rw (more, round) (rw (export_path-exported p f) at done),
          index,
          ids ∙ tracks-exported p f rest,
        )

module _ (nall : Nall) where
  copies-ne :
      (path : ZipFile → Text) (files : List ZipFile) (disk : Disk) (at : Text)
      → All (λ g. path g ≢ at) files
      → copies nall path disk files at ≡ disk at
  unfolding write_out
  copies-ne path [] disk at h = refl
  copies-ne path (g ∷ files) disk at (differ, h) = elim (Bool-cases (is_empty (path g))) [
    | inl empty ↦
        copies-ne path files (write_out nall disk (path g) g.contents) at h
        ∙ rw (write_out, empty) refl
    | inr there ↦
        copies-ne path files (write_out nall disk (path g) g.contents) at h
        ∙ rw (write_out, there) (write_ne nall.writable disk (path g) at g.contents differ)
  ]

  -- A file whose path no later file has is on the disk in the end.
  copies-append :
      (path : ZipFile → Text) (front back : List ZipFile) (f : ZipFile) (disk : Disk)
      → is_empty (path f) ≡ false
      → nall.writable (path f) ≡ true
      → All (λ g. path g ≢ path f) back
      → copies nall path disk (front ++ f ∷ back) (path f) ≡ some f.contents
  copies-append path [] back f disk there opened h =
      copies-ne path back (write_out nall disk (path f) f.contents) (path f) h
      ∙ unfold write_out in
        rw (write_out, there) (write_self nall.writable disk (path f) f.contents opened)
  copies-append path (g ∷ front) back f disk there opened h =
      copies-append path front back f (write_out nall disk (path g) g.contents) there opened h

  write_out_closed :
      (disk : Disk) (path other : Text) (bytes : List ℕ)
      → nall.writable other ≡ false
      → write_out nall disk path bytes other ≡ disk other
  unfolding write_out
  write_out_closed disk path other bytes h = elim (Bool-cases (is_empty path)) [
    | inl empty ↦ rw empty refl
    | inr there ↦ rw there (write_closed nall.writable disk path other bytes h)
  ]

  -- A file that does not open stays as it was.
  copies_closed :
      (path : ZipFile → Text) (files : List ZipFile) (disk : Disk) (at : Text)
      → nall.writable at ≡ false
      → copies nall path disk files at ≡ disk at
  copies_closed path [] disk at h = refl
  copies_closed path (g ∷ files) disk at h =
      copies_closed path files (write_out nall disk (path g) g.contents) at h
      ∙ write_out_closed disk (path g) at g.contents h

  copies-if :
      (path : ZipFile → Text) (front back : List ZipFile) (f : ZipFile) (disk : Disk)
      → is_empty (path f) ≡ false
      → All (λ g. path g ≢ path f) back
      → copies nall path disk (front ++ f ∷ back) (path f)
        ≡ (if nall.writable (path f) then some f.contents else disk (path f))
  copies-if path front back f disk there h = elim (Bool-cases (nall.writable (path f))) [
    | inl opened ↦ rw opened (copies-append path front back f disk there opened h)
    | inr closed ↦ rw closed (copies_closed path (front ++ f ∷ back) disk (path f) closed)
  ]

  -- From the first file of a pack none of whose files needs a conversion, the loop ends in
  -- `finishExport`, with all files visited and the audio tracks' numbers noted, in the pack's order,
  -- behind those that were there. Each file that has a path, which no later file of the pack has too,
  -- is on the disk at that path, with the contents of the archive, if the path opens for writing; if
  -- it does not, what the disk has there is as it was.
  pub export_loop-copies :
      (reopen : List ZipFile → List ℕ → List ZipFile) (wav2msu : Disk → Text → Disk)
      (front back : List ZipFile) (f : ZipFile) (disk : Disk) (p : Program)
      → p.pack ≡ front ++ f ∷ back
      → p.zip_index ≡ 0
      → All (NeedsNoConversion nall) p.pack
      → is_empty (export_path nall p f) ≡ false
      → All (λ g. export_path nall p g ≢ export_path nall p f) back
      → (p' : Program) × (disk' : Disk) × (export_loop nall reopen wav2msu
            (suc (length p.pack))
            disk
            p
          ≡ ok (stop, p', disk'))
        × (p'.zip_index ≡ length p.pack)
        × (p'.track_ids ≡ p.track_ids ++ tracks nall p.pack)
        × (disk' (export_path nall p f) ≡ (
            if nall.writable (export_path nall p f)
            then some f.contents
            else disk (export_path nall p f)))
  unfolding export_path
  export_loop-copies reopen wav2msu front back f disk p e i all there differ =
      let (p', done, index, ids) =
        export_loop-from nall reopen wav2msu p.pack [] (suc (length p.pack)) disk p refl i
          (omega arith) all in
      (
        p',
        copies nall (export_path nall p) disk p.pack,
        done,
        index,
        ids,
        rw e (copies-if (export_path nall p) front back f disk there differ),
      )

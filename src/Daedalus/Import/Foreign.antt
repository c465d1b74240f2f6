-- ===== src/Daedalus/Import/Foreign.antt =====
-- daedalus/core/sufami-turbo.cpp: images that are no Sufami Turbo cartridge.
use mercurial_magic.Prelude.{
  ℕ, zero, suc, ◌+◌, ◌≤◌, ◌<◌, ◌≡◌, ◌≢◌, refl, Bool, true, false, Bool-cases, inl, inr, ◌==◌, ◌&&◌,
  List, [], ◌∷◌, length, take, drop, Text, codes, ltb, ltb-false→le, if◌then◌else◌, Run, ok, ◌>>=◌,
  Safe, safe, Safe-bind, arith,
}
use mercurial_magic.Ramus.Memory.{fetch}
use mercurial_magic.Daedalus.Cartridge.{same_memory}
use mercurial_magic.Daedalus.Host.{Host, Daedalus, failure}
use mercurial_magic.Daedalus.Manifests.{sufami_turbo_manifest, add_information}
use mercurial_magic.Daedalus.Slots.{sufami_turbo_cartridge}
use mercurial_magic.Daedalus.Import.{write_cartridge, sufami_turbo_import}

fetch-drop :
    (image : List ℕ) (at : ℕ)
    → at < length image
    → (x : ℕ) × (fetch image at ≡ ok x) × (drop at image ≡ x ∷ drop (suc at) image)
unfolding fetch
fetch-drop [] at h = absurd (omega arith)
fetch-drop (x ∷ image) zero h = (x, refl, refl)
fetch-drop (x ∷ image) (suc at) h = fetch-drop image at (omega arith)

-- A comparison that holds has found the bytes.
same_memory-take :
    (image : List ℕ) (at : ℕ) (bytes : List ℕ)
    → at + length bytes ≤ length image
    → Safe
        (λ b. b ≡ true → take (length bytes) (drop at image) ≡ bytes)
        (same_memory image at bytes)
unfolding same_memory
same_memory-take image at [] h = safe true (λ _. refl)
same_memory-take image at (b ∷ bytes) h =
    let (x, found, cut) = fetch-drop image at (omega arith) in
    rw found (
      Safe-bind _ _ (same_memory-take image (suc at) bytes (omega arith)) (λ rest more.
        safe (x == b && rest) (λ both.
          let same : x ≡ b = ground (arith, both) in
          let others : rest ≡ true = ground (arith, both) in rw (cut, same, more others) refl)))

module _ (host : Host) where
  -- The rest of the heuristics is not reached.
  compared_false :
      {m : Run Bool} (next : Run Text) (buffer : List ℕ)
      → take 14 buffer ≢ codes "BANDAI SFC-ADX"
      → Safe (λ b. b ≡ true → take 14 buffer ≡ codes "BANDAI SFC-ADX") m
      → (m >>= λ header. if header then next else ok []) ≡ ok []
  compared_false next buffer foreign (safe true h) = absurd (foreign (h refl))
  compared_false next buffer foreign (safe false h) = refl

  sufami_turbo_cartridge-nil :
      (buffer : List ℕ)
      → take 14 buffer ≢ codes "BANDAI SFC-ADX"
      → sufami_turbo_cartridge host.hex buffer (length buffer) ≡ ok []
  unfolding sufami_turbo_cartridge
  sufami_turbo_cartridge-nil buffer foreign = elim (Bool-cases (ltb (length buffer) 0x20000)) [
    | inl small ↦ rw small refl
    | inr large ↦
        let enough = ltb-false→le (length buffer) 0x20000 large in
        rw large (
          compared_false _ buffer foreign
            (same_memory-take buffer 0 (codes "BANDAI SFC-ADX") (omega arith)))
  ]

  -- An image that does not start with the text of a Sufami Turbo cartridge is refused, without a read
  -- outside it: the import returns no folder but an error message, and writes nothing.
  pub sufami_turbo_import-foreign :
      (buffer : List ℕ) (location : Text) (d : Daedalus)
      → take 14 buffer ≢ codes "BANDAI SFC-ADX"
      → (r : Text × Daedalus) × (sufami_turbo_import host buffer location d ≡ ok r)
        × (r.0 ≡ [])
        × (r.1.error_message ≢ [])
        × (r.1.disk ≡ d.disk)
  unfolding sufami_turbo_import sufami_turbo_manifest add_information write_cartridge failure
  sufami_turbo_import-foreign buffer location d foreign = (
    failure (codes "failed to parse ROM image") d,
    rw (sufami_turbo_cartridge-nil buffer foreign) refl,
    refl,
    (λ e. cc e),
    refl,
  )

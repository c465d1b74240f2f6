-- ===== src/Lib.antt =====
-- Mercurial Magic turns an MSU-1 pack (an archive with music, a data file, and a patch or a ROM)
-- into a game folder for emulators or for the SD2SNES. This library models the code that does so:
-- the program's checks and its export (MercurialMagic/), and the patchers it uses (ramus/patch/);
-- and of the same library the DEFLATE and ZIP encoders, the filter of the PNG encoder, a checksum
-- and the conversion from Shift-JIS (ramus/encode/, ramus/hash/, ramus/shift-jis.hpp). It models
-- daedalus too (daedalus/core/ and daedalus/heuristics/), the program that Mercurial Magic starts
-- to write the first section of a manifest, and that imports ROM images into a library of folders.
--
-- How the parts interact. A tab's handler calls validatePack or validateROMPatch
-- (MercurialMagic/program.cpp), which open the archive, keep the contents of patch.bps, and
-- compare a ROM's CRC-32 with the one in the patch. The export button calls beginExport
-- (MercurialMagic/export.cpp), which patches or merges the ROM, by nall's strict patcher or by
-- ramus::bpspatch_ignore_size, and starts a thread that calls iterateExport on file after file of
-- the archive; iterateExport calls convert (MercurialMagic/convert.cpp) on audio that is no PCM,
-- and after the last file finishExport writes a manifest. An error resets the window and ends the
-- export. daedalus reads the image of a cartridge (superFamicomManifest and its like for slot
-- cartridges): findHeader takes the place with the best scoreHeader, readHeader finds the
-- cartridge's type and its coprocessors, and the constructor of SuperFamicomCartridge writes the
-- markup. import tells the kind of cartridge by the suffix, and superFamicomImport cuts the image
-- into the ROMs that the markup names.
--
-- Files, and the code they are about:
--   Prelude               library names passed on; Boolean tests, lists and texts over the native
--                         numbers; Run, the outcome of code that uses raw pointers
--   Ramus/Memory          reads and writes through pointers, memory::copy and memory::fill
--   Ramus/Bps             ramus/patch/bps-ignore-size.hpp: the lambdas read, decode and write, the
--                         copy loops (source_read, target_read, source_copy, target_copy), the main
--                         loop (action, action_loop)
--   Ramus/Bps/Object      its public functions modify, source, target, metadata, size and apply;
--                         apply is read_header, then apply_body, then finish
--   Ramus/Bps/Format      the patch format by itself: an encoder, and what actions make of a source
--   Ramus/Bps/Number, Numbers, Loops, Actions, Replay, Modify, Apply, Workflow
--                         the reader on patches of that encoder, from numbers up to all four calls
--   Ramus/Bps/Termination the loops of the reader, on every input
--   Ramus/Deflate         ramus/encode/deflate.hpp: the bit buffer, literals, matches and compress;
--                         Stream (the buffer as bits), Inflate (a reader, after RFC 1951), Codes,
--                         Matches and Pairs (single symbols), Extend, Writes and Blocks (the
--                         loops), RoundTrip
--   Ramus/Zip             ramus/encode/zip.hpp; Fields (numbers in bytes), Reader (a reader of archives,
--                         after the format's description), Archive, RoundTrip and Workflow (an archive's
--                         parts, up to the destructor), Appends
--   Ramus/ShiftJis        ramus/shift-jis.hpp; Rows (texts encoded as the standard says),
--                         Unicode (their UTF-8), Stray
--   Ramus/Png             ramus/encode/png.hpp: the filtered image data; Bytes (with the predictor of the
--                         specification), Rows, Image (a reader)
--   Ramus/Adler32         ramus/hash/adler-32.hpp; Formula
--   Ramus/Ips             ramus/patch/ips.hpp, function by function; Blocks, Safety, Truncation
--   Magic                 MercurialMagic/program.hpp: the record Program, and Nall, what the program
--                         uses of nall on texts
--   Magic/Disk            files by their paths
--   Magic/Validate        MercurialMagic/program.cpp: validatePack, validateROMPatch, setDestination,
--                         fetch, setProgress; Sound and Stale
--   Magic/Window          MercurialMagic/program.cpp (setEnabled, reset, error), basic-settings.cpp
--                         and advanced-settings.cpp (the handlers that judge what can be exported); Button
--   Magic/Track           MercurialMagic/export.cpp: the number of an audio track; Digits
--   Magic/Export          MercurialMagic/export.cpp (iterateExport, the thread's loop) and convert.cpp;
--                         Copies
--   Magic/Begin           MercurialMagic/export.cpp: beginExport; Patched
--   Magic/Finish          MercurialMagic/export.cpp: finishExport
--   Daedalus/Cartridge    daedalus/heuristics/super-famicom.cpp: the fields, HeaderField, memcmp
--   Daedalus/Score        its scoreHeader and findHeader; Range, Best
--   Daedalus/Header       its readHeader but for the coprocessors; Reads, Special, Safety
--   Daedalus/Chips        the coprocessors in readHeader; Flags (all tests at once), Table (the boards),
--                         One
--   Daedalus/Boards, Extras
--                         the sections of the markup
--   Daedalus/SuperFamicom its constructor; Described, Bare
--   Daedalus/Slots        daedalus/heuristics/sufami-turbo.cpp and bs-memory.cpp
--   Daedalus/Host         daedalus/core/core.hpp: the state, and what the code calls of nall
--   Daedalus/Manifests    daedalus/core/: manifest and the three kinds of manifests
--   Daedalus/Import       daedalus/core/: import and the three kinds of imports; Slices, Outcome,
--                         Folder, Foreign
--   Tests                 concrete inputs
--
-- State. A pointer with a size is a list of bytes, and an access outside it is the outcome `fault`,
-- where C++ is undefined. A patch object is a record (BpsPatch, IpsPatch), and the local variables
-- of apply are a record (State). Words keep their width by `u32` and `u64`, also offsets that wrap
-- around and the sign of a move. The program is the record Program, widgets included where the
-- code reads or sets them, and the disk is a function from paths to contents. A file is written if
-- it opens, which a parameter says (`writable`), and in daedalus only if its folder is there (the
-- field `folders`, to which `create` adds); the code ignores the result. The fields of a
-- SuperFamicomCartridge are the record Cartridge, those of Daedalus the record Daedalus; the early
-- returns of readHeader are `some` cartridge.
--
-- Fuel. `decode_loop` reads a byte in each round, so a round more than the patch's length is
-- enough; `action_loop` and the loops of Ramus/Ips also read in each round; `export_loop` raises
-- `zip_index`. `search_entry` has as many rounds as its table has entries, `extend` one for each
-- length up to 258, and the loop of compress moves `source` on in each round. A model that has no
-- fuel left is `stuck`, which is no outcome of the program.
--
-- scoreHeader, readHeader and the import's loop need no fuel: they read a fixed number of bytes, or
-- follow a list.
--
-- Parameters, for code that is another project's: the CRC-32 (Crc32), texts (Nall), `pack.open`
-- (`reopen`), nall's strict patcher (`strict`), the tools wav2msu, icarus and daedalus, whether
-- files open (`opens`), and the fields of a patch object that `new` leaves uninitialised
-- (`fresh`). The table jis0208 is generated data and a parameter too. For daedalus they are the
-- record Host: paths (Location), `hex`, SHA-256, the parser of the markup, the ZIP decoder, and
-- the library's folder.
--
-- Not modelled: the window itself, the start of icarus and daedalus, the web page offered after a
-- failed conversion, the rest of ramus (of the PNG encoder the chunks), the windows of daedalus,
-- and the program icarus, which is another project's; nall and hiro are copies of other projects'
-- libraries. Of SuperFamicomCartridge the fields loaded and crc32 are left out, which no code
-- uses. A ROM on the disk is taken not to change while it is patched.
pub mod Prelude
pub mod Ramus
pub mod Magic
pub mod Daedalus
pub mod Tests

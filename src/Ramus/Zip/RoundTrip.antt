-- ===== src/Ramus/Zip/RoundTrip.antt =====
-- ramus/encode/zip.hpp: append and the destructor, from an empty archive to its last byte.
use mercurial_magic.Prelude.{
  ℕ, suc, ◌<◌, ◌≡◌, refl, sym, ap, ◌∙◌, some, List, [], ◌∷◌, ◌++◌, append-nil, append_assoc, length,
  u32, arith,
}
use mercurial_magic.Ramus.Zip.{Zip, write_fields, end_fields, append_compressed}
use mercurial_magic.Ramus.Zip.Fields.{read_fields, read_fields-write_fields, length-write_fields}
use mercurial_magic.Ramus.Zip.Reader.{Member, end_sizes}
use mercurial_magic.Ramus.Zip.Archive.{local_bytes, entry_of, IsSmall, IsStored, AllStored, entries}

-- The archive up to now holds these files at their offsets.
pub record IsArchive (z : Zip) (placed : List (Member × ℕ)) : Type 0 where
  pub small_time : z.dos_time < 65536
  pub small_date : z.dos_date < 65536
  pub listed : z.directory ≡ entries placed
  pub stored : AllStored z.dos_time z.dos_date z.fp placed

regroup_file :
    (f l n c r x : List ℕ) → (f ++ (l ++ (n ++ (c ++ r)))) ++ x ≡ f ++ (l ++ (n ++ (c ++ (r ++ x))))
regroup_file f l n c r x =
    rw
      (
        append_assoc f (l ++ (n ++ (c ++ r))) x,
        append_assoc l (n ++ (c ++ r)) x,
        append_assoc n (c ++ r) x,
        append_assoc c r x,
      )
      refl

IsStored-append :
    (time date : ℕ) (bytes more : List ℕ) (m : Member) (offset : ℕ)
    → IsStored time date bytes m offset
    → IsStored time date (bytes ++ more) m offset
IsStored-append time date bytes more m offset s = record {
  front = s.front;
  rest = s.rest ++ more;
  whole =
      ap (λ ys. ys ++ more) s.whole
      ∙ regroup_file s.front (local_bytes time date m) m.name m.contents s.rest more;
  place = s.place;
  small = s.small;
  small_offset = s.small_offset;
}

pub AllStored-append :
    (time date : ℕ) (bytes more : List ℕ) (placed : List (Member × ℕ))
    → AllStored time date bytes placed
    → AllStored time date (bytes ++ more) placed
AllStored-append time date bytes more [] h = tt
AllStored-append time date bytes more ((m, offset) ∷ placed) (s, h) = (
  IsStored-append time date bytes more m offset s,
  AllStored-append time date bytes more placed h,
)

AllStored-snoc :
    (time date : ℕ) (bytes : List ℕ) (placed : List (Member × ℕ)) (m : Member) (offset : ℕ)
    → AllStored time date bytes placed
    → IsStored time date bytes m offset
    → AllStored time date bytes (placed ++ (m, offset) ∷ [])
AllStored-snoc time date bytes [] m offset h s = (s, tt)
AllStored-snoc time date bytes (p ∷ placed) m offset (t, h) s =
    (t, AllStored-snoc time date bytes placed m offset h s)

entries-snoc :
    (placed : List (Member × ℕ)) (p : Member × ℕ)
    → entries (placed ++ p ∷ []) ≡ entries placed ++ entry_of p ∷ []
entries-snoc [] p = refl
entries-snoc (q ∷ placed) p = ap (◌∷◌ (entry_of q)) (entries-snoc placed p)

pub append_compressed-IsArchive :
    (m : Member) (z : Zip) (placed : List (Member × ℕ))
    → IsSmall m
    → length z.fp < 4294967296
    → IsArchive z placed
    → IsArchive
        (append_compressed m.name m.checksum m.contents m.size z)
        (placed ++ (m, length z.fp) ∷ [])
unfolding append_compressed
append_compressed-IsArchive m z placed small room a =
    let packed : u32 (length m.contents) ≡ length m.contents =
      omega (arith, small.small_contents) in
    let place : u32 (length z.fp) ≡ length z.fp = omega arith in
    let file = local_bytes z.dos_time z.dos_date m ++ (m.name ++ m.contents) in
    let last : IsStored z.dos_time z.dos_date (z.fp ++ file) m (length z.fp) = record {
      front = z.fp;
      rest = [];
      whole =
          ap (λ ys. z.fp ++ (local_bytes z.dos_time z.dos_date m ++ (m.name ++ ys)))
            (sym (append-nil m.contents));
      place = refl;
      small = small;
      small_offset = room;
    } in
    record {
      small_time = a.small_time;
      small_date = a.small_date;
      listed = rw (packed, place, a.listed) (sym (entries-snoc placed (m, length z.fp)));
      stored = rw small.printed (
          AllStored-snoc z.dos_time z.dos_date (z.fp ++ file) placed m (length z.fp)
            (AllStored-append z.dos_time z.dos_date z.fp file placed a.stored) last);
    }

pub length-entries : (placed : List (Member × ℕ)) → length (entries placed) ≡ length placed
length-entries [] = refl
length-entries (p ∷ placed) = ap suc (length-entries placed)

pub length-end_fields :
    (count size base : ℕ) → length (write_fields (end_fields count size base)) ≡ 22
unfolding end_fields
length-end_fields count size base = length-write_fields (end_fields count size base)

pub end_record :
    (count size base : ℕ)
    → count < 65536
    → size < 4294967296
    → base < 4294967296
    → read_fields end_sizes (write_fields (end_fields count size base))
      ≡ some (0x06054b50 ∷ 0 ∷ 0 ∷ count ∷ count ∷ size ∷ base ∷ 0 ∷ [], [])
unfolding end_fields
end_record count size base c s b =
    ap (read_fields end_sizes) (sym (append-nil (write_fields (end_fields count size base))))
    ∙ read_fields-write_fields (end_fields count size base) []
        (omega arith, (omega arith, (omega arith, (c, (c, (s, (b, (omega arith, tt))))))))

-- ===== src/Zone/ReadBack.antt =====
-- lib/dnsa_net.c: what `write_fwd_records` and `write_rev_zone_records` write can be read.
use cmdb.Base.{
  ℕ, ◌*◌, ◌%◌, ◌<◌, ◌≡◌, refl, ◌∙◌, true, false, some, List, [], ◌∷◌, ◌==◌, length, arith,
}
use cmdb.Data.{Text}
use cmdb.Zone.Writer.{record_lines, write_fwd_records}
use cmdb.Zone.Disk.{write_rev_zone_records}
use cmdb.Zone.Readable.{
  HostRecord, lines_of, read_record, read_pointer, read_all, record_values, pointer_values,
  ArePlain, ArePointers, record_lines-read, pointer_lines-read,
}

length-record_values : (rs : List HostRecord) → length (record_values rs) ≡ 3 * length rs
length-record_values [] = refl
length-record_values (r ∷ rs) = omega (arith, length-record_values rs)

length-pointer_values : (rs : List HostRecord) → length (pointer_values rs) ≡ 2 * length rs
length-pointer_values [] = refl
length-pointer_values (r ∷ rs) = omega (arith, length-pointer_values rs)

pub in_threes : (n m : ℕ) → n ≡ 3 * m → (n % 3 == 0) ≡ true
in_threes n m e = ground arith

in_twos : (n m : ℕ) → n ≡ 2 * m → (n % 2 == 0) ≡ true
in_twos n m e = ground arith

pub fwd_records-lines :
    (fd : ℕ) (rs : List HostRecord)
    → 0 < fd
    → write_fwd_records fd (record_values rs) ≡ record_lines (record_values rs)
unfolding write_fwd_records
fwd_records-lines fd rs open_fd =
    let is_open : (fd == 0) ≡ false = ground arith in
    let threes = in_threes (length (record_values rs)) (length rs) (length-record_values rs) in
    rw (is_open, threes) refl

records_written :
    (fd : ℕ) (rs : List HostRecord)
    → 0 < fd
    → ArePlain rs
    → (t : Text) × (write_fwd_records fd (record_values rs) ≡ some t)
      × (read_all read_record (lines_of t) ≡ some rs)
records_written fd rs open_fd plain =
    let (t, written, read) = record_lines-read rs plain in
    (t, fwd_records-lines fd rs open_fd ∙ written, read)

pointers_written :
    (fd : ℕ) (ps : List HostRecord)
    → 0 < fd
    → ArePlain ps
    → ArePointers ps
    → (t : Text) × (write_rev_zone_records fd (pointer_values ps) ≡ some t)
      × (read_all read_pointer (lines_of t) ≡ some ps)
unfolding write_rev_zone_records
pointers_written fd ps open_fd plain pointers =
    let (t, written, read) = pointer_lines-read ps plain pointers in
    let is_open : (fd == 0) ≡ false = ground arith in
    let twos = in_twos (length (pointer_values ps)) (length ps) (length-pointer_values ps) in
    (t, rw (is_open, twos) written, read)

-- The records that `write_fwd_records` writes into an open file are read as those that the database has,
-- in their order: host, type and what they point to. So are the pointers of
-- `write_rev_zone_records`. The descriptor is not 0, there is no newline in a record and no tab in its host
-- and its type, and the type of a pointer is PTR.
pub records_read_back :
    (fd : ℕ) (rs ps : List HostRecord)
    → 0 < fd
    → ArePlain rs
    → ArePlain ps
    → ArePointers ps
    → ((t : Text) × (write_fwd_records fd (record_values rs) ≡ some t)
        × (read_all read_record (lines_of t) ≡ some rs))
      × ((t : Text) × (write_rev_zone_records fd (pointer_values ps) ≡ some t)
          × (read_all read_pointer (lines_of t) ≡ some ps))
records_read_back fd rs ps open_fd plain plain_ps pointers =
    (records_written fd rs open_fd plain, pointers_written fd ps open_fd plain_ps pointers)

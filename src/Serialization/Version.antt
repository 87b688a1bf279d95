-- ===== src/Serialization/Version.antt =====
-- engine/serialization/record.py: the header that says which transactions made and deleted a row version.
pub mod RoundTrip
use chen_db.Prelude.{ℕ, ◌++◌, ◌^◌, Option, none, some, ltb, if◌then◌else◌, length, drop}
use chen_db.Prelude.Bytes.{Bytes, le_bytes, le_value}
use chen_db.Prelude.Result.{Result, ok, err}
use chen_db.Prelude.Slices.{slice, pack_into}
use chen_db.Concurrency.Snapshot.{TupleHeader}
use chen_db.Serialization.Record.{RecordError, serialization, struct_error}

-- `struct.pack` raises where an id does not fit in 32 bits.
unfoldable pub add_tuple_header : Bytes → ℕ → ℕ → Result RecordError Bytes
add_tuple_header payload xmin xmax =
    if ltb xmin (256 ^ 4)
    then (if ltb xmax (256 ^ 4)
        then ok (le_bytes 4 xmin ++ (le_bytes 4 xmax ++ payload))
        else err struct_error)
    else err struct_error

unfoldable pub read_tuple_header : Bytes → Result RecordError TupleHeader
read_tuple_header raw =
    if ltb (length raw) 8
    then err serialization
    else ok (record { xmin = le_value (slice 0 4 raw); xmax = le_value (slice 4 4 raw) })

unfoldable pub strip_tuple_header : Bytes → Bytes
strip_tuple_header raw = drop 8 raw

abbrev pub packed : Option Bytes → Result RecordError Bytes
packed none = err struct_error
packed (some buf) = ok buf

unfoldable pub set_xmax : Bytes → ℕ → Result RecordError Bytes
unfolding pack_into
set_xmax raw xmax = packed (pack_into 4 4 xmax raw)

-- ===== src/Stats/Codec.antt =====
-- src/stats.c: snapshots as bytes. `read_words` reads numbers of the given sizes, the lowest byte first,
-- where the code calls get_u32 and get_u64 on a cursor; the bytes that it joins by `|` do not overlap.
use ankah.Prelude.{
  ℕ, zero, suc, ◌+◌, ◌-◌, ◌*◌, ◌/◌, ◌%◌, Bool, not, ◌&&◌, ◌||◌, List, [], ◌∷◌, ◌++◌, Option, none,
  some, ◌>>=◌, ltb, ◌==◌, if◌then◌else◌, length, take, drop, get_or, replicate, Bytes, codes,
  str_eq,
}
use ankah.Stats.{Row, Stats, stat_count, stat_hours, stat_days}
use ankah.Stats.Snapshot.{Saved, saved_of, totals_valid}

abbrev pub header_size : ℕ
header_size = 80

abbrev pub digest_size : ℕ
digest_size = 32

abbrev pub snapshot_version : ℕ
snapshot_version = 3

-- 'A','N','K','H','S','T','A','T'
abbrev pub magic : Bytes
magic = codes "ANKHSTAT"

-- The loop of put_u32 and put_u64.
unfoldable pub put_word : ℕ → ℕ → Bytes
put_word zero value = []
put_word (suc n) value = value % 256 ∷ put_word n (value / 256)

unfoldable pub get_word : ℕ → Bytes → ℕ
get_word zero cursor = 0
get_word (suc n) [] = 0
get_word (suc n) (c ∷ cursor) = c + 256 * get_word n cursor

unfoldable pub put_words : List ℕ → List ℕ → Bytes
put_words [] values = []
put_words (n ∷ sizes) [] = []
put_words (n ∷ sizes) (value ∷ values) = put_word n value ++ put_words sizes values

-- The values, and the cursor behind them.
unfoldable pub read_words : List ℕ → Bytes → List ℕ × Bytes
read_words [] cursor = ([], cursor)
read_words (n ∷ sizes) cursor =
    let (values, rest) = read_words sizes (drop n cursor) in (get_word n cursor ∷ values, rest)

abbrev pub header_sizes : List ℕ
header_sizes = 4 ∷ 4 ∷ 4 ∷ 4 ∷ 8 ∷ 8 ∷ 8 ∷ 8 ∷ 8 ∷ 8 ∷ 4 ∷ 4 ∷ []

abbrev pub row_sizes : ℕ → List ℕ
row_sizes field_count = replicate field_count 8

-- The values of the first `n` fields from field `i`.
unfoldable pub row_values : ℕ → ℕ → Row → List ℕ
row_values i zero row = []
row_values i (suc n) row = row i ∷ row_values (suc i) n row

abbrev pub put_record : Row → Bytes
put_record row = put_words (row_sizes stat_count) (row_values 0 stat_count row)

abbrev pub row_of : List ℕ → Row
row_of values field = get_or values field 0

unfoldable pub get_record : ℕ → Bytes → Row × Bytes
get_record field_count cursor =
    let (values, rest) = read_words (row_sizes field_count) cursor in (row_of values, rest)

unfoldable pub put_records : List Row → Bytes
put_records [] = []
put_records (row ∷ rows) = put_record row ++ put_records rows

unfoldable pub get_records : ℕ → ℕ → Bytes → List Row × Bytes
get_records field_count zero cursor = ([], cursor)
get_records field_count (suc n) cursor =
    let (row, rest) = get_record field_count cursor in
    let (rows, end) = get_records field_count n rest in (row ∷ rows, end)

abbrev pub header_values : ℕ → ℕ → Saved → List ℕ
header_values generation wall saved =
    snapshot_version
    ∷ stat_count
    ∷ stat_hours
    ∷ stat_days
    ∷ generation
    ∷ wall
    ∷ saved.epoch
    ∷ saved.hour_index
    ∷ saved.day_index
    ∷ saved.evicted_days
    ∷ length saved.hour_rows
    ∷ length saved.day_rows
    ∷ []

unfoldable pub snapshot_rows : Saved → Bytes
snapshot_rows saved =
    put_record saved.cumulative
    ++ (put_record saved.hour
        ++ (put_record saved.day
            ++ (put_record saved.evicted
                ++ (put_records saved.hour_rows ++ put_records saved.day_rows))))

-- What the digest is taken of.
unfoldable pub snapshot_body : ℕ → ℕ → Saved → Bytes
snapshot_body generation wall saved =
    magic ++ (put_words header_sizes (header_values generation wall saved) ++ snapshot_rows saved)

abbrev pub is_known : ℕ → ℕ → Bool
is_known version field_count =
    version == 1 && field_count == 32
    || version == 2 && field_count == 40
    || version == snapshot_version && field_count == stat_count

-- The rows behind the header.
unfoldable pub saved_rows : List ℕ → Bytes → Saved
saved_rows header cursor =
    let field_count = get_or header 1 0 in
    let (cumulative, hour_cursor) = get_record field_count cursor in
    let (hour, day_cursor) = get_record field_count hour_cursor in
    let (day, evicted_cursor) = get_record field_count day_cursor in
    let (evicted, rows_cursor) = get_record field_count evicted_cursor in
    let (hour_rows, days_cursor) = get_records field_count (get_or header 10 0) rows_cursor in
    let (day_rows, end) = get_records field_count (get_or header 11 0) days_cursor in
    record {
      epoch = get_or header 6 0;
      hour_index = get_or header 7 0;
      day_index = get_or header 8 0;
      evicted_days = get_or header 9 0;
      cumulative = cumulative;
      hour = hour;
      day = day;
      evicted = evicted;
      hour_rows = hour_rows;
      day_rows = day_rows;
    }

abbrev pub is_header : List ℕ → Bool
is_header header =
    is_known (get_or header 0 0) (get_or header 1 0)
    && get_or header 2 0 == stat_hours
    && get_or header 3 0 == stat_days
    && not (
        get_or header 4 0 == 0
        || ltb stat_hours (get_or header 10 0)
        || ltb stat_days (get_or header 11 0))

abbrev pub expected_size : List ℕ → ℕ
expected_size header =
    header_size
    + (4 + get_or header 10 0 + get_or header 11 0) * get_or header 1 0 * 8
    + digest_size

-- `sha256` is ankah_sha256, over mbedtls; it may fail.
module _ (sha256 : Bytes → Option Bytes) where
  unfoldable pub encode_snapshot : ℕ → ℕ → Stats → Option Bytes
  encode_snapshot generation wall stats =
      let body = snapshot_body generation wall (saved_of stats) in
      sha256 body >>= λ digest. some (body ++ digest)

  -- The generation and the state; `none` is NULL.
  unfoldable pub decode_snapshot : Bytes → Option (ℕ × Saved)
  decode_snapshot image =
      let (header, rows) = read_words header_sizes (drop 8 image) in
      let size = length image - digest_size in
      let saved = saved_rows header rows in
      if ltb (length image) (header_size + digest_size) || not (str_eq (take 8 image) magic)
      then none
      else if not (is_header header && length image == expected_size header)
      then none
      else sha256 (take size image) >>= λ digest.
          if str_eq digest (drop size image) && totals_valid saved
          then some (get_or header 4 0, saved)
          else none

-- ===== src/Ics.antt =====
-- backend/src/calendar/ics.rs: the dates and times of an imported calendar. A string is its UTF-8 bytes, and a slice of
-- bytes that does not begin and end at characters is a panic. `trim` is a parameter.
mod Ascii
mod Tests
use rav.Common.{
  ℕ, zero, suc, ◌-◌, Bool, true, false, ◌||◌, ◌&&◌, List, [], ◌∷◌, ◌++◌, ltb, leb, ◌==◌,
  if◌then◌else◌, length, take, all, any, Text, codes, Result, ok, err, ◌>>=◌, is_digit,
}
use rav.FolderCipher.{drop}

pub data Panic : Type 0 where
  bad_slice : Panic

-- `is_char_boundary`
unfoldable pub is_boundary : ℕ → Text → Bool
is_boundary zero [] = true
is_boundary zero (b ∷ s) = ltb b 128 || leb 192 b
is_boundary (suc n) [] = false
is_boundary (suc n) (b ∷ s) = is_boundary n s

-- `&s[from..to]`
unfoldable pub slice : ℕ → ℕ → Text → Result Text Panic
slice from to s =
    if leb from to && (is_boundary from s && is_boundary to s)
    then ok (take (to - from) (drop from s))
    else err Panic.bad_slice

unfoldable pub is_date_only : Text → Bool
is_date_only value = (length value == 8) && all is_digit value

abbrev pub date_text : Text → Text → Text → Text
date_text year month day = year ++ (codes "-" ++ (month ++ (codes "-" ++ day)))

abbrev pub time_text : Text → Text → Text → Text
time_text hour min sec = codes "T" ++ (hour ++ (codes ":" ++ (min ++ (codes ":" ++ sec))))

abbrev pub ends_with_z : Text → Bool
ends_with_z [] = false
ends_with_z (c ∷ []) = c == b'Z'
ends_with_z (c ∷ d ∷ s) = ends_with_z (d ∷ s)

abbrev pub date_of : Text → Result Text Panic
date_of date = slice 0 4 date >>= λ year.
    slice 4 6 date >>= λ month. slice 6 8 date >>= λ day. ok (date_text year month day)

abbrev pub time_of : Text → Result Text Panic
time_of time = slice 0 2 time >>= λ hour. slice 2 4 time >>= λ min.
    (if leb 6 (length time) then slice 4 6 time else ok (codes "00")) >>= λ sec.
    ok (time_text hour min sec)

abbrev pub date_time : Text → Result Text Panic
date_time value = slice 0 8 value >>= λ date_part. slice 9 (length value) value >>= λ time_part.
    date_of date_part >>= λ date. time_of time_part >>= λ time.
    ok (date ++ (time ++ (if ends_with_z value then codes "Z" else [])))

unfoldable pub trimmed_datetime : Text → Result Text Panic
trimmed_datetime value =
    if is_date_only value
    then date_of value
    else if leb 15 (length value) && any (λ c. c == b'T') value
    then date_time value
    else ok value

unfoldable pub parse_ical_datetime : (Text → Text) → Text → Result Text Panic
parse_ical_datetime trim value = trimmed_datetime (trim value)

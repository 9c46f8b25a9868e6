-- ===== src/Ics/Tests.antt =====
-- Dates and times of imported calendars.
use rav.Common.{◌≡◌, ◌≤◌, ◌⊎◌, arith, length, Text, refl, ◌∷◌, ◌++◌, codes, ok, err}
use rav.Ics.{Panic, is_boundary, slice, is_date_only, trimmed_datetime, parse_ical_datetime}
use rav.Ics.Ascii.{IsAscii, parse_ical_datetime-IsAscii}

utc_read : trimmed_datetime (codes "20250306T090000Z") ≡ ok (codes "2025-03-06T09:00:00Z")
unfolding trimmed_datetime slice is_boundary is_date_only
utc_read = refl

-- A letter of two bytes where the day ends.
letter_panics :
    trimmed_datetime (codes "2025030" ++ 195 ∷ 132 ∷ codes "T090000Z") ≡ err Panic.bad_slice
unfolding trimmed_datetime slice is_boundary is_date_only
letter_panics = refl

value-IsAscii : IsAscii (codes "20250306T090000Z")
value-IsAscii = (
  omega arith,
  (
    omega arith,
    (
      omega arith,
      (
        omega arith,
        (
          omega arith,
          (
            omega arith,
            (
              omega arith,
              (
                omega arith,
                (
                  omega arith,
                  (
                    omega arith,
                    (
                      omega arith,
                      (omega arith, (omega arith, (omega arith, (omega arith, (omega arith, tt))))),
                    ),
                  ),
                ),
              ),
            ),
          ),
        ),
      ),
    ),
  ),
)

parse_ical_datetime-IsAscii_example :
    (t : Text) × (parse_ical_datetime (λ s. s) (codes "20250306T090000Z") ≡ ok t)
    × ((t ≡ codes "20250306T090000Z") ⊎ ((length t ≡ 10) ⊎ ((19 ≤ length t) × (length t ≤ 20))))
parse_ical_datetime-IsAscii_example =
    parse_ical_datetime-IsAscii (λ s. s) (codes "20250306T090000Z") value-IsAscii

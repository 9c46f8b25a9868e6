-- ===== src/Ics/Ascii.antt =====
-- backend/src/calendar/ics.rs: the dates of ASCII text are read without a panic.
use rav.Common.{
  ℕ, zero, suc, ◌+◌, ◌-◌, ◌⊎◌, ◌<◌, ◌≤◌, ◌≡◌, refl, inl, inr, true, ◌&&◌, [], ◌∷◌, ◌++◌, arith, all,
  is_digit, leb, ◌==◌, Bool-cases, length, length-append, take, any, All, Text, codes, ok,
}
use rav.FolderCipher.{drop}
use rav.Ics.{
  is_boundary, slice, is_date_only, date_text, time_text, date_of, time_of, ends_with_z, date_time,
  trimmed_datetime, parse_ical_datetime,
}

abbrev pub IsAscii : Text → Type 0
IsAscii s = All (λ b. b < 128) s

is_boundary-IsAscii : (n : ℕ) (s : Text) → IsAscii s → n ≤ length s → is_boundary n s ≡ true
unfolding is_boundary
is_boundary-IsAscii zero [] h le = refl
is_boundary-IsAscii zero (b ∷ s) h le = let lt = h.0 in ground (arith, lt)
is_boundary-IsAscii (suc n) [] h le = ground (arith, le)
is_boundary-IsAscii (suc n) (b ∷ s) h le = is_boundary-IsAscii n s h.1 (omega (arith, le))

take-IsAscii :
    (n : ℕ) (s : Text) → IsAscii s → n ≤ length s → IsAscii (take n s) × (length (take n s) ≡ n)
take-IsAscii zero s h le = (tt, refl)
take-IsAscii (suc n) [] h le = ground (arith, le)
take-IsAscii (suc n) (b ∷ s) h le =
    let (ascii, size) = take-IsAscii n s h.1 (omega (arith, le)) in
    ((h.0, ascii), omega (arith, size))

drop-IsAscii :
    (n : ℕ) (s : Text)
    → IsAscii s
    → n ≤ length s
    → IsAscii (drop n s) × (length (drop n s) ≡ length s - n)
drop-IsAscii zero s h le = (h, omega arith)
drop-IsAscii (suc n) [] h le = ground (arith, le)
drop-IsAscii (suc n) (b ∷ s) h le =
    let (ascii, size) = drop-IsAscii n s h.1 (omega (arith, le)) in (ascii, omega (arith, size))

slice-IsAscii :
    (from to : ℕ) (s : Text)
    → IsAscii s
    → from ≤ to
    → to ≤ length s
    → (t : Text) × (slice from to s ≡ ok t) × (length t ≡ to - from) × IsAscii t
unfolding slice
slice-IsAscii from to s h le fits =
    let b = is_boundary-IsAscii from s h (omega (arith, le, fits)) in
    let e = is_boundary-IsAscii to s h fits in
    let ordered : leb from to ≡ true = ground (arith, le) in
    let (dropped, left) = drop-IsAscii from s h (omega (arith, le, fits)) in
    let (taken, size) =
      take-IsAscii (to - from) (drop from s) dropped (omega (arith, le, fits, left)) in
    (take (to - from) (drop from s), rw (b, e, ordered) refl, size, taken)

length-date_text :
    (year month day : Text)
    → length (date_text year month day) ≡ length year + length month + length day + 2
length-date_text year month day =
    let outer = length-append year (codes "-" ++ (month ++ (codes "-" ++ day))) in
    let inner = length-append month (codes "-" ++ day) in omega (arith, outer, inner)

length-time_text :
    (hour min sec : Text)
    → length (time_text hour min sec) ≡ length hour + length min + length sec + 3
length-time_text hour min sec =
    let outer = length-append hour (codes ":" ++ (min ++ (codes ":" ++ sec))) in
    let inner = length-append min (codes ":" ++ sec) in omega (arith, outer, inner)

date_of-IsAscii :
    (s : Text) → IsAscii s → length s ≡ 8 → (t : Text) × (date_of s ≡ ok t) × (length t ≡ 10)
date_of-IsAscii s h size =
    let (year, y, ys, _) = slice-IsAscii 0 4 s h (omega arith) (omega (arith, size)) in
    let (month, m, ms, _) = slice-IsAscii 4 6 s h (omega arith) (omega (arith, size)) in
    let (day, d, ds, _) = slice-IsAscii 6 8 s h (omega arith) (omega (arith, size)) in
    (
      date_text year month day,
      rw (y, m, d) refl,
      (let n = length-date_text year month day in omega (arith, n, ys, ms, ds)),
    )

time_of-IsAscii :
    (s : Text) → IsAscii s → 6 ≤ length s → (t : Text) × (time_of s ≡ ok t) × (length t ≡ 9)
time_of-IsAscii s h size =
    let (hour, y, ys, _) = slice-IsAscii 0 2 s h (omega arith) (omega (arith, size)) in
    let (min, m, ms, _) = slice-IsAscii 2 4 s h (omega arith) (omega (arith, size)) in
    let (sec, d, ds, _) = slice-IsAscii 4 6 s h (omega arith) (omega (arith, size)) in
    let long : leb 6 (length s) ≡ true = ground (arith, size) in
    (
      time_text hour min sec,
      rw (y, m, long) (rw d refl),
      (let n = length-time_text hour min sec in omega (arith, n, ys, ms, ds)),
    )

date_time-IsAscii :
    (s : Text)
    → IsAscii s
    → 15 ≤ length s
    → (t : Text) × (date_time s ≡ ok t) × (19 ≤ length t) × (length t ≤ 20)
date_time-IsAscii s h size =
    let (date_part, p, ps, pa) = slice-IsAscii 0 8 s h (omega arith) (omega (arith, size)) in
    let (time_part, q, qs, qa) =
      slice-IsAscii 9 (length s) s h (omega (arith, size)) (omega arith) in
    let (date, d, ds) = date_of-IsAscii date_part pa (omega (arith, ps)) in
    let (time, t, ts) = time_of-IsAscii time_part qa (omega (arith, qs, size)) in
    elim (Bool-cases (ends_with_z s)) [
      | inl z ↦
          let outer = length-append date (time ++ codes "Z") in
          let inner = length-append time (codes "Z") in
          (
            date ++ (time ++ codes "Z"),
            rw (p, q) (rw (d, t) (rw z refl)),
            omega (arith, outer, inner, ds, ts),
            omega (arith, outer, inner, ds, ts),
          )
      | inr z ↦
          let outer = length-append date (time ++ []) in
          let inner = length-append time [] in
          (
            date ++ (time ++ []),
            rw (p, q) (rw (d, t) (rw z refl)),
            omega (arith, outer, inner, ds, ts),
            omega (arith, outer, inner, ds, ts),
          )
    ]

-- A value that is ASCII once it is trimmed is read without a panic: it stays as it is, or becomes a date of ten
-- characters or a time of nineteen or twenty.
pub parse_ical_datetime-IsAscii :
    (trim : Text → Text) (value : Text)
    → IsAscii (trim value)
    → (t : Text) × (parse_ical_datetime trim value ≡ ok t)
      × ((t ≡ trim value) ⊎ ((length t ≡ 10) ⊎ ((19 ≤ length t) × (length t ≤ 20))))
unfolding parse_ical_datetime trimmed_datetime is_date_only
parse_ical_datetime-IsAscii trim value h =
    let s = trim value in
    elim (Bool-cases ((length s == 8) && all is_digit s)) [
      | inl date ↦
          let eight : length s ≡ 8 = ground (arith, date) in
          let (t, e, size) = date_of-IsAscii s h eight in (t, rw date e, inr (inl size))
      | inr other ↦ elim (Bool-cases (leb 15 (length s) && any (λ c. c == b'T') s)) [
        | inl time ↦
            let long : 15 ≤ length s = ground (arith, time) in
            let (t, e, low, high) = date_time-IsAscii s h long in
            (t, rw (other, time) e, inr (inr (low, high)))
        | inr rest ↦ (s, rw (other, rest) refl, inl refl)
      ]
    ]

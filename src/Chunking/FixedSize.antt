-- ===== src/Chunking/FixedSize.antt =====
-- Reads past the read buffer: fixed-size chunking pays no heed to how many bytes are left.
use bi_search.Base.{
  ℕ, zero, suc, ◌+◌, ◌%◌, ◌^◌, ◌≤◌, ◌<◌, ◌≡◌, ◌≢◌, refl, arith, true, false, Bytes, length, take,
  take_all, ltb, lt→ltb, le→ltb, ne→==, ◌==◌, dec_lt,
}
use bi_search.Chunking.{
  overrun, cut_window, chunking, cut_point, fixed_size, window_size, cut_quota, buffer_size,
}

module _ (quota room : ℕ) (word : room + quota ≤ 2 ^ 64) (buffer : Bytes)
    (fits : length buffer ≤ room) (ragged : length buffer % 8192 ≢ 0) where
  fixed_round :
      (fuel off : ℕ)
      → off % 8192 ≡ 0
      → off ≤ room
      → cut_window (cut_point fixed_size) quota room fuel buffer true (off + 8192) ≡ overrun
      → cut_window (cut_point fixed_size) quota room (suc fuel) buffer true off ≡ overrun
  unfolding cut_window cut_point
  fixed_round fuel off h k ih = ground arith

  fixed_last :
      (fuel off : ℕ)
      → off % 8192 ≡ 0
      → off ≤ room
      → room < off + 8192
      → cut_window (cut_point fixed_size) quota room (suc fuel) buffer true off ≡ overrun
  unfolding cut_window cut_point
  fixed_last fuel off h k l = ground arith

  fixed_run :
      (fuel off : ℕ)
      → off % 8192 ≡ 0
      → off ≤ room
      → room < off + fuel
      → cut_window (cut_point fixed_size) quota room fuel buffer true off ≡ overrun
  fixed_run zero off h k f = absurd (omega arith)
  fixed_run (suc fuel) off h k f = elim (dec_lt room (off + 8192)) [
    | yes l ↦ fixed_last fuel off h k l
    | no l ↦
        fixed_round fuel off h k
          (fixed_run fuel (off + 8192) (omega arith) (omega arith) (omega arith))
  ]

-- Fixed-size chunking of a file that fits one window, and whose length is no multiple of 8192,
-- does not end, for any MULTI_HEADER_CHUNK up to 16: the test `len - localOffset >= ...`
-- wraps once the offset has passed the length, and the loop copies from beyond the end of the
-- read buffer.
pub chunking-fixed_size :
    (multi_header_chunk : ℕ) (file : Bytes) (fuel inner_fuel : ℕ)
    → multi_header_chunk ≤ 16
    → length file < window_size multi_header_chunk
    → length file % 8192 ≢ 0
    → buffer_size < inner_fuel
    → chunking
        (cut_point fixed_size)
        (cut_quota multi_header_chunk)
        (window_size multi_header_chunk)
        buffer_size
        inner_fuel
        (suc fuel)
        file
        0
      ≡ overrun
unfolding chunking
chunking-fixed_size m file fuel inner_fuel q short ragged g =
    let whole : take (window_size m) file ≡ file = take_all (window_size m) file (omega arith) in
    let ended : ltb (length file) (window_size m) ≡ true = lt→ltb _ _ short in
    let some_bytes : (length file == 0) ≡ false = ne→== _ _ (λ e. ragged (rw e)) in
    let wide : ltb buffer_size (window_size m) ≡ false = le→ltb _ _ (omega arith) in
    let run =
      fixed_run (cut_quota m) buffer_size (omega arith) file (omega arith) ragged inner_fuel 0 refl
        (omega arith) (omega arith) in
    rw (chunking, whole, wide, ended, some_bytes, run)

-- ===== src/Peinit/IoFile/RoundTrip.antt =====
-- Each side reads what the other one wrote.
use program_explorer.Prelude.{
  ℕ, ◌+◌, ◌-◌, ◌%◌, ◌^◌, ◌<◌, ◌≤◌, ◌≡◌, refl, sym, ap, ◌∙◌, arith, false, Option, some, [], ◌∷◌,
  ◌++◌, length, take, drop, ltb, lt→ltb, append_assoc, length-append, take-front, drop-front,
}
use program_explorer.Prelude.Bytes.{
  Bytes, to_le_bytes, from_le_bytes, length-to_le_bytes, from-to_le_bytes,
}
use program_explorer.Prelude.Result.{ok, err}
use program_explorer.Peinit.Types.{Config, Response}
use program_explorer.Peinit.IoFile.{
  panicked, write_message, write_u32_le_slice, write_io_file_config, write_io_file_response,
  read_u32_le_pair, read_io_file_config, read_io_file_response_bytes,
  read_io_file_response_archive_bytes, read_io_file_response, unwrap_u32,
}
use program_explorer.Peinit.IoFile.MemFile.{
  MemFile, behind, reader, write_all, write_all-behind, read_exact-behind,
}

-- The two sizes.
abbrev pub sizes : ℕ → ℕ → Bytes
sizes a b = to_le_bytes 4 a ++ to_le_bytes 4 b

length-sizes : (a b : ℕ) → length (sizes a b) ≡ 8
length-sizes a b =
    length-append (to_le_bytes 4 a) (to_le_bytes 4 b)
    ∙ rw (length-to_le_bytes 4 a, length-to_le_bytes 4 b) refl

first_size : (a b : ℕ) → a < 2 ^ 32 → from_le_bytes (take 4 (sizes a b)) ≡ a
first_size a b h =
    rw (take-front 4 (to_le_bytes 4 a) (to_le_bytes 4 b) (sym (length-to_le_bytes 4 a)))
      (from-to_le_bytes a h)

second_size : (a b : ℕ) → b < 2 ^ 32 → from_le_bytes (drop 4 (sizes a b)) ≡ b
second_size a b h =
    rw (drop-front 4 (to_le_bytes 4 a) (to_le_bytes 4 b) (sym (length-to_le_bytes 4 a)))
      (from-to_le_bytes b h)

write_sizes :
    (a b : ℕ) (old : Bytes)
    → write_u32_le_slice write_all (behind [] old) (a ∷ b ∷ [])
      ≡ some (behind (sizes a b) (drop 4 (drop 4 old)))
write_sizes a b old =
    rw
      (
        write_all-behind [] old (to_le_bytes 4 a),
        write_all-behind (to_le_bytes 4 a) (drop (length (to_le_bytes 4 a)) old) (to_le_bytes 4 b),
        length-to_le_bytes 4 a,
        length-to_le_bytes 4 b,
      )
      refl

unwrap_u32-fits : (n : ℕ) → n < 2 ^ 32 → unwrap_u32 n ≡ ok n
unfolding unwrap_u32
unwrap_u32-fits n h = rw (lt→ltb n (2 ^ 32) h) refl

unwrap_u32-panics : (n : ℕ) → 2 ^ 32 ≤ n → unwrap_u32 n ≡ err panicked
unfolding unwrap_u32
unwrap_u32-panics n h = let e : ltb n (2 ^ 32) ≡ false = ground arith in rw e refl

-- What is written: the sizes and the message over the first bytes, with the cursor behind them. A
-- message whose length does not fit a u32 is a panic.
pub write_message-front :
    (old message : Bytes) (archive_size : ℕ)
    → ((length message < 2 ^ 32)
        → write_message write_all (behind [] old) archive_size message
          ≡ ok (
              behind
                (sizes archive_size (length message) ++ message)
                (drop (length message) (drop 4 (drop 4 old)))))
      × ((2 ^ 32 ≤ length message)
          → write_message write_all (behind [] old) archive_size message ≡ err panicked)
unfolding write_message
write_message-front old message archive_size = (
  λ h.
      rw
        (
          unwrap_u32-fits (length message) h,
          write_sizes archive_size (length message) old,
          write_all-behind (sizes archive_size (length message)) (drop 4 (drop 4 old)) message,
        )
        refl,
  λ h. rw (unwrap_u32-panics (length message) h) refl,
)

read_pair :
    (a b : ℕ) (back : Bytes)
    → a < 2 ^ 32
    → b < 2 ^ 32
    → read_u32_le_pair reader (behind [] (sizes a b ++ back)) ≡ ok ((a, b), behind (sizes a b) back)
read_pair a b back ha hb =
    rw
      (
        read_exact-behind [] (sizes a b) back 8 (sym (length-sizes a b)),
        first_size a b ha,
        second_size a b hb,
      )
      refl

-- A file that holds two sizes, a message and more.
abbrev pub message_file : ℕ → Bytes → Bytes → MemFile
message_file a message back = behind (sizes a (length message) ++ message) back

rewind :
    (a : ℕ) (message back : Bytes)
    → record (message_file a message back) { at = 0 }
      ≡ behind [] (sizes a (length message) ++ (message ++ back))
rewind a message back = rw (append_assoc (sizes a (length message)) message back) refl

-- A configuration that is written to the front of a file is read back from there, with the size of
-- the archive, and the reader leaves the file with the cursor where the writer left it: behind the
-- configuration, where the archive begins. That is so if it encodes to less than 2^32 bytes, which
-- decode to it, and the size of the archive fits a u32.
pub read_io_file_config-write :
    (encode_to_vec : Config → Option Bytes) (decode_from_slice : Bytes → Option Config)
    (config : Config) (config_bytes old : Bytes) (archive_size : ℕ)
    → encode_to_vec config ≡ some config_bytes
    → decode_from_slice config_bytes ≡ some config
    → length config_bytes < 2 ^ 32
    → archive_size < 2 ^ 32
    → (file : MemFile) × (write_io_file_config write_all encode_to_vec
          (behind [] old)
          config
          archive_size
        ≡ ok file)
      × (file.at ≡ 8 + length config_bytes)
      × (read_io_file_config reader decode_from_slice (record file { at = 0 })
          ≡ ok ((archive_size, config), file))
unfolding write_io_file_config read_io_file_config
read_io_file_config-write encode_to_vec decode_from_slice config config_bytes old archive_size e d h
      k =
    let back : Bytes = drop (length config_bytes) (drop 4 (drop 4 old)) in
    (
      message_file archive_size config_bytes back,
      rw (e, (write_message-front old config_bytes archive_size).0 h) refl,
      length-append (sizes archive_size (length config_bytes)) config_bytes
          ∙ ap (λ n. n + length config_bytes) (length-sizes archive_size (length config_bytes)),
      rw
          (
            rewind archive_size config_bytes back,
            read_pair archive_size (length config_bytes) (config_bytes ++ back) k h,
            read_exact-behind (sizes archive_size (length config_bytes)) config_bytes back
                (length config_bytes) refl,
            d,
          )
          refl,
    )

-- A response that is written to the front of a file is read back from any place of the cursor, with
-- 0 for the size of the archive, and leaves the cursor behind the response, under the same conditions.
pub read_io_file_response-write :
    (to_vec : Response → Option Bytes) (from_slice : Bytes → Option Response) (response : Response)
    (response_bytes old : Bytes) (cursor : ℕ)
    → to_vec response ≡ some response_bytes
    → from_slice response_bytes ≡ some response
    → length response_bytes < 2 ^ 32
    → (file : MemFile) × (write_io_file_response write_all to_vec (behind [] old) response
        ≡ ok file)
      × (file.at ≡ 8 + length response_bytes)
      × (read_io_file_response reader from_slice (record file { at = cursor })
          ≡ ok ((0, response), file))
unfolding write_io_file_response read_io_file_response read_io_file_response_bytes
read_io_file_response-write to_vec from_slice response response_bytes old cursor e d h =
    let back : Bytes = drop (length response_bytes) (drop 4 (drop 4 old)) in
    (
      message_file 0 response_bytes back,
      rw (e, (write_message-front old response_bytes 0).0 h) refl,
      length-append (sizes 0 (length response_bytes)) response_bytes
          ∙ ap (λ n. n + length response_bytes) (length-sizes 0 (length response_bytes)),
      rw
          (
            rewind 0 response_bytes back,
            read_pair 0 (length response_bytes) (response_bytes ++ back) (omega arith) h,
            read_exact-behind (sizes 0 (length response_bytes)) response_bytes back
                (length response_bytes) refl,
            d,
          )
          refl,
    )

archive_bytes :
    (a b cursor : ℕ) (xs back : Bytes)
    → a < 2 ^ 32
    → b < 2 ^ 32
    → (4 + b + a) % 2 ^ 32 - 4 ≡ length xs
    → read_io_file_response_archive_bytes reader
        (record { bytes = sizes a b ++ (xs ++ back); at = cursor })
      ≡ ok (to_le_bytes 4 b ++ xs, behind (sizes a b ++ xs) back)
unfolding read_io_file_response_archive_bytes
archive_bytes a b cursor xs back ha hb e =
    rw
      (
        read_pair a b (xs ++ back) ha hb,
        read_exact-behind (sizes a b) xs back ((4 + b + a) % 2 ^ 32 - 4) e,
      )
      refl

-- The response and the archive in one: if the sizes and the message's own size field fit a u32
-- together, the result is the size of the response, the response and the archive; if they do not,
-- and are less than 2^33, the length wraps round, and the result is not an error but the size of the response with only as
-- many bytes of the two as are left of that length.
pub read_io_file_response_archive_bytes-sizes :
    (response archive back : Bytes) (cursor : ℕ)
    → length response < 2 ^ 32
    → length archive < 2 ^ 32
    → let total : ℕ = 4 + length response + length archive in
      let file : MemFile = record {
        bytes = sizes (length archive) (length response) ++ ((response ++ archive) ++ back);
        at = cursor;
      } in
      ((total < 2 ^ 32)
        → read_io_file_response_archive_bytes reader file
          ≡ ok (
            to_le_bytes 4 (length response) ++ (response ++ archive),
            behind (sizes (length archive) (length response) ++ (response ++ archive)) back,
          ))
      × ((xs ys : Bytes)
          → xs ++ ys ≡ response ++ archive
          → 2 ^ 32 ≤ total
          → total < 2 ^ 33
          → length xs ≡ total - 2 ^ 32 - 4
          → read_io_file_response_archive_bytes reader file
            ≡ ok (
              to_le_bytes 4 (length response) ++ xs,
              behind (sizes (length archive) (length response) ++ xs) (ys ++ back),
            ))
read_io_file_response_archive_bytes-sizes response archive back cursor hr ha = (
  λ h.
      archive_bytes (length archive) (length response) cursor (response ++ archive) back ha hr
        (omega (arith, length-append response archive)),
  λ xs ys e h h' k.
      rw (sym e, append_assoc xs ys back)
        (archive_bytes (length archive) (length response) cursor xs (ys ++ back) ha hr
          (omega arith)),
)

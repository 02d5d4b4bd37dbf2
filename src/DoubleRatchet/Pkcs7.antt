-- ===== src/DoubleRatchet/Pkcs7.antt =====
-- doubleratchet/pkcs7.go: padding to whole cipher blocks.
pub mod Laws
use go_ratchet.Prelude.{
  ℕ, ◌-◌, ◌%◌, ◌==◌, ltb, if◌then◌else◌, not, ◌||◌, ◌++◌, Error, Result, ok, err, Bytes, bytes_eq,
  length, get_or, take, drop, replicate,
}

-- The block size is a positive int in every call of the program; 0 stands for all `blockSize <= 0`.
unfoldable pub pkcs7_pad : Bytes → ℕ → Result Bytes
pkcs7_pad src block_size =
    if block_size == 0 || ltb 255 block_size
    then err Error.block_size
    else let pad_len = block_size - length src % block_size in
      ok (src ++ replicate pad_len (pad_len % 256))

-- The checks of the last byte and of the suffix.
unfoldable pub strip_padding : Bytes → ℕ → ℕ → Result Bytes
unfolding bytes_eq
strip_padding padded block_size pad_len =
    let cut = length padded - pad_len in
    if pad_len == 0 || ltb block_size pad_len
    then err Error.padding_length
    else if not (bytes_eq (replicate pad_len (pad_len % 256)) (drop cut padded))
    then err Error.padding_suffix
    else ok (take cut padded)

unfoldable pub pkcs7_unpad : Bytes → ℕ → Result Bytes
pkcs7_unpad padded block_size =
    if block_size == 0 || ltb 255 block_size
    then err Error.block_size
    else if not (length padded % block_size == 0) || length padded == 0
    then err Error.not_aligned
    else strip_padding padded block_size (get_or padded (length padded - 1) 0)

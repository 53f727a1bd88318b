-- ===== src/Native/Http/Limits.antt =====
-- wallet/src/services.rs, `response_bytes_limited`: a body that is read chunk by chunk.
use tinylayer_org.Base.{
  ℕ, Bytes, List, [], ◌∷◌, ◌++◌, ◌≤◌, ◌≡◌, Option, some, ok, err, Result, length, leb,
  if◌then◌else◌, map, arith, length-append,
}
use mathlib.Core.List.{append-nil, append_assoc}
use tinylayer_org.Wallet.Types.{Failure, message}
use tinylayer_org.Native.Http.{
  max_http_response_size, within_length, collect, response_bytes_limited,
}

-- The body in one piece.
abbrev pub joined : List Bytes → Bytes
joined [] = []
joined (chunk ∷ rest) = chunk ++ joined rest

-- The limit on the body in one piece.
abbrev pub limited : Bytes → Result Failure Bytes
limited body =
    if leb (length body) max_http_response_size
    then ok body
    else err (message "HTTP response exceeds 16 MiB limit")

collect-limited :
    (bytes : Bytes) (chunks : List Bytes)
    → length bytes ≤ max_http_response_size
    → collect bytes (map some chunks) ≡ limited (bytes ++ joined chunks)
unfolding collect
collect-limited bytes [] fits = ground (arith, append-nil bytes)
collect-limited bytes (chunk ∷ rest) fits = ground (
  arith,
  collect-limited (bytes ++ chunk) rest,
  append_assoc bytes chunk (joined rest),
  length-append bytes chunk,
  length-append bytes (chunk ++ joined rest),
  length-append chunk (joined rest),
)

-- A reply whose chunks are all read, and that announces no length above the limit, gives the body in
-- one piece if that is at most 16 MiB long, and the error of the limit otherwise: to check the limit
-- before each chunk is added is the same as to check it of the whole.
pub response_bytes_limited-joined :
    (status : ℕ) (announced : Option ℕ) (chunks : List Bytes)
    → within_length announced ≡ ok tt
    → response_bytes_limited
        (record { status = status; content_length = announced; chunks = map some chunks })
      ≡ limited (joined chunks)
unfolding response_bytes_limited
response_bytes_limited-joined status announced chunks h =
    ground (arith, collect-limited [] chunks (omega arith))

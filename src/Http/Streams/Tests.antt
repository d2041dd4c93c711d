-- ===== src/Http/Streams/Tests.antt =====
-- The theorems on streams, at a stream on memory and at one limited to two of its bytes.
use azure_sdk_for_cpp.Base.{◌≡◌, refl, false, [], ◌++◌, some, Bytes, codes, Returns, ok, arith}
use azure_sdk_for_cpp.Http.Streams.{
  MemoryBodyStream, memory_read, LimitBodyStream, limit_read, read_to_count, read_to_end,
  new_limit_body_stream,
}
use azure_sdk_for_cpp.Http.Streams.Complete.{read_to_end_complete}
use azure_sdk_for_cpp.Http.Streams.Kinds.{
  memory_content, memory_read-IsStream, limit_content, limit_read-IsStream,
}

abbrev pub half_read : MemoryBodyStream
half_read = record { bytes = codes "abcdefgh"; offset = 4 }

three_bytes :
    read_to_count (memory_read false) 4 half_read 3 []
    ≡ some (ok (record { bytes = codes "abcdefgh"; offset = 7 }, codes "efg"))
unfolding read_to_count memory_read
three_bytes = refl

read_to_end_complete_example :
    Returns
      (λ ((s', b) : LimitBodyStream MemoryBodyStream × Bytes).
        (b ≡ [] ++ limit_content memory_content (new_limit_body_stream half_read 8 2))
        × (limit_content memory_content s' ≡ []))
      (read_to_end (limit_read (memory_read false)) 1 (new_limit_body_stream half_read 8 2) [])
unfolding new_limit_body_stream
read_to_end_complete_example =
    read_to_end_complete (limit_read (memory_read false)) (limit_content memory_content)
      (limit_read-IsStream (memory_read false) memory_content (memory_read-IsStream false)) 1
      (new_limit_body_stream half_read 8 2) [] (omega arith)

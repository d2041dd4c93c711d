-- ===== src/Lib.antt =====
-- Verification library of the Azure SDK for C++.
--
-- The parts of the program that are modelled, and the files that model them. A client fills a `Request`
-- with a `Url` and headers and sends it through a pipeline of policies: the retry policies call the
-- next policy again and again, the last one hands the request to a transport, and the transport builds a
-- `RawResponse` with headers and a stream for the body, which is read to its end or handed on. The
-- storage clients add a retry policy with a secondary host, a stream that resumes after a failure and a
-- transfer by several threads. Dates stand in headers, XML and tokens.
--
--   DateTime        sdk/core/azure-core/src/datetime.cpp. `DateTime::GetString` is `get_string`,
--                   `DateTime::Parse` is `parse` with a function per part of the text, the constructor is
--                   `date_time`. `Gregorian` is the calendar that it is held against. A moment is the number of ticks of 100 ns since 1601-01-01.
--   Strings         sdk/core/azure-core/src/strings.cpp.
--   Context         sdk/core/azure-core/inc/azure/core/context.hpp and src/context.cpp, with the shared
--                   states of the contexts on a heap.
--   Http/Url        sdk/core/azure-core/src/http/url.cpp and the class `Url` of
--                   sdk/core/azure-core/inc/azure/core/http/http.hpp. The constructor is `parse`.
--   Http/Headers    `InsertHeaderWithValidation` of sdk/core/azure-core/src/http/http.cpp and
--                   `RawResponse::AddHeader` of raw_response.cpp.
--   Http/Request    sdk/core/azure-core/src/http/request.cpp.
--   Http/Response   the class `RawResponse` of http.hpp.
--   Http/Streams    sdk/core/azure-core/src/http/body_stream.cpp. `IsStream` is what a read promises.
--   Http/Curl/Parser        `CurlSession::ResponseBufferParser` of sdk/core/azure-core/src/http/curl/curl.cpp,
--                   the head of a response over buffers of any sizes. `Parser/Scan` is the reference.
--   Http/Curl/Session       the rest of `CurlSession` up to the body: `read_head` is
--                   `ReadStatusLineAndHeadersFromRawResponse`, `chunk_loop` is `ParseChunkSize`.
--   Http/Curl/Body          `CurlSession::Read` is `session_read`; a session with a length is a stream.
--   Http/Curl/Pool          `CurlConnectionPool`: taking a connection, giving it back, and the cleaner.
--   Http/RetryPolicy        sdk/core/azure-core/src/http/retry_policy.cpp.
--   Storage/RetryPolicy     sdk/storage/azure-storage-common/src/storage_retry_policy.cpp.
--   Storage/Credential      sdk/storage/azure-storage-common/src/storage_credential.cpp: `ParseConnectionString`
--                   is `parse_connection_string`.
--   Storage/SharedKey       sdk/storage/azure-storage-common/src/shared_key_policy.cpp: the text that
--                   `SharedKeyPolicy::GetSignature` signs is `string_to_sign`.
--   Storage/Crc64           the class `Crc64` of sdk/storage/azure-storage-common/src/crypt.cpp, with its
--                   tables. `Update/Reference` is the division digit by digit.
--   Storage/Sas             sdk/storage/azure-storage-common/src/account_sas_builder.cpp is `Account`,
--                   sdk/storage/azure-storage-blobs/src/blob_sas_builder.cpp is `Blob`, and
--                   share_sas_builder.cpp and datalake_sas_builder.cpp below sdk/storage/
--                   azure-storage-files-shares/src and azure-storage-files-datalake/src are `Share` and
--                   `DataLake`: the text that is signed and the token. What signs the text is a
--                   parameter. `Tokens` reads a token as a URL's parameters, and
--                   what a service checks of it is in its modules `Accounts`, `BlobReader`,
--                   `DelegationReader` and `PathReader`.
--   Storage/ReliableStream  sdk/storage/azure-storage-common/src/reliable_stream.cpp.
--   Storage/ConcurrentTransfer
--                   sdk/storage/azure-storage-common/inc/azure/storage/common/concurrent_transfer.hpp.
--   Dict            `std::map` with strings as keys, a list in the order of the keys.
--   Base            shared names: numbers, lists, bytes, results and scans over bytes.
--
-- A string is a list of bytes. Code that throws returns a `Result`. What is outside (the next policies,
-- the transport, the clock, random numbers, a canceled context, the service) is a parameter, with a
-- state of its own where its answers may change.
--
-- Loops. The loop over a query string has fuel for each byte, as has the loop over a connection string;
-- `append_query_parameters` gives it the length of the text; `ReadToCount` for each byte asked for and one more round; `ReadToEnd` for each chunk of what the
-- stream holds; the loop of `RetryPolicy::Send` for one attempt and the retries; `ReliableStream::Read`
-- for the intents that the options allow; the loop of `Crc64::Concatenate` for the 64 digits of a length.
-- The loop of the storage policy counts the attempts left. The threads of a transfer take steps in any
-- order, each one access to an atomic variable or one call. The loop over the head of a response has
-- fuel for the bytes that the socket holds; what is done under the mutex of the connection pool is one
-- step. `ParseChunkSize` has fuel and does not always end.
--
-- Not modelled: the calls of libcurl, WinHTTP and of sockets, the upload of a request, the types
-- of the values of contexts, logging, the policies that add one header, hashes other than the
-- CRC64, XML and files of the system, the clients and the generated protocol layer, and identity.
-- Counters and delays are natural numbers without a wrap, where the code has an `int` or 64 bits,
-- other than where a definition says so.
pub mod Base
pub mod Strings
pub mod Context
pub mod Dict
pub mod Http
pub mod DateTime
pub mod Storage

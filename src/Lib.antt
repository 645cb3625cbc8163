-- ===== src/Lib.antt =====
-- A model of regclient, a client for OCI registries and OCI layouts, and proofs about it.
--
-- Which code. The parts of the program that decide something by themselves: values that are parsed,
-- compared and printed, the handlers of authentication, the retries of a request, the upload and the
-- reading of blobs, the index of a layout and its garbage collection, the queue that limits
-- concurrent requests, and the cache. A request to a registry goes to the mirrors and the host in
-- turn, takes a slot of the queue of each, is authorised with what the challenges of the host asked
-- for, follows Link headers to the next page, and fills the cache; references name what is asked
-- for, descriptors and platforms choose an image of an index, and a blob is checked against its
-- descriptor while it is read.
--
--   * Base: lists, numbers and texts that the parts share. `Base.Text` holds texts as lists of code
--     points or bytes (`codes` reads a literal), `strings.Split` and `strings.Join`; `Base.Maps`
--     holds Go maps as association lists, which replace an entry where it stands; `Base.Int` holds
--     integers over the native naturals, the bounds of 64 bits, and `strconv.Atoi`.
--   * Errs: types/errs/error.go, a constructor for each sentinel, and the results of fallible calls.
--     A wrapped error is the sentinel that `errors.Is` finds in it.
--   * Strparse: internal/strparse/strparse.go, `SplitCSKV`, as a machine that reads one character at
--     a time.
--   * PQueue: internal/pqueue/pqueue.go. A queue is the state of the struct under its mutex, an
--     operation is what one method does while it holds the mutex, and a run is a list of operations
--     in the order in which they got it: `Acquire`, `TryAcquire`, `release`, and the cancelling of
--     a waiting call. The function `next` is a parameter.
--   * Platform: types/platform/platform.go and compare.go: `normalize`, `Compatible`, `Match` and
--     `Better`, with the comparisons of versions and variants in `Platform.Version`.
--   * Auth.Header, Auth.Scope, Auth.Bearer: internal/auth/auth.go. `Auth.Header` is the parser of
--     WWW-Authenticate headers, with nil dereferences as a result of their own; `Auth.Scope` has
--     `parseScope`, `scopeExists` and the lists that `addScope` leaves; `Auth.Bearer` has the
--     challenges, the expiry and the storing of tokens, with what the clock returns as arguments
--     and a JSON body as its decoded value.
--   * Ref: types/ref/ref.go on references that are parsed: `CommonName`, `IsSet`, `IsSetRepo`,
--     `IsZero`, `SetTag`, `SetDigest`, `EqualRegistry`, `EqualRepository`.
--   * Descriptor: types/descriptor/descriptor.go: `Same`, `Equal`, `Match`, `DescriptorListFilter`
--     and `DescriptorListSearch`, with the media types of types/mediatype/mediatype.go. A sort by an
--     annotation is a parameter that keeps the members.
--   * OciDir: scheme/ocidir/ocidir.go: `indexGet` and `indexSet` on the entries of an index.
--     `OciDir.Gc` is the garbage collection of a layout in scheme/ocidir/close.go, with the locks and
--     the marks of changes: what the files hold, and which removals fail, are parameters.
--   * Httplink: internal/httplink/httplink.go: `Parse` of Link headers as a machine that reads one
--     byte at a time, and `Get`.
--   * Cache: internal/cache/cache.go: `New`, `Set`, `Get`, `Delete` and the prune, over generic keys
--     and values. `sort.Sort` is a parameter that reorders the keys by time.
--   * Muset: internal/muset/muset.go, `Lock`: the removal of duplicates, and one turn of the loop on
--     a store that says which mutexes are locked. `Muset.Steps` has each call on a mutex as a step,
--     between which other goroutines lock and unlock what this one does not hold.
--   * Reqmeta: internal/reqmeta/data.go, `DataNext`, which the queues of the hosts take as `next`.
--   * Reghttp: internal/reghttp/http.go. `Reghttp.Backoff` holds the backoff of a host, with the
--     shift of the delay in 64 bits; `Reghttp.Next` holds `next`, which sends a request to the hosts
--     in turn. A turn takes what the network, the clock and the authentication answer as its input,
--     also that `Acquire` or the network never comes back, and what other requests do in between to
--     the states of the hosts, which are a function of their numbers. `Reghttp.Order` holds the
--     comparison by which the hosts are sorted.
--   * Referrer: types/referrer/referrer.go: `Add` and `Delete` on the entries of a list of referrers
--     that the client manages.
--   * Limitread, Blob: internal/limitread/limitread.go and types/blob/reader.go: the reader of a blob
--     with its limit, its checks of size and digest at the end, and its `Seek`. The stream below and
--     the digest are parameters; the wrapped errors of a read are a list, the outer one first; a
--     panic is a result of its own.
--   * Upload: scheme/reg/blob.go, `blobPutUploadChunked` with `blobUploadCurBytes`. The buffer is an
--     array that two slices look at, `bufBytes` and the one that the reader of the body was made of,
--     and a read of the next chunk writes to it. The registry is a parameter with its own state, its
--     URLs and the digest are parameters too; the proofs assume of it that it keeps a part of each
--     chunk and tells in the Range header how far it is.
--
-- A definition has the name of the function that it models, in snake case; a case or a loop of a
-- long function has a name of its own, and the comment above it names the function. Files named
-- Tests run the definitions on concrete inputs; the other files below a part hold the proofs.
--
-- Bounds and fuel. Every loop is a recursion on the list or the text that it reads, but for
-- `next` of internal/reghttp, which runs on the retry limit of the client and two more, and
-- `closeProcManifest` of scheme/ocidir, which runs on the depth to which indexes are nested: a depth
-- above the height of the index is enough, where no manifest is nested in itself. The loop of a
-- chunked upload runs on the bytes of the content and the refusals of the registry, and `RawBody`
-- on the bytes of the content: each turn reads or stores a byte, takes a refusal, or is the last.
-- The delay of a backoff, the limit of a reader and the life of a token as a duration are 64-bit
-- integers. Other counts and times are natural numbers and sizes are integers, without a bound: the
-- code adds small constants to them and compares them.
-- `strconv.Atoi` is modelled for the numbers of versions, which are short.
--
-- What is not modelled. The requests themselves (net/http), the other calls of a registry's API
-- (scheme/reg), the commands (cmd/regctl, cmd/regsync, cmd/regbot) and the files of a layout are
-- input and output around the parts above. Parsing of references and platforms rests on regular
-- expressions of the standard library. Manifests, image modification and the copying of images
-- (types/manifest, mod, image.go) are left for later. Goroutines are seen as the order in which they
-- take a mutex; channels of waiting calls are tokens that the queue hands on.
pub mod Base
pub mod Errs
pub mod Strparse
pub mod Upload
pub mod PQueue
pub mod Platform
pub mod Auth
pub mod Ref
pub mod Descriptor
pub mod OciDir
pub mod Httplink
pub mod Blob
pub mod Cache
pub mod Limitread
pub mod Muset
pub mod Reqmeta
pub mod Referrer
pub mod Reghttp

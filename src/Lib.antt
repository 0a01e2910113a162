-- ===== src/Lib.antt =====
-- Stratus is a self-hosted cloud server: files, media, calendars and contacts over WebDAV, CalDAV,
-- CardDAV, tus, OpenSubsonic and a web interface. This library models parts of its core and states
-- what makes them correct. A Go string is the list of its bytes, a Go int or int64 an integer; where
-- a sum or a product can leave an int64 the wrap-around is written out.
--
-- Parts, files and sources (a path of the sources begins at the repository's root):
--   * Prelude: shared names, tests on numbers, lists, integers, byte strings (strings.Cut, Split,
--     HasPrefix, CutSuffix and others of Go's library as far as the sources use them), the validity
--     of UTF-8, decimal numbers (strconv.FormatInt and ParseInt).
--   * Storage.Key: internal/storage/key.go, ValidateKey. Every blob backend refuses a key by it.
--   * Storage.Range: internal/storage/range.go, the ranges that the protocols ask of an object.
--   * Db.Path: internal/db/file.go, the paths of rows: validation, parents, moves, the range of a
--     subtree and the names of copies. The drivers' queries use the range; the web interface's
--     cursors carry a path that is checked here.
--   * Db.Migrate: internal/db/migrate.go, with Db.Migrate.Statements (statements, unclosedTrigger),
--     Db.Migrate.Load (loadMigrations). The engine of the database is a record of the answers it
--     gives, with what a rollback leaves of a schema, which is an abstract type.
--   * Web.Cursor: internal/web/cursor.go, over the Cursor of internal/db/file.go.
--   * Auth.Throttle: internal/auth/throttle.go. The state is the moment `next`; a call of `reserve`
--     under the mutex is one step, so an interleaving of guesses is a list of moments.
--   * Dav.Locks: internal/dav/locks.go, with toPath and destPath of internal/dav/dav.go. System is the
--     interface of a lock system, over a state of its own, and opaqueTokens; Paths the names of
--     locks, in terms of the stored paths of Db.Path; Confirm the gate in front of every write. A
--     function that releases locks is a value that says what it gives back and when it was made.
--     Claims is what a request with an If header has to show, Holds what one without has locked,
--     Released and Balance what is given back, as a log of the calls on the lock system has it.
--   * Files: internal/files. World is the state, the tables of the database and the objects of the blob
--     store, with every call into either a step that may fail (Env says which); Action puts calls
--     together and has the transaction of internal/db/sqlutil/sqlutil.go. Repo is the statements of
--     internal/db/sqlite/sqlite.go and trash.go on files, trash and uploads; Store the blob store as
--     internal/storage/storage.go describes it; Key the names of blobs (blobkey.go, collect.go);
--     Service the operations of files.go; Upload those of upload.go; Trash those of trash.go; Collect
--     the sweep of collect.go. Rules, Count, Held, Sound and Outcomes carry the proofs, History the
--     histories of operations. A process that dies is one whose later calls all fail.
--   * Calendar.Window: internal/calendar/timerange.go, whether a component is in a window of time. A
--     component holds what go-ical reads out of its properties and the instances of rrule-go, both as
--     the Location of the window's start has them.
--   * Media.Segments: internal/media/stream/hls.go, Segments, Segment.Name and ParseSegment, over the
--     Index of internal/media/keyframes.go.
--   * Media.Encoded: internal/media/stream/encode.go, the fixed grid of a film that is encoded again and
--     the names of its segments.
--
-- Parameters: the lock system, the parser of the If header, path.Clean, url.Parse, strconv.Unquote and
-- the entity tags of stored files for Dav.Locks; what go-ical and rrule-go answer for Calendar.Window;
-- the calls that fail, the clock, rand.Text, SHA-256, sniff.Sniff, strings.ToLower and the functions
-- substr and LIKE of SQL for Files; the database engine; the file system of the migrations; the rounding
-- of a quotient of floats and the comparison of a frame count with a product of floats in hls.go.
--
-- Bounds: format_int takes one more step of fuel than the number, which is more than it has digits.
-- remove_tree and restore_parents take one step for each byte that a path may have, and one more.
-- encoded_segments takes one step for each six seconds and one more.
-- Durations and moments are taken far from the ends of an int64, except in ParseSegment and ParseEncoded, where the
-- product by a millisecond and the sum of start and length wrap around.
--
-- Not modelled: of internal/files Copy, Adopt, the backups of the database, MkdirAll, the seeking
-- reader and the pages of listings; operations of it that overlap in time, since a history of Files is
-- one operation after another; the disk and S3 backends, the SQL of the drivers but that of files, trash and uploads, the HTTP and XML handlers, the
-- templates, the processes of ffmpeg, the parsers of media containers, and everything that is only
-- input and output. The text of errors is a constructor for each message.
pub mod Prelude
pub mod Auth
pub mod Calendar
pub mod Dav
pub mod Db
pub mod Files
pub mod Media
pub mod Storage
pub mod Web

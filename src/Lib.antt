-- ===== src/Lib.antt =====
-- backwyn backs up a Postgres database, restores every backup into a sandbox to see that it is one,
-- reports whether a verified backup is recent enough, and prunes old backups. A backup is two objects
-- of a store: artifacts/<id>.dump.enc, the encrypted dump, and manifests/<id>.manifest.json, the record
-- of what it is and whether it was verified. The manifest is written last and deleted first, so that a
-- manifest in the store stands for a complete artifact.
--
-- The parts, and the files that model them:
--
--   internal/storage    Storage: the interface `Backend` as a record of functions on the state of the
--                       store, and `IsStore`, what its methods promise about the object under each key.
--                       A call that reports an error has been carried out or has not. `IsStoreOn` is
--                       the same for some keys. Storage/Memory is an implementation each of whose calls
--                       may be made to fail. Storage/Local is `Local`, over the file system of
--                       Storage/Files, with proofs in Keys (keys and paths), Kept (`Put`), Listed
--                       (`List`) and Contract; its keys are those without empty, `.`, `..` and `.tmp-`
--                       components, and Storage/Confined turns a store for some keys into one for a
--                       program that uses no other. Storage/S3 is `S3`, over the client of the SDK, with
--                       Pages (`List`) and Contract.
--   internal/alert      Alert: events, `payload` and the two alerters, with Alert/Runes (UTF-8 as Go
--                       reads and writes it) and Alert/Delivered.
--   internal/manifest   Manifest: the records, the keys (Manifest/Keys: they do not collide), `decode`.
--   internal/crypto     Crypto/Cipher: `encrypt` and `decrypt`, over the readers and writers of
--                       Crypto/Stream; Crypto/Format is the format as a relation between a text and
--                       its frames. Crypto/Steps, Keyed, Encrypting, Total and Decrypting prove one
--                       step each, and Crypto/RoundTrip what callers rely on.
--   internal/artifact   Artifact/Load (`Load`, `LoadAll`, `Save`), Artifact/Materialize
--                       (`Materialize`, `MaterializeTemp`), and proofs in Artifact/Reads, Faithful
--                       and Swept (the temporary file).
--   internal/config     Config, with Config/Loaded; the environment is a function.
--   internal/pgtools    Pgtools/Sql (the functions on texts), Pgtools/Dsn (connection strings) and
--                       Pgtools/Client (those that run a program), with Pgtools/Quoting and
--                       Pgtools/Client/Temps (what they leave of the temporary files).
--   internal/backup     Backup: `Run` in two parts, `prepare` on the machine and `store_backup` on the
--                       store, with Backup/Stored and Backup/Restorable; Backup/OnDisk is a backup
--                       into a directory, and Backup/Swept is about the temporary file.
--   internal/verify     Verify: `Run`, with Verify/Checks, Verify/Verdict (a success) and Verify/Marked
--                       (a failure), and Verify/Swept. The store and the machine do not see each other, so the deferred
--                       removals may come before the `Save`.
--   internal/restore    Restore: `Run`, with Restore/Guarded and Restore/Swept.
--   internal/check      Check, with Check/Healthy.
--   internal/retention  Retention/Policy, Slots and Plan (`Compute`), Apply, Sweep (`SweepOrphans`),
--                       and proofs in Reasons, Decided, Guards, Exact (against the description in
--                       Spec), Complete, Deleted, Orphans and Spared.
--   internal/runner     Runner/Status: the tracker and the handlers, with Runner/Status/Health.
--                       Runner/Cycle: one cycle over the store, the machine, the tracker and the events
--                       that were handed to the alerter, with Runner/Pruning, Alerted, Swept and
--                       Answered (the cycle and `/healthz`).
--   cmd/backwyn         Command: `main`, `run` and `newBackend`, over a process (Command/Runtime: the
--                       store, the machine and what was printed). Command/Flags is the package `flag`;
--                       Command/Prune, Check, Restore, Daemon, Listing and Usage are the commands, with their
--                       proofs in child modules, and Command/Monitored is `check` from `main` to the store. The daemon's loop takes the events that wake
--                       it as a list; the times that a command reads from the clock are arguments.
--
-- Backup goes through Pgtools, Crypto and Storage; Artifact goes through Storage and Crypto; Check and
-- Retention read what Artifact/Load loads. Each of them takes the store as a `Backend S` and works on
-- its state S; what also runs programs or keeps files takes a `Host H` (Host) and works on S and H.
--
-- How Go is read:
--
--   A string or a byte slice is a list of bytes (Prelude/Text). An error is its text, in `Result`;
--   errors of Config are a data type of their own. An error that has the text of io.ErrUnexpectedEOF is that
--   error. An int64 size is a bit pattern that wraps at 2 ^ 64.
--   A time.Time is the number of nanoseconds since 0000-01-01T00:00:00Z (Time); a Duration is an
--   integer, and `Sub` saturates. `TrimSpace` trims the white space of ASCII. A goroutine behind an
--   io.Pipe is run to its end before the other side reads. A process that stops between two calls of
--   the store is one whose later calls all fail.
--
-- What stands outside the repository is a parameter: `Json` (encoding/json), `Sorter` (sort.Slice, with
-- the law that the result is a sorted permutation), `Aead` and its laws (AES-GCM: what is sealed opens,
-- and is 16 bytes longer), `Random` (crypto/rand), SHA-256, `Host` and its laws
-- (os and os/exec, in Host/Temps: a temporary file is new, `Remove` works), `Files` and its laws
-- (the files of os: a rename is atomic, a temporary file is new, a walk visits every file), `Client` and
-- its laws (the S3 service: pages hold every key once), `Urls` and `Web` (net/url, strings.EqualFold, net/http), `Values`
-- (strconv and time, for flags), text/tabwriter, `%q` and `%.3f`. Examples instantiate all of them:
-- Storage/Memory, Storage/Local/Disk, Storage/S3/Drawer, Host/Shelf, Retention/Sort (insertion sort meets the law of
-- `Sorter`), Crypto/Tag (a cipher that appends a tag).
--
-- The loops of `Encrypt` and `Decrypt` run on fuel that is one more than the bytes of the input; every
-- round but the last takes one byte or more, and the theorems say that they end with their result. The loops
-- over backups, keys and slots are recursions on lists. The loop of `S3.List` runs on fuel for the pages
-- that the paginator has left, which its laws bound.
--
-- Not modelled: the HTTP server around the handlers, the format of the log lines, and a signal that comes
-- during a cycle: the daemon sees it behind the cycle. The process reads the files of os as they are, with
-- no other process on them.
pub mod Prelude
pub mod Time
pub mod Manifest
pub mod Storage
pub mod Alert
pub mod Crypto
pub mod Artifact
pub mod Retention
pub mod Check
pub mod Config
pub mod Host
pub mod Pgtools
pub mod Backup
pub mod Verify
pub mod Restore
pub mod Runner
pub mod Command

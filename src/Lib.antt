-- ===== src/Lib.antt =====
-- forkfs: a verification library for the daemon of forkfs, a copy-on-write file system with named Worlds
-- that are forked from one another.
--
-- The daemon keeps its repository in a store of immutable objects, named by the hash of their content, and
-- of roots, which are named references to objects. A World's metadata is a view over that store: a stack of
-- sorted runs whose newest entry decides, or a flat set of roots in an older repository. Files of a World are
-- opened by handles, and handles that stem from one open share a cursor, which also holds the byte-range
-- locks of that open file description. Clients reach all this by RPC.
--
-- Which file models which part:
--   Common           shared types, tests and lemmas: Boolean tests on ℕ, lists over ℕ, bytes, ordered maps
--                    (std::map<std::string,V>), and results (need, which throws std::runtime_error).
--   Codec            load, store (daemon/journal.cpp), u32, put32 (daemon/metadata_view.cpp) and the other
--                    spellings of the little-endian integers.
--   Keys             the prefixes of root names (daemon/metadata_view.cpp).
--   Handles          LockRange, Cursor, OpenHandle, handles_ (daemon/container.h) and
--                    Namespace::find_handle (daemon/namespace.cpp). A std::shared_ptr<Cursor> is a number.
--                    Counts is Namespace::dup and close with open_counts_; Balance and Closing hold the proofs.
--                    Seek is Namespace::seek, given the size of the file.
--   Locks            Namespace::try_lock and try_lock_range (daemon/namespace.cpp). Ranges and Step hold the
--                    definitions; Cover gives the mode held at each offset; Conflicts holds the
--                    invariant; Order, Grant, Outcome, Exclusion and Total hold the proofs.
--   View             NamespaceView (daemon/metadata_view.cpp). Run is encode_run and decode_run; Runs is
--                    lookup, references and compact_frozen; Plan is the stack of runs that plan writes.
--   Namespace        Namespace (daemon/namespace.cpp) over the records of a view: the inode records with their
--                    keys and identities; Names is valid_view_name, components and target_components, Walk
--                    is walk, parent and resolve; Changes is update and commit_changes; Files, Content and
--                    Links are the operations on files, bytes and names, Content/Handled those through a
--                    handle, Opening is open and Listing the directory cursors; History is snapshot, fork,
--                    worlds, revisions and recover_orphans over the store. Records, Names/Paths,
--                    Content/Written, Content/Stored, Content/Found, Content/Seen, Content/Placed,
--                    Links/Moved, Listing/Cut, Listing/Picked, Listing/Pages, Opening/Balance,
--                    History/Forks and History/Heads hold the
--                    proofs.
--   Tree             MetadataTree (daemon/metadata_tree.cpp), but for its editing. Nodes is node, make and
--                    higher with the bytes of a node; Read is height, lookup, keys, page and entries; Format,
--                    Bounds, Visits, Entries, Prefixes, Picks, Pages, Blocks and Listing hold the
--                    proofs.
--   Store            LevelStore::transact, root and object (daemon/level_store.cpp). Backend is what is
--                    relied on of LevelDB; Transact holds the definitions; Roots, Updates, Prepared,
--                    Objects, Batch and Commit follow a batch to the database; Durable and Refused hold
--                    what clients rely on.
--   Sessions         OwnedHandle, Session and Sessions (daemon/rpc.cpp): leases, and the exclusive mount of a
--                    World. Leases and Mounts hold the proofs about mounts, Tokens those about creation.
--   Rpc              frame, response and decode and the answers of serve_rpc (daemon/rpc.cpp), and what
--                    request_rpc sends and reads (daemon/rpc_client.cpp); Errors is rpc_posix_error (daemon/rpc.h). Frames and
--                    Refusals hold the proofs.
--   Json             the command line's JSON output (cli/json.h). Strings is json_string, Reader a strict reader
--                    and RoundTrip that it reads what is written; Writer is struct Json and Objects the
--                    shape of what it writes; Records and Shapes are the printed records (core/include/worldfs/worldfs.h);
--                    Lists is json_read_list.
--   LiveView         a mounted World of the historical core (core/src/view.cpp): the inode table, the paths
--                    built from it and the operations, over the platform layer as a record Fs. Paths, Ops,
--                    Xattrs and Readdir hold the definitions, Calls a run of them; Confined, Keeps, Kept,
--                    Listed and Reached follow the invariant of the table; Climb, Moves, Renames and Lookups
--                    the paths of single inodes; Listing the list of the attributes.
--
-- How the parts interact: compaction and the writing of a delta produce the objects and the manifest that a
-- transaction of the store commits; the view decodes them again. The lock operations change only the cursor
-- of one description in the table of handles. The close of a file's last handle removes the roots of its
-- orphan by a transaction of the store. The server asks the session table before it lets a request
-- write to a World. Every operation of the namespace reads one view and gives the changes to commit, or throws
-- and changes nothing; snapshot and fork are transactions of the store.
--
-- Bounds: byte offsets, counters and sequence numbers are natural numbers; the sums of the lock ranges stay
-- below 2^63 + 1 by the first guard of try_lock_range, and the sequence does not pass 2^64 - 1 by the guard
-- of transact, so that neither wraps; the two other counters of the store wrap in 64 bits as written. The
-- depth of a path is bounded by 1024 and that of the metadata tree by 256, where the source fails too, and a
-- growing list is read at most nine times. All loops are structural recursion; the only other fuel is that
-- of the decimal numerals, which is the number itself plus one.
--
-- Parameters: the object hash (SHA-256 over a framed payload) is any function from bytes to identities.
-- The clock is an argument, a function from the number of the call to the reading where an operation reads it
-- more than once, and so is the list of tokens that random_token or new_id draws; where the source would draw
-- on, the end of the list is an error. LevelDB is any database whose write applies a
-- batch whole and in order, or fails; a failing read is not described. The platform layer below the live
-- view is any record of operations; the names that ::readdir gives can stand in a directory.
--
-- Not modelled: the caches of the store (they return what the database holds), its metrics and its garbage
-- collection; the editing of the tree form of views (merge, set and apply); the wait of
-- update for the compaction of a World with many runs, compact, run_count, verify and path_for_inode of the
-- namespace, and the pins of its directory cursors; the journal file; compaction jobs; the end of a session, the
-- dispatch of requests and sockets; mutexes, since each operation runs under the lock of its container,
-- store or view. The directories core, cli and macos are historical or platform code beside the daemon, of
-- which the live view and the JSON output are modelled.
pub mod Codec
pub mod Common
pub mod Handles
pub mod Json
pub mod Keys
pub mod LiveView
pub mod Locks
pub mod Namespace
pub mod Rpc
pub mod Sessions
pub mod Store
pub mod Tree
pub mod View

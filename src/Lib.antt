-- ===== src/Lib.antt =====
-- VeritasSync keeps a directory equal on several devices. A node compares its list of files with that
-- of a peer (sync), over a reliable session on UDP (net) that a controller keeps for each peer (p2p);
-- peers find each other through a tracker (tracker), and what is known of the files is in a database
-- behind a cache (storage). Paths are from the repository's root; the headers are under
-- include/VeritasSync, the code under src.
--
-- Which file models what:
--   Sync/Protocol          sync/Protocol.h, and the modes and the history record
--   Sync/SyncManager       src/sync/SyncManager.cpp: compare_states_and_get_requests is the fold of
--                          request_file over the remote files and the filter should_delete over the
--                          local ones; compare_dir_states likewise
--   Sync/SyncSession       src/sync/SyncSession.cpp: begin, acknowledgement and timeout of a flood;
--                          Timeout has the counting of the handlers of src/sync/SyncHandler.cpp
--   Sync/TransferManager   src/sync/TransferManager.cpp: handle_chunk is receive_chunk, store_chunk,
--                          place_chunk and write_chunk in turn; below it Packet (the bytes of a chunk),
--                          Entry (lookup_or_create_receiving), Finalize (finalize_received_file), Upload
--                          (queue_upload and its loop), Bitmap and Resume (interrupted downloads), State
--                          and TempFile; the other modules there have lemmas and theorems
--   Tracker/State          the heap of sessions, the rooms (m_peer_groups), the index (m_peers_by_id)
--   Tracker/TrackerServer  src/tracker/TrackerServer.cpp: join (evict_old, then admit), leave, forward
--   Tracker/Session        src/tracker/Session.cpp: the reads, handle_message, handle_register
--   Storage/CachedFileStore  src/storage/CachedFileStore.cpp: the cache, its buffer, the guard
--   Storage/Database       src/storage/Database.cpp: the table of files, and TransactionGuard (open_guard,
--                          commit_guard, close_guard), over the calls of SQLite (Laws)
--   Storage/FileFilter     src/storage/FileFilter.cpp: parse_rule, should_ignore, glob_to_regex (Glob)
--   Net/KcpProto           net/KcpProto.h
--   Net/KcpSession         src/net/KcpSession.cpp over the calls of ikcp.h
--   P2p/PeerController     src/p2p/PeerController.cpp: roles, life cycle, progress, timer
--   P2p/PeerRegistry       src/p2p/PeerRegistry.cpp
--   P2p/MessageRouter      src/p2p/MessageRouter.cpp
--   P2p/BroadcastManager   src/p2p/BroadcastManager.cpp: the broadcasts in batches (Batches), the flood
--   P2p/KcpScheduler       src/p2p/KcpScheduler.cpp: one pass of update_all_kcps
--   Common/PathUtils       common/PathUtils.h, in the branch for POSIX; normalize also as on Windows
--   Common/SyncKey         the check of keys in common/Config.h
-- Base holds what they share: strings as lists of bytes, Boolean tests, lists and association lists.
-- Tests applies the theorems to concrete inputs.
--
-- State is passed explicitly. A method that runs under a lock is one step; where the order of steps
-- matters, the modules have lists of operations or a relation of steps. Shared pointers to tracker
-- sessions are numbers into a heap, as sessions are found by identity. What is sent, and callbacks
-- that are called, are returned or logged in order.
--
-- The library ikcp, std::regex, SQLite (with what it documents of a statement, of BEGIN, COMMIT
-- and ROLLBACK, and of their failures), weakly_canonical of the file system, the hash function of
-- strings, Snappy, SHA-256 and the reading of JSON are parameters; two devices may have different
-- hash functions of strings. What the calls of the file system answer during a chunk is an
-- argument (Io), and a file is its text. The loop of an upload is a list of runs, each with what
-- opening the file gives and what the send callback answers; its inner loop counts down the chunks
-- that are left. The loop that takes messages from ikcp runs on fuel; more fuel than there are
-- complete messages is enough, since each round takes one. The loop of glob_to_regex runs on the
-- length of the pattern, which is enough, as each round takes a character away. All other loops
-- are over lists. Counters keep the wrap-around of their type; time stamps that are only carried
-- are numbers. Locks, threads, sockets, encryption, logging and the user interface are not
-- modelled, nor are the watcher and the discovery. Chunks of one file are handled one after
-- another, as its lock has it.
pub mod Base
pub mod Common
pub mod Sync
pub mod Tracker
pub mod Storage
pub mod Net
pub mod P2p
pub mod Tests

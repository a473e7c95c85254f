-- ===== src/Lib.antt =====
-- Verification of makebelieve, a demand-driven build system exposed as a filesystem. Rules are declared
-- in a manifest; a file is built when it is opened; builds run a few at a time and read the source tree
-- through snapshots.
--
-- Manifest (src/manifest.hpp, src/manifest.cpp). Manifest.antt holds the data; Words, Pattern,
-- Instantiate, Line, Declare, Feeds and Parse follow `Manifest::parse` from a line's words to the
-- rules that stay: `read_line` is what one line says, `check_declared` the checks against earlier
-- lines, `declare` the changes to the local variables of `parse` (the record Progress), `run_lines`
-- the loop over the lines, and `finish` the checks after it. An error is its line and a constructor
-- for its message with the message's arguments; the wording is not modelled. `wildcard_word_from` runs
-- on fuel, the length of the text, as each round passes at least one byte.
--
-- Paths (`std::filesystem::path` as it is on POSIX, generic format). A path is the list of its components;
-- Paths.antt has what the program uses of it. Roots and Windows paths are not modelled. A text is the
-- list of its bytes.
--
-- InMemory (src/inmemorydirectorytree.cpp) and DirectoryTree (src/directorytree.hpp). The map of
-- entries is an association list in the order of its keys. A failed assertion is `none`. Each operation is
-- one step: locks are left out, and the subscribers are told after the change.
--
-- DirectoryTree/Util (src/directorytreeutil.cpp). `diff_at` over two trees given by what it calls of them. Its
-- recursion is on fuel; more fuel than the listings are nested deep is enough.
--
-- BuildQueue (src/buildqueue.hpp). The queue's members are a record, and what the code does under its
-- lock is one step; Operations.antt runs any number of `SlotOperation`s over it in any order. Lines are
-- lists of operations where the source links waiters. A slot that a `Slot` or `Lease` owns is the
-- phase `holding` of the operation that took it; moves between those objects are left out.
--
-- FileSnapshots (src/filesnapshots.cpp). A snapshot is known by its address, and an address that `new`
-- returns is not one of a snapshot still held. `take` reads the generation in one state, looks for a
-- snapshot to share in another, and records a new one, after its await, in a third. The clock counts on
-- 64 bits.
--
-- Coordinator (src/buildcoordinator.cpp). Attempts and waits are numbers, in the order they are made, and
-- stay in the store. What the source does under its lock is one step: Transitions.antt has the private
-- transitions, Requests.antt the calls from outside. What `Effects::run` calls once the lock is
-- released is recorded in `calls`, with the permits given back and promoted under the lock. `edges_out`
-- is a list of attempts with counts. `path_to` and `hurry` run on fuel: two more than there are attempts,
-- as each is put on the stack once, and more than there are attempts and edges together. Search, Hurry
-- and Requests/Deadlock are about the searches; Transitions/Preserved and Others say what each transition
-- changes; Requests/Sound, Hurrying and Permits go through all the steps.
--
-- BuildCache (src/buildcache.cpp). The tables are a parameter, the record Libraries, with what SQLite promises
-- of each statement as IsSql; Rows.antt is an instance with lists. The directory of contents is a map from
-- names to bytes. A record of faults says which calls fail, queries included. An error that `store` throws
-- has a `std::error_code`, with `none` for success: for a failed rename it is the outcome of deleting the
-- scratch file, as the source overwrites the first error. `store` is a chain of stages, one for each
-- call that may fail; Stages.antt names the states between them. A transaction happens as a whole or
-- not at all; what a loss of power takes back is left out. Whole and its modules and Effects are
-- about the contents, Outcome, Records and Drops about the rows.
--
-- LinkedNode (src/linkednode.hpp). A node is known by its address, and the store holds the `prev` and `next`
-- of every node.
--
-- Base holds what the parts share: Boolean tests, lists, results, options and `std::map`.
--
-- Not modelled: the file systems and processes of the operating system, the event loop,
-- the tree of builds, and the wording of messages.
pub mod Base
pub mod Text
pub mod Paths
pub mod Manifest
pub mod DirectoryTree
pub mod InMemory
pub mod BuildQueue
pub mod FileSnapshots
pub mod LinkedNode
pub mod Coordinator
pub mod BuildCache

-- ===== src/Lib.antt =====
-- A verification library for Zed: the lake, which is Zed's versioned store of data, ZCODE, the
-- encoding that its values are written in, and the type context, which makes one pointer of each
-- type.
--
-- A lake holds pools; a pool holds branches; a branch names a commit object. Each commit object
-- names its parent and holds actions, which add data objects and vectors or delete them. The
-- snapshot at a commit is what all the actions from the root to it add up to, and a patch is a view
-- over a snapshot with changes on top, from which a new commit object is made. The names of pools
-- and branches are kept in key-value tables, each of which is rebuilt from a journal: numbered
-- files, written one after the other, that several processes append to. A branch operation reads
-- the branch's configuration, makes a commit object on top of its commit, writes that object, and
-- moves the branch by an update whose constraint is that the branch has not moved meanwhile.
--
-- The modules:
--   * Zcode (zcode/): Uvarint has Go's `encoding/binary` varints and `SizeOfUvarint`; Bytes has
--     `Append` and `DecodeTagLength` of zcode/bytes.go; Iter has `Done`, `Next` and
--     `NextTagAndBody` of zcode/iter.go; Builder has zcode/builder.go; Counted has
--     zcode/counted.go. A byte slice is a list of numbers; Go's nil slice, which is null, is `none`.
--     A run that panics is the outcome `panic`. What the standard library does is written out in
--     Uvarint, from its documentation.
--   * Types (type.go, complex.go): the types. Value has `AppendTypeValue`; Compare has `CompareTypes`
--     and the sort of a union's types; Names has what is used of Go's library on strings. A pointer
--     to a type is a value that carries its id, so that two pointers of one context are the same
--     when the values are. Context (context.go) has the table of types and its lookups, Decode
--     has `DecodeTypeValue` and what is built on it; Holds says when a context holds a type, and
--     Consistent is the invariant.
--   * Lake.SeekIndex (lake/seekindex/): the index of a data object, its writer and its filter.
--   * Nano (pkg/nano/span.go): spans of time, on the 64-bit words of Prelude.Word64.
--   * Runtime (runtime/sam/op/): operators over the interface `Puller` of zbuf/batch.go; Head has
--     `head`, Tail has `tail`, and Pipeline the two in a row.
--   * Lake.Data (lake/data/object.go): the metadata of a data object. A KSUID is its number.
--   * Lake.Commits (lake/commits/): Actions has the actions and the commit objects; Snapshot has
--     `Snapshot`, `PlayAction`, `Play` and the serialised form; Patch has `Patch`, `NewCommitObject`,
--     `Revert` and `Diff`. Go maps are association lists whose order is one of those that a `range`
--     may take; `View` has a constructor for each type that implements the interface. The commit's
--     KSUID and the time are arguments. Store has lake/commits/store.go: `Get`, `Put`, `Remove` and
--     `Snapshot`, and Store.Paths what the store reads along the chain of parents. Its caches, of
--     github.com/hashicorp/golang-lru, are the interface of Cache, which may forget any entry.
--   * Lake.Journal (lake/journal/): Queue has the files, HEAD and TAIL that a `Queue` keeps in its
--     storage engine, and the reader; Store has the table and `load`; Transaction has `commit` and
--     the operations made of it. What other processes do to the journal between a transaction's
--     load and its write is a function, which the theorems only ask to append.
--   * Lake.Branches (lake/branches/) and Lake.Pools (lake/pools/): the tables of branches and of
--     pools, over Journal.
--   * Lake.Branch (lake/branch.go): the loop of `commit`, over Branches and Commits.Store; Create
--     has the constructors of commit objects, and Operations what is made of both. What other
--     processes do to a pool before a branch is updated is a function too.
--
-- Bounds and fuel: `decode_from` recurs on rounds, of which as many as there are bytes are enough,
-- and the loop of `tail` on rounds, of which one more than the parent has batches are enough. A
-- uint64 has at most ten groups of seven bits, so that the loops on one take nine rounds and a last
-- byte. Positions of a journal are numbers without a bound, where the code has a uint64, since each
-- position takes a file. A transaction and a branch's commit make ten attempts each, as the code
-- does. The loops of the commit store from a commit to its parent run on rounds, of which as many
-- as the commit's history has, and one more, are enough; a chain of parents that never ends has no
-- such number. `read_all` in Zcode.Builder.Nesting is a client's loop on one round for each byte
-- and one more.
--
-- Not modelled: storage engines, goroutines and locks other than the interleavings of journal
-- writers and branch commits; the ZNG bytes that actions and journal entries are serialised to;
-- selection by span; a snapshot file of a journal that is damaged; negative limits of `tail`;
-- `DeleteWhere`, which runs a query; the writer in front of `Load`, vector files and the texts of
-- messages; what a pool and the root of a lake do over these stores; values, the compiler, the
-- runtime and the file formats.
pub mod Prelude
pub mod Zcode
pub mod Lake
pub mod Types
pub mod Runtime
pub mod Nano

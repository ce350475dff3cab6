-- ===== src/Lib.antt =====
-- The core of a raft-replicated blockchain node: accounts and rewards, the transaction pool, token
-- contracts, and the byte formats, trees and lists that these stand on.
--
-- A transaction enters the pool (txpool/txpool.go), which checks its signature, nonce and funds against
-- the chain and keeps it in a heap. A block of transactions is agreed on through raft and applied by
-- AddBlock (blockchain/blockchain.go), which moves balances, pays fees and rewards and runs token
-- scripts (contract/exec/exec.go) that were compiled from syntax trees (contract/parser/operate.go).
-- All of it is stored under keys made by until/store/bg/bg.go.
--
-- The files, and what they model:
--   Common and its children: lists, byte strings and tests over the native numbers, Go's ways to end a
--     call (value, error, panic), association lists.
--   Codec: the integers and slices of until/miscellaneous/miscellaneous.go and their copies in
--     operate.go.
--   Store: eMapKey, dMapKey, mget, mset and mdel of until/store/bg/bg.go over badger. A badger
--     transaction is the interface `Badger`: a write may be refused; one that is taken is read back and
--     touches no other key. Store.Lists has the lists (llpush, lrpush, llpop, lrpop), Store.Lists.Entries
--     what goes by an index (lset, lindex, lrange, llclear), Store.Sets the sets and sorted sets, and
--     Store.Database the methods of bgStore, over the interface `Database` of beginning and committing.
--     Store.Scan is what goes through the keys with a prefix (mkeys, mvals, mkvs, smembers, zrange and what
--     clears a map or a set), over the interface `Iterator`; a key is taken as it is when it is deleted.
--     Store.Server is the database server of until/store/server: a function for each command of exec.go,
--     the replies of response.go, and how serve finds the command.
--   Base58: Decode of until/base58.go and AddrTopub of types/address.go.
--   Transaction: the records of transaction/transaction.go.
--   Merkle: New, mkMerkleTreeRoot, mkBranch and GetMtHash of until/merkle. The hash is a parameter, of
--     fixed size where that matters. Merkle.Proofs is VerifyNode, with the arrays that its slices share.
--   Slice: until/slice/slice.go over the interface of until/typeclass/ord.go.
--   Chain: set_balance, setMinerAccount, setMinerFee and setAccount of blockchain/blockchain.go;
--     Chain.Distr is Distr; Chain.Locks is LockBalance, Unlockbalance and what they call; Chain.Block is
--     AddBlock, and Chain.Block.Ledger the balances that it is meant to make; Chain.Results is
--     Calculationresults, Checkresults and block_change of raftconsensus/node.go; Chain.Queries is NewBlock,
--     SetHash of block/block.go and the reads of heights, blocks and transactions.
--   Txpool: Add, verify, check, Filter and the heap of txpool/txpool.go, with container/heap's up and
--     down. ed25519's verification and the configuration's entry `qtj` are parameters. Txpool.Pendings
--     is Pendings, Txpool.Verified is VerifyBlcok.
--   Raft: the node of raftconsensus/node.go. Raft.Commit is commitEntries with the checks and the commit of
--     a block, Raft.Members updateClusterInfo and the changes of the members, Raft.Ranging the loops that cut
--     elements out of the slice that they range over, Raft.Entries the functions that take a part of the log,
--     Raft.Ready what handleChanel does with what raft has ready, and the restart of readWAL, Raft.Cluster
--     NodeManagement, GetClusterInfo and HandleNode. Raft.Machine is the machine that is replicated: what
--     commitEntries does to the chain, without the rest of a node. What happens outside while an entry is
--     committed is a `Moment`, of the clock, the commits and the answers of the contract database and of raft.
--   Server: the handlers of server/server.go, from the chain and a body to what they answer, with
--     GetTransactionByAddr of blockchain/blockchain.go.
--   Contract.Script: Script and ScriptArgument of contract/parser/otypes.go, with Show and Read.
--   Contract.Lexer: contract/parser/word.go and ctypes.go; Contract.Grammar: contract/parser/parser.go.
--   Contract.Operate: operate0 to operate6 and Parser of contract/parser/operate.go.
--   Contract.Exec: deal0 to deal4, New and Flush of contract/exec/exec.go;
--     Contract.Exec.Root is Root.
--   Tests: the theorems at concrete inputs.
--
-- State is passed on explicitly: a store or a list goes in, and the one after the call comes out.
-- Integers are natural numbers; 64 bit sums and differences are written with their wrap-around.
--
-- Bounds and fuel. Loops are structural, or run on fuel: the binary search, Nub and the Merkle tree on the length
-- of the list, which falls in every round; the heap's loops on the number of elements, since the index
-- is halved or doubled in every round; the loop of Pendings on one more than the transactions in the
-- heap, of which every round takes one; the lexer and the grammar on the length of what is to be read,
-- of which every round reads some; the list ranges on the number of their rounds; big integers on the length of the text they come from. The
-- theorems on these loops are for the fuel that the functions give themselves.
--
-- Not modelled: etcd's raft, gRPC, sockets, the clock, JSON and logging, which are other libraries' work.
-- Of raftconsensus, the loop of packBlock and recoverSnapshotData; of server, GetBlockbyHash, PackBlock
-- and LockAmount, and the exchange rates; the reading of a request in until/store/server; fittle; Qsort.
pub mod Common
pub mod Codec
pub mod Store
pub mod Base58
pub mod Transaction
pub mod Merkle
pub mod Slice
pub mod Chain
pub mod Txpool
pub mod Raft
pub mod Server
pub mod Contract
pub mod Tests

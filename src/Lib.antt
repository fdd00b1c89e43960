-- ===== src/Lib.antt =====
-- easyblockchain: a blockchain node in Python (useful_blockchain/), here the blocks, the two consensus
-- protocols, the chain and its validator, and what a node decides on the messages of its peers.
--
-- The parts, and how they meet. A block is a JSON object. `BlockChain` (useful_blockchain/blockchain.py)
-- keeps a list of blocks, a consensus protocol and a key pair. To make a block it asks the protocol to
-- prepare it (mining under proof of work, a signature of the proposer under proof of stake); to take a
-- block from outside it asks the protocol to check the link and the block. The chain validator
-- (useful_blockchain/chain_validator.py) repeats the checks for a whole chain, as a peer does with what
-- another peer sends. The node (useful_blockchain/network/) fetches a peer's chain in batches, and lets
-- the protocol choose between it and its own; which peers it connects to and how often they may speak is
-- decided by the discovery, the checks of URLs and the rate limiter.
--
-- Files:
--   Python.antt, Python/: exceptions and results, JSON values, dictionaries with string keys in order
--     of insertion.
--   Platform.antt: what the code takes from outside the repository, as the fields of a record that is
--     an argument everywhere: SHA-256, json.dumps, int() of a text, strptime, floating-point
--     operations (a float is its 64 bits), RSA. Theorems that need more of one than that it is a
--     function say so in a hypothesis (Signature/Laws.antt: CryptoLaws).
--   Types.antt, Types/Check.antt: useful_blockchain/types.py; a check passes, rejects with a reason,
--     or raises.
--   Dynamic.antt: `==`, truth and int() on values that came off the wire.
--   Hash.antt, Signature.antt: useful_blockchain/hash_utils.py and signature.py.
--   Consensus/Link.antt: useful_blockchain/consensus/base.py. Consensus/Pow.antt, Difficulty.antt,
--     Mining.antt: consensus/pow.py. Consensus/Stake.antt, Pos.antt, Propose.antt, PosChain.antt,
--     Choice.antt: consensus/pos.py, with Consensus/Stake/Chosen.antt for the choice of a proposer.
--     Consensus/Protocol.antt: the choice between the two, and consensus/factory.py.
--   ChainValidator.antt: useful_blockchain/chain_validator.py. BlockCheck.antt: what `add_block` checks.
--   BlockChain.antt: useful_blockchain/blockchain.py; a method that may raise returns its result
--     beside the object.
--   Network/Requests.antt, Session.antt, Answer.antt, Fork.antt: what useful_blockchain/network/node.py
--     does with heights, batches of blocks and chains from peers. Network/RateLimit.antt, Tls.antt,
--     PeerAuth.antt, PeerUrl.antt, Discovery.antt: the files of those names in network/, with
--     Addresses.antt for what peer_url.py takes from the standard library.
--   Network/Messages.antt, Peer.antt, Server.antt: the files of those names. Peer.antt has one round of
--     the loop that listens and the runs of rounds; Server.antt has the registry of connections and
--     the runs of what tasks do to it under its lock.
--   Network/Reconnect.antt: network/reconnect.py, with the delay as a function of the failures.
--   Observability/Health.antt: useful_blockchain/observability/health_server.py, from the words of the
--     request line and the header lines to the answer.
--   Settings.antt, Settings/: useful_blockchain/settings.py. Records.antt has the settings with all
--     their fields, and integers of either sign; Values.antt reads single values and merges mappings,
--     Connections.antt, Network.antt, Names.antt and Local.antt read the sections.
--   Persistence/: useful_blockchain/persistence/store.py. Files.antt is what it takes from the
--     operating system and json, Store.antt the paths and checks, Load.antt and Save.antt the two
--     methods; a save is a list of writes of which any may fail.
--   The children Sound, Complete, Laws, Loop, Extends and the like hold what is proved of a module.
--   Tests/: a platform whose functions run, and the theorems at concrete inputs.
--
-- Names. A definition has the name of the function or method that it translates, in the module of its
-- file; a method takes the object as first argument (`self`), or only the fields that it reads.
-- `Exc` lists the exceptions that the code raises or catches.
--
-- Bounds. Stakes, minimum stake and block reward are natural numbers outside Settings/, which reads
-- integers of either sign and checks none of these three. Every loop of the code is a recursion on the
-- list or the number of rounds it runs over, so nothing here needs fuel; the mining loop runs `max_mining_iterations` rounds. The times of the rate
-- limiter are whole units of a clock, where the code has floats; the clock of a HELLO counts
-- microseconds, and its timestamp seconds. The limits of the synchronisation settings are natural
-- numbers.
--
-- Not modelled: sockets, tasks and threads, directories and modes of files, printing, and the parts
-- that are calls of libraries around them; the formatted time of a new block is an argument of `add_new_block`.
pub mod Prelude
pub mod Python
pub mod Platform
pub mod Types
pub mod Dynamic
pub mod Hash
pub mod Signature
pub mod Consensus
pub mod ChainValidator
pub mod BlockCheck
pub mod BlockChain
pub mod Network
pub mod Settings
pub mod Persistence
pub mod Observability
mod Tests

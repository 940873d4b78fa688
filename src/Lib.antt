-- ===== src/Lib.antt =====
-- komozoievm: a model of the repository's Ethereum virtual machine, of its transactions and the curve
-- that signs them, of the Python module that runs it on a chain in memory, and of its heap, byte
-- strings and texts, with their theorems.
--
-- The program simulates transactions on a fork of a chain. `EVM` (src/ethereum/EVM.cpp) sets up an
-- `EVMSimulationContext` (src/ethereum/EVMSimulationContext.h and .cpp) for a transaction and runs
-- its byte code an instruction at a time. A call between contracts makes a nested context whose
-- overlays of accounts, code, storage and transient storage fall through to the calling context, and
-- the outermost one to a state provider (src/interface/ChainProvider.h). A call that succeeds writes
-- its overlays back.
--
-- Files:
--   External       what is read from outside: the number library, the containers, the hashes, the
--                  state provider and the block, as parameters of the model
--   Common         lists, association lists, big-endian bytes and Boolean tests
--   Context        the context: State (its fields, the world of nested contexts and the monad of the
--                  code that changes them), Memory (`expandMemory`, `getMemoryStartingAt`,
--                  `calldataLoad`), Provider (the reads down the chain of contexts), Overlay
--                  (`sload`, `sstore`, `tload`, `tstore`, balances, `update...`; Below and Caches: what
--                  a read finds, and what it leaves in the contexts) and Commit (`writeChangesTo`)
--   Machine        the interpreter: Op (opcodes and `decode`, the switch of `tickEVMRaw`), Words,
--                  Data and Control (the cases), Precompiled (src/ethereum/precompiledContracts.cpp),
--                  Call (`callRaw`, `generateCall`, `generateStaticCall`), Run (`tickEVMRaw`,
--                  `runEVMRaw`, `EVM::simulate`, `EVM::execute`) and Progress (bounds on the gas that
--                  the instructions take, and what one instruction does to the counters)
--   Rlp            src/ethereum/RLPEncoder.h and .cpp, as functions of the bytes written so far:
--                  strings, numbers and list heads; Items (lists and access list entries)
--   Envelope       how a transaction is written: src/ethereum/EthereumTransaction.cpp (`rlpEncode...`,
--                  `encodeWithoutSignature`, `isValid`) and Builder
--                  (src/ethereum/EthereumTransactionBuilder.cpp: `signAndExport`, `operator bool`),
--                  and Handles (the counts of references of src/ethereum/EthereumTransaction.h)
--   Fibonacci      the heap of src/util/FibbonacciHeap.cpp and src/include/util/FibonacciHeap.h: Node
--                  (trees and `addChild`), the heap's operations, Shape, Merge, Roots, Operations and
--                  Removal (the heap order and the degrees) and Bag (multisets)
--   Python         src/python.cpp: Objects (what it is called with, and what a call ends with), Values
--                  (the conversions of addresses, numbers and gas limits), Chain (`MockChain`, with
--                  Views and Written), Calls (transactions from objects, and the runs on a chain) and
--                  Bindings (the functions that convert their arguments and call a chain)
--   Buffers        the class of src/include/util/Bytes.h and src/util/Bytes.cpp: handles on shared
--                  storage, which are counted as those of Envelope/Handles are (Values), and comparisons
--                  (Ordering); Arrays (src/include/util/ConstArray.h)
--   Text           Checksum (src/ethereum/ethereum.cpp), Hexdump (src/util/strutil.cpp) and Parsing
--                  (src/include/util/byteutils.h)
--   Modular        numbers modulo P in chunks of 64 bits: src/crypto/modbigint.h;
--                  Inverse (the loop of `modinv`: its end, Euclid's algorithm, and the result)
--   Curve          src/crypto/Secp256k1.h and .cpp: Field (`Secp256k1Field`), Points (inverses, powers,
--                  roots and `Secp256k1Group`) and Keys (`toAddress`, `recover`, `sign`); Folding,
--                  Products and Sums (the field and arithmetic modulo P), Returns and Totals
--                  (termination), Roots, Euler, Quotients and
--                  Signing
--   Tests          concrete runs, and each theorem at a concrete input
--
-- How the state corresponds: a `World` is the running context (`frame`), the contexts that wait for
-- it, innermost first (`parents`; the source reaches them through `chain` and `returnContext`), and
-- what a tracer has been told. A 256-bit number or an address is its value, a `uint32_t` counter
-- wraps where it is added to, a `Bytes` or an `ArrayList<uint8_t>` is the list of its bytes, and a
-- pointer into the memory is its offset. An operation answers `done`, or `fault` where the C++
-- would touch memory outside an object or the library's documented use ends, or `timeout` where the
-- fuel of the loop is used up. The fuel counts instructions and the nesting of calls;
-- Machine/Run/Termination bounds it by the gas that is left and the length of the code. The loop of
-- EXP that squares is given 256 rounds, one for each bit. A `Secp256k1Field` is its value, and is
-- split into four chunks where the code works on chunks. The loop of `modinv` is given 513 rounds
-- (two for each bit, and the one that ends), and the fold of `modReduce256k1FromParts` three tests.
-- The priorities of the heap are numbers other than NaN, its trees are values (a pointer to a root
-- is its place), and its `int` counter is taken not to overflow. Lengths of encodings are taken to
-- fit an `int`. A random number for `sign` is asked for by the fuel that is left.
--
-- A Python float is a sign, a number and a power of two that it is divided by. A call from Python ends
-- with an answer, an exception, or the `fault` or `timeout` of its run. The maps of a `MockChain`
-- stand in it as values: the map of an address's slots has no other owner.
--
-- Not modelled: debug output, the registration of classes with pybind11 and the calls back into Python,
-- the random numbers of the operating system, a
-- write through `operator[]`, `get` or `data` of a `Bytes` object on its own, and code of other
-- projects, whose results are parameters.
pub mod Common
pub mod External
pub mod Context
pub mod Machine
pub mod Rlp
pub mod Fibonacci
pub mod Modular
pub mod Curve
pub mod Envelope
pub mod Python
pub mod Text
pub mod Buffers
mod Tests
